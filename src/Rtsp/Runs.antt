-- ===== src/Rtsp/Runs.antt =====
-- Whole runs of the server, from rtsp_server_init to rtsp_server_uninit.
use freak.Prelude.{
  ℕ, ◌+◌, ◌≡◌, refl, Bool, true, false, ◌&&◌, &&-true, not, Bool-cases, Option-cases, ◌⊎◌, inl, inr,
  List, [], ◌∷◌, Option, some, none, ◌==◌, if◌then◌else◌, arith,
}
use freak.Proto.{◌>>◌, check}
use freak.Memory.{Heap}
use freak.Memory.Counting.{count}
use freak.Rtsp.{Entry}
use freak.Rtsp.Server.{
  Server, Protocol, Offer, rtp_udp, rtp_tcp, other, Env, Reply, reply, Request, describe,
  setup_track, play_media, pause_media, other_request, teardown, find, choose, on_setup, on_pause,
  on_other, on_request, serve_all, server_init, server_uninit,
}
use freak.Rtsp.Owned.{in_entries, entries-Frees}
use freak.Rtsp.Requests.{known}
use freak.Rtsp.Ownership.{
  Accounts, describe-Accounts, play-Accounts, Answers, teardown-Answers, track_of,
  give_transport-Answers,
}

-- What the code asserts of the offer that it takes: UDP has no multicast and both ports.
abbrev pub fair : Option Offer → Bool
fair none = true
fair (some t) = elim t.protocol [
  | rtp_tcp ↦ true
  | _ ↦ not t.multicast && (not (t.client_port1 == 0) && not (t.client_port2 == 0))
]

abbrev has : (List ℕ → Bool) → Option (List ℕ) → Bool
has f none = false
has f (some track) = f track

-- Whether a request can be answered: a setup's path has a slash and its offer is fair.
abbrev pub answerable : Env → Request → Bool
answerable env (setup_track key uri offers made) =
    has (λ track. fair (choose offers)) (track_of env uri)
answerable env (describe key uri) = true
answerable env (play_media key) = true
answerable env (pause_media key) = true
answerable env (other_request key) = true
answerable env (teardown key) = true

-- Whether a request names a track that `rtp_add_transport` knows, if it names one.
abbrev pub tidy : Env → Request → Bool
tidy env (setup_track key uri offers made) = has known (track_of env uri)
tidy env (describe key uri) = true
tidy env (play_media key) = true
tidy env (pause_media key) = true
tidy env (other_request key) = true
tidy env (teardown key) = true

abbrev pub all : (Request → Bool) → List Request → Bool
all f [] = true
all f (r ∷ rs) = f r && all f rs

pub Protocol-cases : (p : Protocol) → (p ≡ rtp_tcp) ⊎ ((p ≡ rtp_udp) ⊎ (p ≡ other))
Protocol-cases rtp_tcp = inl refl
Protocol-cases rtp_udp = inr (inl refl)
Protocol-cases other = inr (inr refl)

-- An answer after which nothing more is left behind, if `b`.
abbrev pub Tidy : Option (Reply × Server) → (ℕ → ℕ) → Bool → Type 0
Tidy o x b = (y : ℕ → ℕ) × Answers o x y × (b ≡ true → (k : ℕ) → y k ≡ 0)

kept : (a : Reply) (x : ℕ → ℕ) (s : Server) (b : Bool) → Accounts x s → Tidy (some (a, s)) x b
kept a x s b h = (λ k. 0, (a, s, refl, λ k. omega (arith, h k)), λ _ k. refl)

fair_checks :
    (a b c : Bool) (o : Option (Reply × Server))
    → not a && (not b && not c) ≡ true
    → (check (if a then false else true)
        >> check (if b then false else true)
        >> check (if c then false else true)
        >> o)
      ≡ o
fair_checks false false false o h = refl
fair_checks false false true o h = ground arith
fair_checks false true c o h = ground arith
fair_checks true b c o h = ground arith

module _ (env : Env) (key : ℕ) (uri : List ℕ) (offers : List Offer) (made : Bool) (x : ℕ → ℕ)
    (s : Server) (track : List ℕ) (h : Accounts x s) (t : track_of env uri ≡ some track) where
  tcp-Tidy :
      (e : Entry) (o : Offer)
      → find key s.sms ≡ some e
      → choose offers ≡ some o
      → o.protocol ≡ rtp_tcp
      → Tidy (on_setup env key uri offers made s) x (known track)
  unfolding on_setup
  tcp-Tidy e o f c p = elim (Bool-cases (o.interleaved1 == o.interleaved2)) [
    | inl i ↦
        simp (on_setup, f, c, p, i)
          (give_transport-Answers env key uri _ made _ e x (record s { channel = s.channel + 2 })
            track h f t)
    | inr i ↦
        simp (on_setup, f, c, p, i) (give_transport-Answers env key uri _ made _ e x s track h f t)
  ]

  udp-Tidy :
      (e : Entry) (o : Offer)
      → find key s.sms ≡ some e
      → choose offers ≡ some o
      → ¬ (o.protocol ≡ rtp_tcp)
      → fair (some o) ≡ true
      → Tidy (on_setup env key uri offers made s) x (known track)
  unfolding on_setup
  udp-Tidy e o f c p v = elim (Protocol-cases o.protocol) [
    | inl q ↦ absurd (p q)
    | inr (inl q) ↦
        simp (on_setup, f, c, q)
          (rw (fair_checks o.multicast (o.client_port1 == 0) (o.client_port2 == 0) _ (simp q at v))
            (give_transport-Answers env key uri _ made _ e x s track h f t))
    | inr (inr q) ↦
        simp (on_setup, f, c, q)
          (rw (fair_checks o.multicast (o.client_port1 == 0) (o.client_port2 == 0) _ (simp q at v))
            (give_transport-Answers env key uri _ made _ e x s track h f t))
  ]

  setup-Tidy :
      fair (choose offers) ≡ true → Tidy (on_setup env key uri offers made s) x (known track)
  unfolding on_setup
  setup-Tidy v = elim (Option-cases (find key s.sms)) [
    | inl f ↦ simp (on_setup, f) (kept (reply 454) x s (known track) h)
    | inr (e, f) ↦ elim (Option-cases (choose offers)) [
      | inl c ↦ simp (on_setup, f, c) (kept (reply 461) x s (known track) h)
      | inr (o, c) ↦ elim (Protocol-cases o.protocol) [
        | inl p ↦ tcp-Tidy e o f c p
        | inr (inl p) ↦ udp-Tidy e o f c (λ q. absurd (ground (arith, p, q))) (simp c at v)
        | inr (inr p) ↦ udp-Tidy e o f c (λ q. absurd (ground (arith, p, q))) (simp c at v)
      ]
    ]
  ]

pub request-Tidy :
    (env : Env) (r : Request) (x : ℕ → ℕ) (s : Server)
    → Accounts x s
    → answerable env r ≡ true
    → Tidy (on_request env r s) x (tidy env r)
unfolding on_request on_pause on_other
request-Tidy env (describe key uri) x s h v = kept _ x _ true (describe-Accounts env key uri x s h)
request-Tidy env (setup_track key uri offers made) x s h v =
    elim (Option-cases (track_of env uri)) [
      | inl t ↦ ground (arith, t)
      | inr (track, t) ↦ simp t (setup-Tidy env key uri offers made x s track h t (simp t at v))
    ]
request-Tidy env (play_media key) x s h v = kept _ x _ true (play-Accounts key x s h)
request-Tidy env (pause_media key) x s h v = kept _ x _ true h
request-Tidy env (other_request key) x s h v = kept _ x _ true h
request-Tidy env (teardown key) x s h v = (λ k. 0, teardown-Answers key x s h, λ _ k. refl)

pub runs-Tidy :
    (env : Env) (rs : List Request) (x : ℕ → ℕ) (s : Server)
    → Accounts x s
    → all (answerable env) rs ≡ true
    → (y : ℕ → ℕ) × (s' : Server) × (serve_all env rs s ≡ some s')
      × Accounts (λ k. x k + y k) s'
      × (all (tidy env) rs ≡ true → (k : ℕ) → y k ≡ 0)
unfolding serve_all
runs-Tidy env [] x s h v = (λ k. 0, s, refl, λ k. omega (arith, h k), λ _ k. refl)
runs-Tidy env (r ∷ rs) x s h v =
    let (v1, v2) = &&-true (answerable env r) _ v in
    let (y, (a, s1, e, h1), t) = request-Tidy env r x s h v1 in
    let (z, s2, f, h2, u) = runs-Tidy env rs (λ k. x k + y k) s1 h1 v2 in
    (
      λ k. y k + z k,
      s2,
      simp (e, f),
      λ k. omega (arith, h2 k),
      λ b k. let (b1, b2) = &&-true (tidy env r) _ b in omega (arith, t b1 k, u b2 k),
    )

count-nil : (xs : List ℕ) → ((k : ℕ) → count k xs ≡ 0) → xs ≡ []
count-nil [] h = refl
count-nil (x ∷ xs) h = absurd (ground (arith, h x))

-- After any requests that can be answered, in any order and by any clients, rtsp_server_uninit
-- frees every object that the sessions that are left hold, each once, and nothing else; nothing
-- is freed that does not live, neither then nor by a setup or a teardown. A setup can be
-- answered if the URI's path has a slash and a UDP offer that is taken has no multicast and both
-- ports.
pub run_freed :
    (env : Env) (rs : List Request)
    → all (answerable env) rs ≡ true
    → (s : Server) × (w : Heap) × (serve_all env rs server_init ≡ some s)
      × (server_uninit s ≡ some w)
      × ((k : ℕ) → count k w.live + in_entries s.sms k ≡ count k s.heap.live)
unfolding server_init server_uninit
run_freed env rs v =
    let (y, s, e, h, t) = runs-Tidy env rs (λ k. 0) server_init (λ k. refl) v in
    let (w, f, c) = entries-Frees s.sms s.heap (λ k. omega (arith, h k)) in (s, w, e, f, c)

-- After requests that can be answered and whose setups name a track with video, audio or meta in
-- it, nothing that the server allocated or created for a session lives when rtsp_server_uninit
-- returns.
pub run_clean :
    (env : Env) (rs : List Request)
    → all (answerable env) rs ≡ true
    → all (tidy env) rs ≡ true
    → (s : Server) × (w : Heap) × (serve_all env rs server_init ≡ some s)
      × (server_uninit s ≡ some w)
      × (w.live ≡ [])
unfolding server_init server_uninit
run_clean env rs v b =
    let (y, s, e, h, t) = runs-Tidy env rs (λ k. 0) server_init (λ k. refl) v in
    let (w, f, c) = entries-Frees s.sms s.heap (λ k. omega (arith, h k)) in
    (s, w, e, f, count-nil w.live (λ k. omega (arith, h k, c k, t b k)))
