-- ===== src/Rtsp/Ownership.antt =====
-- Every object that lives is held by a session, but for the transports that a setup of an unknown track
-- leaves behind; so a run of the server never frees an object twice.
use freak.Prelude.{
  ℕ, ◌+◌, ◌≡◌, Bool, true, false, Option-cases, inl, inr, List, Option, some, none, arith,
}
use freak.Memory.{Heap, alloc}
use freak.Memory.Counting.{count, release-Frees, alloc-count}
use freak.Rtsp.{Kind, Transport, Entry}
use freak.Rtsp.Media.{live_new, get_sdp, start_play}
use freak.Rtsp.Server.{
  Server, Env, Reply, reply, find, delete, update, behind_slash, on_describe, give_transport,
  on_play, on_teardown,
}
use freak.Rtsp.Owned.{in_session, in_entries, session-Frees}
use freak.Rtsp.Requests.{
  get_sdp-Balanced, play-Balanced, in_entries-append, in_entries-update, in_entries-delete, known,
  lost, add_transport-Balanced,
}

-- All that lives is held by a session or counted by `x`.
abbrev pub Accounts : (ℕ → ℕ) → Server → Type 0
Accounts x s = (k : ℕ) → in_entries s.sms k + x k ≡ count k s.heap.live

live_new-count :
    (path : List ℕ) (w : Heap) (k : ℕ)
    → let (m, w') = live_new path w in count k w'.live ≡ count k w.live + in_session m k
unfolding live_new alloc
live_new-count path w k = ground arith

pub describe-Accounts :
    (env : Env) (key : ℕ) (uri : List ℕ) (x : ℕ → ℕ) (s : Server)
    → Accounts x s
    → Accounts x ((on_describe env key uri s).1)
unfolding on_describe
describe-Accounts env key uri x s h k = elim (Option-cases (find key s.sms)) [
  | inl e ↦
      (let w1 : Heap = (alloc s.heap).1 in
        let (m, w2) = live_new (env.uri_path uri) w1 in
        simp (on_describe, e, in_entries-append)
          (omega (
            arith,
            h k,
            alloc-count s.heap k,
            live_new-count (env.uri_path uri) w1 k,
            get_sdp-Balanced env.ring m w2 k,
          )))
  | inr (o, e) ↦
      simp (on_describe, e)
        (omega (
          arith,
          h k,
          get_sdp-Balanced env.ring o.media s.heap k,
          in_entries-update key ((get_sdp env.ring o.media s.heap).1) s.sms o k e,
        ))
]

pub play-Accounts :
    (key : ℕ) (x : ℕ → ℕ) (s : Server) → Accounts x s → Accounts x ((on_play key s).1)
unfolding on_play
play-Accounts key x s h k = elim (Option-cases (find key s.sms)) [
  | inl e ↦ simp (on_play, e) (h k)
  | inr (o, e) ↦
      simp (on_play, e)
        (omega (
          arith,
          h k,
          play-Balanced o.media s.heap k,
          in_entries-update key ((start_play o.media s.heap).0) s.sms o k e,
        ))
]

-- A request whose answer is `some`, after which `y` more live that no session holds.
abbrev pub Answers : Option (Reply × Server) → (ℕ → ℕ) → (ℕ → ℕ) → Type 0
Answers o x y = (a : Reply) × (s' : Server) × (o ≡ some (a, s')) × Accounts (λ k. x k + y k) s'

pub teardown-Answers :
    (key : ℕ) (x : ℕ → ℕ) (s : Server) → Accounts x s → Answers (on_teardown key s) x (λ k. 0)
unfolding on_teardown
teardown-Answers key x s h = elim (Option-cases (find key s.sms)) [
  | inl e ↦ (reply 200, s, simp (on_teardown, e), λ k. omega (arith, h k))
  | inr (o, e) ↦
      (let (w1, f, c) =
          session-Frees o.media s.heap
            (λ k. omega (arith, h k, in_entries-delete key s.sms o k e)) in
        let (w2, g, d) =
          release-Frees o.object w1
            (λ k. omega (arith, h k, c k, in_entries-delete key s.sms o k e)) in
        (
          reply 200,
          record s { sms = delete key s.sms; heap = w2 },
          simp (on_teardown, e, f, g),
          λ k. omega (arith, h k, c k, d k, in_entries-delete key s.sms o k e),
        ))
]

-- A setup's track: what stands behind the last slash of its path.
abbrev pub track_of : Env → List ℕ → Option (List ℕ)
track_of env uri = behind_slash (env.uri_path uri)

pub give_transport-Answers :
    (env : Env) (key : ℕ) (uri : List ℕ) (kind : Kind) (made : Bool) (channels : Option (ℕ × ℕ))
    (e : Entry) (x : ℕ → ℕ) (s : Server) (track : List ℕ)
    → Accounts x s
    → find key s.sms ≡ some e
    → track_of env uri ≡ some track
    → (y : ℕ → ℕ) × Answers (give_transport env key uri kind made channels e s) x y
      × (known track ≡ true → (k : ℕ) → y k ≡ 0)
unfolding give_transport
give_transport-Answers env key uri kind false channels e x s track h f t =
    let (ret, m, w', g, c) =
      add_transport-Balanced track none e.media s.heap
        (λ k. omega (arith, h k, in_entries-delete key s.sms e k f)) in
    (
      lost track none,
      (
        record { code = 200; interleaved = channels },
        record s { sms = update key m s.sms; heap = w' },
        simp (t, g),
        λ k. omega (arith, h k, c k, in_entries-update key m s.sms e k f),
      ),
      λ p k. simp p,
    )
give_transport-Answers env key uri kind true channels e x s track h f t =
    let object : ℕ = (alloc s.heap).0 in
    let given : Option Transport = some (record { object = object; kind = kind }) in
    let (ret, m, w', g, c) =
      add_transport-Balanced track given e.media ((alloc s.heap).1)
        (λ k. omega (arith, h k, alloc-count s.heap k, in_entries-delete key s.sms e k f)) in
    (
      lost track given,
      (
        record { code = 200; interleaved = channels },
        record s { sms = update key m s.sms; heap = w' },
        simp (t, g),
        λ k. omega (arith, h k, c k, alloc-count s.heap k, in_entries-update key m s.sms e k f),
      ),
      λ p k. simp p,
    )
