-- ===== src/Rtsp/Sessions.antt =====
-- The sessions of the clients as a state machine, and the codes that it answers with.
use freak.Prelude.{
  ℕ, ◌≡◌, ◌≤◌, refl, sym, ap, Bool, Bool-cases, Option-cases, inl, inr, List, [], ◌∷◌, ◌++◌, Option,
  some, none, ◌==◌, if◌then◌else◌, arith,
}
use freak.Memory.{Heap}
use freak.Rtsp.{Status, setup, play, Session, Entry, Transport}
use freak.Rtsp.Media.{live_new, get_sdp, start_play, add_transport}
use freak.Rtsp.Server.{
  Server, Offer, Env, Reply, Request, describe, setup_track, play_media, pause_media, other_request,
  teardown, find, delete, update, choose, on_describe, on_play,
}
use freak.Rtsp.Phases.{
  phase, times, find-times, times-update, times-delete, times-append, phase-update, phase-delete,
  phase-append, phase-found, status_of,
}

pub get_sdp-status :
    (ring : List ℕ → Bool) (s : Session) (w : Heap) → (get_sdp ring s w).1.status ≡ s.status
unfolding get_sdp
get_sdp-status ring s w = elim (Option-cases s.video.fifo) [
  | inl h ↦ elim (Bool-cases (ring s.path)) [
    | inl t ↦ simp (get_sdp, h, t)
    | inr f ↦ simp (get_sdp, h, f)
  ]
  | inr (f, h) ↦ simp (get_sdp, h)
]

pub add_transport-status :
    (o : Option (List ℕ)) (t : Option Transport) (s : Session) (w : Heap) (ret : ℕ) (s' : Session)
    (w' : Heap)
    → add_transport o t s w ≡ some (ret, s', w')
    → s'.status ≡ s.status
unfolding add_transport
add_transport-status none t s w ret s' w' h = ground arith
add_transport-status (some track) t s w ret s' w' h = ground arith

-- The client of a request.
abbrev pub client : Request → ℕ
client (describe key uri) = key
client (setup_track key uri offers made) = key
client (play_media key) = key
client (pause_media key) = key
client (other_request key) = key
client (teardown key) = key

-- The state machine of one client: no session, or one in a state.
abbrev pub after : Request → Option Status → Option Status
after (describe key uri) none = some setup
after (describe key uri) (some p) = some p
after (setup_track key uri offers made) p = p
after (play_media key) none = none
after (play_media key) (some p) = some play
after (pause_media key) p = p
after (other_request key) p = p
after (teardown key) p = none

abbrev chosen_code : Option Offer → ℕ
chosen_code none = 461
chosen_code (some t) = 200

-- The code of the answer.
abbrev pub code_of : Request → Option Status → ℕ
code_of (setup_track key uri offers made) none = 454
code_of (setup_track key uri offers made) (some p) = chosen_code (choose offers)
code_of (play_media key) none = 454
code_of (play_media key) (some p) = 200
code_of (describe key uri) p = 200
code_of (pause_media key) p = 200
code_of (other_request key) p = 200
code_of (teardown key) p = 200

-- No client is in the table twice.
abbrev pub Single : List Entry → Type 0
Single es = (k : ℕ) → times k es ≤ 1

-- The table after a request is the state machine's.
abbrev pub Follows : Request → List Entry → List Entry → Type 0
Follows r es es' =
    Single es'
    × ((key : ℕ)
        → phase key es' ≡ (if client r == key then after r (phase key es) else phase key es))

pub update-Follows :
    (r : Request) (es : List Entry) (e : Entry) (m : Session)
    → find (client r) es ≡ some e
    → after r (some e.media.status) ≡ some m.status
    → Single es
    → Follows r es (update (client r) m es)
update-Follows r es e m f a u = (
  λ k. ground (arith, times-update k (client r) m es, u k),
  λ k. elim (Bool-cases (client r == k)) [
    | inl c ↦
        simp (phase-update k (client r) m es e f, phase-found (client r) k es (some e) c f, c, a)
    | inr c ↦ ground (arith, phase-update k (client r) m es e f)
  ],
)

pub same-Follows :
    (r : Request) (es : List Entry) (o : Option Entry)
    → find (client r) es ≡ o
    → after r (status_of o) ≡ status_of o
    → Single es
    → Follows r es es
same-Follows r es o f a u = (
  u,
  λ k. elim (Bool-cases (client r == k)) [
    | inl c ↦ simp (phase-found (client r) k es o c f, c, a)
    | inr c ↦ simp c
  ],
)

append-Follows :
    (r : Request) (es : List Entry) (e : Entry)
    → find (client r) es ≡ none
    → e.key ≡ client r
    → after r none ≡ some e.media.status
    → Single es
    → Follows r es (es ++ e ∷ [])
append-Follows r es e f i a u = (
  λ k. ground (arith, times-append k es e, u k, find-times (client r) es f),
  λ k. elim (Bool-cases (client r == k)) [
    | inl c ↦ simp (phase-append k es e (rw i f), i, phase-found (client r) k es none c f, c, a)
    | inr c ↦ simp (phase-append k es e (rw i f), i, c)
  ],
)

pub delete-Follows :
    (r : Request) (es : List Entry) (e : Entry)
    → find (client r) es ≡ some e
    → after r (some e.media.status) ≡ none
    → Single es
    → Follows r es (delete (client r) es)
delete-Follows r es e f a u = (
  λ k. ground (arith, times-delete k (client r) es, u k),
  λ k. elim (Bool-cases (client r == k)) [
    | inl c ↦ simp (
      phase-delete k (client r) es (u (client r)),
      phase-found (client r) k es (some e) c f,
      c,
      a,
    )
    | inr c ↦ simp (phase-delete k (client r) es (u (client r)), c)
  ],
)

-- A request that is answered with the code of the state machine, and leads to its state.
abbrev pub Answered : Request → Server → Reply → Server → Type 0
Answered r s a s' = (a.code ≡ code_of r (phase (client r) s.sms)) × Follows r s.sms s'.sms

pub describe-Answered :
    (env : Env) (key : ℕ) (uri : List ℕ) (s : Server)
    → Single s.sms
    → let (a, s') = on_describe env key uri s in Answered (describe key uri) s a s'
unfolding on_describe live_new
describe-Answered env key uri s u = elim (Option-cases (find key s.sms)) [
  | inl f ↦
      simp (on_describe, f)
        (
          refl,
          append-Follows (describe key uri) s.sms _ f refl
              (ap some (sym (get_sdp-status env.ring _ _))) u,
        )
  | inr (e, f) ↦
      simp (on_describe, f)
        (
          refl,
          update-Follows (describe key uri) s.sms e _ f
              (ap some (sym (get_sdp-status env.ring e.media s.heap))) u,
        )
]

pub play-Answered :
    (key : ℕ) (s : Server)
    → Single s.sms
    → let (a, s') = on_play key s in Answered (play_media key) s a s'
unfolding on_play start_play
play-Answered key s u = elim (Option-cases (find key s.sms)) [
  | inl f ↦ simp (on_play, f) (refl, same-Follows (play_media key) s.sms none f refl u)
  | inr (e, f) ↦ simp (on_play, f) (refl, update-Follows (play_media key) s.sms e _ f refl u)
]
