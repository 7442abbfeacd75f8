-- ===== src/Rtsp/Requests.antt =====
-- What each request does to the objects: all that live are held by a session, but for the transports
-- that a setup of an unknown track leaves behind.
use freak.Prelude.{
  ℕ, ◌+◌, ◌≡◌, ◌≤◌, refl, Bool, ◌||◌, Bool-cases, Option-cases, inl, inr, List, [], ◌∷◌, ◌++◌,
  Option, some, none, if◌then◌else◌, arith,
}
use freak.Memory.{Heap, alloc}
use freak.Memory.Counting.{alloc-count, one, count, in_object}
use freak.Rtsp.{Transport, Session, Entry}
use freak.Rtsp.Media.{
  ensure, get_sdp, start_play, add_transport, contains, video_word, audio_word, meta_word,
}
use freak.Rtsp.Server.{find, delete, update}
use freak.Rtsp.Owned.{in_transport, in_session, in_entries, transport-Frees}

-- The objects that a change of a session from `s` to `s'` makes or frees are those by which its
-- holdings differ.
abbrev pub Balanced : Session → Heap → Session → Heap → Type 0
Balanced s w s' w' = (k : ℕ) → count k w'.live + in_session s k ≡ count k w.live + in_session s' k

ensure-count :
    (o : Option ℕ) (w : Heap) (k : ℕ)
    → count k (ensure o w).1.live + in_object o k ≡ count k w.live + one ((ensure o w).0) k
unfolding ensure
ensure-count none w k = ground (arith, alloc-count w k)
ensure-count (some h) w k = refl

pub get_sdp-Balanced :
    (ring : List ℕ → Bool) (s : Session) (w : Heap)
    → let (ok, s', w') = get_sdp ring s w in Balanced s w s' w'
unfolding get_sdp
get_sdp-Balanced ring s w k =
    let w1 : Heap = (ensure s.video.packer w).1 in
    let w2 : Heap = (alloc w1).1 in
    elim (Option-cases s.video.fifo) [
      | inl h ↦ elim (Bool-cases (ring s.path)) [
        | inl t ↦
            simp (get_sdp, h, t)
              (omega (
                arith,
                ensure-count s.video.packer w k,
                alloc-count w1 k,
                ensure-count s.video.rtp w2 k,
              ))
        | inr f ↦ simp (get_sdp, h, f) (omega (arith, ensure-count s.video.packer w k))
      ]
      | inr (f, h) ↦
          simp (get_sdp, h)
            (omega (arith, ensure-count s.video.packer w k, ensure-count s.video.rtp w1 k))
    ]

pub play-Balanced : (s : Session) (w : Heap) → let (s', w') = start_play s w in Balanced s w s' w'
unfolding start_play
play-Balanced s w k = ground arith

pub in_entries-append :
    (es : List Entry) (e : Entry) (k : ℕ)
    → in_entries (es ++ e ∷ []) k ≡ in_entries es k + (in_session e.media k + one e.object k)
in_entries-append [] e k = omega arith
in_entries-append (x ∷ xs) e k = omega (arith, in_entries-append xs e k)

pub in_entries-update :
    (key : ℕ) (m : Session) (es : List Entry) (e : Entry) (k : ℕ)
    → find key es ≡ some e
    → in_entries (update key m es) k + in_session e.media k ≡ in_entries es k + in_session m k
unfolding find update
in_entries-update key m [] e k h = ground arith
in_entries-update key m (x ∷ xs) e k h = ground (arith, in_entries-update key m xs e k)

pub in_entries-delete :
    (key : ℕ) (es : List Entry) (e : Entry) (k : ℕ)
    → find key es ≡ some e
    → in_entries (delete key es) k + (in_session e.media k + one e.object k) ≡ in_entries es k
unfolding find delete
in_entries-delete key [] e k h = ground arith
in_entries-delete key (x ∷ xs) e k h = ground (arith, in_entries-delete key xs e k)

-- Whether `rtp_add_transport` knows the track.
abbrev pub known : List ℕ → Bool
known track = contains video_word track || (contains audio_word track || contains meta_word track)

-- What it leaves behind of a transport.
abbrev pub lost : List ℕ → Option Transport → ℕ → ℕ
lost track t k = if known track then 0 else in_transport t k

pub add_transport-Balanced :
    (track : List ℕ) (t : Option Transport) (s : Session) (w : Heap)
    → ((k : ℕ) → in_session s k ≤ count k w.live)
    → (ret : ℕ) × (s' : Session) × (w' : Heap) × (add_transport (some track) t s w
        ≡ some (ret, s', w'))
      × ((k : ℕ)
          → count k w'.live + (in_session s k + in_transport t k)
            ≡ count k w.live + (in_session s' k + lost track t k))
unfolding add_transport
add_transport-Balanced track t s w h = elim (Bool-cases (contains video_word track)) [
  | inl v ↦
      (let (w', e, c) = transport-Frees s.video.transport w (λ k. omega (arith, h k)) in
        (
          0,
          record s { video = record s.video { transport = t } },
          w',
          simp (v, e),
          λ k. simp v (omega (arith, c k)),
        ))
  | inr v ↦ elim (Bool-cases (contains audio_word track)) [
    | inl a ↦
        (let (w', e, c) = transport-Frees s.audio.transport w (λ k. omega (arith, h k)) in
          (
            0,
            record s { audio = record s.audio { transport = t } },
            w',
            simp (v, a, e),
            λ k. simp (v, a) (omega (arith, c k)),
          ))
    | inr a ↦ elim (Bool-cases (contains meta_word track)) [
      | inl m ↦
          (let (w', e, c) = transport-Frees s.meta.transport w (λ k. omega (arith, h k)) in
            (
              0,
              record s { meta = record s.meta { transport = t } },
              w',
              simp (v, a, m, e),
              λ k. simp (v, a, m) (omega (arith, c k)),
            ))
      | inr m ↦ (1, s, w, simp (v, a, m), λ k. simp (v, a, m) (omega arith))
    ]
  ]
]
