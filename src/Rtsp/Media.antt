-- ===== src/Rtsp/Media.antt =====
-- rtp-media.c without the sending thread.
use freak.Prelude.{
  ℕ, Bool, true, false, ◌&&◌, ◌||◌, List, [], ◌∷◌, Option, some, none, ◌==◌, if◌then◌else◌,
}
use freak.Proto.{◌>>=◌}
use freak.Memory.{free_object, Heap, alloc, release}
use freak.Rtsp.{Transport, Track, setup, play, pause, Session}

abbrev pub no_track : Track
no_track = record { rtp = none; packer = none; fifo = none; transport = none }

-- `rtp_media_live_new`
unfoldable pub live_new : List ℕ → Heap → Session × Heap
live_new path w =
    let (object, w1) = alloc w in
    (
      record {
        object = object;
        path = path;
        status = setup;
        video = no_track;
        audio = no_track;
        meta = no_track;
      },
      w1,
    )

-- The object that is there, or a new one.
unfoldable pub ensure : Option ℕ → Heap → ℕ × Heap
ensure (some h) w = (h, w)
ensure none w = alloc w

-- `rtp_get_sdp`: whether it returns 0. `ring` says whether the path names a ring (`sscanf`) that can be
-- attached.
unfoldable pub get_sdp : (List ℕ → Bool) → Session → Heap → Bool × Session × Heap
get_sdp ring s w =
    let (packer, w1) = ensure s.video.packer w in
    let video1 : Track = record s.video { packer = some packer } in
    elim s.video.fifo [
      | some f ↦
          (let (rtp, w2) = ensure s.video.rtp w1 in
            (true, record s { video = record video1 { rtp = some rtp } }, w2))
      | none ↦ elim (ring s.path) [
        | false ↦ (false, record s { video = video1 }, w1)
        | true ↦
            (let (f, w2) = alloc w1 in
              let (rtp, w3) = ensure s.video.rtp w2 in
              (true, record s { video = record video1 { fifo = some f; rtp = some rtp } }, w3))
      ]
    ]

-- `rtp_play`
unfoldable pub start_play : Session → Heap → Session × Heap
start_play s w = (
  record s { status = play },
  elim s.video.fifo [ none ↦ w | some f ↦ record w { newest = f ∷ w.newest } ],
)

-- `rtp_pause`
unfoldable pub start_pause : Session → Session
start_pause s = record s { status = pause }

abbrev is_prefix : List ℕ → List ℕ → Bool
is_prefix [] ys = true
is_prefix (x ∷ xs) [] = false
is_prefix (x ∷ xs) (y ∷ ys) = x == y && is_prefix xs ys

-- `strstr(text, word)`, as a test.
abbrev pub contains : List ℕ → List ℕ → Bool
contains word [] = is_prefix word []
contains word (c ∷ cs) = is_prefix word (c ∷ cs) || contains word cs

-- "video", "audio" and "meta"
abbrev pub video_word : List ℕ
video_word = 118 ∷ 105 ∷ 100 ∷ 101 ∷ 111 ∷ []

abbrev pub audio_word : List ℕ
audio_word = 97 ∷ 117 ∷ 100 ∷ 105 ∷ 111 ∷ []

abbrev pub meta_word : List ℕ
meta_word = 109 ∷ 101 ∷ 116 ∷ 97 ∷ []

-- The object of a transport that may be NULL.
unfoldable pub free_transport : Option Transport → Heap → Option Heap
free_transport none w = some w
free_transport (some t) w = release t.object w

-- `rtp_add_transport`: what it returns and the new state. A track that is NULL is a fault.
unfoldable pub add_transport :
    Option (List ℕ) → Option Transport → Session → Heap → Option (ℕ × Session × Heap)
add_transport none t s w = none
add_transport (some track) t s w =
    if contains video_word track
    then (free_transport s.video.transport w >>= λ w'.
        some (0, record s { video = record s.video { transport = t } }, w'))
    else if contains audio_word track
    then (free_transport s.audio.transport w >>= λ w'.
        some (0, record s { audio = record s.audio { transport = t } }, w'))
    else if contains meta_word track
    then (free_transport s.meta.transport w >>= λ w'.
        some (0, record s { meta = record s.meta { transport = t } }, w'))
    else some (1, s, w)

-- The body of the loop of `rtp_media_live_free`.
unfoldable pub free_track : Track → Heap → Option Heap
free_track t w = do
  w1 ← free_transport t.transport w
  w2 ← free_object t.packer w1
  w3 ← free_object t.rtp w2
  free_object t.fifo w3

-- `rtp_media_live_free`, when the thread has ended.
unfoldable pub live_free : Session → Heap → Option Heap
live_free s w = do
  w1 ← free_track s.video w
  w2 ← free_track s.audio w1
  w3 ← free_track s.meta w2
  release s.object w3
