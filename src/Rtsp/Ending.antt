-- ===== src/Rtsp/Ending.antt =====
-- The sending thread ends, so `rtp_media_live_free` returns from `thread_destroy`.
use freak.Prelude.{
  ℕ, ◌≡◌, ◌≤◌, map, length, Bool, true, false, ◌&&◌, List, [], ◌∷◌, ◌++◌, Option, some, none,
  if◌then◌else◌,
}
use freak.Media.{Stream, packs_size, stream_recput, recget, rtp_clock}
use freak.Media.Put.{Readable}
use freak.Media.Payload.{InRange, NoOffset, input}
use freak.Rtsp.{Status, setup, play, pause, exit}
use freak.Rtsp.Sender.{Turn, send_turn}

abbrev pub running : Status → Bool
running exit = false
running setup = true
running play = true
running pause = true

abbrev pub all_running : List Turn → Bool
all_running [] = true
all_running (t ∷ ts) = running t.status && all_running ts

abbrev playing : Status → Bool
playing play = true
playing setup = false
playing pause = false
playing exit = false

-- What the turns in PLAY give, in order.
abbrev pub sent_in_play : List Turn → List (List ℕ × ℕ)
sent_in_play [] = []
sent_in_play (t ∷ ts) = (if playing t.status then send_turn t else []) ++ sent_in_play ts

-- A stream that was put at some time into a ring that was cut somewhere, and the buffer that it is taken
-- into.
pub record Shot : Type 0 where
  pub stream : Stream
  pub sec : ℕ
  pub nsec : ℕ
  pub cut : ℕ
  pub old : List ℕ

abbrev buffer : Option (ℕ × List ℕ) → Option (List ℕ)
buffer none = none
buffer (some (ret, buf)) = some buf

-- What the ring's `get` writes: what video_stream_recget finds in what video_stream_recput wrote.
abbrev taken : Shot → Option (List ℕ)
taken x =
    let w = stream_recput x.stream x.sec x.nsec x.cut in
    buffer (recget x.cut w.cur.out1 w.cur.out2 x.old)

-- A turn in PLAY that takes it.
abbrev pub turn_of : Shot → Turn
turn_of x = record { status = play; fifo = true; packer = true; got = taken x }

-- The streams fit the 512 KiB of the buffer, `data` of rtp_send_data, that they are taken into.
abbrev pub Fit : List Shot → Type 0
Fit [] = Unit {0}
Fit (x ∷ xs) =
    InRange x.stream.packs
    × Readable x.stream.packs
    × NoOffset x.stream.packs
    × (packs_size 40 x.stream.packs ≤ 524288)
    × (length x.old ≡ 524288)
    × Fit xs

abbrev pub all_packs : List Shot → List (List ℕ × ℕ)
all_packs [] = []
all_packs (x ∷ xs) = map (input rtp_clock) x.stream.packs ++ all_packs xs
