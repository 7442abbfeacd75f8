-- ===== src/Rtsp/Sender.antt =====
-- The sending thread of a session: `rtp_send_data` of rtp-media.c.
use freak.Prelude.{ℕ, Bool, ◌&&◌, List, [], ◌∷◌, ◌++◌, Option, some, none, if◌then◌else◌}
use freak.Proto.{◌>>=◌}
use freak.Media.{rtp_inputs}
use freak.Rtsp.{Status, setup, play, pause, exit}

-- What one turn of the loop sees: the status, whether the video track has a ring and a packer, and the
-- record that the ring's `get` writes over the cleared header, if it gives one.
pub record Turn : Type 0 where
  pub status : Status
  pub fifo : Bool
  pub packer : Bool
  pub got : Option (List ℕ)

-- What one turn in PLAY gives to the encoder. Without a record the size in the header is 0.
abbrev pub send_turn : Turn → List (List ℕ × ℕ)
send_turn t =
    if t.fifo && t.packer then (elim t.got [ none ↦ [] | some rec ↦ rtp_inputs rec ]) else []

-- The loop over the turns: what the encoder got when it ended, or `none` while it runs.
unfoldable pub send_data : List Turn → Option (List (List ℕ × ℕ))
send_data [] = none
send_data (t ∷ ts) =
    let rest = send_data ts in
    elim t.status [
      | exit ↦ some []
      | play ↦ rest >>= λ r. some (send_turn t ++ r)
      | setup ↦ rest
      | pause ↦ rest
    ]
