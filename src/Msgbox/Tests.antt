-- ===== src/Msgbox/Tests.antt =====
-- Runs of the message box.
use freak.Prelude.{ℕ, suc, [], ◌∷◌, Option, some, none}
use freak.Proto.{Packet, encode}
use freak.Proto.Types.{SvrCfg}
use freak.Proto.Samples.{svr_codec}
use freak.Msgbox.{Node, Handler, Table}

-- The frames' key goes to the RTSP server, and the streams' to the video process.

-- A process that answers with its state, and one that counts.
abbrev local : SvrCfg
local = record { id = 0; enable = 1; ip = 127 ∷ []; port = 1234 }

abbrev other : SvrCfg
other = record { id = 0; enable = 0; ip = 10 ∷ []; port = 80 }

abbrev recall : Handler SvrCfg
recall p s = some (0, encode svr_codec p.format s, s)

abbrev table : Table SvrCfg
table = none ∷ none ∷ none ∷ none ∷ some recall ∷ none ∷ none ∷ []

abbrev question : Packet
question = record {
  version = 1;
  ts = 0;
  chn = 0;
  key = 4;
  action = 2;
  errcode = 0;
  format = 0;
  size = 0;
  body = [];
}

-- A process that counts its requests and answers with what it was asked.
abbrev echo : Node → Packet → ℕ → Option (Packet × ℕ)
echo node p s = some (p, suc s)
