-- ===== src/Proto/Tests.antt =====
-- Runs of the messages.
use freak.Prelude.{[], ◌∷◌}
use freak.Proto.Types.{SvrCfg}

abbrev local : SvrCfg
local = record { id = 0; enable = 1; ip = 127 ∷ []; port = 1234 }
