-- ===== src/Bsp/Tests.antt =====
-- Runs of the board process.
use freak.Prelude.{ℕ, List, [], ◌∷◌, false, some, none}
use freak.Proto.Types.{DummyCfg, DummyCap}
use freak.Proto.{Codec}
use freak.Proto.Samples.{number, codec}
use freak.Msgbox.{Table}
use freak.Bsp.{Board, msgbox_dummy}

abbrev cfg_of : List ℕ → DummyCfg
cfg_of [] = record { value = 0 }
cfg_of (x ∷ xs) = record { value = x }

abbrev cfg_codec : Codec DummyCfg
cfg_codec = codec 1 (λ t. t.value ∷ []) cfg_of

abbrev cap_of : List ℕ → DummyCap
cap_of [] = record { value = 0 }
cap_of (x ∷ xs) = record { value = x }

abbrev cap_codec : Codec DummyCap
cap_codec = codec 1 (λ t. t.value ∷ []) cap_of

abbrev table : Table Board
table =
    some (msgbox_dummy cfg_codec cap_codec number) ∷ none ∷ none ∷ none ∷ none ∷ none ∷ none ∷ []

abbrev board : Board
board = record {
  objs = false ∷ [];
  info = record { caps = record { value = 5 } ∷ []; cfgs = record { value = 6 } ∷ []; num = 1 };
}
