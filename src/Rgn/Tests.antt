-- ===== src/Rgn/Tests.antt =====
-- The theorems on the regions at concrete controls.
use freak.Prelude.{ℕ, ◌+◌, ◌*◌, ◌/◌, List, [], ◌∷◌, Option, some}
use freak.Prelude.Int.{pos, negsuc}
use freak.Rgn.{Control, Mpi}

abbrev even_up : ℕ → ℕ
even_up n = (n + 1) / 2 * 2

-- Every call fails.
abbrev fails : List Mpi → Mpi → ℕ
fails ms m = 1

abbrev picture : ℕ → Option (ℕ × ℕ)
picture chn = some (1920, 1080)

abbrev mask : Control
mask = record {
  enable = 1;
  layer = 0;
  type = 0;
  chn = 0;
  cover = record { color = 255; points = (pos 0, negsuc 4) ∷ (pos 9000, pos 4096) ∷ [] };
}
