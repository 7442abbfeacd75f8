-- ===== src/Rings/Tests.antt =====
-- Runs of the ring objects.
use freak.Prelude.{ℕ, ◌≡◌, refl, Bool, true, [], ◌∷◌, arith}
use freak.Memory.{Heap}
use freak.Rings.{Init, video_frame, Opening}
use freak.Rings.Names.{ring_name_lem}

abbrev opens : Opening → Bool
opens o = true

abbrev init : Init
init = record { type = 1; chn = 0; subchn = 2 }

abbrev heap : Heap
heap = record { next = 4; live = 3 ∷ []; newest = [] }

abbrev one : ℕ
one = 1

ring_name_lem_example : (video_frame ≡ video_frame) × (one ≡ 1) × (init.subchn ≡ 2)
ring_name_lem_example =
    ring_name_lem video_frame video_frame 1 2 1 2 (omega arith) (omega arith) (omega arith)
      (omega arith) refl
