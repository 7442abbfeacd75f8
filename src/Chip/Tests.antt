-- ===== src/Chip/Tests.antt =====
-- Runs of the layers over the SDK.
use freak.Prelude.{ℕ, ◌≡◌, refl, true, false, List, [], ◌∷◌, some, none, arith}
use freak.Memory.{Heap}
use freak.Memory.Counting.{count}
use freak.Chip.{Mod, construct, destruct}
use freak.Chip.Life.{Present, construct-destruct}
use freak.Chip.Pump.{Found, timeout, files, got, released, get_frames}

abbrev heap : Heap
heap = record { next = 1; live = 0 ∷ []; newest = [] }

construct-destruct_example :
    (m : Mod) × (w1 : Heap) × (m' : Mod) × (w2 : Heap) × (construct (λ i. true) 2 heap
      ≡ some (m, w1))
    × Present 0 2 m.objs
    × (destruct m w1 ≡ some (m', w2))
    × ((k : ℕ) → count k w2.live ≡ count k (0 ∷ []))
construct-destruct_example = construct-destruct (λ i. true) 2 heap (λ i. refl) (omega arith)

-- The second encoder has a stream, and its callback is set; the release fails.
abbrev turns : List (Found ℕ)
turns =
    timeout
    ∷ files (
        record {
          ready = false;
          packs = none;
          memory = true;
          got = none;
          callback = true;
          released = true;
        }
        ∷ record {
          ready = true;
          packs = some 3;
          memory = true;
          got = some 42;
          callback = true;
          released = false;
        }
        ∷ [])
    ∷ []

frames_test :
    get_frames {Item = ℕ} 4 ((none, true, true) ∷ (some 5, false, true) ∷ [])
    ≡ got 4 5 ∷ released 4 5 ∷ []
unfolding get_frames
frames_test = refl
