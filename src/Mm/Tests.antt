-- ===== src/Mm/Tests.antt =====
-- Mappings.
use freak.Prelude.{ℕ, ◌+◌, ◌-◌, ◌≡◌, ◌<◌, refl, true, [], ◌∷◌, Option, some, arith}
use freak.Mm.{opened, closed, mapped, unmapped, physmap, physunmap}
use freak.Mm.Pages.{physunmap-physmap}

abbrev mmap : ℕ → ℕ → Option ℕ
mmap length base = some 28672

physunmap-physmap_example :
    (virtaddr : ℕ) × (length : ℕ) × (physmap 4096 true mmap 8200 5000
      ≡ (virtaddr, closed ∷ mapped length 8192 ∷ opened ∷ []))
    × (physunmap 4096 virtaddr 5000 ≡ unmapped 28672 length)
    × ((k : ℕ)
        → k < 5000
        → (virtaddr + k < 28672 + length) × (8192 + (virtaddr + k - 28672) ≡ 8200 + k))
physunmap-physmap_example = physunmap-physmap 4096 (omega arith) mmap 8200 5000 7 refl (omega arith)

-- The page 0x40, present.
abbrev entry : ℕ
entry = 0x8000000000000040
