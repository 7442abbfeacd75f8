-- ===== src/Memory/Stack.antt =====
-- Objects that are freed in the reverse of the order in which they were made, or nearly so.
use freak.Prelude.{ℕ, ◌≡◌, ◌≢◌, refl, List, ◌∷◌, some, arith}
use freak.Memory.{Heap, alloc, release}

-- The object that was made last, of those that live, is freed.
pub release_top :
    (h : ℕ) (w : Heap) (rest : List ℕ)
    → w.live ≡ h ∷ rest
    → (w' : Heap) × (release h w ≡ some w') × (w'.live ≡ rest)
unfolding release
release_top h w rest e = (record w { live = rest }, rw e (ground arith), refl)

pub alloc_live : (w : Heap) → ((alloc w).1).live ≡ (alloc w).0 ∷ w.live
unfolding alloc
alloc_live w = refl

-- The object below the last one is freed.
pub release_second :
    (h k : ℕ) (w : Heap) (rest : List ℕ)
    → h ≢ k
    → w.live ≡ h ∷ k ∷ rest
    → (w' : Heap) × (release k w ≡ some w') × (w'.live ≡ h ∷ rest)
unfolding release
release_second h k w rest ne e = (record w { live = h ∷ rest }, rw e (ground arith), refl)

pub fresh : (w : Heap) → (alloc ((alloc w).1)).0 ≢ (alloc w).0
unfolding alloc
fresh w e = omega arith
