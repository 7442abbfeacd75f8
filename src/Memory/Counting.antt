-- ===== src/Memory/Counting.antt =====
-- How often an object is among those that live, and destructors that free what a part holds.
use freak.Prelude.{
  ℕ, ◌+◌, ◌≡◌, ◌≤◌, ◌<◌, refl, List, [], ◌∷◌, Option, some, none, ◌==◌, if◌then◌else◌, true, false,
  arith,
}
use freak.Proto.{◌>>=◌}
use freak.Memory.{Heap, free_object, member, erase, alloc, release}

abbrev pub one : ℕ → ℕ → ℕ
one x k = if x == k then 1 else 0

abbrev pub count : ℕ → List ℕ → ℕ
count k [] = 0
count k (x ∷ xs) = one x k + count k xs

abbrev pub in_object : Option ℕ → ℕ → ℕ
in_object none k = 0
in_object (some h) k = one h k

-- A destructor that frees what `f` counts, if all of it lives.
abbrev pub Frees : (Heap → Option Heap) → (ℕ → ℕ) → Type 0
Frees d f =
    (w : Heap)
    → ((k : ℕ) → f k ≤ count k w.live)
    → (w' : Heap) × (d w ≡ some w') × ((k : ℕ) → count k w'.live + f k ≡ count k w.live)

pub count-erase :
    (h k : ℕ) (xs : List ℕ) → 0 < count h xs → count k (erase h xs) + one h k ≡ count k xs
count-erase h k [] p = absurd (omega arith)
count-erase h k (x ∷ xs) p = ground (arith, count-erase h k xs)

pub member-none : (h : ℕ) (xs : List ℕ) → count h xs ≡ 0 → member h xs ≡ false
member-none h [] p = refl
member-none h (x ∷ xs) p = ground (arith, member-none h xs)

pub member-count : (h : ℕ) (xs : List ℕ) → 0 < count h xs → member h xs ≡ true
member-count h [] p = absurd (omega arith)
member-count h (x ∷ xs) p = ground (arith, member-count h xs)

pub release-Frees : (h : ℕ) → Frees (release h) (one h)
unfolding release
release-Frees h w p = (
  record w { live = erase h w.live },
  rw (member-count h w.live (ground (arith, p h))) refl,
  λ k. count-erase h k w.live (ground (arith, p h)),
)

pub some-Frees : Frees some (λ k. 0)
some-Frees w p = (w, refl, λ k. omega arith)

pub >>=-Frees :
    (d e : Heap → Option Heap) (f g : ℕ → ℕ)
    → Frees d f
    → Frees e g
    → Frees (λ w. d w >>= e) (λ k. f k + g k)
>>=-Frees d e f g p q w h =
    let (w1, a, b) = p w (λ k. omega (arith, h k)) in
    let (w2, c, i) = q w1 (λ k. omega (arith, h k, b k)) in
    (w2, rw a c, λ k. omega (arith, b k, i k))

pub alloc-count :
    (w : Heap) (k : ℕ) → count k ((alloc w).1).live ≡ count k w.live + one ((alloc w).0) k
unfolding alloc
alloc-count w k = omega arith

pub object-Frees : (o : Option ℕ) → Frees (free_object o) (in_object o)
object-Frees none = some-Frees
object-Frees (some h) = release-Frees h
