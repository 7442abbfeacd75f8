-- ===== src/Memory.antt =====
-- What is allocated: objects of `malloc` and of the libraries that have a destructor.
pub mod Counting
pub mod Stack
use freak.Prelude.{
  ℕ, zero, suc, ◌+◌, ◌-◌, ◌%◌, Bool, true, false, ◌||◌, List, [], ◌∷◌, Option, some, none, ◌==◌,
  if◌then◌else◌,
}

-- The objects that live, by number, the number of the next one, and the calls of `newest` by ring.
pub record Heap : Type 0 where
  pub next : ℕ
  pub live : List ℕ
  pub newest : List ℕ

abbrev pub member : ℕ → List ℕ → Bool
member h [] = false
member h (x ∷ xs) = x == h || member h xs

abbrev pub erase : ℕ → List ℕ → List ℕ
erase h [] = []
erase h (x ∷ xs) = if x == h then xs else x ∷ erase h xs

-- `malloc`, or the creation of an object of a library.
unfoldable pub alloc : Heap → ℕ × Heap
alloc w = (w.next, record w { next = w.next + 1; live = w.next ∷ w.live })

-- `free`, or the destruction of an object; one that does not live is a fault.
unfoldable pub release : ℕ → Heap → Option Heap
release h w = if member h w.live then some (record w { live = erase h w.live }) else none

-- The destruction of an object that may be NULL.
abbrev pub free_object : Option ℕ → Heap → Option Heap
free_object none w = some w
free_object (some h) w = release h w
