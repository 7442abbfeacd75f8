-- ===== src/Startup/Slots.antt =====
-- The slots of a manager while its process starts.
use freak.Prelude.{
  ℕ, zero, suc, ◌≡◌, ◌≢◌, ◌<◌, ◌⊎◌, inl, inr, refl, ap, sym, subst, ◌∙◌, List, [], ◌∷◌, Option,
  some, none, get_elem?, set, get_elem?-set_at, get_elem?-set_ne, ltb, if◌then◌else◌, arith,
}

same_or_not : (i j : ℕ) → (i ≡ j) ⊎ (i ≢ j)
same_or_not i j = ground arith

module _ {A : Type 0} where
  -- A slot when the ids below `i` are set: what `f` says of it, or empty.
  abbrev pub slot : (ℕ → Option A) → ℕ → ℕ → Option A
  slot f i j = if ltb j i then f j else none

  -- All the slots are such.
  abbrev pub AreSlots : (ℕ → Option A) → ℕ → ℕ → List (Option A) → Type 0
  AreSlots f limit i xs = (j : ℕ) → j < limit → get_elem? xs j ≡ some (slot f i j)

  pub set_same : (xs : List A) (i : ℕ) (x : A) → get_elem? xs i ≡ some x → set xs i x ≡ xs
  set_same [] i x h = refl
  set_same (y ∷ ys) zero x h = ground arith
  set_same (y ∷ ys) (suc i) x h = ap (◌∷◌ y) (set_same ys i x h)

  slot_self : (f : ℕ → Option A) (i : ℕ) → slot f (suc i) i ≡ f i
  slot_self f i = ground arith

  slot_other : (f : ℕ → Option A) (i j : ℕ) → i ≢ j → slot f (suc i) j ≡ slot f i j
  slot_other f i j ne = ground arith

  pub slot_next : (f : ℕ → Option A) (i : ℕ) → slot f i i ≡ none
  slot_next f i = ground arith

  slot_zero : (f : ℕ → Option A) (j : ℕ) → slot f 0 j ≡ none
  slot_zero f j = ground arith

  -- At the start they are empty.
  pub AreSlots-zero :
      (f : ℕ → Option A) (limit : ℕ) (xs : List (Option A))
      → ((j : ℕ) → j < limit → get_elem? xs j ≡ some none)
      → AreSlots f limit 0 xs
  AreSlots-zero f limit xs h j lt = h j lt ∙ ap some (sym (slot_zero f j))

  pub set-AreSlots :
      (f : ℕ → Option A) (limit i : ℕ) (xs : List (Option A))
      → i < limit
      → AreSlots f limit i xs
      → AreSlots f limit (suc i) (set xs i (f i))
  set-AreSlots f limit i xs h v j lt = elim (same_or_not i j) [
    | inl e ↦
        subst (λ k. get_elem? (set xs i (f i)) k ≡ some (slot f (suc i) k)) e
          (get_elem?-set_at xs i (slot f i i) (f i) (v i h) ∙ ap some (sym (slot_self f i)))
    | inr ne ↦ get_elem?-set_ne xs (f i) ne ∙ v j lt ∙ ap some (sym (slot_other f i j ne))
  ]
