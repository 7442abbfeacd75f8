-- ===== src/Chip/Life.antt =====
-- The objects of a layer, from the constructor to the destructor.
use freak.Prelude.{
  ℕ, zero, suc, ◌+◌, ◌≡◌, ◌≤◌, ◌<◌, ◌⊎◌, inl, inr, refl, ap, ◌∙◌, sym, subst, lt→ltb, lt→not-leb,
  some-injective, Bool, true, List, [], ◌∷◌, replicate, length, length-replicate, length-set,
  Option, some, none, get_elem?, get_elem?-set_at, get_elem?-set_ne, set, arith,
}
use freak.Memory.{Heap, alloc}
use freak.Memory.Counting.{one, count, alloc-count, release-Frees}
use freak.Chip.{
  Object, Mod, create_object, destroy_object, construct_from, construct, destruct_from, destruct,
}

-- How often the objects hold a number.
held : List (Option Object) → ℕ → ℕ
held [] k = 0
held (none ∷ os) k = held os k
held (some o ∷ os) k = one o.priv k + one o.obj k + held os k

held-set :
    (os : List (Option Object)) (i k : ℕ) (o : Object)
    → get_elem? os i ≡ some none
    → held (set os i (some o)) k ≡ one o.priv k + one o.obj k + held os k
unfolding held
held-set [] i k o h = absurd (ground arith)
held-set (none ∷ os) zero k o h = refl
held-set (some x ∷ os) zero k o h = absurd (ground arith)
held-set (none ∷ os) (suc i) k o h = held-set os i k o h
held-set (some x ∷ os) (suc i) k o h = omega (arith, held-set os i k o h)

held-clear :
    (os : List (Option Object)) (i k : ℕ) (o : Object)
    → get_elem? os i ≡ some (some o)
    → held os k ≡ one o.priv k + one o.obj k + held (set os i none) k
unfolding held
held-clear [] i k o h = absurd (ground arith)
held-clear (none ∷ os) zero k o h = absurd (ground arith)
held-clear (some x ∷ os) zero k o h =
    ap (λ y. one y.priv k + one y.obj k + held os k) (some-injective _ _ (some-injective _ _ h))
held-clear (none ∷ os) (suc i) k o h = held-clear os i k o h
held-clear (some x ∷ os) (suc i) k o h = omega (arith, held-clear os i k o h)

held-replicate : (n k : ℕ) → held (replicate n none) k ≡ 0
unfolding held
held-replicate zero k = refl
held-replicate (suc n) k = held-replicate n k

held-none :
    (os : List (Option Object)) (k : ℕ)
    → ((j : ℕ) → j < length os → get_elem? os j ≡ some none)
    → held os k ≡ 0
unfolding held
held-none [] k h = refl
held-none (none ∷ os) k h = held-none os k (λ j lt. h (suc j) (omega arith))
held-none (some o ∷ os) k h = absurd (let e = h 0 (omega arith) in ground arith)

-- From `i` on there is no object, or there is one up to `num`.
abbrev Absent : ℕ → ℕ → List (Option Object) → Type 0
Absent i n os = (j : ℕ) → i ≤ j → j < n → get_elem? os j ≡ some none

abbrev pub Present : ℕ → ℕ → List (Option Object) → Type 0
Present i n os = (j : ℕ) → i ≤ j → j < n → (o : Object) × (get_elem? os j ≡ some (some o))

le_cases : (i j : ℕ) → i ≤ j → (i ≡ j) ⊎ (suc i ≤ j)
le_cases i j h = ground arith

module _ (init : ℕ → Bool) (inits : (i : ℕ) → init i ≡ true) where
  made :
      (i : ℕ) (m : Mod) (w : Heap)
      → i < m.num
      → m.num < 2147483648
      → get_elem? m.objs i ≡ some none
      → (o : Object) × (w' : Heap) × (create_object i m w
          ≡ some (some o, record m { objs = set m.objs i (some o) }, w'))
        × ((k : ℕ) → count k w'.live ≡ count k w.live + one o.priv k + one o.obj k)
  unfolding create_object
  made i m w lt few e =
      let w1 = (alloc w).1 in
      (
        record { priv = (alloc w).0; obj = (alloc w1).0 },
        (alloc w1).1,
        simp (create_object, lt→ltb i 2147483648 (omega arith), lt→not-leb m.num i lt, e) refl,
        λ k. omega (arith, alloc-count w k, alloc-count w1 k),
      )

  construct_from_lem :
      (n i : ℕ) (m : Mod) (w : Heap)
      → n + i ≡ m.num
      → m.num < 2147483648
      → length m.objs ≡ m.num
      → Absent i m.num m.objs
      → Present 0 i m.objs
      → (os : List (Option Object)) × (w' : Heap) × (construct_from init n i m w
          ≡ some (record m { objs = os }, w'))
        × (length os ≡ m.num)
        × Present 0 m.num os
        × ((k : ℕ) → count k w'.live + held m.objs k ≡ count k w.live + held os k)
  unfolding construct_from
  construct_from_lem zero i m w e few len a p =
      (m.objs, w, refl, len, λ j lo lt. p j lo (omega arith), λ k. refl)
  construct_from_lem (suc n) i m w e few len a p =
      let lt : i < m.num = omega arith in
      let (o, w1, ran, live) = made i m w lt few (a i (omega arith) lt) in
      let m1 : Mod = record m { objs = set m.objs i (some o) } in
      let (os, w2, rest, len', present, counts) =
        construct_from_lem n (suc i) m1 w1 (omega arith) few (length-set m.objs i (some o) ∙ len)
          (λ j lo hi.
            get_elem?-set_ne m.objs {i = i} {j = j} (some o) (omega arith) ∙ a j (omega arith) hi)
          (λ j lo hi. elim (le_cases j i (omega arith)) [
            | inl same ↦ (
              o,
              subst (λ x. get_elem? (set m.objs i (some o)) x ≡ some (some o)) (sym same)
                  (get_elem?-set_at m.objs i none (some o) (a i (omega arith) lt)),
            )
            | inr below ↦
                (let (o', q) = p j lo (omega arith) in
                  (o', get_elem?-set_ne m.objs {i = i} {j = j} (some o) (λ z. omega arith) ∙ q))
          ]) in
      (
        os,
        w2,
        rw (ran, inits i) rest,
        len',
        present,
        λ k. omega (arith, counts k, live k, held-set m.objs i k o (a i (omega arith) lt)),
      )

destroyed :
    (i : ℕ) (m : Mod) (w : Heap) (o : Object)
    → i < m.num
    → m.num < 2147483648
    → get_elem? m.objs i ≡ some (some o)
    → ((k : ℕ) → held m.objs k ≤ count k w.live)
    → (w' : Heap) × (create_object i m w ≡ some (some o, m, w))
      × (destroy_object i o m w ≡ some (record m { objs = set m.objs i none }, w'))
      × ((k : ℕ) → count k w'.live + held m.objs k ≡ count k w.live + held (set m.objs i none) k)
unfolding create_object destroy_object
destroyed i m w o lt few e h =
    let (w1, a, b) = release-Frees o.priv w (λ k. omega (arith, h k, held-clear m.objs i k o e)) in
    let (w2, c, d) =
      release-Frees o.obj w1 (λ k. omega (arith, h k, b k, held-clear m.objs i k o e)) in
    (
      w2,
      simp (create_object, lt→ltb i 2147483648 (omega arith), lt→not-leb m.num i lt, e) refl,
      simp (destroy_object, a, c) refl,
      λ k. omega (arith, b k, d k, held-clear m.objs i k o e),
    )

destruct_from_lem :
    (n i : ℕ) (m : Mod) (w : Heap)
    → n + i ≡ m.num
    → m.num < 2147483648
    → length m.objs ≡ m.num
    → Present i m.num m.objs
    → Absent 0 i m.objs
    → ((k : ℕ) → held m.objs k ≤ count k w.live)
    → (os : List (Option Object)) × (w' : Heap) × (destruct_from n i m w
        ≡ some (record m { objs = os }, w'))
      × (length os ≡ m.num)
      × Absent 0 m.num os
      × ((k : ℕ) → count k w'.live + held m.objs k ≡ count k w.live + held os k)
unfolding destruct_from
destruct_from_lem zero i m w e few len p a h =
    (m.objs, w, refl, len, λ j lo lt. a j lo (omega arith), λ k. refl)
destruct_from_lem (suc n) i m w e few len p a h =
    let lt : i < m.num = omega arith in
    let (o, here) = p i (omega arith) lt in
    let (w1, same, ran, live) = destroyed i m w o lt few here h in
    let m1 : Mod = record m { objs = set m.objs i none } in
    let (os, w2, rest, len', absent, counts) =
      destruct_from_lem n (suc i) m1 w1 (omega arith) few (length-set m.objs i none ∙ len)
        (λ j lo hi.
          let (o', q) = p j (omega arith) hi in
          (o', get_elem?-set_ne m.objs {i = i} {j = j} none (λ z. omega arith) ∙ q))
        (λ j lo hi. elim (le_cases j i (omega arith)) [
          | inl eq ↦
              subst (λ x. get_elem? (set m.objs i none) x ≡ some none) (sym eq)
                (get_elem?-set_at m.objs i (some o) none here)
          | inr below ↦
              get_elem?-set_ne m.objs {i = i} {j = j} none (λ z. omega arith) ∙ a j lo (omega arith)
        ])
        (λ k. omega (arith, h k, live k, held-clear m.objs i k o here)) in
    (os, w2, rw (same, ran) rest, len', absent, λ k. omega (arith, counts k, live k))

abbrev none_object : Option Object
none_object = none

get_elem?-replicate : (n j : ℕ) → j < n → get_elem? (replicate n none_object) j ≡ some none
get_elem?-replicate zero j h = absurd (omega arith)
get_elem?-replicate (suc n) zero h = refl
get_elem?-replicate (suc n) (suc j) h = get_elem?-replicate n j (omega arith)

-- The constructor of a layer makes an object for each id below the number, and the destructor
-- behind it frees all of them and the table, each once, so that just as much lives as before.
-- The conditions: the objects can be initialised and their number fits an int.
pub construct-destruct :
    (init : ℕ → Bool) (num : ℕ) (w : Heap)
    → ((i : ℕ) → init i ≡ true)
    → num < 2147483648
    → (m : Mod) × (w1 : Heap) × (m' : Mod) × (w2 : Heap) × (construct init num w ≡ some (m, w1))
      × Present 0 num m.objs
      × (destruct m w1 ≡ some (m', w2))
      × ((k : ℕ) → count k w2.live ≡ count k w.live)
unfolding construct destruct
construct-destruct init num w inits few =
    let empty : List (Option Object) = replicate num none in
    let m0 : Mod = record { num = num; table = (alloc w).0; objs = empty } in
    let w0 = (alloc w).1 in
    let (os, w1, ran, len, present, counts) =
      construct_from_lem init inits num 0 m0 w0 (omega arith) few (length-replicate num none)
        (λ j lo hi. get_elem?-replicate num j hi) (λ j lo hi. absurd (omega arith)) in
    let m1 : Mod = record m0 { objs = os } in
    let (os2, w2, ran2, len2, absent, counts2) =
      destruct_from_lem num 0 m1 w1 (omega arith) few len present (λ j lo hi. absurd (omega arith))
        (λ k. omega (arith, counts k, held-replicate num k)) in
    let nothing : (k : ℕ) → held os2 k ≡ 0 =
      λ k. held-none os2 k (λ j hi. absent j (omega arith) (omega (arith, len2))) in
    let (w3, freed, live) =
      release-Frees ((alloc w).0) w2 (λ k.
        omega (arith, alloc-count w k, counts k, counts2 k, held-replicate num k, nothing k)) in
    (
      m1,
      w1,
      record m1 { num = 0; objs = os2 },
      w3,
      ran,
      present,
      rw (ran2, freed) refl,
      λ k.
          omega
            (arith, live k, alloc-count w k, counts k, counts2 k, held-replicate num k, nothing k),
    )
