-- ===== src/App/Objects.antt =====
-- What __app_alg_result triggers the overlay with.
use freak.Prelude.{
  ℕ, zero, suc, ◌≡◌, ◌≤◌, refl, ap, true, false, List, [], ◌∷◌, ◌++◌, some, none, ltb,
  if◌then◌else◌, get_elem?, set, length, map, take, drop, replicate, length-append, append_assoc,
  arith,
}
use freak.App.{Found, Boxed, boxed, no_box, copy_objs, app_alg_result}

module _ {ℓ} {A : Type ℓ} where
  get_elem?-append : (xs ys : List A) (y : A) → get_elem? (xs ++ y ∷ ys) (length xs) ≡ some y
  get_elem?-append [] ys y = refl
  get_elem?-append (x ∷ xs) ys y = get_elem?-append xs ys y

  set-append : (xs ys : List A) (y v : A) → set (xs ++ y ∷ ys) (length xs) v ≡ xs ++ v ∷ ys
  set-append [] ys y v = refl
  set-append (x ∷ xs) ys y v = ap (◌∷◌ x) (set-append xs ys y v)

copy_objs_lem :
    (n : ℕ) (seen objs : List Found) (written rest : List Boxed)
    → length seen ≡ length written
    → n ≤ length objs
    → copy_objs (seen ++ objs) n (length seen) (written ++ rest) ≡ (
        if ltb (length rest) n
        then none
        else some (written ++ (map boxed (take n objs) ++ drop n rest)))
unfolding copy_objs
copy_objs_lem zero seen objs written rest e h = ground arith
copy_objs_lem (suc n) seen [] written rest e h = absurd (omega arith)
copy_objs_lem (suc n) seen (o ∷ objs) written [] e h =
    let full : ltb (length seen) (length (written ++ [])) ≡ false =
      ground (arith, length-append written []) in
    simp (get_elem?-append seen objs o, full) (ground arith)
copy_objs_lem (suc n) seen (o ∷ objs) written (b ∷ rest) e h =
    let room : ltb (length seen) (length (written ++ b ∷ rest)) ≡ true =
      ground (arith, length-append written (b ∷ rest)) in
    let put : set (written ++ b ∷ rest) (length seen) (boxed o) ≡ written ++ boxed o ∷ rest =
      rw e (set-append written rest b (boxed o)) in
    let ih =
      simp (append_assoc, length-append) at
        (copy_objs_lem n (seen ++ o ∷ []) objs (written ++ boxed o ∷ []) rest
          (omega (arith, length-append seen (o ∷ []), length-append written (boxed o ∷ [])))
          (omega arith)) in
    simp (get_elem?-append seen objs o, room, put, ih) (ground arith)

-- __app_alg_result triggers the overlay with as many objects as the algorithm found, each with
-- its id and box, in order, and zeros behind them, if there are at most 16; with more it writes
-- past the array of the overlay. The condition: the algorithm's array has that many objects.
pub app_alg_result_lem :
    (num : ℕ) (objs : List Found)
    → num ≤ length objs
    → app_alg_result num objs ≡ (
        if ltb 16 num
        then none
        else some (num, map boxed (take num objs) ++ drop num (replicate 16 no_box)))
unfolding app_alg_result
app_alg_result_lem num objs h =
    simp (copy_objs_lem num [] objs [] (replicate 16 no_box) refl h) (ground arith)
