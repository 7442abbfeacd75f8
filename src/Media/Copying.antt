-- ===== src/Media/Copying.antt =====
-- Copying through a cursor lays the bytes end to end, wherever the ring is cut.
use freak.Prelude.{
  ℕ, zero, suc, ◌-◌, ◌≡◌, refl, ap, ◌∙◌, sym, ◌≤◌, min, List, [], ◌∷◌, ◌++◌, arith, length, take,
  drop, length-append, length-take, take_all, drop_all,
}
use native.Mathlib.Decide.{dec_le}
use freak.Media.{Cursor, cursor, copy}

-- What stands before and after the cut of a list of bytes.
pub take-append_cut :
    (n : ℕ) (xs ys : List ℕ) → take n (xs ++ ys) ≡ take n xs ++ take (n - length xs) ys
take-append_cut zero [] ys = ap (λ k. take k ys) {x = 0} {y = 0 - 0} (omega arith)
take-append_cut zero (x ∷ xs) ys =
    ap (λ k. take k ys) {x = 0} {y = 0 - suc (length xs)} (omega arith)
take-append_cut (suc n) [] ys = ap (λ k. take k ys) {x = suc n} {y = suc n - 0} (omega arith)
take-append_cut (suc n) (x ∷ xs) ys = ap (◌∷◌ x) (
    take-append_cut n xs ys
    ∙ ap (λ k. take n xs ++ take k ys) {x = n - length xs} {y = suc n - suc (length xs)}
        (omega arith))

pub drop-append_cut :
    (n : ℕ) (xs ys : List ℕ) → drop n (xs ++ ys) ≡ drop n xs ++ drop (n - length xs) ys
drop-append_cut zero [] ys = ap (λ k. drop k ys) {x = 0} {y = 0 - 0} (omega arith)
drop-append_cut zero (x ∷ xs) ys =
    ap (λ k. (x ∷ xs) ++ drop k ys) {x = 0} {y = 0 - suc (length xs)} (omega arith)
drop-append_cut (suc n) [] ys = ap (λ k. drop k ys) {x = suc n} {y = suc n - 0} (omega arith)
drop-append_cut (suc n) (x ∷ xs) ys =
    drop-append_cut n xs ys
    ∙ ap (λ k. drop n xs ++ drop k ys) {x = n - length xs} {y = suc n - suc (length xs)}
        (omega arith)

pub take-take : (m n : ℕ) (xs : List ℕ) → m ≤ n → take m (take n xs) ≡ take m xs
take-take zero n xs h = refl
take-take (suc m) zero xs h = absurd (omega arith)
take-take (suc m) (suc n) [] h = refl
take-take (suc m) (suc n) (x ∷ xs) h = ap (◌∷◌ x) (take-take m n xs (omega arith))

pub drop-take : (m n : ℕ) (xs : List ℕ) → drop m (take n xs) ≡ take (n - m) (drop m xs)
drop-take zero n xs = ap (λ k. take k xs) {x = n} (omega arith)
drop-take (suc m) zero xs = ap (λ k. take k (drop (suc m) xs)) {x = 0} (omega arith)
drop-take (suc m) (suc n) [] = sym (take_all (suc n - suc m) [] (omega arith))
drop-take (suc m) (suc n) (x ∷ xs) =
    drop-take m n xs ∙ ap (λ k. take k (drop m xs)) {x = n - m} (omega arith)

-- The cursor stands behind `bytes`, in a ring cut after `n1`.
pub record Behind (n1 : ℕ) (bytes : List ℕ) (c : Cursor) : Type 0 where
  pub room : c.room ≡ n1 - length bytes
  pub first : c.out1 ≡ take n1 bytes
  pub second : c.out2 ≡ drop n1 bytes

pub cursor-Behind : (n1 : ℕ) → Behind n1 [] (cursor n1)
cursor-Behind n1 = record {
  room = omega arith;
  first = sym (take_all n1 [] (omega arith));
  second = sym (drop_all n1 [] (omega arith));
}

copy_first : (a room : ℕ) (p : List ℕ) → take (min a room) p ≡ take room (take a p)
copy_first a room p = elim (dec_le a room) [
  | yes h ↦
      ap (λ k. take k p) {x = min a room} {y = a} (omega arith)
      ∙ sym (take_all room (take a p) (omega (arith, length-take a p)))
  | no h ↦
      ap (λ k. take k p) {x = min a room} {y = room} (omega arith)
      ∙ sym (take-take room a p (omega arith))
]

copy_second :
    (a room : ℕ) (p : List ℕ) → take (a - min a room) (drop (min a room) p) ≡ drop room (take a p)
copy_second a room p = elim (dec_le a room) [
  | yes h ↦
      ap (λ k. take k (drop (min a room) p)) {x = a - min a room} {y = 0} (omega arith)
      ∙ sym (drop_all room (take a p) (omega (arith, length-take a p)))
  | no h ↦
      ap (λ k. take (a - k) (drop k p)) {x = min a room} {y = room} (omega arith)
      ∙ sym (drop-take room a p)
]

pub copy-Behind :
    (n1 : ℕ) (bytes p : List ℕ) (a : ℕ) (c : Cursor)
    → a ≤ length p
    → Behind n1 bytes c
    → Behind n1 (bytes ++ take a p) (copy c p a)
unfolding copy
copy-Behind n1 bytes p a c h b = record {
  room = omega (arith, b, length-append bytes (take a p), length-take a p);
  first = rw (b.first, copy_first a c.room p, b.room) (sym (take-append_cut n1 bytes (take a p)));
  second =
      rw (b.second, copy_second a c.room p, b.room) (sym (drop-append_cut n1 bytes (take a p)));
}
