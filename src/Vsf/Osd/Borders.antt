-- ===== src/Vsf/Osd/Borders.antt =====
-- A box paints its border and nothing else.
use freak.Prelude.{
  ℕ, zero, suc, ◌+◌, ◌-◌, ◌%◌, ◌^◌, ◌≡◌, ◌⊎◌, ◌≤◌, ◌<◌, refl, ap, sym, subst, inl, inr, List, [],
  ◌∷◌, length, map, some, arith,
}
use freak.Vsf.Osd.{Bitmap}
use freak.Vsf.Osd.Painting.{Drawn, Drawn-refl, Drawn-trans}
use freak.Vsf.Osd.Raster.{write-Drawn, le-cases}
use freak.Vsf.Osd.Boxes.{write_each, draw_turns}

-- One of the indices of a list.
pub Among : List ℕ → ℕ → Type 0
Among [] k = ⊥
Among (x ∷ xs) k = (k ≡ x) ⊎ Among xs k

-- All of them lie in the memory.
pub Inside : ℕ → List ℕ → Type 0
Inside size [] = Unit
Inside size (x ∷ xs) = (x < size) × Inside size xs

Inside-size : (xs : List ℕ) (m n : ℕ) → m ≡ n → Inside m xs → Inside n xs
Inside-size xs m n e v = subst (λ k. Inside k xs) e v

module _ (box color : ℕ) where
  abbrev pub indices : List ℕ → List ℕ
  indices ks = map (λ j. (box + j) % 2 ^ 31) ks

  -- The indices from the pointer `box` on.
  abbrev Written : List ℕ → ℕ → Type 0
  Written ks k = Among (indices ks) k

  write_each-Drawn :
      (ks : List ℕ) (b : Bitmap)
      → Inside (length b.pixels) (indices ks)
      → (b' : Bitmap) × (write_each box color ks b ≡ some b') × Drawn (Written ks) color b b'
  unfolding write_each Among Inside
  write_each-Drawn [] b v = (b, refl, Drawn-refl _ color b (λ k h. h))
  write_each-Drawn (x ∷ ks) b (lt, v) =
      let (b1, e, d) = write-Drawn color b ((box + x) % 2 ^ 31) lt in
      let (b2, f, d') =
        write_each-Drawn ks b1 (Inside-size (indices ks) _ _ (sym d.same_length) v) in
      (
        b2,
        rw e f,
        Drawn-trans _ _ (Written (x ∷ ks)) color b b1 b2 (λ k h. inl h) (λ k h. inr h) (λ k h. h) d
            d',
      )

  -- The indices of the turns from `i` on.
  abbrev pub InTurns : (ℕ → List ℕ) → ℕ → ℕ → ℕ → Type 0
  InTurns f n i k = (j : ℕ) × (i ≤ j) × (j < i + n) × Written (f j) k

  pub draw_turns-Drawn :
      (f : ℕ → List ℕ) (n i : ℕ) (b : Bitmap)
      → ((j : ℕ) → i ≤ j → j < i + n → Inside (length b.pixels) (indices (f j)))
      → (b' : Bitmap) × (draw_turns box color f n i b ≡ some b') × Drawn (InTurns f n i) color b b'
  unfolding draw_turns
  draw_turns-Drawn f zero i b v =
      (b, refl, Drawn-refl _ color b (λ k (j, lo, hi, w). absurd (omega arith)))
  draw_turns-Drawn f (suc n) i b v =
      let (b1, e, d) = write_each-Drawn (f i) b (v i (omega arith) (omega arith)) in
      let (b2, g, d') = draw_turns-Drawn f n (suc i) b1 (λ j lo hi.
        Inside-size (indices (f j)) _ _ (sym d.same_length) (v j (omega arith) (omega arith))) in
      (
        b2,
        rw e g,
        Drawn-trans _ _ (InTurns f (suc n) i) color b b1 b2
            (λ k w. (i, omega arith, omega arith, w))
            (λ k (j, lo, hi, w). (j, omega arith, omega arith, w))
            (λ k (j, lo, hi, w). elim (le-cases i j lo) [
              | inl same ↦ inl (subst (λ t. Written (f t) k) (sym same) w)
              | inr more ↦ inr (j, more, omega arith, w)
            ])
            d d',
      )

-- The first four and the last four of `n` indices.
abbrev pub eight_of : (ℕ → ℕ) → ℕ → List ℕ
eight_of g n = g 0 ∷ g 1 ∷ g 2 ∷ g 3 ∷ g (n - 1) ∷ g (n - 2) ∷ g (n - 3) ∷ g (n - 4) ∷ []

first_four : (r : ℕ) → r < 4 → (r ≡ 0) ⊎ (r ≡ 1) ⊎ (r ≡ 2) ⊎ (r ≡ 3)
first_four r h = ground arith

last_four : (r n : ℕ) → r < n → n ≤ r + 4 → (r ≡ n - 1) ⊎ (r ≡ n - 2) ⊎ (r ≡ n - 3) ⊎ (r ≡ n - 4)
last_four r n h k = ground arith

pub edge-Among : (g : ℕ → ℕ) (r n : ℕ) → r < n → (r < 4) ⊎ (n ≤ r + 4) → Among (eight_of g n) (g r)
unfolding Among
edge-Among g r n h (inl a) = elim (first_four r a) [
  | inl e ↦ inl (ap g e)
  | inr (inl e) ↦ inr (inl (ap g e))
  | inr (inr (inl e)) ↦ inr (inr (inl (ap g e)))
  | inr (inr (inr e)) ↦ inr (inr (inr (inl (ap g e))))
]
edge-Among g r n h (inr a) = elim (last_four r n h a) [
  | inl e ↦ inr (inr (inr (inr (inl (ap g e)))))
  | inr (inl e) ↦ inr (inr (inr (inr (inr (inl (ap g e))))))
  | inr (inr (inl e)) ↦ inr (inr (inr (inr (inr (inr (inl (ap g e)))))))
  | inr (inr (inr e)) ↦ inr (inr (inr (inr (inr (inr (inr (inl (ap g e))))))))
]

pub Among-edge :
    (g : ℕ → ℕ) (n k : ℕ)
    → 4 ≤ n
    → Among (eight_of g n) k
    → (r : ℕ) × (r < n) × ((r < 4) ⊎ (n ≤ r + 4)) × (k ≡ g r)
unfolding Among
Among-edge g n k h (inl e) = (0, omega arith, inl (omega arith), e)
Among-edge g n k h (inr (inl e)) = (1, omega arith, inl (omega arith), e)
Among-edge g n k h (inr (inr (inl e))) = (2, omega arith, inl (omega arith), e)
Among-edge g n k h (inr (inr (inr (inl e)))) = (3, omega arith, inl (omega arith), e)
Among-edge g n k h (inr (inr (inr (inr (inl e))))) = (n - 1, omega arith, inr (omega arith), e)
Among-edge g n k h (inr (inr (inr (inr (inr (inl e)))))) =
    (n - 2, omega arith, inr (omega arith), e)
Among-edge g n k h (inr (inr (inr (inr (inr (inr (inl e))))))) =
    (n - 3, omega arith, inr (omega arith), e)
Among-edge g n k h (inr (inr (inr (inr (inr (inr (inr (inl e)))))))) =
    (n - 4, omega arith, inr (omega arith), e)
Among-edge g n k h (inr (inr (inr (inr (inr (inr (inr (inr e)))))))) = absurd e

pub eight-Inside :
    (g : ℕ → ℕ) (n size : ℕ) → 4 ≤ n → ((r : ℕ) → r < n → g r < size) → Inside size (eight_of g n)
unfolding Inside
eight-Inside g n size h v = (
  v 0 (omega arith),
  (
    v 1 (omega arith),
    (
      v 2 (omega arith),
      (
        v 3 (omega arith),
        (
          v (n - 1) (omega arith),
          (v (n - 2) (omega arith), (v (n - 3) (omega arith), (v (n - 4) (omega arith), tt))),
        ),
      ),
    ),
  ),
)
