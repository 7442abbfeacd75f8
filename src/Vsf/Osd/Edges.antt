-- ===== src/Vsf/Osd/Edges.antt =====
-- Where the border of a box lies.
use freak.Prelude.{
  ℕ, suc, ◌+◌, ◌-◌, ◌*◌, ◌/◌, ◌%◌, ◌^◌, ◌≡◌, ◌⊎◌, ◌≤◌, ◌<◌, ap, ap₂, ◌∙◌, sym, subst, inl, inr, [],
  ◌∷◌, length, some, arith,
}
use native.Mathlib.Nat.{mod-eq_of_lt, mul-le-mul_right, mul-le-mul_left}
use freak.Proto.{◌>>=◌}
use freak.Vsf.Osd.{Bitmap}
use freak.Vsf.Osd.Painting.{IsBitmap, Drawn, Drawn-trans}
use freak.Vsf.Osd.Boxes.{Box, draw_turns, columns_at, rows_at, row, below}
use freak.Vsf.Osd.Borders.{
  Among, Inside, indices, InTurns, draw_turns-Drawn, eight_of, edge-Among, Among-edge, eight-Inside,
}

below_is : (n back : ℕ) → 1 ≤ back → back ≤ n → n < 2147483648 → below n back ≡ n - back
below_is n back one le small = omega arith

eight_equal :
    {a b c d e f g h a' b' c' d' e' f' g' h' : ℕ}
    → a ≡ a'
    → b ≡ b'
    → c ≡ c'
    → d ≡ d'
    → e ≡ e'
    → f ≡ f'
    → g ≡ g'
    → h ≡ h'
    → (a ∷ b ∷ c ∷ d ∷ e ∷ f ∷ g ∷ h ∷ []) ≡ (a' ∷ b' ∷ c' ∷ d' ∷ e' ∷ f' ∷ g' ∷ h' ∷ [])
eight_equal p q r s t u v w = ap₂ (◌∷◌) p (
    ap₂ (◌∷◌) q
      (ap₂ (◌∷◌) r (ap₂ (◌∷◌) s (ap₂ (◌∷◌) t (ap₂ (◌∷◌) u (ap₂ (◌∷◌) v (ap (λ z. z ∷ []) w)))))))

-- The pixel in the row `r` and the column `c` of a box, for rows of `s` pixels.
pub cell : ℕ → Box → ℕ → ℕ → ℕ
cell s x r c = (x.top + r) * s + (x.left + c)

-- The pixels of its border: those in its first or last four rows or columns.
pub Border : ℕ → Box → ℕ → Type 0
unfolding cell
Border s x k =
    (r : ℕ) × (c : ℕ) × (r < x.height)
    × (c < x.width)
    × ((r < 4) ⊎ (x.height ≤ r + 4) ⊎ (c < 4) ⊎ (x.width ≤ c + 4))
    × (k ≡ cell s x r c)

module _ (color : ℕ) (b : Bitmap) (v : IsBitmap b) (s : ℕ) (even : b.stride ≡ 2 * s)
    (small : length b.pixels < 2147483648) (x : Box) (wide : 4 ≤ x.width) (high : 4 ≤ x.height)
    (fit_w : x.left + x.width ≤ b.width) (fit_h : x.top + x.height ≤ b.height) where
  abbrev start : ℕ
  start = x.top * b.stride % 2 ^ 32 / 2 + x.left

  rows_inside : (r : ℕ) → r < b.height → s * suc r ≤ length b.pixels
  rows_inside r h =
      let all : 2 * s * b.height ≤ 2 * length b.pixels =
        subst (λ t. t * b.height ≤ 2 * length b.pixels) even v.rows_fit in
      omega (arith, all, mul-le-mul_left {m = suc r} {n = b.height} s h)

  half_row : b.width ≤ s
  half_row = omega (arith, v.row_fits, even)

  broad : x.width < 2147483648
  broad = omega (arith, half_row, small, wide, high, fit_w, fit_h, rows_inside 0 (omega arith))

  tall : x.height < 2147483648
  tall =
      let most = rows_inside (b.height - 1) (omega arith) in
      let whole : suc (b.height - 1) ≡ b.height = omega arith in
      let area = subst (λ t. s * t ≤ length b.pixels) whole most in
      let each = mul-le-mul_right {m = 1} {n = s} b.height (omega (arith, half_row, wide, fit_w)) in
      omega (arith, area, each, small, fit_h)

  row_is : (r : ℕ) → r < b.height → row b.stride r ≡ r * s
  row_is r h =
      let double : r * b.stride ≡ 2 * (s * r) = ap (λ t. r * t) even ∙ omega arith in
      let few : r * b.stride % 2 ^ 32 ≡ r * b.stride =
        mod-eq_of_lt (omega (arith, double, small, rows_inside r h)) in
      omega (arith, few, double)

  cell_fits : (r c : ℕ) → r < x.height → c < x.width → cell s x r c < length b.pixels
  unfolding cell
  cell_fits r c hr hc = omega (arith, rows_inside (x.top + r) (omega arith), half_row)

  cell_at :
      (r c : ℕ)
      → r < x.height
      → c < x.width
      → (start + (row b.stride r + c)) % 2 ^ 31 ≡ cell s x r c
  unfolding cell
  cell_at r c hr hc =
      let top = row_is x.top (omega arith) in
      let here = row_is r (omega arith) in
      let same : start + (row b.stride r + c) ≡ cell s x r c = omega (arith, top, here) in
      ap (λ k. k % 2 ^ 31) same ∙ mod-eq_of_lt (omega (arith, cell_fits r c hr hc, small))

  back_at :
      (k c : ℕ)
      → 1 ≤ k
      → k ≤ 4
      → c < x.width
      → (start + (row b.stride (below x.height k) + c) % 2 ^ 32) % 2 ^ 31
        ≡ cell s x (x.height - k) c
  back_at k c lo hi hc =
      let r : below x.height k ≡ x.height - k = below_is x.height k lo (omega arith) tall in
      let here = row_is (x.height - k) (omega arith) in
      let near : (row b.stride (x.height - k) + c) % 2 ^ 32 ≡ row b.stride (x.height - k) + c =
        mod-eq_of_lt
          (omega (arith, here, half_row, small, rows_inside (x.height - k) (omega arith))) in
      ap (λ t. (start + (row b.stride t + c) % 2 ^ 32) % 2 ^ 31) r
      ∙ ap (λ t. (start + t) % 2 ^ 31) near
      ∙ cell_at (x.height - k) c (omega arith) hc

  side_at :
      (r k : ℕ)
      → 1 ≤ k
      → k ≤ 4
      → r < x.height
      → (start + (row b.stride r + below x.width k) % 2 ^ 32) % 2 ^ 31 ≡ cell s x r (x.width - k)
  side_at r k lo hi hr =
      let c : below x.width k ≡ x.width - k = below_is x.width k lo (omega arith) broad in
      let here = row_is r (omega arith) in
      let near : (row b.stride r + (x.width - k)) % 2 ^ 32 ≡ row b.stride r + (x.width - k) =
        mod-eq_of_lt (omega (arith, here, half_row, small, rows_inside r (omega arith))) in
      ap (λ t. (start + (row b.stride r + t) % 2 ^ 32) % 2 ^ 31) c
      ∙ ap (λ t. (start + t) % 2 ^ 31) near
      ∙ cell_at r (x.width - k) hr (omega arith)

  columns_are :
      (i : ℕ)
      → i < x.width
      → indices start color (columns_at x b.stride i) ≡ eight_of (λ r. cell s x r i) x.height
  columns_are i h =
      let a = cell_at 0 i (omega (arith, high)) h in
      let c = cell_at 1 i (omega (arith, high)) h in
      let d = cell_at 2 i (omega (arith, high)) h in
      let e = cell_at 3 i (omega (arith, high)) h in
      eight_equal a c d e (back_at 1 i (omega arith) (omega arith) h)
        (back_at 2 i (omega arith) (omega arith) h) (back_at 3 i (omega arith) (omega arith) h)
        (back_at 4 i (omega arith) (omega arith) h)

  rows_are :
      (i : ℕ)
      → i < x.height
      → indices start color (rows_at x b.stride i) ≡ eight_of (cell s x i) x.width
  rows_are i h =
      eight_equal (cell_at i 0 h (omega (arith, wide))) (cell_at i 1 h (omega (arith, wide)))
        (cell_at i 2 h (omega (arith, wide))) (cell_at i 3 h (omega (arith, wide)))
        (side_at i 1 (omega arith) (omega arith) h) (side_at i 2 (omega arith) (omega arith) h)
        (side_at i 3 (omega arith) (omega arith) h) (side_at i 4 (omega arith) (omega arith) h)

  column_Border : (k : ℕ) → InTurns start color (columns_at x b.stride) x.width 0 k → Border s x k
  unfolding Border
  column_Border k (c, lo, hi, w) =
      let lt : c < x.width = omega arith in
      let (r, hr, e, q) =
        Among-edge (λ r. cell s x r c) x.height k high
          (subst (λ l. Among l k) (columns_are c lt) w) in
      (r, c, hr, lt, elim e [ inl a ↦ inl a | inr a ↦ inr (inl a) ], q)

  row_Border : (k : ℕ) → InTurns start color (rows_at x b.stride) x.height 0 k → Border s x k
  unfolding Border
  row_Border k (r, lo, hi, w) =
      let lt : r < x.height = omega arith in
      let (c, hc, e, q) =
        Among-edge (cell s x r) x.width k wide (subst (λ l. Among l k) (rows_are r lt) w) in
      (r, c, lt, hc, elim e [ inl a ↦ inr (inr (inl a)) | inr a ↦ inr (inr (inr a)) ], q)

  in_column :
      (r c k : ℕ)
      → r < x.height
      → c < x.width
      → (r < 4) ⊎ (x.height ≤ r + 4)
      → k ≡ cell s x r c
      → InTurns start color (columns_at x b.stride) x.width 0 k
  in_column r c k hr hc e q = (
    c,
    omega arith,
    omega arith,
    subst (λ l. Among l k) (sym (columns_are c hc))
        (subst (Among (eight_of (λ t. cell s x t c) x.height)) (sym q)
          (edge-Among (λ t. cell s x t c) r x.height hr e)),
  )

  in_row :
      (r c k : ℕ)
      → r < x.height
      → c < x.width
      → (c < 4) ⊎ (x.width ≤ c + 4)
      → k ≡ cell s x r c
      → InTurns start color (rows_at x b.stride) x.height 0 k
  in_row r c k hr hc e q = (
    r,
    omega arith,
    omega arith,
    subst (λ l. Among l k) (sym (rows_are r hr))
        (subst (Among (eight_of (cell s x r) x.width)) (sym q)
          (edge-Among (cell s x r) c x.width hc e)),
  )

  Border-cases :
      (k : ℕ)
      → Border s x k
      → InTurns start color (columns_at x b.stride) x.width 0 k
        ⊎ InTurns start color (rows_at x b.stride) x.height 0 k
  unfolding Border
  Border-cases k (r, c, hr, hc, e, q) = elim e [
    | inl a ↦ inl (in_column r c k hr hc (inl a) q)
    | inr (inl a) ↦ inl (in_column r c k hr hc (inr a) q)
    | inr (inr (inl a)) ↦ inr (in_row r c k hr hc (inl a) q)
    | inr (inr (inr a)) ↦ inr (in_row r c k hr hc (inr a) q)
  ]

  pub loops-Drawn :
      (b' : Bitmap) × ((draw_turns start color (columns_at x b.stride) x.width 0 b >>= λ b1.
      draw_turns start color (rows_at x b.stride) x.height 0 b1)
        ≡ some b')
      × Drawn (Border s x) color b b'
  loops-Drawn =
      let (b1, e, d) = draw_turns-Drawn start color (columns_at x b.stride) x.width 0 b (λ j lo hi.
        let lt : j < x.width = omega arith in
        subst (Inside (length b.pixels)) (sym (columns_are j lt)) (
          eight-Inside (λ r. cell s x r j) x.height (length b.pixels) high
            (λ r hr. cell_fits r j hr lt))) in
      let (b2, f, d') = draw_turns-Drawn start color (rows_at x b.stride) x.height 0 b1 (λ j lo hi.
        let lt : j < x.height = omega arith in
        subst (λ n. Inside n (indices start color (rows_at x b.stride j))) (sym d.same_length)
          (subst (Inside (length b.pixels)) (sym (rows_are j lt)) (
            eight-Inside (cell s x j) x.width (length b.pixels) wide
              (λ c hc. cell_fits j c lt hc)))) in
      (
        b2,
        rw e f,
        Drawn-trans _ _ (Border s x) color b b1 b2 column_Border row_Border Border-cases d d',
      )
