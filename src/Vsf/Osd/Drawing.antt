-- ===== src/Vsf/Osd/Drawing.antt =====
-- Drawing a box, its label, and a whole bitmap.
use freak.Prelude.{
  ℕ, ◌+◌, ◌-◌, ◌*◌, ◌%◌, ◌^◌, ◌≡◌, ◌≤◌, ◌<◌, ap, ◌∙◌, sym, subst, length, false, some, ◌==◌, arith,
}
use freak.Prelude.Int.{pos, ◌-ℤ◌}
use native.Mathlib.Nat.{mod-eq_of_lt, mul-le-mul_right, mul-le-mul_left}
use freak.Vsf.Osd.{Bitmap}
use freak.Vsf.Osd.Painting.{IsBitmap, Drawn}
use freak.Vsf.Osd.Boxes.{Rect, box_of, draw_box, range_size, range_point, scale}
use freak.Vsf.Osd.Edges.{Border, loops-Drawn}

-- A part of a size, and a second part of the rest.
scale_fits :
    (p m w size : ℕ) → p + m ≡ 8192 → w ≤ m → size < 524288 → scale p size + scale w size ≤ size
scale_fits p m w size e h few =
    let a : p * size + m * size ≡ 8192 * size = omega (arith, ap (λ t. t * size) e) in
    let b = mul-le-mul_right {m = w} {n = m} size h in
    let c : p * size % 2 ^ 32 ≡ p * size = mod-eq_of_lt (omega arith) in
    let d : w * size % 2 ^ 32 ≡ w * size = mod-eq_of_lt (omega arith) in omega (arith, a, b, c, d)

range_point_is : (p : ℕ) → p < 8192 → range_point (pos p) ≡ p
range_point_is p h = ground arith

range_size_fits : (w p : ℕ) → p < 8192 → range_size w (pos p) ≤ 8192 - p
unfolding range_size ◌-ℤ◌
range_size_fits w p h = ground arith

positive : (n : ℕ) → 1 ≤ n → (n == 0) ≡ false
positive n h = ground arith

area_counts :
    (w h s height len : ℕ)
    → 4 ≤ w
    → 4 ≤ h
    → w ≤ s
    → h ≤ height
    → 2 * s * height ≤ 2 * len
    → len < 2147483648
    → (w * h % 2 ^ 32 == 0) ≡ false
area_counts w h s height len hw hh a c all small =
    let e = mul-le-mul_right {m = w} {n = s} h a in
    let f = mul-le-mul_left {m = h} {n = height} s c in
    let g = mul-le-mul_right {m = 4} {n = w} h hw in
    let same : w * h % 2 ^ 32 ≡ w * h = mod-eq_of_lt (omega (arith, e, f, all, small)) in
    let some_area : 1 ≤ w * h = omega (arith, g, hh) in rw same (positive (w * h) some_area)

module _ (color : ℕ) (b : Bitmap) (v : IsBitmap b) (s : ℕ) (even : b.stride ≡ 2 * s)
    (small : length b.pixels < 2147483648) (wide : b.width < 524288) (high : b.height < 524288)
    (r : Rect) (px py : ℕ) (at_x : r.x ≡ pos px) (at_y : r.y ≡ pos py) (in_x : px < 8192)
    (in_y : py < 8192) where
  fit_w : (box_of r b).left + (box_of r b).width ≤ b.width
  unfolding box_of
  fit_w =
      let part =
        scale_fits px (8192 - px) (range_size r.w (pos px)) b.width (omega (arith, in_x))
          (range_size_fits r.w px in_x) wide in
      let point : range_point r.x ≡ px = ap range_point at_x ∙ range_point_is px in_x in
      subst (λ t. scale t b.width + scale (range_size r.w r.x) b.width ≤ b.width) (sym point)
        (subst (λ t. scale px b.width + scale (range_size r.w t) b.width ≤ b.width) (sym at_x) part)

  fit_h : (box_of r b).top + (box_of r b).height ≤ b.height
  unfolding box_of
  fit_h =
      let part =
        scale_fits py (8192 - py) (range_size r.h (pos py)) b.height (omega (arith, in_y))
          (range_size_fits r.h py in_y) high in
      let point : range_point r.y ≡ py = ap range_point at_y ∙ range_point_is py in_y in
      subst (λ t. scale t b.height + scale (range_size r.h r.y) b.height ≤ b.height) (sym point)
        (subst (λ t. scale py b.height + scale (range_size r.h t) b.height ≤ b.height) (sym at_y)
          part)

  not_empty :
      4 ≤ (box_of r b).width
      → 4 ≤ (box_of r b).height
      → ((box_of r b).width * (box_of r b).height % 2 ^ 32 == 0) ≡ false
  not_empty hw hh =
      area_counts (box_of r b).width (box_of r b).height s b.height (length b.pixels) hw hh
        (omega (arith, fit_w, v.row_fits, even)) (omega (arith, fit_h))
        (subst (λ t. t * b.height ≤ 2 * length b.pixels) even v.rows_fit) small

  -- The two loops of __draw_obj always return, without a write outside the memory of the bitmap,
  -- and give the color to the pixels in the first and last four rows and columns of the box, and
  -- to no other: the size and all other pixels stay. The conditions: the rows of the bitmap hold
  -- their pixels, its memory, which is below 2^31 pixels, the rows; the stride is even; width
  -- and height are below 2^19; the point of the rectangle lies in 0 to 8191, whatever its size,
  -- and the scaled box is at least four pixels wide and high.
  pub draw_box-Drawn :
      4 ≤ (box_of r b).width
      → 4 ≤ (box_of r b).height
      → (b' : Bitmap) × (draw_box r color b ≡ some b') × Drawn (Border s (box_of r b)) color b b'
  unfolding draw_box
  draw_box-Drawn hw hh =
      let (b', e, d) = loops-Drawn color b v s even small (box_of r b) hw hh fit_w fit_h in
      (b', simp (draw_box, not_empty hw hh) e, d)
