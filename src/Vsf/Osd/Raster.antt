-- ===== src/Vsf/Osd/Raster.antt =====
-- Drawing a character paints its pixels and nothing else.
use freak.Prelude.{
  ℕ, zero, suc, ◌+◌, ◌*◌, ◌/◌, ◌≡◌, ◌≢◌, ◌⊎◌, ◌≤◌, ◌<◌, refl, sym, subst, inl, inr, length,
  length-set, some, Option-cases, Bool-cases, ◌==◌, get_elem?, set, get_elem?-some, get_or-set_self,
  get_or-set_ne, lt→ltb, arith,
}
use native.Mathlib.Nat.{mul-le-mul_left}
use freak.Vsf.Osd.{
  Bitmap, Glyph, Start, before, at, place, write, plot, plot_rows, plot_columns, draw_char,
  argb8888_1555, pixel_at,
}
use freak.Vsf.Osd.Painting.{
  IsBitmap, Drawn, Drawn-refl, Drawn-trans, Drawn-IsBitmap, Drawn-iff, ==-false, resize,
}

pub le-cases : (m n : ℕ) → m ≤ n → (m ≡ n) ⊎ (m < n)
le-cases m n h = ground arith

-- The index does not wrap.
pixel_at_lem :
    (b : Bitmap) (i j : ℕ)
    → IsBitmap b
    → i < b.width
    → j < b.height
    → pixel_at b i j ≡ j * b.stride / 2 + i
pixel_at_lem b i j v hi hj =
    let below : j * b.stride + b.stride ≤ 2 * length b.pixels =
      omega (arith, v.rows_fit, mul-le-mul_left {m = suc j} {n = b.height} b.stride hj) in
    omega (arith, below, v.row_fits, v.small)

-- The index of a pixel inside the bitmap is inside its memory.
index_fits :
    (b : Bitmap) (i j : ℕ)
    → IsBitmap b
    → i < b.width
    → j < b.height
    → j * b.stride / 2 + i < length b.pixels
index_fits b i j v hi hj =
    omega (arith, v.row_fits, v.rows_fit, mul-le-mul_left {m = suc j} {n = b.height} b.stride hj)

place_fits : (x : Start) (p limit i : ℕ) → place x p limit ≡ some i → i < limit
unfolding place
place_fits (before n) p limit i h = ground arith
place_fits (at n) p limit i h = ground arith

module _ (color : ℕ) where
  pub write-Drawn :
      (b : Bitmap) (k : ℕ)
      → k < length b.pixels
      → (b' : Bitmap) × (write b k (argb8888_1555 color) ≡ some b') × Drawn (λ n. n ≡ k) color b b'
  unfolding write
  write-Drawn b k h = (
    record b { pixels = set b.pixels k (argb8888_1555 color) },
    rw (lt→ltb k (length b.pixels) h) refl,
    record {
      same_width = refl;
      same_height = refl;
      same_stride = refl;
      same_length = length-set b.pixels k (argb8888_1555 color);
      pixel = λ n. ground (
        arith,
        get_or-set_self b.pixels k (argb8888_1555 color) 0 h,
        get_or-set_ne b.pixels {i = k} {j = n} (argb8888_1555 color) 0,
      );
    },
  )

module _ (g : Glyph) (x y : Start) (width height stride : ℕ) where
  -- The byte of the glyph in column `p` and row `q` is set and falls on the index `k`.
  pub Hit : ℕ → ℕ → ℕ → Type 0
  Hit p q k =
      (i : ℕ) × (j : ℕ) × (v : ℕ) × (place x p width ≡ some i)
      × (place y q height ≡ some j)
      × (get_elem? g.buffer (q * g.width + p) ≡ some v)
      × (v ≢ 0)
      × (k ≡ j * stride / 2 + i)

  -- A byte of rows of one column, or of columns, does so.
  pub InRows : ℕ → ℕ → ℕ → ℕ → Type 0
  unfolding Hit
  InRows n p q k = (q' : ℕ) × (q ≤ q') × (q' < q + n) × Hit p q' k

  pub InColumns : ℕ → ℕ → ℕ → Type 0
  unfolding InRows
  InColumns n p k = (p' : ℕ) × (p ≤ p') × (p' < p + n) × InRows g.rows p' 0 k

  split_rows : (n p q k : ℕ) → InRows (suc n) p q k → Hit p q k ⊎ InRows n p (suc q) k
  unfolding InRows
  split_rows n p q k (q', a, b, h) = elim (le-cases q q' a) [
    | inl e ↦ inl (subst (λ r. Hit p r k) (sym e) h)
    | inr lt ↦ inr (q', lt, omega arith, h)
  ]

  split_columns : (n p k : ℕ) → InColumns (suc n) p k → InRows g.rows p 0 k ⊎ InColumns n (suc p) k
  unfolding InColumns
  split_columns n p k (p', a, b, h) = elim (le-cases p p' a) [
    | inl e ↦ inl (subst (λ r. InRows g.rows r 0 k) (sym e) h)
    | inr lt ↦ inr (p', lt, omega arith, h)
  ]

module _ (g : Glyph) (x y : Start) (color : ℕ) (whole : g.rows * g.width ≤ length g.buffer) where
  -- A byte of the glyph is there.
  byte : (p q : ℕ) → p < g.width → q < g.rows → q * g.width + p < length g.buffer
  byte p q hp hq = omega (arith, whole, mul-le-mul_left {m = suc q} {n = g.rows} g.width hq)

  plot-Drawn :
      (p q : ℕ) (b : Bitmap)
      → IsBitmap b
      → p < g.width
      → q < g.rows
      → (b' : Bitmap) × (plot g x y color p q b ≡ some b')
        × Drawn (Hit g x y b.width b.height b.stride p q) color b b'
  unfolding plot Hit
  plot-Drawn p q b v hp hq = elim (Option-cases (place x p b.width)) [
    | inl e ↦ (
      b,
      rw (e, plot) refl,
      Drawn-refl _ color b (λ k (i', j', w, a, c, r, n, r'). absurd (ground arith)),
    )
    | inr (i, e) ↦ elim (Option-cases (place y q b.height)) [
      | inl f ↦ (
        b,
        rw (e, plot) (rw f refl),
        Drawn-refl _ color b (λ k (i', j', w, a, c, r, n, r'). absurd (ground arith)),
      )
      | inr (j, f) ↦
          (let (v0, hv) = get_elem?-some g.buffer (q * g.width + p) (byte p q hp hq) in
            elim (Bool-cases (v0 == 0)) [
              | inl z ↦ (
                b,
                rw (e, plot) (rw f (rw hv (rw z refl))),
                Drawn-refl _ color b (λ k (i', j', w, a, c, r, n, r'). absurd (ground arith)),
              )
              | inr z ↦
                  (let at_k =
                      pixel_at_lem b i j v (place_fits x p b.width i e)
                        (place_fits y q b.height j f) in
                    let k0 =
                      index_fits b i j v (place_fits x p b.width i e)
                        (place_fits y q b.height j f) in
                    let (b', h, d) = write-Drawn color b (j * b.stride / 2 + i) k0 in
                    (
                      b',
                      rw (e, plot) (rw f (rw hv (rw z (rw at_k h)))),
                      Drawn-iff _ _ color b b' (λ k r. (i, j, v0, e, f, hv, ==-false v0 0 z, r))
                          (λ k (i', j', w, a, c, r, n, r'). ground arith) d,
                    ))
            ])
    ]
  ]

  plot_rows-Drawn :
      (n p q : ℕ) (b : Bitmap)
      → IsBitmap b
      → p < g.width
      → q + n ≤ g.rows
      → (b' : Bitmap) × (plot_rows g x y color n p q b ≡ some b')
        × Drawn (InRows g x y b.width b.height b.stride n p q) color b b'
  unfolding plot_rows InRows
  plot_rows-Drawn zero p q b v hp hq =
      (b, refl, Drawn-refl _ color b (λ k (q', lo, hi, r). absurd (omega arith)))
  plot_rows-Drawn (suc n) p q b v hp hq =
      let (b1, e, d) = plot-Drawn p q b v hp (omega arith) in
      let (b2, f, d') =
        plot_rows-Drawn n p (suc q) b1 (Drawn-IsBitmap _ color b b1 d v) hp (omega arith) in
      (
        b2,
        rw e f,
        Drawn-trans _ _ (InRows g x y b.width b.height b.stride (suc n) p q) color b b1 b2
            (λ k r. (q, omega arith, omega arith, r))
            (λ k (q', lo, hi, r). (q', omega arith, omega arith, r))
            (split_rows g x y b.width b.height b.stride n p q) d
            (resize (λ w h s. InRows g x y w h s n p (suc q)) _ color b b1 b2 d d'),
      )

  plot_columns-Drawn :
      (n p : ℕ) (b : Bitmap)
      → IsBitmap b
      → p + n ≤ g.width
      → (b' : Bitmap) × (plot_columns g x y color n p b ≡ some b')
        × Drawn (InColumns g x y b.width b.height b.stride n p) color b b'
  unfolding plot_columns InColumns
  plot_columns-Drawn zero p b v hp =
      (b, refl, Drawn-refl _ color b (λ k (p', lo, hi, r). absurd (omega arith)))
  plot_columns-Drawn (suc n) p b v hp =
      let (b1, e, d) = plot_rows-Drawn g.rows p 0 b v (omega arith) (omega arith) in
      let (b2, f, d') =
        plot_columns-Drawn n (suc p) b1 (Drawn-IsBitmap _ color b b1 d v) (omega arith) in
      (
        b2,
        rw e f,
        Drawn-trans _ _ (InColumns g x y b.width b.height b.stride (suc n) p) color b b1 b2
            (λ k r. (p, omega arith, omega arith, r))
            (λ k (p', lo, hi, r). (p', omega arith, omega arith, r))
            (split_columns g x y b.width b.height b.stride n p) d
            (resize (λ w h s. InColumns g x y w h s n (suc p)) _ color b b1 b2 d d'),
      )

  -- __draw_char always returns, without a write outside the memory of the bitmap or a read
  -- outside that of the glyph, wherever the point is: it gives the color to the pixels on which
  -- a set byte of the glyph falls inside the bitmap, and leaves all others and the size as they
  -- were. The conditions: the rows of the bitmap hold their pixels, its memory, of less than 4
  -- GiB, holds the rows, and the glyph has all its bytes.
  pub draw_char-Drawn :
      (b : Bitmap)
      → IsBitmap b
      → (b' : Bitmap) × (draw_char g x y color b ≡ some b')
        × Drawn (InColumns g x y b.width b.height b.stride g.width 0) color b b'
  unfolding draw_char
  draw_char-Drawn b v = plot_columns-Drawn g.width 0 b v (omega arith)
