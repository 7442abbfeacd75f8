-- ===== src/Vsf/Osd/Painting.antt =====
-- What drawing does to the pixels of a bitmap.
use freak.Prelude.{
  ℕ, ◌*◌, ◌^◌, ◌<◌, ◌≡◌, ◌≢◌, ◌⊎◌, ◌≤◌, refl, sym, ◌∙◌, subst, inl, inr, false, length, ◌==◌,
  get_or, arith,
}
use freak.Vsf.Osd.{Bitmap, argb8888_1555}

-- The memory of a bitmap: a row holds its pixels, and the memory its rows; it has less than 4 GiB.
pub record IsBitmap (b : Bitmap) : Type 0 where
  pub row_fits : b.width * 2 ≤ b.stride
  pub rows_fit : b.stride * b.height ≤ 2 * length b.pixels
  pub small : 2 * length b.pixels < 2 ^ 32

-- What drawing in a color at the indices `P` does to a bitmap.
pub record Drawn (P : ℕ → Type 0) (color : ℕ) (b b' : Bitmap) : Type 0 where
  pub same_width : b'.width ≡ b.width
  pub same_height : b'.height ≡ b.height
  pub same_stride : b'.stride ≡ b.stride
  pub same_length : length b'.pixels ≡ length b.pixels
  pub pixel :
      (k : ℕ)
      → (P k × (get_or b'.pixels k 0 ≡ argb8888_1555 color))
        ⊎ ((¬ P k) × (get_or b'.pixels k 0 ≡ get_or b.pixels k 0))

pub Drawn-refl : (P : ℕ → Type 0) (color : ℕ) (b : Bitmap) → ((k : ℕ) → ¬ P k) → Drawn P color b b
Drawn-refl P color b n = record {
  same_width = refl;
  same_height = refl;
  same_stride = refl;
  same_length = refl;
  pixel = λ k. inr (n k, refl);
}

pub pixel_trans :
    {A B C : Type 0} (c x y z : ℕ)
    → (A → C)
    → (B → C)
    → (C → A ⊎ B)
    → (A × (y ≡ c)) ⊎ ((¬ A) × (y ≡ x))
    → (B × (z ≡ c)) ⊎ ((¬ B) × (z ≡ y))
    → (C × (z ≡ c)) ⊎ ((¬ C) × (z ≡ x))
pixel_trans c x y z f g h a (inl (b, e)) = inl (g b, e)
pixel_trans c x y z f g h (inl (a, e)) (inr (nb, e')) = inl (f a, e' ∙ e)
pixel_trans c x y z f g h (inr (na, e)) (inr (nb, e')) =
    inr (λ w. elim (h w) [ inl a ↦ na a | inr b ↦ nb b ], e' ∙ e)

pub Drawn-trans :
    (P Q R : ℕ → Type 0) (color : ℕ) (a b c : Bitmap)
    → ((k : ℕ) → P k → R k)
    → ((k : ℕ) → Q k → R k)
    → ((k : ℕ) → R k → P k ⊎ Q k)
    → Drawn P color a b
    → Drawn Q color b c
    → Drawn R color a c
Drawn-trans P Q R color a b c f g h x y = record {
  same_width = y.same_width ∙ x.same_width;
  same_height = y.same_height ∙ x.same_height;
  same_stride = y.same_stride ∙ x.same_stride;
  same_length = y.same_length ∙ x.same_length;
  pixel = λ k.
      pixel_trans (argb8888_1555 color) (get_or a.pixels k 0) (get_or b.pixels k 0)
        (get_or c.pixels k 0) (f k) (g k) (h k) (x.pixel k) (y.pixel k);
}

pub Drawn-IsBitmap :
    (P : ℕ → Type 0) (color : ℕ) (b b' : Bitmap) → Drawn P color b b' → IsBitmap b → IsBitmap b'
Drawn-IsBitmap P color b b' d v = record {
  row_fits =
      subst (λ w. w * 2 ≤ b'.stride) (sym d.same_width)
        (subst (λ s. b.width * 2 ≤ s) (sym d.same_stride) v.row_fits);
  rows_fit = rw (d.same_stride) (rw (d.same_height) (rw (d.same_length) v.rows_fit));
  small = rw (d.same_length) v.small;
}

pub Drawn-iff :
    (P Q : ℕ → Type 0) (color : ℕ) (b b' : Bitmap)
    → ((k : ℕ) → P k → Q k)
    → ((k : ℕ) → Q k → P k)
    → Drawn P color b b'
    → Drawn Q color b b'
Drawn-iff P Q color b b' f g d = record {
  same_width = d.same_width;
  same_height = d.same_height;
  same_stride = d.same_stride;
  same_length = d.same_length;
  pixel =
      λ k. elim (d.pixel k) [ inl (a, e) ↦ inl (f k a, e) | inr (n, e) ↦ inr (λ q. n (g k q), e) ];
}

pub ==-false : (m n : ℕ) → (m == n) ≡ false → m ≢ n
==-false m n h = ground arith

-- A set of indices that goes by the size of the bitmap stays the same when the bitmap is drawn on.
pub resize :
    (F : ℕ → ℕ → ℕ → ℕ → Type 0) (P : ℕ → Type 0) (color : ℕ) (a b c : Bitmap)
    → Drawn P color a b
    → Drawn (F b.width b.height b.stride) color b c
    → Drawn (F a.width a.height a.stride) color b c
resize F P color a b c d e =
    subst (λ w. Drawn (F w a.height a.stride) color b c) d.same_width
      (subst (λ h. Drawn (F b.width h a.stride) color b c) d.same_height
        (subst (λ s. Drawn (F b.width b.height s) color b c) d.same_stride e))
