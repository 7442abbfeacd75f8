-- ===== src/Vsf/Osd/Texts.antt =====
-- Drawing texts: no write outside of the bitmap, and no color that was not asked for.
use freak.Prelude.{
  ℕ, ◌+◌, ◌*◌, ◌/◌, leb, if◌then◌else◌, ◌≡◌, ◌⊎◌, ◌≤◌, refl, ◌∙◌, sym, subst, inl, inr, List, [],
  ◌∷◌, length, get_or, Option, some, Option-cases,
}
use freak.Prelude.Int.{ℤ, pos, ◌+ℤ◌, ◌-ℤ◌, ◌*ℤ◌}
use freak.Vsf.Osd.{Bitmap, argb8888_1555}
use freak.Vsf.Osd.Painting.{IsBitmap, Drawn}
use freak.Vsf.Osd.Raster.{draw_char-Drawn}
use freak.Vsf.Osd.Boxes.{
  Loaded, OsdText, start_of, draw_chars, draw_text, chars, scale, range_point,
}

-- A color of a list.
pub Listed : ℕ → List ℕ → Type 0
Listed c [] = ⊥
Listed c (x ∷ xs) = (c ≡ x) ⊎ Listed c xs

-- The bitmap is as large as it was, and its pixels are those of before or have a color of the list.
pub record Colored (colors : List ℕ) (b b' : Bitmap) : Type 0 where
  pub same_width : b'.width ≡ b.width
  pub same_height : b'.height ≡ b.height
  pub same_stride : b'.stride ≡ b.stride
  pub same_length : length b'.pixels ≡ length b.pixels
  pub pixel :
      (k : ℕ)
      → (get_or b'.pixels k 0 ≡ get_or b.pixels k 0)
        ⊎ ((c : ℕ) × Listed c colors × (get_or b'.pixels k 0 ≡ argb8888_1555 c))

Colored-trans :
    (xs ys zs : List ℕ) (a b c : Bitmap)
    → ((t : ℕ) → Listed t xs → Listed t zs)
    → ((t : ℕ) → Listed t ys → Listed t zs)
    → Colored xs a b
    → Colored ys b c
    → Colored zs a c
Colored-trans xs ys zs a b c f g d e = record {
  same_width = e.same_width ∙ d.same_width;
  same_height = e.same_height ∙ d.same_height;
  same_stride = e.same_stride ∙ d.same_stride;
  same_length = e.same_length ∙ d.same_length;
  pixel = λ k. elim (e.pixel k) [
    | inr (t, l, p) ↦ inr (t, g t l, p)
    | inl same ↦ elim (d.pixel k) [
      | inl p ↦ inl (same ∙ p)
      | inr (t, l, p) ↦ inr (t, f t l, same ∙ p)
    ]
  ];
}

Colored-refl : (xs : List ℕ) (b : Bitmap) → Colored xs b b
Colored-refl xs b = record {
  same_width = refl;
  same_height = refl;
  same_stride = refl;
  same_length = refl;
  pixel = λ k. inl refl;
}

Drawn-Colored :
    (P : ℕ → Type 0) (color : ℕ) (b b' : Bitmap) → Drawn P color b b' → Colored (color ∷ []) b b'
unfolding Listed
Drawn-Colored P color b b' d = record {
  same_width = d.same_width;
  same_height = d.same_height;
  same_stride = d.same_stride;
  same_length = d.same_length;
  pixel = λ k. elim (d.pixel k) [ inl (h, e) ↦ inr (color, inl refl, e) | inr (h, e) ↦ inl e ];
}

Colored-IsBitmap : (xs : List ℕ) (b b' : Bitmap) → Colored xs b b' → IsBitmap b → IsBitmap b'
Colored-IsBitmap xs b b' d v = record {
  row_fits =
      subst (λ w. w * 2 ≤ b'.stride) (sym d.same_width)
        (subst (λ s. b.width * 2 ≤ s) (sym d.same_stride) v.row_fits);
  rows_fit = rw (d.same_stride) (rw (d.same_height) (rw (d.same_length) v.rows_fit));
  small = rw (d.same_length) v.small;
}

-- A pixel when the first n bytes are cleared.
abbrev pub blanked : ℕ → ℕ → ℕ → ℕ
blanked n k p = if leb (2 * k + 2) n then 0 else if leb (2 * k + 1) n then p / 256 * 256 else p

-- FreeType gives whole glyphs.
abbrev pub WholeGlyphs : (ℕ → ℤ → ℤ → ℕ → Option Loaded) → Type 0
WholeGlyphs load =
    (size : ℕ) (x y : ℤ) (c : ℕ) (l : Loaded)
    → load size x y c ≡ some l
    → l.glyph.rows * l.glyph.width ≤ length l.glyph.buffer

-- The text has its end.
abbrev pub Ended : List ℕ → Type 0
Ended text = (cs : List ℕ) × (chars text ≡ some cs)

abbrev pub AllEnded : List OsdText → Type 0
AllEnded [] = Unit {0}
AllEnded (t ∷ ts) = Ended t.text × AllEnded ts

module _ (load : ℕ → ℤ → ℤ → ℕ → Option Loaded) (label : ℕ → List ℕ)
    (whole : WholeGlyphs load) where
  draw_chars-Colored :
      (size color : ℕ) (x y : ℤ) (cs : List ℕ) (b : Bitmap)
      → IsBitmap b
      → (b' : Bitmap) × (draw_chars load label size color x y cs b ≡ some b')
        × Colored (color ∷ []) b b'
  unfolding draw_chars
  draw_chars-Colored size color x y [] b v = (b, refl, Colored-refl (color ∷ []) b)
  draw_chars-Colored size color x y (c ∷ cs) b v = elim (Option-cases (load size x y c)) [
    | inl e ↦
        (let (b', f, d) = draw_chars-Colored size color x y cs b v in
          (b', simp (draw_chars, e) f, d))
    | inr (l, e) ↦
        (let (b1, f, d) =
            draw_char-Drawn l.glyph (start_of l.left) (start_of (pos b.height -ℤ l.bitmap_top))
              color (whole size x y c l e) b v in
          let once = Drawn-Colored _ color b b1 d in
          let (b', g, d') =
            draw_chars-Colored size color (x +ℤ l.advance_x) (y +ℤ l.advance_y) cs b1
              (Colored-IsBitmap (color ∷ []) b b1 once v) in
          (
            b',
            simp (draw_chars, e, f) g,
            Colored-trans (color ∷ []) (color ∷ []) (color ∷ []) b b1 b' (λ t h. h) (λ t h. h) once
                d',
          ))
  ]

  pub draw_text-Colored :
      (t : OsdText) (b : Bitmap)
      → IsBitmap b
      → Ended t.text
      → (b' : Bitmap) × (draw_text load label t b ≡ some b') × Colored (t.color ∷ []) b b'
  unfolding draw_text
  draw_text-Colored t b v (cs, e) =
      let x : ℕ = scale (range_point t.x) b.width in
      let y : ℕ = scale (range_point t.y) b.height in
      let (b', f, d) =
        draw_chars-Colored t.size t.color (pos (x * 64)) ((pos b.height -ℤ pos y) *ℤ pos 64) cs b
          v in
      (b', simp (draw_text, e) f, d)
