-- ===== src/Vsf/Osd/Boxes.antt =====
-- The boxes and the texts of the overlays: `__draw_obj`, `__draw_text` and the functions that redraw a
-- whole bitmap.
use freak.Prelude.{
  ℕ, zero, suc, ◌+◌, ◌-◌, ◌*◌, ◌/◌, ◌%◌, ◌^◌, ltb, List, [], ◌∷◌, Option, some, none, ◌==◌,
  if◌then◌else◌,
}
use freak.Prelude.Int.{ℤ, pos, negsuc, pos_part, ltb_ℤ, ◌+ℤ◌, ◌-ℤ◌, ◌*ℤ◌}
use freak.Proto.{◌>>=◌}
use freak.Vsf.Osd.{Bitmap, Glyph, Start, before, at, write, draw_char, argb8888_1555}

-- `proto_rect_t`
pub record Rect : Type 0 where
  pub x : ℤ
  pub y : ℤ
  pub w : ℕ
  pub h : ℕ

-- `range(v, 0, 8191)` of a coordinate
abbrev pub range_point : ℤ → ℕ
range_point v = pos_part (if ltb_ℤ (pos 8191) v then pos 8191 else v)

-- The pattern of a 32-bit integer
abbrev pub pattern : ℤ → ℕ
pattern (pos n) = n % 2 ^ 32
pattern (negsuc n) = (2 ^ 32 - (n + 1)) % 2 ^ 32

-- `range(v, 0, 8192 - point)` of a size, which compares unsigned numbers
unfoldable pub range_size : ℕ → ℤ → ℕ
unfolding ◌-ℤ◌
range_size v point = let max = pattern (pos 8192 -ℤ point) in if ltb max v then max else v

-- A part of 8192 of the size of a bitmap
abbrev pub scale : ℕ → ℕ → ℕ
scale v size = v * size % 2 ^ 32 / 8192

-- The place of a box in the bitmap.
pub record Box : Type 0 where
  pub left : ℕ
  pub top : ℕ
  pub width : ℕ
  pub height : ℕ

unfoldable pub box_of : Rect → Bitmap → Box
unfolding range_size
box_of r b = record {
  left = scale (range_point r.x) b.width;
  top = scale (range_point r.y) b.height;
  width = scale (range_size r.w r.x) b.width;
  height = scale (range_size r.h r.y) b.height;
}

-- Writes to indices from the pointer `box` on. A pointer has 32 bits and a pixel two bytes.
unfoldable pub write_each : ℕ → ℕ → List ℕ → Bitmap → Option Bitmap
write_each box color [] b = some b
write_each box color (k ∷ ks) b =
    write b ((box + k) % 2 ^ 31) (argb8888_1555 color) >>= λ b'. write_each box color ks b'

-- The row `r` of a box, from its start, and a row counted from the bottom edge.
abbrev pub row : ℕ → ℕ → ℕ
row stride r = r * stride % 2 ^ 32 / 2

abbrev pub below : ℕ → ℕ → ℕ
below n back = (n + (2 ^ 32 - back)) % 2 ^ 32

-- The indices of a turn of the first loop, and of one of the second.
abbrev pub columns_at : Box → ℕ → ℕ → List ℕ
columns_at x stride i =
    (row stride 0 + i)
    ∷ (row stride 1 + i)
    ∷ (row stride 2 + i)
    ∷ (row stride 3 + i)
    ∷ ((row stride (below x.height 1) + i) % 2 ^ 32)
    ∷ ((row stride (below x.height 2) + i) % 2 ^ 32)
    ∷ ((row stride (below x.height 3) + i) % 2 ^ 32)
    ∷ ((row stride (below x.height 4) + i) % 2 ^ 32)
    ∷ []

abbrev pub rows_at : Box → ℕ → ℕ → List ℕ
rows_at x stride i =
    (row stride i + 0)
    ∷ (row stride i + 1)
    ∷ (row stride i + 2)
    ∷ (row stride i + 3)
    ∷ ((row stride i + below x.width 1) % 2 ^ 32)
    ∷ ((row stride i + below x.width 2) % 2 ^ 32)
    ∷ ((row stride i + below x.width 3) % 2 ^ 32)
    ∷ ((row stride i + below x.width 4) % 2 ^ 32)
    ∷ []

-- A loop over `n` turns from `i` on.
unfoldable pub draw_turns : ℕ → ℕ → (ℕ → List ℕ) → ℕ → ℕ → Bitmap → Option Bitmap
unfolding write_each
draw_turns box color f zero i b = some b
draw_turns box color f (suc n) i b =
    write_each box color (f i) b >>= λ b'. draw_turns box color f n (suc i) b'

-- The box of `__draw_obj`, which a size of 0 leaves out.
unfoldable pub draw_box : Rect → ℕ → Bitmap → Option Bitmap
unfolding box_of draw_turns
draw_box r color b =
    let x = box_of r b in
    let box : ℕ = x.top * b.stride % 2 ^ 32 / 2 + x.left in
    if x.width * x.height % 2 ^ 32 == 0
    then some b
    else (draw_turns box color (columns_at x b.stride) x.width 0 b >>= λ b'.
        draw_turns box color (rows_at x b.stride) x.height 0 b')

-- What FreeType gives for a character at a pen position, if it has a glyph for it: the glyph, its left
-- edge, its top above the base line, and the advance of the pen.
pub record Loaded : Type 0 where
  pub glyph : Glyph
  pub left : ℤ
  pub bitmap_top : ℤ
  pub advance_x : ℤ
  pub advance_y : ℤ

abbrev pub start_of : ℤ → Start
start_of (pos n) = at n
start_of (negsuc n) = before (n + 1)

-- A string up to its end, or a read past the memory.
unfoldable pub chars : List ℕ → Option (List ℕ)
chars [] = none
chars (zero ∷ cs) = some []
chars (suc c ∷ cs) = chars cs >>= λ ds. some (suc c ∷ ds)

-- `proto_vsf_osd_text_t`, and `proto_vsf_osd_obj_t`
pub record OsdText : Type 0 where
  pub x : ℤ
  pub y : ℤ
  pub size : ℕ
  pub color : ℕ
  pub text : List ℕ

pub record OsdObj : Type 0 where
  pub id : ℕ
  pub color : ℕ
  pub rect : Rect

-- `memset` of the bytes of the pixels with 0, and of `u32Height * u32Stride` of them.
unfoldable pub clear_bytes : ℕ → List ℕ → Option (List ℕ)
clear_bytes zero ps = some ps
clear_bytes (suc n) [] = none
clear_bytes (suc zero) (p ∷ ps) = some (p / 256 * 256 ∷ ps)
clear_bytes (suc (suc n)) (p ∷ ps) = clear_bytes n ps >>= λ qs. some (0 ∷ qs)

unfoldable pub cleared : Bitmap → Option Bitmap
unfolding clear_bytes
cleared b =
    clear_bytes (b.height * b.stride % 2 ^ 32) b.pixels >>= λ ps. some (record b { pixels = ps })

-- `load` is what FreeType gives for a size, a pen position and a character, and `label` the text
-- "id: %d" of an id, with its end.
module _ (load : ℕ → ℤ → ℤ → ℕ → Option Loaded) (label : ℕ → List ℕ) where
  -- The loop of `__draw_text` over the characters, from the pen position on.
  unfoldable pub draw_chars : ℕ → ℕ → ℤ → ℤ → List ℕ → Bitmap → Option Bitmap
  unfolding ◌+ℤ◌ ◌-ℤ◌
  draw_chars size color pen_x pen_y [] b = some b
  draw_chars size color pen_x pen_y (c ∷ cs) b = elim (load size pen_x pen_y c) [
    | none ↦ draw_chars size color pen_x pen_y cs b
    | some l ↦
        (draw_char l.glyph (start_of l.left) (start_of (pos b.height -ℤ l.bitmap_top)) color b
          >>= λ b'. draw_chars size color (pen_x +ℤ l.advance_x) (pen_y +ℤ l.advance_y) cs b')
  ]

  -- `__draw_text`
  unfoldable pub draw_text : OsdText → Bitmap → Option Bitmap
  unfolding draw_chars chars ◌-ℤ◌
  draw_text t b =
      let x : ℕ = scale (range_point t.x) b.width in
      let y : ℕ = scale (range_point t.y) b.height in
      chars t.text >>= λ cs.
      draw_chars t.size t.color (pos (x * 64)) ((pos b.height -ℤ pos y) *ℤ pos 64) cs b

  -- `__draw_obj`: a box without a size has no label.
  unfoldable pub draw_obj : OsdObj → Bitmap → Option Bitmap
  unfolding box_of draw_box draw_text ◌-ℤ◌
  draw_obj o b =
      let x = box_of o.rect b in
      if x.width * x.height % 2 ^ 32 == 0
      then some b
      else (draw_box o.rect o.color b
          >>= draw_text (record {
            x = o.rect.x -ℤ pos 34;
            y = o.rect.y;
            size = 32;
            color = o.color;
            text = label o.id;
          }))

  -- `__vsf_osd_ctrl_texts` and `__vsf_osd_ctrl_objs`: the loops, and the functions.
  unfoldable pub draw_texts : List OsdText → Bitmap → Option Bitmap
  unfolding draw_text
  draw_texts [] b = some b
  draw_texts (t ∷ ts) b = draw_text t b >>= λ b'. draw_texts ts b'

  unfoldable pub draw_objs : List OsdObj → Bitmap → Option Bitmap
  unfolding draw_obj
  draw_objs [] b = some b
  draw_objs (o ∷ os) b = draw_obj o b >>= λ b'. draw_objs os b'

  unfoldable pub osd_ctrl_texts : List OsdText → Bitmap → Option Bitmap
  unfolding draw_texts cleared
  osd_ctrl_texts ts b = cleared b >>= draw_texts ts

  unfoldable pub osd_ctrl_objs : List OsdObj → Bitmap → Option Bitmap
  unfolding draw_objs cleared
  osd_ctrl_objs os b = cleared b >>= draw_objs os
