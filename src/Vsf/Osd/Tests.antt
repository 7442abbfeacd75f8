-- ===== src/Vsf/Osd/Tests.antt =====
-- Runs of the overlays.
use freak.Prelude.{ℕ, ◌≡◌, refl, arith, [], ◌∷◌, Option, some, replicate}
use freak.Prelude.Int.{ℤ, pos, ◌-ℤ◌}
use freak.Vsf.Osd.{Bitmap, Glyph, before, at, draw_char}
use freak.Vsf.Osd.Painting.{IsBitmap, Drawn}
use freak.Vsf.Osd.Raster.{InColumns, draw_char-Drawn}
use freak.Vsf.Osd.Boxes.{Rect, box_of, range_size, draw_box, Loaded, OsdText}
use freak.Vsf.Osd.Edges.{Border}
use freak.Vsf.Osd.Drawing.{draw_box-Drawn}

-- Two columns, of which the first lies left of a bitmap of two by two pixels.
abbrev glyph : Glyph
glyph = record { width = 2; rows = 1; buffer = 255 ∷ 255 ∷ [] }

abbrev bitmap : Bitmap
bitmap = record { width = 2; height = 2; stride = 6; pixels = 0 ∷ 0 ∷ 0 ∷ 0 ∷ 0 ∷ 0 ∷ [] }

draw_char-Drawn_example :
    (b' : Bitmap) × (draw_char glyph (before 1) (at 1) 0x01ff0000 bitmap ≡ some b')
    × Drawn (InColumns glyph (before 1) (at 1) 2 2 6 2 0) 0x01ff0000 bitmap b'
draw_char-Drawn_example =
    draw_char-Drawn glyph (before 1) (at 1) 0x01ff0000 (omega arith) bitmap
      (record { row_fits = omega arith; rows_fit = omega arith; small = omega arith })

-- A white box of five by four pixels at the left edge of a picture of eight by six.
abbrev picture : Bitmap
picture = record { width = 8; height = 6; stride = 16; pixels = replicate 48 0 }

abbrev rect : Rect
rect = record { x = pos 0; y = pos 1400; w = 5120; h = 5470 }

picture-IsBitmap : IsBitmap picture
picture-IsBitmap = record { row_fits = omega arith; rows_fit = omega arith; small = omega arith }

draw_box-Drawn_example :
    (b' : Bitmap) × (draw_box rect 0xffffffff picture ≡ some b')
    × Drawn (Border 8 (box_of rect picture)) 0xffffffff picture b'
unfolding box_of range_size ◌-ℤ◌
draw_box-Drawn_example =
    draw_box-Drawn 0xffffffff picture picture-IsBitmap 8 refl (omega arith) (omega arith)
      (omega arith) rect 0 1400 refl refl (omega arith) (omega arith) (omega arith) (omega arith)

-- Every character is the glyph of two columns.
abbrev load : ℕ → ℤ → ℤ → ℕ → Option Loaded
load size x y c = some (record {
  glyph = glyph;
  left = pos 2;
  bitmap_top = pos 3;
  advance_x = pos 64;
  advance_y = pos 0;
})

abbrev hello : OsdText
hello = record { x = pos 0; y = pos 0; size = 16; color = 0x01ff0000; text = 72 ∷ 105 ∷ 0 ∷ [] }
