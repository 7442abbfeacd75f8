-- ===== src/Vsf/Osd.antt =====
-- The overlays: mod/vsf/src/interface/osd_mgr.c with its drawing in Boxes.antt, and
-- mod/vsf/src/msgbox/msgbox_osd.c.
pub mod Boxes
pub mod Borders
pub mod Edges
pub mod Drawing
pub mod Texts
mod Painting
mod Raster
mod Triggers
mod Tests
use Prim.Native.Nat.{bit_or}
use freak.Prelude.{
  ℕ, zero, suc, ◌+◌, ◌*◌, ◌-◌, ◌/◌, ◌%◌, ◌^◌, ltb, leb, Bool, true, false, ◌&&◌, List, [], ◌∷◌,
  length, take, drop, Option, some, none, ◌==◌, if◌then◌else◌, get_elem?, get_or, set,
}
use freak.Proto.{◌>>=◌, ◌>>◌, check, Codec}
use freak.Proto.Types.{OsdCfg, OsdCap}
use freak.Msgbox.{Manager, Handler, serve_osd}
use freak.Vsf.{Info}

-- `argb8888_1555`
pub argb8888_1555 : ℕ → ℕ
argb8888_1555 color =
    let a : ℕ = color / 2 ^ 24 % 2 ^ 8 in
    let r : ℕ = color / 2 ^ 16 % 2 ^ 8 / 8 in
    let g : ℕ = color / 2 ^ 8 % 2 ^ 8 / 8 in
    let b : ℕ = color % 2 ^ 8 / 8 in (if a == 0 then 0 else 2 ^ 15) + r * 2 ^ 10 + g * 2 ^ 5 + b

-- `vsf_rgn_bitmap_t`, with the 16-bit pixels at `pData`.
pub record Bitmap : Type 0 where
  pub width : ℕ
  pub height : ℕ
  pub stride : ℕ
  pub pixels : List ℕ

-- `FT_Bitmap`, with a byte for each pixel.
pub record Glyph : Type 0 where
  pub width : ℕ
  pub rows : ℕ
  pub buffer : List ℕ

-- A write to the pixels; one outside of them is a fault.
pub write : Bitmap → ℕ → ℕ → Option Bitmap
write b k v = check (ltb k (length b.pixels)) >> some (record b { pixels = set b.pixels k v })

-- A coordinate of the bitmap for an offset from a start that may lie left of it or above it: the start
-- is `before` steps outside, or `at` steps inside. `none` is the `continue` of the code.
pub data Start : Type 0 where
  before at : ℕ → Start

pub place : Start → ℕ → ℕ → Option ℕ
place (before n) p limit =
    if ltb p n then none else (if ltb (p - n) limit then some (p - n) else none)
place (at n) p limit = if ltb (n + p) limit then some (n + p) else none

-- `j * src->u32Stride / 2 + i`, in 32 bits.
abbrev pub pixel_at : Bitmap → ℕ → ℕ → ℕ
pixel_at b i j = (j * b.stride % 2 ^ 32 / 2 + i) % 2 ^ 32

module _ (g : Glyph) (x y : Start) (color : ℕ) where
  -- The body of the loops of `__draw_char`. A byte outside of the glyph is a fault.
  pub plot : ℕ → ℕ → Bitmap → Option Bitmap
  unfolding place write
  plot p q b = elim (place x p b.width) [
    | none ↦ some b
    | some i ↦ elim (place y q b.height) [
      | none ↦ some b
      | some j ↦
          (get_elem? g.buffer (q * g.width + p) >>= λ v.
          if v == 0 then some b else write b (pixel_at b i j) (argb8888_1555 color))
    ]
  ]

  -- The inner loop, from row `q` on, and the outer one, from column `p` on.
  pub plot_rows : ℕ → ℕ → ℕ → Bitmap → Option Bitmap
  unfolding plot
  plot_rows zero p q b = some b
  plot_rows (suc n) p q b = plot p q b >>= λ b'. plot_rows n p (suc q) b'

  pub plot_columns : ℕ → ℕ → Bitmap → Option Bitmap
  unfolding plot_rows
  plot_columns zero p b = some b
  plot_columns (suc n) p b = plot_rows g.rows p 0 b >>= λ b'. plot_columns n (suc p) b'

  -- `__draw_char`
  pub draw_char : Bitmap → Option Bitmap
  unfolding plot_columns
  draw_char b = plot_columns g.width 0 b

-- What `config.bitmap.proc` is, or that there is a cover.
pub data RgnKind : Type 0 where
  cover ctrl_texts ctrl_objs : RgnKind

-- `vsf_rgn_cfg_t`; `args` has the bytes of the mask, the texts or the objects.
pub record RgnCfg : Type 0 where
  pub enable : ℕ
  pub layer : ℕ
  pub chn : ℕ
  pub kind : RgnKind
  pub args : List ℕ

-- `vsf_osd_mgr_priv_t`, with the calls of `ctrl` of the regions so far, the last one first.
pub record OsdMgr : Type 0 where
  pub info : Info OsdCfg OsdCap
  pub calls : List (ℕ × RgnCfg)

abbrev same : List ℕ → List ℕ → Bool
same [] [] = true
same (x ∷ xs) (y ∷ ys) = (x == y) && same xs ys
same _ _ = false

-- The strings "mask", "texts" and "objs" with their ends.
abbrev pub mask_word : List ℕ
mask_word = 109 ∷ 97 ∷ 115 ∷ 107 ∷ 0 ∷ []

abbrev pub texts_word : List ℕ
texts_word = 116 ∷ 101 ∷ 120 ∷ 116 ∷ 115 ∷ 0 ∷ []

abbrev pub objs_word : List ℕ
objs_word = 111 ∷ 98 ∷ 106 ∷ 115 ∷ 0 ∷ []

-- `strncmp(cfg->info.condition, word, sizeof(word)) == 0`
abbrev pub is_condition : List ℕ → OsdCfg → Bool
is_condition word cfg = same (take (length word) cfg.info) word

abbrev pub bitmap_chn : OsdCap → ℕ
bitmap_chn cap = (cap.chn * 4 + cap.subchn) % 2 ^ 32

abbrev pub region : OsdCfg → ℕ → ℕ → RgnKind → RgnCfg
region cfg layer chn kind = record {
  enable = cfg.enable;
  layer = layer;
  chn = chn;
  kind = kind;
  args = drop 32 cfg.info;
}

module _ (rgn : ℕ → Option (RgnCfg → ℕ)) where
  -- The call of `ctrl` of the region, if it is there: what it returns.
  unfoldable pub control : ℕ → RgnCfg → OsdMgr → ℕ × OsdMgr
  control id config s = elim (rgn id) [
    | none ↦ (0, s)
    | some ctrl ↦ (ctrl config, record s { calls = (id, config) ∷ s.calls })
  ]

  -- `__vsf_osd_ctrl`
  unfoldable pub vsf_osd_ctrl : OsdCfg → OsdMgr → Option (ℕ × OsdMgr)
  unfolding control
  vsf_osd_ctrl cfg s =
      let cap : Option OsdCap = get_elem? s.info.caps cfg.id in
      if is_condition mask_word cfg
      then (cap >>= λ c. some (control cfg.id (region cfg 4 c.chn cover) s))
      else if is_condition texts_word cfg
      then (cap >>= λ c. some (control cfg.id (region cfg 1 (bitmap_chn c) ctrl_texts) s))
      else if is_condition objs_word cfg
      then (cap >>= λ c. some (control cfg.id (region cfg 0 (bitmap_chn c) ctrl_objs) s))
      else some (0, s)

-- `__vsf_osd_get`, `__vsf_osd_cap`, `__vsf_osd_num`
unfoldable pub vsf_osd_get : OsdCfg → OsdMgr → Option OsdCfg
vsf_osd_get cfg s = get_elem? s.info.cfgs cfg.id

unfoldable pub vsf_osd_cap : OsdCap → OsdMgr → Option OsdCap
vsf_osd_cap cap s = get_elem? s.info.caps cap.id

unfoldable pub vsf_osd_num : OsdMgr → ℕ
vsf_osd_num s = s.info.num

-- `vsf_createOsdMgr`, on the configuration of the process and without its font.
unfoldable pub vsf_create_osd_mgr : Info OsdCfg OsdCap → OsdMgr
vsf_create_osd_mgr info = record { info = info; calls = [] }

-- `cfg_get_member(osd)->cfgs[cfg.id] = cfg` of `msgbox_osd_set`
unfoldable pub keep_osd_cfg : OsdCfg → OsdMgr → Option OsdMgr
keep_osd_cfg cfg s = get_elem? s.info.cfgs cfg.id >>= λ _.
    some (record s { info = record s.info { cfgs = set s.info.cfgs cfg.id cfg } })

module _ (rgn : ℕ → Option (RgnCfg → ℕ)) where
  -- The object of `vsf_createOsdMgr`: `set` and `tgr` are one function.
  abbrev pub osd_manager : Manager OsdMgr OsdCfg OsdCap
  osd_manager = record {
    set_cfg = vsf_osd_ctrl rgn;
    get_cfg = vsf_osd_get;
    get_cap = vsf_osd_cap;
    get_num = vsf_osd_num;
    trigger = vsf_osd_ctrl rgn;
    keep_cfg = keep_osd_cfg;
  }

  -- `msgbox_vsf_osd`
  abbrev pub msgbox_vsf_osd : Codec OsdCfg → Codec OsdCap → Codec ℕ → Handler OsdMgr
  msgbox_vsf_osd = serve_osd osd_manager
