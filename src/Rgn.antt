-- ===== src/Rgn.antt =====
-- The regions of the hardware: mod/vsf-hi3516d/src/hal/rgn.c, one object at a time. The calls of the SDK
-- (HI_MPI_RGN_…) are a log, the last first, and their answers a parameter.
mod Order
mod Points
mod Tests
use freak.Prelude.{
  ℕ, zero, suc, ◌+◌, ◌*◌, ◌/◌, ◌%◌, ◌^◌, Bool, true, false, ◌||◌, List, [], ◌∷◌, map, Option, some,
  none, ◌==◌, ltb, if◌then◌else◌,
}
use freak.Prelude.Int.{ℤ, pos, negsuc}
use freak.Proto.{◌>>=◌, ◌>>◌}

-- `vsf_rgn_status_e`
pub data RgnStatus : Type 0 where
  absent created attached : RgnStatus

-- `vsf_rgn_priv_t` without the structures that each control fills anew.
pub record Rgn : Type 0 where
  pub id : ℕ
  pub status : RgnStatus

-- `vsf_rgn_cover_t`
pub record Cover : Type 0 where
  pub color : ℕ
  pub points : List (ℤ × ℤ)

-- `vsf_rgn_cfg_t`; `type` is 0 for a cover and 1 for a bitmap. The callback of a bitmap draws on the
-- canvas, which is not modelled here.
pub record Control : Type 0 where
  pub enable : ℕ
  pub layer : ℕ
  pub type : ℕ
  pub chn : ℕ
  pub cover : Cover

-- A rectangle on the channel, as `RGN_CHN_ATTR_S` has it: whether it shows, its points, layer and color.
pub record Shown : Type 0 where
  pub b_show : ℕ
  pub points : List (ℕ × ℕ)
  pub layer : ℕ
  pub color : ℕ

-- The calls, each with the region. Only the call that shows a cover carries its attributes.
pub data Mpi : Type 0 where
  create set_attr attach get_canvas update_canvas : ℕ → Mpi
  set_display : ℕ → Shown → Mpi

-- `range(v, 0, 8191)`
abbrev pub in_range : ℤ → ℕ
in_range (pos n) = if ltb 8191 n then 8191 else n
in_range (negsuc n) = 0

-- A coordinate in 8192ths of the picture, in 32 bits; `align_up v` is the SDK's `ALIGN_UP(v, 2)`.
abbrev pub scaled : (ℕ → ℕ) → ℤ → ℕ → ℕ
scaled align_up v size = align_up (in_range v * size % 2 ^ 32 / 8192)

-- `argb8888_888`
unfoldable pub argb8888_888 : ℕ → ℕ
argb8888_888 color = color % 2 ^ 24

-- `s32Ret |= …` on 32 bits.
abbrev pub lor : ℕ → ℕ → ℕ → ℕ
lor zero a b = 0
lor (suc n) a b = (if a % 2 == 1 || b % 2 == 1 then 1 else 0) + 2 * lor n (a / 2) (b / 2)

-- What the code goes on with: `s32Ret`, the object and the log.
pub record Going : Type 0 where
  pub ret : ℕ
  pub rgn : Rgn
  pub calls : List Mpi

-- `answer` is what a call returns, by the calls before it; `picture` the size of a channel's picture, if
-- the SDK tells it.
module _ (align_up : ℕ → ℕ) (answer : List Mpi → Mpi → ℕ) (picture : ℕ → Option (ℕ × ℕ)) where
  unfoldable pub call : Mpi → Going → Going
  call m g = record g { ret = lor 32 g.ret (answer g.calls m); calls = m ∷ g.calls }

  -- The creation, once, of a cover's region and of a bitmap's.
  unfoldable pub create_cover : Going → Going
  create_cover g = elim g.rgn.status [
    | absent ↦
        (let g1 = call (create g.rgn.id) g in
          record g1 { rgn = record g1.rgn { status = created } })
    | created ↦ g
    | attached ↦ g
  ]

  unfoldable pub create_bitmap : Going → Going
  create_bitmap g = elim g.rgn.status [
    | absent ↦
        (let g1 = call (set_attr g.rgn.id) (call (create g.rgn.id) g) in
          record g1 { rgn = record g1.rgn { status = created } })
    | created ↦ g
    | attached ↦ g
  ]

  -- The attachment to the channel, once.
  unfoldable pub attach_once : Going → Going
  attach_once g = elim g.rgn.status [
    | attached ↦ g
    | absent ↦
        (let g1 = call (attach g.rgn.id) g in
          record g1 { rgn = record g1.rgn { status = attached } })
    | created ↦
        (let g1 = call (attach g.rgn.id) g in
          record g1 { rgn = record g1.rgn { status = attached } })
  ]

  -- `__rgn_ctrl_cover`
  unfoldable pub rgn_ctrl_cover : Control → Rgn → List Mpi → Option Going
  rgn_ctrl_cover cfg o calls = picture cfg.chn >>= λ (width, height). some (
      call
        (set_display o.id (record {
          b_show = cfg.enable;
          points =
              map (λ (x, y). (scaled align_up x width, scaled align_up y height)) cfg.cover.points;
          layer = cfg.layer;
          color = argb8888_888 cfg.cover.color;
        }))
        (attach_once (create_cover (record { ret = 0; rgn = o; calls = calls }))))

  -- `__rgn_ctrl_bitmap`
  unfoldable pub rgn_ctrl_bitmap : Control → Rgn → List Mpi → Option Going
  rgn_ctrl_bitmap cfg o calls = picture cfg.chn >>= λ size. some (
      call (update_canvas o.id) (
        call (get_canvas o.id)
          (attach_once (create_bitmap (record { ret = 0; rgn = o; calls = calls })))))

  -- `__rgn_ctrl`; -1 for another type.
  unfoldable pub rgn_ctrl : Control → Rgn → List Mpi → Option Going
  rgn_ctrl cfg o calls =
      if cfg.type == 0
      then rgn_ctrl_cover cfg o calls
      else if cfg.type == 1
      then rgn_ctrl_bitmap cfg o calls
      else some (record { ret = 4294967295; rgn = o; calls = calls })

  -- Some controls of one object.
  unfoldable pub controls : List Control → Rgn → List Mpi → Option Going
  controls [] o calls = some (record { ret = 0; rgn = o; calls = calls })
  controls (cfg ∷ cfgs) o calls = rgn_ctrl cfg o calls >>= λ g. controls cfgs g.rgn g.calls

-- `VSF_createRgn` for an object that is not there yet.
unfoldable pub create_rgn : ℕ → Rgn
create_rgn id = record { id = id; status = absent }
