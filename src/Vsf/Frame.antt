-- ===== src/Vsf/Frame.antt =====
-- The frame manager: mod/vsf/src/interface/frame_mgr.c and mod/vsf/src/msgbox/msgbox_frame.c.
pub mod Callbacks
pub mod Remote
mod Tests
use freak.Prelude.{
  ℕ, zero, suc, ◌+◌, ◌-◌, ◌%◌, ◌^◌, Bool, true, false, List, [], ◌∷◌, ◌++◌, Option, some, none,
  ◌==◌, if◌then◌else◌, get_elem?, set,
}
use freak.Proto.{◌>>=◌, ◌>>◌, check, Codec}
use freak.Proto.Types.{FrameCfg, FrameCap}
use freak.Msgbox.{Manager, Handler, serve}
use freak.Media.{Frame, record_size, frame_size, frame_len}
use freak.Vsf.{Info, Mfifo, media_video_frame, reopen}

-- `vsf_frame_cfg_t`
pub record HalCfg : Type 0 where
  pub format : ℕ
  pub width : ℕ
  pub height : ℕ
  pub fps : ℕ

-- The calls of the hardware's object of a channel: `ctrl` and `regcallback` of a subchannel. The
-- callback has the index of its `args` in `info->cfgs`, or its function is NULL.
pub data VpssCall : Type 0 where
  ctrl : ℕ → ℕ → HalCfg → VpssCall
  regcallback : ℕ → ℕ → Option ℕ → VpssCall

-- The object that `VSF_createVpss` returns for a channel, by the functions that it has.
pub record Vpss : Type 0 where
  pub has_ctrl : Bool
  pub has_regcallback : Bool

-- `vsf_frame_mgr_priv_t`, with the calls of the hardware so far, the last one first.
pub record FrameMgr : Type 0 where
  pub fifo : List (Option Mfifo)
  pub info : Info FrameCfg FrameCap
  pub calls : List VpssCall

abbrev pub when : Bool → VpssCall → List VpssCall → List VpssCall
when b call calls = if b then call ∷ calls else calls

module _ (create : Mfifo → Bool) where
  -- The first half of `__vsf_frame_set`, which opens or closes the ring. An `id` out of range is a fault.
  unfoldable pub set_ring : FrameCfg → FrameMgr → Option FrameMgr
  unfolding reopen
  set_ring cfg s = do
    cap ← get_elem? s.info.caps cfg.id
    fifo ← get_elem? s.fifo cfg.id
    fifo' ←
        reopen create cfg.enable
          (record { media = media_video_frame; chn = cap.chn; subchn = cap.subchn }) fifo
    some (record s { fifo = set s.fifo cfg.id fifo' })

module _ (create : Mfifo → Bool) (vpss : ℕ → Option Vpss) where
  -- The second half of `__vsf_frame_set`, which passes the configuration and the callback on.
  unfoldable pub configure : FrameCap → FrameCfg → List VpssCall → List VpssCall
  configure cap cfg calls = elim (vpss cap.chn) [
    | none ↦ calls
    | some hal ↦
        when hal.has_regcallback
          (regcallback cap.chn cap.subchn (if cfg.enable == 0 then none else some cfg.id))
          (when hal.has_ctrl
            (ctrl cap.chn cap.subchn (record {
              format = cfg.format;
              width = cfg.width;
              height = cfg.height;
              fps = cfg.fps;
            }))
            calls)
  ]

  -- `__vsf_frame_set`: what it returns and the new state.
  unfoldable pub vsf_frame_set : FrameCfg → FrameMgr → Option (ℕ × FrameMgr)
  unfolding set_ring configure
  vsf_frame_set cfg s = do
    cap ← get_elem? s.info.caps cfg.id
    s1 ← set_ring create cfg s
    some (0, record s1 { calls = configure cap cfg s1.calls })

-- `__vsf_frame_get`, `__vsf_frame_cap`, `__vsf_frame_num`
unfoldable pub vsf_frame_get : FrameCfg → FrameMgr → Option FrameCfg
vsf_frame_get cfg s = get_elem? s.info.cfgs cfg.id

unfoldable pub vsf_frame_cap : FrameCap → FrameMgr → Option FrameCap
vsf_frame_cap cap s = get_elem? s.info.caps cap.id

unfoldable pub vsf_frame_num : FrameMgr → ℕ
vsf_frame_num s = s.info.num

-- `cfg_get_member(frame)->cfgs[cfg.id] = cfg` of `msgbox_frame_set`
unfoldable pub keep_frame_cfg : FrameCfg → FrameMgr → Option FrameMgr
keep_frame_cfg cfg s = get_elem? s.info.cfgs cfg.id >>= λ _.
    some (record s { info = record s.info { cfgs = set s.info.cfgs cfg.id cfg } })

-- `__vsf_get_frame_proc` without DEBUG, for the callback of `cfg->id`: whether it returns 0. `put` is
-- the ring's; a ring that is not there is a fault.
pub vsf_get_frame_proc : (Mfifo → Frame → ℕ → ℕ) → ℕ → Frame → FrameMgr → Option Bool
vsf_get_frame_proc put id frame s = do
  let totalsize : ℕ = (record_size + frame_size + frame_len frame) % 2 ^ 64
  slot ← get_elem? s.fifo id
  fifo ← slot
  some (put fifo frame totalsize == totalsize)

-- `vsf_createFrameMgr`, on the configuration of the process.
unfoldable pub vsf_create_frame_mgr : Info FrameCfg FrameCap → FrameMgr
vsf_create_frame_mgr info = record {
  fifo = none ∷ none ∷ none ∷ none ∷ none ∷ none ∷ none ∷ none ∷ [];
  info = info;
  calls = [];
}

module _ (create : Mfifo → Bool) (vpss : ℕ → Option Vpss) where
  -- The object of `vsf_createFrameMgr`; it has no `tgr`, which is NULL.
  abbrev pub frame_manager : Manager FrameMgr FrameCfg FrameCap
  frame_manager = record {
    set_cfg = vsf_frame_set create vpss;
    get_cfg = vsf_frame_get;
    get_cap = vsf_frame_cap;
    get_num = vsf_frame_num;
    trigger = λ cfg s. none;
    keep_cfg = keep_frame_cfg;
  }

  -- `msgbox_vsf_frame`
  abbrev pub msgbox_vsf_frame : Codec FrameCfg → Codec FrameCap → Codec ℕ → Handler FrameMgr
  msgbox_vsf_frame = serve frame_manager
