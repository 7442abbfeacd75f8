-- ===== src/App.antt =====
-- The algorithm manager of the app process: mod/app/src/interface/alg_mgr.c and
-- mod/app/src/msgbox/msgbox_alg.c. The face algorithm is a library that may be missing; the frames and
-- the overlays are the vsf process's, which the manager calls by message.
mod Cycle
mod Frames
mod Objects
mod Tests
use freak.Prelude.{
  ℕ, zero, suc, ◌+◌, ◌*◌, Bool, true, false, List, [], ◌∷◌, ◌++◌, Option, some, none, ◌==◌, ltb,
  if◌then◌else◌, get_elem?, set, replicate, length,
}
use freak.Proto.{◌>>=◌, ◌>>◌, check, Codec, Exchange}
use freak.Proto.Types.{FrameCfg, FrameCap, AlgCfg, AlgCap}
use freak.Proto.Clients.{frame_cap, frame_get, frame_set}
use freak.Memory.{Heap, alloc, release, free_object}
use freak.Msgbox.{Manager, Handler, serve}
use freak.Vsf.{Info}

-- What the manager asks of the face algorithm.
pub data FaceCall : Type 0 where
  regcallback : ℕ → FaceCall
  init : List ℕ → FaceCall
  destroy : FaceCall

-- `buf_t`
pub record Buf : Type 0 where
  pub data_at : Option ℕ
  pub size : ℕ

-- `app_alg_mgr_priv_t`; the entries of `osds` are objects on the manager's side.
pub record AlgMgr : Type 0 where
  pub fifos : List (Option ℕ)
  pub osds : List (Option ℕ)
  pub bufs : List Buf
  pub info : Info AlgCfg AlgCap
  pub heap : Heap
  pub face : List FaceCall

-- `app_createAlgMgr`; APP_ITEM_MAX is 3.
unfoldable pub create_alg_mgr : Info AlgCfg AlgCap → Heap → AlgMgr
create_alg_mgr info w = record {
  fifos = replicate 3 none;
  osds = replicate 3 none;
  bufs = replicate 3 (record { data_at = none; size = 0 });
  info = info;
  heap = w;
  face = [];
}

-- The configuration that an algorithm asks for: VIDEO_FRAME_FORMAT_YUV420P_YVU is 10.
abbrev pub wanted : FrameCfg → FrameCfg
wanted f = record f { enable = 1; format = 10; width = 640; height = 640; fps = 15 }

abbrev pub frame_cap_of : ℕ → FrameCap
frame_cap_of frame = record { id = frame; chn = 0; subchn = 0 }

abbrev pub frame_cfg_of : ℕ → FrameCfg
frame_cfg_of frame = record { id = frame; enable = 0; format = 0; width = 0; height = 0; fps = 0 }

module _ {S : Type 0} (exchange : Exchange S) (fcap : Codec FrameCap) (fcfg : Codec FrameCfg)
    (format now : ℕ) (attach : ℕ → ℕ → Bool) (has_face : Bool) where
  -- The part of `__app_alg_set` that starts the frames: the place of the ring, and the configuration
  -- that the vsf process answers the set with.
  unfoldable pub start_frames : ℕ → S → Option (FrameCap × FrameCfg × S)
  start_frames frame x = do
    (c, x1) ← frame_cap exchange format now fcap (frame_cap_of frame) x
    (f, x2) ← frame_get exchange format now fcfg (frame_cfg_of frame) x1
    (g, x3) ← frame_set exchange format now fcfg (wanted f) x2
    some (c, g, x3)

  -- What the enable makes: the ring, the overlays and the buffer of an image.
  abbrev pub fill_slot : AlgCfg → FrameCfg → AlgMgr → AlgMgr
  fill_slot cfg g s =
      let (fifo, w1) = alloc s.heap in
      let (osd, w2) = alloc w1 in
      let (buf, w3) = alloc w2 in
      record s {
        fifos = set s.fifos cfg.id (some fifo);
        osds = set s.osds cfg.id (some osd);
        bufs =
            set s.bufs cfg.id (record { data_at = some buf; size = g.width * g.height * 3 + 1024 });
        heap = record w3 { newest = fifo ∷ w3.newest };
        face = if has_face then init cfg.algpath ∷ regcallback cfg.id ∷ s.face else s.face;
      }

  -- The rest of the enable; the ring must be there.
  unfoldable pub alg_enable : AlgCfg → FrameCap → FrameCfg → AlgMgr → Option AlgMgr
  alg_enable cfg c g s = check (attach c.chn c.subchn) >> some (fill_slot cfg g s)

  -- What the disable leaves; `osds` keeps its pointer.
  abbrev pub empty_slot : AlgCfg → Buf → Heap → AlgMgr → AlgMgr
  empty_slot cfg buf w s = record s {
    fifos = set s.fifos cfg.id none;
    bufs = set s.bufs cfg.id (record buf { data_at = none });
    heap = w;
    face = if has_face then destroy ∷ s.face else s.face;
  }

  -- The disable
  unfoldable pub alg_disable : AlgCfg → AlgMgr → Option AlgMgr
  alg_disable cfg s = do
    fifo ← get_elem? s.fifos cfg.id
    w1 ← free_object fifo s.heap
    buf ← get_elem? s.bufs cfg.id
    w2 ← free_object buf.data_at w1
    osd ← get_elem? s.osds cfg.id
    w3 ← free_object osd w2
    some (empty_slot cfg buf w3 s)

  -- `__app_alg_set`: ALG_TYPE_FR is 0, and nothing is done for another type.
  unfoldable pub app_alg_set : AlgCfg → AlgMgr × S → Option (ℕ × (AlgMgr × S))
  app_alg_set cfg (s, x) =
      if cfg.type == 0
      then (if cfg.enable == 0
          then (alg_disable cfg s >>= λ s'. some (0, (s', x)))
          else (get_elem? s.info.caps cfg.id >>= λ cap. start_frames cap.frame x >>= λ (c, g, x').
              alg_enable cfg c g s >>= λ s'. some (0, (s', x'))))
      else some (0, (s, x))

  -- `get`, `cap`, `num`, and what `msgbox_alg_set` stores.
  unfoldable pub app_alg_get : AlgCfg → AlgMgr × S → Option AlgCfg
  app_alg_get cfg (s, x) = get_elem? s.info.cfgs cfg.id

  unfoldable pub app_alg_cap : AlgCap → AlgMgr × S → Option AlgCap
  app_alg_cap cap (s, x) = get_elem? s.info.caps cap.id

  unfoldable pub app_alg_num : AlgMgr × S → ℕ
  app_alg_num (s, x) = s.info.num

  unfoldable pub keep_alg_cfg : AlgCfg → AlgMgr × S → Option (AlgMgr × S)
  keep_alg_cfg cfg (s, x) = get_elem? s.info.cfgs cfg.id >>= λ _.
      some (record s { info = record s.info { cfgs = set s.info.cfgs cfg.id cfg } }, x)

  abbrev pub alg_manager : Manager (AlgMgr × S) AlgCfg AlgCap
  alg_manager = record {
    set_cfg = app_alg_set;
    get_cfg = app_alg_get;
    get_cap = app_alg_cap;
    get_num = app_alg_num;
    trigger = λ cfg s. none;
    keep_cfg = keep_alg_cfg;
  }

  -- `msgbox_app_alg`
  abbrev pub msgbox_app_alg : Codec AlgCfg → Codec AlgCap → Codec ℕ → Handler (AlgMgr × S)
  msgbox_app_alg cfg cap num = serve alg_manager cfg cap num

-- `proto_app_alg_obj_t` and `proto_vsf_osd_obj_t`
pub record Rect : Type 0 where
  pub x : ℕ
  pub y : ℕ
  pub w : ℕ
  pub h : ℕ

pub record Found : Type 0 where
  pub id : ℕ
  pub rect : Rect

pub record Boxed : Type 0 where
  pub id : ℕ
  pub color : ℕ
  pub rect : Rect

abbrev pub boxed : Found → Boxed
boxed o = record { id = o.id; color = 33488896; rect = o.rect }

abbrev pub no_box : Boxed
no_box = record { id = 0; color = 0; rect = record { x = 0; y = 0; w = 0; h = 0 } }

-- The loop of `__app_alg_result` from `i` on, with `n` rounds left. A read or a write past the end of
-- an array, of ALG_OBJ_NUM_MAX = 32 and VSF_OSD_OBJS_MAX = 16 objects, is a fault.
unfoldable pub copy_objs : List Found → ℕ → ℕ → List Boxed → Option (List Boxed)
copy_objs objs zero i boxes = some boxes
copy_objs objs (suc n) i boxes = do
  o ← get_elem? objs i
  check (ltb i (length boxes))
  copy_objs objs n (i + 1) (set boxes i (boxed o))

-- `__app_alg_result`: the number and the array that the overlay is triggered with.
unfoldable pub app_alg_result : ℕ → List Found → Option (ℕ × List Boxed)
app_alg_result num objs = copy_objs objs num 0 (replicate 16 no_box) >>= λ boxes. some (num, boxes)
