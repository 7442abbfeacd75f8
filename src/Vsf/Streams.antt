-- ===== src/Vsf/Streams.antt =====
-- The stream manager: mod/vsf/src/interface/stream_mgr.c and mod/vsf/src/msgbox/msgbox_stream.c.
mod Proc
mod Callbacks
mod Tests
use freak.Prelude.{
  ℕ, zero, suc, ◌+◌, ◌-◌, ◌%◌, ◌^◌, ltb, Bool, true, false, List, [], ◌∷◌, ◌++◌, Option, some, none,
  ◌==◌, if◌then◌else◌, get_elem?, set,
}
use freak.Proto.{◌>>=◌, ◌>>◌, check, Codec}
use freak.Proto.Types.{StreamCfg, StreamCap}
use freak.Msgbox.{Manager, Handler, serve}
use freak.Media.{Pack, Stream, record_size, stream_size, packs_size, payload_len, pack_size}
use freak.Vsf.{Info, Mfifo, media_video_stream, reopen}

-- A call of `regcallback` of the encoder of a channel. The callback has the index of its `args` in
-- `info->cfgs`, or its function is NULL.
pub record VencCall : Type 0 where
  pub chn : ℕ
  pub callback : Option ℕ

-- `vsf_stream_mgr_priv_t`, with the calls of the hardware so far, the last one first.
pub record StreamMgr : Type 0 where
  pub fifo : List (Option Mfifo)
  pub info : Info StreamCfg StreamCap
  pub calls : List VencCall

-- What the code uses of an open ring, which is ufifo's, in a state `U`.
pub record Ufifo (U : Type 0) : Type 0 where
  pub size : U → ℕ
  pub len : U → ℕ
  pub skip : U → U
  pub oldest : U → U
  pub put : Stream → ℕ → U → ℕ × U

module _ {U : Type 0} (u : Ufifo U) where
  -- `__vsf_stream_h264_proc`: whether it returns 0, and the ring. The sums do not reach 2^64.
  pub vsf_stream_h264_proc : Stream → U → Bool × U
  vsf_stream_h264_proc stream r =
      let totalsize : ℕ = packs_size (record_size + stream_size) stream.packs in
      let r1 : U = if ltb (u.size r) (u.len r + totalsize) then u.oldest (u.skip r) else r in
      let (ret, r2) = u.put stream totalsize r1 in (ret == totalsize, r2)

module _ (create : Mfifo → Bool) (has_regcallback : ℕ → Bool) where
  -- `__vsf_stream_set`: what it returns and the new state. An `id` out of range is a fault.
  -- `has_regcallback` says whether the encoder of the channel exists and takes callbacks.
  unfoldable pub vsf_stream_set : StreamCfg → StreamMgr → Option (ℕ × StreamMgr)
  unfolding reopen
  vsf_stream_set cfg s = do
    cap ← get_elem? s.info.caps cfg.id
    fifo ← get_elem? s.fifo cfg.id
    fifo' ←
        reopen create cfg.enable
          (record { media = media_video_stream; chn = cap.chn; subchn = cap.subchn }) fifo
    let call : VencCall = record {
      chn = cfg.id;
      callback = if cfg.enable == 0 then none else some cfg.id;
    }
    some (
      0,
      record s {
        fifo = set s.fifo cfg.id fifo';
        calls = if has_regcallback cfg.id then call ∷ s.calls else s.calls;
      },
    )

-- `__vsf_stream_get`, `__vsf_stream_cap`, `__vsf_stream_num`
unfoldable pub vsf_stream_get : StreamCfg → StreamMgr → Option StreamCfg
vsf_stream_get cfg s = get_elem? s.info.cfgs cfg.id

unfoldable pub vsf_stream_cap : StreamCap → StreamMgr → Option StreamCap
vsf_stream_cap cap s = get_elem? s.info.caps cap.id

unfoldable pub vsf_stream_num : StreamMgr → ℕ
vsf_stream_num s = s.info.num

-- `cfg_get_member(stream)->cfgs[cfg.id] = cfg` of `msgbox_stream_set`
unfoldable pub keep_stream_cfg : StreamCfg → StreamMgr → Option StreamMgr
keep_stream_cfg cfg s = get_elem? s.info.cfgs cfg.id >>= λ _.
    some (record s { info = record s.info { cfgs = set s.info.cfgs cfg.id cfg } })

-- `vsf_createStreamMgr`, on the configuration of the process.
unfoldable pub vsf_create_stream_mgr : Info StreamCfg StreamCap → StreamMgr
vsf_create_stream_mgr info = record {
  fifo = none ∷ none ∷ none ∷ none ∷ none ∷ none ∷ [];
  info = info;
  calls = [];
}

module _ (create : Mfifo → Bool) (has_regcallback : ℕ → Bool) where
  -- The object of `vsf_createStreamMgr`; it has no `tgr`, which is NULL.
  abbrev pub stream_manager : Manager StreamMgr StreamCfg StreamCap
  stream_manager = record {
    set_cfg = vsf_stream_set create has_regcallback;
    get_cfg = vsf_stream_get;
    get_cap = vsf_stream_cap;
    get_num = vsf_stream_num;
    trigger = λ cfg s. none;
    keep_cfg = keep_stream_cfg;
  }

  -- `msgbox_vsf_stream`
  abbrev pub msgbox_vsf_stream : Codec StreamCfg → Codec StreamCap → Codec ℕ → Handler StreamMgr
  msgbox_vsf_stream = serve stream_manager
