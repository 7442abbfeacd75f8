-- ===== src/Proto/Types.antt =====
-- The structures of mod/proto/jsonb that the managers exchange. A C `int` is its bit pattern, and an
-- array of characters is its bytes.
use freak.Prelude.{ℕ, List}

-- `proto_vsf_frame_cfg_t`, `proto_vsf_frame_cap_t`
pub record FrameCfg : Type 0 where
  pub id : ℕ
  pub enable : ℕ
  pub format : ℕ
  pub width : ℕ
  pub height : ℕ
  pub fps : ℕ

pub record FrameCap : Type 0 where
  pub id : ℕ
  pub chn : ℕ
  pub subchn : ℕ

-- `proto_vsf_stream_cfg_t`, `proto_vsf_stream_cap_t`
pub record StreamCfg : Type 0 where
  pub id : ℕ
  pub enable : ℕ
  pub encode : ℕ
  pub width : ℕ
  pub height : ℕ
  pub fps : ℕ

pub record StreamCap : Type 0 where
  pub id : ℕ
  pub chn : ℕ
  pub subchn : ℕ

-- `proto_vsf_osd_cfg_t`, with the bytes of its union, and `proto_vsf_osd_cap_t`
pub record OsdCfg : Type 0 where
  pub id : ℕ
  pub enable : ℕ
  pub info : List ℕ

pub record OsdCap : Type 0 where
  pub id : ℕ
  pub chn : ℕ
  pub subchn : ℕ

-- `proto_rtsp_svr_cfg_t` and `proto_web_svr_cfg_t`, with their caps
pub record SvrCfg : Type 0 where
  pub id : ℕ
  pub enable : ℕ
  pub ip : List ℕ
  pub port : ℕ

pub record SvrCap : Type 0 where
  pub id : ℕ
  pub dummy : ℕ

-- `proto_app_alg_cfg_t`, `proto_app_alg_cap_t`
pub record AlgCfg : Type 0 where
  pub id : ℕ
  pub type : ℕ
  pub enable : ℕ
  pub algpath : List ℕ

pub record AlgCap : Type 0 where
  pub id : ℕ
  pub frame : ℕ

-- `proto_bsp_dummy_cfg_t`, `proto_bsp_dummy_cap_t`
pub record DummyCfg : Type 0 where
  pub value : ℕ

pub record DummyCap : Type 0 where
  pub value : ℕ
