-- ===== src/Proto/Clients.antt =====
-- The managers of mod/proto/interface, through which a process calls another: each function is a
-- request with its key and action. `num` sends the channel -1.
use freak.Prelude.{ℕ, Option}
use freak.Proto.{
  Codec, Exchange, request, action_num, action_cap, action_get, action_set, action_tgr,
  bsp_key_dummy, vsf_key_frame, vsf_key_stream, vsf_key_osd, rtsp_key_svr, web_key_svr, app_key_alg,
}
use freak.Proto.Types.{
  FrameCfg, FrameCap, StreamCfg, StreamCap, OsdCfg, OsdCap, SvrCfg, SvrCap, AlgCfg, AlgCap,
  DummyCfg, DummyCap,
}

-- `-1` as the channel of a message.
abbrev minus_one : ℕ
minus_one = 4294967295

module _ {S : Type 0} (exchange : Exchange S) (format now : ℕ) where
  -- mod/proto/interface/vsf/frame_mgr.c
  unfoldable pub frame_get : Codec FrameCfg → FrameCfg → S → Option (FrameCfg × S)
  frame_get c t = request c exchange vsf_key_frame action_get t.id format now t

  unfoldable pub frame_set : Codec FrameCfg → FrameCfg → S → Option (FrameCfg × S)
  frame_set c t = request c exchange vsf_key_frame action_set t.id format now t

  unfoldable pub frame_cap : Codec FrameCap → FrameCap → S → Option (FrameCap × S)
  frame_cap c t = request c exchange vsf_key_frame action_cap t.id format now t

  unfoldable pub frame_num : Codec ℕ → S → Option (ℕ × S)
  frame_num c = request c exchange vsf_key_frame action_num minus_one format now 0

  -- mod/proto/interface/vsf/stream_mgr.c
  unfoldable pub stream_get : Codec StreamCfg → StreamCfg → S → Option (StreamCfg × S)
  stream_get c t = request c exchange vsf_key_stream action_get t.id format now t

  unfoldable pub stream_set : Codec StreamCfg → StreamCfg → S → Option (StreamCfg × S)
  stream_set c t = request c exchange vsf_key_stream action_set t.id format now t

  unfoldable pub stream_cap : Codec StreamCap → StreamCap → S → Option (StreamCap × S)
  stream_cap c t = request c exchange vsf_key_stream action_cap t.id format now t

  unfoldable pub stream_num : Codec ℕ → S → Option (ℕ × S)
  stream_num c = request c exchange vsf_key_stream action_num minus_one format now 0

  -- mod/proto/interface/vsf/osd_mgr.c
  unfoldable pub osd_get : Codec OsdCfg → OsdCfg → S → Option (OsdCfg × S)
  osd_get c t = request c exchange vsf_key_osd action_get t.id format now t

  unfoldable pub osd_set : Codec OsdCfg → OsdCfg → S → Option (OsdCfg × S)
  osd_set c t = request c exchange vsf_key_osd action_set t.id format now t

  unfoldable pub osd_cap : Codec OsdCap → OsdCap → S → Option (OsdCap × S)
  osd_cap c t = request c exchange vsf_key_osd action_cap t.id format now t

  unfoldable pub osd_tgr : Codec OsdCfg → OsdCfg → S → Option (OsdCfg × S)
  osd_tgr c t = request c exchange vsf_key_osd action_tgr t.id format now t

  unfoldable pub osd_num : Codec ℕ → S → Option (ℕ × S)
  osd_num c = request c exchange vsf_key_osd action_num minus_one format now 0

  -- mod/proto/interface/rtsp/svr_mgr.c
  unfoldable pub rtsp_svr_get : Codec SvrCfg → SvrCfg → S → Option (SvrCfg × S)
  rtsp_svr_get c t = request c exchange rtsp_key_svr action_get t.id format now t

  unfoldable pub rtsp_svr_set : Codec SvrCfg → SvrCfg → S → Option (SvrCfg × S)
  rtsp_svr_set c t = request c exchange rtsp_key_svr action_set t.id format now t

  unfoldable pub rtsp_svr_cap : Codec SvrCap → SvrCap → S → Option (SvrCap × S)
  rtsp_svr_cap c t = request c exchange rtsp_key_svr action_cap t.id format now t

  unfoldable pub rtsp_svr_num : Codec ℕ → S → Option (ℕ × S)
  rtsp_svr_num c = request c exchange rtsp_key_svr action_num minus_one format now 0

  -- mod/proto/interface/web/svr_mgr.c
  unfoldable pub web_svr_get : Codec SvrCfg → SvrCfg → S → Option (SvrCfg × S)
  web_svr_get c t = request c exchange web_key_svr action_get t.id format now t

  unfoldable pub web_svr_set : Codec SvrCfg → SvrCfg → S → Option (SvrCfg × S)
  web_svr_set c t = request c exchange web_key_svr action_set t.id format now t

  unfoldable pub web_svr_cap : Codec SvrCap → SvrCap → S → Option (SvrCap × S)
  web_svr_cap c t = request c exchange web_key_svr action_cap t.id format now t

  unfoldable pub web_svr_num : Codec ℕ → S → Option (ℕ × S)
  web_svr_num c = request c exchange web_key_svr action_num minus_one format now 0

  -- mod/proto/interface/app/alg_mgr.c
  unfoldable pub alg_get : Codec AlgCfg → AlgCfg → S → Option (AlgCfg × S)
  alg_get c t = request c exchange app_key_alg action_get t.id format now t

  unfoldable pub alg_set : Codec AlgCfg → AlgCfg → S → Option (AlgCfg × S)
  alg_set c t = request c exchange app_key_alg action_set t.id format now t

  unfoldable pub alg_cap : Codec AlgCap → AlgCap → S → Option (AlgCap × S)
  alg_cap c t = request c exchange app_key_alg action_cap t.id format now t

  unfoldable pub alg_num : Codec ℕ → S → Option (ℕ × S)
  alg_num c = request c exchange app_key_alg action_num minus_one format now 0

  -- mod/proto/interface/bsp/dummy.c, where the board's number is the channel
  unfoldable pub dummy_cap : Codec DummyCap → ℕ → DummyCap → S → Option (DummyCap × S)
  dummy_cap c id t = request c exchange bsp_key_dummy action_cap id format now t

  unfoldable pub dummy_set : Codec DummyCfg → ℕ → DummyCfg → S → Option (DummyCfg × S)
  dummy_set c id t = request c exchange bsp_key_dummy action_set id format now t

  unfoldable pub dummy_get : Codec DummyCfg → ℕ → DummyCfg → S → Option (DummyCfg × S)
  dummy_get c id t = request c exchange bsp_key_dummy action_get id format now t
