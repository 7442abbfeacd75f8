-- ===== src/Startup/Tests.antt =====
-- Starts of the processes.
use freak.Prelude.{
  ℕ, ◌≡◌, ◌<◌, refl, Bool, true, [], ◌∷◌, Option, some, some-injective, subst, ap, sym, get_elem?,
  arith,
}
use freak.Proto.Types.{FrameCfg, FrameCap, StreamCfg, StreamCap, OsdCfg, OsdCap, SvrCfg, SvrCap}
use freak.Proto.Samples.{
  number, number-IsCodec, frame_codec, frame_codec-IsCodec, frame_cap_codec, stream_codec,
  stream_codec-IsCodec, stream_cap_codec, osd_codec, osd_codec-IsCodec, osd_cap_codec, svr_codec,
  svr_codec-IsCodec, svr_cap_codec, FrameFields, StreamFields, OsdFields, SvrFields,
}
use freak.Vsf.{Info, Mfifo}
use freak.Vsf.Frame.{Vpss, vsf_create_frame_mgr}
use freak.Vsf.Streams.{vsf_create_stream_mgr}
use freak.Vsf.Osd.{RgnCfg, vsf_create_osd_mgr}
use freak.Server.{Running, SvrMgr, create_svr_mgr}
use freak.Startup.{VsfProcess, vsf_main, rtsp_main, web_main}
use freak.Startup.Video.{FrameOk, StreamOk, OsdOk, Stored, FramesStarted, StreamsStarted}
use freak.Startup.Process.{vsf_main_lem}
use freak.Startup.Servers.{SvrOk, ServersStarted, main_servers_lem}

abbrev create : Mfifo → Bool
create f = true

abbrev vpss : ℕ → Option Vpss
vpss chn = some (record { has_ctrl = true; has_regcallback = true })

abbrev has_regcallback : ℕ → Bool
has_regcallback chn = true

abbrev rgn : ℕ → Option (RgnCfg → ℕ)
rgn id = some (λ r. 0)

ctrl_zero : (ctrl : RgnCfg → ℕ) (r : RgnCfg) → some (λ x. 0) ≡ some ctrl → ctrl r ≡ 0
ctrl_zero ctrl r e = ap (λ f. f r) (sym (some-injective _ _ e))

-- There is one id.
only : (i : ℕ) → i < 1 → (P : ℕ → Type 0) → P 0 → P i
only i h P p = subst P (omega arith) p

abbrev frames : Info FrameCfg FrameCap
frames = record {
  caps = record { id = 0; chn = 0; subchn = 1 } ∷ [];
  cfgs = record { id = 0; enable = 1; format = 3; width = 320; height = 240; fps = 5 } ∷ [];
  num = 1;
}

abbrev streams : Info StreamCfg StreamCap
streams = record {
  caps = record { id = 0; chn = 0; subchn = 0 } ∷ [];
  cfgs = record { id = 0; enable = 1; encode = 0; width = 320; height = 240; fps = 25 } ∷ [];
  num = 1;
}

abbrev osds : Info OsdCfg OsdCap
osds = record {
  caps = record { id = 0; chn = 0; subchn = 0 } ∷ [];
  cfgs = record { id = 0; enable = 1; info = [] } ∷ [];
  num = 1;
}

abbrev servers : Info SvrCfg SvrCap
servers = record {
  caps = record { id = 0; dummy = 0 } ∷ [];
  cfgs = record { id = 0; enable = 1; ip = 127 ∷ []; port = 554 } ∷ [];
  num = 1;
}

abbrev init : Running → Bool
init r = true

frames_ok : Stored (FrameOk create FrameFields) 8 frames
frames_ok = record {
  few = omega arith;
  each = λ i h.
      only i h
        (λ i.
          (x : FrameCfg) × (c : FrameCap) × (get_elem? frames.cfgs i ≡ some x)
          × (get_elem? frames.caps i ≡ some c)
          × FrameOk create FrameFields i x c)
        (_, _, refl, refl, (refl, refl, (refl, refl), (refl, refl)));
}

streams_ok : Stored (StreamOk create StreamFields) 6 streams
streams_ok = record {
  few = omega arith;
  each = λ i h.
      only i h
        (λ i.
          (x : StreamCfg) × (c : StreamCap) × (get_elem? streams.cfgs i ≡ some x)
          × (get_elem? streams.caps i ≡ some c)
          × StreamOk create StreamFields i x c)
        (_, _, refl, refl, (refl, refl, (refl, refl), (refl, refl)));
}

osds_ok : Stored (OsdOk OsdFields []) 16 osds
osds_ok = record {
  few = omega arith;
  each = λ i h.
      only i h
        (λ i.
          (x : OsdCfg) × (c : OsdCap) × (get_elem? osds.cfgs i ≡ some x)
          × (get_elem? osds.caps i ≡ some c)
          × OsdOk OsdFields [] i x c)
        (_, _, refl, refl, (refl, (refl, refl), (refl, refl)));
}

servers_ok : Stored (SvrOk init SvrFields (0 ∷ [])) 1 servers
servers_ok = record {
  few = omega arith;
  each = λ i h.
      only i h
        (λ i.
          (x : SvrCfg) × (c : SvrCap) × (get_elem? servers.cfgs i ≡ some x)
          × (get_elem? servers.caps i ≡ some c)
          × SvrOk init SvrFields (0 ∷ []) i x c)
        (_, _, refl, refl, (refl, refl, (refl, refl), (refl, refl)));
}

vsf_main_lem_example :
    (s' : VsfProcess) × (vsf_main create vpss has_regcallback rgn frame_codec frame_cap_codec
        stream_codec stream_cap_codec osd_codec osd_cap_codec number [] 8 9
        (record {
          frames = vsf_create_frame_mgr frames;
          streams = vsf_create_stream_mgr streams;
          osds = vsf_create_osd_mgr osds;
        })
      ≡ some s')
    × FramesStarted frames 1 s'.frames
    × StreamsStarted streams 1 s'.streams
    × (s'.osds.info ≡ osds)
vsf_main_lem_example =
    vsf_main_lem create vpss has_regcallback rgn frame_codec frame_cap_codec stream_codec
      stream_cap_codec osd_codec osd_cap_codec number [] 8 9 frame_codec-IsCodec
      stream_codec-IsCodec osd_codec-IsCodec number-IsCodec (refl, refl) frames streams osds
      frames_ok streams_ok osds_ok (λ id ctrl r e. ctrl_zero ctrl r e) (refl, refl) (refl, refl)
      (refl, refl)

main_servers_lem_example :
    ((s' : SvrMgr) × (rtsp_main init svr_codec svr_cap_codec number
          (0 ∷ [])
          8
          9
          (create_svr_mgr servers)
        ≡ some s')
      × ServersStarted servers 1 s')
    × ((s' : SvrMgr) × (web_main init svr_codec svr_cap_codec number
            (0 ∷ [])
            8
            9
            (create_svr_mgr servers)
          ≡ some s')
        × ServersStarted servers 1 s')
main_servers_lem_example =
    main_servers_lem init svr_codec svr_cap_codec number (0 ∷ []) 8 9 svr_codec-IsCodec
      number-IsCodec servers servers_ok (refl, refl) (refl, refl)
