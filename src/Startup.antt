-- ===== src/Startup.antt =====
-- The start of the processes: the handlers that the main functions of mod/vsf/src/main.c,
-- mod/rtsp/src/main.c and mod/web/src/main.c register, and the loops in which each process sets its
-- stored configuration by messages to itself.
pub mod Slots
pub mod Loop
pub mod Overlays
pub mod Video
pub mod Process
pub mod Servers
mod Tests
use freak.Prelude.{ℕ, zero, suc, Bool, List, [], Option, some}
use freak.Proto.{
  ◌>>=◌, Codec, Exchange, vsf_key_frame, vsf_key_stream, vsf_key_osd, rtsp_key_svr, web_key_svr,
  format_json,
}
use freak.Proto.Types.{FrameCfg, FrameCap, StreamCfg, StreamCap, OsdCfg, OsdCap, SvrCfg, SvrCap}
use freak.Proto.Clients.{
  frame_num, frame_get, frame_set, stream_num, stream_get, stream_set, osd_num, osd_get, osd_set,
  rtsp_svr_num, rtsp_svr_get, web_svr_num, web_svr_get,
}
use freak.Proto.Clients
use freak.Msgbox.{Handler, Table, no_handlers, reg_handler}
use freak.Msgbox.Serve.{served}
use freak.Vsf.{Mfifo}
use freak.Vsf.Frame.{FrameMgr, Vpss, msgbox_vsf_frame}
use freak.Vsf.Streams.{StreamMgr, msgbox_vsf_stream}
use freak.Vsf.Osd.{OsdMgr, RgnCfg, msgbox_vsf_osd}
use freak.Server.{SvrMgr, Running, msgbox_rtsp_svr, msgbox_web_svr}

-- The managers of the vsf process.
pub record VsfProcess : Type 0 where
  pub frames : FrameMgr
  pub streams : StreamMgr
  pub osds : OsdMgr

-- The state of a manager inside that of its process.
pub record Part (S T : Type 0) : Type 0 where
  pub view : S → T
  pub put : T → S → S

abbrev pub frame_part : Part VsfProcess FrameMgr
frame_part = record { view = λ s. s.frames; put = λ x s. record s { frames = x } }

abbrev pub stream_part : Part VsfProcess StreamMgr
stream_part = record { view = λ s. s.streams; put = λ x s. record s { streams = x } }

abbrev pub osd_part : Part VsfProcess OsdMgr
osd_part = record { view = λ s. s.osds; put = λ x s. record s { osds = x } }

abbrev pub whole : {S : Type 0} → Part S S
whole = record { view = λ s. s; put = λ x s. x }

-- A handler of a manager as a handler of the process.
abbrev pub inside : {S T : Type 0} → Part S T → Handler T → Handler S
inside part h p s = h p (part.view s) >>= λ (ret, out, x). some (ret, out, part.put x s)

module _ {S Cfg : Type 0} (get_cfg set_cfg : Cfg → S → Option (Cfg × S)) (with_id : ℕ → Cfg) where
  -- The loop of a main function, from the id `i` on.
  pub start_from : ℕ → ℕ → S → Option S
  start_from zero i s = some s
  start_from (suc n) i s = do
    (cfg, s1) ← get_cfg (with_id i) s
    (cfg', s2) ← set_cfg cfg s1
    start_from n (suc i) s2

-- The initialisers `{.id = i}`
abbrev pub frame_with : ℕ → FrameCfg
frame_with i = record { id = i; enable = 0; format = 0; width = 0; height = 0; fps = 0 }

abbrev pub stream_with : ℕ → StreamCfg
stream_with i = record { id = i; enable = 0; encode = 0; width = 0; height = 0; fps = 0 }

-- The union of an overlay's configuration starts as zeros, of the size `n`.
abbrev pub osd_with : List ℕ → ℕ → OsdCfg
osd_with zeros i = record { id = i; enable = 0; info = zeros }

abbrev pub svr_with : List ℕ → ℕ → SvrCfg
svr_with zeros i = record { id = i; enable = 0; ip = zeros; port = 0 }

module _ (create : Mfifo → Bool) (vpss : ℕ → Option Vpss) (has_regcallback : ℕ → Bool)
    (rgn : ℕ → Option (RgnCfg → ℕ)) (fcfg : Codec FrameCfg) (fcap : Codec FrameCap)
    (scfg : Codec StreamCfg) (scap : Codec StreamCap) (ocfg : Codec OsdCfg) (ocap : Codec OsdCap)
    (num : Codec ℕ) (zeros : List ℕ) (now later : ℕ) where
  -- The table of the vsf process, after its three calls of `msgbox_reg_handler`.
  abbrev pub vsf_table : Table VsfProcess
  vsf_table =
      let (ok, t1) =
        reg_handler vsf_key_frame (inside frame_part (msgbox_vsf_frame create vpss fcfg fcap num))
          no_handlers in
      let (ok, t2) =
        reg_handler vsf_key_stream
          (inside stream_part (msgbox_vsf_stream create has_regcallback scfg scap num)) t1 in
      let (ok, t3) =
        reg_handler vsf_key_osd (inside osd_part (msgbox_vsf_osd rgn ocfg ocap num)) t2 in
      t3

  abbrev exchange : Exchange VsfProcess
  exchange = served vsf_table later

  -- The three loops of `main`, each after its `num`.
  unfoldable pub start_frames_of : VsfProcess → Option VsfProcess
  unfolding start_from frame_num frame_get frame_set
  start_frames_of s = frame_num exchange format_json now num s >>= λ (total, s').
      start_from (frame_get exchange format_json now fcfg) (frame_set exchange format_json now fcfg)
        frame_with total 0 s'

  unfoldable pub start_streams_of : VsfProcess → Option VsfProcess
  unfolding start_from stream_num stream_get stream_set
  start_streams_of s = stream_num exchange format_json now num s >>= λ (total, s').
      start_from (stream_get exchange format_json now scfg)
        (stream_set exchange format_json now scfg) stream_with total 0 s'

  unfoldable pub start_osds_of : VsfProcess → Option VsfProcess
  unfolding start_from osd_num osd_get osd_set
  start_osds_of s = osd_num exchange format_json now num s >>= λ (total, s').
      start_from (osd_get exchange format_json now ocfg) (osd_set exchange format_json now ocfg)
        (osd_with zeros) total 0 s'

  -- `main` of mod/vsf/src/main.c, up to the loop that keeps it alive.
  unfoldable pub vsf_main : VsfProcess → Option VsfProcess
  unfolding start_frames_of start_streams_of start_osds_of
  vsf_main s = start_frames_of s >>= λ s1. start_streams_of s1 >>= start_osds_of

module _ (init : Running → Bool) (cfg : Codec SvrCfg) (cap : Codec SvrCap) (num : Codec ℕ)
    (zeros : List ℕ) (now later : ℕ) where
  -- `main` of mod/rtsp/src/main.c, up to the loop that keeps it alive.
  abbrev pub rtsp_table : Table SvrMgr
  rtsp_table =
      let (ok, t) =
        reg_handler rtsp_key_svr (inside whole (msgbox_rtsp_svr init cfg cap num)) no_handlers in
      t

  unfoldable pub rtsp_main : SvrMgr → Option SvrMgr
  unfolding start_from rtsp_svr_num rtsp_svr_get Clients.rtsp_svr_set
  rtsp_main s = rtsp_svr_num (served rtsp_table later) format_json now num s >>= λ (total, s').
      start_from (rtsp_svr_get (served rtsp_table later) format_json now cfg)
        (Clients.rtsp_svr_set (served rtsp_table later) format_json now cfg) (svr_with zeros) total
        0 s'

  -- The same of `main` of mod/web/src/main.c.
  abbrev pub web_table : Table SvrMgr
  web_table =
      let (ok, t) =
        reg_handler web_key_svr (inside whole (msgbox_web_svr init cfg cap num)) no_handlers in
      t

  unfoldable pub web_main : SvrMgr → Option SvrMgr
  unfolding start_from web_svr_num web_svr_get Clients.web_svr_set
  web_main s = web_svr_num (served web_table later) format_json now num s >>= λ (total, s').
      start_from (web_svr_get (served web_table later) format_json now cfg)
        (Clients.web_svr_set (served web_table later) format_json now cfg) (svr_with zeros) total 0
        s'
