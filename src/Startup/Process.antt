-- ===== src/Startup/Process.antt =====
-- The main function of the vsf process.
use freak.Prelude.{
  ℕ, suc, ◌≡◌, refl, ap, ◌∙◌, sym, subst, Bool, List, Option, some, get_elem?, set, arith,
}
use freak.Proto.{Codec, IsCodec, vsf_key_frame, vsf_key_stream, vsf_key_osd}
use freak.Proto.Types.{FrameCfg, FrameCap, StreamCfg, StreamCap, OsdCfg, OsdCap}
use freak.Proto.Clients.{
  frame_num, frame_get, frame_set, stream_num, stream_get, stream_set, osd_num, osd_get, osd_set,
}
use freak.Msgbox.{reg_handler}
use freak.Vsf.{Info, Mfifo}
use freak.Vsf.Frame.{
  FrameMgr, Vpss, vsf_create_frame_mgr, frame_manager, vsf_frame_get, vsf_frame_num,
  msgbox_vsf_frame,
}
use freak.Vsf.Streams.{
  StreamMgr, vsf_create_stream_mgr, stream_manager, vsf_stream_get, vsf_stream_num,
  msgbox_vsf_stream,
}
use freak.Vsf.Osd.{
  OsdMgr, RgnCfg, osd_manager, vsf_create_osd_mgr, vsf_osd_get, vsf_osd_num, keep_osd_cfg,
  msgbox_vsf_osd,
}
use freak.Startup.{
  VsfProcess, frame_part, stream_part, osd_part, vsf_table, frame_with, stream_with, osd_with,
  start_frames_of, start_streams_of, start_osds_of, vsf_main,
}
use freak.Startup.Loop.{IsPart, ManagerTurn, loop_of_lem}
use freak.Startup.Overlays.{osd_serves, ctrl_total}
use freak.Startup.Slots.{set_same}
use freak.Startup.Video.{
  FrameOk, StreamOk, OsdOk, created_frames, created_streams, Stored, FramesStarted, StreamsStarted,
  frame_turn, stream_turn,
}

module _ (create : Mfifo → Bool) (vpss : ℕ → Option Vpss) (has_regcallback : ℕ → Bool)
    (rgn : ℕ → Option (RgnCfg → ℕ)) (fcfg : Codec FrameCfg) (fcap : Codec FrameCap)
    (scfg : Codec StreamCfg) (scap : Codec StreamCap) (ocfg : Codec OsdCfg) (ocap : Codec OsdCap)
    (num : Codec ℕ) (zeros : List ℕ) (now later : ℕ) {FrameFits : FrameCfg → Type 0}
    {StreamFits : StreamCfg → Type 0} {OsdFits : OsdCfg → Type 0} {NumFits : ℕ → Type 0}
    (lf : IsCodec fcfg FrameFits) (ls : IsCodec scfg StreamFits) (lo : IsCodec ocfg OsdFits)
    (ln : IsCodec num NumFits) (f0 : NumFits 0) where
  frame_part-IsPart : IsPart frame_part
  frame_part-IsPart = record {
    view-put = λ x s. refl;
    put-view = λ s. refl;
    put-put = λ x y s. refl;
  }

  frame_manager_turn :
      (fi : Info FrameCfg FrameCap)
      → Stored (FrameOk create FrameFits) 8 fi
      → ManagerTurn (frame_manager create vpss) FrameFits frame_with fi.num (FramesStarted fi)
  unfolding vsf_frame_get
  frame_manager_turn fi ok i s lt v =
      let (x, c, a, b, (same, made, fx, fw)) = ok.each i lt in
      let back = sym same in
      let (s1, s2, was, kept, w) =
        frame_turn create vpss fi x c (subst (λ k. get_elem? fi.cfgs k ≡ some x) back a)
          (subst (λ k. get_elem? fi.caps k ≡ some c) back b) made s (omega (arith, ok.few))
          (subst (λ k. FramesStarted fi k s) back v) in
      (
        x,
        s1,
        s2,
        fw,
        fx,
        ap (λ r. get_elem? r.cfgs i) (v.0) ∙ a,
        was,
        kept,
        subst (λ k. FramesStarted fi (suc k) s2) same w,
      )

  pub frames_loop :
      (fi : Info FrameCfg FrameCap) (s : VsfProcess)
      → Stored (FrameOk create FrameFits) 8 fi
      → NumFits fi.num
      → FramesStarted fi 0 s.frames
      → (x : FrameMgr) × (start_frames_of create vpss has_regcallback rgn fcfg fcap scfg scap ocfg
            ocap num zeros now later s
          ≡ some (record s { frames = x }))
        × FramesStarted fi fi.num x
  unfolding start_frames_of frame_num frame_get frame_set reg_handler vsf_frame_num
  frames_loop fi s ok fits v =
      loop_of_lem frame_part frame_part-IsPart (frame_manager create vpss) fcfg fcap num lf ln
        (vsf_table create vpss has_regcallback rgn fcfg fcap scfg scap ocfg ocap num zeros now
          later)
        (msgbox_vsf_frame create vpss fcfg fcap num) vsf_key_frame now later (λ c. c.id) frame_with
        fi.num (FramesStarted fi) refl (λ p s3 h. refl) (frame_manager_turn fi ok) s
        (ap (λ r. r.num) (v.0)) (omega (arith, ok.few)) f0 fits v

  stream_part-IsPart : IsPart stream_part
  stream_part-IsPart = record {
    view-put = λ x s. refl;
    put-view = λ s. refl;
    put-put = λ x y s. refl;
  }

  stream_manager_turn :
      (si : Info StreamCfg StreamCap)
      → Stored (StreamOk create StreamFits) 6 si
      → ManagerTurn
          (stream_manager create has_regcallback)
          StreamFits
          stream_with
          si.num
          (StreamsStarted si)
  unfolding vsf_stream_get
  stream_manager_turn si ok i s lt v =
      let (x, c, a, b, (same, made, fx, fw)) = ok.each i lt in
      let back = sym same in
      let (s1, s2, was, kept, w) =
        stream_turn create has_regcallback si x c (subst (λ k. get_elem? si.cfgs k ≡ some x) back a)
          (subst (λ k. get_elem? si.caps k ≡ some c) back b) made s (omega (arith, ok.few))
          (subst (λ k. StreamsStarted si k s) back v) in
      (
        x,
        s1,
        s2,
        fw,
        fx,
        ap (λ r. get_elem? r.cfgs i) (v.0) ∙ a,
        was,
        kept,
        subst (λ k. StreamsStarted si (suc k) s2) same w,
      )

  pub streams_loop :
      (si : Info StreamCfg StreamCap) (s : VsfProcess)
      → Stored (StreamOk create StreamFits) 6 si
      → NumFits si.num
      → StreamsStarted si 0 s.streams
      → (x : StreamMgr) × (start_streams_of create vpss has_regcallback rgn fcfg fcap scfg scap ocfg
            ocap num zeros now later s
          ≡ some (record s { streams = x }))
        × StreamsStarted si si.num x
  unfolding start_streams_of stream_num stream_get stream_set reg_handler vsf_stream_num
  streams_loop si s ok fits v =
      loop_of_lem stream_part stream_part-IsPart (stream_manager create has_regcallback) scfg scap
        num ls ln
        (vsf_table create vpss has_regcallback rgn fcfg fcap scfg scap ocfg ocap num zeros now
          later)
        (msgbox_vsf_stream create has_regcallback scfg scap num) vsf_key_stream now later
        (λ c. c.id) stream_with si.num (StreamsStarted si) refl (λ p s3 h. refl)
        (stream_manager_turn si ok) s (ap (λ r. r.num) (v.0)) (omega (arith, ok.few)) f0 fits v

  osd_part-IsPart : IsPart osd_part
  osd_part-IsPart = record { view-put = λ x s. refl; put-view = λ s. refl; put-put = λ x y s. refl }

  osd_manager_turn :
      (oi : Info OsdCfg OsdCap)
      → Stored (OsdOk OsdFits zeros) 16 oi
      → ((id : ℕ) (ctrl : RgnCfg → ℕ) (r : RgnCfg) → rgn id ≡ some ctrl → ctrl r ≡ 0)
      → ManagerTurn (osd_manager rgn) OsdFits (osd_with zeros) oi.num (λ k s. s.info ≡ oi)
  unfolding vsf_osd_get keep_osd_cfg
  osd_manager_turn oi ok zero_ctrl i s lt v =
      let (x, c, a, b, (same, fx, fw)) = ok.each i lt in
      let here = ap (get_elem? oi.cfgs) same ∙ a in
      let (s1, was, info) =
        ctrl_total rgn zero_ctrl x c s
          (ap (λ r. get_elem? r.caps x.id) v ∙ (ap (get_elem? oi.caps) same ∙ b)) in
      (
        x,
        s1,
        record s1 { info = record s1.info { cfgs = set s1.info.cfgs x.id x } },
        fw,
        fx,
        ap (λ r. get_elem? r.cfgs i) v ∙ a,
        was,
        rw (info, v, here) refl,
        rw (info, v, set_same oi.cfgs x.id x here) refl,
      )

  pub osds_loop :
      (oi : Info OsdCfg OsdCap) (s : VsfProcess)
      → Stored (OsdOk OsdFits zeros) 16 oi
      → ((id : ℕ) (ctrl : RgnCfg → ℕ) (r : RgnCfg) → rgn id ≡ some ctrl → ctrl r ≡ 0)
      → NumFits oi.num
      → s.osds.info ≡ oi
      → (x : OsdMgr) × (start_osds_of create vpss has_regcallback rgn fcfg fcap scfg scap ocfg ocap
            num zeros now later s
          ≡ some (record s { osds = x }))
        × (x.info ≡ oi)
  unfolding start_osds_of osd_num osd_get osd_set reg_handler vsf_osd_num
  osds_loop oi s ok zero_ctrl fits v =
      loop_of_lem osd_part osd_part-IsPart (osd_manager rgn) ocfg ocap num lo ln
        (vsf_table create vpss has_regcallback rgn fcfg fcap scfg scap ocfg ocap num zeros now
          later)
        (msgbox_vsf_osd rgn ocfg ocap num) vsf_key_osd now later (λ c. c.id) (osd_with zeros) oi.num
        (λ k s1. s1.info ≡ oi) refl (osd_serves (osd_manager rgn) ocfg ocap num)
        (osd_manager_turn oi ok zero_ctrl) s (ap (λ r. r.num) v) (omega (arith, ok.few)) f0 fits v

  created_osds : (oi : Info OsdCfg OsdCap) → (vsf_create_osd_mgr oi).info ≡ oi
  unfolding vsf_create_osd_mgr
  created_osds oi = refl

  -- The start of the vsf process comes to its end: its main function registers the handlers, and
  -- in its three loops every message to itself is answered. Then each frame and each stream has
  -- an open ring just when its stored configuration enables it, that of its place, all other
  -- slots are empty, and the stored configurations of frames, streams and overlays are as they
  -- were. The conditions: the tables have an entry with its own id for each id below the number,
  -- which is at most 8, 6 and 16; the rings can be created, the regions' controls return 0, and
  -- the values fit the C structures.
  pub vsf_main_lem :
      (fi : Info FrameCfg FrameCap) (si : Info StreamCfg StreamCap) (oi : Info OsdCfg OsdCap)
      → Stored (FrameOk create FrameFits) 8 fi
      → Stored (StreamOk create StreamFits) 6 si
      → Stored (OsdOk OsdFits zeros) 16 oi
      → ((id : ℕ) (ctrl : RgnCfg → ℕ) (r : RgnCfg) → rgn id ≡ some ctrl → ctrl r ≡ 0)
      → NumFits fi.num
      → NumFits si.num
      → NumFits oi.num
      → (s' : VsfProcess) × (vsf_main create vpss has_regcallback rgn fcfg fcap scfg scap ocfg ocap
            num zeros now later
            (record {
              frames = vsf_create_frame_mgr fi;
              streams = vsf_create_stream_mgr si;
              osds = vsf_create_osd_mgr oi;
            })
          ≡ some s')
        × FramesStarted fi fi.num s'.frames
        × StreamsStarted si si.num s'.streams
        × (s'.osds.info ≡ oi)
  unfolding vsf_main
  vsf_main_lem fi si oi fs ss os zero_ctrl ff sf of =
      let s0 : VsfProcess = record {
        frames = vsf_create_frame_mgr fi;
        streams = vsf_create_stream_mgr si;
        osds = vsf_create_osd_mgr oi;
      } in
      let (x, a, v) = frames_loop fi s0 fs ff (created_frames fi) in
      let (y, b, w) = streams_loop si (record s0 { frames = x }) ss sf (created_streams si) in
      let (z, c, e) =
        osds_loop oi (record s0 { frames = x; streams = y }) os zero_ctrl of (created_osds oi) in
      (record { frames = x; streams = y; osds = z }, rw a (rw b c), v, w, e)
