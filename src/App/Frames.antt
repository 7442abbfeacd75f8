-- ===== src/App/Frames.antt =====
-- An algorithm's frames, started in the vsf process by message.
use freak.Prelude.{ℕ, ◌≡◌, ap, ◌∙◌, sym, true, Bool, Option, some, get_elem?}
use freak.Proto.{Codec, IsCodec, vsf_key_frame, action_get, action_cap}
use freak.Proto.Types.{FrameCfg, FrameCap}
use freak.Proto.Clients.{frame_cap, frame_get}
use freak.Msgbox.{Table}
use freak.Msgbox.Serve.{served, request-served, serve-get, serve-cap}
use freak.Vsf.{Mfifo}
use freak.Vsf.Frame.{FrameMgr, Vpss, vsf_frame_get, vsf_frame_cap, frame_manager, msgbox_vsf_frame}
use freak.Vsf.Frame.Callbacks.{frame_ring}
use freak.Vsf.Frame.Remote.{frame_set_get}
use freak.App.{start_frames, wanted, frame_cap_of, frame_cfg_of}

module _ (create : Mfifo → Bool) (vpss : ℕ → Option Vpss) (codec : Codec FrameCfg)
    (cap_codec : Codec FrameCap) (num : Codec ℕ) {Fits : FrameCfg → Type 0}
    {CapFits : FrameCap → Type 0} (l : IsCodec codec Fits) (lc : IsCodec cap_codec CapFits)
    (t : Table FrameMgr) (format now later : ℕ) (attach : ℕ → ℕ → Bool) (has_face : Bool) where
  -- When the app process starts the frames of an algorithm by messages to the vsf process, it
  -- learns the place of their ring and the answer is the stored configuration with the
  -- algorithm's format, size and rate, enabled; a later get from the vsf process answers with
  -- the same. The conditions: the vsf process serves the frames' key, the frame is in range of
  -- its tables, whose configuration has the same id, the ring can be created, and the values fit
  -- the C structures.
  pub start_frames_lem :
      (frame : ℕ) (s : FrameMgr) (place : FrameCap) (fifo : Option Mfifo) (old : FrameCfg)
      → CapFits (frame_cap_of frame)
      → CapFits place
      → Fits (frame_cfg_of frame)
      → Fits old
      → Fits (wanted old)
      → get_elem? t vsf_key_frame ≡ some (some (msgbox_vsf_frame create vpss codec cap_codec num))
      → get_elem? s.info.caps frame ≡ some place
      → get_elem? s.fifo frame ≡ some fifo
      → get_elem? s.info.cfgs frame ≡ some old
      → old.id ≡ frame
      → create (frame_ring place.chn place.subchn) ≡ true
      → (s' : FrameMgr) × (start_frames
            (served t later)
            cap_codec
            codec
            format
            now
            attach
            has_face
            frame
            s
          ≡ some (place, wanted old, s'))
        × (frame_get (served t later) format now codec (frame_cfg_of frame) s'
            ≡ some (wanted old, s'))
  unfolding start_frames frame_cap frame_get vsf_frame_get vsf_frame_cap
  start_frames_lem frame s place fifo old fc fp ff fo fw e a b c i d =
      let h = msgbox_vsf_frame create vpss codec cap_codec num in
      let m = frame_manager create vpss in
      let capped =
        request-served cap_codec lc t h vsf_key_frame action_cap frame format now later
          (frame_cap_of frame) place s s fp e
          (serve-cap m codec cap_codec num lc frame format (frame_cap_of frame) place s fc a) in
      let got =
        request-served codec l t h vsf_key_frame action_get frame format now later
          (frame_cfg_of frame) old s s fo e
          (serve-get m codec cap_codec num l frame format (frame_cfg_of frame) old s ff c) in
      let (s', set_ok, get_ok) =
        frame_set_get create vpss codec cap_codec num l t format now later (wanted old)
          (frame_cfg_of frame) s place fifo old fw ff e (ap (get_elem? s.info.caps) i ∙ a)
          (ap (get_elem? s.fifo) i ∙ b) (ap (get_elem? s.info.cfgs) i ∙ c) d (sym i) in
      (s', simp (capped, got, set_ok), get_ok)
