-- ===== src/Vsf/Frame/Tests.antt =====
-- Runs of the frame manager.
use freak.Prelude.{ℕ, ◌≡◌, refl, List, [], ◌∷◌, Bool, true, Option, some, none, ◌==◌}
use freak.Proto.Types.{FrameCfg, FrameCap}
use freak.Proto.{action_set, decode, encode}
use freak.Proto.Clients.{frame_set, frame_get}
use freak.Proto.Samples.{number, frame_codec, frame_cap_codec, frame_codec-IsCodec}
use freak.Msgbox.{serve, Table, Param}
use freak.Msgbox.Serve.{served, handled, param_of}
use freak.Media.{Frame}
use freak.Vsf.{Info, Mfifo}
use freak.Vsf.Frame.{
  keep_frame_cfg, FrameMgr, Vpss, vsf_frame_set, vsf_get_frame_proc, set_ring, msgbox_vsf_frame,
  vsf_create_frame_mgr,
}
use freak.Vsf.Frame.Callbacks.{callback_of, frame_callback_lem}
use freak.Vsf.Frame.Remote.{frame_set_get}

abbrev create : Mfifo → Bool
create f = true

abbrev vpss : ℕ → Option Vpss
vpss chn = some (record { has_ctrl = true; has_regcallback = true })

abbrev off : FrameCfg
off = record { id = 1; enable = 0; format = 3; width = 640; height = 640; fps = 5 }

abbrev on : FrameCfg
on = record { id = 1; enable = 1; format = 3; width = 320; height = 240; fps = 5 }

-- Two places, as in the defaults of the process.
abbrev info : Info FrameCfg FrameCap
info = record {
  caps = record { id = 0; chn = 0; subchn = 1 } ∷ record { id = 1; chn = 0; subchn = 2 } ∷ [];
  cfgs = record off { id = 0 } ∷ off ∷ [];
  num = 2;
}

abbrev table : Table FrameMgr
table =
    none
    ∷ some (msgbox_vsf_frame create vpss frame_codec frame_cap_codec number)
    ∷ none
    ∷ none
    ∷ none
    ∷ none
    ∷ none
    ∷ []

frame_set_get_example :
    (s' : FrameMgr) × (frame_set (served table 9) 1 8 frame_codec on (vsf_create_frame_mgr info)
      ≡ some (on, s'))
    × (frame_get (served table 9) 1 8 frame_codec off s' ≡ some (on, s'))
unfolding vsf_create_frame_mgr
frame_set_get_example =
    frame_set_get create vpss frame_codec frame_cap_codec number frame_codec-IsCodec table 1 8 9 on
      off (vsf_create_frame_mgr info) (record { id = 1; chn = 0; subchn = 2 }) none off (refl, refl)
      (refl, refl) refl refl refl refl refl refl

-- What `set` on the fresh manager gives.
abbrev opened : FrameMgr
opened = elim (vsf_frame_set create vpss on (vsf_create_frame_mgr info)) [
  | some (ret, s) ↦ s
  | none ↦ vsf_create_frame_mgr info
]

abbrev set_on : List Param
set_on = param_of frame_codec action_set 1 0 on ∷ []

abbrev after : FrameMgr
after =
    elim (handled (msgbox_vsf_frame create vpss frame_codec frame_cap_codec number) set_on
      (vsf_create_frame_mgr info)) [ some s ↦ s | none ↦ vsf_create_frame_mgr info ]

abbrev picture : Frame
picture = record { image = []; header_vir_addr = 0; ext_vir_addr = 6; mapped = [] }

frame_callback_lem_example :
    (vsf_get_frame_proc (λ f p n. n) 1 picture after ≡ some (246 == 246))
    × (s1 : FrameMgr) × (set_ring create (record off { id = 1; enable = 0 }) after ≡ some s1)
    × (callback_of s1.calls 0 2 ≡ some 1)
    × (vsf_get_frame_proc (λ f p n. n) 1 picture s1 ≡ none)
unfolding vsf_create_frame_mgr vsf_frame_set handled callback_of serve decode encode keep_frame_cfg
frame_callback_lem_example =
    frame_callback_lem create vpss frame_codec frame_cap_codec number info set_on after 0 2 1
      (λ f p n. n) picture off refl refl
