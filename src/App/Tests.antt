-- ===== src/App/Tests.antt =====
-- The theorems on the algorithm manager at concrete states.
use freak.Prelude.{
  ℕ, ◌≡◌, refl, true, false, Bool, List, [], ◌∷◌, ◌++◌, Option, some, none, map, take, drop,
  replicate, ltb, if◌then◌else◌, arith,
}
use freak.Proto.Types.{FrameCfg, FrameCap, AlgCfg}
use freak.Proto.Samples.{
  frame_codec, frame_cap_codec, number, frame_codec-IsCodec, frame_cap_codec-IsCodec,
}
use freak.Proto.Clients.{frame_get}
use freak.Msgbox.{Table}
use freak.Msgbox.Serve.{served}
use freak.Vsf.{Mfifo, Info}
use freak.Vsf.Frame.{FrameMgr, Vpss, vsf_create_frame_mgr, msgbox_vsf_frame}
use freak.App.{AlgMgr, start_frames, wanted, frame_cfg_of, Found, boxed, no_box, app_alg_result}
use freak.App.Frames.{start_frames_lem}
use freak.App.Objects.{app_alg_result_lem}

abbrev create : Mfifo → Bool
create f = true

abbrev vpss : ℕ → Option Vpss
vpss chn = some (record { has_ctrl = true; has_regcallback = true })

abbrev stored : FrameCfg
stored = record { id = 1; enable = 0; format = 3; width = 320; height = 240; fps = 5 }

abbrev info : Info FrameCfg FrameCap
info = record {
  caps = record { id = 0; chn = 0; subchn = 1 } ∷ record { id = 1; chn = 0; subchn = 2 } ∷ [];
  cfgs = record stored { id = 0 } ∷ stored ∷ [];
  num = 2;
}

abbrev table : Table FrameMgr
table =
    none
    ∷ some (msgbox_vsf_frame create vpss frame_codec frame_cap_codec number)
    ∷ none
    ∷ none
    ∷ none
    ∷ none
    ∷ none
    ∷ []

abbrev there : ℕ → ℕ → Bool
there chn subchn = true

start_frames_lem_example :
    (s' : FrameMgr) × (start_frames
        (served table 9)
        frame_cap_codec
        frame_codec
        1
        8
        there
        false
        1
        (vsf_create_frame_mgr info)
      ≡ some (record { id = 1; chn = 0; subchn = 2 }, wanted stored, s'))
    × (frame_get (served table 9) 1 8 frame_codec (frame_cfg_of 1) s' ≡ some (wanted stored, s'))
unfolding vsf_create_frame_mgr
start_frames_lem_example =
    start_frames_lem create vpss frame_codec frame_cap_codec number frame_codec-IsCodec
      frame_cap_codec-IsCodec table 1 8 9 there false 1 (vsf_create_frame_mgr info)
      (record { id = 1; chn = 0; subchn = 2 }) none stored (refl, refl) (refl, refl) (refl, refl)
      (refl, refl) (refl, refl) refl refl refl refl refl refl

-- The state of the vsf process when the frames are started, and that it is.
frames_started :
    (s' : FrameMgr) × (start_frames
        (served table 9)
        frame_cap_codec
        frame_codec
        1
        8
        there
        false
        1
        (vsf_create_frame_mgr info)
      ≡ some (record { id = 1; chn = 0; subchn = 2 }, wanted stored, s'))
    × (frame_get (served table 9) 1 8 frame_codec (frame_cfg_of 1) s' ≡ some (wanted stored, s'))
unfolding vsf_create_frame_mgr
frames_started =
    start_frames_lem create vpss frame_codec frame_cap_codec number frame_codec-IsCodec
      frame_cap_codec-IsCodec table 1 8 9 there false 1 (vsf_create_frame_mgr info)
      (record { id = 1; chn = 0; subchn = 2 }) none stored (refl, refl) (refl, refl) (refl, refl)
      (refl, refl) (refl, refl) refl refl refl refl refl refl

abbrev face_on : AlgCfg
face_on = record { id = 1; type = 0; enable = 1; algpath = 47 ∷ [] }

-- No algorithm runs; the second has the frames of the second place.
abbrev idle_mgr : AlgMgr
idle_mgr = record {
  fifos = replicate 3 none;
  osds = replicate 3 none;
  bufs = replicate 3 (record { data_at = none; size = 0 });
  info = record {
    caps = record { id = 0; frame = 0 } ∷ record { id = 1; frame = 1 } ∷ [];
    cfgs = [];
    num = 2;
  };
  heap = record { next = 1; live = 0 ∷ []; newest = [] };
  face = [];
}

abbrev started : FrameMgr
started = frames_started.0

abbrev faces : List Found
faces = replicate 17 (record { id = 3; rect = record { x = 1; y = 2; w = 30; h = 40 } })

app_alg_result_lem_example : app_alg_result 17 faces ≡ (
    if ltb 16 17
    then none
    else some (17, map boxed (take 17 faces) ++ drop 17 (replicate 16 no_box)))
app_alg_result_lem_example = app_alg_result_lem 17 faces (omega arith)
