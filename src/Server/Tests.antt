-- ===== src/Server/Tests.antt =====
-- Runs of the servers' manager.
use freak.Prelude.{◌≡◌, refl, arith, [], ◌∷◌, Bool, true, some, none, get_elem?}
use freak.Proto.{action_set}
use freak.Proto.Types.{SvrCfg}
use freak.Proto.Samples.{number, svr_codec, svr_cap_codec, svr_codec-IsCodec}
use freak.Msgbox.Serve.{handled, param_of}
use freak.Server.{SvrMgr, Running, rtsp_svr_set, svr_get, create_svr_mgr, msgbox_rtsp_svr}
use freak.Server.Slots.{address, address_kept}

abbrev init : Running → Bool
init r = true

abbrev at_1234 : SvrCfg
at_1234 = record { id = 0; enable = 1; ip = 0 ∷ []; port = 1234 }

abbrev at_554 : SvrCfg
at_554 = record { id = 0; enable = 1; ip = 0 ∷ []; port = 554 }

abbrev fresh : SvrMgr
fresh =
    create_svr_mgr
      (record { caps = record { id = 0; dummy = 0 } ∷ []; cfgs = at_1234 ∷ []; num = 1 })

abbrev running : SvrMgr
running = elim (rtsp_svr_set init at_1234 fresh) [ some (ret, s) ↦ s | none ↦ fresh ]

-- The server is asked to move from port 1234 to port 554.
address_kept_example :
    (s' : SvrMgr) × (handled
        (msgbox_rtsp_svr init svr_codec svr_cap_codec number)
        (param_of svr_codec action_set 0 0 at_1234 ∷ param_of svr_codec action_set 0 0 at_554 ∷ [])
        fresh
      ≡ some s')
    × (get_elem? s'.server 0 ≡ some (some (address at_1234)))
    × (svr_get at_1234 s' ≡ some at_554)
unfolding create_svr_mgr
address_kept_example =
    address_kept init svr_codec svr_cap_codec number svr_codec-IsCodec 0 0 at_1234 at_554 at_1234
      fresh (refl, refl) (refl, refl) refl refl refl (λ e. omega (arith, e)) (λ e. omega (arith, e))
      refl
