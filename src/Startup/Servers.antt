-- ===== src/Startup/Servers.antt =====
-- The main functions of the rtsp and the web process.
use freak.Prelude.{
  ℕ, zero, suc, ◌≡◌, ◌<◌, refl, ap, ◌∙◌, sym, subst, Bool, true, List, [], ◌∷◌, Option, some, none,
  ◌==◌, if◌then◌else◌, get_elem?, set, arith,
}
use freak.Proto.{Codec, IsCodec, rtsp_key_svr, web_key_svr}
use freak.Proto.Types.{SvrCfg, SvrCap}
use freak.Proto.Clients
use freak.Proto.Clients.{rtsp_svr_num, rtsp_svr_get, web_svr_num, web_svr_get}
use freak.Msgbox.{reg_handler}
use freak.Vsf.{Info}
use freak.Server
use freak.Server.{
  SvrMgr, Running, restart, svr_manager, svr_get, svr_num, keep_svr_cfg, create_svr_mgr,
  msgbox_rtsp_svr, msgbox_web_svr,
}
use freak.Server.Slots.{address}
use freak.Startup.{whole, svr_with, rtsp_main, web_main, rtsp_table, web_table}
use freak.Startup.Loop.{IsPart, ManagerTurn, loop_of_lem}
use freak.Startup.Slots.{slot, slot_next, AreSlots, AreSlots-zero, set_same, set-AreSlots}
use freak.Startup.Video.{Stored}

-- The server that a stored configuration asks for.
abbrev pub server_of : SvrCfg → Option Running
server_of x = if x.enable == 0 then none else some (address x)

abbrev pub server_at : Info SvrCfg SvrCap → ℕ → Option Running
server_at info i = elim (get_elem? info.cfgs i) [ none ↦ none | some x ↦ server_of x ]

-- The manager when the ids below `i` are set.
abbrev pub ServersStarted : Info SvrCfg SvrCap → ℕ → SvrMgr → Type 0
ServersStarted info i s = (s.info ≡ info) × AreSlots (server_at info) 1 i s.server

whole-IsPart : {S : Type 0} → IsPart (whole {S = S})
whole-IsPart = record { view-put = λ x s. refl; put-view = λ s. refl; put-put = λ x y s. refl }

one_slot : (j : ℕ) → j < 1 → get_elem? {A = Option Running} (none ∷ []) j ≡ some none
one_slot zero h = refl
one_slot j h = ground arith

server_at_is :
    (info : Info SvrCfg SvrCap) (x : SvrCfg)
    → get_elem? info.cfgs x.id ≡ some x
    → server_at info x.id ≡ server_of x
server_at_is info x h = simp (server_at, h) refl

-- What the loop needs of a stored configuration.
abbrev pub SvrOk : (Running → Bool) → (SvrCfg → Type 0) → List ℕ → ℕ → SvrCfg → SvrCap → Type 0
SvrOk init Fits zeros i x c =
    (x.id ≡ i) × (init (address x) ≡ true) × Fits x × Fits (svr_with zeros i)

module _ (init : Running → Bool) (cfg : Codec SvrCfg) (cap : Codec SvrCap) (num : Codec ℕ)
    (zeros : List ℕ) (now later : ℕ) {Fits : SvrCfg → Type 0} {NumFits : ℕ → Type 0}
    (l : IsCodec cfg Fits) (ln : IsCodec num NumFits) where
  restart_stopped :
      (x : SvrCfg) → init (address x) ≡ true → restart init x none ≡ some (server_of x)
  unfolding restart
  restart_stopped x h = ground arith

  created : (info : Info SvrCfg SvrCap) → ServersStarted info 0 (create_svr_mgr info)
  unfolding create_svr_mgr
  created info = (refl, AreSlots-zero (server_at info) 1 (create_svr_mgr info).server one_slot)

  rtsp_turn :
      (info : Info SvrCfg SvrCap)
      → Stored (SvrOk init Fits zeros) 1 info
      → ManagerTurn
          (svr_manager (Server.rtsp_svr_set init))
          Fits
          (svr_with zeros)
          info.num
          (ServersStarted info)
  unfolding svr_get Server.rtsp_svr_set keep_svr_cfg
  rtsp_turn info ok i s lt (e, v) =
      let (x, c, a, b, (same, started, fx, fw)) = ok.each i lt in
      let here = ap (get_elem? info.cfgs) same ∙ a in
      let few : x.id < 1 = omega (arith, ok.few) in
      (
        x,
        record s { server = set s.server x.id (server_at info x.id) },
        record s {
          server = set s.server x.id (server_at info x.id);
          info = record s.info { cfgs = set s.info.cfgs x.id x };
        },
        fw,
        fx,
        ap (λ r. get_elem? r.cfgs i) e ∙ a,
        rw
            (
              v x.id few,
              subst (λ k. slot (server_at info) k x.id ≡ none) same
                  (slot_next (server_at info) x.id),
              restart_stopped x started,
              server_at_is info x here,
            )
            refl,
        rw (e, here) refl,
        (
          rw (e, set_same info.cfgs x.id x here) refl,
          subst (λ k. AreSlots (server_at info) 1 (suc k) (set s.server x.id (server_at info x.id)))
              same
              (set-AreSlots (server_at info) 1 x.id s.server few
                (subst (λ k. AreSlots (server_at info) 1 k s.server) (sym same) v)),
        ),
      )

  web_turn :
      (info : Info SvrCfg SvrCap)
      → Stored (SvrOk init Fits zeros) 1 info
      → ManagerTurn
          (svr_manager (Server.web_svr_set init))
          Fits
          (svr_with zeros)
          info.num
          (ServersStarted info)
  unfolding svr_get Server.web_svr_set keep_svr_cfg
  web_turn info ok i s lt (e, v) =
      let (x, c, a, b, (same, started, fx, fw)) = ok.each i lt in
      let here = ap (get_elem? info.cfgs) same ∙ a in
      let few : x.id < 1 = omega (arith, ok.few) in
      (
        x,
        record s { server = set s.server x.id (server_at info x.id) },
        record s {
          server = set s.server x.id (server_at info x.id);
          info = record s.info { cfgs = set s.info.cfgs x.id x };
        },
        fw,
        fx,
        ap (λ r. get_elem? r.cfgs i) e ∙ a,
        rw
            (
              v x.id few,
              subst (λ k. slot (server_at info) k x.id ≡ none) same
                  (slot_next (server_at info) x.id),
              restart_stopped x started,
              server_at_is info x here,
            )
            refl,
        rw (e, here) refl,
        (
          rw (e, set_same info.cfgs x.id x here) refl,
          subst (λ k. AreSlots (server_at info) 1 (suc k) (set s.server x.id (server_at info x.id)))
              same
              (set-AreSlots (server_at info) 1 x.id s.server few
                (subst (λ k. AreSlots (server_at info) 1 k s.server) (sym same) v)),
        ),
      )

  rtsp_started :
      (info : Info SvrCfg SvrCap)
      → Stored (SvrOk init Fits zeros) 1 info
      → NumFits 0
      → NumFits info.num
      → (s' : SvrMgr) × (rtsp_main init cfg cap num zeros now later (create_svr_mgr info) ≡ some s')
        × ServersStarted info info.num s'
  unfolding rtsp_main Clients.rtsp_svr_set rtsp_svr_get rtsp_svr_num reg_handler svr_num
      create_svr_mgr
  rtsp_started info ok f0 fits =
      loop_of_lem whole whole-IsPart (svr_manager (Server.rtsp_svr_set init)) cfg cap num l ln
        (rtsp_table init cfg cap num zeros now later) (msgbox_rtsp_svr init cfg cap num)
        rtsp_key_svr now later (λ x. x.id) (svr_with zeros) info.num (ServersStarted info) refl
        (λ p s h. refl) (rtsp_turn info ok) (create_svr_mgr info) refl (omega (arith, ok.few)) f0
        fits (created info)

  web_started :
      (info : Info SvrCfg SvrCap)
      → Stored (SvrOk init Fits zeros) 1 info
      → NumFits 0
      → NumFits info.num
      → (s' : SvrMgr) × (web_main init cfg cap num zeros now later (create_svr_mgr info) ≡ some s')
        × ServersStarted info info.num s'
  unfolding web_main Clients.web_svr_set web_svr_get web_svr_num reg_handler svr_num create_svr_mgr
  web_started info ok f0 fits =
      loop_of_lem whole whole-IsPart (svr_manager (Server.web_svr_set init)) cfg cap num l ln
        (web_table init cfg cap num zeros now later) (msgbox_web_svr init cfg cap num) web_key_svr
        now later (λ x. x.id) (svr_with zeros) info.num (ServersStarted info) refl (λ p s h. refl)
        (web_turn info ok) (create_svr_mgr info) refl (omega (arith, ok.few)) f0 fits (created info)

  -- The start of the rtsp process and that of the web process come to their end: every message
  -- of the loop is answered, then the server runs at the stored address if its configuration
  -- enables it and does not run otherwise, and the stored configuration is as it was. The
  -- conditions: there is at most one server, its entry has its own id, the server can be
  -- started, and the values fit the C structure.
  pub main_servers_lem :
      (info : Info SvrCfg SvrCap)
      → Stored (SvrOk init Fits zeros) 1 info
      → NumFits 0
      → NumFits info.num
      → ((s' : SvrMgr) × (rtsp_main init cfg cap num zeros now later (create_svr_mgr info)
            ≡ some s')
          × ServersStarted info info.num s')
        × ((s' : SvrMgr) × (web_main init cfg cap num zeros now later (create_svr_mgr info)
              ≡ some s')
            × ServersStarted info info.num s')
  main_servers_lem info ok f0 fits = (rtsp_started info ok f0 fits, web_started info ok f0 fits)
