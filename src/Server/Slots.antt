-- ===== src/Server/Slots.antt =====
-- Which server runs, and at which address.
use freak.Prelude.{
  ℕ, ◌≡◌, ◌≢◌, ◌⊎◌, [], ◌∷◌, refl, sym, ap, ◌∙◌, Bool, true, Option, some, none, get_elem?, set,
  arith, get_elem?-set_at, get_elem?-set_ne, Option-cases, inl, inr,
}
use freak.Proto.{Codec, IsCodec, encode, action_set}
use freak.Proto.Types.{SvrCfg, SvrCap}
use freak.Msgbox.Serve.{handled, param_of, serve-set}
use freak.Server.{
  SvrMgr, Running, restart, rtsp_svr_set, web_svr_set, svr_get, keep_svr_cfg, svr_manager,
  msgbox_rtsp_svr,
}

-- The arguments that a configuration gives to the start of its server.
abbrev pub address : SvrCfg → Running
address cfg = record { ip = cfg.ip; port = cfg.port }

module _ (init : Running → Bool) where
  restart_lem :
      (cfg : SvrCfg) (old new : Option Running)
      → restart init cfg old ≡ some new
      → ((cfg.enable ≡ 0) × (new ≡ none))
        ⊎ ((cfg.enable ≢ 0)
            × (r : Running) × (new ≡ some r)
            × ((old ≡ some r) ⊎ ((old ≡ none) × (r ≡ address cfg) × (init r ≡ true))))
  unfolding restart
  restart_lem cfg (some r) new h = ground arith
  restart_lem cfg none new h = ground arith

  -- A set of a server's manager that succeeds stops the server on disable; on enable it keeps
  -- one that runs and otherwise starts one at the address of the configuration. It touches no
  -- other slot and no configuration, and the web process does the same as the rtsp process.
  pub rtsp_svr_set_lem :
      (cfg : SvrCfg) (s s' : SvrMgr) (ret : ℕ)
      → rtsp_svr_set init cfg s ≡ some (ret, s')
      → (old : Option Running) × (new : Option Running) × (get_elem? s.server cfg.id ≡ some old)
        × (get_elem? s'.server cfg.id ≡ some new)
        × (((cfg.enable ≡ 0) × (new ≡ none))
            ⊎ ((cfg.enable ≢ 0)
                × (r : Running) × (new ≡ some r)
                × ((old ≡ some r) ⊎ ((old ≡ none) × (r ≡ address cfg) × (init r ≡ true)))))
        × ((j : ℕ) → cfg.id ≢ j → get_elem? s'.server j ≡ get_elem? s.server j)
        × (s'.info ≡ s.info)
        × (web_svr_set init cfg s ≡ some (ret, s'))
  unfolding rtsp_svr_set web_svr_set
  rtsp_svr_set_lem cfg s s' ret h = elim (Option-cases (get_elem? s.server cfg.id)) [
    | inl e ↦ absurd (ground arith)
    | inr (old, e) ↦ elim (Option-cases (restart init cfg old)) [
      | inl f ↦ absurd (ground arith)
      | inr (new, f) ↦
          (let d : s' ≡ record s { server = set s.server cfg.id new } = ground arith in
            (
              old,
              new,
              e,
              ap (λ x. get_elem? x.server cfg.id) d ∙ get_elem?-set_at s.server cfg.id old new e,
              restart_lem cfg old new f,
              λ j ne. ap (λ x. get_elem? x.server j) d ∙ get_elem?-set_ne s.server new ne,
              ap (λ x. x.info) d,
              h,
            ))
    ]
  ]

module _ (init : Running → Bool) (codec : Codec SvrCfg) (cap : Codec SvrCap) (num : Codec ℕ)
    {Fits : SvrCfg → Type 0} (l : IsCodec codec Fits) (chn format : ℕ) where
  -- The process after a `set` that leaves `new` in the slot.
  abbrev stored : SvrCfg → SvrMgr → Option Running → SvrMgr
  stored x s new = record s {
    server = set s.server x.id new;
    info = record s.info { cfgs = set s.info.cfgs x.id x };
  }

  set_message :
      (x : SvrCfg) (s : SvrMgr) (o new : Option Running) (old : SvrCfg)
      → Fits x
      → get_elem? s.server x.id ≡ some o
      → restart init x o ≡ some new
      → get_elem? s.info.cfgs x.id ≡ some old
      → msgbox_rtsp_svr init codec cap num (param_of codec action_set chn format x) s
        ≡ some (0, encode codec format x, stored x s new)
  unfolding rtsp_svr_set keep_svr_cfg
  set_message x s o new old fits a b c =
      serve-set (svr_manager (rtsp_svr_set init)) codec cap num l chn format x s
        (record s { server = set s.server x.id new }) (stored x s new) fits (rw a (rw b refl))
        (rw c refl)

  restart_run : (x : SvrCfg) (r : Running) → x.enable ≢ 0 → restart init x (some r) ≡ some (some r)
  unfolding restart
  restart_run x r e = ground arith

  restart_start :
      (x : SvrCfg)
      → x.enable ≢ 0
      → init (address x) ≡ true
      → restart init x none ≡ some (some (address x))
  unfolding restart
  restart_start x e c = ground arith

  -- When two messages in turn enable a server that does not run, with different addresses
  -- perhaps, it runs at the first address while the manager reports the second configuration.
  -- The id is in range, the server can be started at the first address, and the values fit the C
  -- structure.
  pub address_kept :
      (x y old : SvrCfg) (s : SvrMgr)
      → Fits x
      → Fits y
      → get_elem? s.server x.id ≡ some none
      → get_elem? s.info.cfgs x.id ≡ some old
      → init (address x) ≡ true
      → x.enable ≢ 0
      → y.enable ≢ 0
      → y.id ≡ x.id
      → (s' : SvrMgr) × (handled
            (msgbox_rtsp_svr init codec cap num)
            (param_of codec action_set chn format x ∷ param_of codec action_set chn format y ∷ [])
            s
          ≡ some s')
        × (get_elem? s'.server x.id ≡ some (some (address x)))
        × (svr_get x s' ≡ some y)
  unfolding handled svr_get
  address_kept x y old s fx fy a b c d e f =
      let s1 = stored x s (some (address x)) in
      let a1 : get_elem? s1.server x.id ≡ some (some (address x)) =
        get_elem?-set_at s.server x.id none (some (address x)) a in
      let b1 : get_elem? s1.info.cfgs x.id ≡ some x = get_elem?-set_at s.info.cfgs x.id old x b in
      let s2 = stored y s1 (some (address x)) in
      let m1 = set_message x s none (some (address x)) old fx a (restart_start x d c) b in
      let a2 = ap (get_elem? s1.server) f ∙ a1 in
      let b2 = ap (get_elem? s1.info.cfgs) f ∙ b1 in
      let m2 =
        set_message y s1 (some (address x)) (some (address x)) x fy a2 (restart_run y (address x) e)
          b2 in
      let a3 = get_elem?-set_at s1.server y.id (some (address x)) (some (address x)) a2 in
      let b3 = get_elem?-set_at s1.info.cfgs y.id x y b2 in
      (
        s2,
        rw m1 (rw m2 refl),
        ap (get_elem? s2.server) (sym f) ∙ a3,
        ap (get_elem? s2.info.cfgs) (sym f) ∙ b3,
      )
