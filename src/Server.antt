-- ===== src/Server.antt =====
-- The managers of the servers, of the same text in the rtsp and the web process:
-- mod/rtsp/src/interface/svr_mgr.c and mod/rtsp/src/msgbox/msgbox_rtsp.c, mod/web/src/interface/svr_mgr.c
-- and mod/web/src/msgbox/msgbox_http.c.
pub mod Slots
mod Tests
use freak.Prelude.{ℕ, Bool, List, [], ◌∷◌, Option, some, none, ◌==◌, if◌then◌else◌, get_elem?, set}
use freak.Proto.{◌>>=◌, ◌>>◌, check, Codec}
use freak.Proto.Types.{SvrCfg, SvrCap}
use freak.Msgbox.{Manager, Handler, serve}
use freak.Vsf.{Info}

-- A server that runs, by the arguments of `rtsp_server_init` or `http_server_init`.
pub record Running : Type 0 where
  pub ip : List ℕ
  pub port : ℕ

-- `rtsp_svr_mgr_priv_t`, `web_svr_mgr_priv_t`
pub record SvrMgr : Type 0 where
  pub server : List (Option Running)
  pub info : Info SvrCfg SvrCap

-- The slot after a `set`: the server is started on enable, if it does not run and `init` can start it,
-- or the assertion fails; it is stopped on disable.
unfoldable pub restart : (Running → Bool) → SvrCfg → Option Running → Option (Option Running)
restart init cfg server = if cfg.enable == 0 then some none else elim server [
  | some r ↦ some (some r)
  | none ↦
      (check (init (record { ip = cfg.ip; port = cfg.port }))
        >> some (some (record { ip = cfg.ip; port = cfg.port })))
]

-- `__rtsp_svr_set`, where `init` is `rtsp_server_init`
unfoldable pub rtsp_svr_set : (Running → Bool) → SvrCfg → SvrMgr → Option (ℕ × SvrMgr)
unfolding restart
rtsp_svr_set init cfg s = do
  server ← get_elem? s.server cfg.id
  server' ← restart init cfg server
  some (0, record s { server = set s.server cfg.id server' })

-- `__web_svr_set`, where `init` is `http_server_init`
unfoldable pub web_svr_set : (Running → Bool) → SvrCfg → SvrMgr → Option (ℕ × SvrMgr)
unfolding restart
web_svr_set init cfg s = do
  server ← get_elem? s.server cfg.id
  server' ← restart init cfg server
  some (0, record s { server = set s.server cfg.id server' })

-- `get`, `cap` and `num` of both
unfoldable pub svr_get : SvrCfg → SvrMgr → Option SvrCfg
svr_get cfg s = get_elem? s.info.cfgs cfg.id

unfoldable pub svr_cap : SvrCap → SvrMgr → Option SvrCap
svr_cap cap s = get_elem? s.info.caps cap.id

unfoldable pub svr_num : SvrMgr → ℕ
svr_num s = s.info.num

-- `cfg_get_member(server)->cfgs[cfg.id] = cfg` of `msgbox_svr_set`
unfoldable pub keep_svr_cfg : SvrCfg → SvrMgr → Option SvrMgr
keep_svr_cfg cfg s = get_elem? s.info.cfgs cfg.id >>= λ _.
    some (record s { info = record s.info { cfgs = set s.info.cfgs cfg.id cfg } })

-- `rtsp_createSvrMgr` and `web_createSvrMgr`: there is one server.
unfoldable pub create_svr_mgr : Info SvrCfg SvrCap → SvrMgr
create_svr_mgr info = record { server = none ∷ []; info = info }

module _ (set_cfg : SvrCfg → SvrMgr → Option (ℕ × SvrMgr)) where
  abbrev pub svr_manager : Manager SvrMgr SvrCfg SvrCap
  svr_manager = record {
    set_cfg = set_cfg;
    get_cfg = svr_get;
    get_cap = svr_cap;
    get_num = svr_num;
    trigger = λ cfg s. none;
    keep_cfg = keep_svr_cfg;
  }

module _ (init : Running → Bool) (cfg : Codec SvrCfg) (cap : Codec SvrCap) (num : Codec ℕ) where
  -- `msgbox_rtsp_svr`
  abbrev pub msgbox_rtsp_svr : Handler SvrMgr
  msgbox_rtsp_svr = serve (svr_manager (rtsp_svr_set init)) cfg cap num

  -- `msgbox_web_svr`
  abbrev pub msgbox_web_svr : Handler SvrMgr
  msgbox_web_svr = serve (svr_manager (web_svr_set init)) cfg cap num
