-- ===== src/Bsp.antt =====
-- The board process: mod/bsp/src/hal/dummy.c and mod/bsp/src/msgbox/msgbox_dummy.c.
mod Remote
mod Tests
use freak.Prelude.{
  ℕ, leb, ltb, Bool, true, false, List, [], ◌∷◌, Option, some, none, ◌==◌, if◌then◌else◌, get_elem?,
  set,
}
use freak.Proto.{
  ◌>>=◌, ◌>>◌, check, Codec, encode, decode, action_set, action_get, action_cap, action_num,
}
use freak.Proto.Types.{DummyCfg, DummyCap}
use freak.Msgbox.{Handler}
use freak.Vsf.{Info}

-- The objects of `s_dummy_obj` that exist, and the configuration, to which each of them points.
pub record Board : Type 0 where
  pub objs : List Bool
  pub info : Info DummyCfg DummyCap

-- `bsp_createDummy` with the assertion of its callers: an id from `num` on is refused; else the object
-- is made or found. `num` is not negative.
pub create_dummy : ℕ → Board → Option Board
create_dummy id s =
    if leb s.info.num id
    then none
    else (get_elem? s.objs id >>= λ _. some (record s { objs = set s.objs id true }))

-- `__bsp_dummy_cap`, `__bsp_dummy_get`, `__bsp_dummy_set` of the object `id`
pub bsp_dummy_cap : ℕ → Board → Option DummyCap
bsp_dummy_cap id s = get_elem? s.info.caps id

pub bsp_dummy_get : ℕ → Board → Option DummyCfg
bsp_dummy_get id s = get_elem? s.info.cfgs id

pub bsp_dummy_set : ℕ → DummyCfg → Board → Option Board
bsp_dummy_set id cfg s = get_elem? s.info.cfgs id >>= λ _.
    some (record s { info = record s.info { cfgs = set s.info.cfgs id cfg } })

module _ (cfgs : Codec DummyCfg) (caps : Codec DummyCap) (num : Codec ℕ) where
  -- `msgbox_dummy_set`, which stores the configuration once more after `set`
  pub msgbox_dummy_set : Handler Board
  unfolding create_dummy bsp_dummy_set
  msgbox_dummy_set p s = do
    cfg ← decode cfgs p.format p.isize p.input
    s1 ← create_dummy p.chn s
    s2 ← bsp_dummy_set p.chn cfg s1
    s3 ← bsp_dummy_set p.chn cfg s2
    some (0, encode cfgs p.format cfg, s3)

  -- `msgbox_dummy_get`
  pub msgbox_dummy_get : Handler Board
  unfolding create_dummy bsp_dummy_get
  msgbox_dummy_get p s = do
    cfg ← decode cfgs p.format p.isize p.input
    s1 ← create_dummy p.chn s
    cfg' ← bsp_dummy_get p.chn s1
    some (0, encode cfgs p.format cfg', s1)

  -- `msgbox_dummy_cap`
  pub msgbox_dummy_cap : Handler Board
  unfolding create_dummy bsp_dummy_cap
  msgbox_dummy_cap p s = do
    cap ← decode caps p.format p.isize p.input
    s1 ← create_dummy p.chn s
    cap' ← bsp_dummy_cap p.chn s1
    some (0, encode caps p.format cap', s1)

  -- `msgbox_dummy_num`
  pub msgbox_dummy_num : Handler Board
  msgbox_dummy_num p s = do
    n ← decode num p.format p.isize p.input
    check (ltb s.info.num 2147483648)
    some (0, encode num p.format s.info.num, s)

  -- `msgbox_dummy`
  pub msgbox_dummy : Handler Board
  unfolding msgbox_dummy_set msgbox_dummy_get msgbox_dummy_cap msgbox_dummy_num
  msgbox_dummy p s =
      if p.action == action_set
      then msgbox_dummy_set p s
      else if p.action == action_get
      then msgbox_dummy_get p s
      else if p.action == action_cap
      then msgbox_dummy_cap p s
      else if p.action == action_num
      then msgbox_dummy_num p s
      else none
