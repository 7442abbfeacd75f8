-- ===== src/Msgbox.antt =====
-- The message box of mod/proto/msgbox/msgbox.c: the table of nodes and handlers, the dispatch of a
-- received message, and the forwarding of one; and the handlers that the msgbox_*.c files of the
-- processes build over their managers.
pub mod Routes
pub mod Serve
mod Tests
use freak.Prelude.{
  ℕ, zero, suc, ◌+◌, ◌%◌, ◌^◌, ◌≡◌, ◌<◌, List, [], ◌∷◌, Bool, true, false, not, Option, none, some,
  length, get_elem?, set, ltb, ◌==◌, if◌then◌else◌,
}
use freak.Proto.{
  Packet, Codec, encode, decode, ◌>>=◌, ◌>>◌, check, key_max, action_num, action_cap, action_get,
  action_set, action_tgr, package_size,
}

-- The `PROTO_…_COM_NODE` of the five processes that serve messages.
pub data Node : Type 0 where
  bsp_com rtsp_com vsf_com web_com app_com : Node

-- The nodes of `s_msgbox_node`, in the order of its initialiser.
abbrev pub nodes : List Node
nodes = bsp_com ∷ rtsp_com ∷ vsf_com ∷ vsf_com ∷ vsf_com ∷ web_com ∷ app_com ∷ []

-- `msgbox_param_t`, without the addresses of the results.
pub record Param : Type 0 where
  pub chn : ℕ
  pub action : ℕ
  pub format : ℕ
  pub isize : ℕ
  pub input : List ℕ

-- A handler returns its value, its output and the new state of the process, or aborts.
abbrev pub Handler : Type 0 → Type 0
Handler S = Param → S → Option (ℕ × List ℕ × S)

-- The `handler` column of `s_msgbox_node`.
abbrev pub Table : Type 0 → Type 0
Table S = List (Option (Handler S))

abbrev pub no_handlers : {S : Type 0} → Table S
no_handlers = none ∷ none ∷ none ∷ none ∷ none ∷ none ∷ none ∷ []

-- `msgbox_reg_handler`: whether it returns 0, and the table. A negative key is a pattern from 2^31 on.
unfoldable pub reg_handler : {S : Type 0} → ℕ → Handler S → Table S → Bool × Table S
reg_handler key value t = if ltb key key_max then (true, set t key (some value)) else (false, t)

-- `msgbox_do_handler`: the answer, `*osize` and the new state; a key outside the table or with no
-- handler aborts.
pub do_handler : {S : Type 0} → Table S → ℕ → Packet → S → Option (Packet × ℕ × S)
do_handler t now p s = do
  entry ← get_elem? t p.key
  func ← entry
  (ret, out, s') ←
      func
        (record {
          chn = p.chn;
          action = p.action;
          format = p.format;
          isize = p.size;
          input = p.body;
        })
        s
  let answer : Packet = record p {
    version = 1;
    ts = now;
    errcode = ret % 256;
    size = length out % 2 ^ 16;
    body = out;
  }
  some (answer, package_size answer, s')

-- `msgbox_do_forward`: the node that a request for the key goes to, and the exchange with it.
pub route : ℕ → Option Node
route key = get_elem? nodes key

pub do_forward :
    {S : Type 0} → (Node → Packet → S → Option (Packet × S)) → Packet → S → Option (Packet × S)
unfolding route
do_forward exchange p s = do
  node ← route p.key
  (answer, s') ← exchange node p s
  check (answer.key == p.key)
  check (answer.errcode == 0)
  some (answer, s')

-- A manager as a handler uses it: `set`, `get`, `cap`, `num` and `tgr` of the object, with what they
-- return, and the assignment `cfgs[cfg.id] = cfg`; `none` is a fault or a failed assertion.
pub record Manager (S Cfg Cap : Type 0) : Type 0 where
  pub set_cfg : Cfg → S → Option (ℕ × S)
  pub get_cfg : Cfg → S → Option Cfg
  pub get_cap : Cap → S → Option Cap
  pub get_num : S → ℕ
  pub trigger : Cfg → S → Option (ℕ × S)
  pub keep_cfg : Cfg → S → Option S

module _ {S Cfg Cap : Type 0} (m : Manager S Cfg Cap) where
  -- `msgbox_…_set`
  unfoldable pub serve_set : Codec Cfg → Handler S
  serve_set c p s = do
    cfg ← decode c p.format p.isize p.input
    (ret, s1) ← m.set_cfg cfg s
    check (ret == 0)
    s2 ← m.keep_cfg cfg s1
    some (ret, encode c p.format cfg, s2)

  -- `msgbox_…_get`
  unfoldable pub serve_get : Codec Cfg → Handler S
  serve_get c p s = do
    cfg ← decode c p.format p.isize p.input
    cfg' ← m.get_cfg cfg s
    some (0, encode c p.format cfg', s)

  -- `msgbox_…_cap`
  unfoldable pub serve_cap : Codec Cap → Handler S
  serve_cap c p s = do
    cap ← decode c p.format p.isize p.input
    cap' ← m.get_cap cap s
    some (0, encode c p.format cap', s)

  -- `msgbox_…_num`
  unfoldable pub serve_num : Codec ℕ → Handler S
  serve_num c p s = do
    num ← decode c p.format p.isize p.input
    check (ltb (m.get_num s) 2147483648)
    some (0, encode c p.format (m.get_num s), s)

  -- `msgbox_osd_tgr`
  unfoldable pub serve_tgr : Codec Cfg → Handler S
  serve_tgr c p s = do
    cfg ← decode c p.format p.isize p.input
    (ret, s1) ← m.trigger cfg s
    check (ret == 0)
    some (ret, encode c p.format cfg, s1)

  -- The dispatch on the action: `msgbox_vsf_frame` and the others; any other action aborts.
  unfoldable pub serve : Codec Cfg → Codec Cap → Codec ℕ → Handler S
  unfolding serve_set serve_get serve_cap serve_num
  serve cfg cap num p s =
      if p.action == action_set
      then serve_set cfg p s
      else if p.action == action_get
      then serve_get cfg p s
      else if p.action == action_cap
      then serve_cap cap p s
      else if p.action == action_num
      then serve_num num p s
      else none

  -- `msgbox_vsf_osd`, which also serves the trigger.
  unfoldable pub serve_osd : Codec Cfg → Codec Cap → Codec ℕ → Handler S
  unfolding serve_set serve_get serve_cap serve_num serve_tgr
  serve_osd cfg cap num p s =
      if p.action == action_set
      then serve_set cfg p s
      else if p.action == action_get
      then serve_get cfg p s
      else if p.action == action_cap
      then serve_cap cap p s
      else if p.action == action_num
      then serve_num num p s
      else if p.action == action_tgr
      then serve_tgr cfg p s
      else none
