-- ===== src/Msgbox/Routes.antt =====
-- Where a forwarded request goes, against the process that serves its key.
use freak.Prelude.{
  ℕ, zero, suc, ◌≡◌, ◌≢◌, ◌↔◌, Option, some, none, arith, get_elem?, length, ltb, length-set, ◌&&◌,
  ◌==◌, if◌then◌else◌, get_elem?-set_self, get_elem?-set_ne,
}
use freak.Proto.{Packet, key_max, vsf_key_frame, rtsp_key_svr}
use freak.Msgbox.{
  Node, bsp_com, rtsp_com, vsf_com, web_com, app_com, route, Table, Handler, reg_handler,
  do_forward,
}

-- The process whose `main` registers a handler for the key, in the order of `proto_key_e`.
pub home : ℕ → Option Node
home zero = some bsp_com
home (suc zero) = some vsf_com
home (suc (suc zero)) = some vsf_com
home (suc (suc (suc zero))) = some vsf_com
home (suc (suc (suc (suc zero)))) = some rtsp_com
home (suc (suc (suc (suc (suc zero))))) = some web_com
home (suc (suc (suc (suc (suc (suc zero)))))) = some app_com
home _ = none

-- msgbox_do_forward sends a key to the process that registers a handler for it, for every key
-- but those of the frames and of the RTSP server, which it sends elsewhere; a key out of range
-- goes nowhere.
pub route-home : (key : ℕ) → (route key ≡ home key) ↔ ((key ≢ vsf_key_frame) × (key ≢ rtsp_key_svr))
unfolding route home
route-home zero = ground arith
route-home (suc zero) = ground arith
route-home (suc (suc zero)) = ground arith
route-home (suc (suc (suc zero))) = ground arith
route-home (suc (suc (suc (suc zero)))) = ground arith
route-home (suc (suc (suc (suc (suc zero))))) = ground arith
route-home (suc (suc (suc (suc (suc (suc zero)))))) = ground arith
route-home (suc (suc (suc (suc (suc (suc (suc key))))))) = ground arith

-- When msgbox_do_forward returns an answer, the key was in range, the answer is what the node of
-- the key gave, and it has the key of the request and no error code.
pub do_forward_lem :
    {S : Type 0} (exchange : Node → Packet → S → Option (Packet × S)) (p answer : Packet) (s s' : S)
    → do_forward exchange p s ≡ some (answer, s')
    → (node : Node) × (route p.key ≡ some node)
      × (exchange node p s ≡ some (answer, s'))
      × (answer.key ≡ p.key)
      × (answer.errcode ≡ 0)
unfolding do_forward
do_forward_lem exchange p answer s s' h = ground arith

-- msgbox_reg_handler on a table of all the keys succeeds for the keys in range only; the table
-- keeps its length, has the handler at the key if it succeeds, and keeps all its other entries.
pub reg_handler_lem :
    {S : Type 0} (key : ℕ) (h : Handler S) (t : Table S)
    → length t ≡ key_max
    → let (ok, t') = reg_handler key h t in
      (ok ≡ ltb key key_max)
      × (length t' ≡ key_max)
      × ((j : ℕ) → get_elem? t' j ≡ (if ok && (j == key) then some (some h) else get_elem? t j))
unfolding reg_handler
reg_handler_lem {S} key h t e = ground (
  arith,
  length-set t key (some h),
  get_elem?-set_self t key (some h),
  get_elem?-set_ne t {i = key} (some h),
)
