-- ===== src/Que/Calls.antt =====
-- `que_put`, `que_get` and the readers of que.c, each against the first-in-first-out list.
use freak.Prelude.{
  ℕ, ◌≡◌, refl, ap, ◌<◌, List, [], ◌∷◌, Bool, true, false, ltb, if◌then◌else◌, Option, none, some,
  arith, length, map, ◌==◌,
}
use native.Mathlib.Decide.{dec_lt}
use freak.Que.{
  Que, Wake, put, get, peek, len, isempty, isfull, store, fetch, eagain, PutOutcome, put_done,
  put_waits, GetOutcome, got, get_failed, get_waits,
}
use freak.Que.Ring.{IsValid, from_index, contents, length-contents, store_lem, fetch_lem}
use freak.Que.Fifo.{put_spec, get_spec, wake_view, put_view, get_view}

-- Every wake-up finds a valid queue of this depth.
abbrev pub AllValid : ℕ → List (Wake Que) → Type 0
AllValid d [] = Unit {0}
AllValid d (w ∷ wakes) = IsValid w.state × (w.state.depth ≡ d) × AllValid d wakes

abbrev pub PutValid : PutOutcome Que → Type 0
PutValid (put_done r q) = IsValid q
PutValid (put_waits q) = IsValid q

abbrev pub GetValid : GetOutcome Que → Type 0
GetValid (got v q) = IsValid q
GetValid (get_failed r q) = IsValid q
GetValid (get_waits q) = IsValid q

-- que_put on a valid queue does what the bounded list does, on every branch: it stores last at
-- once or at the first wake-up that finds room, refuses with EAGAIN without block, returns what
-- a failed wait leaves in errno, or goes on waiting; and it leaves a valid queue. The queue at
-- each wake-up is valid and of the same depth.
pub put_refines :
    (wakes : List (Wake Que)) (q : Que) (val : ℕ) (block : Bool)
    → IsValid q
    → AllValid q.depth wakes
    → (put_view (put wakes q val block)
        ≡ put_spec q.depth (map wake_view wakes) (contents q) val block)
      × PutValid (put wakes q val block)
unfolding put put_spec
put_refines [] q val block v a = ground (arith, store_lem q val v, length-contents q)
put_refines (w ∷ wakes) q val block v a =
    ground (arith, store_lem q val v, length-contents q, put_refines wakes w.state val block a.0)

-- A queue with elements, and one with none, as the list shows them.
contents_some : (q : Que) → IsValid q → 0 < q.len → contents q ≡ (fetch q).0 ∷ contents (fetch q).1
contents_some q v h = (fetch_lem q v h).1

contents_none : (q : Que) → q.len ≡ 0 → contents q ≡ []
contents_none q e = ap (from_index q.elements q.depth q.cur_rd) e

get_refines-some :
    (wakes : List (Wake Que)) (q : Que) (block : Bool)
    → IsValid q
    → 0 < q.len
    → (get_view (get wakes q block) ≡ get_spec (map wake_view wakes) (contents q) block)
      × GetValid (get wakes q block)
unfolding get get_spec
get_refines-some [] q block v h = rw (contents_some q v h) (ground (arith, fetch_lem q v h))
get_refines-some (w ∷ wakes) q block v h =
    rw (contents_some q v h) (ground (arith, fetch_lem q v h))

-- que_get on a valid queue does what the list does, on every branch: it takes the oldest element
-- at once or at the first wake-up that finds one, refuses with EAGAIN without block, returns
-- what a failed wait leaves in errno, or goes on waiting; and it leaves a valid queue. The queue
-- at each wake-up is valid and of the same depth.
pub get_refines :
    (wakes : List (Wake Que)) (q : Que) (block : Bool)
    → IsValid q
    → AllValid q.depth wakes
    → (get_view (get wakes q block) ≡ get_spec (map wake_view wakes) (contents q) block)
      × GetValid (get wakes q block)
unfolding get get_spec
get_refines [] q block v a = elim (dec_lt 0 q.len) [
  | yes h ↦ get_refines-some [] q block v h
  | no h ↦ rw (contents_none q (omega arith)) (ground (arith, contents_none q))
]
get_refines (w ∷ wakes) q block v a = elim (dec_lt 0 q.len) [
  | yes h ↦ get_refines-some (w ∷ wakes) q block v h
  | no h ↦
      rw (contents_none q (omega arith))
        (ground (arith, contents_none q, get_refines wakes w.state block a.0))
]

-- What `que_peek` reports of a list.
abbrev pub oldest : List ℕ → ℕ × Option ℕ
oldest [] = (0, none)
oldest (v ∷ rest) = (0, some v)

-- The readers of a valid queue agree with the list: que_peek shows the oldest element, or
-- nothing on an empty queue, and always returns 0; the length and the two tests are those of the
-- list.
pub readers_lem :
    (q : Que)
    → IsValid q
    → (peek q ≡ oldest (contents q))
      × (len q ≡ length (contents q))
      × (isempty q ≡ (length (contents q) == 0))
      × (isfull q ≡ (length (contents q) == q.depth))
unfolding peek len isempty isfull fetch
readers_lem q v = elim (dec_lt 0 q.len) [
  | yes h ↦ rw (contents_some q v h) (ground (arith, contents_some q v h, length-contents q))
  | no h ↦ ground (arith, contents_none q, length-contents q)
]

-- Without a wake-up.
pub put_now :
    (q : Que) (val : ℕ)
    → put [] q val false
      ≡ (if ltb q.len q.depth then put_done 0 (store q val) else put_done eagain q)
unfolding put
put_now q val = refl

pub get_now :
    (q : Que) → get [] q true ≡ (if ltb 0 q.len then got (fetch q).0 (fetch q).1 else get_waits q)
unfolding get
get_now q = refl
