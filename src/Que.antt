-- ===== src/Que.antt =====
-- The bounded queue of mod/utils/common/src/que.c: `que_priv_t` and its operations.
-- Each operation runs between the lock and the unlock of `lock`, so it is one step on the state.
-- `que_put` and `que_get` loop: an iteration ends the call, or waits on a condition variable. What a
-- wait returns, and the state in which it finds the queue, is an argument: the list of wake-ups.
pub mod Ring
mod Fifo
pub mod Calls
mod Threads
mod Tests
use freak.Prelude.{
  ℕ, ◌+◌, ◌-◌, ◌%◌, ◌^◌, List, [], ◌∷◌, Bool, true, false, Option, none, some, ltb, ◌==◌,
  if◌then◌else◌, get_or, set,
}

-- The pointers that the queue holds are opaque numbers.
pub record Que : Type 0 where
  pub depth : ℕ
  pub len : ℕ
  pub cur_rd : ℕ
  pub cur_wr : ℕ
  pub elements : List ℕ

-- `unsigned int` addition.
abbrev pub add_uint : ℕ → ℕ → ℕ
add_uint a b = (a + b) % 2 ^ 32

-- What an operation returns is 0 or a negated errno: the number here is that errno.
abbrev pub eagain : ℕ
eagain = 11

abbrev pub enomem : ℕ
enomem = 12

-- The two blocks that a queue owns.
pub data Block : Type 0 where
  priv_block elements_block : Block

-- `que_create`: the first argument says whether the first `malloc` succeeds, the second is the memory
-- that the second one returns. The result is the return value, the queue and the blocks in use.
pub create : ℕ → Bool → Option (List ℕ) → ℕ × Option Que × List Block
create depth false memory = (enomem, none, [])
create depth true none = (enomem, none, [])
create depth true (some elements) = (
  0,
  some (record { depth = depth % 2 ^ 32; len = 0; cur_rd = 0; cur_wr = 0; elements = elements }),
  priv_block ∷ elements_block ∷ [],
)

-- `que_delete` frees `priv`, and nothing else.
pub delete : List Block → ℕ × List Block
delete [] = (0, [])
delete (priv_block ∷ blocks) = (0, blocks)
delete (elements_block ∷ blocks) = let (r, rest) = delete blocks in (r, elements_block ∷ rest)

-- The first branch of the loop of `que_put`.
pub store : Que → ℕ → Que
store q val = record q {
  elements = set q.elements q.cur_wr val;
  cur_wr = add_uint q.cur_wr 1 % q.depth;
  len = add_uint q.len 1;
}

-- The first branch of the loop of `que_get`: the element and the queue without it.
pub fetch : Que → ℕ × Que
fetch q = (
  get_or q.elements q.cur_rd 0,
  record q { cur_rd = add_uint q.cur_rd 1 % q.depth; len = q.len - 1 },
)

-- A wake-up from `pthread_cond_wait`: what it returns, `errno`, and the queue as it then is.
pub record Wake (Q : Type 0) : Type 0 where
  pub ret : ℕ
  pub err : ℕ
  pub state : Q

-- A call ends with a return value, or is still waiting when the wake-ups are used up.
pub data PutOutcome (Q : Type 0) : Type 0 where
  put_done : ℕ → Q → PutOutcome Q
  put_waits : Q → PutOutcome Q

pub data GetOutcome (Q : Type 0) : Type 0 where
  got : ℕ → Q → GetOutcome Q
  get_failed : ℕ → Q → GetOutcome Q
  get_waits : Q → GetOutcome Q

-- `que_put`
pub put : List (Wake Que) → Que → ℕ → Bool → PutOutcome Que
unfolding store
put [] q val block =
    if ltb q.len q.depth
    then put_done 0 (store q val)
    else if block
    then put_waits q
    else put_done eagain q
put (w ∷ wakes) q val block =
    let again = put wakes w.state val block in
    if ltb q.len q.depth
    then put_done 0 (store q val)
    else if block
    then (if w.ret == 0 then again else put_done w.err w.state)
    else put_done eagain q

-- `que_get`
pub get : List (Wake Que) → Que → Bool → GetOutcome Que
unfolding fetch
get [] q block =
    if ltb 0 q.len
    then (let (v, q') = fetch q in got v q')
    else if block
    then get_waits q
    else get_failed eagain q
get (w ∷ wakes) q block =
    let again = get wakes w.state block in
    if ltb 0 q.len
    then (let (v, q') = fetch q in got v q')
    else if block
    then (if w.ret == 0 then again else get_failed w.err w.state)
    else get_failed eagain q

-- `que_peek` returns 0 in any case and writes `*val` only if the queue holds something: the option is
-- what it writes.
pub peek : Que → ℕ × Option ℕ
peek q = if ltb 0 q.len then (0, some (get_or q.elements q.cur_rd 0)) else (0, none)

-- `que_len`, `que_isempty`, `que_isfull`
pub len : Que → ℕ
len q = q.len

pub isempty : Que → Bool
isempty q = q.len == 0

pub isfull : Que → Bool
isfull q = q.len == q.depth
