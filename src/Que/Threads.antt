-- ===== src/Que/Threads.antt =====
-- Threads at one queue: calls of `que_put` and `que_get`, and the two condition variables.
-- `pthread_cond_signal` moves one waiting thread to the threads that will run again; such a thread
-- makes the next iteration of its loop. A spurious wake-up does the same without a signal.
use freak.Prelude.{
  ℕ, ◌+◌, ◌-◌, ◌≤◌, ◌<◌, ◌≡◌, List, [], ◌∷◌, Bool, true, false, arith, ◌==◌, if◌then◌else◌, ◌⊎◌,
}
use freak.Que.{
  Que, put, get, store, fetch, PutOutcome, put_done, put_waits, GetOutcome, got, get_failed,
  get_waits,
}

pub record Sys : Type 0 where
  pub que : Que
  pub waiting_rd : ℕ
  pub ready_rd : ℕ
  pub waiting_wr : ℕ
  pub ready_wr : ℕ

-- `pthread_cond_signal(&priv->condRd)` and `pthread_cond_signal(&priv->condWr)`
abbrev pub signal_rd : Sys → Sys
signal_rd s =
    if s.waiting_rd == 0
    then s
    else record s { waiting_rd = s.waiting_rd - 1; ready_rd = s.ready_rd + 1 }

abbrev pub signal_wr : Sys → Sys
signal_wr s =
    if s.waiting_wr == 0
    then s
    else record s { waiting_wr = s.waiting_wr - 1; ready_wr = s.ready_wr + 1 }

-- What an iteration of `que_put` does to the system: a store signals `condRd`.
abbrev pub after_put : Sys → PutOutcome Que → Sys
after_put s (put_done r q) =
    if r == 0 then signal_rd (record s { que = q }) else record s { que = q }
after_put s (put_waits q) = record s { que = q; waiting_wr = s.waiting_wr + 1 }

-- The same for `que_get`: a fetch signals `condWr`.
abbrev pub after_get : Sys → GetOutcome Que → Sys
after_get s (got v q) = signal_wr (record s { que = q })
after_get s (get_failed r q) = record s { que = q }
after_get s (get_waits q) = record s { que = q; waiting_rd = s.waiting_rd + 1 }

-- A thread calls, with block or without, a signalled thread runs again, a wait ends with no signal, or
-- it fails, and the call ends.
pub data Event : Type 0 where
  calls_put : ℕ → Bool → Event
  resumes_put : ℕ → Event
  calls_get : Bool → Event
  resumes_get spurious_rd spurious_wr fails_rd fails_wr : Event

pub step : Sys → Event → Sys
step s (calls_put val block) = after_put s (put [] s.que val block)
step s (resumes_put val) =
    if s.ready_wr == 0
    then s
    else after_put (record s { ready_wr = s.ready_wr - 1 }) (put [] s.que val true)
step s (calls_get block) = after_get s (get [] s.que block)
step s resumes_get =
    if s.ready_rd == 0
    then s
    else after_get (record s { ready_rd = s.ready_rd - 1 }) (get [] s.que true)
step s spurious_rd = signal_rd s
step s spurious_wr = signal_wr s
step s fails_rd = record s { waiting_rd = s.waiting_rd - 1 }
step s fails_wr = record s { waiting_wr = s.waiting_wr - 1 }

pub run : Sys → List Event → Sys
run s [] = s
run s (e ∷ es) = run (step s e) es

abbrev pub start : Que → Sys
start q = record { que = q; waiting_rd = 0; ready_rd = 0; waiting_wr = 0; ready_wr = 0 }

-- While a reader waits, each element has a signalled reader; while a writer waits, each free place
-- has a signalled writer.
pub record NoneLost (s : Sys) : Type 0 where
  pub readers : 0 < s.waiting_rd → s.que.len ≤ s.ready_rd
  pub writers : 0 < s.waiting_wr → s.que.depth ≤ s.que.len + s.ready_wr
  pub len_in : s.que.len ≤ s.que.depth
  pub width : s.que.depth < 4294967296

step-NoneLost : (s : Sys) (e : Event) → NoneLost s → NoneLost (step s e)
unfolding step put get store fetch
step-NoneLost s (calls_put val true) h = ground arith
step-NoneLost s (calls_put val false) h = ground arith
step-NoneLost s (resumes_put val) h = ground arith
step-NoneLost s (calls_get true) h = ground arith
step-NoneLost s (calls_get false) h = ground arith
step-NoneLost s resumes_get h = ground arith
step-NoneLost s spurious_rd h = ground arith
step-NoneLost s spurious_wr h = ground arith
step-NoneLost s fails_rd h = ground arith
step-NoneLost s fails_wr h = ground arith

sleepers :
    (s : Sys)
    → NoneLost s
    → ((s.waiting_rd ≡ 0) ⊎ (s.que.len ≤ s.ready_rd))
      × ((s.waiting_wr ≡ 0) ⊎ (s.que.depth ≤ s.que.len + s.ready_wr))
      × ((s.que.depth ≡ 0)
          ⊎ (s.waiting_rd ≡ 0)
          ⊎ (s.waiting_wr ≡ 0)
          ⊎ (0 < s.ready_rd + s.ready_wr))
sleepers s h = grind arith

run-NoneLost : (s : Sys) (es : List Event) → NoneLost s → NoneLost (run s es)
unfolding run
run-NoneLost s [] h = h
run-NoneLost s (e ∷ es) h = run-NoneLost (step s e) es (step-NoneLost s e h)

-- No wake-up is lost, whatever calls of que_put and que_get the threads at a queue make, with
-- block or without, and whichever waits end without a signal or fail: started with no thread
-- waiting, whenever a reader waits, at least as many signalled readers are on their way as the
-- queue holds elements, and whenever a writer waits, at least as many signalled writers as it
-- has free places. So, unless the depth is 0, a reader and a writer never both wait with no
-- thread signalled.
pub no_lost_wakeup :
    (q : Que) (es : List Event)
    → q.len ≤ q.depth
    → q.depth < 4294967296
    → let s = run (start q) es in
      ((s.waiting_rd ≡ 0) ⊎ (s.que.len ≤ s.ready_rd))
      × ((s.waiting_wr ≡ 0) ⊎ (s.que.depth ≤ s.que.len + s.ready_wr))
      × ((s.que.depth ≡ 0)
          ⊎ (s.waiting_rd ≡ 0)
          ⊎ (s.waiting_wr ≡ 0)
          ⊎ (0 < s.ready_rd + s.ready_wr))
no_lost_wakeup q es l w = sleepers _ (run-NoneLost (start q) es (ground arith))
