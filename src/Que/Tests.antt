-- ===== src/Que/Tests.antt =====
-- The theorems on que.c at concrete queues, and runs of the code.
use freak.Prelude.{◌+◌, ◌≤◌, ◌<◌, ◌≡◌, refl, ◌⊎◌, List, [], ◌∷◌, true, false, arith}
use freak.Que.{Que, Wake, put_done, got, store, fetch, put, get, eagain}
use freak.Que.Ring.{IsValid, contents, store_lem, fetch_lem}
use freak.Que.Fifo.{put_spec, get_spec, wake_view, put_view, get_view}
use freak.Que.Calls.{PutValid, GetValid, put_refines, get_refines}
use freak.Que.Threads.{
  Event, calls_put, calls_get, resumes_get, fails_rd, run, start, no_lost_wakeup,
}

abbrev empty_three : Que
empty_three = record { depth = 3; len = 0; cur_rd = 0; cur_wr = 0; elements = 0 ∷ 0 ∷ 0 ∷ [] }

-- 8 and 9, round the end of the memory.
abbrev wrapped : Que
wrapped = record { depth = 3; len = 2; cur_rd = 2; cur_wr = 1; elements = 9 ∷ 7 ∷ 8 ∷ [] }

abbrev full : Que
full = record { depth = 3; len = 3; cur_rd = 1; cur_wr = 1; elements = 3 ∷ 1 ∷ 2 ∷ [] }

abbrev freed : Wake Que
freed = record { ret = 0; err = 0; state = wrapped }

wrapped-IsValid : IsValid wrapped
wrapped-IsValid = omega arith

full-IsValid : IsValid full
full-IsValid = omega arith

contents-wrapped : contents wrapped ≡ 8 ∷ 9 ∷ []
contents-wrapped = refl

-- A blocked writer stores at the wake-up that finds room.
put_after_wait : put_view (put (freed ∷ []) full 4 true) ≡ put_done 0 (8 ∷ 9 ∷ 4 ∷ [])
unfolding put
put_after_wait = refl

put_when_full : put_view (put [] full 4 false) ≡ put_done eagain (1 ∷ 2 ∷ 3 ∷ [])
unfolding put
put_when_full = refl

get_oldest : get_view (get [] wrapped false) ≡ got 8 (9 ∷ [])
unfolding get
get_oldest = refl

store_lem_example : IsValid (store wrapped 4) × (contents (store wrapped 4) ≡ 8 ∷ 9 ∷ 4 ∷ [])
store_lem_example = store_lem wrapped 4 wrapped-IsValid (omega arith)

fetch_lem_example :
    IsValid (fetch wrapped).1 × (contents wrapped ≡ (fetch wrapped).0 ∷ contents (fetch wrapped).1)
fetch_lem_example = fetch_lem wrapped wrapped-IsValid (omega arith)

put_refines_example :
    (put_view (put (freed ∷ []) full 4 true)
      ≡ put_spec 3 (wake_view freed ∷ []) (1 ∷ 2 ∷ 3 ∷ []) 4 true)
    × PutValid (put (freed ∷ []) full 4 true)
put_refines_example = put_refines (freed ∷ []) full 4 true full-IsValid (wrapped-IsValid, refl, tt)

get_refines_example :
    (get_view (get (freed ∷ []) empty_three true) ≡ get_spec (wake_view freed ∷ []) [] true)
    × GetValid (get (freed ∷ []) empty_three true)
get_refines_example =
    get_refines (freed ∷ []) empty_three true (omega arith) (wrapped-IsValid, refl, tt)

-- A reader waits, a writer stores and signals it, and another reader takes the element first.
abbrev overtaken : List Event
overtaken = calls_get true ∷ calls_put 5 false ∷ calls_get true ∷ resumes_get ∷ fails_rd ∷ []

no_lost_wakeup_example :
    let s = run (start empty_three) overtaken in
    ((s.waiting_rd ≡ 0) ⊎ (s.que.len ≤ s.ready_rd))
    × ((s.waiting_wr ≡ 0) ⊎ (s.que.depth ≤ s.que.len + s.ready_wr))
    × ((s.que.depth ≡ 0) ⊎ (s.waiting_rd ≡ 0) ⊎ (s.waiting_wr ≡ 0) ⊎ (0 < s.ready_rd + s.ready_wr))
no_lost_wakeup_example = no_lost_wakeup empty_three overtaken (omega arith) (omega arith)
