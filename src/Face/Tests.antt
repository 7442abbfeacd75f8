-- ===== src/Face/Tests.antt =====
-- Three results, of which the queue has room for two.
use freak.Prelude.{ℕ, ◌+◌, ◌≡◌, refl, true, false, List, [], ◌∷◌, ◌++◌, some, arith}
use freak.Memory.{Heap}
use freak.Memory.Counting.{count}
use freak.Que.{Que}
use freak.Que.Ring.{IsValid, contents}
use freak.Face.{
  Face, FaceEvent, detected, waited, registered, face_run, face_regcallback, hs_fd_init,
}
use freak.Face.Results.{run_results_lem}

abbrev queue : Que
queue = record { depth = 2; len = 0; cur_rd = 0; cur_wr = 0; elements = 0 ∷ 0 ∷ [] }

queue-IsValid : IsValid queue
queue-IsValid = record {
  room = omega arith;
  width = omega arith;
  rd_in = omega arith;
  wr_at = refl;
  len_in = omega arith;
}

abbrev heap : Heap
heap = record { next = 5; live = 3 ∷ []; newest = [] }

abbrev events : List FaceEvent
events =
    registered true
    ∷ detected false true true
    ∷ waited
    ∷ detected true true true
    ∷ detected true true true
    ∷ detected true true true
    ∷ detected true true false
    ∷ waited
    ∷ []

run_results_lem_example :
    (f : Face) × (face_run events (face_regcallback true (hs_fd_init queue heap)) ≡ some f)
    × (f.delivered ++ contents f.queue ≡ f.accepted)
    × ((k : ℕ)
        → count k f.heap.live ≡ count k (3 ∷ []) + (count k (contents f.queue) + count k f.refused))
run_results_lem_example = run_results_lem queue heap events queue-IsValid refl (refl, tt)
