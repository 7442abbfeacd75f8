-- ===== src/Face.antt =====
-- The results of the face detection of mod/alg-hi3516d/src/hal/face.c, which one thread makes and
-- another gives to the callback, by a queue of mod/utils/common/src/que.c.
pub mod Results
mod Tests
use freak.Prelude.{
  ℕ, ◌+◌, Bool, true, false, ◌&&◌, List, [], ◌∷◌, ◌++◌, Option, some, none, ◌==◌, if◌then◌else◌,
}
use freak.Proto.{◌>>=◌, ◌>>◌, check}
use freak.Memory.{Heap, alloc, release}
use freak.Que.{Que, put, get, put_done, put_waits, got, get_failed, get_waits}

-- `app_face_priv_t`: the queue, and whether the three callbacks are there, which are registered
-- together; `s32Ret` of the detecting thread, whether it is 0; then what is allocated,
-- and what was seen so far: the results that `que_put` took, those that it did not, and those that the
-- callback got, oldest first.
pub record Face : Type 0 where
  pub queue : Que
  pub callback : Bool
  pub success : Bool
  pub heap : Heap
  pub accepted : List ℕ
  pub refused : List ℕ
  pub delivered : List ℕ

-- `APP_createFaceAlg` and `__hs_fd_init`, with the queue that `que_create` made.
unfoldable pub hs_fd_init : Que → Heap → Face
hs_fd_init q w = record {
  queue = q;
  callback = false;
  success = true;
  heap = w;
  accepted = [];
  refused = [];
  delivered = [];
}

-- The end of a turn of `hs_fd_task`; the argument says whether `malloc` gives memory.
unfoldable pub put_result : Bool → Face → Face
put_result memory f =
    if f.callback && memory
    then (let (results, w) = alloc f.heap in
        elim (put [] f.queue results false) [
          | put_done ret q ↦
              (if ret == 0
                then record f { queue = q; heap = w; accepted = f.accepted ++ results ∷ [] }
                else record f { queue = q; heap = w; refused = results ∷ f.refused })
          | put_waits q ↦ record f { queue = q; heap = w }
        ])
    else f

-- A turn of `hs_fd_task`: `given` and `freed` say whether the two calls of the callback for frames return
-- 0. Without the callback `data` is NULL, and it is read if `s32Ret` is still 0. The calls of the SDK in
-- between are left out; one that fails ends the thread.
unfoldable pub detect : Bool → Bool → Bool → Face → Option Face
unfolding put_result
detect given freed memory f =
    if f.callback
    then (if given
        then some (record (put_result memory f) { success = freed })
        else some (record f { success = false }))
    else (if f.success then none else some f)

-- A turn of `hs_fd_result_task`, which waits if there is nothing. It calls the callback untested.
unfoldable pub get_result : Face → Option Face
get_result f = elim (get [] f.queue true) [
  | got results q ↦
      (check f.callback
        >> (release results f.heap >>= λ w.
            some (record f { queue = q; heap = w; delivered = f.delivered ++ results ∷ [] })))
  | get_failed ret q ↦ some (record f { queue = q })
  | get_waits q ↦ some (record f { queue = q })
]

-- `__hs_fd_regcallback`
unfoldable pub face_regcallback : Bool → Face → Face
face_regcallback cb f = record f { callback = cb }

-- What the threads and the manager do, in any order.
pub data FaceEvent : Type 0 where
  detected : Bool → Bool → Bool → FaceEvent
  waited : FaceEvent
  registered : Bool → FaceEvent

unfoldable pub face_step : FaceEvent → Face → Option Face
face_step (detected given freed memory) f = detect given freed memory f
face_step waited f = get_result f
face_step (registered cb) f = some (face_regcallback cb f)

unfoldable pub face_run : List FaceEvent → Face → Option Face
face_run [] f = some f
face_run (e ∷ es) f = face_step e f >>= face_run es
