-- ===== src/Que/Fifo.antt =====
-- What que.c promises: a first-in-first-out list of at most `depth` elements, with the waiting and
-- the return values of `que_put` and `que_get`.
use freak.Prelude.{ℕ, List, [], ◌∷◌, ◌++◌, Bool, ltb, ◌==◌, if◌then◌else◌, length}
use freak.Que.{
  Que, Wake, eagain, PutOutcome, put_done, put_waits, GetOutcome, got, get_failed, get_waits,
}
use freak.Que.Ring.{contents}

unfoldable pub put_spec : ℕ → List (Wake (List ℕ)) → List ℕ → ℕ → Bool → PutOutcome (List ℕ)
put_spec depth [] items val block =
    if ltb (length items) depth
    then put_done 0 (items ++ val ∷ [])
    else if block
    then put_waits items
    else put_done eagain items
put_spec depth (w ∷ wakes) items val block =
    let again = put_spec depth wakes w.state val block in
    if ltb (length items) depth
    then put_done 0 (items ++ val ∷ [])
    else if block
    then (if w.ret == 0 then again else put_done w.err w.state)
    else put_done eagain items

unfoldable pub get_spec : List (Wake (List ℕ)) → List ℕ → Bool → GetOutcome (List ℕ)
get_spec wakes (v ∷ rest) block = got v rest
get_spec [] [] block = if block then get_waits [] else get_failed eagain []
get_spec (w ∷ wakes) [] block =
    let again = get_spec wakes w.state block in
    if block then (if w.ret == 0 then again else get_failed w.err w.state) else get_failed eagain []

abbrev pub wake_view : Wake Que → Wake (List ℕ)
wake_view w = record { ret = w.ret; err = w.err; state = contents w.state }

abbrev pub put_view : PutOutcome Que → PutOutcome (List ℕ)
put_view (put_done r q) = put_done r (contents q)
put_view (put_waits q) = put_waits (contents q)

abbrev pub get_view : GetOutcome Que → GetOutcome (List ℕ)
get_view (got v q) = got v (contents q)
get_view (get_failed r q) = get_failed r (contents q)
get_view (get_waits q) = get_waits (contents q)
