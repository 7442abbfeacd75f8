-- ===== src/Rgn/Order.antt =====
-- The order of the calls for one region.
use freak.Prelude.{◌≡◌, Bool, true, false, ◌&&◌, not, List, [], ◌∷◌, Option, some}
use freak.Rgn.{
  RgnStatus, absent, created, attached, Rgn, Mpi, create, set_attr, attach, get_canvas,
  update_canvas, set_display, Going,
}

abbrev pub made : List Mpi → Bool
made [] = false
made (create id ∷ ms) = true
made (set_attr id ∷ ms) = made ms
made (attach id ∷ ms) = made ms
made (get_canvas id ∷ ms) = made ms
made (update_canvas id ∷ ms) = made ms
made (set_display id s ∷ ms) = made ms

abbrev pub joined : List Mpi → Bool
joined [] = false
joined (attach id ∷ ms) = true
joined (create id ∷ ms) = joined ms
joined (set_attr id ∷ ms) = joined ms
joined (get_canvas id ∷ ms) = joined ms
joined (update_canvas id ∷ ms) = joined ms
joined (set_display id s ∷ ms) = joined ms

-- Whether a call may follow some others.
abbrev pub allowed : Mpi → List Mpi → Bool
allowed (create id) ms = not (made ms)
allowed (set_attr id) ms = made ms
allowed (attach id) ms = made ms && not (joined ms)
allowed (get_canvas id) ms = joined ms
allowed (update_canvas id) ms = joined ms
allowed (set_display id s) ms = joined ms

abbrev pub orderly : List Mpi → Bool
orderly [] = true
orderly (m ∷ ms) = allowed m ms && orderly ms

-- The status knows what was called.
abbrev knows : RgnStatus → List Mpi → Bool
knows absent ms = not (made ms) && not (joined ms)
knows created ms = made ms && not (joined ms)
knows attached ms = made ms && joined ms

Sound : Rgn → List Mpi → Type 0
Sound o ms = (orderly ms ≡ true) × (knows o.status ms ≡ true)

abbrev Goes : Option Going → Type 0
Goes x = (g : Going) × (x ≡ some g) × Sound g.rgn g.calls
