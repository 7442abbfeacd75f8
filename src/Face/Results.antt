-- ===== src/Face/Results.antt =====
-- Where the results are.
use freak.Prelude.{
  ℕ, ◌+◌, ◌≡◌, ◌<◌, inl, inr, refl, ap, subst, ◌∙◌, sym, Bool, true, false, Bool-cases, ◌&&◌, List,
  [], ◌∷◌, ◌++◌, append_assoc, some, none, ltb, arith,
}
use freak.Memory.{Heap, alloc}
use freak.Memory.Counting.{count, one, alloc-count, release-Frees}
use freak.Que.{Que, store, fetch}
use freak.Que.Ring.{IsValid, contents, from_index, store_lem, fetch_lem}
use freak.Que.Calls.{put_now, get_now}
use freak.Face.{
  Face, FaceEvent, detected, waited, registered, put_result, detect, get_result, face_regcallback,
  face_step, face_run, hs_fd_init,
}

count-append : (k : ℕ) (xs ys : List ℕ) → count k (xs ++ ys) ≡ count k xs + count k ys
count-append k [] ys = omega arith
count-append k (x ∷ xs) ys = omega (arith, count-append k xs ys)

-- Every result is in the queue, freed, or refused and never freed.
pub record Sound (w : Heap) (f : Face) : Type 0 where
  pub valid : IsValid f.queue
  pub in_order : f.delivered ++ contents f.queue ≡ f.accepted
  pub living :
      (k : ℕ)
      → count k f.heap.live ≡ count k w.live + (count k (contents f.queue) + count k f.refused)
  pub callable : f.callback ≡ true

module _ (w : Heap) where
  -- What a turn of the detecting thread does.
  put-Sound : (memory : Bool) (f : Face) → Sound w f → Sound w (put_result memory f)
  unfolding put_result
  put-Sound memory f s = elim (Bool-cases (f.callback && memory)) [
    | inl y ↦
        let h = (alloc f.heap).0 in
        let w1 = (alloc f.heap).1 in
        elim (Bool-cases (ltb f.queue.len f.queue.depth)) [
          | inl there ↦
              let (valid, last) = store_lem f.queue h s.valid (ground (arith, there)) in
              let next : Face = record f {
                queue = store f.queue h;
                heap = w1;
                accepted = f.accepted ++ h ∷ [];
              } in
              let e : put_result memory f ≡ next = simp (put_result, y, put_now, there) refl in
              subst (Sound w) (sym e) (record {
                valid = valid;
                in_order =
                    ap (◌++◌ f.delivered) last
                    ∙ (sym (append_assoc f.delivered (contents f.queue) (h ∷ []))
                        ∙ ap (λ xs. xs ++ h ∷ []) s.in_order);
                living = λ k. omega (
                  arith,
                  alloc-count f.heap k,
                  s.living k,
                  ap (count k) last,
                  count-append k (contents f.queue) (h ∷ []),
                );
                callable = s.callable;
              })
          | inr full ↦
              let next : Face = record f { heap = w1; refused = h ∷ f.refused } in
              let e : put_result memory f ≡ next = simp (put_result, y, put_now, full) refl in
              subst (Sound w) (sym e) (record {
                valid = s.valid;
                in_order = s.in_order;
                living = λ k. omega (arith, alloc-count f.heap k, s.living k);
                callable = s.callable;
              })
        ]
    | inr n ↦
        let e : put_result memory f ≡ f = simp (put_result, n) refl in subst (Sound w) (sym e) s
  ]

  -- What a turn of the other thread does.
  get-Sound : (f : Face) → Sound w f → (f' : Face) × (get_result f ≡ some f') × Sound w f'
  unfolding get_result
  get-Sound f s = elim (Bool-cases (ltb 0 f.queue.len)) [
    | inl there ↦
        let h = (fetch f.queue).0 in
        let (valid, first) = fetch_lem f.queue s.valid (ground (arith, there)) in
        let held : (k : ℕ)
            → count k (contents f.queue) ≡ one h k + count k (contents (fetch f.queue).1) =
          λ k. ap (count k) first in
        let (w1, freed, counts) = release-Frees h f.heap (λ k. omega (arith, s.living k, held k)) in
        (
          record f { queue = (fetch f.queue).1; heap = w1; delivered = f.delivered ++ h ∷ [] },
          simp (get_result, get_now, there, s.callable, freed) refl,
          record {
            valid = valid;
            in_order =
                append_assoc f.delivered (h ∷ []) (contents (fetch f.queue).1)
                ∙ (ap (◌++◌ f.delivered) (sym first) ∙ s.in_order);
            living = λ k. omega (arith, s.living k, held k, counts k);
            callable = s.callable;
          },
        )
    | inr empty ↦ (f, simp (get_result, get_now, empty) refl, s)
  ]

  detect-Sound :
      (given freed memory : Bool) (f : Face)
      → Sound w f
      → (f' : Face) × (detect given freed memory f ≡ some f') × Sound w f'
  unfolding detect
  detect-Sound true freed memory f s =
      let s1 = put-Sound memory f s in
      (
        record (put_result memory f) { success = freed },
        simp (detect, s.callable) refl,
        record {
          valid = s1.valid;
          in_order = s1.in_order;
          living = s1.living;
          callable = s1.callable;
        },
      )
  detect-Sound false freed memory f s = (
    record f { success = false },
    simp (detect, s.callable) refl,
    record { valid = s.valid; in_order = s.in_order; living = s.living; callable = s.callable },
  )

  -- No callback is taken away.
  abbrev pub Stays : List FaceEvent → Type 0
  Stays [] = Unit {0}
  Stays (detected given freed memory ∷ es) = Stays es
  Stays (waited ∷ es) = Stays es
  Stays (registered cb ∷ es) = (cb ≡ true) × Stays es

  face_run-Sound :
      (es : List FaceEvent) (f : Face)
      → Stays es
      → Sound w f
      → (f' : Face) × (face_run es f ≡ some f') × Sound w f'
  unfolding face_run face_step face_regcallback
  face_run-Sound [] f stays s = (f, refl, s)
  face_run-Sound (detected given freed memory ∷ es) f stays s =
      let (f1, e, s1) = detect-Sound given freed memory f s in
      let (f2, e2, s2) = face_run-Sound es f1 stays s1 in
      (f2, simp (face_run, face_step, e, e2) refl, s2)
  face_run-Sound (waited ∷ es) f stays s =
      let (f1, e, s1) = get-Sound f s in
      let (f2, e2, s2) = face_run-Sound es f1 stays s1 in
      (f2, simp (face_run, face_step, e, e2) refl, s2)
  face_run-Sound (registered cb ∷ es) f stays s =
      face_run-Sound es (face_regcallback cb f) stays.1
        (record { valid = s.valid; in_order = s.in_order; living = s.living; callable = stays.0 })

-- A turn without callbacks: the one thread reads a frame that is not there, the other calls NULL.
module _ (f : Face) where
  no_frame : f.callback ≡ false → f.success ≡ true → detect true true true f ≡ none
  unfolding detect
  no_frame c t = simp (detect, c, t) refl

  taken_away : 0 < f.queue.len → f.callback ≡ false → get_result f ≡ none
  unfolding get_result
  taken_away there c = simp (get_result, get_now) (ground (arith, c, there))

-- When the callbacks are registered before the threads start, as the app process does, then
-- however the two threads of the face detection take turns, whether a turn gets a frame or not,
-- no turn reads a frame or calls a function that is not there, and the results that the callback
-- got, each freed behind it, and then those in the queue are in order the results that que_put
-- took; those that it refused, because the queue was full, still live and nobody frees them. The
-- conditions: the queue is valid and empty at the start, as que_create makes it, and no callback
-- is taken away.
pub run_results_lem :
    (q : Que) (w : Heap) (es : List FaceEvent)
    → IsValid q
    → q.len ≡ 0
    → Stays w es
    → (f : Face) × (face_run es (face_regcallback true (hs_fd_init q w)) ≡ some f)
      × (f.delivered ++ contents f.queue ≡ f.accepted)
      × ((k : ℕ)
          → count k f.heap.live ≡ count k w.live + (count k (contents f.queue) + count k f.refused))
unfolding hs_fd_init face_regcallback
run_results_lem q w es valid empty stays =
    let none_there : contents q ≡ [] = ap (from_index q.elements q.depth q.cur_rd) empty in
    let (f, e, s) = face_run-Sound w es (face_regcallback true (hs_fd_init q w)) stays (record {
      valid = valid;
      in_order = none_there;
      living = λ k. omega (arith, ap (count k) none_there);
      callable = refl;
    }) in
    (f, e, s.in_order, s.living)
