-- ===== src/Nnm/Routines.antt =====
-- The threads that receive.
use freak.Prelude.{
  ℕ, ◌≡◌, ◌⊎◌, inl, inr, refl, ◌∙◌, Bool, true, false, List, [], ◌∷◌, Option, some, none,
  Option-cases, Bool-cases, if◌then◌else◌,
}
use freak.Memory.{Heap, alloc}
use freak.Memory.Stack.{release_top, alloc_live}
use freak.Nnm.{Handle, NnCalls, create_receiver, destroy_handle, recv_routine, rep_routine}
use freak.Nnm.Sockets.{destroy_lem, create_receiver-Made}

-- Whether each answer is sent.
abbrev pub all_sent : (List ℕ → Bool) → List (List ℕ) → Bool
all_sent sends [] = true
all_sent sends (a ∷ as') = if sends a then all_sent sends as' else false

module _ {S : Type 0} where
  -- What the callback makes of the messages one after the other.
  abbrev pub answers : (List ℕ → S → Option (List ℕ) × S) → List (List ℕ) → S → List (List ℕ)
  answers callback [] s = []
  answers callback (m ∷ ms) s = elim ((callback m s).0) [
    | none ↦ answers callback ms ((callback m s).1)
    | some a ↦ a ∷ answers callback ms ((callback m s).1)
  ]

  abbrev pub state_after : (List ℕ → S → Option (List ℕ) × S) → List (List ℕ) → S → S
  state_after callback [] s = s
  state_after callback (m ∷ ms) s = state_after callback ms ((callback m s).1)

  -- All answers are sent, or the process ends.
  abbrev pub Replied :
      (List ℕ → S → Option (List ℕ) × S) → (List ℕ → Bool) → List (List ℕ) → S → Heap → Type 0
  Replied callback sends ms s w =
      ((all_sent sends (answers callback ms s) ≡ true)
        × (w' : Heap) × (rep_routine callback sends ms s w
            ≡ some (answers callback ms s, state_after callback ms s, w'))
        × (w'.live ≡ w.live))
      ⊎ ((all_sent sends (answers callback ms s) ≡ false)
          × (rep_routine callback sends ms s w ≡ none))

  pub reply_lem :
      (callback : List ℕ → S → Option (List ℕ) × S) (sends : List ℕ → Bool) (ms : List (List ℕ))
      (s : S) (w : Heap)
      → Replied callback sends ms s w
  unfolding rep_routine
  reply_lem callback sends [] s w = inl (refl, w, refl, refl)
  reply_lem callback sends (m ∷ ms) s w =
      let (w1, freed, live) = release_top ((alloc w).0) ((alloc w).1) w.live (alloc_live w) in
      let rest = reply_lem callback sends ms ((callback m s).1) w1 in
      elim (Option-cases ((callback m s).0)) [
        | inl e ↦ elim rest [
          | inl (q, w2, r, live') ↦ inl (
            simp (answers, e, q) refl,
            w2,
            simp (rep_routine, answers, state_after, e, freed, r) refl,
            live' ∙ live,
          )
          | inr (q, r) ↦ inr (simp (answers, e, q) refl, simp (rep_routine, e, freed, r) refl)
        ]
        | inr (a, e) ↦ elim (Bool-cases (sends a)) [
          | inl y ↦ elim rest [
            | inl (q, w2, r, live') ↦ inl (
              simp (answers, all_sent, e, y, q) refl,
              w2,
              simp (rep_routine, answers, state_after, e, y, freed, r) refl,
              live' ∙ live,
            )
            | inr (q, r) ↦
                inr
                  (simp (answers, all_sent, e, y, q) refl, simp (rep_routine, e, y, freed, r) refl)
          ]
          | inr n ↦ inr (simp (answers, all_sent, e, n) refl, simp (rep_routine, e, n) refl)
        ]
      ]

  pub receive_lem :
      (callback : List ℕ → S → S) (ms : List (List ℕ)) (s : S) (w : Heap)
      → (s' : S) × (w' : Heap) × (recv_routine callback ms s w ≡ some (s', w')) × (w'.live ≡ w.live)
  unfolding recv_routine
  receive_lem callback [] s w = (s, w, refl, refl)
  receive_lem callback (m ∷ ms) s w =
      let (w1, freed, live) = release_top ((alloc w).0) ((alloc w).1) w.live (alloc_live w) in
      let (s', w2, rest, live') = receive_lem callback ms (callback m s) w1 in
      (s', w2, simp (recv_routine, freed, rest) refl, live' ∙ live)

module _ {S : Type 0} (nn : NnCalls) where
  -- When nnm_rep_create gave an object and its thread could be made, the thread of
  -- nnm_rep_routine sends what the callback answers to each message, in order, and frees each
  -- message, until it ends; then nnm_rep_destory returns 0 and closes and frees the object, so
  -- that just as much lives as before. If an answer cannot be sent, the process ends.
  pub rep_lem :
      (callback : List ℕ → S → Option (List ℕ) × S) (sends : List ℕ → Bool) (ms : List (List ℕ))
      (s : S) (arguments : Bool) (w w1 : Heap) (h : Handle)
      → create_receiver nn arguments w ≡ some (some h, w1)
      → nn.thread ≡ true
      → ((all_sent sends (answers callback ms s) ≡ true)
          × (w2 : Heap) × (w3 : Heap) × (rep_routine callback sends ms s w1
              ≡ some (answers callback ms s, state_after callback ms s, w2))
          × (destroy_handle true (some h) w2 ≡ some (true, w3))
          × (w3.live ≡ w.live))
        ⊎ ((all_sent sends (answers callback ms s) ≡ false)
            × (rep_routine callback sends ms s w1 ≡ none))
  rep_lem callback sends ms s arguments w w1 h e made =
      let ((ne, top), t) = create_receiver-Made nn arguments w w1 h e in
      elim (reply_lem callback sends ms s w1) [
        | inl (q, w2, r, live) ↦
            let (w3, d, left) = destroy_lem true h w2 w.live (ne, live ∙ top) (t ∙ made) in
            inl (q, w2, w3, r, d, left)
        | inr (q, r) ↦ inr (q, r)
      ]
