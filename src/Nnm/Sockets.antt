-- ===== src/Nnm/Sockets.antt =====
-- Objects are made and destroyed.
use freak.Prelude.{
  ℕ, not, ◌||◌, ◌≡◌, ◌≢◌, refl, ap, ◌∙◌, subst, Bool, true, false, List, ◌∷◌, Option, some,
  some-injective, arith,
}
use freak.Proto.{◌>>◌, check}
use freak.Memory.{Heap, alloc}
use freak.Memory.Stack.{release_top, release_second, alloc_live, fresh}
use freak.Nnm.{Handle, NnCalls, create_sender, create_receiver, destroy_handle}

-- An object that was made, with what lived before.
abbrev pub Made : Handle → Heap → List ℕ → Type 0
Made h w rest = (h.memory ≢ h.socket) × (w.live ≡ h.memory ∷ h.socket ∷ rest)

-- An object is destroyed: what lived before is left.
pub destroy_lem :
    (joins : Bool) (h : Handle) (w : Heap) (rest : List ℕ)
    → Made h w rest
    → (not joins || h.thread) ≡ true
    → (w' : Heap) × (destroy_handle joins (some h) w ≡ some (true, w')) × (w'.live ≡ rest)
unfolding destroy_handle
destroy_lem joins h w rest (ne, top) t =
    let (w2, a, b) = release_second h.memory h.socket w rest ne top in
    let (w3, c, d) = release_top h.memory w2 rest b in (w3, simp (destroy_handle, a, t, c) refl, d)

checked : {B : Type 0} → (c : Bool) (o : Option B) (b : B) → (check c >> o) ≡ some b → o ≡ some b
checked true o b h = h
checked false o b h = absurd (ground (arith, h))

-- What a creation makes.
new : Bool → Heap → Handle × Heap
new t w = (
  record { memory = (alloc ((alloc w).1)).0; socket = (alloc w).0; thread = t },
  (alloc ((alloc w).1)).1,
)

new-Made :
    (t : Bool) (w : Heap) (p : Handle × Heap)
    → new t w ≡ p
    → Made (p.0) (p.1) w.live × ((p.0).thread ≡ t)
unfolding new
new-Made t w p e =
    subst (λ q. Made (q.0) (q.1) w.live × ((q.0).thread ≡ t)) e
      (
        (fresh w, alloc_live ((alloc w).1) ∙ ap (◌∷◌ ((alloc ((alloc w).1)).0)) (alloc_live w)),
        refl,
      )

module _ (nn : NnCalls) where
  -- A creation that returns 0 made an object, with a thread if that could be made.
  pub create_receiver-Made :
      (arguments : Bool) (w w1 : Heap) (h : Handle)
      → create_receiver nn arguments w ≡ some (some h, w1)
      → Made h w1 w.live × (h.thread ≡ nn.thread)
  unfolding create_receiver new
  create_receiver-Made false w w1 h e = absurd (ground (arith, e))
  create_receiver-Made true w w1 h e =
      let n = new nn.thread w in
      let e2 : ◌≡◌ {A = Option (Option Handle × Heap)} (some (some (n.0), n.1))
          (some (some h, w1)) =
        checked nn.memory _ (some h, w1)
          (checked nn.address _ (some h, w1)
            (checked nn.option _ (some h, w1) (checked nn.socket _ (some h, w1) e))) in
      let pair = some-injective _ _ e2 in
      let first = some-injective _ _ (ap (λ p. p.0) pair) in
      new-Made nn.thread w (h, w1)
        (ap (λ a. (a, n.1)) first ∙ ap (λ b. (h, b)) (ap (λ p. p.1) pair))

  pub create_sender-Made :
      (w w1 : Heap) (h : Handle) → create_sender nn w ≡ some (h, w1) → Made h w1 w.live
  unfolding create_sender new
  create_sender-Made w w1 h e =
      let e2 : ◌≡◌ {A = Option (Handle × Heap)} (some (new false w)) (some (h, w1)) =
        checked nn.memory _ (h, w1)
          (checked nn.address _ (h, w1) (checked nn.socket _ (h, w1) e)) in
      (new-Made false w (h, w1) (some-injective _ _ e2)).0
