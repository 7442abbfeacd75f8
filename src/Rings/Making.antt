-- ===== src/Rings/Making.antt =====
-- Making a ring's object, and destroying it.
use Prim.Native.Nat.{bit_or}
use freak.Prelude.{
  ◌≡◌, ◌≢◌, ◌⊎◌, ◌<◌, ltb, ◌↔◌, inl, inr, refl, ◌∙◌, Bool, true, Option, some, none, length, ◌==◌,
  arith, Bool-cases,
}
use freak.Memory.{Heap, alloc}
use freak.Memory.Stack.{release_top, alloc_live}
use freak.Media.{Stream, stream_tag, tag_base}
use freak.Rings.{
  Init, Hooks, video_stream, video_frame, Opt, Opening, Object, ring_name, open_ring, mfifo_init,
  mfifo_destroy, media_video_stream, media_video_frame, wanted_tag,
}

module _ (opens : Opening → Bool) (malloc : Bool) where
  -- A call that gives NULL leaves nothing, and an object is freed by `mfifo_destroy`.
  abbrev pub Made : Init → Opt → Hooks → Heap → Option Object → Heap → Type 0
  Made init opt hooks w o w' =
      ((o ≡ none) × (w'.live ≡ w.live))
      ⊎ ((x : Object) × (w2 : Heap) × (o ≡ some x)
          × (opens x.opened ≡ true)
          × (x.opened
              ≡ record { name = ring_name hooks init.chn init.subchn; hooks = hooks; opt = opt })
          × (mfifo_destroy x w' ≡ some w2)
          × (w2.live ≡ w.live))

  open_ring_lem :
      (init : Init) (opt : Opt) (hooks : Hooks) (w : Heap)
      → (o : Option Object) × (w' : Heap) × (open_ring opens malloc init opt hooks w ≡ some (o, w'))
        × Made init opt hooks w o w'
  unfolding open_ring mfifo_destroy
  open_ring_lem init opt hooks w =
      let opening : Opening = record {
        name = ring_name hooks init.chn init.subchn;
        hooks = hooks;
        opt = opt;
      } in
      let w1 = (alloc w).1 in
      let (w3, a, b) = release_top ((alloc w).0) w1 w.live (alloc_live w) in
      elim (Bool-cases malloc) [
        | inr e ↦ (none, w, simp (open_ring, e) refl, inl (refl, refl))
        | inl e ↦ elim (Bool-cases (opens opening)) [
          | inr f ↦ (none, w3, simp (open_ring, e, f, a) refl, inl (refl, b))
          | inl f ↦
              (let x : Object = record {
                memory = (alloc w).0;
                ring = (alloc w1).0;
                opened = opening;
              } in
                let (w4, c, d) =
                  release_top ((alloc w1).0) ((alloc w1).1) w1.live (alloc_live w1) in
                let (w5, g, h) = release_top ((alloc w).0) w4 w.live (d ∙ alloc_live w) in
                (
                  some x,
                  (alloc w1).1,
                  simp (open_ring, e, f) refl,
                  inr (x, w5, refl, f, refl, simp (mfifo_destroy, c, g) refl, h),
                ))
        ]
      ]

  -- mfifo_init gives NULL for a type that it does not know. For the others it gives NULL and
  -- leaves nothing over, or an object whose ring was opened by the name of its place with the
  -- hooks of its type, and mfifo_destroy closes the ring and frees the object, so that just as
  -- much lives as before.
  pub mfifo_init_lem :
      (init : Init) (opt : Opt) (w : Heap)
      → (o : Option Object) × (w' : Heap) × (mfifo_init opens malloc init opt w ≡ some (o, w'))
        × (((init.type ≡ media_video_stream) × Made init opt video_stream w o w')
            ⊎ ((init.type ≡ media_video_frame) × Made init opt video_frame w o w')
            ⊎ ((init.type ≢ media_video_stream)
                × (init.type ≢ media_video_frame)
                × (o ≡ none)
                × (w' ≡ w)))
  unfolding mfifo_init
  mfifo_init_lem init opt w = elim (Bool-cases (init.type == media_video_stream)) [
    | inl e ↦
        (let (o, w', a, b) = open_ring_lem init opt video_stream w in
          (o, w', simp (mfifo_init, e) a, inl (ground arith, b)))
    | inr e ↦ elim (Bool-cases (init.type == media_video_frame)) [
      | inl f ↦
          (let (o, w', a, b) = open_ring_lem init opt video_frame w in
            (o, w', simp (mfifo_init, e, f) a, inr (inl (ground arith, b))))
      | inr f ↦ (
        none,
        w,
        simp (mfifo_init, e, f) refl,
        inr (inr (λ g. ground arith, λ g. ground arith, refl, refl)),
      )
    ]
  ]

differ : wanted_tag ≢ bit_or tag_base 0
unfolding wanted_tag
differ h = omega arith

-- The tag that is asked for is that of the records with more than one pack.
tag_lem : (s : Stream) → (wanted_tag ≡ stream_tag s) ↔ (1 < length s.packs)
unfolding wanted_tag
tag_lem s = elim (Bool-cases (ltb 1 (length s.packs))) [
  | inl e ↦ (λ h. ground arith, λ h. rw e refl)
  | inr e ↦ (λ h. absurd (differ (h ∙ simp (stream_tag, e) refl)), λ h. absurd (ground arith))
]
