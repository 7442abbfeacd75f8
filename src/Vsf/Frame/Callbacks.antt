-- ===== src/Vsf/Frame/Callbacks.antt =====
-- The callbacks of the frames and the rings they write into, whatever messages arrive.
use freak.Prelude.{
  ℕ, zero, suc, ◌+◌, ◌%◌, ◌^◌, ◌≡◌, ◌≢◌, refl, ◌⊎◌, sym, subst, ap, ◌∙◌, Bool, true, false, List,
  [], ◌∷◌, Option, some, none, ◌==◌, ◌&&◌, if◌then◌else◌, get_elem?, set, arith,
  get_elem?-set-cases, get_elem?-set_at, get_elem?-set_ne, Option-cases, inl, inr,
}
use freak.Proto.{Codec}
use freak.Proto.Types.{FrameCfg, FrameCap}
use freak.Media.{Frame, frame_len}
use freak.Msgbox.Serve.{handled, handled-keeps}
use freak.Msgbox.{Param}
use freak.Vsf.{Info, Mfifo, media_video_frame, reopen}
use freak.Vsf.Frame.{
  FrameMgr, Vpss, VpssCall, ctrl, regcallback, configure, vsf_frame_set, keep_frame_cfg,
  frame_manager, msgbox_vsf_frame, vsf_create_frame_mgr, vsf_get_frame_proc, set_ring,
}

-- The callback that the hardware holds for a subchannel: the last one it was given.
unfoldable pub callback_of : List VpssCall → ℕ → ℕ → Option ℕ
callback_of [] chn subchn = none
callback_of (ctrl c s cfg ∷ calls) chn subchn = callback_of calls chn subchn
callback_of (regcallback c s cb ∷ calls) chn subchn =
    if (c == chn) && (s == subchn) then cb else callback_of calls chn subchn

-- The ring of a subchannel.
abbrev pub frame_ring : ℕ → ℕ → Mfifo
frame_ring c s = record { media = media_video_frame; chn = c; subchn = s }

module _ (create : Mfifo → Bool) (vpss : ℕ → Option Vpss) where
  -- Whether the hardware of a channel takes callbacks.
  abbrev pub registers : ℕ → Bool
  registers c = elim (vpss c) [ none ↦ false | some hal ↦ hal.has_regcallback ]

  -- An open ring is that of its place, and a callback belongs to an open ring of its subchannel.
  pub record IsValid (s : FrameMgr) : Type 0 where
    pub ring_place :
        (id : ℕ) (f : Mfifo)
        → get_elem? s.fifo id ≡ some (some f)
        → (cap : FrameCap) × (get_elem? s.info.caps id ≡ some cap)
          × (f ≡ frame_ring cap.chn cap.subchn)
    pub callback_ring :
        (chn subchn id : ℕ)
        → callback_of s.calls chn subchn ≡ some id
        → (get_elem? s.fifo id ≡ some (some (frame_ring chn subchn))) × (registers chn ≡ true)

  closed :
      (info : Info FrameCfg FrameCap) (id : ℕ) (f : Mfifo)
      → get_elem? (vsf_create_frame_mgr info).fifo id ≢ some (some f)
  unfolding vsf_create_frame_mgr
  closed info zero f = ground arith
  closed info (suc zero) f = ground arith
  closed info (suc (suc zero)) f = ground arith
  closed info (suc (suc (suc zero))) f = ground arith
  closed info (suc (suc (suc (suc zero)))) f = ground arith
  closed info (suc (suc (suc (suc (suc zero))))) f = ground arith
  closed info (suc (suc (suc (suc (suc (suc zero)))))) f = ground arith
  closed info (suc (suc (suc (suc (suc (suc (suc zero))))))) f = ground arith
  closed info (suc (suc (suc (suc (suc (suc (suc (suc id)))))))) f = ground arith

  pub create-IsValid : (info : Info FrameCfg FrameCap) → IsValid (vsf_create_frame_mgr info)
  unfolding vsf_create_frame_mgr callback_of
  create-IsValid info = record {
    ring_place = λ id f h. absurd (closed info id f h);
    callback_ring = λ c s id h. ground arith;
  }

  pub keep-IsValid :
      (cfg : FrameCfg) (s s' : FrameMgr) → IsValid s → keep_frame_cfg cfg s ≡ some s' → IsValid s'
  unfolding keep_frame_cfg
  keep-IsValid cfg s s' v h = record {
    ring_place = λ id f e. ground (arith, v.ring_place id f);
    callback_ring = λ c p id e. ground (arith, v.callback_ring c p id);
  }

  reopen_lem :
      (enable : ℕ) (init : Mfifo) (old new : Option Mfifo)
      → reopen create enable init old ≡ some new
      → ((enable ≡ 0) × (new ≡ none))
        ⊎ ((enable ≢ 0) × (f : Mfifo) × (new ≡ some f) × ((old ≡ some f) ⊎ (f ≡ init)))
  unfolding reopen
  reopen_lem enable init (some f) new h = ground arith
  reopen_lem enable init none new h = ground arith

  -- What a `set` that succeeds has done.
  set_lem :
      (cfg : FrameCfg) (s s' : FrameMgr) (ret : ℕ)
      → vsf_frame_set create vpss cfg s ≡ some (ret, s')
      → (cap : FrameCap) × (old : Option Mfifo) × (new : Option Mfifo) × (get_elem? s.info.caps
            cfg.id
          ≡ some cap)
        × (get_elem? s.fifo cfg.id ≡ some old)
        × (reopen create cfg.enable (frame_ring cap.chn cap.subchn) old ≡ some new)
        × (s' ≡ record s {
          fifo = set s.fifo cfg.id new;
          calls = configure create vpss cap cfg s.calls;
        })
  unfolding vsf_frame_set
  set_lem cfg s s' ret h = ground arith

  configure_lem :
      (cap : FrameCap) (cfg : FrameCfg) (calls : List VpssCall) (chn subchn id : ℕ)
      → callback_of (configure create vpss cap cfg calls) chn subchn ≡ some id
      → ((cap.chn ≡ chn)
          × (cap.subchn ≡ subchn)
          × (cfg.id ≡ id)
          × (cfg.enable ≢ 0)
          × (registers chn ≡ true))
        ⊎ (((¬ ((cap.chn ≡ chn) × (cap.subchn ≡ subchn))) ⊎ (registers chn ≡ false))
            × (callback_of calls chn subchn ≡ some id))
  unfolding configure callback_of
  configure_lem cap cfg calls chn subchn id h = elim (Option-cases (vpss cap.chn)) [
    | inl e ↦ ground arith
    | inr (hal, e) ↦ ground arith
  ]

  -- The ring in the slot of a valid state is that of its place, before and after.
  slot_lem :
      (s : FrameMgr) (cfg : FrameCfg) (place : FrameCap) (old new : Option Mfifo)
      → IsValid s
      → get_elem? s.info.caps cfg.id ≡ some place
      → get_elem? s.fifo cfg.id ≡ some old
      → reopen create cfg.enable (frame_ring place.chn place.subchn) old ≡ some new
      → ((cfg.enable ≡ 0) × (new ≡ none))
        ⊎ ((cfg.enable ≢ 0) × (new ≡ some (frame_ring place.chn place.subchn)))
  slot_lem s cfg place old new v a b c =
      elim (reopen_lem cfg.enable (frame_ring place.chn place.subchn) old new c) [
        | inl p ↦ inl p
        | inr (e, f, p, inr q) ↦ inr (e, p ∙ ap some q)
        | inr (e, f, p, inl q) ↦
            (let (place', a', q') = v.ring_place cfg.id f (b ∙ ap some q) in ground (arith))
      ]

  -- A callback that a `set` does not touch keeps its ring.
  kept :
      (s : FrameMgr) (cfg : FrameCfg) (place : FrameCap) (old new : Option Mfifo)
      (chn subchn id : ℕ)
      → IsValid s
      → ((cfg.enable ≡ 0) × (new ≡ none))
        ⊎ ((cfg.enable ≢ 0) × (new ≡ some (frame_ring place.chn place.subchn)))
      → get_elem? s.info.caps cfg.id ≡ some place
      → get_elem? s.fifo cfg.id ≡ some old
      → ((¬ ((place.chn ≡ chn) × (place.subchn ≡ subchn))) ⊎ (registers chn ≡ false))
        × (callback_of s.calls chn subchn ≡ some id)
      → (get_elem? (set s.fifo cfg.id new) id ≡ some (some (frame_ring chn subchn)))
        × (registers chn ≡ true)
  kept s cfg place old new chn subchn id v r a b (p, q) =
      let (opened, reg) = v.callback_ring chn subchn id q in
      let (place', a', q') = v.ring_place id (frame_ring chn subchn) opened in
      let other : cfg.id ≢ id = λ e. ground (arith, ap (get_elem? s.info.caps) e) in
      (get_elem?-set_ne s.fifo new other ∙ opened, reg)

  pub set-IsValid :
      (cfg : FrameCfg) (s s' : FrameMgr) (ret : ℕ)
      → IsValid s
      → vsf_frame_set create vpss cfg s ≡ some (ret, s')
      → IsValid s'
  set-IsValid cfg s s' ret v h =
      let (place, old, new, a, b, c, d) = set_lem cfg s s' ret h in
      let r = slot_lem s cfg place old new v a b c in
      subst IsValid (sym d) (record {
        ring_place = λ id f e. elim (get_elem?-set-cases s.fifo cfg.id id new (some f) e) [
          | inl (p, q) ↦ (place, ap (get_elem? s.info.caps) (sym p) ∙ a, ground arith)
          | inr (p, q) ↦ v.ring_place id f q
        ];
        callback_ring = λ chn subchn id e. elim (configure_lem place cfg s.calls chn subchn id e) [
          | inl p ↦ ground (arith, get_elem?-set_at s.fifo cfg.id old new b)
          | inr p ↦ kept s cfg place old new chn subchn id v r a b p
        ];
      })

  -- The state after any messages is valid.
  pub handled-IsValid :
      (cfg : Codec FrameCfg) (cap : Codec FrameCap) (num : Codec ℕ) (info : Info FrameCfg FrameCap)
      (ps : List Param) (s : FrameMgr)
      → handled (msgbox_vsf_frame create vpss cfg cap num) ps (vsf_create_frame_mgr info) ≡ some s
      → IsValid s
  handled-IsValid cfg cap num info ps s h =
      handled-keeps (frame_manager create vpss) cfg cap num IsValid
        (λ x s1 s2 ret v. set-IsValid x s1 s2 ret v) (λ x s1 s2 v. keep-IsValid x s1 s2 v) ps
        (vsf_create_frame_mgr info) s (create-IsValid info) h

  -- Whatever messages the frame manager has handled from its creation on, as long as no message
  -- is being handled, a callback that the hardware holds for a subchannel finds an open ring,
  -- that of the subchannel, and puts the frame into it with the size of the record. But between
  -- the two halves of __vsf_frame_set for a message that disables it, the hardware still holds
  -- the callback and it finds no ring.
  pub frame_callback_lem :
      (cfg : Codec FrameCfg) (cap : Codec FrameCap) (num : Codec ℕ) (info : Info FrameCfg FrameCap)
      (ps : List Param) (s : FrameMgr) (chn subchn id : ℕ) (put : Mfifo → Frame → ℕ → ℕ)
      (frame : Frame) (x : FrameCfg)
      → handled (msgbox_vsf_frame create vpss cfg cap num) ps (vsf_create_frame_mgr info) ≡ some s
      → callback_of s.calls chn subchn ≡ some id
      → let totalsize : ℕ = (240 + frame_len frame) % 2 ^ 64 in
        (vsf_get_frame_proc put id frame s
          ≡ some (put (frame_ring chn subchn) frame totalsize == totalsize))
        × (s1 : FrameMgr) × (set_ring create (record x { id = id; enable = 0 }) s ≡ some s1)
        × (callback_of s1.calls chn subchn ≡ some id)
        × (vsf_get_frame_proc put id frame s1 ≡ none)
  unfolding vsf_get_frame_proc set_ring reopen
  frame_callback_lem cfg cap num info ps s chn subchn id put frame x h e =
      let v = handled-IsValid cfg cap num info ps s h in
      let opened = (v.callback_ring chn subchn id e).0 in
      let (place, there, same) = v.ring_place id (frame_ring chn subchn) opened in
      (
        rw opened refl,
        record s { fifo = set s.fifo id none },
        simp (set_ring, there, opened) refl,
        e,
        rw (get_elem?-set_at s.fifo id (some (frame_ring chn subchn)) none opened) refl,
      )

  -- In a valid state, a set of the frame manager that succeeds leaves the ring of its place open
  -- on enable and the slot empty on disable, touches no other slot, and on disable no callback
  -- with its id is left in the hardware.
  pub vsf_frame_set_lem :
      (cfg : FrameCfg) (s s' : FrameMgr) (ret : ℕ)
      → IsValid s
      → vsf_frame_set create vpss cfg s ≡ some (ret, s')
      → (cap : FrameCap) × (get_elem? s.info.caps cfg.id ≡ some cap)
        × (get_elem? s'.fifo cfg.id
            ≡ some (if cfg.enable == 0 then none else some (frame_ring cap.chn cap.subchn)))
        × ((j : ℕ) → cfg.id ≢ j → get_elem? s'.fifo j ≡ get_elem? s.fifo j)
        × ((cfg.enable ≡ 0) → (c p : ℕ) → callback_of s'.calls c p ≢ some cfg.id)
  vsf_frame_set_lem cfg s s' ret v h =
      let (place, old, new, a, b, c, d) = set_lem cfg s s' ret h in
      let r = slot_lem s cfg place old new v a b c in
      let slot : get_elem? s'.fifo cfg.id ≡ some new =
        ap (λ x. get_elem? x.fifo cfg.id) d ∙ get_elem?-set_at s.fifo cfg.id old new b in
      (
        place,
        a,
        ground arith,
        λ j ne. ap (λ x. get_elem? x.fifo j) d ∙ get_elem?-set_ne s.fifo new ne,
        λ off c p e.
            (let held = (set-IsValid cfg s s' ret v h).callback_ring c p cfg.id e in ground arith),
      )
