-- ===== src/Vsf/Streams/Callbacks.antt =====
-- The callbacks of the streams and the rings they write into, whatever messages arrive.
use freak.Prelude.{
  ℕ, zero, suc, ◌≡◌, sym, ap, ◌∙◌, Bool, true, List, [], ◌∷◌, Option, some, none, ◌==◌,
  if◌then◌else◌, get_elem?, set, arith, get_elem?-set-cases, Option-cases, inl, inr,
}
use freak.Proto.{Codec}
use freak.Proto.Types.{StreamCfg, StreamCap}
use freak.Msgbox.{Param}
use freak.Msgbox.Serve.{handled, handled-keeps}
use freak.Vsf.{Info, Mfifo, media_video_stream, reopen}
use freak.Vsf.Streams.{
  StreamMgr, VencCall, vsf_stream_set, keep_stream_cfg, stream_manager, msgbox_vsf_stream,
  vsf_create_stream_mgr,
}

-- The callback that the encoder of a channel holds: the last one it was given.
unfoldable pub held : List VencCall → ℕ → Option ℕ
held [] chn = none
held (c ∷ calls) chn = if c.chn == chn then c.callback else held calls chn

-- The callback that goes with a slot.
abbrev pub callback_of_slot : ℕ → Option Mfifo → Option ℕ
callback_of_slot id none = none
callback_of_slot id (some f) = some id

module _ (create : Mfifo → Bool) (has_regcallback : ℕ → Bool) where
  -- Each encoder that takes callbacks holds one just when the ring of its stream is open.
  unfoldable pub IsServed : StreamMgr → Type 0
  IsServed s =
      (id : ℕ) (slot : Option Mfifo)
      → has_regcallback id ≡ true
      → get_elem? s.fifo id ≡ some slot
      → held s.calls id ≡ callback_of_slot id slot

  pub create-IsServed : (info : Info StreamCfg StreamCap) → IsServed (vsf_create_stream_mgr info)
  unfolding IsServed vsf_create_stream_mgr held
  create-IsServed info zero slot r h = ground arith
  create-IsServed info (suc zero) slot r h = ground arith
  create-IsServed info (suc (suc zero)) slot r h = ground arith
  create-IsServed info (suc (suc (suc zero))) slot r h = ground arith
  create-IsServed info (suc (suc (suc (suc zero)))) slot r h = ground arith
  create-IsServed info (suc (suc (suc (suc (suc zero))))) slot r h = ground arith
  create-IsServed info (suc (suc (suc (suc (suc (suc id)))))) slot r h = ground arith

  keep-IsServed :
      (cfg : StreamCfg) (s s' : StreamMgr)
      → IsServed s
      → keep_stream_cfg cfg s ≡ some s'
      → IsServed s'
  unfolding IsServed keep_stream_cfg
  keep-IsServed cfg s s' v h id slot r e = ground (arith, v id slot r)

  reopen_open :
      (enable : ℕ) (init : Mfifo) (old new : Option Mfifo) (id : ℕ)
      → reopen create enable init old ≡ some new
      → callback_of_slot id new ≡ (if enable == 0 then none else some id)
  unfolding reopen
  reopen_open enable init (some f) new id h = ground arith
  reopen_open enable init none new id h = ground arith

  -- What a `set` that succeeds has done.
  set_lem :
      (cfg : StreamCfg) (s s' : StreamMgr) (ret : ℕ)
      → vsf_stream_set create has_regcallback cfg s ≡ some (ret, s')
      → (init : Mfifo) × (old : Option Mfifo) × (new : Option Mfifo) × (reopen create cfg.enable
            init old
          ≡ some new)
        × (s'.fifo ≡ set s.fifo cfg.id new)
        × (s'.calls ≡ (
            if has_regcallback cfg.id
            then record { chn = cfg.id; callback = if cfg.enable == 0 then none else some cfg.id }
              ∷ s.calls
            else s.calls))
  unfolding vsf_stream_set
  set_lem cfg s s' ret h = elim (Option-cases (get_elem? s.info.caps cfg.id)) [
    | inl e ↦ absurd (ground arith)
    | inr (place, e) ↦ elim (Option-cases (get_elem? s.fifo cfg.id)) [
      | inl f ↦ absurd (ground arith)
      | inr (old, f) ↦
          (let init : Mfifo = record {
            media = media_video_stream;
            chn = place.chn;
            subchn = place.subchn;
          } in
            elim (Option-cases (reopen create cfg.enable init old)) [
              | inl g ↦ absurd (ground arith)
              | inr (new, g) ↦ (init, old, new, g, ground arith, ground arith)
            ])
    ]
  ]

  set-IsServed :
      (cfg : StreamCfg) (s s' : StreamMgr) (ret : ℕ)
      → IsServed s
      → vsf_stream_set create has_regcallback cfg s ≡ some (ret, s')
      → IsServed s'
  unfolding IsServed held
  set-IsServed cfg s s' ret v h id slot r e =
      let (init, old, new, a, b, c) = set_lem cfg s s' ret h in
      let o = reopen_open cfg.enable init old new cfg.id a in
      let e' : get_elem? (set s.fifo cfg.id new) id ≡ some slot =
        ap (λ x. get_elem? x id) (sym b) ∙ e in
      elim (get_elem?-set-cases s.fifo cfg.id id new slot e') [
        | inl (p, q) ↦ ground (
          arith,
          ap has_regcallback p,
          ap (λ x. held x id) c,
          ap (callback_of_slot id) q,
          ap (λ x. callback_of_slot x new) p,
        )
        | inr (p, q) ↦ ground (arith, v id slot r q, ap (λ x. held x id) c)
      ]

  -- Whatever messages the stream manager handles from its creation on, each encoder that takes
  -- callbacks holds the callback of its stream just when the ring of the stream is open, and
  -- none otherwise.
  pub handled-IsServed :
      (cfg : Codec StreamCfg) (cap : Codec StreamCap) (num : Codec ℕ)
      (info : Info StreamCfg StreamCap) (ps : List Param) (s : StreamMgr)
      → handled
          (msgbox_vsf_stream create has_regcallback cfg cap num)
          ps
          (vsf_create_stream_mgr info)
        ≡ some s
      → IsServed s
  handled-IsServed cfg cap num info ps s h =
      handled-keeps (stream_manager create has_regcallback) cfg cap num IsServed
        (λ x s1 s2 ret v. set-IsServed x s1 s2 ret v) (λ x s1 s2 v. keep-IsServed x s1 s2 v) ps
        (vsf_create_stream_mgr info) s (create-IsServed info) h
