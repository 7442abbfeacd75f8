-- ===== src/Startup/Overlays.antt =====
-- A set of an overlay at the start.
use freak.Prelude.{
  ℕ, ◌≡◌, refl, Option, some, get_elem?, ◌∷◌, inl, inr, Bool-cases, Option-cases, arith,
}
use freak.Proto.{Codec}
use freak.Proto.Types.{OsdCfg, OsdCap}
use freak.Msgbox.{Manager, serve, serve_osd}
use freak.Vsf.Osd.{
  is_condition, mask_word, texts_word, objs_word, OsdMgr, RgnCfg, control, vsf_osd_ctrl, region,
  bitmap_chn, cover, ctrl_texts, ctrl_objs,
}
use freak.Startup.Loop.{ServesAs}

module _ {S Cfg Cap : Type 0} (m : Manager S Cfg Cap) (cfg : Codec Cfg) (cap : Codec Cap)
    (num : Codec ℕ) where
  pub osd_serves : ServesAs (serve_osd m cfg cap num) (serve m cfg cap num)
  unfolding serve_osd serve
  osd_serves p s h = ground arith

module _ (rgn : ℕ → Option (RgnCfg → ℕ))
    (zero_ctrl : (id : ℕ) (ctrl : RgnCfg → ℕ) (r : RgnCfg) → rgn id ≡ some ctrl → ctrl r ≡ 0) where
  control_total :
      (id : ℕ) (r : RgnCfg) (s : OsdMgr)
      → (s1 : OsdMgr) × (control rgn id r s ≡ (0, s1)) × (s1.info ≡ s.info)
  unfolding control
  control_total id r s = elim (Option-cases (rgn id)) [
    | inl e ↦ (s, simp (control, e) refl, refl)
    | inr (ctrl, e) ↦ (
      record s { calls = (id, r) ∷ s.calls },
      simp (control, e, zero_ctrl id ctrl r e) refl,
      refl,
    )
  ]

  -- It returns 0 and keeps the configurations.
  pub ctrl_total :
      (x : OsdCfg) (c : OsdCap) (s : OsdMgr)
      → get_elem? s.info.caps x.id ≡ some c
      → (s1 : OsdMgr) × (vsf_osd_ctrl rgn x s ≡ some (0, s1)) × (s1.info ≡ s.info)
  unfolding vsf_osd_ctrl
  ctrl_total x c s h = elim (Bool-cases (is_condition mask_word x)) [
    | inl a ↦
        (let (s1, e, i) = control_total x.id (region x 4 c.chn cover) s in
          (s1, rw (a, h, e) refl, i))
    | inr a ↦ elim (Bool-cases (is_condition texts_word x)) [
      | inl b ↦
          (let (s1, e, i) = control_total x.id (region x 1 (bitmap_chn c) ctrl_texts) s in
            (s1, rw (a, b, h, e) refl, i))
      | inr b ↦ elim (Bool-cases (is_condition objs_word x)) [
        | inl d ↦
            (let (s1, e, i) = control_total x.id (region x 0 (bitmap_chn c) ctrl_objs) s in
              (s1, rw (a, b, d, h, e) refl, i))
        | inr d ↦ (s, rw (a, b, d) refl, refl)
      ]
    ]
  ]
