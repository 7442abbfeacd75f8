-- ===== src/Vsf/Osd/Triggers.antt =====
-- What a trigger of an overlay does, and what it leaves alone.
use freak.Prelude.{ℕ, ◌≡◌, ◌⊎◌, refl, inl, inr, List, Option, some, get_elem?, Option-cases, arith}
use freak.Proto.{Codec, decode, action_set}
use freak.Proto.Types.{OsdCfg, OsdCap}
use freak.Msgbox.{Param, serve_osd, serve_get, serve_cap, serve_num, serve_tgr}
use freak.Vsf.Osd.{
  OsdMgr, RgnCfg, region, bitmap_chn, cover, ctrl_texts, ctrl_objs, control, vsf_osd_ctrl,
  osd_manager, msgbox_vsf_osd,
}

module _ (rgn : ℕ → Option (RgnCfg → ℕ)) where
  control_info : (id : ℕ) (r : RgnCfg) (s : OsdMgr) → (control rgn id r s).1.info ≡ s.info
  unfolding control
  control_info id r s = elim (Option-cases (rgn id)) [
    | inl e ↦ rw (e, control) refl
    | inr (c, e) ↦ rw (e, control) refl
  ]

  ctrl_info :
      (cfg : OsdCfg) (s s' : OsdMgr) (ret : ℕ)
      → vsf_osd_ctrl rgn cfg s ≡ some (ret, s')
      → s'.info ≡ s.info
  unfolding vsf_osd_ctrl
  ctrl_info cfg s s' ret h = elim (Option-cases (get_elem? s.info.caps cfg.id)) [
    | inl e ↦ ground arith
    | inr (c, e) ↦ ground (
      arith,
      control_info cfg.id (region cfg 4 c.chn cover) s,
      control_info cfg.id (region cfg 1 (bitmap_chn c) ctrl_texts) s,
      control_info cfg.id (region cfg 0 (bitmap_chn c) ctrl_objs) s,
    )
  ]

  tgr_info :
      (cfg : Codec OsdCfg) (p : Param) (s s' : OsdMgr) (ret : ℕ) (out : List ℕ)
      → serve_tgr (osd_manager rgn) cfg p s ≡ some (ret, out, s')
      → s'.info ≡ s.info
  unfolding serve_tgr
  tgr_info cfg p s s' ret out h = elim (Option-cases (decode cfg p.format p.isize p.input)) [
    | inl e ↦ absurd (ground arith)
    | inr (x, e) ↦ elim (Option-cases (vsf_osd_ctrl rgn x s)) [
      | inl f ↦ absurd (ground arith)
      | inr ((r, s1), f) ↦ ground (arith, ctrl_info x s s1 r f)
    ]
  ]

  -- Whatever message the overlays' handler answers, the stored configurations change only by a
  -- set: a trigger shows its overlay and leaves them as they are.
  pub trigger_lem :
      (cfg : Codec OsdCfg) (cap : Codec OsdCap) (num : Codec ℕ) (p : Param) (s s' : OsdMgr)
      (ret : ℕ) (out : List ℕ)
      → msgbox_vsf_osd rgn cfg cap num p s ≡ some (ret, out, s')
      → (s'.info ≡ s.info) ⊎ (p.action ≡ action_set)
  unfolding serve_osd serve_get serve_cap serve_num
  trigger_lem cfg cap num p s s' ret out h = ground (arith, tgr_info cfg p s s' ret out)
