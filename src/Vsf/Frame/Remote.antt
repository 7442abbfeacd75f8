-- ===== src/Vsf/Frame/Remote.antt =====
-- The frame manager as another process sees it: its messages reach the vsf process.
use freak.Prelude.{
  ℕ, ◌≡◌, refl, ap, ◌∙◌, Bool, true, Option, some, none, ◌==◌, get_elem?, set, arith,
  get_elem?-set_at, Option-cases, Bool-cases, inl, inr,
}
use freak.Proto.{Codec, IsCodec, vsf_key_frame, action_set, action_get}
use freak.Proto.Types.{FrameCfg, FrameCap}
use freak.Proto.Clients.{frame_set, frame_get}
use freak.Msgbox.{Table}
use freak.Msgbox.Serve.{served, request-served, serve-set, serve-get}
use freak.Vsf.{Mfifo, reopen}
use freak.Vsf.Frame.{
  FrameMgr, Vpss, vsf_frame_set, configure, vsf_frame_get, keep_frame_cfg, frame_manager,
  msgbox_vsf_frame,
}
use freak.Vsf.Frame.Callbacks.{frame_ring}

module _ (create : Mfifo → Bool) (vpss : ℕ → Option Vpss) (codec : Codec FrameCfg)
    (cap : Codec FrameCap) (num : Codec ℕ) {Fits : FrameCfg → Type 0} (l : IsCodec codec Fits)
    (t : Table FrameMgr) (format now later : ℕ) where
  reopen-some :
      (enable : ℕ) (init : Mfifo) (old : Option Mfifo)
      → create init ≡ true
      → (new : Option Mfifo) × (reopen create enable init old ≡ some new)
  unfolding reopen
  reopen-some enable init old h = elim (Bool-cases (enable == 0)) [
    | inl e ↦ (none, ground arith)
    | inr e ↦ elim (Option-cases old) [
      | inl n ↦ (some init, rw e (rw n (rw h refl)))
      | inr (f, n) ↦ (some f, rw e (rw n refl))
    ]
  ]

  -- A `set` in range succeeds where the ring can be created.
  set_total :
      (x : FrameCfg) (s : FrameMgr) (place : FrameCap) (fifo : Option Mfifo) (old : FrameCfg)
      → get_elem? s.info.caps x.id ≡ some place
      → get_elem? s.fifo x.id ≡ some fifo
      → get_elem? s.info.cfgs x.id ≡ some old
      → create (frame_ring place.chn place.subchn) ≡ true
      → (s1 : FrameMgr) × (s2 : FrameMgr) × (vsf_frame_set create vpss x s ≡ some (0, s1))
        × (keep_frame_cfg x s1 ≡ some s2)
        × (get_elem? s2.info.cfgs x.id ≡ some x)
  unfolding vsf_frame_set keep_frame_cfg reopen
  set_total x s place fifo old a b c d =
      let (new, r) = reopen-some x.enable (frame_ring place.chn place.subchn) fifo d in
      let s1 : FrameMgr = record s {
        fifo = set s.fifo x.id new;
        calls = configure create vpss place x s.calls;
      } in
      (
        s1,
        record s1 { info = record s.info { cfgs = set s.info.cfgs x.id x } },
        rw a (rw b (rw r refl)),
        rw c refl,
        get_elem?-set_at s.info.cfgs x.id old x c,
      )

  -- Another process that sets a frame configuration by message gets the same configuration back,
  -- and a later get for the same id answers with it, in either format. The conditions: the vsf
  -- process serves the frames' key, the id is in range of its tables, the ring can be created,
  -- and the values fit the C structure, of which the codec gives them back.
  pub frame_set_get :
      (x y : FrameCfg) (s : FrameMgr) (place : FrameCap) (fifo : Option Mfifo) (old : FrameCfg)
      → Fits x
      → Fits y
      → get_elem? t vsf_key_frame ≡ some (some (msgbox_vsf_frame create vpss codec cap num))
      → get_elem? s.info.caps x.id ≡ some place
      → get_elem? s.fifo x.id ≡ some fifo
      → get_elem? s.info.cfgs x.id ≡ some old
      → create (frame_ring place.chn place.subchn) ≡ true
      → y.id ≡ x.id
      → (s' : FrameMgr) × (frame_set (served t later) format now codec x s ≡ some (x, s'))
        × (frame_get (served t later) format now codec y s' ≡ some (x, s'))
  unfolding frame_set frame_get vsf_frame_get
  frame_set_get x y s place fifo old fx fy e a b c d f =
      let (s1, s2, set_ok, keep_ok, got) = set_total x s place fifo old a b c d in
      (
        s2,
        request-served codec l t (msgbox_vsf_frame create vpss codec cap num) vsf_key_frame
            action_set x.id format now later x x s s2 fx e
            (serve-set (frame_manager create vpss) codec cap num l x.id format x s s1 s2 fx set_ok
              keep_ok),
        request-served codec l t (msgbox_vsf_frame create vpss codec cap num) vsf_key_frame
            action_get y.id format now later y x s2 s2 fx e
            (serve-get (frame_manager create vpss) codec cap num l y.id format y x s2 fy
              (ap (get_elem? s2.info.cfgs) f ∙ got)),
      )
