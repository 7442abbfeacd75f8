-- ===== src/Startup/Video.antt =====
-- The start of the vsf process.
use freak.Prelude.{
  ℕ, zero, suc, ◌≡◌, ◌≤◌, ◌<◌, refl, subst, Bool, true, List, [], ◌∷◌, Option, some, none, ◌==◌,
  if◌then◌else◌, get_elem?, set, arith,
}
use freak.Proto.Types.{FrameCfg, FrameCap, StreamCfg, StreamCap, OsdCfg, OsdCap}
use freak.Vsf.{Info, Mfifo, media_video_frame, media_video_stream, reopen}
use freak.Vsf.Frame.{FrameMgr, Vpss, vsf_frame_set, keep_frame_cfg, configure, vsf_create_frame_mgr}
use freak.Vsf.Streams.{StreamMgr, vsf_stream_set, keep_stream_cfg, vsf_create_stream_mgr}
use freak.Startup.{frame_with, stream_with, osd_with}
use freak.Startup.Slots.{slot_next, AreSlots, AreSlots-zero, set_same, set-AreSlots}

-- A stored configuration and its place, for each id below `num`, with what holds of them.
pub record Stored {Cfg Cap : Type 0} (P : ℕ → Cfg → Cap → Type 0) (limit : ℕ) (info : Info Cfg Cap)
    : Type 0 where
  pub few : info.num ≤ limit
  pub each :
      (i : ℕ)
      → i < info.num
      → (x : Cfg) × (c : Cap) × (get_elem? info.cfgs i ≡ some x)
        × (get_elem? info.caps i ≡ some c)
        × P i x c

-- The ring that a configuration and its place ask for.
abbrev pub ring_of : ℕ → Mfifo → Option Mfifo
ring_of enable init = if enable == 0 then none else some init

module _ (create : Mfifo → Bool) where
  reopen-none :
      (enable : ℕ) (init : Mfifo)
      → create init ≡ true
      → reopen create enable init none ≡ some (ring_of enable init)
  unfolding reopen
  reopen-none enable init h = ground arith

abbrev pub frame_place : FrameCap → Mfifo
frame_place c = record { media = media_video_frame; chn = c.chn; subchn = c.subchn }

-- The ring of an id, by the stored configuration.
abbrev pub frame_ring_at : Info FrameCfg FrameCap → ℕ → Option Mfifo
frame_ring_at info i = elim (get_elem? info.cfgs i) [
  | none ↦ none
  | some x ↦ elim (get_elem? info.caps i) [
    | none ↦ none
    | some c ↦ ring_of x.enable (frame_place c)
  ]
]

-- The frame manager when the ids below `i` are set.
abbrev pub FramesStarted : Info FrameCfg FrameCap → ℕ → FrameMgr → Type 0
FramesStarted info i s = (s.info ≡ info) × AreSlots (frame_ring_at info) 8 i s.fifo

module _ (create : Mfifo → Bool) (vpss : ℕ → Option Vpss) (info : Info FrameCfg FrameCap)
    (x : FrameCfg) (c : FrameCap) (cfg : get_elem? info.cfgs x.id ≡ some x)
    (cap : get_elem? info.caps x.id ≡ some c) (made : create (frame_place c) ≡ true) where
  frame_ring_is : frame_ring_at info x.id ≡ ring_of x.enable (frame_place c)
  frame_ring_is = simp (frame_ring_at, cfg, cap) refl

  pub frame_turn :
      (s : FrameMgr)
      → x.id < 8
      → FramesStarted info x.id s
      → (s1 : FrameMgr) × (s2 : FrameMgr) × (vsf_frame_set create vpss x s ≡ some (0, s1))
        × (keep_frame_cfg x s1 ≡ some s2)
        × FramesStarted info (suc x.id) s2
  unfolding vsf_frame_set keep_frame_cfg
  frame_turn s lt (e, v) =
      let s1 : FrameMgr = record s {
        fifo = set s.fifo x.id (ring_of x.enable (frame_place c));
        calls = configure create vpss c x s.calls;
      } in
      (
        s1,
        record s1 { info = record s.info { cfgs = set s.info.cfgs x.id x } },
        rw
            (
              e,
              cap,
              v x.id lt,
              slot_next (frame_ring_at info) x.id,
              reopen-none create x.enable (frame_place c) made,
            )
            refl,
        rw (e, cfg) refl,
        (
          rw (e, set_same info.cfgs x.id x cfg) refl,
          subst (λ r. AreSlots (frame_ring_at info) 8 (suc x.id) (set s.fifo x.id r)) frame_ring_is
              (set-AreSlots (frame_ring_at info) 8 x.id s.fifo lt v),
        ),
      )

abbrev pub stream_place : StreamCap → Mfifo
stream_place c = record { media = media_video_stream; chn = c.chn; subchn = c.subchn }

-- The ring of an id, by the stored configuration.
abbrev pub stream_ring_at : Info StreamCfg StreamCap → ℕ → Option Mfifo
stream_ring_at info i = elim (get_elem? info.cfgs i) [
  | none ↦ none
  | some x ↦ elim (get_elem? info.caps i) [
    | none ↦ none
    | some c ↦ ring_of x.enable (stream_place c)
  ]
]

-- The stream manager when the ids below `i` are set.
abbrev pub StreamsStarted : Info StreamCfg StreamCap → ℕ → StreamMgr → Type 0
StreamsStarted info i s = (s.info ≡ info) × AreSlots (stream_ring_at info) 6 i s.fifo

module _ (create : Mfifo → Bool) (has_regcallback : ℕ → Bool) (info : Info StreamCfg StreamCap)
    (x : StreamCfg) (c : StreamCap) (cfg : get_elem? info.cfgs x.id ≡ some x)
    (cap : get_elem? info.caps x.id ≡ some c) (made : create (stream_place c) ≡ true) where
  stream_ring_is : stream_ring_at info x.id ≡ ring_of x.enable (stream_place c)
  stream_ring_is = simp (stream_ring_at, cfg, cap) refl

  pub stream_turn :
      (s : StreamMgr)
      → x.id < 6
      → StreamsStarted info x.id s
      → (s1 : StreamMgr) × (s2 : StreamMgr) × (vsf_stream_set create has_regcallback x s
          ≡ some (0, s1))
        × (keep_stream_cfg x s1 ≡ some s2)
        × StreamsStarted info (suc x.id) s2
  unfolding vsf_stream_set keep_stream_cfg
  stream_turn s lt (e, v) =
      let s1 : StreamMgr = record s {
        fifo = set s.fifo x.id (ring_of x.enable (stream_place c));
        calls =
            if has_regcallback x.id
            then (record { chn = x.id; callback = if x.enable == 0 then none else some x.id }
                ∷ s.calls)
            else s.calls;
      } in
      (
        s1,
        record s1 { info = record s.info { cfgs = set s.info.cfgs x.id x } },
        rw
            (
              e,
              cap,
              v x.id lt,
              slot_next (stream_ring_at info) x.id,
              reopen-none create x.enable (stream_place c) made,
            )
            refl,
        rw (e, cfg) refl,
        (
          rw (e, set_same info.cfgs x.id x cfg) refl,
          subst (λ r. AreSlots (stream_ring_at info) 6 (suc x.id) (set s.fifo x.id r))
              stream_ring_is (set-AreSlots (stream_ring_at info) 6 x.id s.fifo lt v),
        ),
      )

-- The managers as they are created.
empty_slots :
    (j : ℕ)
    → j < 8
    → get_elem? {A = Option Mfifo} (none ∷ none ∷ none ∷ none ∷ none ∷ none ∷ none ∷ none ∷ []) j
      ≡ some none
empty_slots zero h = refl
empty_slots j h = ground arith

empty_slots6 :
    (j : ℕ)
    → j < 6
    → get_elem? {A = Option Mfifo} (none ∷ none ∷ none ∷ none ∷ none ∷ none ∷ []) j ≡ some none
empty_slots6 zero h = refl
empty_slots6 j h = ground arith

pub created_frames :
    (info : Info FrameCfg FrameCap) → FramesStarted info 0 (vsf_create_frame_mgr info)
unfolding vsf_create_frame_mgr
created_frames info =
    (refl, AreSlots-zero (frame_ring_at info) 8 (vsf_create_frame_mgr info).fifo empty_slots)

pub created_streams :
    (info : Info StreamCfg StreamCap) → StreamsStarted info 0 (vsf_create_stream_mgr info)
unfolding vsf_create_stream_mgr
created_streams info =
    (refl, AreSlots-zero (stream_ring_at info) 6 (vsf_create_stream_mgr info).fifo empty_slots6)

-- What the loops need of a stored configuration and its place.
abbrev pub FrameOk : (Mfifo → Bool) → (FrameCfg → Type 0) → ℕ → FrameCfg → FrameCap → Type 0
FrameOk create Fits i x c =
    (x.id ≡ i) × (create (frame_place c) ≡ true) × Fits x × Fits (frame_with i)

abbrev pub StreamOk : (Mfifo → Bool) → (StreamCfg → Type 0) → ℕ → StreamCfg → StreamCap → Type 0
StreamOk create Fits i x c =
    (x.id ≡ i) × (create (stream_place c) ≡ true) × Fits x × Fits (stream_with i)

abbrev pub OsdOk : (OsdCfg → Type 0) → List ℕ → ℕ → OsdCfg → OsdCap → Type 0
OsdOk Fits zeros i x c = (x.id ≡ i) × Fits x × Fits (osd_with zeros i)
