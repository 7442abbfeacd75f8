-- ===== src/Rings.antt =====
-- The ring objects: mod/media/src/media.c over ufifo.
mod Names
mod Making
mod Tests
use Prim.Native.Nat.{bit_or}
use freak.Prelude.{
  ℕ, zero, suc, ◌+◌, ◌-◌, ◌*◌, ◌/◌, ◌%◌, ◌^◌, ltb, Bool, List, [], ◌∷◌, ◌++◌, take, Option, some,
  none, ◌==◌, if◌then◌else◌,
}
use freak.Proto.{◌>>=◌}
use freak.Memory.{Heap, alloc, release}

-- `mfifo_init_t`: each `int` is its bit pattern.
pub record Init : Type 0 where
  pub type : ℕ
  pub chn : ℕ
  pub subchn : ℕ

-- `MEDIA_VIDEO_STREAM`, `MEDIA_VIDEO_FRAME`
abbrev pub media_video_stream : ℕ
media_video_stream = 0

abbrev pub media_video_frame : ℕ
media_video_frame = 1

-- The four hooks of video_stream.c or of video_frame.c.
pub data Hooks : Type 0 where
  video_stream video_frame : Hooks

-- `opt` of `ufifo_init_t`, with its argument.
pub data Opt : Type 0 where
  opt_alloc opt_attach : ℕ → Opt

-- What `ufifo_open` is called with.
pub record Opening : Type 0 where
  pub name : List ℕ
  pub hooks : Hooks
  pub opt : Opt

-- The prefixes "media-video-stream" and "media-video-frame".
abbrev pub prefix : Hooks → List ℕ
prefix video_stream =
    109 ∷ 101 ∷ 100 ∷ 105 ∷ 97 ∷ 45 ∷ 118 ∷ 105 ∷ 100 ∷ 101 ∷ 111 ∷ 45 ∷ 115 ∷ 116 ∷ 114 ∷ 101 ∷ 97
    ∷ 109 ∷ []
prefix video_frame =
    109 ∷ 101 ∷ 100 ∷ 105 ∷ 97 ∷ 45 ∷ 118 ∷ 105 ∷ 100 ∷ 101 ∷ 111 ∷ 45 ∷ 102 ∷ 114 ∷ 97 ∷ 109 ∷ 101
    ∷ []

-- The decimal digits of a number of at most `n` + 1 digits.
pub decimal : ℕ → ℕ → List ℕ
decimal zero v = (48 + v) ∷ []
decimal (suc n) v =
    let rest = decimal n (v / 10) in if ltb v 10 then (48 + v) ∷ [] else rest ++ (48 + v % 10) ∷ []

-- "%d" of a 32-bit pattern.
pub print_int : ℕ → List ℕ
unfolding decimal
print_int v = if ltb v (2 ^ 31) then decimal 9 v else 45 ∷ decimal 9 (2 ^ 32 - v)

-- The name of a ring, as `snprintf` cuts it to its 64 bytes, with the end left out.
pub ring_name : Hooks → ℕ → ℕ → List ℕ
unfolding print_int
ring_name hooks chn subchn = take 63 (prefix hooks ++ 45 ∷ (print_int chn ++ 45 ∷ print_int subchn))

-- An object of `mfifo_t`: its memory and the ring that it has opened.
pub record Object : Type 0 where
  pub memory : ℕ
  pub ring : ℕ
  pub opened : Opening

-- `opens` says whether `ufifo_open` returns 0, and `malloc` whether there is memory.
module _ (opens : Opening → Bool) (malloc : Bool) where
  -- `mfifo_init` from `malloc` on. A result `none` inside is NULL.
  pub open_ring : Init → Opt → Hooks → Heap → Option (Option Object × Heap)
  unfolding ring_name
  open_ring init opt hooks w =
      let opening : Opening = record {
        name = ring_name hooks init.chn init.subchn;
        hooks = hooks;
        opt = opt;
      } in
      if malloc
      then (let (memory, w1) = alloc w in
          let (ring, w2) = alloc w1 in
          if opens opening
          then some (some (record { memory = memory; ring = ring; opened = opening }), w2)
          else (release memory w1 >>= λ w3. some (none, w3)))
      else some (none, w)

  -- `mfifo_init`
  pub mfifo_init : Init → Opt → Heap → Option (Option Object × Heap)
  unfolding open_ring
  mfifo_init init opt w =
      if init.type == media_video_stream
      then open_ring init opt video_stream w
      else if init.type == media_video_frame
      then open_ring init opt video_frame w
      else some (none, w)

  -- `mfifo_create`, for an `init` that may be NULL.
  pub mfifo_create : Option Init → ℕ → Heap → Option (Option Object × Heap)
  unfolding mfifo_init
  mfifo_create none size w = some (none, w)
  mfifo_create (some init) size w =
      if size == 0 then some (none, w) else mfifo_init init (opt_alloc size) w

  -- `mfifo_attach`
  pub mfifo_attach : Option Init → ℕ → Heap → Option (Option Object × Heap)
  unfolding mfifo_init
  mfifo_attach none shared w = some (none, w)
  mfifo_attach (some init) shared w = mfifo_init init (opt_attach shared) w

-- `mfifo_destroy`
pub mfifo_destroy : Object → Heap → Option Heap
mfifo_destroy o w = release o.ring w >>= λ w1. release o.memory w1

-- The tag that `mfifo_oldest` and `mfifo_newest` ask ufifo for.
pub wanted_tag : ℕ
wanted_tag = bit_or (0xdeadbeef * 2 ^ 8 % 2 ^ 32) 1
