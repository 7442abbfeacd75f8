-- ===== src/Vsf.antt =====
-- The managers of the vsf process and the callbacks that they give to the video hardware
-- (mod/vsf/src/interface), with what the managers of all the processes share.
pub mod Frame
pub mod Streams
pub mod Osd
use freak.Prelude.{ℕ, Bool, List, Option, some, none, ◌==◌, if◌then◌else◌, get_elem?}
use freak.Proto.{◌>>=◌, ◌>>◌, check}

-- What the manager of each object holds of the configuration of its process: the `caps`, `cfgs` and
-- `num` of `proto_vsf_frame_t` and the others.
pub record Info (Cfg Cap : Type 0) : Type 0 where
  pub caps : List Cap
  pub cfgs : List Cfg
  pub num : ℕ

-- The type of a ring in `mfifo_init_t`
pub data MediaType : Type 0 where
  media_video_frame media_video_stream : MediaType

-- An open ring, by the `mfifo_init_t` that it was created with.
pub record Mfifo : Type 0 where
  pub media : MediaType
  pub chn : ℕ
  pub subchn : ℕ

-- What `set` does to its slot: a ring is created on enable, if none is open and `create` finds that it
-- can be, or the assertion fails; it is destroyed on disable.
unfoldable pub reopen : (Mfifo → Bool) → ℕ → Mfifo → Option Mfifo → Option (Option Mfifo)
reopen create enable init fifo =
    if enable == 0
    then some none
    else elim fifo [ some f ↦ some (some f) | none ↦ (check (create init) >> some (some init)) ]
