-- ===== src/Media.antt =====
-- The media records of mod/media: what video_stream.c and video_frame.c put into the ring buffer that
-- ufifo keeps in shared memory, and what they read back. A record may run round the end of the ring:
-- `p1` has room for `n1` bytes, and what does not fit stands at `p2`. The layout of the structures is
-- that of a little-endian LP64 host, padding included.
mod Copying
pub mod Put
mod Get
pub mod Payload
pub mod Roundtrip
mod FrameRoundtrip
mod Tests
use Prim.Native.Nat.{bit_or}
use freak.Prelude.{
  ℕ, zero, suc, ◌+◌, ◌-◌, ◌*◌, ◌/◌, ◌%◌, ◌^◌, min, List, [], ◌∷◌, ◌++◌, Bool, Option, none, some,
  ltb, leb, ◌==◌, if◌then◌else◌, length, take, drop, slice, le, of_le,
}

-- `sizeof` of media_record_t, video_stream_t, video_stream_pack_t and video_frame_t
abbrev pub record_size : ℕ
record_size = 16

abbrev pub stream_size : ℕ
stream_size = 24

abbrev pub pack_size : ℕ
pack_size = 40

abbrev pub frame_size : ℕ
frame_size = 224

-- `0xdeadbeef << 8`, in 32 bits.
abbrev pub tag_base : ℕ
tag_base = 0xdeadbeef * 256 % 2 ^ 32

-- `uint32_t` subtraction.
abbrev pub sub32 : ℕ → ℕ → ℕ
sub32 a b = (a + 2 ^ 32 - b) % 2 ^ 32

-- `video_stream_pack_t`; `mem` is the memory from `pu8Addr` on.
pub record Pack : Type 0 where
  pub phy_addr : ℕ
  pub addr : ℕ
  pub len : ℕ
  pub offset : ℕ
  pub pts : ℕ
  pub pack_type : ℕ
  pub pad : ℕ
  pub mem : List ℕ

-- `video_stream_t`; `packs` is the array of `u32PackCount` entries at `pstPack`.
pub record Stream : Type 0 where
  pub pst_pack : ℕ
  pub packs : List Pack
  pub seq : ℕ
  pub en_type : ℕ
  pub pad : ℕ

-- `video_frame_t`: its bytes, the three fields that the code reads, and the mapped memory at
-- `u64PhyAddr[0]`.
pub record Frame : Type 0 where
  pub image : List ℕ
  pub header_vir_addr : ℕ
  pub ext_vir_addr : ℕ
  pub mapped : List ℕ

-- The bytes of the structures in memory.
unfoldable pub record_image : ℕ → ℕ → ℕ → List ℕ
record_image size tag ts = le 4 size ++ (le 4 tag ++ le 8 ts)

unfoldable pub stream_image : Stream → List ℕ
stream_image s =
    le 8 s.pst_pack ++ (le 4 (length s.packs) ++ (le 4 s.seq ++ (le 4 s.en_type ++ le 4 s.pad)))

unfoldable pub pack_image : Pack → List ℕ
pack_image p =
    le 8 p.phy_addr
    ++ (le 8 p.addr
        ++ (le 4 p.len ++ (le 4 p.offset ++ (le 8 p.pts ++ (le 4 p.pack_type ++ le 4 p.pad)))))

-- `rec.ts = ts.tv_sec * 1000 + ts.tv_nsec / 1000000`
abbrev pub millis : ℕ → ℕ → ℕ
millis sec nsec = (sec * 1000 + nsec / 1000000) % 2 ^ 64

-- The variables `_n1`, `_p1`, `_p2` of the copying code: the room left at `_p1`, and what has been
-- written from `p1` and from `p2` on.
pub record Cursor : Type 0 where
  pub room : ℕ
  pub out1 : List ℕ
  pub out2 : List ℕ

abbrev pub cursor : ℕ → Cursor
cursor n1 = record { room = n1; out1 = []; out2 = [] }

-- The block that copies `a` bytes from `p`.
pub copy : Cursor → List ℕ → ℕ → Cursor
copy c p a =
    let l : ℕ = min a c.room in
    record {
      room = c.room - l;
      out1 = c.out1 ++ take l p;
      out2 = c.out2 ++ take (a - l) (drop l p);
    }

abbrev pub payload_len : Pack → ℕ
payload_len p = sub32 p.len p.offset

-- The loop that adds up `totalsize`. Its wrap at 2^64 does not show in the 32 bits that are used.
unfoldable pub packs_size : ℕ → List Pack → ℕ
packs_size total [] = total
packs_size total (p ∷ ps) = packs_size (total + pack_size + payload_len p) ps

-- The loop that copies the entries of `pstPack`.
pub copy_packs : Cursor → List Pack → Cursor
copy_packs c [] = c
copy_packs c (p ∷ ps) = copy_packs (copy c (pack_image p) pack_size) ps

-- The loop that copies what they point to.
pub copy_payloads : Cursor → List Pack → Cursor
copy_payloads c [] = c
copy_payloads c (p ∷ ps) = copy_payloads (copy c p.mem (payload_len p)) ps

-- What a put writes, and what it returns.
pub record Written : Type 0 where
  pub cur : Cursor
  pub ret : ℕ

abbrev pub stream_tag : Stream → ℕ
stream_tag s = bit_or tag_base (if ltb 1 (length s.packs) then 1 else 0)

-- `video_stream_recput` at the time `sec`, `nsec`.
unfoldable pub stream_recput : Stream → ℕ → ℕ → ℕ → Written
stream_recput s sec nsec n1 =
    let total : ℕ = packs_size (record_size + stream_size) s.packs in
    let rec : List ℕ = record_image (total % 2 ^ 32) (stream_tag s) (millis sec nsec) in
    let c1 : Cursor = copy (cursor n1) rec record_size in
    let c2 : Cursor = copy c1 (stream_image s) stream_size in
    record { cur = copy_payloads (copy_packs c2 s.packs) s.packs; ret = total % 2 ^ 32 }

-- `frame->u64ExtVirAddr[0] - frame->u64HeaderVirAddr[0]`, in 64 bits.
abbrev pub frame_len : Frame → ℕ
frame_len f = (f.ext_vir_addr + 2 ^ 64 - f.header_vir_addr) % 2 ^ 64

-- `video_frame_recput`
pub frame_recput : Frame → ℕ → ℕ → ℕ → Written
frame_recput f sec nsec n1 =
    let total : ℕ = (record_size + frame_size + frame_len f) % 2 ^ 64 in
    let rec : List ℕ = record_image (total % 2 ^ 32) (bit_or tag_base 1) (millis sec nsec) in
    let c1 : Cursor = copy (cursor n1) rec record_size in
    let c2 : Cursor = copy c1 f.image frame_size in
    record { cur = copy c2 f.mapped (frame_len f % 2 ^ 32); ret = total % 2 ^ 32 }

-- The header of the record, wherever it is split: both branches of the reading functions.
abbrev pub header : ℕ → List ℕ → List ℕ → List ℕ
header n1 p1 p2 =
    if leb record_size n1 then take record_size p1 else take n1 p1 ++ take (record_size - n1) p2

-- `video_stream_recsize`
pub recsize : ℕ → List ℕ → List ℕ → ℕ
recsize n1 p1 p2 = of_le (slice (header n1 p1 p2) 0 4)

-- `video_stream_rectag`
pub rectag : ℕ → List ℕ → List ℕ → ℕ
rectag n1 p1 p2 = of_le (slice (header n1 p1 p2) 4 4)

-- `memcpy(buf + off, bytes)`, where the bytes fit the buffer; the functions that use it test that.
pub write_at : List ℕ → ℕ → List ℕ → List ℕ
write_at buf off bytes = take off buf ++ (bytes ++ drop (off + length bytes) buf)

-- The second half of a get: copy the data behind the header that `buf` now holds. Data that does not
-- fit the buffer is a fault.
pub get_data : ℕ → List ℕ → List ℕ → List ℕ → Option (ℕ × List ℕ)
get_data n1 p1 p2 buf =
    let size : ℕ = of_le (slice buf 0 4) in
    let a : ℕ = sub32 size record_size in
    let l : ℕ = min a n1 in
    if leb (record_size + a) (length buf)
    then some
        (size, write_at (write_at buf record_size (take l p1)) (record_size + l) (take (a - l) p2))
    else none

-- `video_stream_recget`: the return value and the buffer at `arg`, or `none`
-- where the assertion on the tag fails or the buffer is too small for what is written to it. The second
-- part of the header goes to `p + _n1`, and has no bytes if that is behind the header.
pub recget : ℕ → List ℕ → List ℕ → List ℕ → Option (ℕ × List ℕ)
recget n1 p1 p2 buf =
    let l : ℕ = min record_size n1 in
    let buf1 : List ℕ = write_at buf 0 (take l p1) in
    let buf2 : List ℕ = write_at buf1 n1 (take (record_size - l) p2) in
    if leb record_size (length buf)
    then (if ltb (of_le (slice buf2 4 4)) tag_base
        then none
        else get_data (n1 - l) (drop l p1) (drop (record_size - l) p2) buf2)
    else none

-- The functions of the same text in video_frame.c.
unfoldable pub frame_recsize : ℕ → List ℕ → List ℕ → ℕ
frame_recsize = recsize

unfoldable pub frame_rectag : ℕ → List ℕ → List ℕ → ℕ
frame_rectag = rectag

unfoldable pub frame_recget : ℕ → List ℕ → List ℕ → List ℕ → Option (ℕ × List ℕ)
frame_recget = recget

-- The loop of `rtp_send_data` and `flv_send_proc` over the packs of a record at `buf`: the entry at
-- `pos`, and the payload at `addr`, which the code stores in `pu8Addr`. The payload and the time stamp
-- of each pack are what goes to the encoder.
pub walk : (ℕ → ℕ) → List ℕ → ℕ → ℕ → ℕ → List (List ℕ × ℕ)
walk clock buf zero pos addr = []
walk clock buf (suc n) pos addr =
    let len : ℕ = of_le (slice buf (pos + 16) 4) in
    let offset : ℕ = of_le (slice buf (pos + 20) 4) in
    let pts : ℕ = of_le (slice buf (pos + 24) 8) in
    (slice buf addr (sub32 len offset), clock pts)
    ∷ walk clock buf n (pos + pack_size) (addr + len - offset)

abbrev pub inputs : (ℕ → ℕ) → List ℕ → List (List ℕ × ℕ)
inputs clock buf =
    let count : ℕ = of_le (slice buf (record_size + 8) 4) in
    let pst_pack : ℕ = record_size + stream_size in
    if ltb 0 (of_le (slice buf 0 4))
    then walk clock buf count pst_pack (pst_pack + count * pack_size)
    else []

-- `stream->pstPack[i].u64PTS * 90 / 1000`, as the encoder's `uint32_t`.
abbrev pub rtp_clock : ℕ → ℕ
rtp_clock pts = pts * 90 % 2 ^ 64 / 1000 % 2 ^ 32

-- What `rtp_send_data` gives to the encoder.
pub rtp_inputs : List ℕ → List (List ℕ × ℕ)
rtp_inputs = inputs rtp_clock

-- `priv->pts` of web-media.c after a record: the first record with a pack sets it.
abbrev pub flv_start : ℕ → List ℕ → ℕ
flv_start start buf =
    if start == 0
    then (if ltb 0 (of_le (slice buf 24 4)) then of_le (slice buf 8 8) else 0)
    else start

-- `rec->ts - priv->pts`, as the muxer's `uint32_t`.
abbrev pub flv_clock : ℕ → ℕ → ℕ
flv_clock start ts = (ts + 2 ^ 64 - start) % 2 ^ 64 % 2 ^ 32

-- `flv_send_proc`: the time stamp is `rec->ts - priv->pts`, whatever the pack.
pub flv_inputs : ℕ → List ℕ → ℕ × List (List ℕ × ℕ)
flv_inputs start buf =
    let start' : ℕ = if ltb 0 (of_le (slice buf 0 4)) then flv_start start buf else start in
    let ts : ℕ = of_le (slice buf 8 8) in (start', inputs (λ _. flv_clock start' ts) buf)
