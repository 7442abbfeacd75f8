-- ===== src/Vsf/Streams/Proc.antt =====
-- What the callback of the H.264 streams asks of its ring.
use freak.Prelude.{ℕ, ◌+◌, ◌^◌, ◌≡◌, ◌<◌, length, ltb, if◌then◌else◌, true, arith}
use freak.Media.{Stream, packs_size, stream_recput}
use freak.Media.Put.{Readable, stream_bytes, length-stream_bytes, stream_recput_lem}
use freak.Vsf.Streams.{Ufifo, vsf_stream_h264_proc}

module _ {U : Type 0} (u : Ufifo U) where
  -- The callback of the H.264 streams makes room for and asks the ring to put exactly as many
  -- bytes as the record that video_stream_recput writes has, and returns 0. The conditions: the
  -- packs are as long as they say, the record fits 32 bits, and the ring's put returns what
  -- video_stream_recput returns.
  pub vsf_stream_h264_proc_lem :
      (s : Stream) (r : U) (sec nsec n1 : ℕ)
      → Readable s.packs
      → packs_size 40 s.packs < 2 ^ 32
      → ((q : U) → (u.put s (packs_size 40 s.packs) q).0 ≡ (stream_recput s sec nsec n1).ret)
      → let size : ℕ = length (stream_bytes s sec nsec) in
        let q : U = if ltb (u.size r) (u.len r + size) then u.oldest (u.skip r) else r in
        vsf_stream_h264_proc u s r ≡ (true, (u.put s size q).1)
  unfolding vsf_stream_h264_proc
  vsf_stream_h264_proc_lem s r sec nsec n1 a b h =
      let (x, y, ret) = stream_recput_lem s sec nsec n1 a b in
      let total = length-stream_bytes s sec nsec a in
      rw total (
        ground (
          arith,
          h (if ltb (u.size r) (u.len r + packs_size 40 s.packs) then u.oldest (u.skip r) else r),
          ret,
          total,
        ))
