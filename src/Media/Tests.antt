-- ===== src/Media/Tests.antt =====
-- The theorems on the media records at concrete streams and frames, cut in the middle.

use freak.Prelude.{
  ℕ, ◌≡◌, refl, List, [], ◌∷◌, ◌++◌, arith, length, map, take, drop, replicate, of_le, le, some,
}
use freak.Media.{
  Pack, Stream, Frame, record_image, packs_size, stream_recput, frame_recput, stream_image,
  pack_image, recget, recsize, rectag, walk, rtp_inputs, rtp_clock, stream_tag,
}
use freak.Media.Put.{stream_bytes, frame_bytes, frame_recput_lem}
use freak.Media.Payload.{input}
use freak.Media.{frame_recsize, frame_rectag, frame_recget}
use freak.Media.FrameRoundtrip.{frame_roundtrip}
use freak.Media.Roundtrip.{stream_roundtrip}

abbrev sps : Pack
sps = record {
  phy_addr = 0;
  addr = 4096;
  len = 4;
  offset = 0;
  pts = 1000;
  pack_type = 7;
  pad = 0;
  mem = 103 ∷ 66 ∷ 31 ∷ 9 ∷ [];
}

abbrev idr : Pack
idr = record {
  phy_addr = 0;
  addr = 8192;
  len = 2;
  offset = 0;
  pts = 2000;
  pack_type = 5;
  pad = 0;
  mem = 101 ∷ 136 ∷ [];
}

abbrev key_stream : Stream
key_stream = record { pst_pack = 64; packs = sps ∷ idr ∷ []; seq = 1; en_type = 0; pad = 0 }

abbrev small_frame : Frame
small_frame = record {
  image = replicate 224 7;
  header_vir_addr = 100;
  ext_vir_addr = 103;
  mapped = 1 ∷ 2 ∷ 3 ∷ [];
}

-- The record of `key_stream`, put with 70 bytes before the end of the ring, taken and sent.
sent :
    rtp_inputs (stream_bytes key_stream 1 0)
    ≡ (103 ∷ 66 ∷ 31 ∷ 9 ∷ [], 90) ∷ (101 ∷ 136 ∷ [], 180) ∷ []
unfolding rtp_inputs walk packs_size record_image stream_image pack_image le of_le
sent = refl

frame_recput_lem_example :
    let w = frame_recput small_frame 1 0 100 in
    let bytes : List ℕ = frame_bytes small_frame 1 0 in
    (w.cur.out1 ≡ take 100 bytes) × (w.cur.out2 ≡ drop 100 bytes) × (w.ret ≡ length bytes)
frame_recput_lem_example = frame_recput_lem small_frame 1 0 100 refl (omega arith) (omega arith)

-- A record of 18 bytes, cut in its header.
abbrev tiny : List ℕ
tiny = 18 ∷ 0 ∷ 0 ∷ 0 ∷ 1 ∷ 239 ∷ 190 ∷ 173 ∷ 0 ∷ 0 ∷ 0 ∷ 0 ∷ 0 ∷ 0 ∷ 0 ∷ 0 ∷ 65 ∷ 66 ∷ 77 ∷ []

stream_roundtrip_example :
    let w = stream_recput key_stream 1 0 70 in
    let got : List ℕ = stream_bytes key_stream 1 0 ++ drop w.ret (replicate 300 0) in
    (recsize 70 w.cur.out1 w.cur.out2 ≡ w.ret)
    × (rectag 70 w.cur.out1 w.cur.out2 ≡ stream_tag key_stream)
    × (recget 70 w.cur.out1 w.cur.out2 (replicate 300 0) ≡ some (w.ret, got))
    × (rtp_inputs got ≡ map (input rtp_clock) (sps ∷ idr ∷ []))
unfolding packs_size
stream_roundtrip_example =
    stream_roundtrip key_stream 1 0 70 (replicate 300 0) (omega arith) (omega arith)
      (refl, (refl, tt)) (omega arith) (omega arith)

frame_roundtrip_example :
    let w = frame_recput small_frame 1 0 100 in
    (frame_recsize 100 w.cur.out1 w.cur.out2 ≡ w.ret)
    × (frame_rectag 100 w.cur.out1 w.cur.out2 ≡ 0xadbeef01)
    × (frame_recget 100 w.cur.out1 w.cur.out2 (replicate 300 0)
        ≡ some (w.ret, frame_bytes small_frame 1 0 ++ drop w.ret (replicate 300 0)))
frame_roundtrip_example =
    frame_roundtrip small_frame 1 0 100 (replicate 300 0) refl (omega arith) (omega arith)
      (omega arith)
