-- ===== src/Media/FrameRoundtrip.antt =====
-- A frame put into the ring and taken out again.
use Prim.Native.Nat.{bit_or}
use freak.Prelude.{
  ℕ, ◌+◌, ◌^◌, ◌≡◌, ap, ◌∙◌, sym, ◌≤◌, ◌<◌, List, ◌++◌, arith, length, take, drop, length-append,
  length-take, take_all, some,
}
use freak.Media.{
  Frame, record_image, frame_recput, frame_recget, frame_recsize, frame_rectag, frame_len, tag_base,
  millis,
}
use freak.Media.Put.{frame_bytes, frame_recput_lem, length-record_image}
use freak.Media.Get.{recget_lem, recsize_lem}
use freak.Media.Payload.{record_fields}

-- A frame that video_frame_recput puts into the ring is seen with its size and with the tag
-- 0xadbeef01, and video_frame_recget copies its record, the structure and the picture, to the
-- front of the buffer. This holds wherever the ring is cut, if the structure is there whole, the
-- mapped memory is as long as the picture, and the record fits 32 bits and the buffer.
pub frame_roundtrip :
    (f : Frame) (sec nsec n1 : ℕ) (buf : List ℕ)
    → length f.image ≡ 224
    → frame_len f ≤ length f.mapped
    → 240 + frame_len f < 2 ^ 32
    → 240 + frame_len f ≤ length buf
    → let w = frame_recput f sec nsec n1 in
      (frame_recsize n1 w.cur.out1 w.cur.out2 ≡ w.ret)
      × (frame_rectag n1 w.cur.out1 w.cur.out2 ≡ 0xadbeef01)
      × (frame_recget n1 w.cur.out1 w.cur.out2 buf
          ≡ some (w.ret, frame_bytes f sec nsec ++ drop w.ret buf))
unfolding frame_recsize frame_rectag frame_recget
frame_roundtrip f sec nsec n1 buf i m h fits =
    let bytes : List ℕ = frame_bytes f sec nsec in
    let rec : List ℕ = record_image (240 + frame_len f) (bit_or tag_base 1) (millis sec nsec) in
    let (o1, o2, ret) = frame_recput_lem f sec nsec n1 i m h in
    let fields =
      record_fields (240 + frame_len f) (bit_or tag_base 1) (millis sec nsec)
        (f.image ++ take (frame_len f) f.mapped) h (omega arith) (omega arith) in
    let len : length bytes ≡ 240 + frame_len f = omega (
      arith,
      length-append rec (f.image ++ take (frame_len f) f.mapped),
      length-append f.image (take (frame_len f) f.mapped),
      length-take (frame_len f) f.mapped,
      length-record_image (240 + frame_len f) (bit_or tag_base 1) (millis sec nsec),
    ) in
    rw (o1, o2, ret)
      (
        (recsize_lem n1 bytes).0 ∙ (fields.0 ∙ sym len),
        (recsize_lem n1 bytes).1 ∙ fields.1,
        recget_lem n1 bytes buf (length bytes) (fields.0 ∙ sym len) (rw fields.1 (omega arith))
              (omega (arith, len)) (omega (arith, len)) (omega arith) (omega (arith, len))
            ∙ ap (λ t. some (length bytes, t ++ drop (length bytes) buf))
                (take_all (length bytes) bytes (omega arith)),
      )
