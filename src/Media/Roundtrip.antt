-- ===== src/Media/Roundtrip.antt =====
-- A stream put into the ring and taken out again reaches the encoders as it was.

use freak.Prelude.{
  ℕ, ◌+◌, ◌*◌, ◌^◌, ◌≡◌, ◌≢◌, refl, ap, ap₂, ◌∙◌, sym, ◌≤◌, ◌<◌, List, [], ◌∷◌, ◌++◌, arith, length,
  map, drop, length-append, append_assoc, append-nil, take_all, slice, of_le, if◌then◌else◌, ltb,
  true, ◌==◌, some, lt→ltb,
}
use freak.Media.{
  Pack, Stream, record_image, stream_image, packs_size, stream_recput, recget, recsize, rectag,
  walk, inputs, rtp_inputs, rtp_clock, flv_inputs, flv_clock, flv_start, stream_tag, tag_base,
  millis,
}
use freak.Media.Put.{
  entries, copies, Readable, stream_bytes, length-record_image, length-stream_image,
  packs_size-length, length-stream_bytes, stream_recput_lem,
}
use freak.Media.Get.{recget_lem, recsize_lem}
use freak.Media.Payload.{
  InRange, NoOffset, input, copied_input, input_lem, walk_lem, between, front, record_fields,
  count_field, length-entries,
}

stream_tag_bounds : (s : Stream) → (tag_base ≤ stream_tag s) × (stream_tag s < 2 ^ 32)
stream_tag_bounds s = ground arith

-- The three fields of the header and the number of packs, as the senders read them.
record Fields (s : Stream) (sec nsec : ℕ) (rest : List ℕ) : Type 0 where
  size : of_le (slice (stream_bytes s sec nsec ++ rest) 0 4) ≡ packs_size 40 s.packs
  tag : of_le (slice (stream_bytes s sec nsec ++ rest) 4 4) ≡ stream_tag s
  ts : of_le (slice (stream_bytes s sec nsec ++ rest) 8 8) ≡ millis sec nsec
  count : of_le (slice (stream_bytes s sec nsec ++ rest) 24 4) ≡ length s.packs

stream-Fields :
    (s : Stream) (sec nsec : ℕ) (rest : List ℕ)
    → Readable s.packs
    → packs_size 40 s.packs < 2 ^ 32
    → Fields s sec nsec rest
stream-Fields s sec nsec rest r h =
    let rec : List ℕ = record_image (packs_size 40 s.packs) (stream_tag s) (millis sec nsec) in
    let body : List ℕ = entries s.packs ++ copies s.packs in
    let fields =
      record_fields (packs_size 40 s.packs) (stream_tag s) (millis sec nsec)
        ((stream_image s ++ body) ++ rest) h (stream_tag_bounds s).1 (omega arith) in
    let at_front = append_assoc rec (stream_image s ++ body) rest in
    record {
      size = ap (λ t. of_le (slice t 0 4)) at_front ∙ fields.0;
      tag = ap (λ t. of_le (slice t 4 4)) at_front ∙ fields.1;
      ts = ap (λ t. of_le (slice t 8 8)) at_front ∙ fields.2;
      count =
          ap (λ t. of_le (slice t 24 4)) {x = stream_bytes s sec nsec ++ rest}
            {y = (rec ++ stream_image s) ++ (body ++ rest)} (simp append_assoc)
          ∙ count_field s rec (body ++ rest)
              (length-record_image (packs_size 40 s.packs) (stream_tag s) (millis sec nsec))
              (omega (arith, packs_size-length 40 s.packs r, length-entries s.packs));
    }

inputs_lem :
    (clock : ℕ → ℕ) (s : Stream) (sec nsec : ℕ) (rest : List ℕ)
    → InRange s.packs
    → Readable s.packs
    → packs_size 40 s.packs < 2 ^ 32
    → inputs clock (stream_bytes s sec nsec ++ rest) ≡ map (copied_input clock) s.packs
inputs_lem clock s sec nsec rest i r h =
    let b : List ℕ = stream_bytes s sec nsec ++ rest in
    let f : Fields s sec nsec rest = stream-Fields s sec nsec rest r h in
    let n : ℕ = length s.packs in
    let rec : List ℕ = record_image (packs_size 40 s.packs) (stream_tag s) (millis sec nsec) in
    let len = length-record_image (packs_size 40 s.packs) (stream_tag s) (millis sec nsec) in
    let front_len : length (front s sec nsec) ≡ 40 =
      omega (arith, length-append rec (stream_image s), len, length-stream_image s) in
    ap₂ (λ z c. if ltb 0 z then walk clock b c 40 (40 + c * 40) else []) f.size f.count
    ∙ (ap (λ t. if t then walk clock b n 40 (40 + n * 40) else [])
          (lt→ltb 0 (packs_size 40 s.packs) (omega (arith, packs_size-length 40 s.packs r)))
        ∙ (ap (λ t. walk clock t n 40 (40 + n * 40)) {x = b}
              {y = between (front s sec nsec) s.packs [] rest} (simp append_assoc)
            ∙ walk_lem clock (front s sec nsec) s.packs [] rest 40 (40 + n * 40) i r front_len
                (omega (arith, length-entries s.packs))))

-- A stream that video_stream_recput puts into the ring is seen with its size and tag, taken out
-- whole by video_stream_recget, and rtp_send_data gives the encoder the payload and the time
-- stamp of each pack, in order. This holds wherever the ring is cut, if the packs' memory is as
-- long as they say, their offsets are 0, their fields have the widths of the structure, and the
-- record fits 32 bits and the buffer that it is taken into.
pub stream_roundtrip :
    (s : Stream) (sec nsec n1 : ℕ) (buf : List ℕ)
    → InRange s.packs
    → Readable s.packs
    → NoOffset s.packs
    → packs_size 40 s.packs < 2 ^ 32
    → packs_size 40 s.packs ≤ length buf
    → let w = stream_recput s sec nsec n1 in
      let got : List ℕ = stream_bytes s sec nsec ++ drop w.ret buf in
      (recsize n1 w.cur.out1 w.cur.out2 ≡ w.ret)
      × (rectag n1 w.cur.out1 w.cur.out2 ≡ stream_tag s)
      × (recget n1 w.cur.out1 w.cur.out2 buf ≡ some (w.ret, got))
      × (rtp_inputs got ≡ map (input rtp_clock) s.packs)
unfolding rtp_inputs
stream_roundtrip s sec nsec n1 buf i r z h fits =
    let bytes : List ℕ = stream_bytes s sec nsec in
    let (o1, o2, ret) = stream_recput_lem s sec nsec n1 r h in
    let f : Fields s sec nsec [] = stream-Fields s sec nsec [] r h in
    let size : of_le (slice bytes 0 4) ≡ length bytes =
      ap (λ t. of_le (slice t 0 4)) (sym (append-nil bytes))
      ∙ (f.size ∙ sym (length-stream_bytes s sec nsec r)) in
    let tag : of_le (slice bytes 4 4) ≡ stream_tag s =
      ap (λ t. of_le (slice t 4 4)) (sym (append-nil bytes)) ∙ f.tag in
    let len = length-stream_bytes s sec nsec r in
    rw (o1, o2, ret)
      (
        (recsize_lem n1 bytes).0 ∙ size,
        (recsize_lem n1 bytes).1 ∙ tag,
        recget_lem n1 bytes buf (length bytes) size (rw tag (stream_tag_bounds s).0)
              (omega (arith, packs_size-length 40 s.packs r, len)) (omega (arith, len))
              (omega arith) (omega (arith, len))
            ∙ ap (λ t. some (length bytes, t ++ drop (length bytes) buf))
                (take_all (length bytes) bytes (omega arith)),
        inputs_lem rtp_clock s sec nsec (drop (length bytes) buf) i r h
            ∙ input_lem rtp_clock s.packs z,
      )

length_pos : (ps : List Pack) → ps ≢ [] → 0 < length ps
length_pos [] ne = absurd (ne refl)
length_pos (p ∷ ps) ne = omega arith

-- The FLV sender finds the payloads of the stream in a record with packs, and stamps them all
-- with the time of the record since the first record that it saw; the first record starts the
-- clock. The conditions are those of the round trip of a stream.
pub flv_inputs_lem :
    (s : Stream) (sec nsec start : ℕ) (rest : List ℕ)
    → InRange s.packs
    → Readable s.packs
    → packs_size 40 s.packs < 2 ^ 32
    → s.packs ≢ []
    → let start' : ℕ = if start == 0 then millis sec nsec else start in
      flv_inputs start (stream_bytes s sec nsec ++ rest)
      ≡ (start', map (copied_input (λ _. flv_clock start' (millis sec nsec))) s.packs)
unfolding flv_inputs
flv_inputs_lem s sec nsec start rest i r h ne =
    let b : List ℕ = stream_bytes s sec nsec ++ rest in
    let f : Fields s sec nsec rest = stream-Fields s sec nsec rest r h in
    let start' : ℕ = if start == 0 then millis sec nsec else start in
    let some_pack : ltb 0 (length s.packs) ≡ true =
      lt→ltb 0 (length s.packs) (length_pos s.packs ne) in
    let sized : ltb 0 (packs_size 40 s.packs) ≡ true =
      lt→ltb 0 (packs_size 40 s.packs) (omega (arith, packs_size-length 40 s.packs r)) in
    let set : (if ltb 0 (of_le (slice b 0 4)) then flv_start start b else start) ≡ start' =
      ap₂
        (λ z c.
          if ltb 0 z
          then (if start == 0 then (if ltb 0 c then of_le (slice b 8 8) else 0) else start)
          else start)
        f.size f.count
      ∙ (ap₂
            (λ t u.
              if t
              then (if start == 0 then (if u then of_le (slice b 8 8) else 0) else start)
              else start)
            sized some_pack
          ∙ ap (λ t. if start == 0 then t else start) f.ts) in
    ap₂ (λ st t. (st, inputs (λ _. flv_clock st t) b)) set f.ts
    ∙ ap (λ l. (start', l))
        (inputs_lem (λ _. flv_clock start' (millis sec nsec)) s sec nsec rest i r h)
