-- ===== src/Media/Put.antt =====
-- What `video_stream_recput` and `video_frame_recput` write: one record, laid end to end.
use Prim.Native.Nat.{bit_or}
use freak.Prelude.{
  ℕ, ◌+◌, ◌%◌, ◌^◌, ◌≡◌, sym, ◌≤◌, ◌<◌, List, [], ◌∷◌, ◌++◌, arith, length, take, drop,
  length-append, length-take, append_assoc, append-nil, take_all, length-le, subst,
}
use native.Mathlib.Nat.{mod-eq_of_lt}
use freak.Media.{
  Cursor, cursor, copy, Pack, Stream, Frame, record_image, stream_image, pack_image, payload_len,
  packs_size, copy_packs, copy_payloads, stream_recput, frame_recput, stream_tag, frame_len,
  tag_base, millis, pack_size,
}
use freak.Media.Copying.{Behind, cursor-Behind, copy-Behind}

pub length-record_image : (size tag ts : ℕ) → length (record_image size tag ts) ≡ 16
unfolding record_image
length-record_image size tag ts = simp (length-append, length-le)

pub length-stream_image : (s : Stream) → length (stream_image s) ≡ 24
unfolding stream_image
length-stream_image s = simp (length-append, length-le)

pub length-pack_image : (p : Pack) → length (pack_image p) ≡ 40
unfolding pack_image
length-pack_image p = simp (length-append, length-le)

-- The bytes at `pu8Addr` that are copied for a pack, and the two parts of a record behind the structure of the stream.
abbrev pub copied : Pack → List ℕ
copied p = take (payload_len p) p.mem

abbrev pub entries : List Pack → List ℕ
entries [] = []
entries (p ∷ ps) = pack_image p ++ entries ps

abbrev pub copies : List Pack → List ℕ
copies [] = []
copies (p ∷ ps) = copied p ++ copies ps

-- The memory of each pack reaches as far as its length says.
abbrev pub Readable : List Pack → Type 0
Readable [] = Unit {0}
Readable (p ∷ ps) = (payload_len p ≤ length p.mem) × Readable ps

-- The bytes of a stream's record, and of a frame's.
abbrev pub stream_bytes : Stream → ℕ → ℕ → List ℕ
stream_bytes s sec nsec =
    record_image (packs_size 40 s.packs) (stream_tag s) (millis sec nsec)
    ++ (stream_image s ++ (entries s.packs ++ copies s.packs))

abbrev pub frame_bytes : Frame → ℕ → ℕ → List ℕ
frame_bytes f sec nsec =
    record_image (240 + frame_len f) (bit_or tag_base 1) (millis sec nsec)
    ++ (f.image ++ take (frame_len f) f.mapped)

copy_all-Behind :
    (n1 : ℕ) (bytes p : List ℕ) (a : ℕ) (c : Cursor)
    → length p ≡ a
    → Behind n1 bytes c
    → Behind n1 (bytes ++ p) (copy c p a)
copy_all-Behind n1 bytes p a c e b =
    subst (λ t. Behind n1 (bytes ++ t) (copy c p a)) (take_all a p (omega arith))
      (copy-Behind n1 bytes p a c (omega arith) b)

copy_packs-Behind :
    (n1 : ℕ) (bytes : List ℕ) (ps : List Pack) (c : Cursor)
    → Behind n1 bytes c
    → Behind n1 (bytes ++ entries ps) (copy_packs c ps)
unfolding copy_packs
copy_packs-Behind n1 bytes [] c b = rw (append-nil bytes) b
copy_packs-Behind n1 bytes (p ∷ ps) c b = rw (← append_assoc bytes (pack_image p) (entries ps)) (
    copy_packs-Behind n1 (bytes ++ pack_image p) ps (copy c (pack_image p) pack_size)
      (copy_all-Behind n1 bytes (pack_image p) pack_size c (length-pack_image p) b))

copy_payloads-Behind :
    (n1 : ℕ) (bytes : List ℕ) (ps : List Pack) (c : Cursor)
    → Readable ps
    → Behind n1 bytes c
    → Behind n1 (bytes ++ copies ps) (copy_payloads c ps)
unfolding copy_payloads
copy_payloads-Behind n1 bytes [] c r b = rw (append-nil bytes) b
copy_payloads-Behind n1 bytes (p ∷ ps) c r b = rw (← append_assoc bytes (copied p) (copies ps)) (
    copy_payloads-Behind n1 (bytes ++ copied p) ps (copy c p.mem (payload_len p)) r.1
      (copy-Behind n1 bytes p.mem (payload_len p) c r.0 b))

-- The sum that the first loop makes is the length of what the other loops write.
pub packs_size-length :
    (total : ℕ) (ps : List Pack)
    → Readable ps
    → packs_size total ps ≡ total + (length (entries ps) + length (copies ps))
unfolding packs_size
packs_size-length total [] r = omega arith
packs_size-length total (p ∷ ps) r = omega (
  arith,
  packs_size-length (total + pack_size + payload_len p) ps r.1,
  length-append (pack_image p) (entries ps),
  length-append (copied p) (copies ps),
  length-pack_image p,
  length-take (payload_len p) p.mem,
  r.0,
)

pub length-stream_bytes :
    (s : Stream) (sec nsec : ℕ)
    → Readable s.packs
    → length (stream_bytes s sec nsec) ≡ packs_size 40 s.packs
length-stream_bytes s sec nsec r =
    simp (length-append, length-record_image, length-stream_image)
      (omega (arith, packs_size-length 40 s.packs r))

-- All the copies of a put, with the size that it has computed.
stream_copies-Behind :
    (s : Stream) (size sec nsec n1 : ℕ)
    → Readable s.packs
    → let rec : List ℕ = record_image size (stream_tag s) (millis sec nsec) in
      let c1 : Cursor = copy (cursor n1) rec 16 in
      Behind n1
        (rec ++ (stream_image s ++ (entries s.packs ++ copies s.packs)))
        (copy_payloads (copy_packs (copy c1 (stream_image s) 24) s.packs) s.packs)
stream_copies-Behind s size sec nsec n1 r =
    let rec : List ℕ = record_image size (stream_tag s) (millis sec nsec) in
    let c1 : Cursor = copy (cursor n1) rec 16 in
    let b1 : Behind n1 rec c1 =
      copy_all-Behind n1 [] rec 16 (cursor n1)
        (length-record_image size (stream_tag s) (millis sec nsec)) (cursor-Behind n1) in
    let b2 = copy_all-Behind n1 rec (stream_image s) 24 c1 (length-stream_image s) b1 in
    let b3 =
      copy_packs-Behind n1 (rec ++ stream_image s) s.packs (copy c1 (stream_image s) 24) b2 in
    simp append_assoc at (
      copy_payloads-Behind n1 ((rec ++ stream_image s) ++ entries s.packs) s.packs
        (copy_packs (copy c1 (stream_image s) 24) s.packs) r b3)

frame_copies-Behind :
    (f : Frame) (size sec nsec n1 : ℕ)
    → length f.image ≡ 224
    → frame_len f ≤ length f.mapped
    → let rec : List ℕ = record_image size (bit_or tag_base 1) (millis sec nsec) in
      let c2 : Cursor = copy (copy (cursor n1) rec 16) f.image 224 in
      Behind n1 (rec ++ (f.image ++ take (frame_len f) f.mapped)) (copy c2 f.mapped (frame_len f))
frame_copies-Behind f size sec nsec n1 i m =
    let rec : List ℕ = record_image size (bit_or tag_base 1) (millis sec nsec) in
    let c1 : Cursor = copy (cursor n1) rec 16 in
    let b1 : Behind n1 rec c1 =
      copy_all-Behind n1 [] rec 16 (cursor n1)
        (length-record_image size (bit_or tag_base 1) (millis sec nsec)) (cursor-Behind n1) in
    let b2 = copy_all-Behind n1 rec f.image 224 c1 i b1 in
    simp append_assoc at
      (copy-Behind n1 (rec ++ f.image) f.mapped (frame_len f) (copy c1 f.image 224) m b2)

length-frame_bytes :
    (f : Frame) (sec nsec : ℕ)
    → length f.image ≡ 224
    → frame_len f ≤ length f.mapped
    → length (frame_bytes f sec nsec) ≡ 240 + frame_len f
length-frame_bytes f sec nsec i m =
    simp (length-append, length-record_image, length-take) (omega arith)

-- video_stream_recput fills the ring, wherever it is cut, with the bytes of one record, the part
-- before the cut at p1 and the rest at p2, and returns their number, if that fits 32 bits and
-- the memory of the packs is as long as they say.
pub stream_recput_lem :
    (s : Stream) (sec nsec n1 : ℕ)
    → Readable s.packs
    → packs_size 40 s.packs < 2 ^ 32
    → let w = stream_recput s sec nsec n1 in
      let bytes : List ℕ = stream_bytes s sec nsec in
      (w.cur.out1 ≡ take n1 bytes) × (w.cur.out2 ≡ drop n1 bytes) × (w.ret ≡ length bytes)
unfolding stream_recput
stream_recput_lem s sec nsec n1 r h = rw (mod-eq_of_lt h) (
    let b = stream_copies-Behind s (packs_size 40 s.packs) sec nsec n1 r in
    (b.first, b.second, sym (length-stream_bytes s sec nsec r)))

-- `video_frame_recput` does the same with the record of a frame, if the structure is there whole, the
-- mapped memory is as long as the frame and the record fits 32 bits.
pub frame_recput_lem :
    (f : Frame) (sec nsec n1 : ℕ)
    → length f.image ≡ 224
    → frame_len f ≤ length f.mapped
    → 240 + frame_len f < 2 ^ 32
    → let w = frame_recput f sec nsec n1 in
      let bytes : List ℕ = frame_bytes f sec nsec in
      (w.cur.out1 ≡ take n1 bytes) × (w.cur.out2 ≡ drop n1 bytes) × (w.ret ≡ length bytes)
unfolding frame_recput
frame_recput_lem f sec nsec n1 i m h =
    let total : (240 + frame_len f) % 2 ^ 64 % 2 ^ 32 ≡ 240 + frame_len f = omega arith in
    let body : frame_len f % 2 ^ 32 ≡ frame_len f = omega arith in
    rw (total, body)
      (let b = frame_copies-Behind f (240 + frame_len f) sec nsec n1 i m in
        (b.first, b.second, sym (length-frame_bytes f sec nsec i m)))
