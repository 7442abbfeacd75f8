-- ===== src/Media/Get.antt =====
-- What the reading hooks of a media record see and copy, wherever the ring is cut.
use freak.Prelude.{
  ℕ, ◌+◌, ◌-◌, ◌^◌, ◌≡◌, refl, ap, ap₂, ◌∙◌, sym, ◌≤◌, ◌<◌, min, List, [], ◌++◌, arith, length,
  take, drop, length-append, length-take, length-drop, append_assoc, append-nil, take_all,
  take-append-drop, take-append, drop-append, drop-drop, slice, of_le, ltb, le→leb, lt→not-leb,
  le→not-ltb, false, true, leb, some,
}
use native.Mathlib.Decide.{dec_le}
use freak.Media.{header, recsize, rectag, write_at, get_data, recget, tag_base, sub32}
use freak.Media.Copying.{take-take, drop-take, take-append_cut, drop-append_cut}

-- Bytes on both sides of the cut, put together.
across : (a n1 : ℕ) (m : List ℕ) → n1 ≤ a → take n1 m ++ take (a - n1) (drop n1 m) ≡ take a m
across a n1 m h =
    ap₂ ◌++◌ (sym (take-take n1 a m h)) (sym (drop-take n1 a m)) ∙ take-append-drop n1 (take a m)

-- The `a` bytes that the code takes from the two sides of the cut are the first `a` bytes.
cut_lem :
    (a n1 : ℕ) (m : List ℕ)
    → take (min a n1) (take n1 m) ++ take (a - min a n1) (drop n1 m) ≡ take a m
cut_lem a n1 m = elim (dec_le a n1) [
  | yes h ↦
      ap₂ ◌++◌ (take-take (min a n1) n1 m (omega arith))
        (ap (λ k. take k (drop n1 m)) {x = a - min a n1} {y = 0} (omega arith))
      ∙ (append-nil (take (min a n1) m) ∙ ap (λ k. take k m) {x = min a n1} {y = a} (omega arith))
  | no h ↦
      ap (λ k. take k (take n1 m) ++ take (a - k) (drop n1 m)) {x = min a n1} {y = n1} (omega arith)
      ∙ (ap (λ t. t ++ take (a - n1) (drop n1 m)) (take-take n1 n1 m (omega arith))
          ∙ across a n1 m (omega arith))
]

header_lem : (n1 : ℕ) (m : List ℕ) → header n1 (take n1 m) (drop n1 m) ≡ take 16 m
header_lem n1 m = elim (dec_le 16 n1) [
  | yes h ↦ rw (le→leb 16 n1 h) (take-take 16 n1 m h)
  | no h ↦
      rw (lt→not-leb 16 n1 (omega arith), take-take n1 n1 m (omega arith))
        (across 16 n1 m (omega arith))
]

-- The size and the tag of a record are read the same wherever the ring is cut: they are the
-- first two fields of the memory.
pub recsize_lem :
    (n1 : ℕ) (m : List ℕ)
    → (recsize n1 (take n1 m) (drop n1 m) ≡ of_le (slice m 0 4))
      × (rectag n1 (take n1 m) (drop n1 m) ≡ of_le (slice m 4 4))
unfolding recsize rectag
recsize_lem n1 m = rw (header_lem n1 m) (
  ap of_le (take-take 4 16 m (omega arith)),
  ap of_le (ap (take 4) (drop-take 4 16 m) ∙ take-take 4 12 (drop 4 m) (omega arith)),
)

-- A write just behind what has been written.
write_at-append :
    (buf xs ys : List ℕ) (off : ℕ)
    → length xs ≡ off
    → write_at (xs ++ drop (length xs) buf) off ys ≡ (xs ++ ys) ++ drop (length (xs ++ ys)) buf
unfolding write_at
write_at-append buf xs ys off e =
    let rest : drop (off + length ys) (xs ++ drop (length xs) buf) ≡ drop (length (xs ++ ys)) buf =
      sym (drop-drop off (length ys) (xs ++ drop (length xs) buf))
      ∙ (ap (drop (length ys)) (drop-append off xs (drop (length xs) buf) e)
          ∙ (drop-drop (length xs) (length ys) buf
              ∙ ap (λ k. drop k buf) (sym (length-append xs ys)))) in
    ap₂ (λ s t. s ++ (ys ++ t)) (take-append off xs (drop (length xs) buf) e) rest
    ∙ sym (append_assoc xs ys (drop (length (xs ++ ys)) buf))

write_at-nil : (buf : List ℕ) (off : ℕ) → write_at buf off [] ≡ buf
unfolding write_at
write_at-nil buf off =
    ap (λ k. take off buf ++ drop k buf) {x = off + 0} {y = off} (omega arith)
    ∙ take-append-drop off buf

-- The buffer after the first `n` bytes of the memory have been copied to it.
abbrev pub filled : List ℕ → List ℕ → ℕ → List ℕ
filled m buf n = take n m ++ drop n buf

filled-of :
    (m buf : List ℕ) (n : ℕ)
    → n ≤ length m
    → take n m ++ drop (length (take n m)) buf ≡ filled m buf n
filled-of m buf n h = ap (λ k. take n m ++ drop k buf) (omega (arith, length-take n m))

-- A second write behind the first one.
two_writes :
    (a n1 : ℕ) (m buf : List ℕ) (off : ℕ)
    → a ≤ length m
    → length (take (min a n1) (take n1 m)) ≡ off
    → let first : List ℕ = take (min a n1) (take n1 m) in
      write_at (first ++ drop (length first) buf) off (take (a - min a n1) (drop n1 m))
      ≡ filled m buf a
two_writes a n1 m buf off h e =
    write_at-append buf (take (min a n1) (take n1 m)) (take (a - min a n1) (drop n1 m)) off e
    ∙ (ap (λ t. t ++ drop (length t) buf) (cut_lem a n1 m) ∙ filled-of m buf a h)

-- The two writes of the header leave its 16 bytes in the buffer. The second one goes to `p + n1`,
-- which is behind the first wherever it writes at all.
get_header :
    (n1 : ℕ) (m buf : List ℕ)
    → 16 ≤ length m
    → write_at
        (write_at buf 0 (take (min 16 n1) (take n1 m)))
        n1
        (take (16 - min 16 n1) (drop n1 m))
      ≡ filled m buf 16
get_header n1 m buf h = elim (dec_le n1 16) [
  | yes p ↦
      ap (λ b. write_at b n1 (take (16 - min 16 n1) (drop n1 m)))
        (write_at-append buf [] (take (min 16 n1) (take n1 m)) 0 refl)
      ∙ two_writes 16 n1 m buf n1 h
          (omega (arith, length-take (min 16 n1) (take n1 m), length-take n1 m))
  | no p ↦
      ap (λ k. write_at (write_at buf 0 (take (min 16 n1) (take n1 m))) n1 (take k (drop n1 m)))
        {x = 16 - min 16 n1} {y = 0} (omega arith)
      ∙ (write_at-nil (write_at buf 0 (take (min 16 n1) (take n1 m))) n1
          ∙ (write_at-append buf [] (take (min 16 n1) (take n1 m)) 0 refl
              ∙ (ap (λ t. t ++ drop (length t) buf)
                    (ap (λ k. take k (take n1 m)) {x = min 16 n1} {y = 16} (omega arith)
                      ∙ take-take 16 n1 m (omega arith))
                  ∙ filled-of m buf 16 h)))
]

take_front : (n : ℕ) (xs ys : List ℕ) → n ≤ length xs → take n (xs ++ ys) ≡ take n xs
take_front n xs ys h =
    take-append_cut n xs ys
    ∙ (ap (λ k. take n xs ++ take k ys) {x = n - length xs} {y = 0} (omega arith)
        ∙ append-nil (take n xs))

pub slice_front :
    (off n : ℕ) (xs ys : List ℕ) → off + n ≤ length xs → slice (xs ++ ys) off n ≡ slice xs off n
slice_front off n xs ys h =
    ap (take n) (drop-append_cut off xs ys)
    ∙ take_front n (drop off xs) (drop (off - length xs) ys) (omega (arith, length-drop off xs))

pub slice-take :
    (off n k : ℕ) (xs : List ℕ) → off + n ≤ k → slice (take k xs) off n ≡ slice xs off n
slice-take off n k xs h =
    ap (take n) (drop-take off k xs) ∙ take-take n (k - off) (drop off xs) (omega arith)

slice-filled :
    (m buf : List ℕ) (off n k : ℕ)
    → off + n ≤ k
    → k ≤ length m
    → slice (filled m buf k) off n ≡ slice m off n
slice-filled m buf off n k h l =
    slice_front off n (take k m) (drop k buf) (omega (arith, length-take k m))
    ∙ slice-take off n k m h

-- What is left on both sides of the cut behind the header.
first_rest :
    (n1 : ℕ) (m : List ℕ) → drop (min 16 n1) (take n1 m) ≡ take (n1 - min 16 n1) (drop 16 m)
first_rest n1 m = elim (dec_le 16 n1) [
  | yes h ↦
      ap (λ k. drop k (take n1 m)) {x = min 16 n1} {y = 16} (omega arith)
      ∙ (drop-take 16 n1 m ∙ ap (λ k. take k (drop 16 m)) {x = n1 - 16} (omega arith))
  | no h ↦
      drop-take (min 16 n1) n1 m
      ∙ (ap (λ k. take k (drop (min 16 n1) m)) {x = n1 - min 16 n1} {y = 0} (omega arith)
          ∙ ap (λ k. take k (drop 16 m)) {x = 0} {y = n1 - min 16 n1} (omega arith))
]

second_rest :
    (n1 : ℕ) (m : List ℕ) → drop (16 - min 16 n1) (drop n1 m) ≡ drop (n1 - min 16 n1) (drop 16 m)
second_rest n1 m =
    drop-drop n1 (16 - min 16 n1) m
    ∙ (ap (λ k. drop k m) {y = 16 + (n1 - min 16 n1)} (omega arith)
        ∙ sym (drop-drop 16 (n1 - min 16 n1) m))

-- The two writes of the data.
get_data_lem :
    (n1 : ℕ) (m d buf : List ℕ) (size : ℕ)
    → length m ≡ 16
    → of_le (slice m 0 4) ≡ size
    → 16 ≤ size
    → size < 2 ^ 32
    → size ≤ 16 + length d
    → size ≤ length buf
    → get_data n1 (take n1 d) (drop n1 d) (m ++ drop 16 buf) ≡ some (size, filled (m ++ d) buf size)
unfolding get_data
get_data_lem n1 m d buf size e f lo hi h fits =
    let l : ℕ = min (size - 16) n1 in
    let first : List ℕ = take l (take n1 d) in
    let second : List ℕ = take (size - 16 - l) (drop n1 d) in
    let read : of_le (slice (m ++ drop 16 buf) 0 4) ≡ size =
      ap of_le (take_front 4 m (drop 16 buf) (omega arith)) ∙ f in
    let a : sub32 size 16 ≡ size - 16 = omega arith in
    let len : length (m ++ first) ≡ 16 + l =
      omega (arith, length-append m first, length-take l (take n1 d), length-take n1 d) in
    let joined : (m ++ first) ++ second ≡ take size (m ++ d) =
      append_assoc m first second
      ∙ (ap (λ t. m ++ t) (cut_lem (size - 16) n1 d)
          ∙ (ap₂ (λ s k. s ++ take k d) (sym (take_all size m (omega arith))) (omega arith)
              ∙ sym (take-append_cut size m d))) in
    let there : leb (16 + (size - 16)) (length (m ++ drop 16 buf)) ≡ true =
      le→leb (16 + (size - 16)) (length (m ++ drop 16 buf))
        (omega (arith, length-append m (drop 16 buf), length-drop 16 buf, e)) in
    rw (read, a, there)
      (ap (λ b. some (size, b))
        (ap (λ k. write_at (write_at (m ++ drop k buf) 16 first) (16 + l) second) (sym e)
          ∙ (ap (λ b. write_at b (16 + l) second) (write_at-append buf m first 16 e)
              ∙ (write_at-append buf (m ++ first) second (16 + l) len
                  ∙ (ap (λ t. t ++ drop (length t) buf) joined
                      ∙ filled-of (m ++ d) buf size (omega (arith, length-append m d)))))))

-- Whatever the cut, a get of a record whose tag passes the assertion copies exactly its bytes to
-- the front of the buffer, leaves the rest of the buffer as it was, and returns its size, if the
-- size in the header is at least that of the header, fits 32 bits and passes neither the memory nor
-- the buffer.
pub recget_lem :
    (n1 : ℕ) (m buf : List ℕ) (size : ℕ)
    → of_le (slice m 0 4) ≡ size
    → tag_base ≤ of_le (slice m 4 4)
    → 16 ≤ size
    → size < 2 ^ 32
    → size ≤ length m
    → size ≤ length buf
    → recget n1 (take n1 m) (drop n1 m) buf ≡ some (size, take size m ++ drop size buf)
unfolding recget
recget_lem n1 m buf size e t lo hi h fits =
    let tag : ltb (of_le (slice (filled m buf 16) 4 4)) tag_base ≡ false =
      le→not-ltb (of_le (slice (filled m buf 16) 4 4)) tag_base
        (rw (slice-filled m buf 4 4 16 (omega arith) (omega arith)) t) in
    rw (le→leb 16 (length buf) (omega arith), get_header n1 m buf (omega arith), tag)
      (rw (first_rest n1 m, second_rest n1 m)
        (get_data_lem (n1 - min 16 n1) (take 16 m) (drop 16 m) buf size
            (omega (arith, length-take 16 m)) (ap of_le (slice-take 0 4 16 m (omega arith)) ∙ e) lo
            hi (omega (arith, length-drop 16 m)) fits
          ∙ ap (λ t. some (size, filled t buf size)) (take-append-drop 16 m)))
