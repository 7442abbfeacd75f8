-- ===== src/Media/Payload.antt =====
-- From a put to the encoders: the payloads that the RTP and the FLV senders find in a record.
use freak.Prelude.{
  ℕ, ◌+◌, ◌-◌, ◌*◌, ◌^◌, ◌≡◌, refl, ap, ap₂, ◌∙◌, sym, ◌≤◌, ◌<◌, List, [], ◌∷◌, ◌++◌, arith, length,
  map, take, drop, length-append, length-take, append_assoc, drop-append, drop-drop, slice,
  slice-append, le, of_le, of_le-le, length-le,
}
use freak.Media.{
  Pack, Stream, record_image, stream_image, pack_image, payload_len, packs_size, walk, sub32,
  stream_tag, millis,
}
use freak.Media.Put.{copied, entries, copies, Readable, length-pack_image}

-- The fields of a pack have the widths of the structure, and the offset lies in the pack.
abbrev pub InRange : List Pack → Type 0
InRange [] = Unit {0}
InRange (p ∷ ps) = (p.len < 2 ^ 32) × (p.offset ≤ p.len) × (p.pts < 2 ^ 64) × InRange ps

-- The fields of an entry, read where the code reads them.
len_field :
    (p : Pack) (xs : List ℕ) → p.len < 2 ^ 32 → of_le (slice (pack_image p ++ xs) 16 4) ≡ p.len
unfolding pack_image
len_field p xs h =
    ap of_le (
      simp append_assoc (
        simp append_assoc at (
          slice-append (le 8 p.phy_addr ++ le 8 p.addr) (le 4 p.len)
            (le 4 p.offset ++ (le 8 p.pts ++ (le 4 p.pack_type ++ (le 4 p.pad ++ xs)))) 16 4
            (simp (length-append, length-le)) (length-le 4 p.len))))
    ∙ of_le-le 4 p.len h

offset_field :
    (p : Pack) (xs : List ℕ)
    → p.offset < 2 ^ 32
    → of_le (slice (pack_image p ++ xs) 20 4) ≡ p.offset
unfolding pack_image
offset_field p xs h =
    ap of_le (
      simp append_assoc (
        simp append_assoc at (
          slice-append (le 8 p.phy_addr ++ (le 8 p.addr ++ le 4 p.len)) (le 4 p.offset)
            (le 8 p.pts ++ (le 4 p.pack_type ++ (le 4 p.pad ++ xs))) 20 4
            (simp (length-append, length-le)) (length-le 4 p.offset))))
    ∙ of_le-le 4 p.offset h

pts_field :
    (p : Pack) (xs : List ℕ) → p.pts < 2 ^ 64 → of_le (slice (pack_image p ++ xs) 24 8) ≡ p.pts
unfolding pack_image
pts_field p xs h =
    ap of_le (
      simp append_assoc (
        simp append_assoc at (
          slice-append (le 8 p.phy_addr ++ (le 8 p.addr ++ (le 4 p.len ++ le 4 p.offset)))
            (le 8 p.pts) (le 4 p.pack_type ++ (le 4 p.pad ++ xs)) 24 8
            (simp (length-append, length-le)) (length-le 8 p.pts))))
    ∙ of_le-le 8 p.pts h

-- Reading behind a prefix.
slice_behind :
    (pre xs : List ℕ) (pos k n : ℕ)
    → length pre ≡ pos
    → slice (pre ++ xs) (pos + k) n ≡ slice xs k n
slice_behind pre xs pos k n e =
    ap (take n) (sym (drop-drop pos k (pre ++ xs)) ∙ ap (drop k) (drop-append pos pre xs e))

-- The bytes of a record with the walk between two packs: entries and payloads done and to come.
abbrev pub between : List ℕ → List Pack → List ℕ → List ℕ → List ℕ
between pre ps mid rest = pre ++ (entries ps ++ (mid ++ (copies ps ++ rest)))

between-step :
    (pre : List ℕ) (p : Pack) (ps : List Pack) (mid rest : List ℕ)
    → between pre (p ∷ ps) mid rest ≡ between (pre ++ pack_image p) ps (mid ++ copied p) rest
between-step pre p ps mid rest = simp append_assoc

-- A field of the next entry.
entry_field :
    (pre : List ℕ) (p : Pack) (ps : List Pack) (mid rest : List ℕ) (pos k n : ℕ)
    → length pre ≡ pos
    → slice (between pre (p ∷ ps) mid rest) (pos + k) n
      ≡ slice (pack_image p ++ (entries ps ++ (mid ++ (copies (p ∷ ps) ++ rest)))) k n
entry_field pre p ps mid rest pos k n e =
    slice_behind pre (entries (p ∷ ps) ++ (mid ++ (copies (p ∷ ps) ++ rest))) pos k n e
    ∙ ap (λ t. slice t k n)
        (append_assoc (pack_image p) (entries ps) (mid ++ (copies (p ∷ ps) ++ rest)))

-- The payload at the address that the code has computed.
next_payload :
    (pre : List ℕ) (p : Pack) (ps : List Pack) (mid rest : List ℕ) (addr : ℕ)
    → payload_len p ≤ length p.mem
    → length pre + (length (entries (p ∷ ps)) + length mid) ≡ addr
    → slice (between pre (p ∷ ps) mid rest) addr (payload_len p) ≡ copied p
next_payload pre p ps mid rest addr r f = simp append_assoc (
    simp append_assoc at (
      slice-append (pre ++ (entries (p ∷ ps) ++ mid)) (copied p) (copies ps ++ rest) addr
        (payload_len p)
        (omega (
          arith,
          length-append pre (entries (p ∷ ps) ++ mid),
          length-append (entries (p ∷ ps)) mid,
        ))
        (omega (arith, length-take (payload_len p) p.mem))))

-- What the encoder gets for a pack.
abbrev pub copied_input : (ℕ → ℕ) → Pack → List ℕ × ℕ
copied_input clock p = (copied p, clock p.pts)

-- The payload of a pack starts `u32Offset` bytes behind `pu8Addr`.
abbrev pub payload : Pack → List ℕ
payload p = take (payload_len p) (drop p.offset p.mem)

abbrev pub input : (ℕ → ℕ) → Pack → List ℕ × ℕ
input clock p = (payload p, clock p.pts)

abbrev pub NoOffset : List Pack → Type 0
NoOffset [] = Unit {0}
NoOffset (p ∷ ps) = (p.offset ≡ 0) × NoOffset ps

-- Without an offset the payload is what is copied.
pub input_lem :
    (clock : ℕ → ℕ) (ps : List Pack)
    → NoOffset ps
    → map (copied_input clock) ps ≡ map (input clock) ps
input_lem clock [] n = refl
input_lem clock (p ∷ ps) (e, n) =
    ap₂ ◌∷◌ (ap (λ k. (take (payload_len p) (drop k p.mem), clock p.pts)) {x = 0} (sym e))
      (input_lem clock ps n)

pub walk_lem :
    (clock : ℕ → ℕ) (pre : List ℕ) (ps : List Pack) (mid rest : List ℕ) (pos addr : ℕ)
    → InRange ps
    → Readable ps
    → length pre ≡ pos
    → length pre + (length (entries ps) + length mid) ≡ addr
    → walk clock (between pre ps mid rest) (length ps) pos addr ≡ map (copied_input clock) ps
unfolding walk
walk_lem clock pre [] mid rest pos addr i r e f = refl
walk_lem clock pre (p ∷ ps) mid rest pos addr (il, io, ip, is) (rp, rs) e f =
    let xs : List ℕ = entries ps ++ (mid ++ (copies (p ∷ ps) ++ rest)) in
    let b : List ℕ = between pre (p ∷ ps) mid rest in
    let len : of_le (slice b (pos + 16) 4) ≡ p.len =
      ap of_le (entry_field pre p ps mid rest pos 16 4 e) ∙ len_field p xs il in
    let off : of_le (slice b (pos + 20) 4) ≡ p.offset =
      ap of_le (entry_field pre p ps mid rest pos 20 4 e) ∙ offset_field p xs (omega arith) in
    let pts : of_le (slice b (pos + 24) 8) ≡ p.pts =
      ap of_le (entry_field pre p ps mid rest pos 24 8 e) ∙ pts_field p xs ip in
    let rec =
      walk_lem clock (pre ++ pack_image p) ps (mid ++ copied p) rest (pos + 40)
        (addr + p.len - p.offset) is rs
        (omega (arith, length-append pre (pack_image p), length-pack_image p))
        (omega (
          arith,
          length-append pre (pack_image p),
          length-append (pack_image p) (entries ps),
          length-append mid (copied p),
          length-take (payload_len p) p.mem,
        )) in
    ap₂ ◌∷◌
      (ap₂ (λ t c. (t, clock c))
        (ap₂ (λ l o. slice b addr (sub32 l o)) len off ∙ next_payload pre p ps mid rest addr rp f)
        pts)
      (ap₂ (λ l o. walk clock b (length ps) (pos + 40) (addr + l - o)) len off
        ∙ (ap (λ t. walk clock t (length ps) (pos + 40) (addr + p.len - p.offset))
              (between-step pre p ps mid rest)
            ∙ rec))

pub length-entries : (ps : List Pack) → length (entries ps) ≡ length ps * 40
length-entries [] = omega arith
length-entries (p ∷ ps) =
    omega (arith, length-entries ps, length-append (pack_image p) (entries ps), length-pack_image p)

-- The header and the structure of the stream, in front of the entries.
abbrev pub front : Stream → ℕ → ℕ → List ℕ
front s sec nsec =
    record_image (packs_size 40 s.packs) (stream_tag s) (millis sec nsec) ++ stream_image s

pub record_fields :
    (size tag ts : ℕ) (xs : List ℕ)
    → size < 2 ^ 32
    → tag < 2 ^ 32
    → ts < 2 ^ 64
    → (of_le (slice (record_image size tag ts ++ xs) 0 4) ≡ size)
      × (of_le (slice (record_image size tag ts ++ xs) 4 4) ≡ tag)
      × (of_le (slice (record_image size tag ts ++ xs) 8 8) ≡ ts)
unfolding record_image
record_fields size tag ts xs hs ht hts = (
  ap of_le (
        simp append_assoc
          (slice-append [] (le 4 size) (le 4 tag ++ (le 8 ts ++ xs)) 0 4 refl (length-le 4 size)))
      ∙ of_le-le 4 size hs,
  ap of_le (
        simp append_assoc (
          slice-append (le 4 size) (le 4 tag) (le 8 ts ++ xs) 4 4 (length-le 4 size)
            (length-le 4 tag)))
      ∙ of_le-le 4 tag ht,
  ap of_le (
        simp append_assoc (
          simp append_assoc at (
            slice-append (le 4 size ++ le 4 tag) (le 8 ts) xs 8 8 (simp (length-append, length-le))
              (length-le 8 ts))))
      ∙ of_le-le 8 ts hts,
)

pub count_field :
    (s : Stream) (rec xs : List ℕ)
    → length rec ≡ 16
    → length s.packs < 2 ^ 32
    → of_le (slice ((rec ++ stream_image s) ++ xs) 24 4) ≡ length s.packs
unfolding stream_image
count_field s rec xs e h =
    ap of_le (
      simp append_assoc (
        simp append_assoc at (
          slice-append (rec ++ le 8 s.pst_pack) (le 4 (length s.packs))
            (le 4 s.seq ++ (le 4 s.en_type ++ (le 4 s.pad ++ xs))) 24 4
            (omega (arith, length-append rec (le 8 s.pst_pack), length-le 8 s.pst_pack))
            (length-le 4 (length s.packs)))))
    ∙ of_le-le 4 (length s.packs) h
