-- ===== src/Mm/Entries.antt =====
-- What virt2phys makes of an entry of the page map.
use freak.Prelude.{
  ℕ, ◌+◌, ◌*◌, ◌/◌, ◌%◌, ◌^◌, ◌≡◌, ◌<◌, refl, ◌∙◌, List, [], ◌∷◌, Option, some, le, arith,
}
use native.Mathlib.Nat.{mod-eq_of_lt}
use freak.Mm.{minus_one, entry_info, virt2phys}

-- One byte more.
entry_step : (info b : ℕ) → b < 256 → info < 2 ^ 56 → (info * 2 ^ 8 + b) % 2 ^ 64 ≡ info * 256 + b
entry_step info b hb h = mod-eq_of_lt (omega arith)

-- Seven bytes at the end of an entry leave what was there on top.
seven :
    (i a b c d e f g : ℕ)
    → i < 256
    → a < 256
    → b < 256
    → c < 256
    → d < 256
    → e < 256
    → f < 256
    → g < 256
    → entry_info i (a ∷ b ∷ c ∷ d ∷ e ∷ f ∷ g ∷ []) / 2 ^ 63 ≡ i / 128
unfolding entry_info
seven i a b c d e f g hi ha hb hc hd he hf hg =
    let e1 = entry_step i a ha (omega arith) in
    let e2 = entry_step (i * 256 + a) b hb (omega arith) in
    let e3 = entry_step ((i * 256 + a) * 256 + b) c hc (omega arith) in
    let e4 = entry_step (((i * 256 + a) * 256 + b) * 256 + c) d hd (omega arith) in
    let e5 = entry_step ((((i * 256 + a) * 256 + b) * 256 + c) * 256 + d) e he (omega arith) in
    let e6 =
      entry_step (((((i * 256 + a) * 256 + b) * 256 + c) * 256 + d) * 256 + e) f hf (omega arith) in
    let e7 =
      entry_step ((((((i * 256 + a) * 256 + b) * 256 + c) * 256 + d) * 256 + e) * 256 + f) g hg
        (omega arith) in
    rw (e1, e2, e3, e4, e5, e6, e7) (omega arith)

-- The first byte in memory, the low one of the entry, comes out on top.
entry_top : (e : ℕ) → entry_info 0 (le 8 e) / 2 ^ 63 ≡ e % 256 / 128
unfolding entry_info le
entry_top e =
    let zero_first : (0 + e % 256) % 2 ^ 64 ≡ e % 256 = mod-eq_of_lt (omega arith) ∙ omega arith in
    rw zero_first (
      seven (e % 256) (e / 256 % 256) (e / 256 / 256 % 256) (e / 256 / 256 / 256 % 256)
        (e / 256 / 256 / 256 / 256 % 256) (e / 256 / 256 / 256 / 256 / 256 % 256)
        (e / 256 / 256 / 256 / 256 / 256 / 256 % 256)
        (e / 256 / 256 / 256 / 256 / 256 / 256 / 256 % 256) (omega arith) (omega arith)
        (omega arith) (omega arith) (omega arith) (omega arith) (omega arith) (omega arith))

-- virt2phys of an address whose entry in the page map, in the order of bytes of a little-endian
-- machine, has the bit 7 of the page number clear gives -1, whether the page is present or not.
pub virt2phys_lem :
    (pagesize vaddr entry : ℕ) (pread : ℕ → Option (List ℕ))
    → pread (vaddr / pagesize * 8 % 2 ^ 64) ≡ some (le 8 entry)
    → entry % 256 < 128
    → virt2phys pagesize pread vaddr ≡ minus_one
unfolding virt2phys
virt2phys_lem pagesize vaddr entry pread e h =
    let absent : entry_info 0 (le 8 entry) / 2 ^ 63 % 2 ≡ 0 = omega (arith, entry_top entry) in
    simp (virt2phys, e, absent) refl
