-- ===== src/Mm/Pages.antt =====
-- Mapping memory and taking the mapping away again.
use freak.Prelude.{
  ℕ, ◌+◌, ◌-◌, ◌*◌, ◌%◌, ◌^◌, ◌≡◌, ◌<◌, refl, ap, ap₂, ◌∙◌, true, [], ◌∷◌, Option, some, arith,
}
use native.Mathlib.Nat.{
  mod-eq_of_lt, mul-add-div_right, div-eq_of_lt, div-mul-le_self, lt-div-mul-add,
}
use freak.Mm.{opened, closed, mapped, unmapped, page_base, page_offset, physmap, physunmap}

module _ (pagesize : ℕ) (some_size : 0 < pagesize) where
  -- The page of an address behind the start of page `k`.
  page_of :
      (k offset : ℕ) → offset < pagesize → page_base pagesize (k * pagesize + offset) ≡ k * pagesize
  page_of k offset h =
      ap (λ q. q * pagesize)
        (mul-add-div_right some_size k offset ∙ ap (λ q. k + q) (div-eq_of_lt h) ∙ omega arith)

  offset_fits : (a : ℕ) → page_offset pagesize a < pagesize
  offset_fits a =
      omega (arith, div-mul-le_self a pagesize, lt-div-mul-add {a = a} {b = pagesize} some_size)

  -- physunmap of the pointer that physmap returned, with the same size, unmaps just the pages
  -- and the length that were mapped; the pointer's bytes, as many as asked for, lie in the
  -- mapping and are those of the physical address. The conditions: the mapping succeeds at the
  -- start of a page, and does not end behind the last address.
  pub physunmap-physmap :
      (mmap : ℕ → ℕ → Option ℕ) (phyaddr size page : ℕ)
      → mmap ((page_offset pagesize phyaddr + size) % 2 ^ 64) (page_base pagesize phyaddr)
        ≡ some (page * pagesize)
      → page * pagesize + page_offset pagesize phyaddr + size < 2 ^ 64
      → (virtaddr : ℕ) × (length : ℕ) × (physmap pagesize true mmap phyaddr size
          ≡ (virtaddr, closed ∷ mapped length (page_base pagesize phyaddr) ∷ opened ∷ []))
        × (physunmap pagesize virtaddr size ≡ unmapped (page * pagesize) length)
        × ((k : ℕ)
            → k < size
            → (virtaddr + k < page * pagesize + length)
              × (page_base pagesize phyaddr + (virtaddr + k - page * pagesize) ≡ phyaddr + k))
  unfolding physmap physunmap
  physunmap-physmap mmap phyaddr size page e fits =
      let offset = page_offset pagesize phyaddr in
      let low = offset_fits phyaddr in
      let below = div-mul-le_self phyaddr pagesize in
      let at : (page * pagesize + offset) % 2 ^ 64 ≡ page * pagesize + offset =
        mod-eq_of_lt (omega (arith, fits)) in
      let whole : (offset + size) % 2 ^ 64 ≡ offset + size = mod-eq_of_lt (omega (arith, fits)) in
      let base = page_of page offset low in
      let off : page_offset pagesize (page * pagesize + offset) ≡ offset = omega (arith, base) in
      (
        page * pagesize + offset,
        (offset + size) % 2 ^ 64,
        rw (e, at) refl,
        ap₂ (λ b o. unmapped b ((o + size) % 2 ^ 64)) base off,
        λ k h. (omega (arith, whole), omega (arith, below)),
      )
