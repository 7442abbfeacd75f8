-- ===== src/Mm.antt =====
-- Physical memory: mod/utils/mm/src/physmap.c and mod/utils/mm/src/virt2phys.c.
mod Pages
mod Entries
mod Tests
use freak.Prelude.{
  ℕ, ◌+◌, ◌-◌, ◌*◌, ◌/◌, ◌%◌, ◌^◌, Bool, List, [], ◌∷◌, Option, some, none, ◌==◌, if◌then◌else◌,
}

-- The calls of the operating system, the last one first: of `open` and `close`, of `mmap` with the
-- length and the offset, of `munmap` with the address and the length.
pub data SysCall : Type 0 where
  opened closed : SysCall
  mapped unmapped : ℕ → ℕ → SysCall

-- `MAP_FAILED`, and `(off_t)(-1)`
abbrev pub minus_one : ℕ
minus_one = 18446744073709551615

-- `page_base` and `page_offset`
abbrev pub page_base : ℕ → ℕ → ℕ
page_base pagesize offset = offset / pagesize * pagesize

abbrev pub page_offset : ℕ → ℕ → ℕ
page_offset pagesize offset = offset - page_base pagesize offset

-- `opens` says whether /dev/mem can be opened, and `mmap` where a length and an offset are mapped, if
-- they can be.
module _ (pagesize : ℕ) (opens : Bool) (mmap : ℕ → ℕ → Option ℕ) where
  -- `physmap`: the pointer and the calls.
  pub physmap : ℕ → ℕ → ℕ × List SysCall
  physmap phyaddr size =
      let base : ℕ = page_base pagesize phyaddr in
      let offset : ℕ = page_offset pagesize phyaddr in
      let length : ℕ = (offset + size) % 2 ^ 64 in
      if opens
      then (elim (mmap length base) [
        | none ↦ (minus_one, closed ∷ mapped length base ∷ opened ∷ [])
        | some mem ↦ ((mem + offset) % 2 ^ 64, closed ∷ mapped length base ∷ opened ∷ [])
      ])
      else (0, [])

-- `physunmap`: the call.
pub physunmap : ℕ → ℕ → ℕ → SysCall
physunmap pagesize virtaddr size =
    unmapped (page_base pagesize virtaddr) ((page_offset pagesize virtaddr + size) % 2 ^ 64)

-- The loop of `virt2phys` over the bytes of an entry.
pub entry_info : ℕ → List ℕ → ℕ
entry_info info [] = info
entry_info info (b ∷ bs) = entry_info ((info * 2 ^ 8 + b) % 2 ^ 64) bs

-- `virt2phys`, where `pread` gives the bytes of the page map at an offset, if it can be opened and
-- read.
pub virt2phys : ℕ → (ℕ → Option (List ℕ)) → ℕ → ℕ
unfolding entry_info
virt2phys pagesize pread vaddr = elim (pread (vaddr / pagesize * 8 % 2 ^ 64)) [
  | none ↦ minus_one
  | some bytes ↦
      (let info = entry_info 0 bytes in
        let pfn = info % 2 ^ 55 in
        let swapped = info / 2 ^ 62 % 2 in
        let present = info / 2 ^ 63 % 2 in
        if present == 0
        then minus_one
        else (if swapped == 0 then (pfn * pagesize + vaddr % pagesize) % 2 ^ 64 else minus_one))
]
