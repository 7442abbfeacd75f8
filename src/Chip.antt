-- ===== src/Chip.antt =====
-- The layers over the SDK of the chip: mod/vsf-hi3516d/src/hal. sys.c, vi.c, vpss.c and venc.c keep
-- their objects in the same way; vpss.c and venc.c give what the chip makes to callbacks in threads.
pub mod Life
pub mod Races
pub mod Pump
pub mod Turns
mod Tests
use freak.Prelude.{
  ℕ, zero, suc, ◌+◌, ◌^◌, ltb, leb, Bool, true, false, List, [], ◌∷◌, ◌++◌, replicate, Option, some,
  none, ◌==◌, if◌then◌else◌, get_elem?, set,
}
use freak.Proto.{◌>>=◌, ◌>>◌, check}
use freak.Memory.{Heap, alloc, release}

-- An object with its private data, by their numbers on the heap.
pub record Object : Type 0 where
  pub priv : ℕ
  pub obj : ℕ

-- `vsf_vpss_mod_t` and the others: `table` is the memory of `objs`.
pub record Mod : Type 0 where
  pub num : ℕ
  pub table : ℕ
  pub objs : List (Option Object)

-- `VSF_createVpss`, `VSF_createVenc`, `VSF_createVi` and `VSF_createSys`: a result `none` inside is
-- NULL. A negative id is a fault.
pub create_object : ℕ → Mod → Heap → Option (Option Object × Mod × Heap)
create_object id m w =
    if ltb id (2 ^ 31)
    then (if leb m.num id then some (none, m, w) else elim (get_elem? m.objs id) [
      | none ↦ none
      | some (some o) ↦ some (some o, m, w)
      | some none ↦
          (let (priv, w1) = alloc w in
            let (obj, w2) = alloc w1 in
            let o : Object = record { priv = priv; obj = obj } in
            some (some o, record m { objs = set m.objs id (some o) }, w2))
    ])
    else none

-- `__vpss_destroy` and the others, after the calls of the SDK.
pub destroy_object : ℕ → Object → Mod → Heap → Option (Mod × Heap)
destroy_object id o m w = release o.priv w >>= λ w1.
    release o.obj w1 >>= λ w2. some (record m { objs = set m.objs id none }, w2)

-- The loop of the constructor; `init` says for which objects the function of that name returns 0.
pub construct_from : (ℕ → Bool) → ℕ → ℕ → Mod → Heap → Option (Mod × Heap)
unfolding create_object
construct_from init zero i m w = some (m, w)
construct_from init (suc n) i m w = create_object i m w >>= λ (o, m1, w1).
    o >>= λ o1. check (init i) >> construct_from init n (suc i) m1 w1

-- `sdk_vpss_constructor` and the others
pub construct : (ℕ → Bool) → ℕ → Heap → Option (Mod × Heap)
unfolding construct_from
construct init num w =
    let (table, w1) = alloc w in
    construct_from init num 0 (record { num = num; table = table; objs = replicate num none }) w1

-- The loop of the destructor
pub destruct_from : ℕ → ℕ → Mod → Heap → Option (Mod × Heap)
unfolding create_object destroy_object
destruct_from zero i m w = some (m, w)
destruct_from (suc n) i m w = create_object i m w >>= λ (o, m1, w1).
    o >>= λ o1. destroy_object i o1 m1 w1 >>= λ (m2, w2). destruct_from n (suc i) m2 w2

-- `sdk_vpss_destructor` and the others
pub destruct : Mod → Heap → Option (Mod × Heap)
unfolding destruct_from
destruct m w = destruct_from m.num 0 m w >>= λ (m1, w1).
    release m1.table w1 >>= λ w2. some (record m1 { num = 0 }, w2)
