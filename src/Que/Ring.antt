-- ===== src/Que/Ring.antt =====
-- The ring behind `que_priv_t`: its invariant, and the queue of elements that it stands for.
use freak.Prelude.{
  ℕ, zero, suc, ◌+◌, ◌-◌, ◌%◌, ◌^◌, ◌≤◌, ◌<◌, ◌≡◌, refl, ap, ap₂, ◌∙◌, sym, ◌≢◌, List, [], ◌∷◌,
  ◌++◌, some, arith, length, length-set, get_or, set, get_or-set_self, get_or-set_ne, true,
}
use native.Mathlib.Nat.{mod-add-mod, mod-eq_of_lt, add-zero}
use freak.Que.{Que, add_uint, create, delete, elements_block, store, fetch}

-- Between two operations the indices are in range, the write index is `len` places after the read
-- index, and the memory has room for `depth` elements.
pub record IsValid (q : Que) : Type 0 where
  pub room : q.depth ≤ length q.elements
  pub width : q.depth < 2 ^ 32
  pub rd_in : q.cur_rd < q.depth
  pub wr_at : q.cur_wr ≡ (q.cur_rd + q.len) % q.depth
  pub len_in : q.len ≤ q.depth

ahead-ne : (d rd k : ℕ) → rd < d → suc k < d → (rd + suc k) % d ≢ rd
ahead-ne d rd k h l = grind arith

ahead-step : (d rd k : ℕ) → ((rd + 1) % d + k) % d ≡ (rd + suc k) % d
ahead-step d rd k = rw mod-add-mod (ap (λ t. t % d) (omega arith))

module _ (els : List ℕ) (d : ℕ) where
  -- The `n` elements from index `rd` on, round the ring.
  abbrev pub from_index : ℕ → ℕ → List ℕ
  from_index rd zero = []
  from_index rd (suc n) = get_or els rd 0 ∷ from_index ((rd + 1) % d) n

  pub length-from_index : (rd n : ℕ) → length (from_index rd n) ≡ n
  length-from_index rd zero = refl
  length-from_index rd (suc n) = ap suc (length-from_index ((rd + 1) % d) n)

  -- The last element stands `n` places on.
  from_index-snoc :
      (rd n : ℕ)
      → rd < d
      → from_index rd (suc n) ≡ from_index rd n ++ get_or els ((rd + n) % d) 0 ∷ []
  from_index-snoc rd zero h = rw (add-zero, mod-eq_of_lt h)
  from_index-snoc rd (suc n) h = ap (◌∷◌ (get_or els rd 0)) (
      from_index-snoc ((rd + 1) % d) n (omega arith)
      ∙ ap (λ k. from_index ((rd + 1) % d) n ++ get_or els k 0 ∷ []) (ahead-step d rd n))

-- A write outside the elements that the queue holds does not show.
from_index-set :
    (els : List ℕ) (d val rd n i k : ℕ)
    → rd < d
    → n + k < d
    → i ≡ (rd + (n + k)) % d
    → from_index (set els i val) d rd n ≡ from_index els d rd n
from_index-set els d val rd zero i k h l e = refl
from_index-set els d val rd (suc n) i k h l e =
    let e' : i ≡ (rd + suc (n + k)) % d = e ∙ ap (λ t. t % d) (omega arith) in
    ap₂ ◌∷◌ (get_or-set_ne els val 0 (λ p. ahead-ne d rd (n + k) h (omega arith) (sym e' ∙ p))) (
      from_index-set els d val ((rd + 1) % d) n i k (omega arith) (omega arith)
        (e' ∙ sym (ahead-step d rd (n + k))))

-- The elements that the queue holds, oldest first.
abbrev pub contents : Que → List ℕ
contents q = from_index q.elements q.depth q.cur_rd q.len

pub length-contents : (q : Que) → length (contents q) ≡ q.len
length-contents q = length-from_index q.elements q.depth q.cur_rd q.len

-- A queue that que_create makes, with a depth above 0 that fits 32 bits and memory for as many
-- elements, is valid, empty and of that depth.
pub create-IsValid :
    (depth : ℕ) (memory : List ℕ) {q : Que}
    → 0 < depth
    → depth < 2 ^ 32
    → depth ≤ length memory
    → (create depth true (some memory)).1 ≡ some q
    → IsValid q × (contents q ≡ []) × (q.depth ≡ depth)
unfolding create
create-IsValid depth memory p w m e = ground arith

-- One step round the ring, in the code's arithmetic and in this file's.
step_index : (d i : ℕ) → d < 2 ^ 32 → i < d → add_uint i 1 % d ≡ (i + 1) % d
step_index d i w h = ap (λ t. t % d) (mod-eq_of_lt (omega arith))

store-IsValid : (q : Que) (val : ℕ) → IsValid q → q.len < q.depth → IsValid (store q val)
unfolding store
store-IsValid q val v h = record {
  room = rw (length-set q.elements q.cur_wr val) v.room;
  width = v.width;
  rd_in = v.rd_in;
  wr_at =
      step_index q.depth q.cur_wr v.width (omega (arith, v))
      ∙ (ap (λ t. (t + 1) % q.depth) v.wr_at
          ∙ (mod-add-mod (q.cur_rd + q.len) q.depth 1 ∙ ap (λ t. t % q.depth) (omega (arith, v))));
  len_in = omega (arith, v);
}

store-contents :
    (q : Que) (val : ℕ)
    → IsValid q
    → q.len < q.depth
    → contents (store q val) ≡ contents q ++ val ∷ []
unfolding store
store-contents q val v h =
    let els : List ℕ = set q.elements q.cur_wr val in
    ap (from_index els q.depth q.cur_rd) {y = suc q.len} (omega (arith, v))
    ∙ (from_index-snoc els q.depth q.cur_rd q.len v.rd_in
        ∙ ap₂ (λ xs x. xs ++ x ∷ [])
            (from_index-set q.elements q.depth val q.cur_rd q.len q.cur_wr 0 v.rd_in (omega arith)
              (v.wr_at ∙ ap (λ t. (q.cur_rd + t) % q.depth) (omega arith)))
            (rw (← v.wr_at) (get_or-set_self q.elements q.cur_wr val 0 (omega (arith, v)))))

-- Storing puts the element last, and keeps the invariant.
pub store_lem :
    (q : Que) (val : ℕ)
    → IsValid q
    → q.len < q.depth
    → IsValid (store q val) × (contents (store q val) ≡ contents q ++ val ∷ [])
store_lem q val v h = (store-IsValid q val v h, store-contents q val v h)

fetch-IsValid : (q : Que) → IsValid q → 0 < q.len → IsValid (fetch q).1
unfolding fetch
fetch-IsValid q v h = record {
  room = v.room;
  width = v.width;
  rd_in = omega (arith, v);
  wr_at =
      v.wr_at
      ∙ (ap (λ t. t % q.depth) (omega arith)
          ∙ (sym (mod-add-mod (q.cur_rd + 1) q.depth (q.len - 1))
              ∙ ap (λ t. (t + (q.len - 1)) % q.depth)
                  (sym (step_index q.depth q.cur_rd v.width v.rd_in))));
  len_in = omega (arith, v);
}

from_index-pop :
    (els : List ℕ) (d rd n : ℕ)
    → 0 < n
    → from_index els d rd n ≡ get_or els rd 0 ∷ from_index els d ((rd + 1) % d) (n - 1)
from_index-pop els d rd zero h = absurd (omega arith)
from_index-pop els d rd (suc n) h =
    ap (λ k. get_or els rd 0 ∷ from_index els d ((rd + 1) % d) k) (omega arith)

-- Fetching takes the oldest element, and keeps the invariant.
pub fetch_lem :
    (q : Que)
    → IsValid q
    → 0 < q.len
    → IsValid (fetch q).1 × (contents q ≡ (fetch q).0 ∷ contents (fetch q).1)
unfolding fetch
fetch_lem q v h = (
  fetch-IsValid q v h,
  rw (step_index q.depth q.cur_rd v.width v.rd_in)
      (from_index-pop q.elements q.depth q.cur_rd q.len h),
)

-- `que_create` then `que_delete` leaves the elements allocated.
pub delete-create :
    (depth : ℕ) (memory : List ℕ)
    → delete (create depth true (some memory)).2 ≡ (0, elements_block ∷ [])
unfolding create delete
delete-create depth memory = refl
