-- ===== src/Rgn/Points.antt =====
-- Where the points of a cover come to lie.
use freak.Prelude.{ℕ, ◌+◌, ◌*◌, ◌/◌, ◌%◌, ◌^◌, ◌≡◌, ◌≤◌, arith}
use freak.Prelude.Int.{ℤ, pos, negsuc}
use native.Mathlib.Nat.{mul-le-mul_right}
use freak.Rgn.{in_range, scaled}

in_range_le : (v : ℤ) → in_range v ≤ 8191
in_range_le (pos n) = ground arith
in_range_le (negsuc n) = omega arith

-- A coordinate of a cover, whatever 32-bit number it is, is scaled to an even number that is at
-- most the size of the picture. The conditions: the size is at most 2^19, so that the product
-- fits 32 bits, and the SDK's ALIGN_UP to a multiple of 2 gives an even number that is at most
-- one larger.
pub scaled_lem :
    (align_up : ℕ → ℕ) (v : ℤ) (size : ℕ)
    → ((n : ℕ) → (align_up n % 2 ≡ 0) × (align_up n ≤ n + 1))
    → size ≤ 2 ^ 19
    → (scaled align_up v size ≤ size) × (scaled align_up v size % 2 ≡ 0)
scaled_lem align_up v size a h =
    let below : in_range v * size ≤ 8191 * size = mul-le-mul_right size (in_range_le v) in
    let q : ℕ = in_range v * size % 2 ^ 32 / 8192 in (omega (arith, a q), (a q).0)
