-- ===== src/Proto/Results.antt =====
-- What a step of a chain of results came from.
use freak.Prelude.{◌≡◌, refl, Bool, true, false, Option, none, some, arith}
use freak.Proto.{◌>>=◌, ◌>>◌, check}

pub >>=-some :
    {A B : Type 0}
    → (o : Option A) (f : A → Option B) (b : B) → (o >>= f) ≡ some b
    → (a : A) × (o ≡ some a) × (f a ≡ some b)
>>=-some none f b h = absurd (ground (arith, h))
>>=-some (some a) f b h = (a, refl, h)

pub check-some :
    {B : Type 0}
    → (c d e : Bool) (o : Option B) (b : B) → (check c >> check d >> check e >> o) ≡ some b
    → o ≡ some b
check-some true true true o b h = h
check-some true true false o b h = absurd (ground (arith, h))
check-some true false e o b h = absurd (ground (arith, h))
check-some false d e o b h = absurd (ground (arith, h))
