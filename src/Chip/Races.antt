-- ===== src/Chip/Races.antt =====
-- A callback is changed while the thread that calls it runs: `__vpss_regcallback` and
-- `__venc_regcallback` against `__vpss_get_chn_frame_proc` and the thread of venc.c.
use freak.Prelude.{ℕ, zero, suc, ◌≡◌, ◌⊎◌, Bool, true, false, List, [], ◌∷◌, Option, some, none}
use freak.Proto.{◌>>=◌}

-- `cb`, whether the thread has just found that `cb.func` is not NULL, and the calls so far, the last
-- one first.
pub record Shared : Type 0 where
  pub func : Option ℕ
  pub args : Option ℕ
  pub found : Bool
  pub calls : List (ℕ × Option ℕ)

-- An assignment to `cb.args`, one to `cb.func`, and a piece of the thread: the test, or the call.
pub data Move : Type 0 where
  write_args write_func : Option ℕ → Move
  reader : Move

abbrev is_set : Option ℕ → Bool
is_set none = false
is_set (some f) = true

-- The call reads both again; a call of NULL is a fault.
abbrev pub read_cb : Bool → Option ℕ → Shared → Option Shared
read_cb false func s = some (record s { found = is_set func })
read_cb true none s = none
read_cb true (some f) s = some (record s { found = false; calls = (f, s.args) ∷ s.calls })

pub move : Move → Shared → Option Shared
move (write_args a) s = some (record s { args = a })
move (write_func f) s = some (record s { func = f })
move reader s = read_cb s.found s.func s

pub run : List Move → Shared → Option Shared
unfolding move
run [] s = some s
run (m ∷ ms) s = move m s >>= λ s'. run ms s'

-- The two assignments, for `cb == NULL` and for a function with its arguments.
pub regcallback : Option (ℕ × ℕ) → Move × Move
regcallback none = (write_args none, write_func none)
regcallback (some (f, a)) = (write_args (some a), write_func (some f))

-- Pieces of the thread before, between and behind the assignments.
abbrev pub readers : ℕ → List Move → List Move
readers zero ms = ms
readers (suc n) ms = reader ∷ readers n ms

pub interleaved : ℕ → ℕ → ℕ → Option (ℕ × ℕ) → List Move
unfolding regcallback
interleaved i j k cb = let (u, v) = regcallback cb in readers i (u ∷ readers j (v ∷ readers k []))

-- The callback is not set, and it is.
abbrev pub off : Shared
off = record { func = none; args = none; found = false; calls = [] }

abbrev pub on : ℕ → ℕ → Shared
on f a = record { func = some f; args = some a; found = false; calls = [] }

-- All calls had these arguments.
abbrev pub All : ℕ → ℕ → List (ℕ × Option ℕ) → Type 0
All f a [] = Unit
All f a (c ∷ cs) = (c ≡ (f, some a)) × All f a cs

-- All calls are of a kind.
abbrev pub Every : (ℕ × Option ℕ → Type 0) → List (ℕ × Option ℕ) → Type 0
Every P [] = Unit {0}
Every P (c ∷ cs) = P c × Every P cs

-- The calls of a callback that is replaced: the old one, the old one with the new arguments, the new one.
abbrev pub Mixed : ℕ → ℕ → ℕ → ℕ → ℕ × Option ℕ → Type 0
Mixed f a g b c = (c ≡ (f, some a)) ⊎ (c ≡ (f, some b)) ⊎ (c ≡ (g, some b))

-- Those of one that is taken away.
abbrev pub Fading : ℕ → ℕ → ℕ × Option ℕ → Type 0
Fading f a c = (c ≡ (f, some a)) ⊎ (c ≡ (f, none))
