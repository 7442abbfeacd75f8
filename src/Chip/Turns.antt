-- ===== src/Chip/Turns.antt =====
-- What happens to each stream, and that no memory is left over.
use freak.Prelude.{
  ℕ, suc, Bool, true, false, ◌&&◌, ◌||◌, not, List, [], ◌∷◌, ◌++◌, Option, some, none, ◌==◌,
  if◌then◌else◌,
}
use freak.Chip.Pump.{Answers, Event, got, called, released, kept, Found, failed, timeout, files}

abbrev pub is_some : {A : Type 0} → Option A → Bool
is_some none = false
is_some (some x) = true

-- The packs of an encoder, or none if they cannot be asked for.
abbrev pub none_there : Option ℕ → Bool
none_there none = false
none_there (some n) = n == 0

abbrev pub some_there : Option ℕ → Bool
some_there none = false
some_there (some n) = not (n == 0)

module _ {Item : Type 0} where
  -- The encoder has nothing, or a stream that can be got.
  abbrev pub idle : Answers Item → Bool
  idle a = not a.ready || none_there a.packs

  abbrev pub has_stream : Answers Item → Bool
  has_stream a = a.ready && some_there a.packs && a.memory

  -- What happens to a stream: it is got, passed to the callback if there is one, and released.
  abbrev pub round_of : Bool → Bool → ℕ → Option Item → List (Event Item)
  round_of cb done i none = []
  round_of cb done i (some x) =
      got i x
      ∷ (if cb
          then called i x ∷ (if done then released i x else kept i x) ∷ []
          else (if done then released i x else kept i x) ∷ [])

  abbrev pub round : ℕ → Answers Item → List (Event Item)
  round i a = if has_stream a then round_of a.callback a.released i a.got else []

  -- Whether the next encoder has its turn.
  abbrev pub goes : Answers Item → Bool
  goes a = idle a || (has_stream a && is_some a.got && a.released)

  abbrev pub encoders : ℕ → List (Answers Item) → List (Event Item)
  encoders i [] = []
  encoders i (a ∷ as') = round i a ++ (if goes a then encoders (suc i) as' else [])

  abbrev pub expected : List (Found Item) → List (Event Item)
  expected [] = []
  expected (failed ∷ fs) = []
  expected (timeout ∷ fs) = expected fs
  expected (files as' ∷ fs) = encoders 0 as' ++ expected fs
