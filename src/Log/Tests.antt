-- ===== src/Log/Tests.antt =====
-- Messages of the log.
use freak.Prelude.{ℕ, ◌/◌, ◌%◌, ◌≡◌, ◌⊎◌, ◌≤◌, ◌<◌, [], ◌∷◌, List, length, some, none}
use freak.Log.{Log, log_printf}
use freak.Log.Messages.{log_printf_lem}

abbrev hi : List ℕ
hi = 91 ∷ 104 ∷ 105 ∷ []

-- To the screen and to another process.
abbrev both : Log
both = record { level = 3; dirmask = 5; printed = []; sent = [] }

log_printf_lem_example :
    ((both.level < 1) × (log_printf 1 (91 ∷ []) (104 ∷ 105 ∷ []) [] both ≡ some (0, both)))
    ⊎ ((1 ≤ both.level)
        × (((both.dirmask / 4 % 2 ≡ 1)
              × (2048 ≤ length hi)
              × (log_printf 1 (91 ∷ []) (104 ∷ 105 ∷ []) [] both ≡ none))
            ⊎ ((n : ℕ) × (s' : Log) × (log_printf 1 (91 ∷ []) (104 ∷ 105 ∷ []) [] both
                  ≡ some (n, s'))
                × (n ≡ 4)
                × (s'.printed ≡ (91 ∷ 104 ∷ 105 ∷ []) ∷ [])
                × (s'.sent ≡ (91 ∷ 104 ∷ 105 ∷ 0 ∷ []) ∷ []))))
log_printf_lem_example = log_printf_lem (91 ∷ []) (104 ∷ 105 ∷ []) [] 1 both
