-- ===== src/Log/Messages.antt =====
-- Which messages come out.
use freak.Prelude.{
  ℕ, zero, suc, ◌+◌, ◌-◌, ◌/◌, ◌%◌, ◌≡◌, ◌⊎◌, ◌≤◌, ◌<◌, inl, inr, refl, ap, ap₂, subst, ==_iff, ◌∙◌,
  sym, ltb, leb, true, false, List, [], ◌∷◌, ◌++◌, take, take_all, take-append, length,
  length-append, append_assoc, some, none, ◌==◌, if◌then◌else◌, arith, Bool-cases,
}
use freak.Log.{Log, log_buf, log_printf}

take-take : (m n : ℕ) (xs : List ℕ) → m ≤ n → take m (take n xs) ≡ take m xs
take-take zero n xs h = refl
take-take (suc m) zero xs h = absurd (omega arith)
take-take (suc m) (suc n) [] h = refl
take-take (suc m) (suc n) (x ∷ xs) h = ap (◌∷◌ x) (take-take m n xs (omega arith))

-- A message that fits a buffer of the size `size` stands in it whole.
buffer_whole :
    (size : ℕ) (text old : List ℕ)
    → length text < size
    → take (length text + 1) (take size (take (size - 1) text ++ 0 ∷ old)) ≡ text ++ 0 ∷ []
buffer_whole size text old h =
    take-take (length text + 1) size (take (size - 1) text ++ 0 ∷ old) (omega arith)
    ∙ ap (λ t. take (length text + 1) (t ++ 0 ∷ old)) (take_all (size - 1) text (omega arith))
    ∙ ap (take (length text + 1)) (sym (append_assoc text (0 ∷ []) old))
    ∙ take-append (length text + 1) (text ++ 0 ∷ []) old (length-append text (0 ∷ []))

too_long : (n : ℕ) → leb (n + 1) 2048 ≡ false → 2048 ≤ n
too_long n h = ground arith

fits : (n : ℕ) → leb (n + 1) 2048 ≡ true → n < 2048
fits n h = ground arith

module _ (prefix body old : List ℕ) where
  -- The log after `puts`.
  abbrev local : Log → Log
  local s =
      if s.dirmask % 2 == 1
      then record s { printed = take 2047 (prefix ++ body) ∷ s.printed }
      else s

  local_lem :
      (s : Log)
      → (s1 : Log) × (local s ≡ s1)
        × (s1.dirmask ≡ s.dirmask)
        × (s1.sent ≡ s.sent)
        × (s1.printed
            ≡ (if s.dirmask % 2 == 1 then take 2047 (prefix ++ body) ∷ s.printed else s.printed))
  local_lem s = elim (Bool-cases (s.dirmask % 2 == 1)) [
    | inl e ↦ (
      record s { printed = take 2047 (prefix ++ body) ∷ s.printed },
      rw e refl,
      refl,
      refl,
      rw e refl,
    )
    | inr e ↦ (s, rw e refl, refl, refl, rw e refl)
  ]

  whole_text :
      length prefix + length body < 2048
      → take (length prefix + length body + 1) (log_buf prefix body old)
        ≡ (prefix ++ body) ++ 0 ∷ []
  whole_text h =
      let total = length-append prefix body in
      ap (λ n. take (n + 1) (log_buf prefix body old)) (sym total)
      ∙ buffer_whole 2048 (prefix ++ body) old (omega (arith, total))

  -- log_printf does nothing with a message above the level. Otherwise it prints the message if
  -- the local log is on, cut to 2047 characters, and returns its length with the end; if the
  -- remote log is on it sends the message whole with its end, but a message of 2048 characters
  -- or more makes it read behind its buffer.
  pub log_printf_lem :
      (level : ℕ) (s : Log)
      → ((s.level < level) × (log_printf level prefix body old s ≡ some (0, s)))
        ⊎ ((level ≤ s.level)
            × (((s.dirmask / 4 % 2 ≡ 1)
                  × (2048 ≤ length (prefix ++ body))
                  × (log_printf level prefix body old s ≡ none))
                ⊎ ((n : ℕ) × (s' : Log) × (log_printf level prefix body old s ≡ some (n, s'))
                    × (n ≡ length (prefix ++ body) + 1)
                    × (s'.printed ≡ (
                        if s.dirmask % 2 == 1
                        then take 2047 (prefix ++ body) ∷ s.printed
                        else s.printed))
                    × (s'.sent ≡ (
                        if s.dirmask / 4 % 2 == 1
                        then ((prefix ++ body) ++ 0 ∷ []) ∷ s.sent
                        else s.sent)))))
  unfolding log_printf
  log_printf_lem level s =
      let total = length-append prefix body in
      let (s1, ran, same_mask, same_sent, printed) = local_lem s in
      elim (Bool-cases (ltb s.level level)) [
        | inl e ↦ inl (ground arith, simp (log_printf, e) refl)
        | inr e ↦ inr (
          ground arith,
          elim (Bool-cases (s.dirmask / 4 % 2 == 1)) [
            | inr f ↦ inr (
              length prefix + length body + 1,
              s1,
              simp (log_printf, e, ran, same_mask, f) refl,
              omega (arith, total),
              printed,
              same_sent ∙ rw f refl,
            )
            | inl f ↦ elim (Bool-cases (leb (length prefix + length body + 1) 2048)) [
              | inr g ↦ inl (
                (==_iff (s.dirmask / 4 % 2) 1).0 f,
                subst (λ n. 2048 ≤ n) (sym total) (too_long (length prefix + length body) g),
                simp (log_printf, e, ran, same_mask, f, g) refl,
              )
              | inl g ↦ inr (
                length prefix + length body + 1,
                record s1 {
                  sent = take (length prefix + length body + 1) (log_buf prefix body old) ∷ s1.sent;
                },
                simp (log_printf, e, ran, same_mask, f, g) refl,
                omega (arith, total),
                printed,
                rw f (ap₂ (◌∷◌) (whole_text (fits (length prefix + length body) g)) same_sent),
              )
            ]
          ],
        )
      ]
