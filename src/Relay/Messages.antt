-- ===== src/Relay/Messages.antt =====
-- A message and its answer.
use freak.Prelude.{
  ℕ, ◌+◌, ◌-◌, ◌≡◌, ◌≤◌, ◌<◌, refl, sym, true, List, ◌∷◌, ◌++◌, length, drop, take-append,
  drop-append, drop-drop, replicate, Option, some, leb, arith,
}
use freak.Proto.{Packet, strlen}
use freak.Relay.{data_room, copy_out}

-- The documented behaviour of cJSON_PrintPreallocated: a text that leaves five bytes of the limit is
-- printed, with its end.
pub record IsPrinter (text : Packet → List ℕ) (print : Packet → ℕ → List ℕ → List ℕ) : Type 0 where
  pub printed :
      (p : Packet) (limit : ℕ) (out : List ℕ)
      → length (text p) + 5 ≤ limit
      → length (text p) < length out
      → print p limit out ≡ text p ++ 0 ∷ drop (length (text p) + 1) out
  pub ended : (p : Packet) (rest : List ℕ) → strlen (text p ++ 0 ∷ rest) ≡ some (length (text p))

-- The bytes behind the header that a message of n bytes of data ends with.
abbrev pub tail : ℕ → List ℕ → List ℕ
tail n input = drop (length input - n) input ++ replicate (data_room - n) 0

leb-true : (m n : ℕ) → m ≤ n → leb m n ≡ true
leb-true m n h = ground arith

module _ (data' : List ℕ) (n : ℕ) (text out : List ℕ) where
  -- The answer's data goes behind the text.
  pub copy_out_lem :
      length data' ≡ n
      → length text + n ≤ length (text ++ out)
      → copy_out (length text) n data' (text ++ out) ≡ some (text ++ data' ++ drop n out)
  unfolding copy_out
  copy_out_lem e fits =
      simp
        (
          copy_out,
          leb-true _ _ fits,
          take-append (length text) text out refl,
          sym (drop-drop (length text) n (text ++ out)),
          drop-append (length text) text out refl,
        )
        refl

module _ {S : Type 0} (read : List ℕ → Option Packet) (text : Packet → List ℕ)
    (print : Packet → ℕ → List ℕ → List ℕ) (printer : IsPrinter text print)
    (forward : Packet → S → Option (Packet × S)) (input out : List ℕ) (p a : Packet) (s s' : S)
    (reads : read input ≡ some p)
    (answered : forward (record p { body = tail p.size input }) s ≡ some (a, s'))
    (whole : length a.body ≡ a.size) (fits : a.size ≤ data_room)
    (limit : length (text a) + 5 ≤ length input)
    (space : length (text a) + a.size < length out) where
  -- What `out` has behind the text.
  abbrev behind : List ℕ
  behind = 0 ∷ drop (length (text a) + 1) out
