-- ===== src/Nnm/Tests.antt =====
-- A replier with two messages.
use freak.Prelude.{ℕ, suc, ◌≡◌, ◌⊎◌, refl, true, false, List, [], ◌∷◌, Option, some, none}
use freak.Memory.{Heap, alloc, release}
use freak.Nnm.{Handle, NnCalls, create_receiver, destroy_handle, send, req_exchange, rep_routine}
use freak.Nnm.Routines.{answers, all_sent, rep_lem}

abbrev calls : NnCalls
calls = record { socket = true; option = true; address = true; memory = true; thread = true }

abbrev before : Heap
before = record { next = 5; live = 3 ∷ []; newest = [] }

abbrev replier : Handle
replier = record { memory = 6; socket = 5; thread = true }

abbrev made : Heap
made = record { next = 7; live = 6 ∷ 5 ∷ 3 ∷ []; newest = [] }

-- It counts the messages and answers those that are not empty.
abbrev echo : List ℕ → ℕ → Option (List ℕ) × ℕ
echo [] n = (none, suc n)
echo (x ∷ xs) n = (some (n ∷ x ∷ xs), suc n)

made_test : create_receiver calls true before ≡ some (some replier, made)
unfolding create_receiver alloc
made_test = refl

exchange_test :
    req_exchange (some replier) (1 ∷ []) true true (some (2 ∷ [])) ≡ some (some (2 ∷ []))
unfolding req_exchange
exchange_test = refl

send_test : send (some replier) [] ≡ false
unfolding send
send_test = refl

rep_lem_example :
    ((all_sent (λ a. true) (answers echo ((7 ∷ []) ∷ [] ∷ (8 ∷ []) ∷ []) 0) ≡ true)
      × (w2 : Heap) × (w3 : Heap) × (rep_routine echo
            (λ a. true)
            ((7 ∷ []) ∷ [] ∷ (8 ∷ []) ∷ [])
            0
            made
          ≡ some ((0 ∷ 7 ∷ []) ∷ (2 ∷ 8 ∷ []) ∷ [], 3, w2))
      × (destroy_handle true (some replier) w2 ≡ some (true, w3))
      × (w3.live ≡ 3 ∷ []))
    ⊎ ((all_sent (λ a. true) (answers echo ((7 ∷ []) ∷ [] ∷ (8 ∷ []) ∷ []) 0) ≡ false)
        × (rep_routine echo (λ a. true) ((7 ∷ []) ∷ [] ∷ (8 ∷ []) ∷ []) 0 made ≡ none))
rep_lem_example =
    rep_lem calls echo (λ a. true) ((7 ∷ []) ∷ [] ∷ (8 ∷ []) ∷ []) 0 true before made replier
      made_test refl

-- The thread could not be made: the destruction joins one that is not there.
threadless : destroy_handle true (some (record replier { thread = false })) made ≡ none
unfolding destroy_handle release
threadless = refl
