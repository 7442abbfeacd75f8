-- ===== src/Relay/Tests.antt =====
-- A message with a header of two bytes and five spaces.
use freak.Prelude.{
  ℕ, suc, ◌+◌, ◌≡◌, refl, true, List, [], ◌∷◌, ◌++◌, length, take, drop, replicate, Option, some,
  none,
}
use freak.Proto.{Packet}
use freak.Memory.{Heap}
use freak.Relay.{ws_recv, ws_turn, copy_in}

abbrev header : ℕ → ℕ → Packet
header key size = record {
  version = 1;
  ts = 0;
  chn = 0;
  key = key;
  action = 2;
  errcode = 0;
  format = 1;
  size = size;
  body = [];
}

abbrev read : List ℕ → Option Packet
read (suc key ∷ suc size ∷ rest) = some (header key size)
read other = none

abbrev text : Packet → List ℕ
text p = suc p.key ∷ suc p.size ∷ []

abbrev print : Packet → ℕ → List ℕ → List ℕ
print p limit out = text p ++ 0 ∷ drop (length (text p) + 1) out

-- The process that serves the key counts the messages and answers with what it got.
abbrev forward : Packet → ℕ → Option (Packet × ℕ)
forward p n = some (record p { body = take p.size p.body }, suc n)

abbrev message : List ℕ
message = 4 ∷ 4 ∷ 32 ∷ 32 ∷ 32 ∷ 32 ∷ 32 ∷ 7 ∷ 8 ∷ 9 ∷ []

abbrev answer : Packet
answer = record (header 3 3) { body = 7 ∷ 8 ∷ 9 ∷ [] }

abbrev before : Heap
before = record { next = 5; live = 3 ∷ []; newest = [] }

abbrev obuf : List ℕ
obuf = replicate 2048 0

-- The header says that 100 bytes follow.
ws_recv_fault : ws_recv read print forward true (4 ∷ 101 ∷ 32 ∷ []) obuf 5 before ≡ none
unfolding ws_recv ws_turn copy_in
ws_recv_fault = refl
