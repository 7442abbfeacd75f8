-- ===== src/Relay.antt =====
-- The relay of mod/web/src/main.c, `__ws_recv`: a message of a client of the web, whose header is JSON
-- with the data behind it, goes to the process that serves its key, and the answer back.
pub mod Messages
mod Tests
use freak.Prelude.{
  ℕ, ◌+◌, ◌-◌, Bool, true, false, List, ◌++◌, length, take, drop, replicate, Option, some, none,
  leb, if◌then◌else◌,
}
use freak.Proto.{Packet, ◌>>=◌, ◌>>◌, check, strlen}
use freak.Memory.{Heap, alloc, release}

-- `PROTO_PACKAGE_MAXSIZE` less the header: the data that `tmpbuf` has room for.
abbrev pub data_room : ℕ
data_room = 2008

-- `memcpy` of n bytes from `in + isize - n`, which must not lie in front of `in`, to the data of `tmpbuf`.
unfoldable pub copy_in : ℕ → List ℕ → Option (List ℕ)
copy_in n input =
    check (leb n (length input))
    >> (check (leb n data_room)
        >> some (drop (length input - n) input ++ replicate (data_room - n) 0))

-- `memcpy` of `data`, which has n bytes, to `*out + size`.
unfoldable pub copy_out : ℕ → ℕ → List ℕ → List ℕ → Option (List ℕ)
copy_out size n data' out =
    check (leb (size + n) (length out)) >> some (take size out ++ data' ++ drop (size + n) out)

-- `tmpbuf` behind the header after `msgbox_do_forward` copied an answer's data into it.
unfoldable pub overwrite : List ℕ → List ℕ → Option (List ℕ)
overwrite data' memory =
    check (leb (length data') data_room) >> some (data' ++ drop (length data') memory)

-- What cJSON and the generated function make of the header: `read` reads it from the text in front of
-- the message; `print` is cJSON_PrintPreallocated with a limit, into a memory.
module _ {S : Type 0} (read : List ℕ → Option Packet) (print : Packet → ℕ → List ℕ → List ℕ)
    (forward : Packet → S → Option (Packet × S)) where
  -- Behind the call of `calloc`. The memory of `out` is what the calls before left.
  unfoldable pub ws_turn : List ℕ → List ℕ → S → Option (ℕ × List ℕ × S)
  ws_turn input out s = read input >>= λ p. copy_in p.size input >>= λ memory.
      forward (record p { body = memory }) s >>= λ (a, s'). overwrite a.body memory >>= λ memory'.
      (let out1 = print a (length input) out in
        strlen out1 >>= λ size.
        check (leb a.size data_room)
        >> (copy_out size a.size (take a.size memory') out1 >>= λ out2.
            some (size + a.size, out2, s')))

  -- The first argument says whether `calloc` gives memory; without it the function returns -1, here
  -- `none` inside. Otherwise `*osize` is there. The objects of cJSON are deleted where they are made.
  unfoldable pub ws_recv : Bool → List ℕ → List ℕ → S → Heap → Option (Option ℕ × List ℕ × S × Heap)
  ws_recv memory input out s w =
      if memory
      then (let (tmpbuf, w1) = alloc w in
          ws_turn input out s >>= λ (osize, out', s').
          release tmpbuf w1 >>= λ w2. some (some osize, out', s', w2))
      else some (none, out, s, w)
