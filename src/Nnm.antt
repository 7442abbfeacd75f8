-- ===== src/Nnm.antt =====
-- The wrappers of nanomsg: mod/utils/nnm/src.
pub mod Sockets
pub mod Routines
mod Tests
use freak.Prelude.{
  not, ◌||◌, ℕ, Bool, true, false, List, [], ◌∷◌, length, Option, some, none, ◌==◌, if◌then◌else◌,
}
use freak.Proto.{◌>>=◌, ◌>>◌, check}
use freak.Memory.{Heap, alloc, release}

-- An object of `nnm_pipeline_t`, `nnm_pubsub_t` or `nnm_reqrep_t`: its memory and its socket, and whether
-- `thread` is one.
pub record Handle : Type 0 where
  pub memory : ℕ
  pub socket : ℕ
  pub thread : Bool

-- Which calls give no error that the code looks for: `nn_socket`, then `nn_setsockopt` of a subscriber
-- (for the others `option` is `true`), `nn_bind` or `nn_connect`, and
-- `malloc`. One that fails ends the process. `pthread_create` too may fail, but its errors are positive, and the code
-- tests for negative ones: the object is given out without a thread.
pub record NnCalls : Type 0 where
  pub socket : Bool
  pub option : Bool
  pub address : Bool
  pub memory : Bool
  pub thread : Bool

module _ (nn : NnCalls) where
  -- `nnm_push_create`, `nnm_pub_create`, `nnm_req_create`
  unfoldable pub create_sender : Heap → Option (Handle × Heap)
  create_sender w =
      check nn.socket
      >> (let (socket, w1) = alloc w in
          check nn.address
          >> (check nn.memory
              >> (let (memory, w2) = alloc w1 in
                  some (record { memory = memory; socket = socket; thread = false }, w2))))

  -- `nnm_pull_create`, `nnm_rep_create`, `nnm_sub_create`, whose arguments may be NULL: then the result
  -- inside is `none`, for -EINVAL. The routine of the thread is below.
  unfoldable pub create_receiver : Bool → Heap → Option (Option Handle × Heap)
  create_receiver arguments w =
      if arguments
      then (check nn.socket
          >> (let (socket, w1) = alloc w in
              check nn.option
              >> (check nn.address
                  >> (check nn.memory
                      >> (let (memory, w2) = alloc w1 in
                          some (
                            some (record { memory = memory; socket = socket; thread = nn.thread }),
                            w2,
                          ))))))
      else some (none, w)

-- The six functions `nnm_…_destory`, of which three join the thread: a join of a thread that was never
-- made is a fault. Whether they return 0.
unfoldable pub destroy_handle : Bool → Option Handle → Heap → Option (Bool × Heap)
destroy_handle joins none w = some (false, w)
destroy_handle joins (some h) w = release h.socket w >>= λ w1.
    check (not joins || h.thread) >> (release h.memory w1 >>= λ w2. some (true, w2))

module _ {S : Type 0} where
  -- `nnm_pull_routine` and `nnm_sub_routine`, for the messages until `nn_recv` fails.
  unfoldable pub recv_routine : (List ℕ → S → S) → List (List ℕ) → S → Heap → Option (S × Heap)
  recv_routine callback [] s w = some (s, w)
  recv_routine callback (m ∷ ms) s w =
      let (buf, w1) = alloc w in
      let s1 = callback m s in release buf w1 >>= λ w2. recv_routine callback ms s1 w2

  -- `nnm_rep_routine`: the callback gives an answer if it returns 0. `sends` says whether `nn_send`
  -- succeeds, which it must.
  unfoldable pub rep_routine :
      (List ℕ → S → Option (List ℕ) × S)
      → (List ℕ → Bool)
      → List (List ℕ)
      → S
      → Heap
      → Option (List (List ℕ) × S × Heap)
  rep_routine callback sends [] s w = some ([], s, w)
  rep_routine callback sends (m ∷ ms) s w =
      let (buf, w1) = alloc w in
      let (answer, s1) = callback m s in
      elim answer [
        | none ↦ (release buf w1 >>= λ w2. rep_routine callback sends ms s1 w2)
        | some a ↦
            (check (sends a)
              >> (release buf w1 >>= λ w2.
                  rep_routine callback sends ms s1 w2 >>= λ (as', s2, w3). some (a ∷ as', s2, w3)))
      ]

-- `nnm_push_send` and `nnm_pub_send`: whether they send, which they do not without a handle or data.
unfoldable pub send : Option Handle → List ℕ → Bool
send none data' = false
send (some h) [] = false
send (some h) (x ∷ xs) = true

-- `nnm_req_exchange`: `sends` says whether the request is sent, `answer` is what is received then. The
-- result inside is `none` for -EINVAL; `out` says whether the two pointers for the answer are there.
unfoldable pub req_exchange :
    Option Handle → List ℕ → Bool → Bool → Option (List ℕ) → Option (Option (List ℕ))
req_exchange none request out sends answer = some none
req_exchange (some h) [] out sends answer = some none
req_exchange (some h) (x ∷ xs) out sends answer =
    if out then (check sends >> (answer >>= λ a. some (some a))) else some none
