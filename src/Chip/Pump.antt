-- ===== src/Chip/Pump.antt =====
-- The threads that take pictures and streams from the chip and pass them to the callbacks:
-- `SAMPLE_COMM_VENC_GetVencStreamProc` and `__vpss_get_chn_frame_proc`.
use freak.Prelude.{
  ℕ, suc, Bool, true, false, List, [], ◌∷◌, ◌++◌, Option, some, none, ◌==◌, if◌then◌else◌,
}
use freak.Proto.{◌>>=◌}
use freak.Memory.{Heap, alloc, release}

-- What the SDK answers for an encoder in a turn of the loop, when `select` has found something: whether
-- its file is ready, the number of packs, if they can be asked for, whether there is memory for them,
-- the stream, if it can be got, the callback of the moment and whether the stream can be released.
pub record Answers (Item : Type 0) : Type 0 where
  pub ready : Bool
  pub packs : Option ℕ
  pub memory : Bool
  pub got : Option Item
  pub callback : Bool
  pub released : Bool

-- What happens to a stream or a picture of a channel: `kept` is a release that fails.
pub data Event (Item : Type 0) : Type 0 where
  got called released kept : ℕ → Item → Event Item

-- What `select` finds in a turn: it fails, it times out, or some files are ready.
pub data Found (Item : Type 0) : Type 0 where
  failed timeout : Found Item
  files : List (Answers Item) → Found Item

module _ {Item : Type 0} where
  -- The release, by whether it succeeds.
  abbrev pub let_go : Bool → ℕ → Item → Event Item
  let_go true = released
  let_go false = kept

  -- The callback, if there is one, and the release.
  abbrev pub pass_on : Bool → Bool → ℕ → Item → List (Event Item)
  pass_on true done i x = got i x ∷ called i x ∷ let_go done i x ∷ []
  pass_on false done i x = got i x ∷ let_go done i x ∷ []

  -- From `malloc` on, for the encoder `i`: whether the loop over the encoders goes on, and the events.
  unfoldable pub get_stream : ℕ → Answers Item → Heap → Option (Bool × List (Event Item) × Heap)
  get_stream i a w =
      if a.memory
      then (let (pack, w1) = alloc w in
          (elim a.got [
            | none ↦ (release pack w1 >>= λ w2. some (false, [], w2))
            | some x ↦
                (release pack w1 >>= λ w2. some (a.released, pass_on a.callback a.released i x, w2))
          ]))
      else some (false, [], w)

  -- The body of the loop over the encoders.
  unfoldable pub proc_encoder : ℕ → Answers Item → Heap → Option (Bool × List (Event Item) × Heap)
  unfolding get_stream
  proc_encoder i a w =
      if a.ready
      then (elim a.packs [
        | none ↦ some (false, [], w)
        | some n ↦ if n == 0 then some (true, [], w) else get_stream i a w
      ])
      else some (true, [], w)

  -- The loop, from the encoder `i` on.
  unfoldable pub proc_encoders : ℕ → List (Answers Item) → Heap → Option (List (Event Item) × Heap)
  unfolding proc_encoder
  proc_encoders i [] w = some ([], w)
  proc_encoders i (a ∷ as') w = proc_encoder i a w >>= λ (go, es, w1). elim go [
    | false ↦ some (es, w1)
    | true ↦ (proc_encoders (suc i) as' w1 >>= λ (es', w2). some (es ++ es', w2))
  ]

  -- Step 2 of the thread.
  unfoldable pub get_streams : List (Found Item) → Heap → Option (List (Event Item) × Heap)
  unfolding proc_encoders
  get_streams [] w = some ([], w)
  get_streams (failed ∷ fs) w = some ([], w)
  get_streams (timeout ∷ fs) w = get_streams fs w
  get_streams (files as' ∷ fs) w =
      proc_encoders 0 as' w >>= λ (es, w1). get_streams fs w1 >>= λ (es', w2). some (es ++ es', w2)

  -- The thread of the channel `i` of vpss.c, for what `HI_MPI_VPSS_GetChnFrame` gives in each turn,
  -- whether there is a callback and whether the release succeeds.
  unfoldable pub get_frames : ℕ → List (Option Item × Bool × Bool) → List (Event Item)
  get_frames i [] = []
  get_frames i ((none, cb, done) ∷ ts) = get_frames i ts
  get_frames i ((some x, cb, done) ∷ ts) = pass_on cb done i x ++ get_frames i ts
