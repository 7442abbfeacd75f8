-- ===== src/Conf.antt =====
-- Configuration files: mod/utils/json-cfg/src/json-cfg.c.
pub mod Files
pub mod Saving
mod Tests
use freak.Prelude.{ℕ, Bool, List, [], ◌∷◌, ◌++◌, Option, some, none, length, ◌==◌, if◌then◌else◌}
use freak.Proto.{◌>>=◌}
use freak.Memory.{Heap, alloc, release}

-- What the functions return: 0, -ENOENT, -EIO or -ENOMEM.
pub data Ret : Type 0 where
  done no_entry io_error no_memory : Ret

-- What the calls of the C library answer: whether the file can be opened, the size that `ftell` tells,
-- if it is not negative, what `fread` reads of that many bytes, what `fprintf` writes of a text, and
-- whether `calloc` and `cJSON_CreateObject` find memory.
pub record Calls : Type 0 where
  pub opens : Bool
  pub tell : List ℕ → Option ℕ
  pub read : List ℕ → ℕ → List ℕ
  pub write : List ℕ → List ℕ
  pub calloc : Bool
  pub create_object : Bool

-- cJSON and the callback of a structure, for texts with their end.
pub record Json (J Cfg : Type 0) : Type 0 where
  pub parse : List ℕ → Option J
  pub print : J → Option (List ℕ)
  pub to_cfg : J → Cfg → Cfg
  pub of_cfg : Cfg → J

module _ {J Cfg : Type 0} (io : Calls) (js : Json J Cfg) where
  -- The text is parsed and the structure filled, between `fread` and `end2`.
  pub parse_text : List ℕ → Cfg → Heap → Option (Ret × Cfg × Heap)
  parse_text text cfg w = elim (js.parse (text ++ 0 ∷ [])) [
    | none ↦ some (no_memory, cfg, w)
    | some j ↦
        (let (json, w1) = alloc w in release json w1 >>= λ w2. some (done, js.to_cfg j cfg, w2))
  ]

  -- From `calloc` to the `free` at `end2`.
  pub read_text : List ℕ → ℕ → Cfg → Heap → Option (Ret × Cfg × Heap)
  unfolding parse_text
  read_text file len cfg w =
      if io.calloc
      then (let (text_copy, w1) = alloc w in
          (if length (io.read file len) == len
            then parse_text (io.read file len) cfg w1
            else some (io_error, cfg, w1))
          >>= λ (ret, cfg', w2). release text_copy w2 >>= λ w3. some (ret, cfg', w3))
      else some (no_memory, cfg, w)

  -- `json_cfg_load`, for a file that may be missing.
  pub json_cfg_load : Option (List ℕ) → Cfg → Heap → Option (Ret × Cfg × Heap)
  unfolding read_text
  json_cfg_load file cfg w = elim (if io.opens then file else none) [
    | none ↦ some (no_entry, cfg, w)
    | some bytes ↦
        (let (fp, w1) = alloc w in
          (elim (io.tell bytes) [
            | none ↦ some (io_error, cfg, w1)
            | some len ↦ if len == 0 then some (io_error, cfg, w1) else read_text bytes len cfg w1
          ])
          >>= λ (ret, cfg', w2). release fp w2 >>= λ w3. some (ret, cfg', w3))
  ]

  -- From the callback to `end1`: what the function returns, and the file.
  pub print_object : Cfg → ℕ → Heap → Option (Ret × List ℕ × Heap)
  print_object cfg json w = elim (js.print (js.of_cfg cfg)) [
    | none ↦ some (no_memory, [], w)
    | some text ↦
        (let (text_copy, w1) = alloc w in
          release json w1 >>= λ w2. release text_copy w2 >>= λ w3. some (done, io.write text, w3))
  ]

  -- `json_cfg_save`, which empties the file when it opens it.
  pub json_cfg_save : Option (List ℕ) → Cfg → Heap → Option (Ret × Option (List ℕ) × Heap)
  unfolding print_object
  json_cfg_save file cfg w =
      if io.opens
      then (let (fp, w1) = alloc w in
          (if io.create_object
            then (let (json, w2) = alloc w1 in print_object cfg json w2)
            else some (no_memory, [], w1))
          >>= λ (ret, bytes, w3). release fp w3 >>= λ w4. some (ret, some bytes, w4))
      else some (no_entry, file, w)
