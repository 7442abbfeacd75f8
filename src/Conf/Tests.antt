-- ===== src/Conf/Tests.antt =====
-- Runs of the configuration files.
use freak.Prelude.{
  ℕ, ◌≡◌, ◌≢◌, ◌⊎◌, refl, true, false, List, [], ◌∷◌, ◌++◌, Option, some, none, length, take,
  take_all, arith,
}
use freak.Memory.{Heap}
use freak.Conf.{Ret, done, no_entry, no_memory, Calls, Json, json_cfg_load, json_cfg_save}
use freak.Conf.Files.{json_cfg_load_lem}
use freak.Conf.Saving.{json_cfg_save_lem, save-load}

abbrev io : Calls
io = record {
  opens = true;
  tell = λ bytes. some (length bytes);
  read = λ bytes n. take n bytes;
  write = λ text. text;
  calloc = true;
  create_object = true;
}

-- A configuration is a number, and its text one character.
abbrev parse : List ℕ → Option ℕ
parse (x ∷ xs) = some x
parse [] = none

abbrev js : Json ℕ ℕ
js = record { parse = parse; print = λ j. some (j ∷ []); to_cfg = λ j old. j; of_cfg = λ cfg. cfg }

abbrev heap : Heap
heap = record { next = 1; live = 0 ∷ []; newest = [] }

save-load_example :
    (saved : Option (List ℕ)) × (w1 : Heap) × (w2 : Heap) × (json_cfg_save io js none 7 heap
      ≡ some (done, saved, w1))
    × (json_cfg_load io js saved 3 w1 ≡ some (done, 7, w2))
    × (w2.live ≡ 0 ∷ [])
save-load_example =
    save-load io js none 7 3 heap (7 ∷ []) 7
      (record {
        opens = refl;
        calloc = refl;
        create_object = refl;
        tell = λ bytes. refl;
        read = λ bytes. take_all (length bytes) bytes (omega arith);
        write = λ bytes. refl;
      })
      refl (λ e. ground arith) refl refl

-- No text can be made.
abbrev mute : Json ℕ ℕ
mute = record js { print = λ j. none }

json_cfg_save_lem_example :
    (ret : Ret) × (file' : Option (List ℕ)) × (w' : Heap) × (json_cfg_save io mute
        (some (5 ∷ []))
        7
        heap
      ≡ some (ret, file', w'))
    × (((ret ≡ no_entry) × (true ≡ false) × (file' ≡ some (5 ∷ [])) × (w'.live ≡ 0 ∷ []))
        ⊎ ((ret ≡ no_memory)
            × (file' ≡ some [])
            × (((true ≡ false) × (w'.live ≡ 0 ∷ []))
                ⊎ ((mute.print 7 ≡ none) × (json : ℕ) × (w'.live ≡ json ∷ 0 ∷ []))))
        ⊎ ((ret ≡ done)
            × (w'.live ≡ 0 ∷ [])
            × (text : List ℕ) × (none ≡ some text)
            × (file' ≡ some text)))
json_cfg_save_lem_example = json_cfg_save_lem io mute (some (5 ∷ [])) 7 heap

json_cfg_load_lem_example :
    (ret : Ret) × (cfg' : ℕ) × (w' : Heap) × (json_cfg_load io js (some (5 ∷ 6 ∷ [])) 3 heap
      ≡ some (ret, cfg', w'))
    × (w'.live ≡ 0 ∷ [])
    × (((ret ≢ done) × (cfg' ≡ 3))
        ⊎ ((ret ≡ done)
            × (true ≡ true)
            × (bytes : List ℕ) × (len : ℕ) × (j : ℕ) × (some (5 ∷ 6 ∷ []) ≡ some bytes)
            × (some (length bytes) ≡ some len)
            × (len ≢ 0)
            × (length (take len bytes) ≡ len)
            × (parse (take len bytes ++ 0 ∷ []) ≡ some j)
            × (cfg' ≡ j)))
json_cfg_load_lem_example = json_cfg_load_lem io js (some (5 ∷ 6 ∷ [])) 3 heap
