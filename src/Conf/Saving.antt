-- ===== src/Conf/Saving.antt =====
-- Saving a configuration, and loading it again.
use freak.Prelude.{
  ℕ, ◌≡◌, ◌≢◌, ◌⊎◌, inl, inr, refl, ap, ◌∙◌, sym, true, false, List, [], ◌∷◌, ◌++◌, Option, some,
  none, length, ◌==◌, arith, Option-cases, Bool-cases, some-injective,
}
use freak.Memory.{Heap, alloc}
use freak.Conf.{
  Ret, done, no_entry, no_memory, Calls, Json, json_cfg_load, read_text, parse_text, print_object,
  json_cfg_save,
}
use freak.Memory.Stack.{release_top, release_second, alloc_live, fresh}

not_empty : (text : List ℕ) → text ≢ [] → (length text == 0) ≡ false
not_empty [] h = absurd (h refl)
not_empty (x ∷ xs) h = ground arith

same_length : (text : List ℕ) → (length text == length text) ≡ true
same_length text = ground arith

module _ {J Cfg : Type 0} (io : Calls) (js : Json J Cfg) where
  -- What a save gives when the file is opened, with what lives before.
  abbrev Printed : Cfg → List ℕ → ℕ → Ret → List ℕ → Heap → Type 0
  Printed cfg live json ret bytes w =
      ((ret ≡ done)
        × (w.live ≡ live)
        × (text : List ℕ) × (js.print (js.of_cfg cfg) ≡ some text)
        × (bytes ≡ io.write text))
      ⊎ ((ret ≡ no_memory)
          × (bytes ≡ [])
          × (w.live ≡ json ∷ live)
          × (js.print (js.of_cfg cfg) ≡ none))

  print_object_lem :
      (cfg : Cfg) (w : Heap)
      → (ret : Ret) × (bytes : List ℕ) × (w' : Heap) × (print_object io js cfg
            ((alloc w).0)
            ((alloc w).1)
          ≡ some (ret, bytes, w'))
        × Printed cfg w.live ((alloc w).0) ret bytes w'
  unfolding print_object
  print_object_lem cfg w = elim (Option-cases (js.print (js.of_cfg cfg))) [
    | inl e ↦
        (no_memory, [], (alloc w).1, simp (print_object, e) refl, inr (refl, refl, alloc_live w, e))
    | inr (text, e) ↦
        (let w1 = (alloc w).1 in
          let top = alloc_live w1 ∙ ap (◌∷◌ ((alloc w1).0)) (alloc_live w) in
          let (w2, a, b) =
            release_second ((alloc w1).0) ((alloc w).0) ((alloc w1).1) w.live (fresh w) top in
          let (w3, c, d) = release_top ((alloc w1).0) w2 w.live b in
          (
            done,
            io.write text,
            w3,
            simp (print_object, e, a, c) refl,
            inl (refl, d, text, e, refl),
          ))
  ]

  -- json_cfg_save always returns. Without the file, nothing changes; without memory, the file is
  -- empty afterwards, and a JSON object is left over if it could be made but not printed;
  -- otherwise it returns 0, the file has what was written of the text, and nothing is left over.
  pub json_cfg_save_lem :
      (file : Option (List ℕ)) (cfg : Cfg) (w : Heap)
      → (ret : Ret) × (file' : Option (List ℕ)) × (w' : Heap) × (json_cfg_save io js file cfg w
          ≡ some (ret, file', w'))
        × (((ret ≡ no_entry) × (io.opens ≡ false) × (file' ≡ file) × (w'.live ≡ w.live))
            ⊎ ((ret ≡ no_memory)
                × (file' ≡ some [])
                × (((io.create_object ≡ false) × (w'.live ≡ w.live))
                    ⊎ ((js.print (js.of_cfg cfg) ≡ none) × (json : ℕ) × (w'.live ≡ json ∷ w.live))))
            ⊎ ((ret ≡ done)
                × (w'.live ≡ w.live)
                × (text : List ℕ) × (js.print (js.of_cfg cfg) ≡ some text)
                × (file' ≡ some (io.write text))))
  unfolding json_cfg_save
  json_cfg_save_lem file cfg w = elim (Bool-cases io.opens) [
    | inr e ↦ (no_entry, file, w, simp (json_cfg_save, e) refl, inl (refl, e, refl, refl))
    | inl e ↦
        (let w1 = (alloc w).1 in
          elim (Bool-cases io.create_object) [
            | inr f ↦
                (let (w', a, b) = release_top ((alloc w).0) w1 w.live (alloc_live w) in
                  (
                    no_memory,
                    some [],
                    w',
                    simp (json_cfg_save, e, f, a) refl,
                    inr (inl (refl, refl, inl (f, b))),
                  ))
            | inl f ↦
                (let (ret, bytes, w2, ran, what) = print_object_lem cfg w1 in
                  let json = (alloc w1).0 in
                  elim what [
                    | inl (d, kept, text, p, wrote) ↦
                        (let (w', a, b) =
                            release_top ((alloc w).0) w2 w.live (kept ∙ alloc_live w) in
                          (
                            ret,
                            some bytes,
                            w',
                            simp (json_cfg_save, e, f, ran, a) refl,
                            inr (inr (d, b, text, p, ap some wrote)),
                          ))
                    | inr (d, empty, kept, p) ↦
                        (let (w', a, b) =
                            release_second json ((alloc w).0) w2 w.live (fresh w)
                              (kept ∙ ap (◌∷◌ json) (alloc_live w)) in
                          (
                            ret,
                            some bytes,
                            w',
                            simp (json_cfg_save, e, f, ran, a) refl,
                            inr (inl (d, ap some empty, inr (p, json, b))),
                          ))
                  ])
          ])
  ]

  -- What the C library does with whole files, when nothing fails.
  pub record IsReliable : Type 0 where
    pub opens : io.opens ≡ true
    pub calloc : io.calloc ≡ true
    pub create_object : io.create_object ≡ true
    pub tell : (bytes : List ℕ) → io.tell bytes ≡ some (length bytes)
    pub read : (bytes : List ℕ) → io.read bytes (length bytes) ≡ bytes
    pub write : (bytes : List ℕ) → io.write bytes ≡ bytes

  load_text :
      (text : List ℕ) (old : Cfg) (w : Heap) (j : J)
      → IsReliable
      → text ≢ []
      → js.parse (text ++ 0 ∷ []) ≡ some j
      → (w' : Heap) × (json_cfg_load io js (some text) old w ≡ some (done, js.to_cfg j old, w'))
        × (w'.live ≡ w.live)
  unfolding json_cfg_load read_text parse_text
  load_text text old w j io_ok full parsed =
      let a = (alloc w).1 in
      let b = (alloc a).1 in
      let (w1, e1, l1) = release_top ((alloc b).0) ((alloc b).1) b.live (alloc_live b) in
      let (w2, e2, l2) = release_top ((alloc a).0) w1 a.live (l1 ∙ alloc_live a) in
      let (w3, e3, l3) = release_top ((alloc w).0) w2 w.live (l2 ∙ alloc_live w) in
      (
        w3,
        simp
            (
              json_cfg_load,
              read_text,
              parse_text,
              io_ok.opens,
              io_ok.tell text,
              not_empty text full,
              io_ok.calloc,
              io_ok.read text,
              same_length text,
              parsed,
              e1,
              e2,
              e3,
            )
            refl,
        l3,
      )

  -- A configuration that json_cfg_save writes, whatever the file had before, is what
  -- json_cfg_load gives back; both return 0, and no file, text or JSON object is left over. The
  -- conditions: the files and the memory do not fail, the text is not empty, and cJSON and the
  -- callback give back what they printed.
  pub save-load :
      (file : Option (List ℕ)) (cfg old : Cfg) (w : Heap) (text : List ℕ) (j : J)
      → IsReliable
      → js.print (js.of_cfg cfg) ≡ some text
      → text ≢ []
      → js.parse (text ++ 0 ∷ []) ≡ some j
      → js.to_cfg j old ≡ cfg
      → (saved : Option (List ℕ)) × (w1 : Heap) × (w2 : Heap) × (json_cfg_save io js file cfg w
          ≡ some (done, saved, w1))
        × (json_cfg_load io js saved old w1 ≡ some (done, cfg, w2))
        × (w2.live ≡ w.live)
  save-load file cfg old w text j io_ok printed full parsed back =
      let (ret, saved, w1, ran, what) = json_cfg_save_lem file cfg w in
      elim what [
        | inl (a, b, c, d) ↦ absurd (ground (arith, io_ok.opens))
        | inr (inl (a, b, inl (c, d))) ↦ absurd (ground (arith, io_ok.create_object))
        | inr (inl (a, b, inr (c, h, d))) ↦ absurd (ground arith)
        | inr (inr (a, b, text', p, c)) ↦
            (let same : text' ≡ text = some-injective _ _ (sym p ∙ printed) in
              let stored : saved ≡ some text = c ∙ ap some (io_ok.write text' ∙ same) in
              let (w2, load_ok, live) = load_text text old w1 j io_ok full parsed in
              (
                saved,
                w1,
                w2,
                ran ∙ ap (λ r. some (r, saved, w1)) a,
                ap (λ f. json_cfg_load io js f old w1) stored
                    ∙ load_ok
                    ∙ ap (λ x. some (done, x, w2)) back,
                live ∙ b,
              ))
      ]
