-- ===== src/Conf/Files.antt =====
-- Loading and saving: every branch, and the round trip.
use freak.Prelude.{
  ℕ, ◌≡◌, ◌≢◌, ◌⊎◌, inl, inr, refl, ◌∙◌, true, List, [], ◌∷◌, ◌++◌, Option, some, none, length,
  ◌==◌, arith, Option-cases, Bool-cases,
}
use freak.Memory.{Heap, alloc}
use freak.Memory.Stack.{release_top, alloc_live}
use freak.Conf.{
  Ret, done, no_entry, io_error, no_memory, Calls, Json, parse_text, read_text, json_cfg_load,
}

module _ {J Cfg : Type 0} (io : Calls) (js : Json J Cfg) where
  -- What a load gives: nothing changes when it fails, and a success has read the whole text.
  abbrev pub Loaded : Cfg → Heap → List ℕ → ℕ → Ret → Cfg → Heap → Type 0
  Loaded cfg w bytes len ret cfg' w' =
      (w'.live ≡ w.live)
      × (((ret ≢ done) × (cfg' ≡ cfg))
          ⊎ ((ret ≡ done)
              × (length (io.read bytes len) ≡ len)
              × (j : J) × (js.parse (io.read bytes len ++ 0 ∷ []) ≡ some j)
              × (cfg' ≡ js.to_cfg j cfg)))

  parse_text_lem :
      (bytes : List ℕ) (len : ℕ) (cfg : Cfg) (w : Heap)
      → length (io.read bytes len) ≡ len
      → (ret : Ret) × (cfg' : Cfg) × (w' : Heap) × (parse_text io js (io.read bytes len) cfg w
          ≡ some (ret, cfg', w'))
        × Loaded cfg w bytes len ret cfg' w'
  unfolding parse_text
  parse_text_lem bytes len cfg w h = elim (Option-cases (js.parse (io.read bytes len ++ 0 ∷ []))) [
    | inl e ↦ (no_memory, cfg, w, simp (parse_text, e) refl, (refl, inl (λ d. ground arith, refl)))
    | inr (j, e) ↦
        (let (w', freed, live) = release_top ((alloc w).0) ((alloc w).1) w.live (alloc_live w) in
          (
            done,
            js.to_cfg j cfg,
            w',
            simp (parse_text, e, freed) refl,
            (live, inr (refl, h, j, e, refl)),
          ))
  ]

  read_text_lem :
      (bytes : List ℕ) (len : ℕ) (cfg : Cfg) (w : Heap)
      → (ret : Ret) × (cfg' : Cfg) × (w' : Heap) × (read_text io js bytes len cfg w
          ≡ some (ret, cfg', w'))
        × Loaded cfg w bytes len ret cfg' w'
  unfolding read_text
  read_text_lem bytes len cfg w = elim (Bool-cases io.calloc) [
    | inr e ↦ (no_memory, cfg, w, simp (read_text, e) refl, (refl, inl (λ d. ground arith, refl)))
    | inl e ↦ elim (Bool-cases (length (io.read bytes len) == len)) [
      | inr f ↦
          (let (w', freed, live) = release_top ((alloc w).0) ((alloc w).1) w.live (alloc_live w) in
            (
              io_error,
              cfg,
              w',
              simp (read_text, e, f, freed) refl,
              (live, inl (λ d. ground arith, refl)),
            ))
      | inl f ↦
          (let (ret, cfg', w1, ran, (kept, what)) =
              parse_text_lem bytes len cfg ((alloc w).1) (ground (arith, f)) in
            let (w', freed, live) = release_top ((alloc w).0) w1 w.live (kept ∙ alloc_live w) in
            (ret, cfg', w', simp (read_text, e, f, ran, freed) refl, (live, what)))
    ]
  ]

  -- json_cfg_load always returns and leaves no file, text or JSON object over. When it does not
  -- return 0 the structure is as it was; when it returns 0, the file was opened, is not empty,
  -- was read whole, and the structure is what the callback made of its text.
  pub json_cfg_load_lem :
      (file : Option (List ℕ)) (cfg : Cfg) (w : Heap)
      → (ret : Ret) × (cfg' : Cfg) × (w' : Heap) × (json_cfg_load io js file cfg w
          ≡ some (ret, cfg', w'))
        × (w'.live ≡ w.live)
        × (((ret ≢ done) × (cfg' ≡ cfg))
            ⊎ ((ret ≡ done)
                × (io.opens ≡ true)
                × (bytes : List ℕ) × (len : ℕ) × (j : J) × (file ≡ some bytes)
                × (io.tell bytes ≡ some len)
                × (len ≢ 0)
                × (length (io.read bytes len) ≡ len)
                × (js.parse (io.read bytes len ++ 0 ∷ []) ≡ some j)
                × (cfg' ≡ js.to_cfg j cfg)))
  unfolding json_cfg_load
  json_cfg_load_lem none cfg w =
      (no_entry, cfg, w, ground arith, refl, inl (λ d. ground arith, refl))
  json_cfg_load_lem (some bytes) cfg w = elim (Bool-cases io.opens) [
    | inr e ↦ (no_entry, cfg, w, simp (json_cfg_load, e) refl, refl, inl (λ d. ground arith, refl))
    | inl e ↦
        (let (w0, freed0, live0) = release_top ((alloc w).0) ((alloc w).1) w.live (alloc_live w) in
          elim (Option-cases (io.tell bytes)) [
            | inl f ↦ (
              io_error,
              cfg,
              w0,
              simp (json_cfg_load, e, f, freed0) refl,
              live0,
              inl (λ d. ground arith, refl),
            )
            | inr (len, f) ↦ elim (Bool-cases (len == 0)) [
              | inl g ↦ (
                io_error,
                cfg,
                w0,
                simp (json_cfg_load, e, f, g, freed0) refl,
                live0,
                inl (λ d. ground arith, refl),
              )
              | inr g ↦
                  (let (ret, cfg', w1, ran, (kept, what)) =
                      read_text_lem bytes len cfg ((alloc w).1) in
                    let (w', freed, live) =
                      release_top ((alloc w).0) w1 w.live (kept ∙ alloc_live w) in
                    (
                      ret,
                      cfg',
                      w',
                      simp (json_cfg_load, e, f, g, ran, freed) refl,
                      live,
                      elim what [
                        | inl x ↦ inl x
                        | inr (d, a, j, b, c) ↦
                            inr (d, e, bytes, len, j, refl, f, ground arith, a, b, c)
                      ],
                    ))
            ]
          ])
  ]
