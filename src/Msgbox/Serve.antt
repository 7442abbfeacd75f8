-- ===== src/Msgbox/Serve.antt =====
-- A request to a process whose message box has a handler for its key.
use freak.Prelude.{
  ℕ, ◌%◌, ◌^◌, ◌≡◌, refl, List, [], ◌∷◌, ◌⊎◌, inl, inr, subst, sym, Option-cases, Option, none,
  some, length, get_elem?, arith, ==_iff,
}
use freak.Proto.{
  Codec, IsCodec, Exchange, encode, decode, ◌>>=◌, request, fill_header, action_set, action_get,
  action_cap,
}
use freak.Proto.Laws.{decode-encode}
use freak.Msgbox.{
  Param, Handler, Table, Manager, do_handler, serve_set, serve_get, serve_cap, serve_num, serve,
}

-- The process behind its socket: `nnm_rep_routine` hands each message to `msgbox_do_handler` and sends
-- the answer back.
abbrev pub served : {S : Type 0} → Table S → ℕ → Exchange S
served t now p s = do_handler t now p s >>= λ (answer, osize, s'). some (answer, s')

-- What the handler of a request sees.
abbrev pub param_of : {T : Type 0} → Codec T → ℕ → ℕ → ℕ → T → Param
param_of c action chn format t = record {
  chn = chn % 256;
  action = action;
  format = format;
  isize = length (encode c format t) % 2 ^ 16;
  input = encode c format t;
}

-- The process after a list of messages to one handler.
unfoldable pub handled : {S : Type 0} → Handler S → List Param → S → Option S
handled h [] s = some s
handled h (p ∷ ps) s = h p s >>= λ (ret, out, s'). handled h ps s'

module _ {S T : Type 0} (c : Codec T) {Fits : T → Type 0} (l : IsCodec c Fits) (t : Table S)
    (h : Handler S) (key action chn format now later : ℕ) where
  -- A request to a process whose message box has a handler for the key returns the handler's
  -- answer and leaves the handler's state: the header, the key and the sizes pass all the checks
  -- on the way, if the handler returns 0 with the encoding of the answer and the answer fits the
  -- C structure.
  pub request-served :
      (x y : T) (s s' : S)
      → Fits y
      → get_elem? t key ≡ some (some h)
      → h (param_of c action chn format x) s ≡ some (0, encode c format y, s')
      → request c (served t later) key action chn format now x s ≡ some (y, s')
  unfolding request do_handler fill_header
  request-served x y s s' fits e f =
      rw e (rw f (rw ((==_iff key key).1 refl, decode-encode c l y fits format)))

module _ {S Cfg Cap : Type 0} (m : Manager S Cfg Cap) (cfg : Codec Cfg) (cap : Codec Cap)
    (num : Codec ℕ) {Fits : Cfg → Type 0} (l : IsCodec cfg Fits) (chn format : ℕ) where
  -- The handler of a `set` stores the configuration that it was sent and echoes it.
  pub serve-set :
      (x : Cfg) (s s1 s2 : S)
      → Fits x
      → m.set_cfg x s ≡ some (0, s1)
      → m.keep_cfg x s1 ≡ some s2
      → serve m cfg cap num (param_of cfg action_set chn format x) s
        ≡ some (0, encode cfg format x, s2)
  unfolding serve
  serve-set x s s1 s2 fits e f = rw (decode-encode cfg l x fits format) (rw e (rw f))

  -- The handler of a `get` answers with what the manager has, and changes nothing.
  pub serve-get :
      (x y : Cfg) (s : S)
      → Fits x
      → m.get_cfg x s ≡ some y
      → serve m cfg cap num (param_of cfg action_get chn format x) s
        ≡ some (0, encode cfg format y, s)
  unfolding serve
  serve-get x y s fits e = rw (decode-encode cfg l x fits format) (rw e)

module _ {S Cfg Cap : Type 0} (m : Manager S Cfg Cap) (cfg : Codec Cfg) (cap : Codec Cap)
    (num : Codec ℕ) {Fits : Cap → Type 0} (l : IsCodec cap Fits) (chn format : ℕ) where
  -- So does that of a `cap` with what the manager can do.
  pub serve-cap :
      (x y : Cap) (s : S)
      → Fits x
      → m.get_cap x s ≡ some y
      → serve m cfg cap num (param_of cap action_cap chn format x) s
        ≡ some (0, encode cap format y, s)
  unfolding serve
  serve-cap x y s fits e = rw (decode-encode cap l x fits format) (rw e)

module _ {S Cfg Cap : Type 0} (m : Manager S Cfg Cap) (cfg : Codec Cfg) (cap : Codec Cap)
    (num : Codec ℕ) where
  serve_set-state :
      (p : Param) (s s' : S) (ret : ℕ) (out : List ℕ)
      → serve_set m cfg p s ≡ some (ret, out, s')
      → (x : Cfg) × (r : ℕ) × (s1 : S) × (m.set_cfg x s ≡ some (r, s1))
        × (m.keep_cfg x s1 ≡ some s')
  unfolding serve_set
  serve_set-state p s s' ret out h = elim (Option-cases (decode cfg p.format p.isize p.input)) [
    | inl e ↦ absurd (ground arith)
    | inr (x, e) ↦ elim (Option-cases (m.set_cfg x s)) [
      | inl f ↦ absurd (ground arith)
      | inr ((r, s1), f) ↦ (x, r, s1, f, ground arith)
    ]
  ]

  -- A handler changes the state by a `set` only.
  serve-state :
      (p : Param) (s s' : S) (ret : ℕ) (out : List ℕ)
      → serve m cfg cap num p s ≡ some (ret, out, s')
      → (s' ≡ s) ⊎ (serve_set m cfg p s ≡ some (ret, out, s'))
  unfolding serve serve_get serve_cap serve_num
  serve-state p s s' ret out h = ground arith

  -- What each `set` that succeeds keeps, all messages keep.
  pub handled-keeps :
      (P : S → Type 0)
      → ((x : Cfg) (s s' : S) (ret : ℕ) → P s → m.set_cfg x s ≡ some (ret, s') → P s')
      → ((x : Cfg) (s s' : S) → P s → m.keep_cfg x s ≡ some s' → P s')
      → (ps : List Param) (s s' : S) → P s
      → handled (serve m cfg cap num) ps s ≡ some s'
      → P s'
  unfolding handled
  handled-keeps P set_ok keep_ok [] s s' v h =
      subst (λ o. elim o [ none ↦ P s' | some x ↦ P x ]) h v
  handled-keeps P set_ok keep_ok (p ∷ ps) s s' v h = elim (Option-cases (serve m cfg cap num p s)) [
    | inl e ↦ absurd (ground arith)
    | inr ((ret, out, s1), e) ↦
        (let rest : handled (serve m cfg cap num) ps s1 ≡ some s' = ground arith in
          let v1 : P s1 = elim (serve-state p s s1 ret out e) [
            | inl same ↦ subst P (sym same) v
            | inr f ↦
                (let (x, r, s2, a, b) = serve_set-state p s s1 ret out f in
                  keep_ok x s2 s1 (set_ok x s s2 r v a) b)
          ] in
          handled-keeps P set_ok keep_ok ps s1 s' v1 rest)
  ]
