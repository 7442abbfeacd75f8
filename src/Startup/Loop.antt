-- ===== src/Startup/Loop.antt =====
-- A start-up loop over messages of a process to itself.
use freak.Prelude.{
  ℕ, zero, suc, ◌+◌, ◌≡◌, ◌<◌, refl, ap, ap₂, ◌∙◌, sym, subst, Option, some, get_elem?, lt→ltb,
  arith,
}
use freak.Proto.{
  ◌>>=◌, Codec, IsCodec, request, format_json, action_num, action_tgr, action_get, action_set,
}
use freak.Proto.Laws.{decode-encode}
use freak.Msgbox.{Handler, Table, Manager, serve, serve_num, Param}
use freak.Msgbox.Serve.{served, request-served, param_of, serve-set, serve-get}
use freak.Startup.{Part, inside, start_from}

module _ {S Cfg : Type 0} (get_cfg set_cfg : Cfg → S → Option (Cfg × S)) (with_id : ℕ → Cfg) (n : ℕ)
    (P : ℕ → S → Type 0) where
  -- A turn of the loop brings the process from `P i` to the next.
  abbrev pub Turn : Type 0
  Turn =
      (i : ℕ) (s : S)
      → i < n
      → P i s
      → (x : Cfg) × (y : Cfg) × (s1 : S) × (s2 : S) × (get_cfg (with_id i) s ≡ some (x, s1))
        × (set_cfg x s1 ≡ some (y, s2))
        × P (suc i) s2

  pub start_from_lem :
      Turn
      → (k i : ℕ) (s : S) → k + i ≡ n
      → P i s
      → (s' : S) × (start_from get_cfg set_cfg with_id k i s ≡ some s') × P n s'
  unfolding start_from
  start_from_lem turn zero i s e v =
      let same : i ≡ n = omega (arith, e) in (s, refl, subst (λ k. P k s) same v)
  start_from_lem turn (suc k) i s e v =
      let (x, y, s1, s2, a, b, w) = turn i s (omega arith) v in
      let (s', c, d) = start_from_lem turn k (suc i) s2 (omega arith) w in (s', rw a (rw b c), d)

-- A handler that answers as another does, but for triggers.
abbrev pub ServesAs : {T : Type 0} → Handler T → Handler T → Type 0
ServesAs {T} h g = (p : Param) (s : T) → p.action < action_tgr → h p s ≡ g p s

module _ {S T Cfg Cap : Type 0} (part : Part S T) (m : Manager T Cfg Cap) (cfg : Codec Cfg)
    (cap : Codec Cap) (num : Codec ℕ) {Fits : Cfg → Type 0} (l : IsCodec cfg Fits) (t : Table S)
    (h : Handler T) (key now later chn : ℕ) where
  abbrev ask : ℕ → {U : Type 0} → Codec U → U → S → Option (U × S)
  ask action c x s = request c (served t later) key action chn format_json now x s

  -- A `set` of the process to itself.
  pub set_self :
      (x : Cfg) (s : S) (s1 s2 : T)
      → Fits x
      → get_elem? t key ≡ some (some (inside part h))
      → ServesAs h (serve m cfg cap num)
      → m.set_cfg x (part.view s) ≡ some (0, s1)
      → m.keep_cfg x s1 ≡ some s2
      → ask action_set cfg x s ≡ some (x, part.put s2 s)
  set_self x s s1 s2 fits e same a b =
      request-served cfg l t (inside part h) key action_set chn format_json now later x x s
        (part.put s2 s) fits e
        (rw (same (param_of cfg action_set chn format_json x) (part.view s) (omega arith))
          (rw (serve-set m cfg cap num l chn format_json x (part.view s) s1 s2 fits a b) refl))

  -- A `get`.
  pub get_self :
      (x y : Cfg) (s : S)
      → Fits x
      → Fits y
      → get_elem? t key ≡ some (some (inside part h))
      → ServesAs h (serve m cfg cap num)
      → m.get_cfg x (part.view s) ≡ some y
      → ask action_get cfg x s ≡ some (y, part.put (part.view s) s)
  get_self x y s fx fy e same a =
      request-served cfg l t (inside part h) key action_get chn format_json now later x y s
        (part.put (part.view s) s) fy e
        (rw (same (param_of cfg action_get chn format_json x) (part.view s) (omega arith))
          (rw (serve-get m cfg cap num l chn format_json x y (part.view s) fx a) refl))

module _ {S T Cfg Cap : Type 0} (part : Part S T) (m : Manager T Cfg Cap) (cfg : Codec Cfg)
    (cap : Codec Cap) (num : Codec ℕ) {Fits : ℕ → Type 0} (l : IsCodec num Fits) (t : Table S)
    (h : Handler T) (key now later chn : ℕ) where
  -- A `num`.
  pub num_self :
      (s : S)
      → Fits 0
      → Fits (m.get_num (part.view s))
      → m.get_num (part.view s) < 2147483648
      → get_elem? t key ≡ some (some (inside part h))
      → ServesAs h (serve m cfg cap num)
      → request num (served t later) key action_num chn format_json now 0 s
        ≡ some (m.get_num (part.view s), part.put (part.view s) s)
  unfolding serve serve_num
  num_self s f0 fits few e same =
      request-served num l t (inside part h) key action_num chn format_json now later 0
        (m.get_num (part.view s)) s (part.put (part.view s) s) fits e
        (rw (same (param_of num action_num chn format_json 0) (part.view s) (omega arith)) (
          rw (decode-encode num l 0 f0 format_json)
            (rw (lt→ltb (m.get_num (part.view s)) 2147483648 few) refl)))

-- What `put` writes, `view` reads, and it changes nothing else.
pub record IsPart {S T : Type 0} (part : Part S T) : Type 0 where
  pub view-put : (x : T) (s : S) → part.view (part.put x s) ≡ x
  pub put-view : (s : S) → part.put (part.view s) s ≡ s
  pub put-put : (x y : T) (s : S) → part.put x (part.put y s) ≡ part.put x s

-- A turn of the loop at the manager.
abbrev pub ManagerTurn :
    {T Cfg Cap : Type 0}
    → Manager T Cfg Cap
    → (Cfg → Type 0)
    → (ℕ → Cfg)
    → ℕ
    → (ℕ → T → Type 0)
    → Type 0
ManagerTurn {T} {Cfg} m Fits with_id n P =
    (i : ℕ) (s : T)
    → i < n
    → P i s
    → (x : Cfg) × (s1 : T) × (s2 : T) × Fits (with_id i)
      × Fits x
      × (m.get_cfg (with_id i) s ≡ some x)
      × (m.set_cfg x s ≡ some (0, s1))
      × (m.keep_cfg x s1 ≡ some s2)
      × P (suc i) s2

module _ {S T Cfg Cap : Type 0} (part : Part S T) (is_part : IsPart part) (m : Manager T Cfg Cap)
    (cfg : Codec Cfg) (cap : Codec Cap) (num : Codec ℕ) {Fits : Cfg → Type 0} {NumFits : ℕ → Type 0}
    (l : IsCodec cfg Fits) (ln : IsCodec num NumFits) (t : Table S) (h : Handler T)
    (key now later : ℕ) (id : Cfg → ℕ) (with_id : ℕ → Cfg) where
  -- The loop of a main function, in a process that serves the key.
  abbrev pub loop_of : S → Option S
  loop_of s =
      request num (served t later) key action_num 4294967295 format_json now 0 s >>= λ (total, s').
      start_from (λ x s1. request cfg (served t later) key action_get (id x) format_json now x s1)
        (λ x s1. request cfg (served t later) key action_set (id x) format_json now x s1) with_id
        total 0 s'

  module _ (n : ℕ) (P : ℕ → T → Type 0) (e : get_elem? t key ≡ some (some (inside part h)))
      (same : ServesAs h (serve m cfg cap num)) (turn : ManagerTurn m Fits with_id n P) where
    -- The manager has come to `i`, and the rest of the process is that of `s0`.
    abbrev Came : S → ℕ → S → Type 0
    Came s0 i s = (x : T) × (s ≡ part.put x s0) × P i x

    process_turn :
        (s0 : S)
        → Turn
            (λ x s1. request cfg (served t later) key action_get (id x) format_json now x s1)
            (λ x s1. request cfg (served t later) key action_set (id x) format_json now x s1)
            with_id
            n
            (Came s0)
    process_turn s0 i s lt (y, at, p) =
        let here : part.view s ≡ y = ap part.view at ∙ is_part.view-put y s0 in
        let (x, s1, s2, fw, fx, got, was, kept, q) =
          turn i (part.view s) lt (subst (P i) (sym here) p) in
        (
          x,
          x,
          s,
          part.put s2 s,
          get_self part m cfg cap num l t h key now later (id (with_id i)) (with_id i) x s fw fx e
                same got
              ∙ ap (λ r. some (x, r)) (is_part.put-view s),
          set_self part m cfg cap num l t h key now later (id x) x s s1 s2 fx e same was kept,
          (s2, ap (part.put s2) at ∙ is_part.put-put s2 y s0, q),
        )

    pub loop_of_lem :
        (s : S)
        → m.get_num (part.view s) ≡ n
        → n < 2147483648
        → NumFits 0
        → NumFits n
        → P 0 (part.view s)
        → (x : T) × (loop_of s ≡ some (part.put x s)) × P n x
    loop_of_lem s count few f0 fn v =
        let counted =
          num_self part m cfg cap num ln t h key now later 4294967295 s f0
            (subst NumFits (sym count) fn) (subst (λ k. k < 2147483648) (sym count) few) e same in
        let (s', ran, (x, at, p)) =
          start_from_lem
            (λ x s1. request cfg (served t later) key action_get (id x) format_json now x s1)
            (λ x s1. request cfg (served t later) key action_set (id x) format_json now x s1)
            with_id n (Came s) (process_turn s) n 0 s (omega arith)
            (part.view s, sym (is_part.put-view s), v) in
        let counted' : request num (served t later) key action_num 4294967295 format_json now 0 s
            ≡ some (n, s) =
          counted ∙ ap₂ (λ k r. some (k, r)) count (is_part.put-view s) in
        (x, rw counted' (ran ∙ ap some at), p)
