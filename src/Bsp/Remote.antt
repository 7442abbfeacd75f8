-- ===== src/Bsp/Remote.antt =====
-- The board as another process sees it.
use freak.Prelude.{
  ℕ, ◌≡◌, ◌<◌, refl, Bool, true, some, get_elem?, set, get_elem?-set_at, lt→not-leb,
}
use native.Mathlib.Nat.{mod-eq_of_lt}
use freak.Proto.{Codec, IsCodec, encode, bsp_key_dummy, action_set, action_get}
use freak.Proto.Laws.{decode-encode}
use freak.Proto.Types.{DummyCfg, DummyCap}
use freak.Proto.Clients.{dummy_set, dummy_get}
use freak.Msgbox.{Table}
use freak.Msgbox.Serve.{served, request-served, param_of}
use freak.Bsp.{
  Board, create_dummy, bsp_dummy_get, bsp_dummy_set, msgbox_dummy_set, msgbox_dummy_get,
  msgbox_dummy,
}

module _ (cfgs : Codec DummyCfg) (caps : Codec DummyCap) (num : Codec ℕ) {Fits : DummyCfg → Type 0}
    (l : IsCodec cfgs Fits) (t : Table Board) (id format now later : ℕ) where
  -- The board after a `set` of the object `id`.
  abbrev with_cfg : DummyCfg → Board → Board
  with_cfg x s = record {
    objs = set s.objs id true;
    info = record s.info { cfgs = set (set s.info.cfgs id x) id x };
  }

  set_message :
      (x old : DummyCfg) (s : Board) (o : Bool)
      → Fits x
      → id < 256
      → id < s.info.num
      → get_elem? s.objs id ≡ some o
      → get_elem? s.info.cfgs id ≡ some old
      → msgbox_dummy cfgs caps num (param_of cfgs action_set id format x) s
        ≡ some (0, encode cfgs format x, with_cfg x s)
  unfolding msgbox_dummy msgbox_dummy_set create_dummy bsp_dummy_set
  set_message x old s o fits a b c d = rw (mod-eq_of_lt a) (
      rw (decode-encode cfgs l x fits format) (
        rw (lt→not-leb s.info.num id b)
          (rw c (rw d (rw (get_elem?-set_at s.info.cfgs id old x d) refl)))))

  get_message :
      (x y : DummyCfg) (s : Board) (o : Bool)
      → Fits y
      → id < 256
      → id < s.info.num
      → get_elem? s.objs id ≡ some o
      → get_elem? s.info.cfgs id ≡ some x
      → msgbox_dummy cfgs caps num (param_of cfgs action_get id format y) s
        ≡ some (0, encode cfgs format x, record s { objs = set s.objs id true })
  unfolding msgbox_dummy msgbox_dummy_get create_dummy bsp_dummy_get
  get_message x y s o fits a b c d =
      rw (mod-eq_of_lt a) (
        rw (decode-encode cfgs l y fits format)
          (rw (lt→not-leb s.info.num id b) (rw c (rw d refl))))

  -- Another process that sets the configuration of a board's object gets it back, and a later
  -- get for the same object answers with it, in either format. The conditions: the board process
  -- serves its key, the id is below the number of objects and 256 and in range of the tables,
  -- and the values fit the C structure.
  pub dummy_set_get :
      (x y old : DummyCfg) (s : Board) (o : Bool)
      → get_elem? t bsp_key_dummy ≡ some (some (msgbox_dummy cfgs caps num))
      → Fits x
      → Fits y
      → id < 256
      → id < s.info.num
      → get_elem? s.objs id ≡ some o
      → get_elem? s.info.cfgs id ≡ some old
      → (s1 : Board) × (s2 : Board) × (dummy_set (served t later) format now cfgs id x s
          ≡ some (x, s1))
        × (dummy_get (served t later) format now cfgs id y s1 ≡ some (x, s2))
        × (s2.info ≡ s1.info)
  unfolding dummy_set dummy_get
  dummy_set_get x y old s o e fx fy a b c d =
      let s1 = with_cfg x s in
      (
        s1,
        record s1 { objs = set s1.objs id true },
        request-served cfgs l t (msgbox_dummy cfgs caps num) bsp_key_dummy action_set id format now
            later x x s s1 fx e (set_message x old s o fx a b c d),
        request-served cfgs l t (msgbox_dummy cfgs caps num) bsp_key_dummy action_get id format now
            later y x s1 (record s1 { objs = set s1.objs id true }) fx e
            (get_message x y s1 true fy a b (get_elem?-set_at s.objs id o true c) (
              get_elem?-set_at (set s.info.cfgs id x) id x x
                (get_elem?-set_at s.info.cfgs id old x d))),
        refl,
      )
