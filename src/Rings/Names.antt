-- ===== src/Rings/Names.antt =====
-- The name tells the ring.
use freak.Prelude.{
  ℕ, zero, suc, ◌+◌, ◌-◌, ◌*◌, ◌/◌, ◌%◌, ◌^◌, ◌≡◌, ◌≢◌, ◌≤◌, ◌<◌, refl, ap, ap₂, ◌∙◌, sym, ltb,
  List, [], ◌∷◌, ◌++◌, get_or, length, length-append, take_all, arith, Bool-cases, inl, inr,
}
use native.Mathlib.Nat.{pow-suc}
use freak.Rings.{Hooks, video_stream, video_frame, prefix, decimal, print_int, ring_name}

-- The number that digits stand for.
value : ℕ → List ℕ → ℕ
value acc [] = acc
value acc (x ∷ xs) = value (acc * 10 + (x - 48)) xs

value-append :
    (acc : ℕ) (xs : List ℕ) (d : ℕ) → value acc (xs ++ (48 + d) ∷ []) ≡ value acc xs * 10 + d
unfolding value
value-append acc [] d = omega arith
value-append acc (x ∷ xs) d = value-append (acc * 10 + (x - 48)) xs d

tenth : (n v : ℕ) → v < 10 ^ suc (suc n) → v / 10 < 10 ^ suc n
tenth n v h = let fits : v < 10 ^ suc n * 10 = rw pow-suc at h in omega (arith, fits)

value-decimal : (n v : ℕ) → v < 10 ^ suc n → value 0 (decimal n v) ≡ v
unfolding value decimal
value-decimal zero v h = omega arith
value-decimal (suc n) v h = elim (Bool-cases (ltb v 10)) [
  | inl e ↦ rw e (omega arith)
  | inr e ↦ rw e (
      value-append 0 (decimal n (v / 10)) (v % 10)
      ∙ omega (arith, value-decimal n (v / 10) (tenth n v h)))
]

-- No character of a number is a dash.
Dashless : List ℕ → Type 0
Dashless [] = Unit
Dashless (x ∷ xs) = (x ≢ 45) × Dashless xs

cons_parts : (x y : ℕ) (xs ys : List ℕ) → x ∷ xs ≡ y ∷ ys → (x ≡ y) × (xs ≡ ys)
cons_parts x y xs ys h = ground arith

-- What stands before the first dash and behind it.
dash_split :
    (xs ys us vs : List ℕ)
    → Dashless xs
    → Dashless us
    → xs ++ 45 ∷ ys ≡ us ++ 45 ∷ vs
    → (xs ≡ us) × (ys ≡ vs)
unfolding Dashless
dash_split [] ys [] vs d e h = (refl, (cons_parts 45 45 ys vs h).1)
dash_split [] ys (u ∷ us) vs d e h = absurd (e.0 (sym ((cons_parts 45 u ys (us ++ 45 ∷ vs) h).0)))
dash_split (x ∷ xs) ys [] vs d e h = absurd (d.0 ((cons_parts x 45 (xs ++ 45 ∷ ys) vs h).0))
dash_split (x ∷ xs) ys (u ∷ us) vs d e h =
    let (a, b) = cons_parts x u (xs ++ 45 ∷ ys) (us ++ 45 ∷ vs) h in
    let (p, q) = dash_split xs ys us vs d.1 e.1 b in (ap₂ (◌∷◌) a p, q)

Dashless-append : (xs ys : List ℕ) → Dashless xs → Dashless ys → Dashless (xs ++ ys)
unfolding Dashless
Dashless-append [] ys d e = e
Dashless-append (x ∷ xs) ys d e = (d.0, Dashless-append xs ys d.1 e)

decimal-Dashless : (n v : ℕ) → v < 10 ^ suc n → Dashless (decimal n v)
unfolding Dashless decimal
decimal-Dashless zero v h = (λ e. omega arith, tt)
decimal-Dashless (suc n) v h = elim (Bool-cases (ltb v 10)) [
  | inl e ↦ rw e (λ f. omega arith, tt)
  | inr e ↦ rw e (
      Dashless-append (decimal n (v / 10)) ((48 + v % 10) ∷ [])
        (decimal-Dashless n (v / 10) (tenth n v h)) (λ f. omega arith, tt))
]

length-decimal : (n v : ℕ) → length (decimal n v) ≤ suc n
unfolding decimal
length-decimal zero v = omega arith
length-decimal (suc n) v = elim (Bool-cases (ltb v 10)) [
  | inl e ↦ rw e (omega arith)
  | inr e ↦ rw (e, length-append) (omega (arith, length-decimal n (v / 10)))
]

-- The numbers that an `int` of a ring has.
print_int_pos : (v : ℕ) → v < 2147483648 → print_int v ≡ decimal 9 v
unfolding print_int
print_int_pos v h = ground arith

append_cancel : (xs ys zs : List ℕ) → xs ++ ys ≡ xs ++ zs → ys ≡ zs
append_cancel [] ys zs h = h
append_cancel (x ∷ xs) ys zs h = append_cancel xs ys zs ((cons_parts x x (xs ++ ys) (xs ++ zs) h).1)

decimal_injective : (u v : ℕ) → u < 2147483648 → v < 2147483648 → decimal 9 u ≡ decimal 9 v → u ≡ v
decimal_injective u v hu hv h =
    sym (value-decimal 9 u (omega arith)) ∙ ap (value 0) h ∙ value-decimal 9 v (omega arith)

-- The name before it is cut.
whole : Hooks → ℕ → ℕ → List ℕ
whole hooks chn subchn = prefix hooks ++ 45 ∷ (decimal 9 chn ++ 45 ∷ decimal 9 subchn)

prefix_short : (hooks : Hooks) → length (prefix hooks) ≤ 18
prefix_short video_stream = omega arith
prefix_short video_frame = omega arith

-- Nothing of it is cut.
ring_name-whole :
    (hooks : Hooks) (chn subchn : ℕ)
    → chn < 2147483648
    → subchn < 2147483648
    → ring_name hooks chn subchn ≡ whole hooks chn subchn
unfolding ring_name whole
ring_name-whole hooks chn subchn hc hs =
    rw (print_int_pos chn hc, print_int_pos subchn hs)
      (take_all 63 (prefix hooks ++ 45 ∷ (decimal 9 chn ++ 45 ∷ decimal 9 subchn)) (
        rw (length-append, length-append)
          (omega (arith, prefix_short hooks, length-decimal 9 chn, length-decimal 9 subchn))))

whole_hooks : (h k : Hooks) (c s d t : ℕ) → whole h c s ≡ whole k d t → h ≡ k
unfolding whole
whole_hooks video_stream video_stream c s d t e = refl
whole_hooks video_frame video_frame c s d t e = refl
whole_hooks video_stream video_frame c s d t e = absurd (ground (arith, ap (λ l. get_or l 12 0) e))
whole_hooks video_frame video_stream c s d t e = absurd (ground (arith, ap (λ l. get_or l 12 0) e))

-- Two rings have the same name only if they have the same type, channel and subchannel, so no
-- process opens a ring of another place: the 64 bytes of the name cut nothing. The condition:
-- the channels and subchannels are not negative.
pub ring_name_lem :
    (h k : Hooks) (c s d t : ℕ)
    → c < 2147483648
    → s < 2147483648
    → d < 2147483648
    → t < 2147483648
    → ring_name h c s ≡ ring_name k d t
    → (h ≡ k) × (c ≡ d) × (s ≡ t)
unfolding whole
ring_name_lem h k c s d t hc hs hd ht e =
    let f : whole h c s ≡ whole k d t =
      sym (ring_name-whole h c s hc hs) ∙ e ∙ ring_name-whole k d t hd ht in
    let same = whole_hooks h k c s d t f in
    let g =
      append_cancel (prefix h) (45 ∷ (decimal 9 c ++ 45 ∷ decimal 9 s))
        (45 ∷ (decimal 9 d ++ 45 ∷ decimal 9 t)) (f ∙ ap (λ x. whole x d t) (sym same)) in
    let (a, b) =
      dash_split (decimal 9 c) (decimal 9 s) (decimal 9 d) (decimal 9 t)
        (decimal-Dashless 9 c (omega arith)) (decimal-Dashless 9 d (omega arith))
        ((cons_parts 45 45 _ _ g).1) in
    (same, decimal_injective c d hc hd a, decimal_injective s t hs ht b)
