-- ===== src/Rtsp/Phases.antt =====
-- The state of a client's session in the table, and what the changes of the table do to it.
use freak.Prelude.{
  ℕ, ◌+◌, ◌≡◌, ◌≤◌, refl, sym, ap, subst, true, List, [], ◌∷◌, ◌++◌, Option, some, none, ◌==◌,
  if◌then◌else◌, arith,
}
use freak.Rtsp.{Status, Session, Entry}
use freak.Rtsp.Server.{find, delete, update}

abbrev pub status_of : Option Entry → Option Status
status_of none = none
status_of (some e) = some e.media.status

-- The state of the client's session, if it has one.
abbrev pub phase : ℕ → List Entry → Option Status
phase key es = status_of (find key es)

-- How often a client is in the table.
abbrev pub times : ℕ → List Entry → ℕ
times key [] = 0
times key (e ∷ es) = (if e.key == key then 1 else 0) + times key es

pub find-times : (k : ℕ) (es : List Entry) → find k es ≡ none → times k es ≡ 0
unfolding find
find-times k [] h = refl
find-times k (e ∷ es) h = ground (arith, find-times k es)

find-zero : (k : ℕ) (es : List Entry) → times k es ≡ 0 → find k es ≡ none
unfolding find
find-zero k [] h = refl
find-zero k (e ∷ es) h = ground (arith, find-zero k es)

pub times-update :
    (key k : ℕ) (m : Session) (es : List Entry) → times key (update k m es) ≡ times key es
unfolding update
times-update key k m [] = refl
times-update key k m (e ∷ es) = ground (arith, times-update key k m es)

pub times-delete : (key k : ℕ) (es : List Entry) → times key (delete k es) ≤ times key es
unfolding delete
times-delete key k [] = omega arith
times-delete key k (e ∷ es) = ground (arith, times-delete key k es)

pub times-append :
    (key : ℕ) (es : List Entry) (e : Entry)
    → times key (es ++ e ∷ []) ≡ times key es + (if e.key == key then 1 else 0)
times-append key [] e = omega arith
times-append key (x ∷ xs) e = omega (arith, times-append key xs e)

pub phase-update :
    (key k : ℕ) (m : Session) (es : List Entry) (e : Entry)
    → find k es ≡ some e
    → phase key (update k m es) ≡ (if k == key then some m.status else phase key es)
unfolding find update
phase-update key k m [] e h = ground arith
phase-update key k m (x ∷ xs) e h = ground (arith, phase-update key k m xs e)

pub phase-delete :
    (key k : ℕ) (es : List Entry)
    → times k es ≤ 1
    → phase key (delete k es) ≡ (if k == key then none else phase key es)
unfolding find delete
phase-delete key k [] h = ground arith
phase-delete key k (x ∷ xs) h = ground (arith, phase-delete key k xs, find-zero k xs)

pub phase-append :
    (key : ℕ) (es : List Entry) (e : Entry)
    → find e.key es ≡ none
    → phase key (es ++ e ∷ []) ≡ (if e.key == key then some e.media.status else phase key es)
unfolding find
phase-append key [] e h = ground arith
phase-append key (x ∷ xs) e h = ground (arith, phase-append key xs e)

pub phase-found :
    (c k : ℕ) (es : List Entry) (o : Option Entry)
    → (c == k) ≡ true
    → find c es ≡ o
    → phase k es ≡ status_of o
phase-found c k es o b f =
    let e : c ≡ k = ground arith in
    subst (λ c. find c es ≡ o → phase k es ≡ status_of o) (sym e) (λ g. ap status_of g) f
