-- ===== src/Masquerade/Laws.antt =====
-- What is left of PATH behind the searches of src/climasq.c and src/util.c.
use distcc.Prelude.{
  ℕ, ◌≡◌, refl, inl, inr, Bool, true, false, Bool-cases, ◌==◌, Option, none, some, List, [], ◌∷◌,
  ◌++◌, arith,
}
use distcc.Prelude.Bytes.{Bytes, contains}
use distcc.Masquerade.{rounds, add_byte, past_match, masqueraded, component_matches, masquerade_in}

-- Components, with a colon behind each.
abbrev pub joined : List Bytes → Bytes → Bytes
joined [] rest = rest
joined (component ∷ more) rest = component ++ (b':' ∷ joined more rest)

abbrev pub AllPlain : List Bytes → Type 0
AllPlain [] = Unit {0}
AllPlain (component ∷ more) = (contains b':' component ≡ false) × AllPlain more

pub rounds-append :
    (component rest : Bytes)
    → contains b':' component ≡ false
    → rounds (component ++ (b':' ∷ rest)) ≡ (component, rest) ∷ rounds rest
unfolding rounds add_byte contains
rounds-append [] rest plain = refl
rounds-append (c ∷ component) rest plain =
    let other : (c == b':') ≡ false = ground arith in
    rw (other, rounds-append component rest (ground arith)) refl

pub rounds-last :
    (c : ℕ) (last : Bytes)
    → contains b':' (c ∷ last) ≡ false
    → rounds (c ∷ last) ≡ (c ∷ last, []) ∷ []
unfolding rounds add_byte contains
rounds-last c [] plain = ground arith
rounds-last c (d ∷ last) plain =
    let other : (c == b':') ≡ false = ground arith in
    rw (other, rounds-last d last (ground arith)) refl

-- None of the components matches.
abbrev NoneMatches : (Bytes → Bool) → List Bytes → Type 0
NoneMatches matches [] = Unit {0}
NoneMatches matches (component ∷ more) = (matches component ≡ false) × NoneMatches matches more

past_match-joined :
    (matches : Bytes → Bool) (before : List Bytes) (component rest : Bytes)
    → AllPlain before
    → NoneMatches matches before
    → contains b':' component ≡ false
    → matches component ≡ true
    → past_match matches (rounds (joined before (component ++ (b':' ∷ rest)))) ≡ rest
unfolding past_match
past_match-joined matches [] component rest plain others p m =
    rw (rounds-append component rest p, m) refl
past_match-joined matches (b ∷ before) component rest plain others p m =
    rw (rounds-append b (joined before (component ++ (b':' ∷ rest))) plain.0, others.0)
      (past_match-joined matches before component rest plain.1 others.1 p m)

past_match-last :
    (matches : Bytes → Bool) (before : List Bytes) (c : ℕ) (last : Bytes)
    → AllPlain before
    → NoneMatches matches before
    → contains b':' (c ∷ last) ≡ false
    → past_match matches (rounds (joined before (c ∷ last))) ≡ []
unfolding past_match
past_match-last matches [] c last plain others p = elim (Bool-cases (matches (c ∷ last))) [
  | inl m ↦ rw (rounds-last c last p, m) refl
  | inr m ↦ rw (rounds-last c last p, m) refl
]
past_match-last matches (b ∷ before) c last plain others p =
    rw (rounds-append b (joined before (c ∷ last)) plain.0, others.0)
      (past_match-last matches before c last plain.1 others.1 p)

-- dcc_support_masquerade, behind the call of dcc_abspath, cuts PATH behind the first component that is
-- the path which that call has given, or, where the program has been called without a directory,
-- that holds a program of the name, if something stands behind the component and its colon. Where
-- nothing does, with a colon behind the component or without, PATH stays, as it does where no
-- component matches.
pub masquerade_in_lem :
    (access : Bytes → Bool) (findpath : Option Bytes) (progname : Bytes) (before : List Bytes)
    (component : Bytes) (c : ℕ) (rest : Bytes)
    → AllPlain before
    → NoneMatches (component_matches access findpath progname) before
    → (contains b':' component ≡ false
        → component_matches access findpath progname component ≡ true
        → masquerade_in access
            (some (joined before (component ++ (b':' ∷ (c ∷ rest)))))
            findpath
            progname
          ≡ record { new_path = some (c ∷ rest); did_masquerade = some true })
      × (contains b':' (c ∷ rest) ≡ false
          → masquerade_in access (some (joined before (c ∷ rest))) findpath progname
            ≡ record { new_path = none; did_masquerade = some false })
      × (contains b':' component ≡ false
          → component_matches access findpath progname component ≡ true
          → masquerade_in access (some (joined before (component ++ (b':' ∷ [])))) findpath progname
            ≡ record { new_path = none; did_masquerade = some false })
unfolding masquerade_in masqueraded
masquerade_in_lem access findpath progname before component c rest plain others =
    let matches = component_matches access findpath progname in
    (
      λ p m. rw (past_match-joined matches before component (c ∷ rest) plain others p m) refl,
      λ p. rw (past_match-last matches before c rest plain others p) refl,
      λ p m. rw (past_match-joined matches before component [] plain others p m) refl,
    )
