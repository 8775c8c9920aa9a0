-- ===== src/Masquerade/Trim.antt =====
-- What is left of PATH behind dcc_trim_path of src/util.c.
use distcc.Prelude.{
  ℕ, ◌<◌, ◌≡◌, ◌⊎◌, refl, ◌∙◌, inl, inr, Bool, true, false, leb, Option, none, some, List, [], ◌∷◌,
  ◌++◌, if◌then◌else◌, length, arith,
}
use distcc.Prelude.Bytes.{Bytes, codes, contains, strstr}
use distcc.ExitCode.{Result, ok}
use distcc.Masquerade.{rounds, Lstat, missing, no_link, link, trim_round, trim_rounds, trim_path}
use distcc.Masquerade.Laws.{joined, AllPlain, rounds-append, rounds-last}

-- A link whose target is short enough for the buffer, with distcc in it or not.
abbrev IsLink : ℕ → Bool → Lstat → Type 0
IsLink max_path has_distcc l =
    (c : ℕ) × (target : Bytes) × (l ≡ link (some (c ∷ target)))
    × (length (c ∷ target) < max_path)
    × (strstr (c ∷ target) (codes "distcc") ≡ has_distcc)

-- The text is a component, its colon and the rest, or a component alone, which is not empty.
abbrev IsFront : Bytes → Bytes → Bytes → Type 0
IsFront component text rest =
    (text ≡ component ++ (b':' ∷ rest))
    ⊎ ((c : ℕ) × (more : Bytes) × (component ≡ c ∷ more) × (text ≡ component) × (rest ≡ []))

rounds-front :
    (component text rest : Bytes)
    → contains b':' component ≡ false
    → IsFront component text rest
    → rounds text ≡ (component, rest) ∷ rounds rest
rounds-front component text rest plain (inl split) = rw split (rounds-append component rest plain)
rounds-front component text rest plain (inr (c, more, same, alone, nothing)) =
    rw (alone, nothing, same) (rounds-last c more (rw same at plain) ∙ unfold rounds in refl)

module _ (max_path : ℕ) (lstat : Bytes → Lstat) where
  -- Components that the search goes past: with nothing of the name, or a link to something else.
  abbrev ArePassed : List Bytes → Type 0
  ArePassed [] = Unit {0}
  ArePassed (component ∷ more) =
      ((lstat component ≡ missing) ⊎ IsLink max_path false (lstat component)) × ArePassed more

  -- Components with nothing of the name, or a link to anything.
  abbrev AreSearched : List Bytes → Type 0
  AreSearched [] = Unit {0}
  AreSearched (component ∷ more) =
      ((lstat component ≡ missing)
        ⊎ (IsLink max_path false (lstat component) ⊎ IsLink max_path true (lstat component)))
      × AreSearched more

  -- The search ends: PATH does, at once or behind one more component that it goes past, or a component
  -- holds a program of the name that is no link.
  abbrev IsEnd : Bytes → Type 0
  IsEnd rest =
      (rest ≡ [])
      ⊎ ((component : Bytes) × (more : Bytes) × IsFront component rest more
          × (contains b':' component ≡ false)
          × ((lstat component ≡ no_link)
              ⊎ ((more ≡ [])
                  × ((lstat component ≡ missing) ⊎ IsLink max_path false (lstat component)))))

  trim_round-link :
      (has_distcc : Bool) (component n : Bytes) (newpath : Option Bytes)
      (next : Option Bytes → Result (Option Bytes))
      → IsLink max_path has_distcc (lstat component)
      → trim_round max_path (lstat component) n newpath next
        ≡ next (if has_distcc then some n else newpath)
  unfolding trim_round
  trim_round-link has_distcc component n newpath next (c, target, is_link, short, found) =
      let fits : leb max_path (length (c ∷ target)) ≡ false = ground arith in
      rw (is_link, fits, found) refl

  -- What follows the round of a component.
  abbrev search_on : Bytes → Option Bytes → Result (Option Bytes)
  search_on text after = trim_rounds max_path lstat (rounds text) after

  trim-front :
      (component whole text : Bytes) (newpath : Option Bytes)
      → contains b':' component ≡ false
      → IsFront component whole text
      → search_on whole newpath
        ≡ trim_round max_path (lstat component) text newpath (search_on text)
  unfolding trim_rounds
  trim-front component whole text newpath plain front =
      rw (rounds-front component whole text plain front) refl

  trim-component :
      (component text : Bytes) (newpath : Option Bytes)
      → contains b':' component ≡ false
      → search_on (component ++ (b':' ∷ text)) newpath
        ≡ trim_round max_path (lstat component) text newpath (search_on text)
  trim-component component text newpath plain =
      trim-front component (component ++ (b':' ∷ text)) text newpath plain (inl refl)

  trim_round-missing :
      (component n : Bytes) (newpath : Option Bytes) (next : Option Bytes → Result (Option Bytes))
      → lstat component ≡ missing
      → trim_round max_path (lstat component) n newpath next ≡ next newpath
  unfolding trim_round
  trim_round-missing component n newpath next none_there = rw none_there refl

  trim-passed :
      (components : List Bytes) (rest : Bytes) (newpath : Option Bytes)
      → AllPlain components
      → ArePassed components
      → search_on (joined components rest) newpath ≡ search_on rest newpath
  trim-passed [] rest newpath plain passed = refl
  trim-passed (component ∷ more) rest newpath plain passed =
      let text = joined more rest in
      let first_round = trim-component component text newpath plain.0 in
      let others = trim-passed more rest newpath plain.1 passed.1 in
      elim (passed.0) [
        | inl none_there ↦
            first_round
            ∙ (trim_round-missing component text newpath (search_on text) none_there ∙ others)
        | inr linked ↦
            first_round
            ∙ (trim_round-link false component text newpath (search_on text) linked ∙ others)
      ]

  trim-searched :
      (components : List Bytes) (rest : Bytes) (newpath : Option Bytes)
      → AllPlain components
      → AreSearched components
      → (after : Option Bytes) × (search_on (joined components rest) newpath ≡ search_on rest after)
  trim-searched [] rest newpath plain searched = (newpath, refl)
  trim-searched (component ∷ more) rest newpath plain searched =
      let text = joined more rest in
      let first_round = trim-component component text newpath plain.0 in
      elim (searched.0) [
        | inl none_there ↦
            let (after, others) = trim-searched more rest newpath plain.1 searched.1 in
            (
              after,
              first_round
                  ∙ (trim_round-missing component text newpath (search_on text) none_there
                      ∙ others),
            )
        | inr (inl linked) ↦
            let (after, others) = trim-searched more rest newpath plain.1 searched.1 in
            (
              after,
              first_round
                  ∙ (trim_round-link false component text newpath (search_on text) linked ∙ others),
            )
        | inr (inr linked) ↦
            let (after, others) = trim-searched more rest (some text) plain.1 searched.1 in
            (
              after,
              first_round
                  ∙ (trim_round-link true component text newpath (search_on text) linked ∙ others),
            )
      ]

  trim-nothing :
      (rest : Bytes) (newpath : Option Bytes) → rest ≡ [] → search_on rest newpath ≡ ok newpath
  unfolding trim_rounds rounds
  trim-nothing rest newpath empty = rw empty refl

  trim_round-no_link :
      (component n : Bytes) (newpath : Option Bytes) (next : Option Bytes → Result (Option Bytes))
      → lstat component ≡ no_link
      → trim_round max_path (lstat component) n newpath next ≡ ok newpath
  unfolding trim_round
  trim_round-no_link component n newpath next stops = rw stops refl

  trim-end :
      (rest : Bytes) (newpath : Option Bytes) → IsEnd rest → search_on rest newpath ≡ ok newpath
  trim-end rest newpath (inl empty) = trim-nothing rest newpath empty
  trim-end rest newpath (inr (component, more, front, plain, inl stops)) =
      trim-front component rest more newpath plain front
      ∙ trim_round-no_link component more newpath (search_on more) stops
  trim-end rest newpath (inr (component, more, front, plain, inr (nothing, inl none_there))) =
      trim-front component rest more newpath plain front
      ∙ (trim_round-missing component more newpath (search_on more) none_there
          ∙ trim-nothing more newpath nothing)
  trim-end rest newpath (inr (component, more, front, plain, inr (nothing, inr linked))) =
      trim-front component rest more newpath plain front
      ∙ (trim_round-link false component more newpath (search_on more) linked
          ∙ trim-nothing more newpath nothing)

-- The name of the compiler in a component of PATH.
abbrev named_in : (Bytes → Lstat) → Bytes → Bytes → Lstat
named_in lstat compiler_name component = lstat (component ++ (codes "/" ++ compiler_name))

-- dcc_trim_path cuts PATH behind the last component in which the compiler's name is a link with
-- distcc in its target and behind which the search only meets components with nothing of the name
-- or a link to something else, until PATH ends, with a colon or without, or a component has the name
-- as a program. If that component is the last of PATH, nothing is left. In front of it there are
-- components with nothing of the name or a link; all targets are shorter than the buffer.
pub trim_path-joined :
    (max_path : ℕ) (lstat : Bytes → Lstat) (compiler_name : Bytes) (before after : List Bytes)
    (component text rest : Bytes)
    → AllPlain before
    → AreSearched max_path (named_in lstat compiler_name) before
    → contains b':' component ≡ false
    → IsFront component text (joined after rest)
    → IsLink max_path true (named_in lstat compiler_name component)
    → AllPlain after
    → ArePassed max_path (named_in lstat compiler_name) after
    → IsEnd max_path (named_in lstat compiler_name) rest
    → trim_path max_path lstat (some (joined before text)) compiler_name
      ≡ ok (some (joined after rest))
unfolding trim_path
trim_path-joined max_path lstat compiler_name before after component text rest before_plain searched
      plain front linked after_plain passed ends =
    let named = named_in lstat compiler_name in
    let left = joined after rest in
    let (newpath, behind) = trim-searched max_path named before text none before_plain searched in
    behind
    ∙ (trim-front max_path named component text left newpath plain front
        ∙ (trim_round-link max_path named true component left newpath
              (search_on max_path named left) linked
            ∙ (trim-passed max_path named after rest (some left) after_plain passed
                ∙ trim-end max_path named rest (some left) ends)))
