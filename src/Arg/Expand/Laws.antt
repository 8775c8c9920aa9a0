-- ===== src/Arg/Expand/Laws.antt =====
-- The result of dcc_expand_preprocessor_options of src/arg.c.
use mathlib.Core.Option
use distcc.Prelude.{
  ℕ, zero, suc, ◌-◌, ◌≤◌, ◌<◌, Bool, true, false, not, ◌≡◌, inl, inr, refl, some, List, [], ◌∷◌,
  ◌++◌, arith, ◌==◌, if◌then◌else◌, length, drop, all, all-append, Bool-cases,
}
use distcc.Prelude.Bytes.{Bytes, codes, contains, str_startswith}
use distcc.Arg.{Argv}
use distcc.Arg.Expand.Fields.{fields, push, regular, copy_regular, count_regular}
use distcc.Arg.Expand.{expand_word, expand_preprocessor_options}

length-drop : (n : ℕ) (s : Bytes) → length (drop n s) ≡ length s - n
length-drop zero s = omega arith
length-drop (suc n) [] = omega arith
length-drop (suc n) (c ∷ s) = omega (arith, length-drop n s)

length-str_startswith :
    (head worm : Bytes) → str_startswith head worm ≡ true → length head ≤ length worm
unfolding str_startswith
length-str_startswith [] worm h = omega arith
length-str_startswith (x ∷ head) [] h = cc
length-str_startswith (x ∷ head) (y ∷ worm) h = ground (arith, length-str_startswith head worm)

-- The assertion that the words counted are the words copied holds, and the fuel is enough.
expand_word_lem :
    (a : Bytes)
    → str_startswith (codes "-Wp,") a ≡ true
    → expand_word a ≡ some (regular (fields (drop 4 a)))
unfolding expand_word Option.bind
expand_word_lem a h =
    let less : length (drop 4 a) < length a =
      omega (arith, length-drop 4 a, length-str_startswith (codes "-Wp,") a h) in
    rw (count_regular (length a) (drop 4 a) less, copy_regular (length a) (drop 4 a) less)
      (ground arith)

abbrev is_wp : Bytes → Bool
is_wp a = str_startswith (codes "-Wp,") a

-- The description by fields, word by word.
pub expanded : Argv → Argv
expanded [] = []
expanded (a ∷ argv) =
    let rest = expanded argv in if is_wp a then regular (fields (drop 4 a)) ++ rest else a ∷ rest

-- dcc_expand_preprocessor_options runs to its end with its assertion satisfied, keeps the other
-- words in their order, and puts the regular options in the place of each "-Wp,…" word.
pub expand_preprocessor_options_lem :
    (argv : Argv) → expand_preprocessor_options argv ≡ some (expanded argv)
unfolding expand_preprocessor_options expanded Option.bind
expand_preprocessor_options_lem [] = refl
expand_preprocessor_options_lem (a ∷ argv) = elim (Bool-cases (is_wp a)) [
  | inl w ↦ rw (w, expand_word_lem a w, expand_preprocessor_options_lem argv)
  | inr n ↦ rw (n, expand_preprocessor_options_lem argv)
]

abbrev no_comma : Bytes → Bool
no_comma f = not (contains b',' f)

push-no_comma :
    (c : ℕ) (fs : List Bytes)
    → (c == b',') ≡ false
    → all no_comma fs ≡ true
    → all no_comma (push c fs) ≡ true
unfolding push contains
push-no_comma c [] n h = ground arith
push-no_comma c (f ∷ fs) n h = ground arith

fields-no_comma : (s : Bytes) → all no_comma (fields s) ≡ true
unfolding fields contains
fields-no_comma [] = refl
fields-no_comma (c ∷ s) = elim (Bool-cases (c == b',')) [
  | inl e ↦ rw e (fields-no_comma s)
  | inr n ↦ rw n (push-no_comma c (fields s) n (fields-no_comma s))
]

regular-no_comma : (fs : List Bytes) → all no_comma fs ≡ true → all no_comma (regular fs) ≡ true
unfolding regular contains
regular-no_comma [] h = refl
regular-no_comma (f ∷ []) h = h
regular-no_comma (f ∷ g ∷ fs) h = ground (arith, regular-no_comma fs, regular-no_comma (g ∷ fs))

contains-str_startswith :
    (c : ℕ) (head worm : Bytes)
    → str_startswith head worm ≡ true
    → contains c head ≡ true
    → contains c worm ≡ true
unfolding str_startswith contains
contains-str_startswith c [] worm h k = cc
contains-str_startswith c (x ∷ head) [] h k = cc
contains-str_startswith c (x ∷ head) (y ∷ worm) h k =
    ground (arith, contains-str_startswith c head worm)

no_comma-no_wp : (ws : Argv) → all no_comma ws ≡ true → all (λ a. not (is_wp a)) ws ≡ true
unfolding contains
no_comma-no_wp [] h = refl
no_comma-no_wp (w ∷ ws) h =
    ground (arith, contains-str_startswith b',' (codes "-Wp,") w, no_comma-no_wp ws)

expanded-no_wp : (argv : Argv) → all (λ a. not (is_wp a)) (expanded argv) ≡ true
unfolding expanded
expanded-no_wp [] = refl
expanded-no_wp (a ∷ argv) = elim (Bool-cases (is_wp a)) [
  | inl w ↦ rw w (
      all-append _ _ (expanded argv)
        (no_comma-no_wp _ (regular-no_comma _ (fields-no_comma (drop 4 a)))) (expanded-no_wp argv))
  | inr n ↦ rw n (ground (arith, expanded-no_wp argv))
]

-- No word of the result begins with "-Wp,", so that nothing else has to take such words apart.
expand_preprocessor_options-no_wp :
    (argv result : Argv)
    → expand_preprocessor_options argv ≡ some result
    → all (λ a. not (is_wp a)) result ≡ true
expand_preprocessor_options-no_wp argv result h =
    let e : result ≡ expanded argv = cc (expand_preprocessor_options_lem argv) in
    rw e (expanded-no_wp argv)
