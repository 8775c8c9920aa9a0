-- ===== src/Arg/Expand.antt =====
-- dcc_expand_preprocessor_options of src/arg.c, which takes "-Wp,…" words apart. `none` stands for a
-- loop that is out of fuel, for NULL + 1, and for a failed assertion.
pub mod Fields
pub mod Laws
use mathlib.Core.Option
use distcc.Prelude.{
  ℕ, zero, suc, ◌+◌, Bool, true, false, ◌||◌, Option, none, some, List, [], ◌∷◌, ◌++◌, ◌==◌,
  if◌then◌else◌, length, drop,
}
use distcc.Prelude.Bytes.{Bytes, codes, str_equal, str_startswith}
use distcc.Arg.{Argv}

-- strchr(s, ','): the string from the first comma on.
unfoldable pub strchr : Bytes → Option Bytes
strchr [] = none
strchr (c ∷ s) = if c == b',' then some (c ∷ s) else strchr s

-- The string with a NUL written over its first comma.
unfoldable pub cut : Bytes → Bytes
cut [] = []
cut (c ∷ s) = if c == b',' then [] else c ∷ cut s

-- `opt` is the text behind the comma that the round starts at.
unfoldable pub count_extra_args : ℕ → Bytes → Option ℕ
count_extra_args zero opt = none
count_extra_args (suc fuel) opt =
    if str_startswith (codes "-MD,") opt || str_startswith (codes "-MMD,") opt
    then elim (strchr opt) [
      | none ↦ none
      | some comma ↦ elim (strchr (drop 1 comma)) [
        | none ↦ some 3
        | some next ↦ Option.map (λ n. 3 + n) (count_extra_args fuel (drop 1 next))
      ]
    ]
    else elim (strchr opt) [
      | none ↦ some 1
      | some next ↦ Option.map (λ n. 1 + n) (count_extra_args fuel (drop 1 next))
    ]

unfoldable pub copy_extra_args : ℕ → Bytes → Option Argv
copy_extra_args zero opt = none
copy_extra_args (suc fuel) opt =
    if str_equal (cut opt) (codes "-MD") || str_equal (cut opt) (codes "-MMD")
    then elim (strchr opt) [
      | none ↦ some (cut opt ∷ [])
      | some comma ↦ elim (strchr (drop 1 comma)) [
        | none ↦ some (cut opt ∷ codes "-MF" ∷ cut (drop 1 comma) ∷ [])
        | some next ↦
            Option.map (λ ws. cut opt ∷ codes "-MF" ∷ cut (drop 1 comma) ∷ ws)
              (copy_extra_args fuel (drop 1 next))
      ]
    ]
    else elim (strchr opt) [
      | none ↦ some (cut opt ∷ [])
      | some next ↦ Option.map (λ ws. cut opt ∷ ws) (copy_extra_args fuel (drop 1 next))
    ]

-- assert(i == extra_args)
check_count : ℕ → Argv → Option Argv
check_count n ws = if length ws == n then some ws else none

-- One "-Wp,…" word: the words that take its place. Each round takes a byte of it at least, but the
-- last.
unfoldable pub expand_word : Bytes → Option Argv
unfolding check_count
expand_word a =
    let opt = drop 4 a in
    Option.bind (count_extra_args (length a) opt)
      λ n. Option.bind (copy_extra_args (length a) opt) λ ws. check_count n ws

-- The loop goes on behind the words that it has put in.
unfoldable pub expand_preprocessor_options : Argv → Option Argv
expand_preprocessor_options [] = some []
expand_preprocessor_options (a ∷ argv) =
    let rest = expand_preprocessor_options argv in
    if str_startswith (codes "-Wp,") a
    then Option.bind (expand_word a) (λ ws. Option.map (λ r. ws ++ r) rest)
    else Option.map (λ r. a ∷ r) rest
