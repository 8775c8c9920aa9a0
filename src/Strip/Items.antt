-- ===== src/Strip/Items.antt =====
-- The words that dcc_strip_local_args of src/strip.c takes out of an argv, by lists of options.
use distcc.Prelude.{Bool, true, false, ◌||◌, ◌≡◌, refl, ap, ◌∙◌, List, [], ◌∷◌, ◌++◌, arith}
use distcc.Prelude.Bytes.{Bytes, codes, str_equal, str_startswith}
use distcc.Arg.{Argv}
use distcc.Strip.{takes_word, joined_word, cpp_word, strip_local_args}

abbrev pub separate_options : List Bytes
separate_options =
    codes "-D"
    ∷ codes "-I"
    ∷ codes "-U"
    ∷ codes "-L"
    ∷ codes "-l"
    ∷ codes "-MF"
    ∷ codes "-MT"
    ∷ codes "-MQ"
    ∷ codes "-include"
    ∷ codes "-imacros"
    ∷ codes "-iprefix"
    ∷ codes "-iwithprefix"
    ∷ codes "-isystem"
    ∷ codes "-iwithprefixbefore"
    ∷ codes "-idirafter"
    ∷ []

abbrev pub joined_options : List Bytes
joined_options =
    codes "-Wp,"
    ∷ codes "-Wl,"
    ∷ codes "-D"
    ∷ codes "-U"
    ∷ codes "-I"
    ∷ codes "-l"
    ∷ codes "-L"
    ∷ codes "-MF"
    ∷ codes "-MT"
    ∷ codes "-MQ"
    ∷ []

abbrev pub cpp_options : List Bytes
cpp_options =
    codes "-undef"
    ∷ codes "-nostdinc"
    ∷ codes "-nostdinc++"
    ∷ codes "-MD"
    ∷ codes "-MMD"
    ∷ codes "-MG"
    ∷ codes "-MP"
    ∷ []

-- The word is one of the options, or begins with one of them.
abbrev pub is_one : List Bytes → Bytes → Bool
is_one [] a = false
is_one (option ∷ options) a = str_equal option a || is_one options a

abbrev pub begins_with_one : List Bytes → Bytes → Bool
begins_with_one [] a = false
begins_with_one (option ∷ options) a = str_startswith option a || begins_with_one options a

-- An option and the word behind it, an option that is one word, or another word.
pub data Item : Type 0 where
  separate : Bytes → Bytes → Item
  single : Bytes → Item
  other : Bytes → Item

abbrev IsItem : Item → Type 0
IsItem (separate option argument) = is_one separate_options option ≡ true
IsItem (single option) =
    (is_one separate_options option ≡ false)
    × ((begins_with_one joined_options option || is_one cpp_options option) ≡ true)
IsItem (other word) =
    (is_one separate_options word ≡ false)
    × (begins_with_one joined_options word ≡ false)
    × (is_one cpp_options word ≡ false)

abbrev pub AllItems : List Item → Type 0
AllItems [] = Unit {0}
AllItems (item ∷ items) = IsItem item × AllItems items

-- The words of the items.
abbrev pub words : List Item → Argv
words [] = []
words (separate option argument ∷ items) = option ∷ argument ∷ words items
words (single option ∷ items) = option ∷ words items
words (other word ∷ items) = word ∷ words items

-- Those that are no options of the lists.
abbrev pub others : List Item → Argv
others [] = []
others (separate option argument ∷ items) = others items
others (single option ∷ items) = others items
others (other word ∷ items) = word ∷ others items

or-false : (b : Bool) → (b || false) ≡ b
or-false true = refl
or-false false = refl

or_assoc : (b c d : Bool) → ((b || c) || d) ≡ (b || (c || d))
or_assoc true c d = refl
or_assoc false c d = refl

takes_word-is_one : (a : Bytes) → is_one separate_options a ≡ takes_word a
unfolding takes_word
takes_word-is_one a = simp (takes_word, or_assoc, or-false)

joined_word-begins : (a : Bytes) → begins_with_one joined_options a ≡ joined_word a
unfolding joined_word
joined_word-begins a = simp (joined_word, or_assoc, or-false)

cpp_word-is_one : (a : Bytes) → is_one cpp_options a ≡ cpp_word a
unfolding cpp_word
cpp_word-is_one a = simp (cpp_word, or_assoc, or-false)

strip-separate :
    (a b : Bytes) (from : Argv)
    → takes_word a ≡ true
    → strip_local_args (a ∷ b ∷ from) ≡ strip_local_args from
unfolding strip_local_args
strip-separate a b from takes = rw takes refl

strip-bare : (a : Bytes) → takes_word a ≡ true → strip_local_args (a ∷ []) ≡ []
unfolding strip_local_args
strip-bare a takes = rw takes refl

strip-single :
    (a : Bytes) (from : Argv)
    → takes_word a ≡ false
    → (joined_word a || cpp_word a) ≡ true
    → strip_local_args (a ∷ from) ≡ strip_local_args from
unfolding strip_local_args
strip-single a [] alone drops = ground arith
strip-single a (b ∷ from) alone drops = ground arith

strip-other :
    (a : Bytes) (from : Argv)
    → takes_word a ≡ false
    → joined_word a ≡ false
    → cpp_word a ≡ false
    → strip_local_args (a ∷ from) ≡ a ∷ strip_local_args from
unfolding strip_local_args
strip-other a [] alone plain kept = rw (alone, plain, kept) refl
strip-other a (b ∷ from) alone plain kept = rw (alone, plain, kept) refl

strip-items :
    (items : List Item) (from : Argv)
    → AllItems items
    → strip_local_args (words items ++ from) ≡ others items ++ strip_local_args from
strip-items [] from grammar = refl
strip-items (separate option argument ∷ items) from (takes, more) =
    strip-separate option argument (words items ++ from) (rw (takes_word-is_one option) at takes)
    ∙ strip-items items from more
strip-items (single option ∷ items) from ((alone, drops), more) =
    strip-single option (words items ++ from) (rw (takes_word-is_one option) at alone)
      (rw (joined_word-begins option, cpp_word-is_one option) at drops)
    ∙ strip-items items from more
strip-items (other word ∷ items) from ((alone, plain, kept), more) =
    strip-other word (words items ++ from) (rw (takes_word-is_one word) at alone)
      (rw (joined_word-begins word) at plain) (rw (cpp_word-is_one word) at kept)
    ∙ ap (λ (t : Argv). word ∷ t) (strip-items items from more)

-- Of an argv of items, dcc_strip_local_args leaves the words that are neither an option of the lists
-- nor the word behind one that is separate from its argument, in their order; whatever stands behind
-- the items is stripped likewise, and such an option that is the last word goes alone.
pub strip_local_args_lem :
    (items : List Item) (from : Argv) (last : Bytes)
    → AllItems items
    → (strip_local_args (words items ++ from) ≡ others items ++ strip_local_args from)
      × (is_one separate_options last ≡ true
          → strip_local_args (words items ++ (last ∷ [])) ≡ others items ++ [])
      × (strip_local_args [] ≡ [])
strip_local_args_lem items from last grammar = (
  strip-items items from grammar,
  λ takes.
      strip-items items (last ∷ []) grammar
      ∙ ap (λ t. others items ++ t) (strip-bare last (rw (takes_word-is_one last) at takes)),
  unfold strip_local_args in refl,
)
