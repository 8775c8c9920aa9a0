-- ===== src/Argutil.antt =====
-- src/argutil.c: searching, measuring, copying and printing an argv.
use distcc.Prelude.{
  ℕ, ◌+◌, ◌≤◌, Bool, true, false, ◌||◌, ◌≡◌, inl, inr, refl, [], ◌∷◌, ◌++◌, arith, if◌then◌else◌,
  length, length-append,
}
use distcc.Prelude.Bytes.{Bytes, codes, contains, str_equal}
use distcc.Arg.{Argv, Scanned, scan_args}
use distcc.ExitCode.{ok}
use distcc.Arg.Accepts.{scan_args-out}

unfoldable argv_search : Argv → Bytes → Bool
argv_search [] needle = false
argv_search (a ∷ argv) needle = str_equal a needle || argv_search argv needle

unfoldable argv_len : Argv → ℕ
argv_len [] = 0
argv_len (a ∷ argv) = argv_len argv + 1

-- The pointers that dcc_copy_argv allocates: the words, the NULL, and `delta` to spare.
abbrev copy_slots : Argv → ℕ → ℕ
copy_slots argv delta = argv_len argv + 1 + delta

-- strpbrk(a, set) != NULL
unfoldable strpbrk : Bytes → Bytes → Bool
strpbrk [] set = false
strpbrk (c ∷ a) set = contains c set || strpbrk a set

word_tostr : Bytes → Bytes
word_tostr a =
    let needs_quotes = strpbrk a (codes " \t\n\"';") in
    if needs_quotes then b'"' ∷ (a ++ (b'"' ∷ [])) else a

-- `start` is i == 0.
tostr_from : Bool → Argv → Bytes
tostr_from start [] = []
tostr_from start (a ∷ argv) =
    (if start then [] else b' ' ∷ []) ++ (word_tostr a ++ tostr_from false argv)

unfoldable argv_tostr : Argv → Bytes
unfolding tostr_from word_tostr strpbrk
argv_tostr argv = tostr_from true argv

-- What dcc_argv_tostr allocates for the text and its NUL.
unfoldable tostr_size : Argv → ℕ
tostr_size [] = 1
tostr_size (a ∷ argv) = length a + 3 + tostr_size argv

argv_len-length : (argv : Argv) → argv_len argv ≡ length argv
unfolding argv_len
argv_len-length [] = refl
argv_len-length (a ∷ argv) = omega (arith, argv_len-length argv)

tostr_from-size :
    (start : Bool) (argv : Argv) → length (tostr_from start argv) + 1 ≤ tostr_size argv
unfolding tostr_from word_tostr tostr_size
tostr_from-size start [] = omega arith
tostr_from-size start (a ∷ argv) = ground (
  arith,
  tostr_from-size false argv,
  length-append (if start then [] else b' ' ∷ []) (word_tostr a ++ tostr_from false argv),
  length-append (word_tostr a) (tostr_from false argv),
  length-append a (b'"' ∷ []),
)

-- The text that dcc_argv_tostr writes and its NUL fit in what it has allocated.
argv_tostr-fits : (argv : Argv) → length (argv_tostr argv) + 1 ≤ tostr_size argv
unfolding argv_tostr
argv_tostr-fits argv = tostr_from-size true argv

-- The two words that dcc_scan_args may append, and the NULL, fit in the copy that it has made with
-- two spare pointers.
newargv-fits :
    (assemble : Bool) (argv : Argv) (r : Scanned)
    → scan_args assemble argv ≡ ok r
    → argv_len r.newargv + 1 ≤ copy_slots argv 2
newargv-fits assemble argv r h = elim (scan_args-out assemble argv r h) [
  | inl same ↦ rw (same, argv_len-length) (omega arith)
  | inr more ↦
      rw (more, argv_len-length)
        (omega (arith, argv_len-length argv, length-append argv (codes "-o" ∷ r.output_file ∷ [])))
]
