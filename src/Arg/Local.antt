-- ===== src/Arg/Local.antt =====
-- The words that make dcc_scan_args of src/arg.c keep a compilation local.
use distcc.Prelude.{Bool, false, ◌≡◌, ◌≢◌, refl, ℕ, [], ◌∷◌, ◌++◌, ◌==◌, arith}
use distcc.Prelude.Bytes.{Bytes, codes, first, str_equal, str_startswith, strstr-append}
use distcc.ExitCode.{ok, err, distcc_failed}
use distcc.Arg.Rescan.{scan_loop-append}
use distcc.Arg.{
  Argv, ScanState, free, must_be_local, word_action, scan_word, scan_loop, scan_args, empty_scan,
}

-- What stands behind -M is neither D, MD, G nor P, and does not begin with F, T or Q.
abbrev pub IsOtherRule : Bytes → Type 0
IsOtherRule more =
    (str_equal more (codes "D") ≡ false)
    × (str_equal more (codes "MD") ≡ false)
    × (str_equal more (codes "G") ≡ false)
    × (str_equal more (codes "P") ≡ false)
    × (str_startswith (codes "F") more ≡ false)
    × (str_startswith (codes "T") more ≡ false)
    × (str_startswith (codes "Q") more ≡ false)

-- The options that the source's comments and log messages name as local.
pub data IsLocal : Bytes → Type 0 where
  -- the preprocessor alone
  preprocess : IsLocal (codes "-E")
  -- and -M with anything else than what is distributed
  dependencies : (more : Bytes) → IsOtherRule more → IsLocal (codes "-M" ++ more)
  -- code for this machine
  march_native : IsLocal (codes "-march=native")
  mtune_native : IsLocal (codes "-mtune=native")
  specs : (file : Bytes) → IsLocal (codes "-specs=" ++ file)
  -- extra output files
  profile_arcs : IsLocal (codes "-fprofile-arcs")
  test_coverage : IsLocal (codes "-ftest-coverage")
  coverage : IsLocal (codes "--coverage")
  repository : IsLocal (codes "-frepo")
  dump : (letters : Bytes) → IsLocal (codes "-dr" ++ letters)
  listing : (before after : Bytes) → IsLocal (codes "-Wa," ++ (before ++ (codes ",-a" ++ after)))
  first_listing : (after : Bytes) → IsLocal (codes "-Wa,-a" ++ after)
  assembler_dependencies :
      (before after : Bytes) → IsLocal (codes "-Wa," ++ (before ++ (codes "--MD" ++ after)))
  -- an explicit language
  language : (name : Bytes) → IsLocal (codes "-x" ++ name)

-- A word that does not begin with a byte is not that byte.
no_start : (c : ℕ) (s : Bytes) → str_startswith (c ∷ []) s ≡ false → str_equal s (c ∷ []) ≡ false
unfolding str_equal str_startswith
no_start c [] h = refl
no_start c (d ∷ s) h = ground arith

IsLocal-action : (assemble : Bool) {a : Bytes} → IsLocal a → word_action assemble a ≡ must_be_local
unfolding word_action str_equal str_startswith
IsLocal-action assemble preprocess = refl
IsLocal-action assemble (dependencies more (d, md, g, p, f, t, q)) =
    rw (d, md, g, p, f, t, q, no_start b'F' more f, no_start b'T' more t, no_start b'Q' more q) refl
IsLocal-action assemble march_native = refl
IsLocal-action assemble mtune_native = refl
IsLocal-action assemble (specs file) = refl
IsLocal-action assemble profile_arcs = refl
IsLocal-action assemble test_coverage = refl
IsLocal-action assemble coverage = refl
IsLocal-action assemble repository = refl
IsLocal-action assemble (dump letters) = refl
IsLocal-action assemble (listing before after) =
    ground (arith, strstr-append (codes "-Wa," ++ before) (codes ",-a") after)
IsLocal-action assemble (first_listing after) =
    ground (arith, strstr-append (codes "-Wa") (codes ",-a") after)
IsLocal-action assemble (assembler_dependencies before after) =
    ground (arith, strstr-append (codes "-Wa," ++ before) (codes "--MD") after)
IsLocal-action assemble (language name) = refl

-- With a compiler that does not begin with a dash, dcc_scan_args fails with EXIT_DISTCC_FAILED where
-- one of these options stands behind words that the loop has read without a claim on it, whatever
-- follows: -E; -M with anything behind it but D, MD, G, P, or what begins with F, T or Q;
-- -march=native; -mtune=native; -specs=FILE; -fprofile-arcs; -ftest-coverage; --coverage; -frepo; a
-- word that begins with -dr or -x; and a word that begins with -Wa, and has ,-a or --MD in it.
pub scan_args-IsLocal :
    (assemble : Bool) (compiler a : Bytes) (args post : Argv) (s : ScanState)
    → first compiler ≢ b'-'
    → scan_loop assemble free (compiler ∷ args) empty_scan ≡ ok s
    → IsLocal a
    → scan_args assemble (compiler ∷ (args ++ (a ∷ post))) ≡ err distcc_failed
unfolding scan_args
scan_args-IsLocal assemble compiler a args post s ne h l =
    let dash : (first compiler == b'-') ≡ false = ground arith in
    rw dash (
      rw (scan_loop-append assemble free (compiler ∷ args) (a ∷ post) empty_scan s h)
        (unfold scan_loop scan_word in rw (IsLocal-action assemble l)))
