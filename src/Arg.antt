-- ===== src/Arg.antt =====
-- src/arg.c and src/argutil.c: reading and rewriting a compiler's command line. An argv is the list
-- of its words, without the closing NULL; a read behind that NULL is `undefined`. Allocation is
-- taken to succeed, and the calls that only log are left out.
pub mod Items
pub mod Grammar
pub mod Accepts
pub mod Rescan
pub mod Local
pub mod Rewrite
pub mod Expand
use distcc.Prelude.{
  ℕ, zero, suc, ◌+◌, Bool, true, false, ◌&&◌, ◌||◌, not, Option, none, some, List, [], ◌∷◌, ◌++◌,
  ◌==◌, if◌then◌else◌, length, drop,
}
use distcc.Prelude.Bytes.{
  Bytes, codes, first, second, str_equal, str_startswith, str_endswith, strstr,
}
use distcc.ExitCode.{Result, ok, err, exits, undefined, distcc_failed, bad_arguments, ◌>>=◌}
use distcc.Filename.{is_source, source_needs_local, output_from_source}

abbrev pub Argv : Type 0
Argv = List Bytes

-- What the loop of dcc_scan_args does at a word: the branches of its chain of tests.
pub data Action : Type 0 where
  -- `return EXIT_DISTCC_FAILED`
  must_be_local : Action
  -- nothing
  carry_on : Action
  -- `i++`
  skip_next : Action
  set_s set_c : Action
  -- `a = argv[++i]; goto GOT_OUTPUT`
  output_next : Action
  -- `a += 2; goto GOT_OUTPUT`
  output_joined : Action
  source object : Action

option_action : Bytes → Action
option_action a =
    if str_equal a (codes "-E")
    then must_be_local
    else if str_equal a (codes "-MD") || str_equal a (codes "-MMD")
    then carry_on
    else if str_equal a (codes "-MG") || str_equal a (codes "-MP")
    then carry_on
    else if str_equal a (codes "-MF") || str_equal a (codes "-MT") || str_equal a (codes "-MQ")
    then skip_next
    else if str_startswith (codes "-MF") a
        || str_startswith (codes "-MT") a
        || str_startswith (codes "-MQ") a
    then carry_on
    else if second a == b'M'
    then must_be_local
    else if str_equal a (codes "-march=native")
    then must_be_local
    else if str_equal a (codes "-mtune=native")
    then must_be_local
    else if str_startswith (codes "-Wa,") a
    then (if strstr a (codes ",-a") || strstr a (codes "--MD") then must_be_local else carry_on)
    else if str_startswith (codes "-specs=") a
    then must_be_local
    else if str_equal a (codes "-S")
    then set_s
    else if str_equal a (codes "-fprofile-arcs")
        || str_equal a (codes "-ftest-coverage")
        || str_equal a (codes "--coverage")
    then must_be_local
    else if str_equal a (codes "-frepo")
    then must_be_local
    else if str_startswith (codes "-x") a
    then must_be_local
    else if str_startswith (codes "-dr") a
    then must_be_local
    else if str_equal a (codes "-c")
    then set_c
    else if str_equal a (codes "-o")
    then output_next
    else if str_startswith (codes "-o") a
    then output_joined
    else carry_on

unfoldable pub word_action : Bool → Bytes → Action
unfolding option_action
word_action assemble a =
    if first a == b'-'
    then option_action a
    else if is_source assemble a
    then source
    else if str_endswith (codes ".o") a
    then object
    else carry_on

-- The variables of the loop.
pub record ScanState : Type 0 where
  pub seen_opt_c : Bool
  pub seen_opt_s : Bool
  pub input_file : Option Bytes
  pub output_file : Option Bytes

-- What the word before has claimed of this one: nothing, that it is skipped (`i++`), or that it is
-- the output (`argv[++i]`).
pub data Claim : Type 0 where
  free skipped output : Claim

got_output : Bytes → Option Bytes → ScanState → Result (Claim × ScanState)
got_output a (some o) s = err distcc_failed
got_output a none s = ok (free, record s { output_file = some a })

got_input : Bytes → Option Bytes → ScanState → Result (Claim × ScanState)
got_input a (some i) s = err distcc_failed
got_input a none s = ok (free, record s { input_file = some a })

unfoldable pub act : Action → Bytes → ScanState → Result (Claim × ScanState)
unfolding got_output got_input
act must_be_local a s = err distcc_failed
act carry_on a s = ok (free, s)
act skip_next a s = ok (skipped, s)
act set_s a s = ok (free, record s { seen_opt_s = true })
act set_c a s = ok (free, record s { seen_opt_c = true })
act output_next a s = ok (output, s)
act output_joined a s = got_output (drop 2 a) s.output_file s
act source a s = got_input a s.input_file s
act object a s = got_output a s.output_file s

-- One word.
unfoldable pub scan_word : Bool → Claim → Bytes → ScanState → Result (Claim × ScanState)
unfolding act got_output
scan_word assemble free a s = act (word_action assemble a) a s
scan_word assemble skipped a s = ok (free, s)
scan_word assemble output a s = got_output a s.output_file s

-- At the closing NULL. After a skip the index has run past it, and the loop reads on from there.
-- After a bare `-o` the NULL is taken for the output, and then the same happens.
end_of_scan : Claim → Option Bytes → ScanState → Result ScanState
end_of_scan free o s = ok s
end_of_scan skipped o s = undefined
end_of_scan output (some o) s = err distcc_failed
end_of_scan output none s = undefined

unfoldable pub scan_loop : Bool → Claim → Argv → ScanState → Result ScanState
unfolding end_of_scan
scan_loop assemble claim [] s = end_of_scan claim s.output_file s
scan_loop assemble claim (a ∷ argv) s = do
  (claim', s') ← scan_word assemble claim a s
  scan_loop assemble claim' argv s'

-- The results of dcc_scan_args through its pointers.
pub record Scanned : Type 0 where
  pub input_file : Bytes
  pub output_file : Bytes
  pub newargv : Argv

abbrev pub argv_append : Argv → Bytes → Argv
argv_append argv toadd = argv ++ (toadd ∷ [])

-- `if (dcc_output_from_source(…)) return EXIT_DISTCC_FAILED`
or_failed : Result Bytes → Result Bytes
or_failed (ok a) = ok a
or_failed _ = err distcc_failed

-- The output, and the argv with `-o` added where no output was seen.
choose_output : Argv → ScanState → Bytes → Option Bytes → Result Scanned
choose_output argv s input (some out) =
    ok (record { input_file = input; output_file = out; newargv = argv })
choose_output argv s input none = do
  ofile ← or_failed (output_from_source input (if s.seen_opt_s then codes ".s" else codes ".o"))
  ok (record {
    input_file = input;
    output_file = ofile;
    newargv = argv_append (argv_append argv (codes "-o")) ofile;
  })

not_stdout : Scanned → Result Scanned
not_stdout r = if str_equal r.output_file (codes "-") then err distcc_failed else ok r

with_input : Argv → ScanState → Option Bytes → Result Scanned
with_input argv s none = err distcc_failed
with_input argv s (some input) =
    if source_needs_local input
    then err distcc_failed
    else (do r ← choose_output argv s input s.output_file; not_stdout r)

-- From the end of the loop on.
unfoldable pub finish_scan : Argv → ScanState → Result Scanned
unfolding choose_output not_stdout with_input or_failed
finish_scan argv s =
    if not s.seen_opt_c && not s.seen_opt_s
    then err distcc_failed
    else with_input argv s s.input_file

abbrev pub empty_scan : ScanState
empty_scan = record {
  seen_opt_c = false;
  seen_opt_s = false;
  input_file = none;
  output_file = none;
}

unfoldable pub scan_args : Bool → Argv → Result Scanned
scan_args assemble [] = undefined
scan_args assemble (compiler ∷ argv) = if first compiler == b'-' then exits bad_arguments else (do
  s ← scan_loop assemble free (compiler ∷ argv) empty_scan
  finish_scan (compiler ∷ argv) s)
