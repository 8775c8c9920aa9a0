-- ===== src/Tests/Commands.antt =====
-- src/arg.c, src/argutil.c and src/strip.c on command lines.
use distcc.Prelude.{◌≡◌, ◌↔◌, refl, true, false, some, none, List, [], ◌∷◌, ◌++◌, arith}
use distcc.Prelude.Bytes.{codes, str_equal, str_startswith, str_endswith, strrchr}
use distcc.ExitCode.{ok, err, undefined, distcc_failed, ◌>>=◌}
use distcc.Filename.{
  find_extension, find_basename, source_ext, is_source, source_needs_local, output_from_source,
  output_from_base, set_file_extension,
}
use distcc.Arg.Accepts.{Accepts, scan_args_iff}
use distcc.Arg.Rescan.{scan_args-newargv}
use distcc.Arg.Local.{language, scan_args-IsLocal}
use distcc.Arg.Rewrite.Outputs.{scan_args-set_output}
use distcc.Arg.Rewrite.{set_output}
use distcc.Arg.Expand.{expand_preprocessor_options}
use distcc.Arg.Expand.Laws.{expanded, expand_preprocessor_options_lem}
use distcc.Arg.{
  Argv, Scanned, ScanState, free, word_action, scan_word, scan_loop, finish_scan, scan_args,
  empty_scan,
}
use distcc.Strip.{takes_word, joined_word, cpp_word, strip_local_args, strip_dasho}
use distcc.Strip.Laws.{Cleared, strip_dasho_lem}
use distcc.Strip.Items.{Item, separate_options, is_one, words, others, strip_local_args_lem}

-- cc -c dir/hello.c
abbrev args : Argv
args = codes "-c" ∷ codes "dir/hello.c" ∷ []

abbrev command : Argv
command = codes "cc" ∷ args

abbrev with_output : Argv
with_output = codes "cc" ∷ codes "-c" ∷ codes "dir/hello.c" ∷ codes "-o" ∷ codes "hello.o" ∷ []

abbrev scanned : Scanned
scanned = record {
  input_file = codes "dir/hello.c";
  output_file = codes "hello.o";
  newargv = with_output;
}

abbrev read_so_far : ScanState
read_so_far = record {
  seen_opt_c = true;
  seen_opt_s = false;
  input_file = some (codes "dir/hello.c");
  output_file = none;
}

scan_loop_runs : scan_loop false free command empty_scan ≡ ok read_so_far
unfolding scan_loop scan_word word_action is_source source_ext find_extension strrchr str_equal
    str_startswith str_endswith
scan_loop_runs = refl

scan_args_runs :
    (scan_args false command ≡ ok scanned)
    × (scan_args false with_output ≡ ok scanned)
    × (scan_args false (codes "cc" ∷ codes "-c" ∷ codes "a.c" ∷ codes "b.c" ∷ [])
        ≡ err distcc_failed)
    × (scan_args false (codes "cc" ∷ codes "-c" ∷ codes "a.c" ∷ codes "-MF" ∷ []) ≡ undefined)
    × (scan_args false (codes "cc" ∷ codes "-c" ∷ codes "a.c" ∷ codes "-o" ∷ []) ≡ undefined)
unfolding scan_args scan_loop scan_word finish_scan word_action is_source source_ext find_extension
    strrchr str_equal str_startswith str_endswith source_needs_local find_basename
    output_from_source output_from_base set_file_extension
scan_args_runs = (refl, refl, refl, refl, refl)

scan_args_iff_example : (scan_args false command ≡ ok scanned) ↔ Accepts false command scanned
scan_args_iff_example = scan_args_iff false (codes "cc") args scanned (omega arith)

scan_args-newargv_example : scan_args false with_output ≡ ok scanned
scan_args-newargv_example = scan_args-newargv false command scanned scan_args_runs.0

scan_args-IsLocal_example :
    scan_args false
      (codes "cc" ∷ codes "-c" ∷ codes "dir/hello.c" ∷ codes "-xc++" ∷ codes "-g" ∷ [])
    ≡ err distcc_failed
scan_args-IsLocal_example =
    scan_args-IsLocal false (codes "cc") (codes "-xc++") args (codes "-g" ∷ []) read_so_far
      (omega arith) scan_loop_runs (language (codes "c++"))

abbrev elsewhere : Argv
elsewhere = codes "cc" ∷ codes "-c" ∷ codes "dir/hello.c" ∷ codes "-o" ∷ codes "/tmp/x.o" ∷ []

scan_args-set_output_example :
    (set_output with_output (codes "/tmp/x.o") ≡ ok elsewhere)
    × (scan_args false elsewhere
        ≡ ok (record {
          input_file = codes "dir/hello.c";
          output_file = codes "/tmp/x.o";
          newargv = elsewhere;
        }))
unfolding str_startswith
scan_args-set_output_example =
    scan_args-set_output false (codes "cc") (codes "hello.o") (codes "/tmp/x.o") args [] read_so_far
      scanned (omega arith) refl scan_loop_runs scan_args_runs.1 (λ e. cc)

-- cc -c a.c b.o: the scan takes b.o for the output, and dcc_set_output does not find it.
bare_output : Argv
bare_output = codes "cc" ∷ codes "-c" ∷ codes "a.c" ∷ codes "b.o" ∷ []

bare_output_is_missed :
    (scan_args false bare_output
      ≡ ok (record { input_file = codes "a.c"; output_file = codes "b.o"; newargv = bare_output }))
    × (set_output bare_output (codes "x.o") ≡ err distcc_failed)
unfolding bare_output scan_args scan_loop scan_word finish_scan word_action is_source source_ext
    find_extension strrchr str_equal str_startswith str_endswith source_needs_local find_basename
    set_output
bare_output_is_missed = (refl, refl)

abbrev wp_command : Argv
wp_command = codes "cc" ∷ codes "-Wp,-MD,.deps/x.pp,-g" ∷ codes "-Wp,-MMD" ∷ codes "x.c" ∷ []

abbrev wp_regular : Argv
wp_regular =
    codes "cc"
    ∷ codes "-MD"
    ∷ codes "-MF"
    ∷ codes ".deps/x.pp"
    ∷ codes "-g"
    ∷ codes "-MMD"
    ∷ codes "x.c"
    ∷ []

expand_runs : expand_preprocessor_options wp_command ≡ some wp_regular
unfolding expand_preprocessor_options distcc.Arg.Expand.expand_word
    distcc.Arg.Expand.count_extra_args distcc.Arg.Expand.copy_extra_args distcc.Arg.Expand.strchr
    distcc.Arg.Expand.cut mathlib.Core.Option.bind str_equal str_startswith
expand_runs = refl

expand_preprocessor_options_lem_example :
    expand_preprocessor_options wp_command ≡ some (expanded wp_command)
expand_preprocessor_options_lem_example = expand_preprocessor_options_lem wp_command

-- cc -isystem inc -Dx -g x.c -MF
abbrev local_items : List Item
local_items =
    Item.other (codes "cc")
    ∷ Item.separate (codes "-isystem") (codes "inc")
    ∷ Item.single (codes "-Dx")
    ∷ Item.other (codes "-g")
    ∷ Item.other (codes "x.c")
    ∷ []

strip_local_args_lem_example :
    (strip_local_args (words local_items ++ (codes "-MMD" ∷ []))
      ≡ others local_items ++ strip_local_args (codes "-MMD" ∷ []))
    × (is_one separate_options (codes "-MF") ≡ true
        → strip_local_args (words local_items ++ (codes "-MF" ∷ [])) ≡ others local_items ++ [])
    × (strip_local_args [] ≡ [])
unfolding str_equal str_startswith
strip_local_args_lem_example =
    strip_local_args_lem local_items (codes "-MMD" ∷ []) (codes "-MF")
      ((refl, refl, refl), (refl, ((refl, refl), ((refl, refl, refl), ((refl, refl, refl), tt)))))

strip_local_args_runs : strip_local_args wp_regular ≡ codes "cc" ∷ codes "-g" ∷ codes "x.c" ∷ []
unfolding strip_local_args takes_word joined_word cpp_word str_equal str_startswith
strip_local_args_runs = refl

strip_dasho_lem_example :
    Cleared (strip_dasho (codes "-g" ∷ []))
    × (strip_dasho command ≡ ok command)
    × (strip_dasho (codes "cc" ∷ codes "-c" ∷ codes "dir/hello.c" ∷ codes "-oy.o" ∷ codes "-g" ∷ [])
        ≡ (strip_dasho (codes "-g" ∷ []) >>= λ to. ok (command ++ to)))
    × (strip_dasho (
          codes "cc"
          ∷ codes "-c"
          ∷ codes "dir/hello.c"
          ∷ codes "-o"
          ∷ codes "x.o"
          ∷ codes "-g"
          ∷ [])
        ≡ (strip_dasho (codes "-g" ∷ []) >>= λ to. ok (command ++ to)))
    × (strip_dasho (codes "cc" ∷ codes "-c" ∷ codes "dir/hello.c" ∷ codes "-o" ∷ []) ≡ undefined)
unfolding str_startswith
strip_dasho_lem_example =
    strip_dasho_lem command (codes "-g" ∷ []) (codes "x.o") b'y' (codes ".o") refl
