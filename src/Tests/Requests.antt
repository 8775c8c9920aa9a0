-- ===== src/Tests/Requests.antt =====
-- The requests of src/remote.c and src/serve.c, with all their parts.
use distcc.Prelude.{◌≡◌, refl, false, none, some, Option, [], ◌∷◌, map, arith}
use distcc.Prelude.Bytes.{Bytes, codes, str_equal, str_startswith, str_endswith, strrchr}
use distcc.ExitCode.{ExitCode, ok}
use distcc.Effects.{created, linked}
use distcc.Filename.{find_extension, source_ext, is_source, source_needs_local, find_basename}
use distcc.Arg.{Argv, Scanned, scan_word, word_action, scan_loop, finish_scan, scan_args}
use distcc.Arg.Rewrite.{set_input, set_output}
use distcc.Hosts.{Hostdef, lzo1x, on_client, on_server, get_features_from_protover}
use distcc.Hosts.Parser.{new_host}
use distcc.Bulk.{file}
use distcc.Many.Items.{fname_of}
use distcc.Serve.{
  matching, rooted, tweak_include_arguments, tweak_input_argument, skip_slashes,
  convert_mt_to_dotd_target, with_word, tweak_arguments,
}
use distcc.Serve.Request.{Temps, request, run_job}
use distcc.Serve.Laws.{Prepares, run_job-on_client, run_job-on_server}
use distcc.Tests.Transfer.{marked, marked-IsLzo, open_disk, items, included}

abbrev pub temps : Temps
temps = record {
  temp_dir = codes "/tmp/d";
  temp_i = codes "/tmp/1.i";
  temp_o = codes "/tmp/2.o";
  deps_fname = codes "/tmp/3.d";
}

abbrev pub command : Argv
command = codes "cc" ∷ codes "-c" ∷ codes "/a.c" ∷ codes "-o" ∷ codes "a.o" ∷ codes "-I/inc" ∷ []

abbrev pub scanned : Scanned
scanned = record { input_file = codes "/a.c"; output_file = codes "a.o"; newargv = command }

pub command-scanned : scan_args false command ≡ ok scanned
unfolding scan_args scan_loop scan_word finish_scan word_action is_source source_ext find_extension
    strrchr str_equal str_startswith str_endswith source_needs_local find_basename
command-scanned = refl

abbrev pub input_renamed : Argv
input_renamed =
    codes "cc" ∷ codes "-c" ∷ codes "/tmp/1.i" ∷ codes "-o" ∷ codes "a.o" ∷ codes "-I/inc" ∷ []

abbrev pub both_renamed : Argv
both_renamed =
    codes "cc" ∷ codes "-c" ∷ codes "/tmp/1.i" ∷ codes "-o" ∷ codes "/tmp/2.o" ∷ codes "-I/inc" ∷ []

abbrev pub output_renamed : Argv
output_renamed =
    codes "cc" ∷ codes "-c" ∷ codes "/a.c" ∷ codes "-o" ∷ codes "/tmp/2.o" ∷ codes "-I/inc" ∷ []

abbrev pub below_root : Argv
below_root =
    codes "cc"
    ∷ codes "-c"
    ∷ codes "/tmp/d/a.c"
    ∷ codes "-o"
    ∷ codes "/tmp/2.o"
    ∷ codes "-I/tmp/d/inc"
    ∷ codes "-MMD"
    ∷ codes "-MF"
    ∷ codes "/tmp/3.d"
    ∷ []

pub rewrites :
    (set_input false command (codes "/tmp/1.i") ≡ ok input_renamed)
    × (set_output input_renamed (codes "/tmp/2.o") ≡ ok both_renamed)
    × (set_output command (codes "/tmp/2.o") ≡ ok output_renamed)
    × (tweak_arguments false (codes "/tmp/d") (codes "/tmp/3.d") output_renamed
        ≡ ok (some (below_root, none)))
unfolding set_input set_output is_source source_ext find_extension strrchr str_equal str_startswith
    tweak_arguments convert_mt_to_dotd_target with_word tweak_include_arguments tweak_input_argument
    matching rooted skip_slashes
rewrites = (refl, refl, refl, refl)

-- The directory behind -iwithprefixbefore is not changed.
include_runs :
    (tweak_include_arguments (codes "/r") (codes "-isystem" ∷ codes "/i" ∷ codes "-iquote/q" ∷ [])
      ≡ ok (codes "-isystem" ∷ codes "/r/i" ∷ codes "-iquote/r/q" ∷ []))
    × (tweak_include_arguments (codes "/r") (codes "-iwithprefixbefore" ∷ codes "/i" ∷ [])
        ≡ ok (codes "-iwithprefixbefore" ∷ codes "/i" ∷ []))
unfolding tweak_include_arguments matching rooted str_equal str_startswith
include_runs = (refl, refl)

abbrev pub client_cpp : Hostdef
client_cpp = record (new_host (codes "h,lzo")) {
  protover = 2;
  compr = lzo1x;
  cpp_where = some on_client;
}

abbrev pub server_cpp : Hostdef
server_cpp = record (new_host (codes "h,lzo,cpp")) {
  protover = 3;
  compr = lzo1x;
  cpp_where = some on_server;
}

abbrev pub entered : Bytes → Option ExitCode
entered dir = none

run_job-on_client_example :
    Prepares
      (request marked client_cpp none command included [] (file (codes "int x;")))
      (run_job false 2 marked open_disk temps entered)
      (created (codes "/tmp/1.i") (codes "int x;") ∷ [])
      (λ rest. record {
        argv = both_renamed;
        orig_output = codes "a.o";
        dotd_target = none;
        protover = 2;
        compr = lzo1x;
        cpp_where = on_client;
        rest = rest;
      })
unfolding get_features_from_protover
run_job-on_client_example =
    run_job-on_client false 1 marked open_disk temps marked-IsLzo entered client_cpp (omega arith)
      command (omega arith)
      (omega arith, (omega arith, (omega arith, (omega arith, (omega arith, (omega arith, tt))))))
      scanned command-scanned none included [] (codes "int x;") input_renamed both_renamed refl refl
      (omega arith, (b'z' ∷ codes "int x;", refl, omega arith)) (omega arith) (refl, refl, refl)
      rewrites.0 rewrites.1

run_job-on_server_example :
    Prepares
      (request marked server_cpp
        (some (codes "/w"))
        command
        included
        (map fname_of items)
        (file []))
      (run_job false 2 marked open_disk temps entered)
      (created (codes "/tmp/d/a.h") (codes "int x;")
        ∷ linked (codes "/tmp/d/b.h") (codes "/tmp/d/a.h")
        ∷ [])
      (λ rest. record {
        argv = below_root;
        orig_output = codes "a.o";
        dotd_target = none;
        protover = 3;
        compr = lzo1x;
        cpp_where = on_server;
        rest = rest;
      })
unfolding get_features_from_protover str_equal
run_job-on_server_example =
    run_job-on_server false 1 marked open_disk temps marked-IsLzo entered server_cpp (omega arith)
      command (omega arith)
      (omega arith, (omega arith, (omega arith, (omega arith, (omega arith, (omega arith, tt))))))
      scanned command-scanned (codes "/w") included items [] output_renamed below_root none refl
      refl (omega arith) refl
      (
        (
          refl,
          refl,
          omega arith,
          refl,
          (refl, omega arith, omega arith, omega arith),
          (refl, refl, refl),
          refl,
        ),
        refl,
        ((refl, refl, omega arith, omega arith, refl, refl, refl), refl, tt),
      )
      (omega arith) rewrites.2 rewrites.3
