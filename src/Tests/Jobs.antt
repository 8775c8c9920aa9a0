-- ===== src/Tests/Jobs.antt =====
-- Whole jobs of src/serve.c, from the request to the results that the client retrieves.
use distcc.Prelude.{
  ℕ, ◌≡◌, ◌==◌, refl, Bool, true, false, Option, none, some, List, [], ◌∷◌, map, arith,
}
use distcc.Prelude.Bytes.{Bytes, codes, str_equal, str_startswith}
use distcc.ExitCode.{ok}
use distcc.Effects.{created, linked}
use distcc.Hosts.{get_features_from_protover}
use distcc.Bulk.{file}
use distcc.Many.Items.{fname_of}
use distcc.Stringmap.{Cmdlist, remap_compiler}
use distcc.Dotd.Cleanup.{cleaned, cleanup_dotd, clean_loop, clean_line, strgraft, find, trim_loop}
use distcc.Results.{retrieve_results}
use distcc.Serve.Request.{request}
use distcc.Serve.Job.{Compilation, Server, Peer, remapped, cleaned_deps, fixed_object, service_job}
use distcc.Serve.Job.Whole.{Compiles, service_job-on_client, service_job-on_server}
use distcc.Tests.Objects.{elf, object_with, on_server_text, on_client_text, object_fixed}
use distcc.Tests.Transfer.{marked, marked-IsLzo, open_disk, items, included, names, exited}
use distcc.Tests.Requests.{
  temps, command, scanned, command-scanned, input_renamed, both_renamed, output_renamed, below_root,
  rewrites, client_cpp, server_cpp, entered,
}

-- What the compiler writes: a warning, the object file, and the dependencies.
abbrev compilation : Compilation
compilation = record {
  compile_ret = 0;
  status = 0;
  err_fname = file (codes "warn");
  out_fname = file [];
  temp_o = file (object_with on_server_text);
  deps_fname = some (codes "/tmp/2.o: /tmp/d/a.h\n");
}

abbrev server : Server
server = record {
  compile = λ argv made. compilation;
  elf = elf;
  unmaps = true;
  compiled = exited;
  path_max = 20;
  cmdlist_env = record { filename = none; nw = none };
  max_line = 64;
  makes = true;
  writes = true;
}

abbrev anyone : Peer
anyone = record {
  little = true;
  v4mapped = λ s. false;
  v4compat = λ s. false;
  sockaddr_to_string = λ psa. ok [];
  cli_addr = none;
  opt_allowed = [];
}

abbrev unchecked : Cmdlist
unchecked = record { cmdlist_checked = false; map = none }

abbrev no_list : Cmdlist
no_list = record { cmdlist_checked = true; map = none }

accepts :
    (remapped server unchecked both_renamed ≡ ok (some both_renamed, no_list))
    × (remapped server unchecked below_root ≡ ok (some below_root, no_list))
unfolding remapped remap_compiler
accepts = (refl, refl)

dotd_cleaned : cleaned_deps temps server (codes "a.o") compilation ≡ cleaned (codes "a.o: /a.h\n")
unfolding cleaned_deps cleanup_dotd clean_loop clean_line strgraft find trim_loop distcc.Lines.fgets
    distcc.Prelude.Bytes.contains str_startswith
dotd_cleaned = refl

fixes : fixed_object temps server compilation ≡ ok (true, file (object_with on_client_text))
unfolding fixed_object
fixes = object_fixed

service_job-on_client_example :
    Compiles
      (request marked client_cpp none command included [] (file (codes "int x;")))
      (service_job false 7 marked open_disk temps server entered anyone unchecked)
      (retrieve_results 7 marked open_disk client_cpp names true)
      (created (codes "/tmp/1.i") (codes "int x;") ∷ [])
      no_list
      (created (codes "err") (codes "warn")
        ∷ created (codes "a.o") (object_with on_server_text)
        ∷ [])
      (record { status = 0; stdout = [] })
unfolding get_features_from_protover distcc.Access.Clients.check_client
service_job-on_client_example =
    service_job-on_client false 6 marked marked-IsLzo temps open_disk server open_disk client_cpp
      (omega arith) names (codes "warn") [] (object_with on_server_text) []
      ((omega arith, (b'z' ∷ codes "warn", refl, omega arith)), omega arith)
      ((omega arith, (b'z' ∷ [], refl, omega arith)), omega arith)
      ((omega arith, (b'z' ∷ object_with on_server_text, refl, omega arith)), omega arith)
      ((omega arith, (b'z' ∷ [], refl, omega arith)), omega arith) (refl, refl, refl)
      (refl, refl, refl) (refl, refl, refl) entered anyone refl unchecked no_list command
      (omega arith)
      (omega arith, (omega arith, (omega arith, (omega arith, (omega arith, (omega arith, tt))))))
      scanned command-scanned none included [] (codes "int x;") input_renamed both_renamed
      both_renamed compilation refl refl (omega arith, (b'z' ∷ codes "int x;", refl, omega arith))
      (omega arith) (refl, refl, refl) rewrites.0 rewrites.1 accepts.0 refl refl refl (omega arith)
      refl (λ _. refl)

service_job-on_server_example :
    Compiles
      (request marked server_cpp
        (some (codes "/w"))
        command
        included
        (map fname_of items)
        (file []))
      (service_job false 7 marked open_disk temps server entered anyone unchecked)
      (retrieve_results 7 marked open_disk server_cpp names true)
      (created (codes "/tmp/d/a.h") (codes "int x;")
        ∷ linked (codes "/tmp/d/b.h") (codes "/tmp/d/a.h")
        ∷ [])
      no_list
      (created (codes "err") (codes "warn")
        ∷ created (codes "a.o") (object_with on_client_text)
        ∷ created (codes "a.d") (codes "a.o: /a.h\n")
        ∷ [])
      (record { status = 0; stdout = [] })
unfolding get_features_from_protover distcc.Access.Clients.check_client str_equal
service_job-on_server_example =
    service_job-on_server false 6 marked marked-IsLzo temps open_disk server open_disk server_cpp
      (omega arith) names (codes "warn") [] (object_with on_client_text) (codes "a.o: /a.h\n")
      ((omega arith, (b'z' ∷ codes "warn", refl, omega arith)), omega arith)
      ((omega arith, (b'z' ∷ [], refl, omega arith)), omega arith)
      ((omega arith, (b'z' ∷ object_with on_client_text, refl, omega arith)), omega arith)
      ((omega arith, (b'z' ∷ codes "a.o: /a.h\n", refl, omega arith)), omega arith)
      (refl, refl, refl) (refl, refl, refl) (refl, refl, refl) entered anyone refl unchecked no_list
      command (omega arith)
      (omega arith, (omega arith, (omega arith, (omega arith, (omega arith, (omega arith, tt))))))
      scanned command-scanned (codes "/w") included items [] output_renamed below_root none
      below_root compilation refl refl (omega arith) refl
      (
        (
          refl,
          refl,
          omega arith,
          refl,
          (refl, omega arith, omega arith, omega arith),
          (refl, refl, refl),
          refl,
        ),
        refl,
        ((refl, refl, omega arith, omega arith, refl, refl, refl), refl, tt),
      )
      (omega arith) rewrites.2 rewrites.3 accepts.1 refl refl refl (omega arith) refl
      (λ _. (fixes, dotd_cleaned))
