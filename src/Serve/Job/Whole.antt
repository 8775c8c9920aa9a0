-- ===== src/Serve/Job/Whole.antt =====
-- A remote compilation as a whole: the request of dcc_compile_remote in src/remote.c, the job that
-- dcc_service_job of src/serve.c does for it, and the results that the client retrieves.
use distcc.Prelude.{
  ℕ, suc, ◌*◌, ◌^◌, ◌≤◌, ◌<◌, ◌≡◌, ◌==◌, Bool, true, Option, none, some, List, [], ◌∷◌, ◌++◌, map,
  if◌then◌else◌, refl, length, arith,
}
use distcc.Prelude.Bytes.{Bytes}
use distcc.ExitCode.{ExitCode, Result, ok}
use distcc.Effects.{Effect, created, Run, Disk}
use distcc.Arg.{Argv, Scanned, scan_args}
use distcc.Arg.Rewrite.{set_input, set_output}
use distcc.Hosts.{Hostdef, CppWhere, on_client, on_server, get_features_from_protover}
use distcc.Rpc.Messages.{AllShort}
use distcc.Bulk.{Lzo, file}
use distcc.Bulk.Laws.{IsLzo, IsWritable, IsSendable}
use distcc.Many.{Source}
use distcc.Many.Items.{Item, AllItems, fname_of, effect_of}
use distcc.Stringmap.{Cmdlist}
use distcc.Results.{Names, Retrieved, retrieve_results}
use distcc.Results.Runs.{DepsWritable}
use distcc.Results.Answer.{answer}
use distcc.Results.Laws.{IsShort}
use distcc.Serve.{tweak_arguments}
use distcc.Serve.Request.{request, Temps, Prepared, run_job}
use distcc.Serve.Laws.{Prepares, run_job-on_client, run_job-on_server}
use distcc.Serve.Job.{
  Compilation, Server, dotd_name, files_of, answer_ended, run_whole_job, Peer, admission,
  zero_returned, Served, final_status, remapped, service_job,
}
use distcc.Serve.Job.Laws.{HasObject, delivered, ready, answer-retrieved, all_sent}

-- What the writer sends makes the server do its effects, end its job and change the list of compilers;
-- the reader gets its results from what the server sends, with its own effects, whatever follows on
-- the two ways of the connection.
abbrev pub Compiles :
    Result Bytes
    → (Bytes → Served)
    → (Bytes → Run Retrieved)
    → List Effect
    → Cmdlist
    → List Effect
    → Retrieved
    → Type 0
Compiles writer server reader made after delivered_files got =
    (bytes : Bytes) × (writer ≡ ok bytes)
    × ((rest more : Bytes)
        → ((server (bytes ++ rest)).made ≡ made)
          × ((server (bytes ++ rest)).ended ≡ zero_returned)
          × ((server (bytes ++ rest)).cmdlist ≡ after)
          × (reader ((server (bytes ++ rest)).sent ++ more) ≡ (delivered_files, some (ok got))))

-- What the client does with the results of a compilation.
abbrev pub results : Names → CppWhere → ℕ → Bytes → Bytes → Bytes → List Effect
results names cpp_where status err_text object dotd =
    created names.server_stderr_fname err_text
    ∷ (if status == 0 then delivered names object dotd cpp_where else [])

module _ (assemble : Bool) (fuel : ℕ) (lzo : Lzo) (laws : IsLzo lzo) (temps : Temps)
    (server_disk : Disk) (server : Server) (disk : Disk) (host : Hostdef)
    (known : host.protover ≤ 3) (names : Names) (err_text out_text object dotd : Bytes)
    (err_short : IsShort fuel lzo host.compr err_text)
    (out_short : IsShort fuel lzo host.compr out_text)
    (object_short : IsShort fuel lzo host.compr object)
    (dotd_short : IsShort fuel lzo host.compr dotd)
    (err_writable : IsWritable disk names.server_stderr_fname)
    (object_writable : IsWritable disk names.output_fname)
    (deps_writable : DepsWritable disk names.deps_fname) (enter : Bytes → Option ExitCode)
    (peer : Peer) (admitted : admission peer ≡ ok tt) (cmdlist after : Cmdlist) where
  service_job-run :
      (prepared : Bytes → Prepared) (command : Argv) (made : List Effect) (input rest : Bytes)
      → run_job assemble (suc fuel) lzo server_disk temps enter input
        ≡ (made, some (ok (some (prepared rest))))
      → remapped server cmdlist (prepared rest).argv ≡ ok (some command, after)
      → (c : Compilation) → server.compile command made ≡ c
      → service_job assemble (suc fuel) lzo server_disk temps server enter peer cmdlist input
        ≡ record {
          made = made;
          sent =
              answer lzo
                (prepared rest).compr
                (prepared rest).cpp_where
                server.compiled
                (prepared rest).protover
                (final_status c)
                (files_of temps server (prepared rest) c);
          ended = answer_ended lzo temps server (prepared rest) c;
          cmdlist = after;
        }
  unfolding service_job run_whole_job
  service_job-run prepared command made input rest runs allowed c compiles =
      rw (service_job, admitted, run_whole_job, runs, allowed, compiles) refl

  service_job-prepared :
      (argv : Argv) (orig_output : Bytes) (dotd_target : Option Bytes) (command : Argv)
      (cpp_where : CppWhere) (writer : Result Bytes) (made : List Effect) (c : Compilation)
      → host.cpp_where ≡ some cpp_where
      → Prepares writer
          (run_job assemble (suc fuel) lzo server_disk temps enter)
          made
          (ready host argv orig_output dotd_target cpp_where)
      → remapped server cmdlist argv ≡ ok (some command, after)
      → server.compile command made ≡ c
      → c.err_fname ≡ file err_text
      → c.out_fname ≡ file out_text
      → final_status c < 2 ^ 32
      → server.compiled (final_status c) ≡ (final_status c == 0)
      → (final_status c ≡ 0
          → HasObject temps server object dotd cpp_where (dotd_name dotd_target orig_output) c)
      → Compiles writer
          (service_job assemble (suc fuel) lzo server_disk temps server enter peer cmdlist)
          (retrieve_results (suc fuel) lzo disk host names true)
          made
          after
          (results names cpp_where (final_status c) err_text object dotd)
          (record { status = final_status c; stdout = out_text })
  service_job-prepared argv orig_output dotd_target command cpp_where writer made c placed
        (bytes, sends, runs) allowed compiles err_made out_made small zero_is_success has =
      (
        bytes,
        sends,
        λ rest more.
            rw
              (service_job-run (ready host argv orig_output dotd_target cpp_where) command made
                (bytes ++ rest) rest (runs rest) allowed c compiles)
              (
                refl,
                all_sent fuel lzo laws temps server disk host names err_text out_text object dotd
                    err_short out_short object_short dotd_short err_writable object_writable
                    deps_writable argv orig_output dotd_target cpp_where rest c err_made out_made
                    (omega arith) small zero_is_success has,
                refl,
                answer-retrieved fuel lzo laws temps server disk host names err_text out_text object
                    dotd err_short out_short object_short dotd_short err_writable object_writable
                    deps_writable argv orig_output dotd_target cpp_where rest c placed err_made
                    out_made (omega arith) small zero_is_success has more,
              ),
      )

  module _ (argv : Argv) (short_argv : length argv < 2 ^ 31) (short_words : AllShort argv)
      (scanned : Scanned) (scans : scan_args assemble argv ≡ ok scanned) where
    -- A client that preprocesses sends its request, with an argv that dcc_scan_args takes and in whose
    -- result dcc_set_input and dcc_set_output succeed, to a server that lets it in and accepts the
    -- compiler. The server makes its input file with the text of the source, runs the compiler on the
    -- argv with its own names, and dcc_service_job returns zero; what it sends, dcc_retrieve_results
    -- reads as the compiler's status and output, and the client has the compiler's messages and,
    -- where the status is zero, the object file. The version must be 3 at most and that of the
    -- host's features, the argv have fewer than 2 ^ 31 words, lzo be as documented, all texts be short
    -- enough to be sent and for the fuel, the files of the compiler be readable, the input file of the
    -- server and those of the client writable, the status fit 32 bits, zero be the one status that
    -- counts as success, and dcc_add_file_to_log_email succeed.
    pub service_job-on_client :
        (cwd : Option Bytes) (source : Source) (files : List Bytes) (doti : Bytes)
        (with_input with_output command : Argv) (c : Compilation)
        → host.cpp_where ≡ some on_client
        → get_features_from_protover host.protover ≡ (host.compr, on_client, true)
        → IsSendable lzo host.compr doti
        → length doti ≤ 8 * 2 ^ fuel
        → IsWritable server_disk temps.temp_i
        → set_input assemble scanned.newargv temps.temp_i ≡ ok with_input
        → set_output with_input temps.temp_o ≡ ok with_output
        → remapped server cmdlist with_output ≡ ok (some command, after)
        → server.compile command (created temps.temp_i doti ∷ []) ≡ c
        → c.err_fname ≡ file err_text
        → c.out_fname ≡ file out_text
        → final_status c < 2 ^ 32
        → server.compiled (final_status c) ≡ (final_status c == 0)
        → (final_status c ≡ 0 → c.temp_o ≡ file object)
        → Compiles
            (request lzo host cwd argv source files (file doti))
            (service_job assemble (suc fuel) lzo server_disk temps server enter peer cmdlist)
            (retrieve_results (suc fuel) lzo disk host names true)
            (created temps.temp_i doti ∷ [])
            after
            (results names on_client (final_status c) err_text object dotd)
            (record { status = final_status c; stdout = out_text })
    service_job-on_client cwd source files doti with_input with_output command c placed features
          sendable enough writable h₁ h₂ =
        service_job-prepared with_output scanned.output_file none command on_client
          (request lzo host cwd argv source files (file doti)) (created temps.temp_i doti ∷ []) c
          placed
          (run_job-on_client assemble fuel lzo server_disk temps laws enter host known argv
            short_argv short_words scanned scans cwd source files doti with_input with_output placed
            features sendable enough writable h₁ h₂)

    -- The same for a client that lets the server preprocess, where the server can enter the client's
    -- directory below its own and make the files and links, which have different names, and where
    -- dcc_set_output and the change of the include options succeed in the place of the two changes
    -- above: the server makes the files and links below its directory and runs the compiler on the
    -- changed argv. Where the status is zero, the client has the object file as dcc_fix_debug_info has
    -- changed it, and the dependencies as dcc_cleanup_dotd has, if it asks for them; both calls must
    -- have succeeded.
    pub service_job-on_server :
        (cwd : Bytes) (source : Source) (items : List Item) (doti : Bytes)
        (with_output prepared : Argv) (dotd_target : Option Bytes) (command : Argv)
        (c : Compilation)
        → host.cpp_where ≡ some on_server
        → get_features_from_protover host.protover ≡ (host.compr, on_server, true)
        → length cwd < 2 ^ 32
        → enter (temps.temp_dir ++ cwd) ≡ none
        → AllItems fuel lzo source server_disk temps.temp_dir host.compr items
        → length (map fname_of items) < 2 ^ 32
        → set_output scanned.newargv temps.temp_o ≡ ok with_output
        → tweak_arguments assemble temps.temp_dir temps.deps_fname with_output
          ≡ ok (some (prepared, dotd_target))
        → remapped server cmdlist prepared ≡ ok (some command, after)
        → server.compile command (map (effect_of temps.temp_dir) items) ≡ c
        → c.err_fname ≡ file err_text
        → c.out_fname ≡ file out_text
        → final_status c < 2 ^ 32
        → server.compiled (final_status c) ≡ (final_status c == 0)
        → (final_status c ≡ 0
            → HasObject temps server object dotd on_server
                (dotd_name dotd_target scanned.output_file)
                c)
        → Compiles
            (request lzo host (some cwd) argv source (map fname_of items) (file doti))
            (service_job assemble (suc fuel) lzo server_disk temps server enter peer cmdlist)
            (retrieve_results (suc fuel) lzo disk host names true)
            (map (effect_of temps.temp_dir) items)
            after
            (results names on_server (final_status c) err_text object dotd)
            (record { status = final_status c; stdout = out_text })
    service_job-on_server cwd source items doti with_output prepared dotd_target command c placed
          features short_cwd entered found short h₁ h₂ =
        service_job-prepared prepared scanned.output_file dotd_target command on_server
          (request lzo host (some cwd) argv source (map fname_of items) (file doti))
          (map (effect_of temps.temp_dir) items) c placed
          (run_job-on_server assemble fuel lzo server_disk temps laws enter host known argv
            short_argv short_words scanned scans cwd source items doti with_output prepared
            dotd_target placed features short_cwd entered found short h₁ h₂)
