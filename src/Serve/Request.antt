-- ===== src/Serve/Request.antt =====
-- The request of dcc_compile_remote in src/remote.c, and dcc_run_job of src/serve.c as it reads it.
use distcc.Prelude.{ℕ, Bool, Option, none, some, List, [], ◌++◌, length}
use distcc.Prelude.Bytes.{Bytes, codes}
use distcc.ExitCode.{ExitCode, Result, ok, err, exits, undefined}
use distcc.Effects.{Run, quiet, ◌>>=◌, Disk}
use distcc.Arg.{Argv, Scanned, scan_args}
use distcc.Arg.Rewrite.{set_input, set_output}
use distcc.Hosts.{Hostdef, Compress, CppWhere, on_client, on_server, get_features_from_protover}
use distcc.Rpc.{x_token_string, x_req_header, x_argv, r_token_string, r_request_header, r_argv}
use distcc.Bulk.{Lzo, Opened, x_file}
use distcc.Bulk.Receive.{r_token_file}
use distcc.Many.{Source, x_both, x_many_files, r_many_files}
use distcc.Serve.{tweak_arguments}

-- dcc_x_cwd: nothing is sent where getcwd fails.
unfoldable pub x_cwd : Option Bytes → Result Bytes
x_cwd none = ok []
x_cwd (some cwd) = x_token_string (codes "CDIR") cwd

unfoldable pub x_cwd_if : Option CppWhere → Option Bytes → Result Bytes
x_cwd_if none cwd = ok []
x_cwd_if (some on_client) cwd = ok []
x_cwd_if (some on_server) cwd = x_cwd cwd

-- dcc_send_header.
unfoldable pub send_header : Hostdef → Option Bytes → Argv → Result Bytes
unfolding x_cwd_if
send_header host cwd argv =
    x_both (x_req_header host.protover)
      (x_both (x_cwd_if host.cpp_where cwd) (x_argv (codes "ARGC") (codes "ARGV") argv))

-- What follows the header: the files that the include server has found, or the preprocessed source.
unfoldable pub send_body : Lzo → Hostdef → Source → List Bytes → Opened → Result Bytes
send_body lzo host source files cpp_fname = elim host.cpp_where [
  | none ↦ x_file lzo host.compr (codes "DOTI") cpp_fname
  | some on_client ↦ x_file lzo host.compr (codes "DOTI") cpp_fname
  | some on_server ↦ x_many_files lzo source (length files) files
]

unfoldable pub request :
    Lzo → Hostdef → Option Bytes → Argv → Source → List Bytes → Opened → Result Bytes
request lzo host cwd argv source files cpp_fname =
    x_both (send_header host cwd argv) (send_body lzo host source files cpp_fname)

-- The names of the server's temporary files.
pub record Temps : Type 0 where
  pub temp_dir : Bytes
  pub temp_i : Bytes
  pub temp_o : Bytes
  pub deps_fname : Bytes

-- What the compiler is run with, and what is left of the connection.
pub record Prepared : Type 0 where
  pub argv : Argv
  pub orig_output : Bytes
  pub dotd_target : Option Bytes
  pub protover : ℕ
  pub compr : Compress
  pub cpp_where : CppWhere
  pub rest : Bytes

-- A failure of what stands in the condition goes to out_cleanup with `ret` 0: no job is prepared.
abbrev or_give_up : {A : Type 0} → Run A → Run (Option A)
or_give_up (done, none) = (done, none)
or_give_up (done, some undefined) = (done, some undefined)
or_give_up (done, some (exits e)) = (done, some (exits e))
or_give_up (done, some (err e)) = (done, some (ok none))
or_give_up (done, some (ok a)) = (done, some (ok (some a)))

module _ (assemble : Bool) (fuel : ℕ) (lzo : Lzo) (disk : Disk) (temps : Temps) where
  -- Behind the argv, for a client that has preprocessed.
  unfoldable pub read_source : ℕ → Compress → Scanned → Bytes → Run (Option Prepared)
  read_source protover compr scanned input = do
    rest ← r_token_file fuel lzo disk (codes "DOTI") temps.temp_i compr input
    with_input ← quiet (set_input assemble scanned.newargv temps.temp_i)
    with_output ← quiet (set_output with_input temps.temp_o)
    quiet (
        ok (
          some (record {
            argv = with_output;
            orig_output = scanned.output_file;
            dotd_target = none;
            protover = protover;
            compr = compr;
            cpp_where = on_client;
            rest = rest;
          })))

  tweaked : ℕ → Compress → Scanned → Bytes → Option (Argv × Option Bytes) → Run (Option Prepared)
  tweaked protover compr scanned rest none = quiet (ok none)
  tweaked protover compr scanned rest (some (argv, dotd_target)) = quiet (
      ok (
        some (record {
          argv = argv;
          orig_output = scanned.output_file;
          dotd_target = dotd_target;
          protover = protover;
          compr = compr;
          cpp_where = on_server;
          rest = rest;
        })))

  with_files : ℕ → Compress → Scanned → Option (Bytes × Argv) → Run (Option Prepared)
  unfolding tweaked
  with_files protover compr scanned none = quiet (ok none)
  with_files protover compr scanned (some (rest, argv)) = do
    got ← quiet (tweak_arguments assemble temps.temp_dir temps.deps_fname argv)
    tweaked protover compr scanned rest got

  -- Behind the argv, for a client that has not.
  unfoldable pub read_files : ℕ → Compress → Scanned → Bytes → Run (Option Prepared)
  unfolding with_files
  read_files protover compr scanned input = do
    got ← or_give_up (do
      rest ← r_many_files fuel lzo disk temps.temp_dir compr input
      argv ← quiet (set_output scanned.newargv temps.temp_o)
      quiet (ok (rest, argv)))
    with_files protover compr scanned got

  -- make_temp_dir_and_chdir_for_cpp. `enter` makes the directory and changes to it.
  unfoldable pub read_cwd : (Bytes → Option ExitCode) → CppWhere → Bytes → Result Bytes
  read_cwd enter on_client input = ok input
  read_cwd enter on_server input = elim (r_token_string (codes "CDIR") input) [
    | undefined ↦ undefined
    | exits e ↦ exits e
    | err e ↦ err e
    | ok got ↦ elim (enter (temps.temp_dir ++ got.0)) [ some ret ↦ err ret | none ↦ ok got.1 ]
  ]

  unfoldable pub read_rest : CppWhere → ℕ → Compress → Scanned → Bytes → Run (Option Prepared)
  read_rest on_client protover compr scanned input = read_source protover compr scanned input
  read_rest on_server protover compr scanned input = read_files protover compr scanned input

  -- dcc_run_job, up to the command.
  unfoldable pub run_job : (Bytes → Option ExitCode) → Bytes → Run (Option Prepared)
  unfolding read_rest
  run_job enter input = do
    (protover, t₁) ← quiet (r_request_header input)
    let (compr, cpp_where, _) = get_features_from_protover protover
    t₂ ← quiet (read_cwd enter cpp_where t₁)
    (argv, t₃) ← quiet (r_argv (codes "ARGC") (codes "ARGV") t₂)
    scanned ← quiet (scan_args assemble argv)
    read_rest cpp_where protover compr scanned t₃
