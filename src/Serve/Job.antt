-- ===== src/Serve/Job.antt =====
-- A whole job of the server: dcc_service_job and dcc_run_job of src/serve.c, in a build without
-- GSS-API. The compiler is an argument; statistics, logging and the cleanup of the server's own
-- temporary files are left out.
pub mod Laws
pub mod Whole
use distcc.Prelude.{
  ℕ, suc, ◌*◌, ◌==◌, Bool, true, false, Option, none, some, List, [], ◌∷◌, length, if◌then◌else◌,
}
use distcc.Prelude.Bytes.{Bytes, codes}
use distcc.ExitCode.{ExitCode, Result, ok, err, exits, undefined}
use distcc.ExitCode as Code
use distcc.Effects.{Effect, Disk}
use distcc.Access.{Client}
use distcc.Access.Clients.{Allowed, check_client}
use distcc.Arg.{Argv}
use distcc.Hosts.{CppWhere, on_client, on_server, Compress}
use distcc.Rpc.{x_result_header, x_cc_status}
use distcc.Bulk.{Lzo, Opened, missing, file, x_file}
use distcc.Stringmap.{
  Cmdlist, CmdlistEnv, Remapped, accepted, forbidden, not_loaded, remap_compiler,
}
use distcc.DebugInfo.{Elf, fix_debug_info}
use distcc.Dotd.Cleanup.{Cleaned, out_of_fuel, failed, cleaned, cleanup_dotd}
use distcc.Results.Answer.{Job, answer}
use distcc.Serve.Request.{Temps, Prepared, run_job}

-- What dcc_spawn_child and dcc_collect_child leave: what they return, the status of the compiler, and
-- the files that it has written.
pub record Compilation : Type 0 where
  pub compile_ret : ℕ
  pub status : ℕ
  pub err_fname : Opened
  pub out_fname : Opened
  pub temp_o : Opened
  pub deps_fname : Option Bytes

-- The compiler, by its command and what has been done to the file system; <elf.h>, and whether
-- munmap_file succeeds; the exit status by WIFSIGNALED and WEXITSTATUS; the list of compilers; the
-- length of a line of dependencies, and whether the file with the changed ones can be made and written.
pub record Server : Type 0 where
  pub compile : Argv → List Effect → Compilation
  pub elf : Elf
  pub unmaps : Bool
  pub compiled : ℕ → Bool
  pub path_max : ℕ
  pub cmdlist_env : CmdlistEnv
  pub max_line : ℕ
  pub makes : Bool
  pub writes : Bool

-- How a job ends: by a return of zero or another number, by a call of exit, by a read of foreign
-- memory, or never.
pub data Ended : Type 0 where
  zero_returned nonzero_returned foreign_read endless : Ended
  exited : ExitCode → Ended

pub ended_by {ℓ} : {A : Type ℓ} → Result A → Ended
ended_by undefined = foreign_read
ended_by (exits e) = exited e
ended_by (err e) = nonzero_returned
ended_by (ok a) = zero_returned

-- The first of the messages that fails.
unfoldable pub ended_by_all : List (Result Bytes) → Ended
ended_by_all [] = zero_returned
ended_by_all (ok bytes ∷ messages) = ended_by_all messages
ended_by_all (message ∷ messages) = ended_by message

and_then : Ended → Ended → Ended
and_then zero_returned next = next
and_then other next = other

pub record Served : Type 0 where
  pub made : List Effect
  pub sent : Bytes
  pub ended : Ended
  pub cmdlist : Cmdlist

-- `status` behind the compiler: W_EXITCODE(compile_ret, 0) where it has not been found.
abbrev pub final_status : Compilation → ℕ
final_status c = if c.compile_ret == 0 then c.status else c.compile_ret * 256

-- What dcc_remap_compiler makes of the command; `none` ends the job.
abbrev pub compiler_argv : Argv → Remapped → Option Argv
compiler_argv argv forbidden = none
compiler_argv argv not_loaded = some argv
compiler_argv [] (accepted name) = some []
compiler_argv (a ∷ argv) (accepted name) = some (name ∷ argv)

abbrev cleaned_file : Cleaned → Result Opened
cleaned_file (cleaned text) = ok (file text)
cleaned_file other = err ExitCode.distcc_failed

abbrev pub dotd_name : Option Bytes → Bytes → Bytes
dotd_name none orig_output = orig_output
dotd_name (some target) orig_output = target

-- `dotd_target ? dotd_target : orig_output`
abbrev pub target_of : Prepared → Bytes
target_of prepared = dotd_name prepared.dotd_target prepared.orig_output

-- The address of the client and the list of --allow options, with what dcc_check_client calls.
pub record Peer : Type 0 where
  pub little : Bool
  pub v4mapped : Bytes → Bool
  pub v4compat : Bytes → Bool
  pub sockaddr_to_string : Option Client → Result Bytes
  pub cli_addr : Option Client
  pub opt_allowed : Allowed

abbrev pub admission : Peer → Result (Unit {0})
admission peer =
    check_client peer.little peer.v4mapped peer.v4compat peer.sockaddr_to_string peer.cli_addr
      peer.opt_allowed

-- A read of foreign memory ends the job before the object is sent.
abbrev fixed_or_not : Result (Bool × Opened) → Bool × Opened
fixed_or_not (ok fixed) = fixed
fixed_or_not other = (false, missing)

module _ (temps : Temps) (server : Server) where
  unfoldable pub cleaned_deps : Bytes → Compilation → Cleaned
  cleaned_deps client_out_name c =
      cleanup_dotd server.max_line temps.temp_dir client_out_name temps.temp_o
        (elim c.deps_fname [ none ↦ 0 | some text ↦ suc (length text) ]) c.deps_fname server.makes
        server.writes

  unfoldable pub fixed_object : Compilation → Result (Bool × Opened)
  fixed_object c = fix_debug_info server.elf server.unmaps (codes "/") temps.temp_dir c.temp_o

  -- The files of the job, as they are sent.
  unfoldable pub files_of : Prepared → Compilation → Job
  unfolding cleaned_deps fixed_object
  files_of prepared c =
      let (debug_fixed, fixed) = fixed_or_not (fixed_object c) in
      record {
        err_fname = c.err_fname;
        out_fname = c.out_fname;
        temp_o = elim prepared.cpp_where [ on_client ↦ c.temp_o | on_server ↦ fixed ];
        debug_fixed = debug_fixed;
        cleaned_dotd = cleaned_file (cleaned_deps (target_of prepared) c);
      }

module _ (lzo : Lzo) (temps : Temps) (server : Server) where
  dotd_ended : Compress → Cleaned → Ended
  dotd_ended compr out_of_fuel = endless
  dotd_ended compr failed = nonzero_returned
  dotd_ended compr (cleaned text) = ended_by (x_file lzo compr (codes "DOTD") (file text))

  fixed_ended : Prepared → Compilation → Result (Bool × Opened) → Ended
  unfolding dotd_ended ended_by and_then
  fixed_ended prepared c (ok (true, fixed)) =
      and_then (ended_by (x_file lzo prepared.compr (codes "DOTO") fixed))
        (dotd_ended prepared.compr (cleaned_deps temps server (target_of prepared) c))
  fixed_ended prepared c (ok (false, fixed)) = nonzero_returned
  fixed_ended prepared c other = ended_by other

  object_ended : Prepared → Compilation → CppWhere → Ended
  unfolding fixed_ended fixed_object
  object_ended prepared c on_client = ended_by (x_file lzo prepared.compr (codes "DOTO") c.temp_o)
  object_ended prepared c on_server = fixed_ended prepared c (fixed_object temps server c)

  -- What `ret` is at the label out_cleanup, behind the answer.
  unfoldable pub answer_ended : Prepared → Compilation → Ended
  unfolding object_ended ended_by_all dotd_ended and_then ended_by
  answer_ended prepared c =
      and_then
        (ended_by_all (
          x_result_header prepared.protover
          ∷ x_cc_status (final_status c)
          ∷ x_file lzo prepared.compr (codes "SERR") c.err_fname
          ∷ x_file lzo prepared.compr (codes "SOUT") c.out_fname
          ∷ []))
        (if server.compiled (final_status c)
          then object_ended prepared c prepared.cpp_where
          else zero_returned)

  compile_and_answer : Prepared → List Effect → Cmdlist → Argv → Served
  compile_and_answer prepared made cmdlist argv =
      let c = server.compile argv made in
      record {
        made = made;
        sent =
            answer lzo prepared.compr prepared.cpp_where server.compiled prepared.protover
              (final_status c) (files_of temps server prepared c);
        ended = answer_ended prepared c;
        cmdlist = cmdlist;
      }

-- A job that ends before there is an answer.
stopped : List Effect → Cmdlist → Ended → Served
stopped made cmdlist ended = record { made = made; sent = []; ended = ended; cmdlist = cmdlist }

unless_refused : Cmdlist → Result (Unit {0}) → Served → Served
unfolding stopped
unless_refused cmdlist (ok _) job = job
unless_refused cmdlist refused job = stopped [] cmdlist (ended_by refused)

-- The call of dcc_remap_compiler on argv[0].
unfoldable pub remapped : Server → Cmdlist → Argv → Result (Option Argv × Cmdlist)
remapped server cmdlist [] = undefined
remapped server cmdlist (a ∷ argv) =
    Code.◌>>=◌ (remap_compiler server.path_max server.cmdlist_env cmdlist a)
      (λ got. ok (compiler_argv (a ∷ argv) got.0, got.1))

module _ (assemble : Bool) (fuel : ℕ) (lzo : Lzo) (disk : Disk) (temps : Temps)
    (server : Server) where
  with_command : Prepared → List Effect → Cmdlist → Result (Option Argv × Cmdlist) → Served
  unfolding compile_and_answer stopped
  with_command prepared made cmdlist (ok (none, after)) = stopped made after zero_returned
  with_command prepared made cmdlist (ok (some argv, after)) =
      compile_and_answer lzo temps server prepared made after argv
  with_command prepared made cmdlist other = stopped made cmdlist (ended_by other)

  with_prepared : List Effect → Cmdlist → Option (Result (Option Prepared)) → Served
  unfolding with_command
  with_prepared made cmdlist none = stopped made cmdlist endless
  with_prepared made cmdlist (some (ok none)) = stopped made cmdlist zero_returned
  with_prepared made cmdlist (some (ok (some prepared))) =
      with_command prepared made cmdlist (remapped server cmdlist prepared.argv)
  with_prepared made cmdlist (some other) = stopped made cmdlist (ended_by other)

  -- dcc_run_job.
  unfoldable pub run_whole_job : (Bytes → Option ExitCode) → Cmdlist → Bytes → Served
  unfolding with_prepared
  run_whole_job enter cmdlist input =
      let (made, prepared) = run_job assemble fuel lzo disk temps enter input in
      with_prepared made cmdlist prepared

  -- dcc_service_job.
  unfoldable pub service_job : (Bytes → Option ExitCode) → Peer → Cmdlist → Bytes → Served
  unfolding unless_refused
  service_job enter peer cmdlist input =
      unless_refused cmdlist (admission peer) (run_whole_job enter cmdlist input)
