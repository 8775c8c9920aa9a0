-- ===== src/Client.antt =====
-- The client's driver: dcc_build_somewhere and dcc_compile_local of src/compile.c, dcc_compile_remote
-- of src/remote.c, dcc_cpp_maybe of src/cpp.c, and dcc_critique_status of src/exec.c. What the system
-- and the other machine answer is the record Calls; what is done to locks, hosts, compilers and the
-- user is a list of events. Allocation succeeds, and time measurement is left out.
pub mod Remote
pub mod Fallback
pub mod Branches
pub mod Build
pub mod Locks
pub mod Returns
use distcc.Prelude.{
  ℕ, ◌+◌, Bool, true, false, Option, none, some, List, [], ◌∷◌, ◌++◌, if◌then◌else◌,
}
use distcc.Prelude.Bytes.{Bytes, codes}
use distcc.ExitCode.{ExitCode, code, Result, ok, err, exits, undefined, ◌>>=◌}
use distcc.Filename.{find_extension, preproc_exten, is_preprocessed}
use distcc.Arg.{Argv}
use distcc.Arg.Rewrite.{set_action_opt}
use distcc.Strip.{strip_dasho}
use distcc.Hosts.{Hostdef}

-- The lock of the chosen host's slot, of a local preprocessor, and of a local slot.
pub data Lock : Type 0 where
  slot local_cpp local_slot : Lock

pub data Event : Type 0 where
  locked unlocked : Lock → Event
  enjoyed disliked : Hostdef → Event
  ran_cpp ran_local : Argv → Event
  ran_remote : Argv → Hostdef → Event
  copied_stderr emailed : Event

-- What is done, and how it ends. A function of the program that returns an int ends as `ok`.
abbrev pub Outcome : Type 0
Outcome = List Event × Result ℕ

abbrev pub after : List Event → Outcome → Outcome
after done (more, r) = (done ++ more, r)

-- WIFSIGNALED, WTERMSIG and WEXITSTATUS of the C library.
pub record Wait : Type 0 where
  pub signaled : ℕ → Bool
  pub termsig : ℕ → ℕ
  pub exitstatus : ℕ → ℕ

-- A child: what dcc_spawn_child and dcc_collect_child return, and its status.
pub record Child : Type 0 where
  pub spawned : Option ExitCode
  pub collected : Option ExitCode
  pub status : ℕ

pub record Calls : Type 0 where
  pub wait : Wait
  -- The settings and the environment.
  pub assemble : Bool
  pub scan_includes : Bool
  pub fallback : Bool
  pub skip_local_retry : Bool
  pub testing_include_server : Bool
  pub max_discrepancy : Option Bytes
  pub include_paths : Bool
  -- Files, locks, the include server, the local children.
  pub make_tmpnam : Bytes → Result Bytes
  pub discrepancies : ℕ
  pub picked : Result Hostdef
  pub lock_local_cpp : Option ExitCode
  pub lock_local : Option ExitCode
  pub talk_to_include_server : Option ExitCode
  pub categorized : Option ExitCode
  pub dotd_info : Bool × Bool × Option Bytes
  pub cpp : Child
  pub cc : Child
  pub copy_stderr : Option ExitCode
  -- The connection.
  pub remote_connect : Option ExitCode
  pub authenticate : Option ExitCode
  pub send_header : Option ExitCode
  pub x_many_files : Option ExitCode
  pub x_file : Option ExitCode
  pub retrieve_results : Option ExitCode
  pub remote_status : ℕ

-- dcc_critique_status: a signal counts from 128.
unfoldable pub critique_status : Wait → ℕ → ℕ
critique_status wait status =
    if wait.signaled status then 128 + wait.termsig status else wait.exitstatus status

-- dcc_compile_local.
unfoldable pub compile_local : Calls → ℕ
unfolding critique_status
compile_local calls = elim calls.cc.spawned [
  | some ret ↦ code ret
  | none ↦ elim calls.cc.collected [
    | some ret ↦ code ret
    | none ↦ critique_status calls.wait calls.cc.status
  ]
]

-- The temporary file has the extension that preprocessed sources of the kind have.
cpp_name : Calls → Option (Bytes × Bytes) → Result Bytes
cpp_name calls none = undefined
cpp_name calls (some (stem, input_exten)) = elim (preproc_exten input_exten) [
  | none ↦ undefined
  | some output_exten ↦ calls.make_tmpnam output_exten
]

or_returned : {A : Type 0} → A → Option ExitCode → Result A
or_returned a none = ok a
or_returned a (some ret) = err ret

-- dcc_cpp_maybe: the name of the preprocessed source, and the command that makes it.
unfoldable pub cpp_maybe : Calls → Argv → Bytes → Result (Bytes × Option Argv)
unfolding cpp_name or_returned
cpp_maybe calls argv input_fname =
    if is_preprocessed calls.assemble input_fname then ok (input_fname, none) else (do
      cpp_fname ← cpp_name calls (find_extension input_fname)
      stripped ← strip_dasho argv
      cpp_argv ← set_action_opt stripped (codes "-E")
      or_returned (cpp_fname, some cpp_argv) calls.cpp.spawned)
