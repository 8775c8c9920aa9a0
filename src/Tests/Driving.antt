-- ===== src/Tests/Driving.antt =====
-- The client's driver of src/compile.c.
use distcc.Prelude.{ℕ, ◌≡◌, refl, true, false, none, some, [], ◌∷◌}
use distcc.Prelude.Bytes.{codes}
use distcc.ExitCode.{ok}
use distcc.Arg.{Argv}
use distcc.Hosts.{Hostdef, tcp, lzo1x, on_client}
use distcc.Hosts.Parser.{new_host}
use distcc.Client.{
  slot, local_cpp, local_slot, locked, unlocked, enjoyed, disliked, ran_local, ran_remote,
  copied_stderr, Wait, Child, Calls, critique_status, compile_local,
}
use distcc.Client.Remote.{
  compile_remote, send_request, performed, wait_for_cpp, send_source, send_doti, retrieve,
}
use distcc.Client.Fallback.{fallback, lock_local, run_local, dislike}
use distcc.Client.Build.{submit, after_remote, judge, show_stderr, build_somewhere}
use distcc.Client.Locks.{IsReleasing}
use distcc.Client.Locks.Build.{build_somewhere-IsReleasing}
use distcc.Client.Returns.{IsAnswered}
use distcc.Client.Returns.Build.{build_somewhere-IsAnswered}

-- A status is an exit status of less than 128, or 128 and a signal.
abbrev waits : Wait
waits = record { signaled = λ status. false; termsig = λ status. 0; exitstatus = λ status. status }

abbrev fine : Child
fine = record { spawned = none; collected = none; status = 0 }

abbrev pump : Hostdef
pump = record (new_host (codes "pump,lzo,cpp")) {
  mode = some tcp;
  protover = 3;
  compr = lzo1x;
  cpp_where = some on_client;
}

-- Everything succeeds, but for the remote compiler, which has the given status.
abbrev calls : ℕ → Calls
calls status = record {
  wait = waits;
  assemble = true;
  scan_includes = false;
  fallback = true;
  skip_local_retry = false;
  testing_include_server = false;
  max_discrepancy = none;
  include_paths = false;
  make_tmpnam = λ suffix. ok suffix;
  discrepancies = 0;
  picked = ok pump;
  lock_local_cpp = none;
  lock_local = none;
  talk_to_include_server = none;
  categorized = none;
  dotd_info = (false, false, none);
  cpp = fine;
  cc = fine;
  copy_stderr = none;
  remote_connect = none;
  authenticate = none;
  send_header = none;
  x_many_files = none;
  x_file = none;
  retrieve_results = none;
  remote_status = status;
}

abbrev command : Argv
command = codes "cc" ∷ codes "-c" ∷ codes "a.c" ∷ []

submit_runs :
    (submit (calls 0) command command pump true true ≡ (
      ran_remote command pump
          ∷ unlocked local_cpp
          ∷ enjoyed pump
          ∷ unlocked slot
          ∷ copied_stderr
          ∷ [],
      ok 0,
    ))
    × (submit (calls 1) command command pump true true ≡ (
      ran_remote command pump
          ∷ unlocked local_cpp
          ∷ enjoyed pump
          ∷ unlocked slot
          ∷ disliked pump
          ∷ locked local_slot
          ∷ ran_local command
          ∷ distcc.Client.emailed
          ∷ unlocked local_slot
          ∷ [],
      ok 0,
    ))
unfolding submit after_remote judge show_stderr compile_remote send_request performed wait_for_cpp
    send_source send_doti retrieve critique_status compile_local fallback lock_local run_local
    dislike
submit_runs = (refl, refl)

build_somewhere-IsReleasing_example :
    IsReleasing (none, false) (build_somewhere (calls 1) false command)
build_somewhere-IsReleasing_example = build_somewhere-IsReleasing (calls 1) false command

build_somewhere-IsAnswered_example : IsAnswered (calls 0) (build_somewhere (calls 0) false command)
build_somewhere-IsAnswered_example = build_somewhere-IsAnswered (calls 0) false command refl refl
