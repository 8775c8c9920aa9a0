-- ===== src/Client/Locks/Build.antt =====
-- The locks of the way to the last labels of dcc_build_somewhere in src/compile.c.
use distcc.Client.Locks.Remote.{IsFreeing, compile_remote-IsFreeing}
use distcc.Client.Branches.{if_branches, option_branches, result_branches, cpp_branches}
use distcc.Client.Locks.{
  Held, step, follow, IsReleasing, held-ne-none, after-IsReleasing, run_local-IsReleasing,
  lock_local-IsReleasing, fallback-IsReleasing,
}
use distcc.Prelude.{ℕ, ◌≡◌, refl, ◌==◌, ltb, Bool, true, false, Option, none, some, [], ◌∷◌, ◌++◌}
use distcc.Prelude.Bytes.{Bytes, codes}
use distcc.ExitCode.{code}
use distcc.Arg.{Argv, Scanned, scan_args}
use distcc.Hosts.{Hostdef}
use distcc.Client.{slot, local_cpp, locked, unlocked, enjoyed, ran_remote, Calls}
use distcc.Client.Remote.{Compiled, unlock_cpp, compile_remote}
use distcc.Client.Fallback.{unlock_cpu}
use distcc.Client.Build.{
  show_stderr, judge, after_remote, submit, cpp_event, is_running, on_this_side, server_argv,
  on_that_side, preprocess, perhaps_adjust, adjust, with_cpp_lock, is_local, with_host, choose_host,
  distribute, start, cpp_on_client, build_somewhere,
}
use distcc.Client.{cpp_maybe, critique_status}
use distcc.Arg.Expand.{expand_preprocessor_options}
use distcc.Strip.{strip_local_args}

take_slot : follow (locked slot ∷ []) (none, false) ≡ some (some slot, false)
unfolding follow step
take_slot = refl

take_cpp : follow (locked local_cpp ∷ []) (some slot, false) ≡ some (some slot, true)
unfolding follow step
take_cpp = refl

free_cpp : follow (unlocked local_cpp ∷ []) (some slot, true) ≡ some (some slot, false)
unfolding follow step
free_cpp = refl

free_slot :
    (host : Hostdef)
    → follow (enjoyed host ∷ unlocked slot ∷ []) (some slot, false) ≡ some (none, false)
unfolding follow step
free_slot host = refl

ran_remote-follow :
    (argv : Argv) (host : Hostdef) (held : Held)
    → follow (ran_remote argv host ∷ []) held ≡ some held
unfolding follow step
ran_remote-follow argv host held = refl

unlock_both :
    follow (unlock_cpu (some slot) ++ unlock_cpp true) (some slot, true) ≡ some (none, false)
unfolding follow step
unlock_both = refl

module _ (calls : Calls) (argv : Argv) (host : Hostdef) where
  show_stderr-IsReleasing : (ret : ℕ) → IsReleasing (none, false) (show_stderr calls argv host ret)
  unfolding show_stderr follow step
  show_stderr-IsReleasing ret =
      option_branches (IsReleasing (none, false)) calls.copy_stderr _ _ refl
        (λ _. fallback-IsReleasing calls argv (some host) 0 ret none false tt)

  judge-IsReleasing : (ret : ℕ) → IsReleasing (none, false) (judge calls argv host ret)
  unfolding judge
  judge-IsReleasing ret =
      if_branches (IsReleasing (none, false)) (ret == 0) _ _ (show_stderr-IsReleasing ret) (
        if_branches (IsReleasing (none, false)) (ltb ret 128) _ _
          (if_branches (IsReleasing (none, false)) calls.skip_local_retry _ _
            (show_stderr-IsReleasing ret)
            (fallback-IsReleasing calls argv (some host) ret ret none false tt))
          (fallback-IsReleasing calls argv (some host) 0 ret none false tt))

  after_remote-IsReleasing :
      (cpp : Bool) (got : Compiled)
      → IsFreeing cpp got
      → IsReleasing (some slot, cpp) (after_remote calls argv host got)
  unfolding after_remote
  after_remote-IsReleasing cpp got frees =
      after-IsReleasing got.events (some slot, cpp) (some slot, false) _ frees
        (option_branches (IsReleasing (some slot, false)) got.ret _ _
          (after-IsReleasing (enjoyed host ∷ unlocked slot ∷ []) (some slot, false) (none, false) _
            (free_slot host) (judge-IsReleasing (critique_status calls.wait got.status)))
          (λ ret. fallback-IsReleasing calls argv (some host) 0 (code ret) (some slot) false tt))

  submit-IsReleasing :
      (server_side_argv : Argv) (running cpp : Bool)
      → IsReleasing (some slot, cpp) (submit calls argv server_side_argv host running cpp)
  unfolding submit
  submit-IsReleasing server_side_argv running cpp =
      after-IsReleasing (ran_remote server_side_argv host ∷ []) (some slot, cpp) (some slot, cpp) _
        (ran_remote-follow server_side_argv host (some slot, cpp))
        (after_remote-IsReleasing cpp (compile_remote calls host running cpp)
          (compile_remote-IsFreeing calls host running cpp))

  cpp_event-follow : (child : Option Argv) (held : Held) → follow (cpp_event child) held ≡ some held
  unfolding follow step cpp_event
  cpp_event-follow none held = refl
  cpp_event-follow (some cpp_argv) held = refl

  on_this_side-IsReleasing :
      (input_fname : Bytes)
      → IsReleasing (some slot, true) (on_this_side calls argv input_fname host)
  unfolding on_this_side
  on_this_side-IsReleasing input_fname =
      result_branches (IsReleasing (some slot, true)) (cpp_maybe calls argv input_fname) _ _ _ _
        (held-ne-none (some slot, true)) (λ ret. held-ne-none (some slot, true))
        (λ ret. fallback-IsReleasing calls argv (some host) 0 1 (some slot) true tt)
        (λ got.
          after-IsReleasing (cpp_event got.1) (some slot, true) (some slot, true) _
            (cpp_event-follow got.1 (some slot, true))
            (submit-IsReleasing (strip_local_args argv) (is_running got.1) true))

module _ (calls : Calls) (argv : Argv) where
  on_that_side-IsReleasing :
      (scanned : Scanned) (host : Hostdef)
      → IsReleasing (some slot, true) (on_that_side calls argv scanned host)
  unfolding on_that_side
  on_that_side-IsReleasing scanned host =
      option_branches (IsReleasing (some slot, true)) calls.talk_to_include_server _ _
        (after-IsReleasing (unlocked local_cpp ∷ []) (some slot, true) (some slot, false) _ free_cpp
          (submit-IsReleasing calls argv host (server_argv calls.dotd_info argv scanned.output_file)
            false false))
        (λ ret.
          if_branches (IsReleasing (some slot, true)) calls.testing_include_server _ _
            (held-ne-none (some slot, true))
            (on_this_side-IsReleasing calls argv (cpp_on_client host) scanned.input_file))

  preprocess-IsReleasing :
      (scanned : Scanned) (host : Hostdef)
      → IsReleasing (some slot, true) (preprocess calls argv scanned host)
  unfolding preprocess
  preprocess-IsReleasing scanned host =
      if_branches (IsReleasing (some slot, true)) calls.scan_includes _ _ unlock_both (
        cpp_branches (IsReleasing (some slot, true)) host.cpp_where _ _ _
          (held-ne-none (some slot, true))
          (on_this_side-IsReleasing calls argv host scanned.input_file)
          (on_that_side-IsReleasing scanned host))

  adjust-IsReleasing :
      (scanned : Scanned) (host : Hostdef)
      → IsReleasing (some slot, true) (adjust calls argv scanned host)
  unfolding adjust
  adjust-IsReleasing scanned host =
      result_branches (IsReleasing (some slot, true)) (perhaps_adjust calls scanned.input_file host)
        _ _ _ _ (held-ne-none (some slot, true)) (λ ret. held-ne-none (some slot, true))
        (λ ret. held-ne-none (some slot, true))
        (λ adjusted. preprocess-IsReleasing scanned adjusted)

  with_cpp_lock-IsReleasing :
      (scanned : Scanned) (host : Hostdef)
      → IsReleasing (some slot, false) (with_cpp_lock calls argv scanned host)
  unfolding with_cpp_lock
  with_cpp_lock-IsReleasing scanned host =
      option_branches (IsReleasing (some slot, false)) calls.lock_local_cpp _ _
        (after-IsReleasing (locked local_cpp ∷ []) (some slot, false) (some slot, true) _ take_cpp
          (cpp_branches (IsReleasing (some slot, true)) host.cpp_where _ _ _
            (preprocess-IsReleasing scanned host) (preprocess-IsReleasing scanned host)
            (adjust-IsReleasing scanned host)))
        (λ ret. fallback-IsReleasing calls argv (some host) 0 (code ret) (some slot) false tt)

  with_host-IsReleasing :
      (scanned : Scanned) (host : Hostdef)
      → IsReleasing (none, false) (with_host calls argv scanned host)
  unfolding with_host
  with_host-IsReleasing scanned host =
      after-IsReleasing (locked slot ∷ []) (none, false) (some slot, false) _ take_slot
        (if_branches (IsReleasing (some slot, false)) (is_local host.mode) _ _
          (run_local-IsReleasing calls argv (some host) 0 (some slot) false tt)
          (with_cpp_lock-IsReleasing scanned host))

  choose_host-IsReleasing :
      (scanned : Scanned) → IsReleasing (none, false) (choose_host calls argv scanned)
  unfolding choose_host
  choose_host-IsReleasing scanned =
      result_branches (IsReleasing (none, false)) calls.picked _ _ _ _ (held-ne-none (none, false))
        (λ ret. held-ne-none (none, false))
        (λ ret. fallback-IsReleasing calls argv none 0 (code ret) none false tt)
        (λ host. with_host-IsReleasing scanned host)

distribute-IsReleasing :
    (calls : Calls) (scanned : Scanned) → IsReleasing (none, false) (distribute calls scanned)
unfolding distribute
distribute-IsReleasing calls scanned =
    result_branches (IsReleasing (none, false)) (calls.make_tmpnam (codes ".txt")) _ _ _ _
      (held-ne-none (none, false)) (λ ret. held-ne-none (none, false))
      (λ ret. fallback-IsReleasing calls scanned.newargv none 0 (code ret) none false tt)
      (λ server_stderr_fname. choose_host-IsReleasing calls scanned.newargv scanned)

-- dcc_build_somewhere, whatever its calls answer, takes its locks in order: a slot where it holds
-- nothing, and the preprocessor's lock behind the slot of a host; it gives back just what it
-- holds, in either order, and nothing is held any more where it returns.
pub build_somewhere-IsReleasing :
    (calls : Calls) (recursive : Bool) (argv : Argv)
    → IsReleasing (none, false) (build_somewhere calls recursive argv)
unfolding build_somewhere start
build_somewhere-IsReleasing calls recursive argv =
    option_branches (IsReleasing (none, false)) (expand_preprocessor_options argv) _ _
      (held-ne-none (none, false))
      (λ expanded.
        if_branches (IsReleasing (none, false)) recursive _ _
          (run_local-IsReleasing calls expanded none 0 none false tt)
          (result_branches (IsReleasing (none, false)) (scan_args calls.assemble expanded) _ _ _ _
            (held-ne-none (none, false)) (λ ret. held-ne-none (none, false))
            (λ ret. lock_local-IsReleasing calls expanded none 0)
            (λ scanned. distribute-IsReleasing calls scanned)))
