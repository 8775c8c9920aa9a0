-- ===== src/Client/Returns/Build.antt =====
-- What is returned on the way to the last labels of dcc_build_somewhere in src/compile.c.
use distcc.Client.Returns.Remote.{IsAsked, compile_remote-IsAsked}
use distcc.Client.Branches.{
  if_branches, if_cases, if_skipped, option_branches, option_cases, result_branches, cpp_branches,
}
use distcc.Client.Returns.{
  local_runs, shown, IsPlain, IsStatus, IsAnswered, after-IsAnswered, run_local-IsAnswered,
  lock_local-IsAnswered, fallback-IsAnswered,
}
use distcc.Prelude.{
  ℕ, ◌≡◌, ◌<◌, ◌⊎◌, refl, ◌==◌, ltb, Bool, true, false, inl, inr, Option, none, some, [], ◌∷◌,
  arith,
}
use distcc.Prelude.Bytes.{Bytes, codes}
use distcc.ExitCode.{code}
use distcc.Arg.{Argv, Scanned, scan_args}
use distcc.Hosts.{Hostdef}
use distcc.Client.{
  Lock, slot, local_cpp, locked, unlocked, enjoyed, ran_remote, copied_stderr, Calls,
}
use distcc.Client.Remote.{Compiled, compile_remote}
use distcc.Client.Build.{
  show_stderr, judge, after_remote, submit, cpp_event, is_running, on_this_side, server_argv,
  on_that_side, preprocess, perhaps_adjust, adjust, with_cpp_lock, is_local, with_host, choose_host,
  distribute, start, cpp_on_client, build_somewhere,
}
use distcc.Client.{cpp_maybe, critique_status}
use distcc.Arg.Expand.{expand_preprocessor_options}
use distcc.Strip.{strip_local_args}

one-IsPlain : (argv : Argv) (host : Hostdef) → IsPlain (ran_remote argv host ∷ [])
unfolding local_runs shown
one-IsPlain argv host = (refl, refl)

enjoyed-IsPlain : (host : Hostdef) → IsPlain (enjoyed host ∷ unlocked slot ∷ [])
unfolding local_runs shown
enjoyed-IsPlain host = (refl, refl)

locked-IsPlain : (lock : Lock) → IsPlain (locked lock ∷ [])
unfolding local_runs shown
locked-IsPlain lock = (refl, refl)

unlocked-IsPlain : (lock : Lock) → IsPlain (unlocked lock ∷ [])
unfolding local_runs shown
unlocked-IsPlain lock = (refl, refl)

cpp_event-IsPlain : (child : Option Argv) → IsPlain (cpp_event child)
unfolding local_runs shown cpp_event
cpp_event-IsPlain none = (refl, refl)
cpp_event-IsPlain (some cpp_argv) = (refl, refl)

shown_once : local_runs (copied_stderr ∷ []) ≡ 0 × (shown (copied_stderr ∷ []) ≡ 1)
unfolding local_runs shown
shown_once = (refl, refl)

module _ (calls : Calls) (enabled : calls.fallback ≡ true) (argv : Argv) where
  show_stderr-IsAnswered :
      (host : Hostdef) (ret : ℕ)
      → ((status : ℕ) × IsStatus calls status × (ret ≡ critique_status calls.wait status))
      → ((ret ≡ 0) ⊎ ((calls.skip_local_retry ≡ true) × (ret < 128)))
      → IsAnswered calls (show_stderr calls argv host ret)
  unfolding show_stderr
  show_stderr-IsAnswered host ret asked judged =
      option_branches (IsAnswered calls) calls.copy_stderr _ _
        (inr (shown_once.0, shown_once.1, asked, judged))
        (λ _. fallback-IsAnswered calls argv (some host) 0 ret none false enabled)

  judge-IsAnswered :
      (host : Hostdef) (ret : ℕ)
      → ((status : ℕ) × IsStatus calls status × (ret ≡ critique_status calls.wait status))
      → IsAnswered calls (judge calls argv host ret)
  unfolding judge
  judge-IsAnswered host ret asked =
      if_cases (IsAnswered calls) (ret == 0) _ _
        (λ zero_ret. show_stderr-IsAnswered host ret asked (inl (ground arith)))
        (λ _.
          if_cases (IsAnswered calls) (ltb ret 128) _ _
            (λ small.
              if_cases (IsAnswered calls) calls.skip_local_retry _ _
                (λ skip. show_stderr-IsAnswered host ret asked (inr (skip, ground arith)))
                (λ _. fallback-IsAnswered calls argv (some host) ret ret none false enabled))
            (λ _. fallback-IsAnswered calls argv (some host) 0 ret none false enabled))

  after_remote-IsAnswered :
      (host : Hostdef) (got : Compiled)
      → IsAsked calls got
      → IsAnswered calls (after_remote calls argv host got)
  unfolding after_remote
  after_remote-IsAnswered host got (plain, asked) = after-IsAnswered calls got.events _ plain (
      option_cases (IsAnswered calls) got.ret _ _
        (λ returned.
          after-IsAnswered calls (enjoyed host ∷ unlocked slot ∷ []) _ (enjoyed-IsPlain host) (
            judge-IsAnswered host (critique_status calls.wait got.status)
              (got.status, asked returned, refl)))
        (λ ret _.
          fallback-IsAnswered calls argv (some host) 0 (code ret) (some slot) false enabled))

  submit-IsAnswered :
      (host : Hostdef) (server_side_argv : Argv) (running held : Bool)
      → IsAnswered calls (submit calls argv server_side_argv host running held)
  unfolding submit
  submit-IsAnswered host server_side_argv running held =
      after-IsAnswered calls (ran_remote server_side_argv host ∷ []) _
        (one-IsPlain server_side_argv host)
        (after_remote-IsAnswered host (compile_remote calls host running held)
          (compile_remote-IsAsked calls host running held))

  on_this_side-IsAnswered :
      (host : Hostdef) (input_fname : Bytes)
      → IsAnswered calls (on_this_side calls argv input_fname host)
  unfolding on_this_side
  on_this_side-IsAnswered host input_fname =
      result_branches (IsAnswered calls) (cpp_maybe calls argv input_fname) _ _ _ _ tt (λ ret. tt)
        (λ ret. fallback-IsAnswered calls argv (some host) 0 1 (some slot) true enabled)
        (λ got.
          after-IsAnswered calls (cpp_event got.1) _ (cpp_event-IsPlain got.1)
            (submit-IsAnswered host (strip_local_args argv) (is_running got.1) true))

  on_that_side-IsAnswered :
      (scanned : Scanned) (host : Hostdef) → IsAnswered calls (on_that_side calls argv scanned host)
  unfolding on_that_side
  on_that_side-IsAnswered scanned host =
      option_branches (IsAnswered calls) calls.talk_to_include_server _ _
        (after-IsAnswered calls (unlocked local_cpp ∷ []) _ (unlocked-IsPlain local_cpp) (
          submit-IsAnswered host (server_argv calls.dotd_info argv scanned.output_file) false
            false))
        (λ ret.
          if_branches (IsAnswered calls) calls.testing_include_server _ _ tt
            (on_this_side-IsAnswered (cpp_on_client host) scanned.input_file))

  module _ (compiling : calls.scan_includes ≡ false) (scanned : Scanned) where
    preprocess-IsAnswered : (host : Hostdef) → IsAnswered calls (preprocess calls argv scanned host)
    unfolding preprocess
    preprocess-IsAnswered host = if_skipped (IsAnswered calls) calls.scan_includes _ _ compiling (
        cpp_branches (IsAnswered calls) host.cpp_where _ _ _ tt
          (on_this_side-IsAnswered host scanned.input_file) (on_that_side-IsAnswered scanned host))

    adjust-IsAnswered : (host : Hostdef) → IsAnswered calls (adjust calls argv scanned host)
    unfolding adjust
    adjust-IsAnswered host =
        result_branches (IsAnswered calls) (perhaps_adjust calls scanned.input_file host) _ _ _ _ tt
          (λ ret. tt) (λ ret. tt) preprocess-IsAnswered

    with_cpp_lock-IsAnswered :
        (host : Hostdef) → IsAnswered calls (with_cpp_lock calls argv scanned host)
    unfolding with_cpp_lock
    with_cpp_lock-IsAnswered host =
        option_branches (IsAnswered calls) calls.lock_local_cpp _ _
          (after-IsAnswered calls (locked local_cpp ∷ []) _ (locked-IsPlain local_cpp) (
            cpp_branches (IsAnswered calls) host.cpp_where _ _ _ (preprocess-IsAnswered host)
              (preprocess-IsAnswered host) (adjust-IsAnswered host)))
          (λ ret. fallback-IsAnswered calls argv (some host) 0 (code ret) (some slot) false enabled)

    with_host-IsAnswered : (host : Hostdef) → IsAnswered calls (with_host calls argv scanned host)
    unfolding with_host
    with_host-IsAnswered host = after-IsAnswered calls (locked slot ∷ []) _ (locked-IsPlain slot) (
        if_branches (IsAnswered calls) (is_local host.mode) _ _
          (run_local-IsAnswered calls argv (some host) 0 (some slot) false)
          (with_cpp_lock-IsAnswered host))

    choose_host-IsAnswered : IsAnswered calls (choose_host calls argv scanned)
    unfolding choose_host
    choose_host-IsAnswered =
        result_branches (IsAnswered calls) calls.picked _ _ _ _ tt (λ ret. tt)
          (λ ret. fallback-IsAnswered calls argv none 0 (code ret) none false enabled)
          with_host-IsAnswered

distribute-IsAnswered :
    (calls : Calls)
    → calls.fallback ≡ true
    → calls.scan_includes ≡ false
    → (scanned : Scanned) → IsAnswered calls (distribute calls scanned)
unfolding distribute
distribute-IsAnswered calls enabled compiling scanned =
    result_branches (IsAnswered calls) (calls.make_tmpnam (codes ".txt")) _ _ _ _ tt (λ ret. tt)
      (λ ret. fallback-IsAnswered calls scanned.newargv none 0 (code ret) none false enabled)
      (λ server_stderr_fname.
        choose_host-IsAnswered calls enabled scanned.newargv compiling scanned)

-- Where falling back is enabled and the includes are not only scanned, a value that dcc_build_somewhere
-- returns is the local compiler's, which has been run once, without the server's messages being
-- shown; or the local compiler has not been run, the server's messages have been shown once, and the
-- value is what dcc_critique_status makes of the server's status, whose results were all received, or
-- of that of a preprocessor that has failed: 0, or, with DISTCC_SKIP_LOCAL_RETRY, a value below 128.
pub build_somewhere-IsAnswered :
    (calls : Calls) (recursive : Bool) (argv : Argv)
    → calls.fallback ≡ true
    → calls.scan_includes ≡ false
    → IsAnswered calls (build_somewhere calls recursive argv)
unfolding build_somewhere start
build_somewhere-IsAnswered calls recursive argv enabled compiling =
    option_branches (IsAnswered calls) (expand_preprocessor_options argv) _ _ tt (λ expanded.
      if_branches (IsAnswered calls) recursive _ _
        (run_local-IsAnswered calls expanded none 0 none false)
        (result_branches (IsAnswered calls) (scan_args calls.assemble expanded) _ _ _ _ tt
          (λ ret. tt) (λ ret. lock_local-IsAnswered calls expanded none 0)
          (distribute-IsAnswered calls enabled compiling)))
