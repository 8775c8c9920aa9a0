-- ===== src/Client/Locks/Remote.antt =====
-- The preprocessor's lock in dcc_compile_remote of src/remote.c.
use distcc.Client.Branches.{if_branches, option_branches, cpp_branches}
use distcc.Client.Locks.{step, follow}
use distcc.Prelude.{ℕ, ◌≡◌, refl, ◌==◌, Bool, true, false, Option, none, some, []}
use distcc.ExitCode.{ExitCode}
use distcc.Hosts.{Hostdef}
use distcc.Client.{slot, Calls}
use distcc.Client.Remote.{
  Compiled, unlock_cpp, out, retrieve, wait_for_cpp, send_source, send_doti, send_request,
  performed, compile_remote,
}

-- dcc_compile_remote gives the preprocessor's lock back.
abbrev pub IsFreeing : Bool → Compiled → Type 0
IsFreeing cpp got = follow got.events (some slot, cpp) ≡ some (some slot, false)

out-IsFreeing :
    (cpp : Bool) (ret : Option ExitCode) (status : ℕ) → IsFreeing cpp (out [] cpp ret status)
unfolding follow step
out-IsFreeing false ret status = refl
out-IsFreeing true ret status = refl

freed-IsFreeing :
    (cpp : Bool) (ret : Option ExitCode) (status : ℕ)
    → IsFreeing cpp (out (unlock_cpp cpp) false ret status)
unfolding follow step
freed-IsFreeing false ret status = refl
freed-IsFreeing true ret status = refl

module _ (calls : Calls) where
  send_doti-IsFreeing : (running cpp : Bool) → IsFreeing cpp (send_doti calls running cpp)
  unfolding send_doti send_source retrieve
  send_doti-IsFreeing running cpp =
      let (ret, status) = wait_for_cpp calls running in
      option_branches (IsFreeing cpp) ret _ _
        (if_branches (IsFreeing cpp) (status == 0) _ _
          (option_branches (IsFreeing cpp) calls.x_file _ _
            (freed-IsFreeing cpp calls.retrieve_results calls.remote_status)
            (λ ret. freed-IsFreeing cpp (some ret) status))
          (freed-IsFreeing cpp none status))
        (λ ret. out-IsFreeing cpp (some ret) status)

  send_request-IsFreeing :
      (host : Hostdef) (running cpp : Bool) → IsFreeing cpp (send_request calls host running cpp)
  unfolding send_request retrieve
  send_request-IsFreeing host running cpp =
      option_branches (IsFreeing cpp) calls.send_header _ _
        (cpp_branches (IsFreeing cpp) host.cpp_where _ _ _ (send_doti-IsFreeing running cpp)
          (send_doti-IsFreeing running cpp)
          (option_branches (IsFreeing cpp) calls.x_many_files _ _
            (out-IsFreeing cpp calls.retrieve_results calls.remote_status)
            (λ ret. out-IsFreeing cpp (some ret) 0)))
        (λ ret. out-IsFreeing cpp (some ret) 0)

  pub compile_remote-IsFreeing :
      (host : Hostdef) (running cpp : Bool) → IsFreeing cpp (compile_remote calls host running cpp)
  unfolding compile_remote
  compile_remote-IsFreeing host running cpp =
      option_branches (IsFreeing cpp) calls.remote_connect _ _
        (option_branches (IsFreeing cpp) (performed calls host) _ _
          (send_request-IsFreeing host running cpp) (λ ret. out-IsFreeing cpp (some ret) 0))
        (λ ret. out-IsFreeing cpp (some ret) 0)
