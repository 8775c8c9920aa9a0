-- ===== src/Client/Returns/Remote.antt =====
-- What dcc_compile_remote of src/remote.c returns.
use distcc.Client.Branches.{if_cases, option_branches, option_cases, cpp_branches}
use distcc.Client.Returns.{local_runs, shown, IsPlain, IsStatus}
use distcc.Prelude.{
  ℕ, ◌≡◌, refl, ◌==◌, Bool, true, false, inl, inr, none, some, List, [], ◌++◌, arith,
}
use distcc.ExitCode.{ExitCode}
use distcc.Hosts.{Hostdef}
use distcc.Client.{Event, Calls}
use distcc.Client.Remote.{
  Compiled, unlock_cpp, out, retrieve, wait_for_cpp, send_source, send_doti, send_request,
  performed, compile_remote,
}

-- dcc_compile_remote does not run the compiler here, and where it returns zero there is a status.
abbrev pub IsAsked : Calls → Compiled → Type 0
IsAsked calls got = IsPlain got.events × (got.ret ≡ none → IsStatus calls got.status)

unlock_cpp-IsPlain : (held : Bool) → IsPlain (unlock_cpp held)
unfolding local_runs shown
unlock_cpp-IsPlain false = (refl, refl)
unlock_cpp-IsPlain true = (refl, refl)

freed-IsPlain : (held : Bool) → IsPlain (unlock_cpp held ++ [])
unfolding local_runs shown
freed-IsPlain false = (refl, refl)
freed-IsPlain true = (refl, refl)

module _ (calls : Calls) where
  out-IsAsked :
      (held : Bool) (ret : ExitCode) (status : ℕ) → IsAsked calls (out [] held (some ret) status)
  out-IsAsked held ret status = (unlock_cpp-IsPlain held, λ h. cc)

  wait_for_cpp-IsStatus :
      (running : Bool)
      → (wait_for_cpp calls running).0 ≡ none
      → ((wait_for_cpp calls running).1 == 0) ≡ false
      → IsStatus calls (wait_for_cpp calls running).1
  unfolding wait_for_cpp
  wait_for_cpp-IsStatus false collected failed = ground arith
  wait_for_cpp-IsStatus true collected failed = inr (collected, ground arith, refl)

  retrieve-IsAsked :
      (events : List Event) (held : Bool)
      → IsPlain (events ++ unlock_cpp held)
      → IsAsked calls (retrieve calls events held)
  unfolding retrieve
  retrieve-IsAsked events held plain = (plain, λ received. inl (received, refl))

  send_source-IsAsked :
      (held : Bool) (status : ℕ)
      → ((status == 0) ≡ false → IsStatus calls status)
      → IsAsked calls (send_source calls held status)
  unfolding send_source
  send_source-IsAsked held status failed =
      if_cases (IsAsked calls) (status == 0) _ _
        (λ _.
          option_branches (IsAsked calls) calls.x_file _ _
            (retrieve-IsAsked (unlock_cpp held) false (freed-IsPlain held))
            (λ ret. (freed-IsPlain held, λ h. cc)))
        (λ nonzero. (freed-IsPlain held, λ _. failed nonzero))

  send_doti-IsAsked : (running held : Bool) → IsAsked calls (send_doti calls running held)
  unfolding send_doti
  send_doti-IsAsked running held =
      option_cases (IsAsked calls) (wait_for_cpp calls running).0 _ _
        (λ collected.
          send_source-IsAsked held (wait_for_cpp calls running).1
            (wait_for_cpp-IsStatus running collected))
        (λ ret _. out-IsAsked held ret (wait_for_cpp calls running).1)

  send_request-IsAsked :
      (host : Hostdef) (running held : Bool) → IsAsked calls (send_request calls host running held)
  unfolding send_request
  send_request-IsAsked host running held =
      option_branches (IsAsked calls) calls.send_header _ _
        (cpp_branches (IsAsked calls) host.cpp_where _ _ _ (send_doti-IsAsked running held)
          (send_doti-IsAsked running held)
          (option_branches (IsAsked calls) calls.x_many_files _ _
            (retrieve-IsAsked [] held (unlock_cpp-IsPlain held)) (λ ret. out-IsAsked held ret 0)))
        (λ ret. out-IsAsked held ret 0)

  pub compile_remote-IsAsked :
      (host : Hostdef) (running held : Bool)
      → IsAsked calls (compile_remote calls host running held)
  unfolding compile_remote
  compile_remote-IsAsked host running held =
      option_branches (IsAsked calls) calls.remote_connect _ _
        (option_branches (IsAsked calls) (performed calls host) _ _
          (send_request-IsAsked host running held) (λ ret. out-IsAsked held ret 0))
        (λ ret. out-IsAsked held ret 0)
