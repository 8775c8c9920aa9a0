-- ===== src/Client/Remote.antt =====
-- dcc_compile_remote of src/remote.c.
use distcc.Prelude.{
  ℕ, Bool, true, false, ◌==◌, Option, none, some, List, [], ◌∷◌, ◌++◌, if◌then◌else◌,
}
use distcc.ExitCode.{ExitCode}
use distcc.Hosts.{Hostdef, on_client, on_server}
use distcc.Client.{local_cpp, Event, unlocked, Calls}

-- Events, the return value, and `*status`.
pub record Compiled : Type 0 where
  pub events : List Event
  pub ret : Option ExitCode
  pub status : ℕ

-- `if (local_cpu_lock_fd != -1)`.
abbrev pub unlock_cpp : Bool → List Event
unlock_cpp held = if held then unlocked local_cpp ∷ [] else []

-- From the label on: the lock is given back if it is still held.
abbrev pub out : List Event → Bool → Option ExitCode → ℕ → Compiled
out events held ret status = record {
  events = events ++ unlock_cpp held;
  ret = ret;
  status = status;
}

-- The request has been sent.
unfoldable pub retrieve : Calls → List Event → Bool → Compiled
retrieve calls events held = out events held calls.retrieve_results calls.remote_status

-- dcc_wait_for_cpp. No child is waited for where the source was preprocessed already.
unfoldable pub wait_for_cpp : Calls → Bool → Option ExitCode × ℕ
wait_for_cpp calls false = (none, 0)
wait_for_cpp calls true = (calls.cpp.collected, calls.cpp.status)

-- The preprocessor has ended: its lock is given back, and the source is sent if there is one.
unfoldable pub send_source : Calls → Bool → ℕ → Compiled
unfolding retrieve
send_source calls held status =
    let freed = unlock_cpp held in
    if status == 0
    then (elim calls.x_file [
      | some ret ↦ out freed false (some ret) status
      | none ↦ retrieve calls freed false
    ])
    else out freed false none status

-- The request with a preprocessed source, behind the header.
unfoldable pub send_doti : Calls → Bool → Bool → Compiled
unfolding send_source wait_for_cpp
send_doti calls running held =
    let (ret, status) = wait_for_cpp calls running in
    elim ret [ some ret ↦ out [] held (some ret) status | none ↦ send_source calls held status ]

unfoldable pub send_request : Calls → Hostdef → Bool → Bool → Compiled
unfolding send_doti retrieve
send_request calls host running held = elim calls.send_header [
  | some ret ↦ out [] held (some ret) 0
  | none ↦ elim host.cpp_where [
    | some on_server ↦ elim calls.x_many_files [
      | some ret ↦ out [] held (some ret) 0
      | none ↦ retrieve calls [] held
    ]
    | some on_client ↦ send_doti calls running held
    | none ↦ send_doti calls running held
  ]
]

-- The build has HAVE_GSSAPI.
unfoldable pub performed : Calls → Hostdef → Option ExitCode
performed calls host = if host.authenticate then calls.authenticate else none

-- `running` says that cpp_pid is not zero, and `held` that local_cpu_lock_fd is not -1.
unfoldable pub compile_remote : Calls → Hostdef → Bool → Bool → Compiled
unfolding send_request performed
compile_remote calls host running held = elim calls.remote_connect [
  | some ret ↦ out [] held (some ret) 0
  | none ↦ elim (performed calls host) [
    | some ret ↦ out [] held (some ret) 0
    | none ↦ send_request calls host running held
  ]
]
