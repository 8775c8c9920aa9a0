-- ===== src/Client/Build.antt =====
-- dcc_build_somewhere of src/compile.c. Each stretch of it is a function that
-- calls the next.
use distcc.Prelude.{
  ℕ, ◌==◌, ltb, leb, Bool, true, false, not, ◌&&◌, Option, none, some, List, [], ◌∷◌, if◌then◌else◌,
}
use distcc.Prelude.Bytes.{Bytes, codes}
use distcc.ExitCode.{code, Result, ok, err, exits, undefined, distcc_failed}
use distcc.Filename.{is_preprocessed}
use distcc.Arg.{Argv, Scanned, scan_args, argv_append}
use distcc.Arg.Expand.{expand_preprocessor_options}
use distcc.Strip.{strip_local_args}
use distcc.Hosts.Numbers.{ℤ, pos, negsuc, atoi}
use distcc.Hosts.{Hostdef, Mode, tcp, ssh, local, on_client, on_server, get_protover_from_features}
use distcc.Client.{
  slot, local_cpp, Event, locked, unlocked, enjoyed, ran_cpp, ran_remote, copied_stderr, Outcome,
  after, Calls, critique_status, cpp_maybe,
}
use distcc.Client.Remote.{Compiled, compile_remote}
use distcc.Client.Fallback.{unlock_and_clean_up, run_local, lock_local, fallback}
use distcc.Io.{positive_or_exit}

-- The server's messages are shown, or else the caller falls back.
unfoldable pub show_stderr : Calls → Argv → Hostdef → ℕ → Outcome
show_stderr calls argv host ret = elim calls.copy_stderr [
  | none ↦ (copied_stderr ∷ [], ok ret)
  | some _ ↦ fallback calls argv (some host) 0 ret none false
]

-- What follows dcc_critique_status of the remote compiler, which has returned `ret`.
unfoldable pub judge : Calls → Argv → Hostdef → ℕ → Outcome
unfolding show_stderr
judge calls argv host ret =
    if ret == 0
    then show_stderr calls argv host ret
    else if ltb ret 128
    then (if calls.skip_local_retry
        then show_stderr calls argv host ret
        else fallback calls argv (some host) ret ret none false)
    else fallback calls argv (some host) 0 ret none false

unfoldable pub after_remote : Calls → Argv → Hostdef → Compiled → Outcome
after_remote calls argv host got = after got.events (elim got.ret [
  | some ret ↦ fallback calls argv (some host) 0 (code ret) (some slot) false
  | none ↦
      after (enjoyed host ∷ unlocked slot ∷ [])
        (judge calls argv host (critique_status calls.wait got.status))
])

-- The call of dcc_compile_remote. `running` says that cpp_pid is not zero.
unfoldable pub submit : Calls → Argv → Argv → Hostdef → Bool → Bool → Outcome
unfolding after_remote
submit calls argv server_side_argv host running held =
    after (ran_remote server_side_argv host ∷ [])
      (after_remote calls argv host (compile_remote calls host running held))

unfoldable pub cpp_event : Option Argv → List Event
cpp_event none = []
cpp_event (some cpp_argv) = ran_cpp cpp_argv ∷ []

unfoldable pub is_running : Option Argv → Bool
is_running none = false
is_running (some cpp_argv) = true

-- Preprocessing on the client. The parentheses in `(ret = dcc_cpp_maybe(…) != 0)` make `ret` 1.
unfoldable pub on_this_side : Calls → Argv → Bytes → Hostdef → Outcome
unfolding cpp_event is_running
on_this_side calls argv input_fname host = elim (cpp_maybe calls argv input_fname) [
  | undefined ↦ ([], undefined)
  | exits ret ↦ ([], exits ret)
  | err ret ↦ fallback calls argv (some host) 0 1 (some slot) true
  | ok got ↦
      after (cpp_event got.1)
        (submit calls argv (strip_local_args argv) host (is_running got.1) true)
]

-- The argv that the server preprocesses with.
unfoldable pub server_argv : Bool × Bool × Option Bytes → Argv → Bytes → Argv
server_argv (needs_dotd, sets_dotd_target, dotd_target) argv output_fname =
    if needs_dotd && not sets_dotd_target
    then (argv_append (argv_append argv (codes "-MT"))
        (elim dotd_target [ none ↦ output_fname | some target ↦ target ]))
    else argv

-- The feature is taken from the host, with the protocol version that is left.
abbrev pub cpp_on_client : Hostdef → Hostdef
cpp_on_client host = record host {
  cpp_where = some on_client;
  protover = elim (get_protover_from_features host.compr on_client) [
    | none ↦ host.protover
    | some protover ↦ protover
  ];
}

-- The server preprocesses, if the include server has found its files.
unfoldable pub on_that_side : Calls → Argv → Scanned → Hostdef → Outcome
unfolding server_argv
on_that_side calls argv scanned host = elim calls.talk_to_include_server [
  | none ↦
      after (unlocked local_cpp ∷ [])
        (submit calls argv (server_argv calls.dotd_info argv scanned.output_file) host false false)
  | some ret ↦
      if calls.testing_include_server
      then ([], exits ret)
      else on_this_side calls argv scanned.input_file (cpp_on_client host)
]

-- dcc_approximate_includes.
unfoldable pub approximate_includes : Calls → Hostdef → ℕ
approximate_includes calls host = elim host.cpp_where [
  | none ↦ code distcc_failed
  | some on_client ↦ code distcc_failed
  | some on_server ↦ elim calls.talk_to_include_server [
    | some ret ↦ code ret
    | none ↦ elim calls.categorized [ some ret ↦ code ret | none ↦ 0 ]
  ]
]

-- Both locks are held, and the host has been adjusted. A host without the feature sends `files`
-- without a value.
unfoldable pub preprocess : Calls → Argv → Scanned → Hostdef → Outcome
preprocess calls argv scanned host =
    if calls.scan_includes
    then unlock_and_clean_up (some slot) true (approximate_includes calls host)
    else (elim host.cpp_where [
      | none ↦ ([], undefined)
      | some on_client ↦ on_this_side calls argv scanned.input_file host
      | some on_server ↦ on_that_side calls argv scanned host
    ])

is_at_least : ℕ → ℤ → Bool
is_at_least size (pos n) = leb n size
is_at_least size (negsuc n) = true

-- dcc_get_max_discrepancies_before_demotion, without the value that it remembers.
abbrev max_discrepancies : Option Bytes → Result ℤ
max_discrepancies none = ok (pos 1)
max_discrepancies (some user_setting) = positive_or_exit (atoi user_setting)

demote : Bool → Hostdef → Hostdef
demote unwise host = if unwise then cpp_on_client host else host

-- dcc_perhaps_adjust_cpp_where_and_protover.
unfoldable pub perhaps_adjust : Calls → Bytes → Hostdef → Result Hostdef
unfolding demote is_at_least
perhaps_adjust calls input_fname host = elim (max_discrepancies calls.max_discrepancy) [
  | undefined ↦ undefined
  | exits ret ↦ exits ret
  | err ret ↦ err ret
  | ok most ↦ ok (
      demote calls.include_paths (
        demote (is_preprocessed calls.assemble input_fname)
          (demote (is_at_least calls.discrepancies most) host)))
]

unfoldable pub adjust : Calls → Argv → Scanned → Hostdef → Outcome
unfolding preprocess
adjust calls argv scanned host = elim (perhaps_adjust calls scanned.input_file host) [
  | undefined ↦ ([], undefined)
  | exits ret ↦ ([], exits ret)
  | err ret ↦ ([], undefined)
  | ok adjusted ↦ preprocess calls argv scanned adjusted
]

unfoldable pub with_cpp_lock : Calls → Argv → Scanned → Hostdef → Outcome
unfolding adjust preprocess
with_cpp_lock calls argv scanned host = elim calls.lock_local_cpp [
  | some ret ↦ fallback calls argv (some host) 0 (code ret) (some slot) false
  | none ↦ after (locked local_cpp ∷ []) (elim host.cpp_where [
    | none ↦ preprocess calls argv scanned host
    | some on_client ↦ preprocess calls argv scanned host
    | some on_server ↦ adjust calls argv scanned host
  ])
]

unfoldable pub is_local : Option Mode → Bool
is_local none = false
is_local (some tcp) = false
is_local (some ssh) = false
is_local (some local) = true

-- A host has been chosen, and its slot is locked.
unfoldable pub with_host : Calls → Argv → Scanned → Hostdef → Outcome
unfolding with_cpp_lock is_local
with_host calls argv scanned host = after (locked slot ∷ []) (
    if is_local host.mode
    then run_local calls argv (some host) 0 (some slot) false
    else with_cpp_lock calls argv scanned host)

unfoldable pub choose_host : Calls → Argv → Scanned → Outcome
unfolding with_host
choose_host calls argv scanned = elim calls.picked [
  | undefined ↦ ([], undefined)
  | exits ret ↦ ([], exits ret)
  | err ret ↦ fallback calls argv none 0 (code ret) none false
  | ok host ↦ with_host calls argv scanned host
]

unfoldable pub distribute : Calls → Scanned → Outcome
unfolding choose_host
distribute calls scanned = elim (calls.make_tmpnam (codes ".txt")) [
  | undefined ↦ ([], undefined)
  | exits ret ↦ ([], exits ret)
  | err ret ↦ fallback calls scanned.newargv none 0 (code ret) none false
  | ok server_stderr_fname ↦ choose_host calls scanned.newargv scanned
]

-- `argv` is the expanded one.
unfoldable pub start : Calls → Bool → Argv → Outcome
unfolding distribute
start calls recursive argv =
    if recursive
    then run_local calls argv none 0 none false
    else (elim (scan_args calls.assemble argv) [
      | undefined ↦ ([], undefined)
      | exits ret ↦ ([], exits ret)
      | err ret ↦ lock_local calls argv none 0
      | ok scanned ↦ distribute calls scanned
    ])

-- dcc_build_somewhere. `recursive` says that sg_level is not zero.
unfoldable pub build_somewhere : Calls → Bool → Argv → Outcome
unfolding start
build_somewhere calls recursive argv = elim (expand_preprocessor_options argv) [
  | none ↦ ([], undefined)
  | some expanded ↦ start calls recursive expanded
]
