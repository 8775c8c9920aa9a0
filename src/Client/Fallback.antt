-- ===== src/Client/Fallback.antt =====
-- The last labels of dcc_build_somewhere in src/compile.c: fallback, lock_local, run_local and
-- unlock_and_clean_up. Each is a function of the variables that are live there: `cpu` and `held` are
-- cpu_lock_fd and local_cpu_lock_fd, where no lock is -1.
use distcc.Prelude.{ℕ, ◌==◌, Bool, false, Option, none, some, List, [], ◌∷◌, ◌++◌, if◌then◌else◌}
use distcc.ExitCode.{ExitCode, ok}
use distcc.Arg.{Argv}
use distcc.Hosts.{Hostdef}
use distcc.Client.{
  Lock, local_slot, Event, locked, unlocked, enjoyed, disliked, ran_local, copied_stderr, emailed,
  Outcome, after, Calls, compile_local,
}
use distcc.Client.Remote.{unlock_cpp}

abbrev pub unlock_cpu : Option Lock → List Event
unlock_cpu none = []
unlock_cpu (some lock) = unlocked lock ∷ []

-- unlock_and_clean_up.
abbrev pub unlock_and_clean_up : Option Lock → Bool → ℕ → Outcome
unlock_and_clean_up cpu held ret = (unlock_cpu cpu ++ unlock_cpp held, ok ret)

-- What follows a local run behind a remote one that has failed with `remote_ret`.
abbrev pub compare : ℕ → ℕ → Option Hostdef → List Event
compare remote_ret ret host =
    if remote_ret == 0
    then []
    else if remote_ret == ret
    then elim host [ none ↦ [] | some h ↦ enjoyed h ∷ [] ]
    else emailed ∷ []

-- run_local.
unfoldable pub run_local : Calls → Argv → Option Hostdef → ℕ → Option Lock → Bool → Outcome
run_local calls argv host remote_ret cpu held =
    let ret = compile_local calls in
    after (ran_local argv ∷ compare remote_ret ret host) (unlock_and_clean_up cpu held ret)

-- lock_local. What dcc_lock_local returns is dropped, and without the lock cpu_lock_fd stays -1.
unfoldable pub lock_local : Calls → Argv → Option Hostdef → ℕ → Outcome
lock_local calls argv host remote_ret = elim calls.lock_local [
  | some ret ↦ run_local calls argv host remote_ret none false
  | none ↦
      after (locked local_slot ∷ []) (run_local calls argv host remote_ret (some local_slot) false)
]

unfoldable pub dislike : Option Hostdef → List Event
dislike none = []
dislike (some host) = disliked host ∷ []

-- dcc_copy_file_to_fd on the server's messages.
unfoldable pub copied : Option ExitCode → List Event
copied none = copied_stderr ∷ []
copied (some ret) = []

-- fallback, with the value that `ret` has there.
unfoldable pub fallback : Calls → Argv → Option Hostdef → ℕ → ℕ → Option Lock → Bool → Outcome
unfolding dislike copied
fallback calls argv host remote_ret ret cpu held =
    after (dislike host ++ (unlock_cpu cpu ++ unlock_cpp held)) (
      if calls.fallback
      then lock_local calls argv host remote_ret
      else (copied calls.copy_stderr, ok ret))
