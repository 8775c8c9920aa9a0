-- ===== src/Client/Returns.antt =====
-- What dcc_build_somewhere of src/compile.c returns.
pub mod Remote
pub mod Build
use distcc.Prelude.{
  ℕ, zero, suc, ◌+◌, ◌<◌, ◌≡◌, ◌≢◌, ◌⊎◌, refl, sym, ap, ◌∙◌, ◌==◌, ltb, Bool, true, false,
  Bool-cases, inl, inr, Option, none, some, List, [], ◌∷◌, ◌++◌, if◌then◌else◌, arith,
}
use distcc.ExitCode.{ExitCode, Result, ok, err, exits, undefined, code}
use distcc.Arg.{Argv}
use distcc.Hosts.{Hostdef}
use distcc.Client.{
  Lock, local_slot, Event, locked, unlocked, enjoyed, disliked, ran_cpp, ran_local, ran_remote,
  copied_stderr, emailed, Outcome, after, Calls, compile_local, critique_status,
}
use distcc.Client.Branches.{if_branches, if_taken, option_branches}
use distcc.Client.Remote.{unlock_cpp}
use distcc.Client.Fallback.{unlock_cpu, compare, run_local, lock_local, dislike, copied, fallback}

-- How often the local compiler is run, and how often the server's messages are shown.
unfoldable pub local_runs : List Event → ℕ
local_runs [] = 0
local_runs (ran_local argv ∷ events) = suc (local_runs events)
local_runs (_ ∷ events) = local_runs events

unfoldable pub shown : List Event → ℕ
shown [] = 0
shown (copied_stderr ∷ events) = suc (shown events)
shown (_ ∷ events) = shown events

abbrev pub IsPlain : List Event → Type 0
IsPlain events = (local_runs events ≡ 0) × (shown events ≡ 0)

-- The status is the server's, whose results have all been received, or that of a preprocessor that
-- has failed.
abbrev pub IsStatus : Calls → ℕ → Type 0
IsStatus calls status =
    ((calls.retrieve_results ≡ none) × (status ≡ calls.remote_status))
    ⊎ ((calls.cpp.collected ≡ none) × (calls.cpp.status ≢ 0) × (status ≡ calls.cpp.status))

-- The local compiler has been run once, and its result is returned; or it has not been run, the
-- server's messages have been shown, and what is returned is the judgement of the status: a success,
-- or, with DISTCC_SKIP_LOCAL_RETRY, a failure that is no signal.
abbrev pub IsAnswered : Calls → Outcome → Type 0
IsAnswered calls (events, undefined) = Unit {0}
IsAnswered calls (events, exits ret) = Unit {0}
IsAnswered calls (events, err ret) = Unit {0}
IsAnswered calls (events, ok ret) =
    ((local_runs events ≡ 1) × (shown events ≡ 0) × (ret ≡ compile_local calls))
    ⊎ ((local_runs events ≡ 0)
        × (shown events ≡ 1)
        × ((status : ℕ) × IsStatus calls status × (ret ≡ critique_status calls.wait status))
        × ((ret ≡ 0) ⊎ ((calls.skip_local_retry ≡ true) × (ret < 128))))

append-IsPlain :
    (events more : List Event)
    → IsPlain events
    → (local_runs (events ++ more) ≡ local_runs more) × (shown (events ++ more) ≡ shown more)
unfolding local_runs shown
append-IsPlain [] more plain = (refl, refl)
append-IsPlain (locked lock ∷ events) more plain = append-IsPlain events more plain
append-IsPlain (unlocked lock ∷ events) more plain = append-IsPlain events more plain
append-IsPlain (enjoyed host ∷ events) more plain = append-IsPlain events more plain
append-IsPlain (disliked host ∷ events) more plain = append-IsPlain events more plain
append-IsPlain (ran_cpp argv ∷ events) more plain = append-IsPlain events more plain
append-IsPlain (ran_local argv ∷ events) more (runs, shows) = absurd (omega (arith, runs))
append-IsPlain (ran_remote argv host ∷ events) more plain = append-IsPlain events more plain
append-IsPlain (copied_stderr ∷ events) more (runs, shows) = absurd (omega (arith, shows))
append-IsPlain (emailed ∷ events) more plain = append-IsPlain events more plain

pub after-IsAnswered :
    (calls : Calls) (events : List Event) (o : Outcome)
    → IsPlain events
    → IsAnswered calls o
    → IsAnswered calls (after events o)
after-IsAnswered calls events (more, undefined) plain answered = answered
after-IsAnswered calls events (more, exits ret) plain answered = answered
after-IsAnswered calls events (more, err ret) plain answered = answered
after-IsAnswered calls events (more, ok ret) plain answered =
    let (runs, shows) = append-IsPlain events more plain in rw (runs, shows) answered

unlock-IsPlain : (cpu : Option Lock) (held : Bool) → IsPlain (unlock_cpu cpu ++ unlock_cpp held)
unfolding local_runs shown
unlock-IsPlain none false = (refl, refl)
unlock-IsPlain none true = (refl, refl)
unlock-IsPlain (some lock) false = (refl, refl)
unlock-IsPlain (some lock) true = (refl, refl)

compare-IsPlain :
    (remote_ret ret : ℕ) (host : Option Hostdef) → IsPlain (compare remote_ret ret host)
unfolding local_runs shown
compare-IsPlain remote_ret ret none =
    if_branches IsPlain (remote_ret == 0) _ _ (refl, refl)
      (if_branches IsPlain (remote_ret == ret) _ _ (refl, refl) (refl, refl))
compare-IsPlain remote_ret ret (some host) =
    if_branches IsPlain (remote_ret == 0) _ _ (refl, refl)
      (if_branches IsPlain (remote_ret == ret) _ _ (refl, refl) (refl, refl))

pub run_local-IsAnswered :
    (calls : Calls) (argv : Argv) (host : Option Hostdef) (remote_ret : ℕ) (cpu : Option Lock)
    (held : Bool)
    → IsAnswered calls (run_local calls argv host remote_ret cpu held)
unfolding run_local local_runs shown
run_local-IsAnswered calls argv host remote_ret cpu held =
    let (runs, shows) =
      append-IsPlain (compare remote_ret (compile_local calls) host)
        (unlock_cpu cpu ++ unlock_cpp held)
        (compare-IsPlain remote_ret (compile_local calls) host) in
    let (runs', shows') = unlock-IsPlain cpu held in
    inl (ap suc (runs ∙ runs'), shows ∙ shows', refl)

locked-IsPlain : (lock : Lock) → IsPlain (locked lock ∷ [])
unfolding local_runs shown
locked-IsPlain lock = (refl, refl)

pub lock_local-IsAnswered :
    (calls : Calls) (argv : Argv) (host : Option Hostdef) (remote_ret : ℕ)
    → IsAnswered calls (lock_local calls argv host remote_ret)
unfolding lock_local
lock_local-IsAnswered calls argv host remote_ret =
    option_branches (IsAnswered calls) calls.lock_local _ _
      (after-IsAnswered calls (locked local_slot ∷ []) _ (locked-IsPlain local_slot)
        (run_local-IsAnswered calls argv host remote_ret (some local_slot) false))
      (λ ret. run_local-IsAnswered calls argv host remote_ret none false)

dislike-IsPlain :
    (host : Option Hostdef) (cpu : Option Lock) (held : Bool)
    → IsPlain (dislike host ++ (unlock_cpu cpu ++ unlock_cpp held))
unfolding local_runs shown dislike
dislike-IsPlain none cpu held = unlock-IsPlain cpu held
dislike-IsPlain (some host) cpu held = unlock-IsPlain cpu held

pub fallback-IsAnswered :
    (calls : Calls) (argv : Argv) (host : Option Hostdef) (remote_ret ret : ℕ) (cpu : Option Lock)
    (held : Bool)
    → calls.fallback ≡ true
    → IsAnswered calls (fallback calls argv host remote_ret ret cpu held)
unfolding fallback
fallback-IsAnswered calls argv host remote_ret ret cpu held enabled =
    after-IsAnswered calls (dislike host ++ (unlock_cpu cpu ++ unlock_cpp held))
      (if calls.fallback
        then lock_local calls argv host remote_ret
        else (copied calls.copy_stderr, ok ret))
      (dislike-IsPlain host cpu held)
      (if_taken (IsAnswered calls) calls.fallback _ _ enabled
        (lock_local-IsAnswered calls argv host remote_ret))
