-- ===== src/Client/Locks.antt =====
-- The locks that dcc_build_somewhere of src/compile.c takes and gives back.
pub mod Remote
pub mod Build
use distcc.Client.Branches.{if_branches, option_branches}
use distcc.Prelude.{
  ℕ, ◌≡◌, ◌≢◌, ◌⊎◌, some_inj, refl, sym, ap, ◌∙◌, ◌==◌, ltb, Bool, true, false, Bool-cases, inl,
  inr, Option, none, some, List, [], ◌∷◌, ◌++◌, if◌then◌else◌, arith,
}
use distcc.Prelude.Bytes.{Bytes}
use distcc.ExitCode.{ExitCode, Result, ok, err, exits, undefined, code}
use distcc.Arg.{Argv, Scanned, scan_args}
use distcc.Hosts.{Hostdef, CppWhere, on_client, on_server}
use distcc.Client.{
  Lock, slot, local_cpp, local_slot, Event, locked, unlocked, enjoyed, disliked, ran_cpp, ran_local,
  ran_remote, copied_stderr, emailed, Outcome, after, Calls, compile_local,
}
use distcc.Client.Remote.{
  Compiled, unlock_cpp, out, retrieve, wait_for_cpp, send_source, send_doti, send_request,
  performed, compile_remote,
}
use distcc.Client.Fallback.{
  unlock_cpu, unlock_and_clean_up, compare, run_local, lock_local, dislike, copied, fallback,
}
use distcc.Client.Build.{
  show_stderr, judge, submit, on_this_side, on_that_side, approximate_includes, perhaps_adjust,
  build_somewhere,
}

-- The locks that are held: that of a slot, remote or local, and whether that of a preprocessor is.
abbrev pub Held : Type 0
Held = Option Lock × Bool

-- The order of the locks: a slot is taken where nothing is held, and the preprocessor's lock behind
-- that of a remote slot. A lock is given back by its holder.
unfoldable pub step : Event → Held → Option Held
step (locked slot) (none, false) = some (some slot, false)
step (locked local_slot) (none, false) = some (some local_slot, false)
step (locked local_cpp) (some slot, false) = some (some slot, true)
step (locked _) held = none
step (unlocked slot) (some slot, cpp) = some (none, cpp)
step (unlocked local_slot) (some local_slot, cpp) = some (none, cpp)
step (unlocked local_cpp) (cpu, true) = some (cpu, false)
step (unlocked _) held = none
step _ held = some held

unfoldable pub follow : List Event → Held → Option Held
follow [] held = some held
follow (e ∷ events) held = elim (step e held) [ none ↦ none | some held' ↦ follow events held' ]

-- The order is kept, and where the function returns, all locks have been given back.
abbrev pub IsReleasing : Held → Outcome → Type 0
IsReleasing held (events, undefined) = follow events held ≢ none
IsReleasing held (events, exits ret) = follow events held ≢ none
IsReleasing held (events, err ret) = follow events held ≢ none
IsReleasing held (events, ok ret) = follow events held ≡ some (none, false)

follow-append :
    (events more : List Event) (held held' : Held)
    → follow events held ≡ some held'
    → follow (events ++ more) held ≡ follow more held'
unfolding follow
follow-append [] more held held' h = rw (some_inj h) refl
follow-append (e ∷ events) more held held' h =
    go (step e held) (λ next later. follow-append events more next held' later) h
  where
    go :
        (stepped : Option Held)
        → ((next : Held)
            → follow events next ≡ some held'
            → follow (events ++ more) next ≡ follow more held')
        → (elim stepped as (λ x. Option Held) [ none ↦ none | some next ↦ follow events next ])
          ≡ some held'
        → (elim stepped as (λ x. Option Held) [
          | none ↦ none
          | some next ↦ follow (events ++ more) next
        ])
          ≡ follow more held'
    go none later h = cc
    go (some next) later h = later next h

pub held-ne-none : (held : Held) → follow [] held ≢ none
unfolding follow
held-ne-none held = λ h. cc

pub after-IsReleasing :
    (events : List Event) (held held' : Held) (o : Outcome)
    → follow events held ≡ some held'
    → IsReleasing held' o
    → IsReleasing held (after events o)
after-IsReleasing events held held' (more, undefined) h r =
    rw (follow-append events more held held' h) r
after-IsReleasing events held held' (more, exits ret) h r =
    rw (follow-append events more held held' h) r
after-IsReleasing events held held' (more, err ret) h r =
    rw (follow-append events more held held' h) r
after-IsReleasing events held held' (more, ok ret) h r =
    rw (follow-append events more held held' h) r

-- What cpu_lock_fd can hold.
abbrev IsOuter : Option Lock → Type 0
IsOuter none = Unit {0}
IsOuter (some slot) = Unit {0}
IsOuter (some local_slot) = Unit {0}
IsOuter (some local_cpp) = ⊥

compare-follow :
    (remote_ret ret : ℕ) (host : Option Hostdef) (held : Held)
    → follow (compare remote_ret ret host) held ≡ some held
unfolding follow step
compare-follow remote_ret ret none held = ground arith
compare-follow remote_ret ret (some host) held = ground arith

unlock_all :
    (cpu : Option Lock) (cpp : Bool)
    → IsOuter cpu
    → follow (unlock_cpu cpu ++ unlock_cpp cpp) (cpu, cpp) ≡ some (none, false)
unfolding follow step
unlock_all none false outer = refl
unlock_all none true outer = refl
unlock_all (some slot) false outer = refl
unlock_all (some slot) true outer = refl
unlock_all (some local_slot) false outer = refl
unlock_all (some local_slot) true outer = refl
unlock_all (some local_cpp) cpp outer = absurd outer

pub run_local-IsReleasing :
    (calls : Calls) (argv : Argv) (host : Option Hostdef) (remote_ret : ℕ) (cpu : Option Lock)
    (cpp : Bool)
    → IsOuter cpu
    → IsReleasing (cpu, cpp) (run_local calls argv host remote_ret cpu cpp)
unfolding run_local follow step
run_local-IsReleasing calls argv host remote_ret cpu cpp outer =
    follow-append (compare remote_ret (compile_local calls) host) _ (cpu, cpp) (cpu, cpp)
      (compare-follow remote_ret (compile_local calls) host (cpu, cpp))
    ∙ unlock_all cpu cpp outer

pub lock_local-IsReleasing :
    (calls : Calls) (argv : Argv) (host : Option Hostdef) (remote_ret : ℕ)
    → IsReleasing (none, false) (lock_local calls argv host remote_ret)
unfolding lock_local follow step run_local compile_local
lock_local-IsReleasing calls argv host remote_ret =
    option_branches (IsReleasing (none, false)) calls.lock_local _ _
      (run_local-IsReleasing calls argv host remote_ret (some local_slot) false tt)
      (λ ret. run_local-IsReleasing calls argv host remote_ret none false tt)

dislike-follow : (host : Option Hostdef) (held : Held) → follow (dislike host) held ≡ some held
unfolding follow step dislike
dislike-follow none held = refl
dislike-follow (some host) held = refl

copied-follow : (call : Option ExitCode) (held : Held) → follow (copied call) held ≡ some held
unfolding follow step copied
copied-follow none held = refl
copied-follow (some ret) held = refl

pub fallback-IsReleasing :
    (calls : Calls) (argv : Argv) (host : Option Hostdef) (remote_ret ret : ℕ) (cpu : Option Lock)
    (cpp : Bool)
    → IsOuter cpu
    → IsReleasing (cpu, cpp) (fallback calls argv host remote_ret ret cpu cpp)
unfolding fallback
fallback-IsReleasing calls argv host remote_ret ret cpu cpp outer =
    after-IsReleasing (dislike host ++ (unlock_cpu cpu ++ unlock_cpp cpp)) (cpu, cpp) (none, false)
      _
      (follow-append (dislike host) _ (cpu, cpp) (cpu, cpp) (dislike-follow host (cpu, cpp))
        ∙ unlock_all cpu cpp outer)
      (if_branches (IsReleasing (none, false)) calls.fallback _ _
        (lock_local-IsReleasing calls argv host remote_ret)
        (copied-follow calls.copy_stderr (none, false)))
