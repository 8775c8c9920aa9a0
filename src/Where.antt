-- ===== src/Where.antt =====
-- src/where.c and src/backoff.c: the choice of a host and of a slot of it. The answers of the
-- system are arguments: `locking` gives the answer to the t-th attempt to lock a file, `timefile`
-- the time of a host's backoff file, and `now` the time at which a host is checked. Sleeping and the
-- notes on the state are left out.
pub mod Order
pub mod Rounds
pub mod Liked
use distcc.Hosts.{Hostdef, is_zero}
use distcc.Hosts.Numbers.{ℤ, pos, negsuc, atoi}
use distcc.Prelude.{
  ℕ, zero, suc, ◌+◌, Bool, true, false, ◌⊎◌, inl, inr, Option, none, some, List, [], ◌∷◌, ltb,
  if◌then◌else◌,
}
use distcc.Prelude.Bytes.{Bytes}
use distcc.ExitCode.{ExitCode, busy, no_hosts, Result, ok, err, exits, undefined, ◌>>=◌}

-- The answers to the attempts: `none` is a lock.
abbrev pub Locking : Type 0
Locking = ℕ → Hostdef → ℕ → Option ExitCode

-- dcc_lock_host without blocking: nothing is tried on a host that is down.
unfoldable pub lock_host : Locking → ℕ → Hostdef → ℕ → Option ExitCode
lock_host locking t host slot = if host.is_up then locking t host slot else some busy

-- What a round over the slots comes to. `nothing` has the number of the next attempt.
pub data Search : Type 0 where
  chosen : Hostdef → ℕ → Search
  failed : ExitCode → Search
  nothing : ℕ → Search

abbrev pub is_busy : ExitCode → Bool
is_busy busy = true
is_busy _ = false

-- !(i_cpu >= h->n_slots)
abbrev pub has_slot : ℕ → ℤ → Bool
has_slot i_cpu (pos n_slots) = ltb i_cpu n_slots
has_slot i_cpu (negsuc n) = false

-- The inner loop: one slot number, over the hosts.
unfoldable pub over_hosts : Locking → ℕ → ℕ → List Hostdef → Search
over_hosts locking t i_cpu [] = nothing t
over_hosts locking t i_cpu (h ∷ hosts) = elim (has_slot i_cpu h.n_slots) [
  | false ↦ over_hosts locking t i_cpu hosts
  | true ↦ elim (lock_host locking t h i_cpu) [
    | none ↦ chosen h i_cpu
    | some ret ↦ elim (is_busy ret) [
      | true ↦ over_hosts locking (t + 1) i_cpu hosts
      | false ↦ failed ret
    ]
  ]
]

-- The outer loop: `left` slot numbers from `i_cpu` on.
unfoldable pub over_slots : Locking → ℕ → ℕ → ℕ → List Hostdef → Search
over_slots locking t i_cpu zero hosts = nothing t
over_slots locking t i_cpu (suc left) hosts = elim (over_hosts locking t i_cpu hosts) [
  | chosen h i ↦ chosen h i
  | failed ret ↦ failed ret
  | nothing t' ↦ over_slots locking t' (i_cpu + 1) left hosts
]

-- The rounds. The outer `none` is a loop that is out of fuel.
unfoldable pub lock_one : ℕ → Locking → ℕ → List Hostdef → Option (Result (Hostdef × ℕ))
lock_one zero locking t hostlist = none
lock_one (suc fuel) locking t hostlist = elim (over_slots locking t 0 50 hostlist) [
  | chosen h i ↦ some (ok (h, i))
  | failed ret ↦ some (err ret)
  | nothing t' ↦ lock_one fuel locking t' hostlist
]

-- difftime(now, mtime) < dcc_backoff_period
abbrev is_recent : ℕ → ℕ → ℤ → Bool
is_recent now mtime (pos period) = ltb now (mtime + period)
is_recent now mtime (negsuc n) = ltb (now + suc n) mtime

-- dcc_check_timefile: the time of the backoff file, or why it cannot be read.
abbrev pub Timefile : Type 0
Timefile = Hostdef → ExitCode ⊎ ℕ

backoff_of : ℕ → ℤ → ExitCode ⊎ ℕ → Option ExitCode
backoff_of now period (inl ret) = some ret
backoff_of now period (inr mtime) = if is_recent now mtime period then some busy else none

unfoldable pub check_backoff : Timefile → (Hostdef → ℕ) → ℤ → Hostdef → Option ExitCode
unfolding backoff_of
check_backoff timefile now period host = backoff_of (now host) period (timefile host)

-- The loop over the list.
unfoldable pub keep_liked : Timefile → (Hostdef → ℕ) → ℤ → List Hostdef → List Hostdef
keep_liked timefile now period [] = []
keep_liked timefile now period (h ∷ hosts) = elim (check_backoff timefile now period h) [
  | some ret ↦ keep_liked timefile now period hosts
  | none ↦ h ∷ keep_liked timefile now period hosts
]

-- The period, with the value of DISTCC_BACKOFF_PERIOD.
abbrev pub backoff_period : Option Bytes → Result ℤ
backoff_period none = ok (pos 60)
backoff_period (some bp) = atoi bp

unfoldable pub remove_disliked :
    Timefile → (Hostdef → ℕ) → Option Bytes → List Hostdef → Result (List Hostdef)
remove_disliked timefile now bp hostlist = do
  period ← backoff_period bp
  ok (if is_zero period then hostlist else keep_liked timefile now period hostlist)

or_no_hosts : Result (List Hostdef) → Result (List Hostdef)
or_no_hosts (ok hostlist) = ok hostlist
or_no_hosts _ = err no_hosts

lock_some : ℕ → Locking → List Hostdef → Option (Result (Hostdef × ℕ))
lock_some fuel locking [] = some (err no_hosts)
lock_some fuel locking (h ∷ hosts) = lock_one fuel locking 0 (h ∷ hosts)

lock_list : ℕ → Locking → Result (List Hostdef) → Option (Result (Hostdef × ℕ))
unfolding lock_some
lock_list fuel locking undefined = some undefined
lock_list fuel locking (exits ret) = some (exits ret)
lock_list fuel locking (err ret) = some (err ret)
lock_list fuel locking (ok hostlist) = lock_some fuel locking hostlist

-- dcc_pick_host_from_list_and_lock_it, on what dcc_get_hostlist has returned.
unfoldable pub pick_host :
    ℕ
    → Locking
    → Timefile
    → (Hostdef → ℕ)
    → Option Bytes
    → Result (List Hostdef)
    → Option (Result (Hostdef × ℕ))
unfolding or_no_hosts lock_list
pick_host fuel locking timefile now bp hostlist =
    lock_list fuel locking (or_no_hosts hostlist >>= remove_disliked timefile now bp)
