-- ===== src/Locking.antt =====
-- The names of lock files in src/lock.c. The directory of the locks is an argument, and allocation
-- succeeds.
pub mod Decimal
pub mod Names
use distcc.Prelude.{ℕ, suc, ◌+◌, ◌/◌, ◌%◌, Option, none, some, List, [], ◌∷◌, ◌++◌}
use distcc.Prelude.Bytes.{Bytes, codes}
use distcc.ExitCode.{Result, ok, err, undefined, protocol_error, ◌>>=◌}
use distcc.Hosts.{Hostdef, Mode, tcp, ssh, local}
use distcc.Hosts.Numbers.{ℤ}
use distcc.Locking.Decimal.{print_int, print}

-- A string that has been set.
given : Option Bytes → Result Bytes
given none = undefined
given (some s) = ok s

lock_part : Option Mode → Hostdef → ℕ → Result Bytes
unfolding given
lock_part none host iter = err protocol_error
lock_part (some local) host iter = ok (codes "localhost_" ++ print iter)
lock_part (some tcp) host iter = given host.hostname >>= λ hostname.
    ok (codes "tcp_" ++ ((hostname ++ (b'_' ∷ print_int host.port)) ++ (b'_' ∷ print iter)))
lock_part (some ssh) host iter =
    given host.hostname >>= λ hostname. ok (codes "ssh_" ++ (hostname ++ (b'_' ∷ print iter)))

-- dcc_make_lock_filename
unfoldable pub make_lock_filename : Result Bytes → Bytes → Hostdef → ℕ → Result Bytes
unfolding lock_part
make_lock_filename lockdir lockname host iter = lockdir >>= λ dir.
    lock_part host.mode host iter >>= λ part.
    ok ((dir ++ (codes "/" ++ (lockname ++ codes "_"))) ++ part)
