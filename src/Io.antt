-- ===== src/Io.antt =====
-- src/io.c: the loops around select, read and write. The answers of the system to the calls come in a
-- list; a loop that has used them up is still waiting, which is `none`.
pub mod Loops
pub mod Failures
pub mod Writes
use distcc.Hosts.Numbers.{ℤ, pos, negsuc, atoi}
use distcc.Prelude.{
  ℕ, zero, suc, ◌+◌, ◌-◌, Bool, true, false, Option, none, some, List, [], ◌∷◌, ◌++◌, if◌then◌else◌,
  length, take, drop, ltb,
}
use distcc.Prelude.Bytes.{Bytes}
use distcc.ExitCode.{Result, ok, err, exits, undefined, io_error, truncated, bad_arguments, ◌>>=◌}

-- What select answers: EINTR, another failure, the timeout, a set without the descriptor, or a set
-- with it.
pub data Select : Type 0 where
  interrupted failed timed_out unset ready : Select

-- What read answers. `chunk k` lets at most k + 1 bytes through. The answer EAGAIN comes with those of
-- the call of select that follows it.
pub data Read : Type 0 where
  chunk : ℕ → Read
  again : List Select → Read
  interrupted failed : Read

-- What write answers. `chunk k` takes at most k bytes.
pub data Write : Type 0 where
  chunk : ℕ → Write
  again : List Select → Write
  interrupted failed : Write

unfoldable pub is_positive : ℤ → Bool
is_positive (pos zero) = false
is_positive (pos (suc n)) = true
is_positive (negsuc n) = false

unfoldable pub positive_or_exit : Result ℤ → Result ℤ
unfolding is_positive
positive_or_exit undefined = undefined
positive_or_exit (exits e) = exits e
positive_or_exit (err e) = err e
positive_or_exit (ok n) = if is_positive n then ok n else exits bad_arguments

-- The value of DISTCC_IO_TIMEOUT is given. The value that the function remembers is the one that it
-- would read again.
unfoldable pub get_io_timeout : Option Bytes → Result ℤ
unfolding positive_or_exit
get_io_timeout none = ok (pos 300)
get_io_timeout (some user_timeout) = positive_or_exit (atoi user_timeout)

unfoldable pub select_for_read : List Select → Option (Result (Unit {0}))
select_for_read [] = none
select_for_read (Select.interrupted ∷ answers) = select_for_read answers
select_for_read (Select.failed ∷ answers) = some (err io_error)
select_for_read (Select.timed_out ∷ answers) = some (err io_error)
select_for_read (Select.unset ∷ answers) = select_for_read answers
select_for_read (Select.ready ∷ answers) = some (ok tt)

-- A set with an error condition counts as success here, so `unset` does too.
unfoldable pub select_for_write : List Select → Option (Result (Unit {0}))
select_for_write [] = none
select_for_write (Select.interrupted ∷ answers) = select_for_write answers
select_for_write (Select.failed ∷ answers) = some (err io_error)
select_for_write (Select.timed_out ∷ answers) = some (err io_error)
select_for_write (Select.unset ∷ answers) = some (ok tt)
select_for_write (Select.ready ∷ answers) = some (ok tt)

-- `dcc_select_for_…(fd, dcc_get_io_timeout())`: the timeout is read first.
abbrev pub waited : Option Bytes → Option (Result (Unit {0})) → Option (Result (Unit {0}))
waited timeout selected = elim (get_io_timeout timeout) [
  | undefined ↦ some undefined
  | exits e ↦ some (exits e)
  | err e ↦ some (err e)
  | ok n ↦ selected
]

-- How many of `available` bytes a call for `len` gives.
unfoldable pub smaller : ℕ → ℕ → ℕ
smaller a b = if ltb a b then a else b

-- A piece in front of what comes later.
unfoldable pub prepend : Bytes → Option (Result (Bytes × Bytes)) → Option (Result (Bytes × Bytes))
prepend piece none = none
prepend piece (some undefined) = some undefined
prepend piece (some (exits e)) = some (exits e)
prepend piece (some (err e)) = some (err e)
prepend piece (some (ok (buf, rest))) = some (ok (piece ++ buf, rest))

-- The caller's loop after a call of select.
abbrev pub after_wait :
    {A : Type 0} → Option (Result (Unit {0})) → Option (Result A) → Option (Result A)
after_wait none go = none
after_wait (some undefined) go = some undefined
after_wait (some (exits e)) go = some (exits e)
after_wait (some (err e)) go = some (err e)
after_wait (some (ok done)) go = go

-- dcc_readx, on the bytes that are still to come before the end of the file: the buffer, and the
-- bytes behind it. A read that gives no byte is the end.
unfoldable pub readx_loop : Option Bytes → List Read → ℕ → Bytes → Option (Result (Bytes × Bytes))
unfolding prepend smaller
readx_loop timeout answers zero input = some (ok ([], input))
readx_loop timeout [] (suc len) input = none
readx_loop timeout (Read.interrupted ∷ answers) (suc len) input =
    readx_loop timeout answers (suc len) input
readx_loop timeout (Read.failed ∷ answers) (suc len) input = some (err io_error)
readx_loop timeout (Read.again selects ∷ answers) (suc len) input =
    after_wait (waited timeout (select_for_read selects))
      (readx_loop timeout answers (suc len) input)
readx_loop timeout (Read.chunk k ∷ answers) (suc len) [] = some (err truncated)
readx_loop timeout (Read.chunk k ∷ answers) (suc len) (c ∷ input) =
    let r = smaller (suc k) (smaller (suc len) (suc (length input))) in
    prepend (take r (c ∷ input)) (readx_loop timeout answers (suc len - r) (drop r (c ∷ input)))

-- The bytes written, and how the loop has ended.
abbrev pub Written : Type 0
Written = Bytes × Option (Result (Unit {0}))

unfoldable pub wrote : Bytes → Written → Written
wrote piece (bytes, r) = (piece ++ bytes, r)

-- dcc_writex. A write of no byte is not an error, and the loop goes on.
unfoldable pub writex_loop : Option Bytes → List Write → Bytes → Written
unfolding wrote smaller
writex_loop timeout answers [] = ([], some (ok tt))
writex_loop timeout [] (c ∷ buf) = ([], none)
writex_loop timeout (Write.interrupted ∷ answers) (c ∷ buf) = writex_loop timeout answers (c ∷ buf)
writex_loop timeout (Write.failed ∷ answers) (c ∷ buf) = ([], some (err io_error))
writex_loop timeout (Write.again selects ∷ answers) (c ∷ buf) =
    let rest = writex_loop timeout answers (c ∷ buf) in
    elim (waited timeout (select_for_write selects)) [
      | none ↦ ([], none)
      | some undefined ↦ ([], some undefined)
      | some (exits e) ↦ ([], some (exits e))
      | some (err e) ↦ ([], some (err e))
      | some (ok done) ↦ rest
    ]
writex_loop timeout (Write.chunk k ∷ answers) (c ∷ buf) =
    let r = smaller k (suc (length buf)) in
    wrote (take r (c ∷ buf)) (writex_loop timeout answers (drop r (c ∷ buf)))
