-- ===== src/Io/Failures.antt =====
-- How dcc_readx of src/io.c ends, whatever the system answers.
use distcc.Prelude.{
  Bool, true, false, ◌^◌, ltb, some_inj, ℕ, zero, suc, if◌then◌else◌, ◌-◌, ◌≡◌, ◌⊎◌, inl, inr,
  Option, none, some, List, [], ◌∷◌, refl, ap, sym, ◌∙◌, length, take, drop, arith,
}
use distcc.Prelude.Bytes.{Bytes, skip_space}
use mathlib.Core.Path.{subst}
use distcc.ExitCode.{Result, ok, err, exits, undefined, io_error, bad_arguments, truncated}
use distcc.Hosts.Numbers.{ℤ, pos, negsuc, negative, to_int, number_at, atoi}
use distcc.Rpc.{readx}
use distcc.Io.{
  Select, Read, get_io_timeout, positive_or_exit, is_positive, select_for_read, waited, after_wait,
  smaller, prepend, readx_loop,
}
use distcc.Io.Loops.{prepend-readx, smaller_bounds}

-- The timeout is set to a number that is not positive, or to a text that atoi may not be given.
abbrev IsNotPositive : ℤ → Type 0
IsNotPositive n = (n ≡ pos 0) ⊎ ((m : ℕ) × (n ≡ negsuc m))

abbrev IsRefused : Option Bytes → Type 0
IsRefused timeout = (t : Bytes) × (n : ℤ) × (timeout ≡ some t) × (atoi t ≡ ok n) × IsNotPositive n

abbrev IsUnread : Option Bytes → Type 0
IsUnread timeout = (t : Bytes) × (timeout ≡ some t) × (atoi t ≡ undefined)

-- A failure of the system is EXIT_IO_ERROR. The process exits, with EXIT_BAD_ARGUMENTS, only where the
-- timeout is refused, and the end is undefined only where that of atoi is.
abbrev pub IsFailure : {A : Type 0} → Option Bytes → Result A → Type 0
IsFailure timeout undefined = IsUnread timeout
IsFailure timeout (exits e) = (e ≡ bad_arguments) × IsRefused timeout
IsFailure timeout (err e) = e ≡ io_error
IsFailure timeout (ok a) = ⊥

-- A result that is undefined where a test says so.
tested_cases :
    (b : Bool) (z : ℤ) (r : Result ℤ)
    → (r ≡ (if b then undefined else ok z)) ⊎ (r ≡ (if b then ok z else undefined))
    → (r ≡ undefined) ⊎ ((z : ℤ) × (r ≡ ok z))
tested_cases true z r (inl same) = inl same
tested_cases false z r (inl same) = inr (z, same)
tested_cases true z r (inr same) = inr (z, same)
tested_cases false z r (inr same) = inl same

to_int_cases :
    (minus : Bool) (n : ℕ) → (to_int minus n ≡ undefined) ⊎ ((z : ℤ) × (to_int minus n ≡ ok z))
unfolding to_int
to_int_cases true n = tested_cases (ltb (2 ^ 31) n) (negative n) (to_int true n) (inl refl)
to_int_cases false n = tested_cases (ltb n (2 ^ 31)) (pos n) (to_int false n) (inr refl)

atoi_cases : (t : Bytes) → (atoi t ≡ undefined) ⊎ ((n : ℤ) × (atoi t ≡ ok n))
unfolding atoi
atoi_cases t = let (minus, read) = number_at t (skip_space t) in to_int_cases minus read.0

is_positive_cases : (n : ℤ) → (is_positive n ≡ true) ⊎ ((is_positive n ≡ false) × IsNotPositive n)
unfolding is_positive
is_positive_cases (pos zero) = inr (refl, inl refl)
is_positive_cases (pos (suc n)) = inl refl
is_positive_cases (negsuc n) = inr (refl, inr (n, refl))

get_io_timeout_cases :
    (timeout : Option Bytes)
    → ((n : ℤ) × (get_io_timeout timeout ≡ ok n))
      ⊎ (((get_io_timeout timeout ≡ exits bad_arguments) × IsRefused timeout)
          ⊎ ((get_io_timeout timeout ≡ undefined) × IsUnread timeout))
unfolding get_io_timeout positive_or_exit
get_io_timeout_cases none = inl (pos 300, refl)
get_io_timeout_cases (some t) = elim (atoi_cases t) [
  | inl unread ↦ inr (inr (rw unread refl, (t, refl, unread)))
  | inr (n, read) ↦ elim (is_positive_cases n) [
    | inl positive ↦ inl (n, rw (read, positive) refl)
    | inr (other, why) ↦ inr (inl (rw (read, other) refl, (t, n, refl, read, why)))
  ]
]

select_for_read_cases :
    (selects : List Select)
    → (select_for_read selects ≡ none)
      ⊎ ((select_for_read selects ≡ some (err io_error)) ⊎ (select_for_read selects ≡ some (ok tt)))
unfolding select_for_read
select_for_read_cases [] = inl refl
select_for_read_cases (Select.interrupted ∷ l) = select_for_read_cases l
select_for_read_cases (Select.failed ∷ l) = inr (inl refl)
select_for_read_cases (Select.timed_out ∷ l) = inr (inl refl)
select_for_read_cases (Select.unset ∷ l) = select_for_read_cases l
select_for_read_cases (Select.ready ∷ l) = inr (inr refl)

ends_as :
    {A : Type 0} (timeout : Option Bytes) (first r : Result A)
    → some first ≡ some r
    → IsFailure timeout first
    → IsFailure timeout r
ends_as timeout first r h f = subst (λ x. IsFailure timeout x) (some_inj h) f

waited-IsFailure :
    {A : Type 0} (timeout : Option Bytes) (selects : List Select) (go : Option (Result A))
    (r : Result A)
    → after_wait (waited timeout (select_for_read selects)) go ≡ some r
    → (go ≡ some r) ⊎ IsFailure timeout r
waited-IsFailure timeout selects go r h = elim (get_io_timeout_cases timeout) [
  | inr (inr (unread, why)) ↦ inr (ends_as timeout undefined r (rw (waited, unread) at h) why)
  | inr (inl (refused, why)) ↦
      inr (ends_as timeout (exits bad_arguments) r (rw (waited, refused) at h) (refl, why))
  | inl (n, set) ↦ elim (select_for_read_cases selects) [
    | inl waits ↦ let later = rw (waited, set, waits) at h in cc
    | inr (inl failed) ↦ inr (ends_as timeout (err io_error) r (rw (waited, set, failed) at h) refl)
    | inr (inr woken) ↦ inl (rw (waited, set, woken) at h)
  ]
]

prepend_result :
    (timeout : Option Bytes) (piece : Bytes) (loop : Option (Result (Bytes × Bytes)))
    (r : Result (Bytes × Bytes))
    → prepend piece loop ≡ some r
    → (r' : Result (Bytes × Bytes)) × (loop ≡ some r')
      × (prepend piece (some r') ≡ some r)
      × (IsFailure timeout r' → IsFailure timeout r)
unfolding prepend
prepend_result timeout piece none r h = cc
prepend_result timeout piece (some undefined) r h = (undefined, refl, h, ends_as timeout _ r h)
prepend_result timeout piece (some (exits e)) r h = (exits e, refl, h, ends_as timeout _ r h)
prepend_result timeout piece (some (err e)) r h = (err e, refl, h, ends_as timeout _ r h)
prepend_result timeout piece (some (ok (buf, rest))) r h = (ok (buf, rest), refl, h, λ f. absurd f)

readx_none : (input : Bytes) → ok ([], input) ≡ readx 0 input
unfolding readx
readx_none input = ground arith

readx_end : (len : ℕ) → err truncated ≡ readx (suc len) []
unfolding readx
readx_end len = ground arith

-- Whatever the system answers, dcc_readx ends as one read of all bytes would, if it ends at all, or
-- with EXIT_IO_ERROR; or the process exits with EXIT_BAD_ARGUMENTS, where DISTCC_IO_TIMEOUT is a
-- number that is not positive; or the end is undefined, where that of atoi is on DISTCC_IO_TIMEOUT.
pub readx_loop-IsFailure :
    (timeout : Option Bytes) (answers : List Read) (len : ℕ) (input : Bytes)
    (r : Result (Bytes × Bytes))
    → readx_loop timeout answers len input ≡ some r
    → (r ≡ readx len input) ⊎ IsFailure timeout r
unfolding readx_loop
readx_loop-IsFailure timeout answers zero input r h = inl (sym (some_inj h) ∙ readx_none input)
readx_loop-IsFailure timeout [] (suc len) input r h = cc
readx_loop-IsFailure timeout (Read.interrupted ∷ answers) (suc len) input r h =
    readx_loop-IsFailure timeout answers (suc len) input r h
readx_loop-IsFailure timeout (Read.failed ∷ answers) (suc len) input r h =
    inr (ends_as timeout (err io_error) r h refl)
readx_loop-IsFailure timeout (Read.again selects ∷ answers) (suc len) input r h =
    elim (waited-IsFailure timeout selects (readx_loop timeout answers (suc len) input) r h) [
      | inl later ↦ readx_loop-IsFailure timeout answers (suc len) input r later
      | inr f ↦ inr f
    ]
readx_loop-IsFailure timeout (Read.chunk k ∷ answers) (suc len) [] r h =
    inl (sym (some_inj h) ∙ readx_end len)
readx_loop-IsFailure timeout (Read.chunk k ∷ answers) (suc len) (c ∷ input) r h =
    let n = smaller (suc k) (smaller (suc len) (suc (length input))) in
    let (some_read, within, there) = smaller_bounds k len (length input) in
    let (r', loop, front, keeps) =
      prepend_result timeout (take n (c ∷ input))
        (readx_loop timeout answers (suc len - n) (drop n (c ∷ input))) r h in
    elim (readx_loop-IsFailure timeout answers (suc len - n) (drop n (c ∷ input)) r' loop) [
      | inl same ↦ inl (
          some_inj (
            sym front
            ∙ ap (λ x. prepend (take n (c ∷ input)) (some x)) same
            ∙ prepend-readx n (suc len) (c ∷ input) within there))
      | inr f ↦ inr (keeps f)
    ]
