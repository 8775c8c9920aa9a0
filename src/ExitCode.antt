-- ===== src/ExitCode.antt =====
-- src/exitcode.h, and the result of a function that can fail. `failed_symlink` is no exit code of that
-- file: it is the 1 that dcc_r_many_files of src/srvrpc.c returns where symlink fails.
use distcc.Prelude.{ℕ, ◌≡◌, refl}

pub data ExitCode : Type 0 where
  distcc_failed bad_arguments bind_failed connect_failed compiler_crashed out_of_memory : ExitCode
  bad_hostspec io_error truncated protocol_error compiler_missing recursion setuid_failed : ExitCode
  access_denied busy no_such_file no_hosts gone timeout gssapi_failed : ExitCode
  failed_symlink : ExitCode

abbrev pub code : ExitCode → ℕ
code distcc_failed = 100
code bad_arguments = 101
code bind_failed = 102
code connect_failed = 103
code compiler_crashed = 104
code out_of_memory = 105
code bad_hostspec = 106
code io_error = 107
code truncated = 108
code protocol_error = 109
code compiler_missing = 110
code recursion = 111
code setuid_failed = 112
code access_denied = 113
code busy = 114
code no_such_file = 115
code no_hosts = 116
code gone = 117
code timeout = 118
code gssapi_failed = 119
code failed_symlink = 1

-- How a function ends: `err` is a nonzero return, `exits` a call of exit(), and `undefined` a read
-- of memory that the program does not own or has not written.
pub data Result {ℓ} (A : Type ℓ) : Type ℓ where
  undefined : Result A
  exits err : ExitCode → Result A
  ok : A → Result A

-- The caller goes on after a zero return alone.
infixl 5 ◌>>=◌
abbrev pub ◌>>=◌ {κ ℓ} : {B : Type κ} {A : Type ℓ} → Result A → (A → Result B) → Result B
undefined >>= next = undefined
exits status >>= next = exits status
err status >>= next = err status
ok value >>= next = next value

-- Where the whole has returned zero, so has the first call.
pub >>=-returns {κ ℓ} :
    {B : Type κ} {result : B} {A : Type ℓ} (call : Result A) (next : A → Result B)
    → call >>= next ≡ ok result
    → (value : A) × (call ≡ ok value) × (next value ≡ ok result)
>>=-returns undefined next returned = cc
>>=-returns (exits status) next returned = cc
>>=-returns (err status) next returned = cc
>>=-returns (ok value) next returned = (value, refl, returned)

-- A zero return has one result.
pub ok_inj {ℓ} : {A : Type ℓ} {a b : A} → ok a ≡ ok b → a ≡ b
ok_inj same = cc
