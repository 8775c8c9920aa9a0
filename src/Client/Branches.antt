-- ===== src/Client/Branches.antt =====
-- What holds of all branches of a test holds of the whole.
use distcc.Prelude.{◌≡◌, refl, Bool, true, false, Option, none, some, if◌then◌else◌}
use distcc.ExitCode.{ExitCode, Result, ok, err, exits, undefined}
use distcc.Hosts.{CppWhere, on_client, on_server}

pub if_branches :
    {B : Type 0} (P : B → Type 0) (test : Bool) (a b : B) → P a → P b → P (if test then a else b)
if_branches P true a b p q = p
if_branches P false a b p q = q

-- The test is known.
pub if_taken :
    {B : Type 0} (P : B → Type 0) (test : Bool) (a b : B)
    → test ≡ true
    → P a
    → P (if test then a else b)
if_taken P true a b known p = p
if_taken P false a b known p = cc

pub if_skipped :
    {B : Type 0} (P : B → Type 0) (test : Bool) (a b : B)
    → test ≡ false
    → P b
    → P (if test then a else b)
if_skipped P true a b known p = cc
if_skipped P false a b known p = p

-- The branches may use the outcome of the test.
pub if_cases :
    {B : Type 0} (P : B → Type 0) (test : Bool) (a b : B)
    → (test ≡ true → P a)
    → (test ≡ false → P b)
    → P (if test then a else b)
if_cases P true a b p q = p refl
if_cases P false a b p q = q refl

pub option_branches :
    {A B : Type 0} (P : B → Type 0) (o : Option A) (nothing : B) (just : A → B)
    → P nothing
    → ((a : A) → P (just a))
    → P (elim o [ none ↦ nothing | some a ↦ just a ])
option_branches P none nothing just p q = p
option_branches P (some a) nothing just p q = q a

pub option_cases :
    {A B : Type 0} (P : B → Type 0) (o : Option A) (nothing : B) (just : A → B)
    → (o ≡ none → P nothing)
    → ((a : A) → o ≡ some a → P (just a))
    → P (elim o [ none ↦ nothing | some a ↦ just a ])
option_cases P none nothing just p q = p refl
option_cases P (some a) nothing just p q = q a refl

pub result_branches :
    {A B : Type 0} (P : B → Type 0) (r : Result A) (lost : B) (left failed : ExitCode → B)
    (done : A → B)
    → P lost
    → ((ret : ExitCode) → P (left ret))
    → ((ret : ExitCode) → P (failed ret))
    → ((a : A) → P (done a))
    → P (elim r [ undefined ↦ lost | exits ret ↦ left ret | err ret ↦ failed ret | ok a ↦ done a ])
result_branches P undefined lost left failed done p q r s = p
result_branches P (exits ret) lost left failed done p q r s = q ret
result_branches P (err ret) lost left failed done p q r s = r ret
result_branches P (ok a) lost left failed done p q r s = s a

pub cpp_branches :
    {B : Type 0} (P : B → Type 0) (cpp_where : Option CppWhere) (a b c : B)
    → P a
    → P b
    → P c
    → P (elim cpp_where [ none ↦ a | some on_client ↦ b | some on_server ↦ c ])
cpp_branches P none a b c p q r = p
cpp_branches P (some on_client) a b c p q r = q
cpp_branches P (some on_server) a b c p q r = r
