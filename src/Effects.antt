-- ===== src/Effects.antt =====
-- Receivers that change the file system: what they do to it, in order, and how they end. A receiver
-- that goes on for ever, or that is out of fuel, ends as `none`.
use distcc.Prelude.{◌≡◌, refl, Bool, Option, none, some, List, [], ◌++◌}
use distcc.Prelude.Bytes.{Bytes}
use distcc.ExitCode.{ExitCode, Result, undefined, exits, err, ok}

-- A file that is created whole, in the place of an older one; a name that is removed; a symbolic link
-- to a target.
pub data Effect : Type 0 where
  created : Bytes → Bytes → Effect
  removed : Bytes → Effect
  linked : Bytes → Bytes → Effect

abbrev pub Run : Type 0 → Type 0
Run A = List Effect × Option (Result A)

abbrev pub quiet : {A : Type 0} → Result A → Run A
quiet r = ([], some r)

abbrev pub behind : {A : Type 0} → List Effect → Run A → Run A
behind done (more, r) = (done ++ more, r)

infixl 5 ◌>>=◌
abbrev pub ◌>>=◌ : {A B : Type 0} → Run A → (A → Run B) → Run B
(done, none) >>= next = (done, none)
(done, some undefined) >>= next = (done, some undefined)
(done, some (exits status)) >>= next = (done, some (exits status))
(done, some (err status)) >>= next = (done, some (err status))
(done, some (ok value)) >>= next = behind done (next value)

-- What the file system lets the program do: make the directories above a name, open it for writing,
-- close it, make a link
-- to a target by a name, and note a name for the cleanup at exit.
pub record Disk : Type 0 where
  pub ancestors : Bytes → Option ExitCode
  pub opens : Bytes → Bool
  pub closes : Bytes → Bool
  pub symlinks : Bytes → Bytes → Bool
  pub cleanup : Bytes → Option ExitCode

pub quiet-bind :
    {A B : Type 0} (r : Result A) (next : A → Run B) (a : A)
    → r ≡ ok a
    → (quiet r >>= next) ≡ next a
quiet-bind r next a known = rw known refl

pub run-bind :
    {A B : Type 0} (m : Run A) (next : A → Run B) (done more : List Effect) (a : A) (b : Result B)
    → m ≡ (done, some (ok a))
    → next a ≡ (more, some b)
    → (m >>= next) ≡ (done ++ more, some b)
run-bind m next done more a b first second = rw (first, second) refl

run-then :
    {A B : Type 0} (m : Run A) (next : A → Run B) (done : List Effect) (a : A)
    → m ≡ (done, some (ok a))
    → (m >>= next) ≡ behind done (next a)
run-then m next done a known = rw known refl
