-- ===== src/Prelude/Bytes.antt =====
-- C strings as lists of bytes without the closing NUL, with the functions of <string.h> and of
-- src/util.c that the program calls on them.
use Prim.Native.Char.{code}
use Prim.Native.String.{String}
use Prim.Native.Nat.{ℕ, ◌-◌}
use mathlib.Core.Path.{◌≡◌, refl}
use mathlib.Core.Logic.{◌↔◌, inl, inr}
use mathlib.Core.Bool.{Bool, true, false, ◌&&◌, ◌||◌}
use mathlib.Core.Option.{Option, none, some}
use mathlib.Core.List.{List, [], ◌∷◌, ◌++◌}
use native.Mathlib.Omega.{arith}
use distcc.Prelude.Tests.{◌==◌, ltb, leb, if◌then◌else◌, ==_iff, Option-cases}
use distcc.Prelude.Lists.{length, drop, length-append, drop-append}

abbrev pub Bytes : Type 0
Bytes = List ℕ

-- The code points of a literal, all of which are ASCII here.
abbrev pub codes : String → Bytes
codes String.[] = []
codes (String.◌∷◌ c s) = code c ∷ codes s

-- s[0], which is the closing NUL of an empty string.
abbrev pub first : Bytes → ℕ
first [] = 0
first (c ∷ s) = c

-- s[1], of a string with s[0] not NUL.
abbrev pub second : Bytes → ℕ
second [] = 0
second (c ∷ s) = first s

-- !strcmp(a, b)
unfoldable pub str_equal : Bytes → Bytes → Bool
str_equal [] [] = true
str_equal (x ∷ a) (y ∷ b) = x == y && str_equal a b
str_equal _ _ = false

unfoldable pub str_startswith : Bytes → Bytes → Bool
str_startswith [] worm = true
str_startswith (h ∷ head) [] = false
str_startswith (h ∷ head) (w ∷ worm) = h == w && str_startswith head worm

unfoldable pub str_endswith : Bytes → Bytes → Bool
unfolding str_equal
str_endswith tail tiger =
    if ltb (length tiger) (length tail)
    then false
    else str_equal (drop (length tiger - length tail) tiger) tail

-- strstr(hay, needle) != NULL
unfoldable pub strstr : Bytes → Bytes → Bool
unfolding str_startswith
strstr [] needle = str_startswith needle []
strstr (c ∷ hay) needle = str_startswith needle (c ∷ hay) || strstr hay needle

-- The byte occurs in the string.
unfoldable pub contains : ℕ → Bytes → Bool
contains c [] = false
contains c (x ∷ s) = x == c || contains c s

pub str_equal_iff : (a b : Bytes) → (str_equal a b ≡ true) ↔ (a ≡ b)
unfolding str_equal
str_equal_iff (x ∷ a) (y ∷ b) = ground (arith, str_equal_iff a b)
str_equal_iff _ _ = ground arith

pub str_equal_refl : (a : Bytes) → str_equal a a ≡ true
str_equal_refl a = (str_equal_iff a a).1 refl

pub str_startswith-append : (a b : Bytes) → str_startswith a (a ++ b) ≡ true
unfolding str_startswith
str_startswith-append [] b = refl
str_startswith-append (x ∷ a) b = ground (arith, str_startswith-append a b)

str_endswith-append : (a b : Bytes) → str_endswith b (a ++ b) ≡ true
unfolding str_endswith
str_endswith-append a b =
    let e : length (a ++ b) - length b ≡ length a = omega (arith, length-append a b) in
    let f : ltb (length (a ++ b)) (length b) ≡ false = ground (arith, length-append a b) in
    rw f (rw e (rw drop-append (str_equal_refl b)))

pub contains-append : (c : ℕ) (a b : Bytes) → contains c (a ++ b) ≡ (contains c a || contains c b)
unfolding contains
contains-append c [] b = refl
contains-append c (x ∷ a) b = ground (arith, contains-append c a b)

-- strrchr(s, c): what stands before the last `c`, and the string from it on.
unfoldable pub strrchr : ℕ → Bytes → Option (Bytes × Bytes)
strrchr c [] = none
strrchr c (x ∷ s) = elim (strrchr c s) [
  | some (before, found) ↦ some (x ∷ before, found)
  | none ↦ if x == c then some ([], x ∷ s) else none
]

pub strrchr-none : (c : ℕ) (s : Bytes) → strrchr c s ≡ none → contains c s ≡ false
unfolding strrchr contains
strrchr-none c [] h = refl
strrchr-none c (x ∷ s) h = ground (arith, strrchr-none c s)

pub strrchr-eq-none : (c : ℕ) (s : Bytes) → contains c s ≡ false → strrchr c s ≡ none
unfolding strrchr contains
strrchr-eq-none c [] h = refl
strrchr-eq-none c (x ∷ s) h = ground (arith, strrchr-eq-none c s)

-- The string falls into the two parts, and the second has no further `c`.
pub strrchr-some :
    (c : ℕ) (s : Bytes) {before found : Bytes}
    → strrchr c s ≡ some (before, found)
    → (rest : Bytes) × (found ≡ c ∷ rest) × (s ≡ before ++ found) × (contains c rest ≡ false)
unfolding strrchr
strrchr-some c [] h = cc
strrchr-some c (x ∷ s) {before} {found} h = elim (Option-cases (strrchr c s)) [
  | inl e ↦ (s, ground (arith, ==_iff x c), ground (arith, ==_iff x c), strrchr-none c s e)
  | inr ((b, t), e) ↦
      let (rest, starts, splits, last) = strrchr-some c s e in
      (rest, ground arith, ground arith, last)
]

pub strrchr-append :
    (c : ℕ) (before rest : Bytes)
    → contains c rest ≡ false
    → strrchr c (before ++ (c ∷ rest)) ≡ some (before, c ∷ rest)
unfolding strrchr
strrchr-append c [] rest h = ground (arith, strrchr-eq-none c rest)
strrchr-append c (x ∷ b) rest h = ground (arith, strrchr-append c b rest)

strstr-prefix : (needle after : Bytes) → strstr (needle ++ after) needle ≡ true
unfolding strstr
strstr-prefix [] [] = refl
strstr-prefix [] (c ∷ after) = refl
strstr-prefix (c ∷ needle) after = rw (str_startswith-append (c ∷ needle) after)

strstr-cons :
    (c : ℕ) (hay needle : Bytes) → strstr hay needle ≡ true → strstr (c ∷ hay) needle ≡ true
unfolding strstr
strstr-cons c hay needle h = ground arith

-- A needle between two parts is found.
pub strstr-append :
    (before needle after : Bytes) → strstr (before ++ (needle ++ after)) needle ≡ true
strstr-append [] needle after = strstr-prefix needle after
strstr-append (c ∷ before) needle after =
    strstr-cons c (before ++ (needle ++ after)) needle (strstr-append before needle after)

-- isspace(c) in the C locale.
unfoldable pub isspace : ℕ → Bool
isspace c = c == b' ' || leb 9 c && leb c 13

-- What strtol and strtoul skip in front of a number.
unfoldable pub skip_space : Bytes → Bytes
skip_space [] = []
skip_space (c ∷ s) = if isspace c then skip_space s else c ∷ s
