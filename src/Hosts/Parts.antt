-- ===== src/Hosts/Parts.antt =====
-- The parts of a host definition as src/hosts.c reads them: words up to a separator, and numbers.
use distcc.Prelude.{
  ℕ, zero, suc, ◌+◌, ◌-◌, ◌*◌, ◌/◌, ◌%◌, ◌^◌, ◌<◌, ◌≡◌, ◌≢◌, refl, ap, sym, ◌∙◌, inl, inr, Bool,
  true, false, Bool-cases, not, ltb, ◌==◌, none, some, [], ◌∷◌, ◌++◌, all, all-append, arith,
}
use mathlib.Core.Path.{subst}
use distcc.Prelude.Bytes.{Bytes, contains, skip_space, isspace}
use distcc.ExitCode.{ok}
use distcc.Hosts.Numbers.{pos, isdigit, take_decimal, number_at, atoi, strtol}
use distcc.Hosts.{until, skip_digits, parse_multiplier}
use distcc.Locking.Decimal.{digits, print, value, value-digits}

-- No byte of the text is a separator.
abbrev pub clean : Bytes → Bytes → Bool
clean sep s = all (λ c. not (contains c sep)) s

-- The first byte of the text is a separator.
pub until-clean :
    (sep s : Bytes) (c : ℕ) (rest : Bytes)
    → clean sep s ≡ true
    → contains c sep ≡ true
    → until sep (s ++ (c ∷ rest)) ≡ (s, c ∷ rest)
unfolding until
until-clean sep [] c rest free ends = rw ends refl
until-clean sep (d ∷ s) c rest free ends =
    let below = until-clean sep s c rest (ground arith) ends in
    let plain : contains d sep ≡ false = ground arith in rw (below, plain) refl

pub all-digits : (fuel n : ℕ) → all isdigit (digits fuel n) ≡ true
unfolding digits
all-digits zero n = refl
all-digits (suc fuel) n = elim (Bool-cases (ltb n 10)) [
  | inl small ↦ rw small (ground arith)
  | inr large ↦
      let last : isdigit (n % 10 + b'0') ≡ true = ground arith in
      rw large (
        all-append isdigit (digits fuel (n / 10)) ((n % 10 + b'0') ∷ []) (all-digits fuel (n / 10))
          (rw last refl))
]

take_decimal-digits :
    (acc : ℕ) (s : Bytes) (c : ℕ) (rest : Bytes)
    → all isdigit s ≡ true
    → isdigit c ≡ false
    → take_decimal acc (s ++ (c ∷ rest)) ≡ (value acc s, c ∷ rest)
unfolding take_decimal value
take_decimal-digits acc [] c rest h k = rw k refl
take_decimal-digits acc (d ∷ s) c rest h k =
    let here : isdigit d ≡ true = ground arith in
    rw here (take_decimal-digits (acc * 10 + (d - b'0')) s c rest (ground arith) k)

skip_digits-digits :
    (s : Bytes) (c : ℕ) (rest : Bytes)
    → all isdigit s ≡ true
    → isdigit c ≡ false
    → skip_digits (s ++ (c ∷ rest)) ≡ c ∷ rest
unfolding skip_digits
skip_digits-digits [] c rest h k = rw k refl
skip_digits-digits (d ∷ s) c rest h k =
    let here : isdigit d ≡ true = ground arith in
    rw here (skip_digits-digits s c rest (ground arith) k)

-- The first digit of a number.
first_digit :
    (fuel n : ℕ) → (d : ℕ) × (s : Bytes) × (digits (suc fuel) n ≡ d ∷ s) × (isdigit d ≡ true)
unfolding digits
first_digit zero n = elim (Bool-cases (ltb n 10)) [
  | inl small ↦ (n + b'0', [], rw small refl, ground arith)
  | inr large ↦ (n % 10 + b'0', [], rw large refl, ground arith)
]
first_digit (suc fuel) n = elim (Bool-cases (ltb n 10)) [
  | inl small ↦ (n + b'0', [], rw small refl, ground arith)
  | inr large ↦
      let (d, s, starts, digit) = first_digit fuel (n / 10) in
      (d, s ++ ((n % 10 + b'0') ∷ []), rw (large, starts) refl, digit)
]

number-word :
    (d : ℕ) (s whole : Bytes) (read : ℕ × Bytes)
    → isdigit d ≡ true
    → take_decimal 0 (d ∷ s) ≡ read
    → number_at whole (skip_space (d ∷ s)) ≡ (false, read)
unfolding number_at skip_space isspace
number-word d s whole read digit taken =
    let no_space : isspace d ≡ false = ground arith in
    let no_minus : (d == b'-') ≡ false = ground arith in
    let no_plus : (d == b'+') ≡ false = ground arith in
    rw (no_space, no_minus, no_plus, digit, taken) refl

number-print :
    (n c : ℕ) (rest whole : Bytes)
    → isdigit c ≡ false
    → number_at whole (skip_space (print n ++ (c ∷ rest))) ≡ (false, (n, c ∷ rest))
number-print n c rest whole other =
    let (d, s, starts, digit) = first_digit n n in
    let same : value 0 (print n) ≡ n = value-digits (suc n) n (omega arith) in
    let taken : take_decimal 0 (print n ++ (c ∷ rest)) ≡ (n, c ∷ rest) =
      take_decimal-digits 0 (print n) c rest (all-digits (suc n) n) other
      ∙ ap (λ (v : ℕ). (v, c ∷ rest)) same in
    subst (λ t. number_at whole (skip_space (t ++ (c ∷ rest))) ≡ (false, (n, c ∷ rest)))
      (sym starts)
      (number-word d (s ++ (c ∷ rest)) whole (n, c ∷ rest) digit
        (subst (λ t. take_decimal 0 (t ++ (c ∷ rest)) ≡ (n, c ∷ rest)) starts taken))

-- A number that an int holds, with a slash in front.
pub multiplier-print :
    (n c : ℕ) (rest : Bytes)
    → n ≢ 0
    → n < 2 ^ 31
    → isdigit c ≡ false
    → parse_multiplier (b'/' ∷ (print n ++ (c ∷ rest))) ≡ ok (c ∷ rest, some (pos n))
unfolding parse_multiplier atoi
multiplier-print n c rest positive small other =
    let read = number-print n c rest (print n ++ (c ∷ rest)) other in
    let skipped = skip_digits-digits (print n) c rest (all-digits (suc n) n) other in
    let fits : ltb n (2 ^ 31) ≡ true = ground arith in
    let not_zero : (n == 0) ≡ false = ground arith in rw (read, fits, not_zero, skipped) refl

pub multiplier-none :
    (c : ℕ) (rest : Bytes)
    → (c == b'/') ≡ false
    → (c == b'=') ≡ false
    → parse_multiplier (c ∷ rest) ≡ ok (c ∷ rest, none)
unfolding parse_multiplier
multiplier-none c rest h k = rw (h, k) refl

pub strtol-print :
    (n c : ℕ) (rest : Bytes)
    → n < 2 ^ 31
    → isdigit c ≡ false
    → strtol (print n ++ (c ∷ rest)) ≡ (pos n, c ∷ rest)
unfolding strtol
strtol-print n c rest small other =
    let read = number-print n c rest (print n ++ (c ∷ rest)) other in
    let fits : ltb n (2 ^ 63) ≡ true = ground arith in
    let low : n % 2 ^ 32 ≡ n = omega arith in
    let fits' : ltb n (2 ^ 31) ≡ true = ground arith in rw (read, fits, low, fits') refl
