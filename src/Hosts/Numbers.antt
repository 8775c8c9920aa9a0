-- ===== src/Hosts/Numbers.antt =====
-- strtol(s, &end, 10) and atoi(s) of the C library, as src/hosts.c calls them.
use distcc.Prelude.{
  ℕ, ◌+◌, ◌-◌, ◌*◌, ◌%◌, ◌^◌, Bool, true, false, ◌&&◌, [], ◌∷◌, ltb, leb, ◌==◌, if◌then◌else◌,
}
use distcc.Prelude.Bytes.{Bytes, skip_space}
use distcc.ExitCode.{Result, ok, undefined}

-- `negsuc n` is -(n + 1).
pub data ℤ : Type 0 where
  pos : ℕ → ℤ
  negsuc : ℕ → ℤ

abbrev pub isdigit : ℕ → Bool
isdigit c = leb b'0' c && leb c b'9'

unfoldable pub take_decimal : ℕ → Bytes → ℕ × Bytes
take_decimal acc [] = (acc, [])
take_decimal acc (c ∷ s) =
    let more = take_decimal (acc * 10 + (c - b'0')) s in if isdigit c then more else (acc, c ∷ s)

-- 0 - n
abbrev pub negative : ℕ → ℤ
negative n = if n == 0 then pos 0 else negsuc (n - 1)

starts_decimal : Bytes → Bool
starts_decimal [] = false
starts_decimal (c ∷ s) = isdigit c

-- Sign and magnitude, and where the number ends; without a digit that is the start of the text.
unsigned_at : Bytes → Bytes → ℕ × Bytes
unsigned_at whole t = if starts_decimal t then take_decimal 0 t else (0, whole)

unfoldable pub number_at : Bytes → Bytes → Bool × (ℕ × Bytes)
unfolding unsigned_at starts_decimal
number_at whole [] = (false, (0, whole))
number_at whole (c ∷ t) =
    if c == b'-'
    then (true, unsigned_at whole t)
    else if c == b'+'
    then (false, unsigned_at whole t)
    else (false, unsigned_at whole (c ∷ t))

-- The value is undefined where an int does not hold it.
unfoldable pub to_int : Bool → ℕ → Result ℤ
to_int true n = if ltb (2 ^ 31) n then undefined else ok (negative n)
to_int false n = if ltb n (2 ^ 31) then ok (pos n) else undefined

unfoldable pub atoi : Bytes → Result ℤ
unfolding number_at to_int
atoi s = let (minus, read) = number_at s (skip_space s) in to_int minus read.0

-- A long of 64 bits, as the int of its low 32 bits.
abbrev wrap : ℕ → ℤ
wrap n = let low = n % 2 ^ 32 in if ltb low (2 ^ 31) then pos low else negsuc (2 ^ 32 - low - 1)

-- strtol stops at the ends of its range.
long_to_int : Bool → ℕ → ℤ
long_to_int true n = wrap (2 ^ 64 - (if ltb n (2 ^ 63) then n else 2 ^ 63))
long_to_int false n = wrap (if ltb n (2 ^ 63) then n else 2 ^ 63 - 1)

-- `int n = strtol(s, &tail, 10)`
unfoldable pub strtol : Bytes → ℤ × Bytes
unfolding number_at long_to_int
strtol s = let (minus, read) = number_at s (skip_space s) in (long_to_int minus read.0, read.1)
