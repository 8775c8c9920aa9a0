-- ===== src/Rpc/Strtoul.antt =====
-- strtoul(s, &end, 16) of the C library, as src/rpc.c calls it, on a buffer of eight bytes: the value,
-- and the text that `end` points to. Eight digits do not overflow an unsigned long of 64 bits.
use distcc.Prelude.{
  ℕ, ◌+◌, ◌-◌, ◌*◌, ◌%◌, ◌^◌, Bool, true, false, ◌&&◌, ◌||◌, Option, none, some, [], ◌∷◌, leb, ◌==◌,
  if◌then◌else◌,
}
use distcc.Prelude.Bytes.{Bytes, skip_space}

unfoldable pub hex_value : ℕ → Option ℕ
hex_value c =
    if leb b'0' c && leb c b'9'
    then some (c - b'0')
    else if leb b'a' c && leb c b'f'
    then some (c - b'a' + 10)
    else if leb b'A' c && leb c b'F'
    then some (c - b'A' + 10)
    else none

unfoldable pub take_digits : ℕ → Bytes → ℕ × Bytes
take_digits acc [] = (acc, [])
take_digits acc (c ∷ s) = elim (hex_value c) [
  | none ↦ (acc, c ∷ s)
  | some d ↦ take_digits (acc * 16 + d) s
]

unfoldable pub starts_digit : Bytes → Bool
starts_digit [] = false
starts_digit (c ∷ s) = elim (hex_value c) [ none ↦ false | some d ↦ true ]

-- The digits of `t`; without any, `end` is the start of the whole text.
unfoldable pub digits_of : Bytes → Bytes → ℕ × Bytes
digits_of whole t = if starts_digit t then take_digits 0 t else (0, whole)

-- An optional "0x" in front of a digit.
unfoldable pub prefixed : Bytes → Bytes → ℕ × Bytes
prefixed whole [] = (0, whole)
prefixed whole (c ∷ []) = digits_of whole (c ∷ [])
prefixed whole (c ∷ x ∷ t) =
    if c == b'0' && (x == b'x' || x == b'X') && starts_digit t
    then take_digits 0 t
    else digits_of whole (c ∷ x ∷ t)

negated : ℕ × Bytes → ℕ × Bytes
negated (val, rest) = ((2 ^ 64 - val) % 2 ^ 64, rest)

unfoldable pub signed : Bytes → Bytes → ℕ × Bytes
unfolding negated
signed whole [] = (0, whole)
signed whole (c ∷ t) =
    if c == b'-'
    then negated (prefixed whole t)
    else if c == b'+'
    then prefixed whole t
    else prefixed whole (c ∷ t)

unfoldable pub strtoul : Bytes → ℕ × Bytes
strtoul s = signed s (skip_space s)
