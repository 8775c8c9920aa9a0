-- ===== src/Rpc/Tokens.antt =====
-- A packet of src/rpc.c is read back as it was sent.
use native.Mathlib.Nat.{div-div-eq-div-mul, pow-suc}
use distcc.Prelude.{
  ℕ, zero, suc, ◌+◌, ◌*◌, ◌/◌, ◌%◌, ◌^◌, ◌<◌, false, ◌≡◌, refl, ◌∙◌, ap, some, [], ◌∷◌, ◌++◌, ltb,
  ◌==◌, length, length-append, split-append, arith,
}
use distcc.Prelude.Bytes.{Bytes, str_equal_refl, isspace, skip_space}
use distcc.ExitCode.{ok}
use distcc.Rpc.Strtoul.{strtoul, hex_value, take_digits, starts_digit, digits_of, prefixed, signed}
use distcc.Rpc.{
  hex_digit, hex_digits, x_token_int, readx, read_param, check_packet, r_token_int, r_sometoken_int,
}

hex_value-hex_digit : (n : ℕ) → n < 16 → hex_value (hex_digit n) ≡ some n
unfolding hex_value hex_digit
hex_value-hex_digit n h = ground arith

length-hex_digits : (k param : ℕ) → length (hex_digits k param) ≡ k
unfolding hex_digits
length-hex_digits zero param = refl
length-hex_digits (suc k) param = ap suc (length-hex_digits k param)

pow_step : (k : ℕ) → 2 ^ (4 * suc k) ≡ 2 ^ (4 * k) * 16
pow_step k =
    let e : 4 * suc k ≡ suc (suc (suc (suc (4 * k)))) = omega arith in
    rw e (simp pow-suc (omega arith))

-- The digits in front of the last `k`, taken as a number, grow by one digit.
digit_step :
    (k param : ℕ) → param / 2 ^ (4 * suc k) * 16 + param / 2 ^ (4 * k) % 16 ≡ param / 2 ^ (4 * k)
digit_step k param =
    let P = 2 ^ (4 * k) in rw (pow_step k) (rw (← div-div-eq-div-mul param P 16) (omega arith))

take_digits-step :
    (acc c d : ℕ) (s : Bytes)
    → hex_value c ≡ some d
    → take_digits acc (c ∷ s) ≡ take_digits (acc * 16 + d) s
unfolding take_digits
take_digits-step acc c d s h = rw (h, take_digits)

take_digits-hex_digits :
    (k param : ℕ) → take_digits (param / 2 ^ (4 * k)) (hex_digits k param) ≡ (param, [])
unfolding take_digits hex_digits
take_digits-hex_digits zero param = let e : param / 1 ≡ param = omega arith in rw e
take_digits-hex_digits (suc k) param =
    take_digits-step (param / 2 ^ (4 * suc k)) (hex_digit (param / 2 ^ (4 * k) % 16))
      (param / 2 ^ (4 * k) % 16) (hex_digits k param)
      (hex_value-hex_digit (param / 2 ^ (4 * k) % 16) (omega arith))
    ∙ rw (digit_step k param) (take_digits-hex_digits k param)

hex_digit_plain :
    (n : ℕ)
    → n < 16
    → (isspace (hex_digit n) ≡ false)
      × ((hex_digit n == b'-') ≡ false)
      × ((hex_digit n == b'+') ≡ false)
      × ((hex_digit n == b'x') ≡ false)
      × ((hex_digit n == b'X') ≡ false)
unfolding isspace hex_digit
hex_digit_plain n h = ground arith

-- Two digits in front rule out spaces, a sign and a prefix.
strtoul_plain :
    (m n : ℕ) (t : Bytes)
    → m < 16
    → n < 16
    → strtoul (hex_digit m ∷ hex_digit n ∷ t) ≡ take_digits 0 (hex_digit m ∷ hex_digit n ∷ t)
unfolding strtoul skip_space signed prefixed digits_of starts_digit
strtoul_plain m n t h k =
    ground (arith, hex_digit_plain m, hex_digit_plain n, hex_value-hex_digit m)

strtoul-hex_digits : (param : ℕ) → param < 2 ^ 32 → strtoul (hex_digits 8 param) ≡ (param, [])
unfolding hex_digits
strtoul-hex_digits param h =
    let none_before : param / 2 ^ (4 * 8) ≡ 0 = omega arith in
    strtoul_plain (param / 2 ^ 28 % 16) (param / 2 ^ 24 % 16) _ (omega arith) (omega arith)
    ∙ rw none_before at (take_digits-hex_digits 8 param)

pub readx-append : (n : ℕ) (xs ys : Bytes) → length xs ≡ n → readx n (xs ++ ys) ≡ ok (xs, ys)
unfolding readx
readx-append n xs ys h =
    let (e, f) = split-append n xs ys h in
    let enough : ltb (length (xs ++ ys)) n ≡ false = ground (arith, length-append xs ys) in
    rw (enough, e, f)

read_param-hex_digits :
    (param : ℕ) (rest : Bytes)
    → param < 2 ^ 32
    → read_param (hex_digits 8 param) rest ≡ ok (param, rest)
unfolding read_param
read_param-hex_digits param rest p =
    let small : param % 2 ^ 32 ≡ param = omega arith in rw (strtoul-hex_digits param p) (rw small)

-- The packet in front of any bytes.
pub readx-packet :
    (token rest : Bytes) (param : ℕ)
    → length token ≡ 4
    → readx 12 (token ++ hex_digits 8 param ++ rest) ≡ ok (token ++ hex_digits 8 param, rest)
readx-packet token rest param h =
    readx-append 12 (token ++ hex_digits 8 param) rest
      (omega (arith, length-append token (hex_digits 8 param), length-hex_digits 8 param))

check_packet-hex_digits :
    (token rest : Bytes) (param : ℕ)
    → length token ≡ 4
    → param < 2 ^ 32
    → check_packet token (token ++ hex_digits 8 param, rest) ≡ ok (param, rest)
unfolding check_packet
check_packet-hex_digits token rest param h p =
    let (name, value) = split-append 4 token (hex_digits 8 param) h in
    rw (name, str_equal_refl, value) (read_param-hex_digits param rest p)

-- What dcc_x_token_int writes, with any bytes behind it, dcc_r_token_int reads: it returns the
-- parameter, and leaves the bytes behind the packet.
pub r_token_int-x_token_int :
    (token rest : Bytes) (param : ℕ)
    → length token ≡ 4
    → param < 2 ^ 32
    → (x_token_int token param ≡ ok (token ++ hex_digits 8 param))
      × (r_token_int token (token ++ hex_digits 8 param ++ rest) ≡ ok (param, rest))
unfolding x_token_int r_token_int
r_token_int-x_token_int token rest param h p = (
  rw h,
  rw (readx-packet token rest param h) (rw h (check_packet-hex_digits token rest param h p)),
)

-- dcc_r_sometoken_int takes any packet.
pub r_sometoken_int-packet :
    (token rest : Bytes) (param : ℕ)
    → length token ≡ 4
    → param < 2 ^ 32
    → r_sometoken_int (token ++ hex_digits 8 param ++ rest) ≡ ok (token, param, rest)
unfolding r_sometoken_int
r_sometoken_int-packet token rest param h p =
    let (name, value) = split-append 4 token (hex_digits 8 param) h in
    rw (readx-packet token rest param h)
      (rw (name, value) (rw (read_param-hex_digits param rest p)))
