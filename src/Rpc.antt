-- ===== src/Rpc.antt =====
-- src/rpc.c, and the headers and argument vectors of src/clirpc.c and src/srvrpc.c. A sender returns
-- the bytes that it writes. A receiver is given the bytes that are still to come before the end of
-- the connection, and returns those that it has not read. Writes and allocation succeed.
pub mod Strtoul
pub mod Tokens
pub mod Messages
pub mod Errors
use distcc.Prelude.{
  ℕ, zero, suc, ◌+◌, ◌-◌, ◌*◌, ◌/◌, ◌%◌, ◌^◌, Bool, true, false, not, [], ◌∷◌, ◌++◌, ltb, ◌==◌,
  if◌then◌else◌, length, take, drop,
}
use distcc.Prelude.Bytes.{Bytes, codes, str_equal}
use distcc.ExitCode.{Result, ok, err, protocol_error, out_of_memory, truncated, ◌>>=◌}
use distcc.Arg.{Argv}
use distcc.Rpc.Strtoul.{strtoul}

-- "0123456789abcdef"[n]
unfoldable pub hex_digit : ℕ → ℕ
hex_digit n = if ltb n 10 then b'0' + n else b'a' + n - 10

-- The last `k` digits of a parameter: `shift` runs from 4 * (k - 1) down to 0.
unfoldable pub hex_digits : ℕ → ℕ → Bytes
hex_digits zero param = []
hex_digits (suc k) param = hex_digit (param / 2 ^ (4 * k) % 16) ∷ hex_digits k param

unfoldable pub x_token_int : Bytes → ℕ → Result Bytes
x_token_int token param =
    if not (length token == 4) then err protocol_error else ok (token ++ hex_digits 8 param)

-- dcc_readx: exactly `len` bytes, or an error at the end of the connection.
unfoldable pub readx : ℕ → Bytes → Result (Bytes × Bytes)
readx len input =
    if ltb (length input) len then err truncated else ok (take len input, drop len input)

-- The parameter in the last eight bytes of a packet, as an `unsigned`.
unfoldable pub read_param : Bytes → Bytes → Result (ℕ × Bytes)
read_param param rest =
    let (val, bum) = strtoul param in
    if not (length bum == 0) then err protocol_error else ok (val % 2 ^ 32, rest)

-- A packet that has come in, against the token that is expected.
unfoldable pub check_packet : Bytes → Bytes × Bytes → Result (ℕ × Bytes)
check_packet expected (buf, rest) =
    if not (str_equal (take 4 buf) expected)
    then err protocol_error
    else read_param (drop 4 buf) rest

unfoldable pub r_token_int : Bytes → Bytes → Result (ℕ × Bytes)
r_token_int expected input =
    if not (length expected == 4)
    then err protocol_error
    else (readx 12 input >>= check_packet expected)

with_token : Bytes → ℕ × Bytes → Result (Bytes × ℕ × Bytes)
with_token token (val, rest) = ok (token, val, rest)

-- Any token, of four bytes as they come.
unfoldable pub r_sometoken_int : Bytes → Result (Bytes × ℕ × Bytes)
unfolding with_token
r_sometoken_int input = do
  (buf, rest) ← readx 12 input
  read_param (drop 4 buf) rest >>= with_token (take 4 buf)

-- A failed read is reported as EXIT_OUT_OF_MEMORY.
or_out_of_memory : Result (Bytes × Bytes) → Result (Bytes × Bytes)
or_out_of_memory (ok r) = ok r
or_out_of_memory _ = err out_of_memory

unfoldable pub r_str_alloc : ℕ → Bytes → Result (Bytes × Bytes)
unfolding or_out_of_memory
r_str_alloc l input = or_out_of_memory (readx l input)

-- The length is sent as an `unsigned`, the string whole.
unfoldable pub x_token_string : Bytes → Bytes → Result Bytes
x_token_string token buf = do header ← x_token_int token (length buf % 2 ^ 32); ok (header ++ buf)

unfoldable pub r_token_string : Bytes → Bytes → Result (Bytes × Bytes)
r_token_string expect_token input = do
  (a_len, rest) ← r_token_int expect_token input
  r_str_alloc a_len rest

-- `if (…) return EXIT_PROTOCOL_ERROR`
or_protocol_error : {A : Type 0} → Result A → Result A
or_protocol_error (ok a) = ok a
or_protocol_error _ = err protocol_error

unfoldable pub x_args : Bytes → Argv → Result Bytes
x_args argv_token [] = ok []
x_args argv_token (a ∷ argv) = do
  word ← x_token_string argv_token a
  words ← x_args argv_token argv
  ok (word ++ words)

-- argc is an `int`: from 2 ^ 31 words on it is negative, and no word follows.
unfoldable pub x_argv : Bytes → Bytes → Argv → Result Bytes
unfolding or_protocol_error
x_argv argc_token argv_token argv = do
  let argc = length argv % 2 ^ 32
  header ← or_protocol_error (x_token_int argc_token argc)
  words ← x_args argv_token (if ltb argc (2 ^ 31) then take argc argv else [])
  ok (header ++ words)

unfoldable pub r_args : Bytes → ℕ → Bytes → Result (Argv × Bytes)
r_args argv_token zero input = ok ([], input)
r_args argv_token (suc n) input = do
  (a, rest) ← r_token_string argv_token input
  (argv, rest') ← r_args argv_token n rest
  ok (a ∷ argv, rest')

unfoldable pub r_argv : Bytes → Bytes → Bytes → Result (Argv × Bytes)
unfolding or_protocol_error
r_argv argc_token argv_token input = do
  (argc, rest) ← or_protocol_error (r_token_int argc_token input)
  r_args argv_token argc rest

-- The headers of a request and of a result, and the compiler's status.
unfoldable pub x_req_header : ℕ → Result Bytes
x_req_header protover = x_token_int (codes "DIST") protover

unfoldable pub x_result_header : ℕ → Result Bytes
x_result_header protover = x_token_int (codes "DONE") protover

-- An `int`, as its bits.
unfoldable pub x_cc_status : ℕ → Result Bytes
x_cc_status status = x_token_int (codes "STAT") status

unfoldable pub r_cc_status : Bytes → Result (ℕ × Bytes)
r_cc_status input = r_token_int (codes "STAT") input

check_version : ℕ × Bytes → Result (ℕ × Bytes)
check_version (vers, rest) = if ltb 3 vers then err protocol_error else ok (vers, rest)

unfoldable pub r_request_header : Bytes → Result (ℕ × Bytes)
unfolding check_version
r_request_header input = r_token_int (codes "DIST") input >>= check_version

forget_value : ℕ × Bytes → Result Bytes
forget_value (vers, rest) = ok rest

-- The body of the `if` is the log call alone, so that the function returns behind it in any case,
-- and the comparison of `vers` and `expect_ver` is not reached.
unfoldable pub r_result_header : ℕ → Bytes → Result Bytes
unfolding forget_value
r_result_header expect_ver input = r_token_int (codes "DONE") input >>= forget_value
