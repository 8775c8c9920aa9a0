-- ===== src/Rpc/Errors.antt =====
-- What the receivers of src/rpc.c guarantee of any input, and how they fail.
use distcc.Prelude.{ℕ, ◌^◌, ◌≤◌, ◌<◌, ◌≡◌, ◌≢◌, ◌++◌, length, take, drop, arith, split-append}
use distcc.Prelude.Bytes.{Bytes, str_equal_iff}
use distcc.ExitCode.{ok, err, protocol_error, truncated, out_of_memory}
use distcc.Rpc.Tokens.{readx-packet}
use distcc.Rpc.{hex_digits, readx, check_packet, read_param, r_token_int, r_str_alloc}

-- A packet that dcc_r_token_int accepts begins with the expected token; twelve bytes are taken off
-- the input, and the value fits an `unsigned`.
r_token_int-ok :
    (expected input rest : Bytes) (val : ℕ)
    → r_token_int expected input ≡ ok (val, rest)
    → (val < 2 ^ 32)
      × (12 ≤ length input)
      × (rest ≡ drop 12 input)
      × (take 4 (take 12 input) ≡ expected)
unfolding r_token_int readx check_packet read_param
r_token_int-ok expected input rest val h =
    ground (arith, str_equal_iff (take 4 (take 12 input)) expected)

readx_short : (n : ℕ) (input : Bytes) → length input < n → readx n input ≡ err truncated
unfolding readx
readx_short n input h = ground arith

other_token :
    (expected token rest : Bytes) (param : ℕ)
    → length token ≡ 4
    → token ≢ expected
    → check_packet expected (token ++ hex_digits 8 param, rest) ≡ err protocol_error
unfolding check_packet
other_token expected token rest param k ne =
    let (name, value) = split-append 4 token (hex_digits 8 param) k in
    rw name (ground (arith, str_equal_iff token expected))

-- Fewer than twelve bytes before the end of the connection are EXIT_TRUNCATED, and another token
-- than the expected one is EXIT_PROTOCOL_ERROR.
r_token_int-err :
    (expected token input rest : Bytes) (param : ℕ)
    → length expected ≡ 4
    → length token ≡ 4
    → (length input < 12 → r_token_int expected input ≡ err truncated)
      × (token ≢ expected
          → r_token_int expected (token ++ hex_digits 8 param ++ rest) ≡ err protocol_error)
unfolding r_token_int
r_token_int-err expected token input rest param h k = (
  λ l. rw (h, readx_short 12 input l),
  λ ne. rw (readx-packet token rest param k) (rw h (other_token expected token rest param k ne)),
)

-- A string that the connection's end cuts short is reported as EXIT_OUT_OF_MEMORY.
r_str_alloc-short :
    (l : ℕ) (input : Bytes) → length input < l → r_str_alloc l input ≡ err out_of_memory
unfolding r_str_alloc readx
r_str_alloc-short l input h = ground arith
