-- ===== src/Rpc/Messages.antt =====
-- Strings, argument vectors and headers: what one end of the protocol sends, the other end reads
-- (src/rpc.c, src/clirpc.c and src/srvrpc.c).
use distcc.Prelude.{
  true, false, ap, take, ◌≤◌, ℕ, suc, ◌%◌, ◌^◌, ◌<◌, ◌≡◌, refl, [], ◌∷◌, ◌++◌, ltb, if◌then◌else◌,
  length, append_assoc, arith,
}
use distcc.Prelude.Bytes.{Bytes, codes}
use distcc.ExitCode.{Result, ok, err, protocol_error}
use distcc.Arg.{Argv}
use distcc.Rpc.Tokens.{r_token_int-x_token_int, readx-append}
use distcc.Rpc.{
  check_version, hex_digits, x_token_int, r_token_int, r_str_alloc, x_token_string, r_token_string,
  x_args, r_args, x_argv, r_argv, r_result_header, x_result_header, r_request_header, x_req_header,
}

-- `sent` is what a sender writes, and a reader of it gets `a`, whatever follows on the connection.
pub record Delivers {A : Type 0} (sent : Result Bytes) (read : Bytes → Result (A × Bytes)) (a : A)
    : Type 0 where
  pub bytes : Bytes
  pub sends : sent ≡ ok bytes
  pub reads : (rest : Bytes) → read (bytes ++ rest) ≡ ok (a, rest)

pub token_int-Delivers :
    (token : Bytes) (param : ℕ)
    → length token ≡ 4
    → param < 2 ^ 32
    → Delivers (x_token_int token param) (r_token_int token) param
token_int-Delivers token param h p = record {
  bytes = token ++ hex_digits 8 param;
  sends = (r_token_int-x_token_int token [] param h p).0;
  reads = λ rest. (r_token_int-x_token_int token rest param h p).1;
}

-- A string arrives byte for byte.
pub token_string-Delivers :
    (token buf : Bytes)
    → length token ≡ 4
    → length buf < 2 ^ 32
    → Delivers (x_token_string token buf) (r_token_string token) buf
unfolding x_token_string r_token_string r_str_alloc
token_string-Delivers token buf h l =
    let same : length buf % 2 ^ 32 ≡ length buf = omega arith in
    let header = token_int-Delivers token (length buf) h l in
    record {
      bytes = header.bytes ++ buf;
      sends = rw same (rw header.sends);
      reads = λ rest.
          rw append_assoc
            (rw (header.reads (buf ++ rest)) (rw (readx-append (length buf) buf rest refl)));
    }

abbrev pub AllShort : Argv → Type 0
AllShort [] = Unit {0}
AllShort (a ∷ argv) = (length a < 2 ^ 32) × AllShort argv

args_nil : (token : Bytes) → Delivers (x_args token []) (r_args token 0) []
unfolding x_args r_args
args_nil token = record { bytes = []; sends = refl; reads = λ rest. refl }

args_cons :
    (token a : Bytes) (argv : Argv)
    → Delivers (x_token_string token a) (r_token_string token) a
    → Delivers (x_args token argv) (r_args token (length argv)) argv
    → Delivers (x_args token (a ∷ argv)) (r_args token (suc (length argv))) (a ∷ argv)
unfolding x_args r_args
args_cons token a argv d ds = record {
  bytes = d.bytes ++ ds.bytes;
  sends = rw (d.sends, ds.sends);
  reads = λ rest. rw append_assoc (rw (d.reads (ds.bytes ++ rest)) (rw (ds.reads rest)));
}

args-Delivers :
    (token : Bytes) (argv : Argv)
    → length token ≡ 4
    → AllShort argv
    → Delivers (x_args token argv) (r_args token (length argv)) argv
args-Delivers token [] h s = args_nil token
args-Delivers token (a ∷ argv) h (l, s) =
    args_cons token a argv (token_string-Delivers token a h l) (args-Delivers token argv h s)

take-all : (argv : Argv) → take (length argv) argv ≡ argv
take-all [] = refl
take-all (a ∷ argv) = ap (λ (t : Argv). a ∷ t) (take-all argv)

x_argv-few :
    (argc_token argv_token : Bytes) (argv : Argv) (header words : Bytes)
    → length argv < 2 ^ 31
    → x_token_int argc_token (length argv) ≡ ok header
    → x_args argv_token argv ≡ ok words
    → x_argv argc_token argv_token argv ≡ ok (header ++ words)
unfolding x_argv
x_argv-few argc_token argv_token argv header words few sent all_sent =
    let same : length argv % 2 ^ 32 ≡ length argv = omega arith in
    let positive : ltb (length argv) (2 ^ 31) ≡ true = ground arith in
    rw (same, positive, take-all argv, sent, all_sent) refl

-- An argument vector of fewer than 2 ^ 31 words, each shorter than 2 ^ 32 bytes, that is sent by
-- dcc_x_argv with tokens of four bytes is read by dcc_r_argv word for word, whatever follows.
pub argv-Delivers :
    (argc_token argv_token : Bytes) (argv : Argv)
    → length argc_token ≡ 4
    → length argv_token ≡ 4
    → length argv < 2 ^ 31
    → AllShort argv
    → Delivers (x_argv argc_token argv_token argv) (r_argv argc_token argv_token) argv
unfolding r_argv
argv-Delivers argc_token argv_token argv h k l s =
    let header = token_int-Delivers argc_token (length argv) h (omega arith) in
    let words = args-Delivers argv_token argv k s in
    record {
      bytes = header.bytes ++ words.bytes;
      sends =
          x_argv-few argc_token argv_token argv header.bytes words.bytes l header.sends words.sends;
      reads =
          λ rest. rw append_assoc (rw (header.reads (words.bytes ++ rest)) (rw (words.reads rest)));
    }

-- A version that the server knows arrives.
pub req_header-Delivers :
    (protover : ℕ) → protover ≤ 3 → Delivers (x_req_header protover) r_request_header protover
unfolding x_req_header r_request_header check_version
req_header-Delivers protover known =
    let d = token_int-Delivers (codes "DIST") protover refl (omega arith) in
    let accepted : ltb 3 protover ≡ false = ground arith in
    record { bytes = d.bytes; sends = d.sends; reads = λ rest. rw (d.reads rest, accepted) refl }

-- A request's version arrives if it is at most 3, and any other is refused.
r_request_header-x_req_header :
    (protover : ℕ) (rest : Bytes)
    → protover < 2 ^ 32
    → (bytes : Bytes) × (x_req_header protover ≡ ok bytes)
      × (r_request_header (bytes ++ rest)
          ≡ (if ltb 3 protover then err protocol_error else ok (protover, rest)))
unfolding x_req_header r_request_header
r_request_header-x_req_header protover rest h =
    let d = token_int-Delivers (codes "DIST") protover refl h in
    (d.bytes, d.sends, rw (d.reads rest))

-- The client takes a result of any version, whichever it has asked for.
r_result_header-x_result_header :
    (expect_ver protover : ℕ) (rest : Bytes)
    → protover < 2 ^ 32
    → (bytes : Bytes) × (x_result_header protover ≡ ok bytes)
      × (r_result_header expect_ver (bytes ++ rest) ≡ ok rest)
unfolding x_result_header r_result_header
r_result_header-x_result_header expect_ver protover rest h =
    let d = token_int-Delivers (codes "DONE") protover refl h in
    (d.bytes, d.sends, rw (d.reads rest))
