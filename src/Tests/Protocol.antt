-- ===== src/Tests/Protocol.antt =====
-- The packets of src/rpc.c.
use distcc.Prelude.{
  ◌≡◌, ◌≢◌, ◌^◌, ◌≤◌, ◌<◌, refl, [], ◌∷◌, ◌++◌, length, take, drop, ltb, arith, if◌then◌else◌,
}
use distcc.Prelude.Bytes.{Bytes, codes, str_equal}
use distcc.ExitCode.{ok, err, protocol_error, truncated}
use distcc.Rpc.Messages.{Delivers, argv-Delivers}
use distcc.Rpc.Strtoul.{strtoul}
use distcc.Rpc.Tokens.{r_token_int-x_token_int}
use distcc.Rpc.{
  hex_digit, hex_digits, x_token_int, readx, read_param, check_packet, r_token_int, x_argv, r_argv,
  x_req_header, r_request_header, x_result_header, r_result_header,
}

token_runs :
    (x_token_int (codes "ARGC") 0xbeef ≡ ok (codes "ARGC0000beef"))
    × (r_token_int (codes "ARGC") (codes "ARGC0000beefxyz") ≡ ok (0xbeef, codes "xyz"))
    × (r_token_int (codes "ARGC") (codes "ARGC 0x1 beef") ≡ err protocol_error)
    × (r_token_int (codes "ARGC") (codes "ARGC   -0x2") ≡ err truncated)
unfolding x_token_int hex_digits hex_digit r_token_int readx check_packet read_param strtoul
    str_equal distcc.Prelude.Bytes.skip_space distcc.Prelude.Bytes.isspace distcc.Rpc.Strtoul.signed
    distcc.Rpc.Strtoul.prefixed distcc.Rpc.Strtoul.digits_of distcc.Rpc.Strtoul.starts_digit
    distcc.Rpc.Strtoul.hex_value distcc.Rpc.Strtoul.take_digits
token_runs = (refl, refl, refl, refl)

r_token_int-x_token_int_example :
    (x_token_int (codes "ARGC") 3 ≡ ok (codes "ARGC" ++ hex_digits 8 3))
    × (r_token_int (codes "ARGC") (codes "ARGC" ++ hex_digits 8 3 ++ codes "ARGV")
        ≡ ok (3, codes "ARGV"))
r_token_int-x_token_int_example =
    r_token_int-x_token_int (codes "ARGC") (codes "ARGV") 3 refl (omega arith)

argv-Delivers_example :
    Delivers
      (x_argv (codes "ARGC") (codes "ARGV") (codes "cc" ∷ codes "-c" ∷ []))
      (r_argv (codes "ARGC") (codes "ARGV"))
      (codes "cc" ∷ codes "-c" ∷ [])
argv-Delivers_example =
    argv-Delivers (codes "ARGC") (codes "ARGV") (codes "cc" ∷ codes "-c" ∷ []) refl refl
      (omega arith) (omega arith)
