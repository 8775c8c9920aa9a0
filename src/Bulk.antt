-- ===== src/Bulk.antt =====
-- src/bulk.c, with dcc_r_bulk and dcc_pump_readwrite of src/pump.c and src/compress.c: files on the
-- connection. The lzo library is an argument. Allocation, reading a local file and writing succeed.
pub mod Receive
pub mod Laws
use distcc.Prelude.{
  ℕ, zero, suc, ◌+◌, ◌*◌, ◌%◌, ◌/◌, ◌^◌, Bool, true, false, not, Option, none, some, List, [], ◌∷◌,
  ◌++◌, ltb, ◌==◌, if◌then◌else◌, length, take, drop,
}
use distcc.Prelude.Bytes.{Bytes}
use distcc.ExitCode.{Result, ok, err, exits, undefined, io_error, ◌>>=◌}
use distcc.Hosts.{Compress, compress_none, lzo1x}
use distcc.Rpc.{x_token_int}

-- What lzo1x_decompress_safe answers: LZO_E_OK, LZO_E_OUTPUT_OVERRUN, or another code.
pub data Decompressed : Type 0 where
  done : Bytes → Decompressed
  overrun bad : Decompressed

-- lzo1x_1_compress, and lzo1x_decompress_safe with the size of its output buffer.
pub record Lzo : Type 0 where
  pub compress : Bytes → Option Bytes
  pub decompress : Bytes → ℕ → Decompressed

-- What open answers for a local file: ENOENT, another error, or its bytes.
pub data Opened : Type 0 where
  missing unreadable : Opened
  file : Bytes → Opened

-- dcc_open_read: `none` is the -1 for a missing file.
unfoldable pub open_read : Opened → Result (Option Bytes)
open_read missing = ok none
open_read unreadable = err io_error
open_read (file bytes) = ok (some bytes)

-- dcc_compress_lzo1x_alloc and its caller.
unfoldable pub compress_file : Lzo → Bytes → Result Bytes
compress_file lzo in_buf = elim (lzo.compress in_buf) [
  | none ↦ err io_error
  | some out_buf ↦ ok out_buf
]

-- `in_len` is an `unsigned`.
unfoldable pub x_file_lzo1x : Lzo → Bytes → Bytes → Result Bytes
x_file_lzo1x lzo token contents =
    let in_len = length contents % 2 ^ 32 in
    if in_len == 0 then x_token_int token 0 else (do
      out_buf ← compress_file lzo (take in_len contents)
      header ← x_token_int token (length out_buf % 2 ^ 32)
      ok (header ++ out_buf))

-- dcc_x_file returns 0 behind dcc_x_file_lzo1x in any case, also where nothing has been sent.
abbrev pub sent : Result Bytes → Result Bytes
sent (ok bytes) = ok bytes
sent (err e) = ok []
sent (exits e) = exits e
sent undefined = undefined

x_opened : Lzo → Compress → Bytes → Option Bytes → Result Bytes
x_opened lzo _ token none = err io_error
x_opened lzo compress_none token (some contents) = do
  header ← x_token_int token (length contents % 2 ^ 32)
  ok (header ++ contents)
x_opened lzo lzo1x token (some contents) = sent (x_file_lzo1x lzo token contents)

-- dcc_x_file: every failure of dcc_open_read is EXIT_IO_ERROR.
unfoldable pub x_file : Lzo → Compress → Bytes → Opened → Result Bytes
unfolding x_opened
x_file lzo compr token local = do contents ← open_read local; x_opened lzo compr token contents
