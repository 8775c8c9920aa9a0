-- ===== src/Bulk/Receive.antt =====
-- The receivers of src/bulk.c, src/pump.c and src/compress.c. What they have written before a failure is
-- not in their result, since dcc_r_file removes it.
use distcc.Prelude.{
  ℕ, zero, suc, Bool, true, false, ◌*◌, ◌%◌, ◌^◌, not, Option, none, some, [], ◌∷◌, ltb, ◌==◌,
  if◌then◌else◌, length, take, drop,
}
use distcc.Prelude.Bytes.{Bytes}
use distcc.ExitCode.{Result, ok, err, exits, undefined, io_error}
use distcc.Effects.{created, removed, Run, quiet, ◌>>=◌, Disk}
use distcc.Hosts.{Compress, compress_none, lzo1x}
use distcc.Rpc.{r_token_int, readx}
use distcc.Bulk.{Lzo, done, overrun, bad}

-- dcc_pump_readwrite from the connection: the end of the connection is EXIT_IO_ERROR here.
unfoldable pub pump_readwrite : ℕ → Bytes → Result (Bytes × Bytes)
pump_readwrite n input =
    if ltb (length input) n then err io_error else ok (take n input, drop n input)

-- From try_again_with_a_bigger_buffer on. `out_size` is a size_t.
unfoldable pub lzo_loop : ℕ → Lzo → Bytes → ℕ → Option (Result Bytes)
lzo_loop zero lzo in_buf out_size = none
lzo_loop (suc fuel) lzo in_buf out_size = elim (lzo.decompress in_buf out_size) [
  | done out_buf ↦ some (ok out_buf)
  | overrun ↦ lzo_loop fuel lzo in_buf (out_size * 2 % 2 ^ 64)
  | bad ↦ some (err io_error)
]

with_rest : Bytes → Option (Result Bytes) → Run (Bytes × Bytes)
with_rest rest none = ([], none)
with_rest rest (some undefined) = ([], some undefined)
with_rest rest (some (exits e)) = ([], some (exits e))
with_rest rest (some (err e)) = ([], some (err e))
with_rest rest (some (ok out_buf)) = ([], some (ok (out_buf, rest)))

-- The product 8 * in_len is one of `unsigned` numbers.
unfoldable pub r_bulk_lzo1x : ℕ → Lzo → ℕ → Bytes → Run (Bytes × Bytes)
unfolding with_rest
r_bulk_lzo1x fuel lzo in_len input = if in_len == 0 then quiet (ok ([], input)) else (do
  (in_buf, rest) ← quiet (readx in_len input)
  with_rest rest (lzo_loop fuel lzo in_buf (8 * in_len % 2 ^ 32)))

unfoldable pub r_bulk : ℕ → Lzo → ℕ → Compress → Bytes → Run (Bytes × Bytes)
r_bulk fuel lzo f_size compress_none input =
    if f_size == 0 then quiet (ok ([], input)) else quiet (pump_readwrite f_size input)
r_bulk fuel lzo f_size lzo1x input =
    if f_size == 0 then quiet (ok ([], input)) else r_bulk_lzo1x fuel lzo f_size input

-- The end of dcc_r_file, with whether the file can be closed.
close_file : Bytes → Bool → Option (Result (Bytes × Bytes)) → Run Bytes
close_file filename closed none = ([], none)
close_file filename closed (some undefined) = ([], some undefined)
close_file filename closed (some (exits e)) = ([], some (exits e))
close_file filename closed (some (err e)) = (removed filename ∷ [], some (err io_error))
close_file filename true (some (ok (bytes, rest))) = (created filename bytes ∷ [], some (ok rest))
close_file filename false (some (ok (bytes, rest))) = (removed filename ∷ [], some (err io_error))

-- dcc_r_file, and dcc_r_file_timed.
unfoldable pub r_file : ℕ → Lzo → Disk → Bytes → ℕ → Compress → Bytes → Run Bytes
unfolding close_file
r_file fuel lzo disk filename len compr input = elim (disk.ancestors filename) [
  | some ret ↦ quiet (err io_error)
  | none ↦
      if not (disk.opens filename)
      then quiet (err io_error)
      else close_file filename (disk.closes filename) (r_bulk fuel lzo len compr input).1
]

unfoldable pub r_token_file : ℕ → Lzo → Disk → Bytes → Bytes → Compress → Bytes → Run Bytes
r_token_file fuel lzo disk token fname compr input = do
  (i_size, rest) ← quiet (r_token_int token input)
  r_file fuel lzo disk fname i_size compr rest
