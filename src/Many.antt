-- ===== src/Many.antt =====
-- dcc_x_many_files of src/clirpc.c and dcc_r_many_files of src/srvrpc.c: the files that are sent to a
-- server that preprocesses. Whether symlink succeeds is told by the record Disk, by the target and the
-- name; its answer does not depend on what has been made before.
pub mod Items
pub mod Laws
use distcc.Prelude.{
  ℕ, zero, suc, ◌%◌, ◌^◌, Option, none, some, List, [], ◌∷◌, ◌++◌, ◌==◌, if◌then◌else◌,
}
use distcc.Prelude.Bytes.{Bytes, codes, first, str_equal}
use distcc.ExitCode.{ExitCode, Result, ok, err, protocol_error, failed_symlink}
use distcc.ExitCode as Code
use distcc.Effects.{created, removed, linked, Run, quiet, ◌>>=◌, Disk}
use distcc.Hosts.{Compress, compress_none}
use distcc.Rpc.{
  x_token_int, x_token_string, r_token_int, r_token_string, r_sometoken_int, r_str_alloc,
}
use distcc.Bulk.{Lzo, Opened, x_file, sent}
use distcc.Bulk.Receive.{r_file}

-- What the client finds out of a name: the name that the include server has it from, the target if it
-- is a symbolic link, and its bytes.
pub record Source : Type 0 where
  pub original_fname : Bytes → Result Bytes
  pub read_link : Bytes → Result (Option Bytes)
  pub opened : Bytes → Opened

then_behind : Bytes → Result Bytes → Result Bytes
then_behind front r = Code.◌>>=◌ r (λ bytes. ok (front ++ bytes))

-- One message behind another.
pub x_both : Result Bytes → Result Bytes → Result Bytes
unfolding then_behind
x_both a b = Code.◌>>=◌ a (λ front. then_behind front b)

x_entry : Lzo → Source → Bytes → Bytes → Option Bytes → Result Bytes
unfolding x_both
x_entry lzo source fname original (some points_to) =
    x_both (x_token_string (codes "NAME") original) (x_token_string (codes "LINK") points_to)
x_entry lzo source fname original none =
    x_both (x_token_string (codes "NAME") original)
      (x_file lzo compress_none (codes "FILE") (source.opened fname))

-- One round of the loop.
unfoldable pub x_one : Lzo → Source → Bytes → Result Bytes
unfolding x_entry
x_one lzo source fname = Code.◌>>=◌ (source.original_fname fname) (λ original.
    Code.◌>>=◌ (source.read_link fname) (λ target. x_entry lzo source fname original target))

unfoldable pub x_all : Lzo → Source → List Bytes → Result Bytes
unfolding x_both
x_all lzo source [] = ok []
x_all lzo source (fname ∷ fnames) = x_both (x_one lzo source fname) (x_all lzo source fnames)

-- The return value of the first message is dropped.
unfoldable pub x_many_files : Lzo → Source → ℕ → List Bytes → Result Bytes
unfolding x_both
x_many_files lzo source n_files fnames =
    x_both (sent (x_token_int (codes "NFIL") (n_files % 2 ^ 32))) (x_all lzo source fnames)

-- dcc_add_cleanup, and what follows a failure of it.
add_cleanup : Disk → Bytes → Bytes → Run Bytes
add_cleanup disk name rest = elim (disk.cleanup name) [
  | none ↦ quiet (ok rest)
  | some ret ↦ (removed name ∷ [], some (err ret))
]

-- A target that begins with a slash is taken to stand below the directory.
abbrev pub below : Bytes → Bytes → Bytes
below dirname target = if first target == b'/' then dirname ++ target else target

make_link : Disk → Bytes → Bytes → Bytes → Run Bytes
unfolding add_cleanup
make_link disk name target rest = elim (disk.ancestors name) [
  | some ret ↦ quiet (err ret)
  | none ↦
      if disk.symlinks target name
      then ((linked name target ∷ [], some (ok rest)) >>= add_cleanup disk name)
      else quiet (err failed_symlink)
]

r_entry : ℕ → Lzo → Disk → Bytes → Compress → Bytes → Bytes × ℕ × Bytes → Run Bytes
unfolding make_link add_cleanup
r_entry fuel lzo disk dirname compr name (token, link_or_file_len, input) =
    if str_equal token (codes "LINK")
    then (do
      (link_target, rest) ← quiet (r_str_alloc link_or_file_len input)
      make_link disk name (below dirname link_target) rest)
    else if str_equal token (codes "FILE")
    then (do
      rest ← r_file fuel lzo disk name link_or_file_len compr input
      add_cleanup disk name rest)
    else quiet (err protocol_error)

-- One round of the loop.
unfoldable pub r_one : ℕ → Lzo → Disk → Bytes → Compress → Bytes → Run Bytes
unfolding r_entry
r_one fuel lzo disk dirname compr input = do
  (name, rest) ← quiet (r_token_string (codes "NAME") input)
  message ← quiet (r_sometoken_int rest)
  r_entry fuel lzo disk dirname compr (dirname ++ name) message

unfoldable pub r_all : ℕ → Lzo → Disk → Bytes → Compress → ℕ → Bytes → Run Bytes
r_all fuel lzo disk dirname compr zero input = quiet (ok input)
r_all fuel lzo disk dirname compr (suc n) input = do
  rest ← r_one fuel lzo disk dirname compr input
  r_all fuel lzo disk dirname compr n rest

unfoldable pub r_many_files : ℕ → Lzo → Disk → Bytes → Compress → Bytes → Run Bytes
r_many_files fuel lzo disk dirname compr input = do
  (n_files, rest) ← quiet (r_token_int (codes "NFIL") input)
  r_all fuel lzo disk dirname compr n_files rest
