-- ===== src/Results.antt =====
-- The answer of the server: the end of dcc_run_job in src/serve.c, and dcc_retrieve_results of
-- src/clirpc.c. Tracing, statistics and the notes on the state are left out.
pub mod Answer
pub mod Runs
pub mod Laws
use distcc.Prelude.{
  ℕ, ◌==◌, not, Bool, true, false, ◌&&◌, Option, none, some, List, [], ◌∷◌, ◌++◌, if◌then◌else◌,
}
use distcc.Prelude.Bytes.{Bytes, codes}
use distcc.ExitCode.{Result, ok, err, exits, undefined}
use distcc.Effects.{Run, quiet, ◌>>=◌, Disk}
use distcc.Hosts.{Hostdef, CppWhere, on_server, on_client}
use distcc.Rpc.{r_token_int, r_result_header, r_cc_status}
use distcc.Bulk.{Lzo}
use distcc.Bulk.Receive.{r_bulk, r_file, r_token_file}

-- `*status` and the bytes for the standard output.
pub record Retrieved : Type 0 where
  pub status : ℕ
  pub stdout : Bytes

-- Where the results go: `deps_fname` may be NULL.
pub record Names : Type 0 where
  pub output_fname : Bytes
  pub deps_fname : Option Bytes
  pub server_stderr_fname : Bytes

-- The message DOTD. A failure of dcc_r_token_int is taken for a reason to go on to `return 0`.
pub retrieve_deps :
    ℕ → Lzo → Disk → Hostdef → Retrieved → Option Bytes → Result (ℕ × Bytes) → Run Retrieved
retrieve_deps fuel lzo disk host got none r = quiet (ok got)
retrieve_deps fuel lzo disk host got (some deps_fname) (ok (len, rest)) = do
  behind ← r_file fuel lzo disk deps_fname len host.compr rest
  quiet (ok got)
retrieve_deps fuel lzo disk host got (some deps_fname) _ = quiet (ok got)

is_on_server : Option CppWhere → Bool
is_on_server none = false
is_on_server (some on_client) = false
is_on_server (some on_server) = true

-- From the message DOTO on.
pub retrieve_output : ℕ → Lzo → Disk → Hostdef → Names → Retrieved → Bytes → Run Retrieved
unfolding retrieve_deps is_on_server
retrieve_output fuel lzo disk host names got input = do
  (o_len, rest) ← quiet (r_token_int (codes "DOTO") input)
  if got.status == 0
      then (do
        rest' ← r_file fuel lzo disk names.output_fname o_len host.compr rest
        if is_on_server host.cpp_where
            then retrieve_deps fuel lzo disk host got names.deps_fname
                (r_token_int (codes "DOTD") rest')
            else quiet (ok got))
      else quiet (ok got)

-- dcc_retrieve_results. Where dcc_add_file_to_log_email fails, `ret` is still 0, and is returned.
unfoldable pub retrieve_results : ℕ → Lzo → Disk → Hostdef → Names → Bool → Bytes → Run Retrieved
unfolding retrieve_output
retrieve_results fuel lzo disk host names logged input = do
  t₁ ← quiet (r_result_header host.protover input)
  (status, t₂) ← quiet (r_cc_status t₁)
  t₃ ← r_token_file fuel lzo disk (codes "SERR") names.server_stderr_fname host.compr t₂
  if not logged then quiet (ok (record { status = status; stdout = [] })) else (do
    (len, t₄) ← quiet (r_token_int (codes "SOUT") t₃)
    (stdout, t₅) ← r_bulk fuel lzo len host.compr t₄
    retrieve_output fuel lzo disk host names (record { status = status; stdout = stdout }) t₅)
