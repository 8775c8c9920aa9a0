-- ===== src/Results/Runs.antt =====
-- dcc_retrieve_results of src/clirpc.c on the messages of an answer, one after the other.
use distcc.Prelude.{
  ℕ, suc, ◌^◌, ◌<◌, ◌≡◌, ◌==◌, true, false, Option, none, some, List, [], ◌∷◌, ◌++◌, refl, length,
  arith,
}
use distcc.Prelude.Bytes.{Bytes, codes}
use distcc.ExitCode.{Result, ok}
use distcc.Effects.{Effect, created, behind, Disk}
use distcc.Hosts.{Hostdef, on_client, on_server}
use distcc.Rpc.{hex_digits, r_token_int, r_result_header, r_cc_status}
use distcc.Rpc.Tokens.{r_token_int-x_token_int}
use distcc.Bulk.{Lzo}
use distcc.Bulk.Receive.{r_bulk, r_file, r_token_file}
use distcc.Bulk.Laws.{IsWritable, r_file-created}
use distcc.Results.{
  Retrieved, Names, retrieve_deps, is_on_server, retrieve_output, retrieve_results,
}

abbrev pub packet : Bytes → ℕ → Bytes
packet token n = token ++ hex_digits 8 n

pub result_header :
    (protover expect_ver : ℕ) (rest : Bytes)
    → protover < 2 ^ 32
    → r_result_header expect_ver (packet (codes "DONE") protover ++ rest) ≡ ok rest
unfolding r_result_header
result_header protover expect_ver rest small =
    rw (r_result_header, (r_token_int-x_token_int (codes "DONE") rest protover refl small).1) refl

-- The dependencies go to their file, if they are asked for.
abbrev pub deps_made : Option Bytes → Bytes → List Effect
deps_made none dotd = []
deps_made (some deps_fname) dotd = created deps_fname dotd ∷ []

abbrev pub DepsWritable : Disk → Option Bytes → Type 0
DepsWritable disk none = Unit {0}
DepsWritable disk (some deps_fname) = IsWritable disk deps_fname

module _ (fuel : ℕ) (lzo : Lzo) (disk : Disk) (host : Hostdef) (names : Names)
    (got : Retrieved) where
  pub front_run :
      (err_text t₀ t₁ t₂ t₃ t₄ t₅ : Bytes) (len : ℕ)
      → r_result_header host.protover t₀ ≡ ok t₁
      → r_cc_status t₁ ≡ ok (got.status, t₂)
      → r_token_file (suc fuel) lzo disk (codes "SERR") names.server_stderr_fname host.compr t₂
        ≡ (created names.server_stderr_fname err_text ∷ [], some (ok t₃))
      → r_token_int (codes "SOUT") t₃ ≡ ok (len, t₄)
      → r_bulk (suc fuel) lzo len host.compr t₄ ≡ ([], some (ok (got.stdout, t₅)))
      → retrieve_results (suc fuel) lzo disk host names true t₀
        ≡ behind
            (created names.server_stderr_fname err_text ∷ [])
            (retrieve_output (suc fuel) lzo disk host names got t₅)
  unfolding retrieve_results
  front_run err_text t₀ t₁ t₂ t₃ t₄ t₅ len h₁ h₂ h₃ h₄ h₅ =
      rw (retrieve_results, h₁, h₂, h₃, h₄, h₅) refl

  pub output_failed :
      (rest : Bytes)
      → (got.status == 0) ≡ false
      → retrieve_output (suc fuel) lzo disk host names got (packet (codes "DOTO") 0 ++ rest)
        ≡ ([], some (ok got))
  unfolding retrieve_output
  output_failed rest failed =
      rw
        (
          retrieve_output,
          (r_token_int-x_token_int (codes "DOTO") rest 0 refl (omega arith)).1,
          failed,
        )
        refl

  pub output_client :
      (doto rest behind object : Bytes) (len : ℕ)
      → (got.status == 0) ≡ true
      → host.cpp_where ≡ some on_client
      → r_token_int (codes "DOTO") doto ≡ ok (len, rest)
      → r_file (suc fuel) lzo disk names.output_fname len host.compr rest
        ≡ (created names.output_fname object ∷ [], some (ok behind))
      → retrieve_output (suc fuel) lzo disk host names got doto
        ≡ (created names.output_fname object ∷ [], some (ok got))
  unfolding retrieve_output is_on_server
  output_client doto rest behind object len succeeded locally header made =
      rw (retrieve_output, header, succeeded, made, is_on_server, locally) refl

  pub output_server :
      (doto rest behind object : Bytes) (len : ℕ) (dotd : Result (ℕ × Bytes)) (more : List Effect)
      → (got.status == 0) ≡ true
      → host.cpp_where ≡ some on_server
      → r_token_int (codes "DOTO") doto ≡ ok (len, rest)
      → r_file (suc fuel) lzo disk names.output_fname len host.compr rest
        ≡ (created names.output_fname object ∷ [], some (ok behind))
      → r_token_int (codes "DOTD") behind ≡ dotd
      → retrieve_deps (suc fuel) lzo disk host got names.deps_fname dotd ≡ (more, some (ok got))
      → retrieve_output (suc fuel) lzo disk host names got doto
        ≡ (created names.output_fname object ∷ more, some (ok got))
  unfolding retrieve_output is_on_server
  output_server doto rest behind object len dotd more succeeded remotely header made header' kept =
      rw (retrieve_output, header, succeeded, made, is_on_server, remotely, header', kept) refl

  pub deps_kept :
      (deps_fname : Option Bytes) (body dotd rest : Bytes)
      → DepsWritable disk deps_fname
      → r_bulk (suc fuel) lzo (length body) host.compr (body ++ rest) ≡ ([], some (ok (dotd, rest)))
      → retrieve_deps (suc fuel) lzo disk host got deps_fname (ok (length body, body ++ rest))
        ≡ (deps_made deps_fname dotd, some (ok got))
  unfolding retrieve_deps
  deps_kept none body dotd rest writable received = refl
  deps_kept (some deps_fname) body dotd rest writable received =
      rw
        (
          retrieve_deps,
          r_file-created (suc fuel) lzo disk deps_fname (length body) host.compr (body ++ rest) dotd
              rest writable received,
        )
        refl
