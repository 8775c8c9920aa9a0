-- ===== src/Results/Answer.antt =====
-- What dcc_run_job of src/serve.c sends when the compiler has run. Writing succeeds, so that a message
-- fails where its file cannot be read.
use distcc.Prelude.{ℕ, Bool, true, false, not, ◌&&◌, List, [], ◌∷◌, ◌++◌, if◌then◌else◌}
use distcc.Prelude.Bytes.{Bytes, codes}
use distcc.ExitCode.{Result, ok}
use distcc.Hosts.{Compress, CppWhere, on_client, on_server}
use distcc.Rpc.{x_token_int, x_result_header, x_cc_status}
use distcc.Bulk.{Lzo, Opened, x_file, sent}

-- The files of a job: the compiler's messages and output, the object file, and the dependencies that
-- dcc_cleanup_dotd has made, where it succeeds.
pub record Job : Type 0 where
  pub err_fname : Opened
  pub out_fname : Opened
  pub temp_o : Opened
  pub debug_fixed : Bool
  pub cleaned_dotd : Result Opened

-- Messages joined by ||: they are sent up to the first that fails. The flag says whether all were.
unfoldable pub send_all : List (Result Bytes) → Bytes × Bool
send_all [] = ([], true)
send_all (ok bytes ∷ messages) = let (more, all) = send_all messages in (bytes ++ more, all)
send_all (_ ∷ messages) = ([], false)

unfoldable pub dotd_message : Lzo → Compress → Result Opened → List (Result Bytes)
dotd_message lzo compr (ok dotd) = x_file lzo compr (codes "DOTD") dotd ∷ []
dotd_message lzo compr _ = []

-- The messages behind those that every job has.
unfoldable pub object_messages : Lzo → Compress → CppWhere → Job → List (Result Bytes)
unfolding dotd_message
object_messages lzo compr on_client job = x_file lzo compr (codes "DOTO") job.temp_o ∷ []
object_messages lzo compr on_server job =
    if not job.debug_fixed
    then []
    else x_file lzo compr (codes "DOTO") job.temp_o ∷ dotd_message lzo compr job.cleaned_dotd

-- The bytes of the answer. `compiled` is the negation of
-- `WIFSIGNALED(status) || WEXITSTATUS(status)`.
unfoldable pub answer : Lzo → Compress → CppWhere → (ℕ → Bool) → ℕ → ℕ → Job → Bytes
unfolding object_messages
answer lzo compr cpp_where compiled protover status job =
    let (front, all) = send_all (
      x_result_header protover
      ∷ x_cc_status status
      ∷ x_file lzo compr (codes "SERR") job.err_fname
      ∷ x_file lzo compr (codes "SOUT") job.out_fname
      ∷ []) in
    if all && compiled status
    then front ++ (send_all (object_messages lzo compr cpp_where job)).0
    else front ++ (send_all (sent (x_token_int (codes "DOTO") 0) ∷ [])).0
