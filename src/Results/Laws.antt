-- ===== src/Results/Laws.antt =====
-- The answer of src/serve.c as dcc_retrieve_results of src/clirpc.c reads it.
use distcc.Prelude.{
  ℕ, suc, ◌*◌, ◌^◌, ◌≤◌, ◌<◌, ◌≡◌, ◌==◌, Bool, true, Bool-cases, inl, inr, some, List, [], ◌∷◌,
  ◌++◌, append_assoc, append-nil, if◌then◌else◌, refl, length, arith,
}
use distcc.Prelude.Bytes.{Bytes, codes}
use distcc.ExitCode.{ok}
use distcc.Effects.{Effect, created, behind, Disk}
use distcc.Hosts.{Compress, Hostdef, CppWhere, on_client, on_server}
use distcc.Rpc.{x_result_header, x_cc_status, r_cc_status}
use distcc.Rpc.Tokens.{r_token_int-x_token_int}
use distcc.Bulk.{Lzo, file, x_file}
use distcc.Bulk.Laws.{
  IsLzo, IsWritable, IsSendable, x_file_body, r_file-created, r_token_file-x_file,
}
use distcc.Results.{Retrieved, Names, retrieve_output, retrieve_results}
use distcc.Results.Runs.{
  packet, result_header, deps_made, DepsWritable, front_run, output_failed, output_client,
  output_server, deps_kept,
}
use distcc.Results.Answer.{Job, send_all, dotd_message, object_messages, answer}

abbrev pub IsShort : ℕ → Lzo → Compress → Bytes → Type 0
IsShort fuel lzo compr contents = IsSendable lzo compr contents × (length contents ≤ 8 * 2 ^ fuel)

module _ (fuel : ℕ) (lzo : Lzo) (disk : Disk) (host : Hostdef) (names : Names) (laws : IsLzo lzo)
    (err_text out_text : Bytes) (err_short : IsShort fuel lzo host.compr err_text)
    (out_short : IsShort fuel lzo host.compr out_text)
    (err_writable : IsWritable disk names.server_stderr_fname) (protover status : ℕ)
    (small_version : protover < 2 ^ 32) (small_status : status < 2 ^ 32) where
  abbrev got : Retrieved
  got = record { status = status; stdout = out_text }

  -- The four messages that every answer begins with.
  front :
      (bytes : Bytes) × (send_all (
          x_result_header protover
          ∷ x_cc_status status
          ∷ x_file lzo host.compr (codes "SERR") (file err_text)
          ∷ x_file lzo host.compr (codes "SOUT") (file out_text)
          ∷ [])
        ≡ (bytes, true))
      × ((rest : Bytes)
          → retrieve_results (suc fuel) lzo disk host names true (bytes ++ rest)
            ≡ behind
                (created names.server_stderr_fname err_text ∷ [])
                (retrieve_output (suc fuel) lzo disk host names got rest))
  unfolding send_all x_result_header x_cc_status r_cc_status
  front =
      let (serr, serr_sends, serr_runs) =
        r_token_file-x_file lzo disk (codes "SERR") names.server_stderr_fname refl err_writable fuel
          host.compr err_text laws err_short.0 err_short.1 in
      let (body, sout_sends, sout_size, sout_runs) =
        x_file_body lzo (codes "SOUT") refl fuel host.compr out_text laws out_short.0 out_short.1 in
      let sout = packet (codes "SOUT") (length body) ++ body in
      let (done_sends, _) = r_token_int-x_token_int (codes "DONE") [] protover refl small_version in
      let (stat_sends, _) = r_token_int-x_token_int (codes "STAT") [] status refl small_status in
      (
        packet (codes "DONE") protover ++ (packet (codes "STAT") status ++ (serr ++ (sout ++ []))),
        rw (send_all, done_sends, stat_sends, serr_sends, sout_sends) refl,
        λ rest.
            let t₅ = rest in
            let t₄ = body ++ t₅ in
            let t₃ = packet (codes "SOUT") (length body) ++ t₄ in
            let t₂ = serr ++ t₃ in
            let t₁ = packet (codes "STAT") status ++ t₂ in
            let same : (packet (codes "DONE") protover
                    ++ (packet (codes "STAT") status ++ (serr ++ (sout ++ []))))
                  ++ rest
                ≡ packet (codes "DONE") protover ++ t₁ =
              simp (append_assoc, append-nil) in
            rw same (
              front_run fuel lzo disk host names got err_text (packet (codes "DONE") protover ++ t₁)
                t₁ t₂ t₃ t₄ t₅ (length body) (result_header protover host.protover t₁ small_version)
                (r_token_int-x_token_int (codes "STAT") t₂ status refl small_status).1
                (serr_runs t₃)
                (r_token_int-x_token_int (codes "SOUT") t₄ (length body) refl sout_size).1
                (sout_runs t₅)),
      )

  module _ (object dotd : Bytes) (object_short : IsShort fuel lzo host.compr object)
      (dotd_short : IsShort fuel lzo host.compr dotd)
      (object_writable : IsWritable disk names.output_fname)
      (deps_writable : DepsWritable disk names.deps_fname) where
    -- All files of the job are there.
    abbrev pub job : Job
    job = record {
      err_fname = file err_text;
      out_fname = file out_text;
      temp_o = file object;
      debug_fixed = true;
      cleaned_dotd = ok (file dotd);
    }

    -- What a compilation that has succeeded makes besides the file with the messages.
    abbrev objects_made : CppWhere → List Effect
    objects_made on_client = created names.output_fname object ∷ []
    objects_made on_server = created names.output_fname object ∷ deps_made names.deps_fname dotd

    object_run :
        (cpp_where : CppWhere)
        → host.cpp_where ≡ some cpp_where
        → (status == 0) ≡ true
        → (rest : Bytes)
        → retrieve_output
            (suc fuel)
            lzo
            disk
            host
            names
            got
            ((send_all (object_messages lzo host.compr cpp_where job)).0 ++ rest)
          ≡ (objects_made cpp_where, some (ok got))
    unfolding send_all object_messages dotd_message
    object_run on_client locally succeeded rest =
        let (body, sends, size, received) =
          x_file_body lzo (codes "DOTO") refl fuel host.compr object laws object_short.0
            object_short.1 in
        let made =
          r_file-created (suc fuel) lzo disk names.output_fname (length body) host.compr
            (body ++ rest) object rest object_writable (received rest) in
        let bytes : (send_all (object_messages lzo host.compr on_client job)).0
            ≡ (packet (codes "DOTO") (length body) ++ body) ++ [] =
          rw (send_all, object_messages, sends) refl in
        let same : ((packet (codes "DOTO") (length body) ++ body) ++ []) ++ rest
            ≡ packet (codes "DOTO") (length body) ++ (body ++ rest) =
          simp (append_assoc, append-nil) in
        rw bytes (
          rw same (
            output_client fuel lzo disk host names got
              (packet (codes "DOTO") (length body) ++ (body ++ rest)) (body ++ rest) rest object
              (length body) succeeded locally
              (r_token_int-x_token_int (codes "DOTO") (body ++ rest) (length body) refl size).1
              made))
    object_run on_server remotely succeeded rest =
        let (body, sends, size, received) =
          x_file_body lzo (codes "DOTO") refl fuel host.compr object laws object_short.0
            object_short.1 in
        let (body', sends', size', received') =
          x_file_body lzo (codes "DOTD") refl fuel host.compr dotd laws dotd_short.0 dotd_short.1 in
        let t₂ = body' ++ rest in
        let t₁ = packet (codes "DOTD") (length body') ++ t₂ in
        let made =
          r_file-created (suc fuel) lzo disk names.output_fname (length body) host.compr
            (body ++ t₁) object t₁ object_writable (received t₁) in
        let bytes : (send_all (object_messages lzo host.compr on_server job)).0
            ≡ (packet (codes "DOTO") (length body) ++ body)
              ++ ((packet (codes "DOTD") (length body') ++ body') ++ []) =
          rw (send_all, object_messages, dotd_message, sends, sends') refl in
        let same : ((packet (codes "DOTO") (length body) ++ body)
                ++ ((packet (codes "DOTD") (length body') ++ body') ++ []))
              ++ rest
            ≡ packet (codes "DOTO") (length body) ++ (body ++ t₁) =
          simp (append_assoc, append-nil) in
        rw bytes (
          rw same (
            output_server fuel lzo disk host names got
              (packet (codes "DOTO") (length body) ++ (body ++ t₁)) (body ++ t₁) t₁ object
              (length body) (ok (length body', t₂)) (deps_made names.deps_fname dotd) succeeded
              remotely
              (r_token_int-x_token_int (codes "DOTO") (body ++ t₁) (length body) refl size).1 made
              (r_token_int-x_token_int (codes "DOTD") t₂ (length body') refl size').1
              (deps_kept fuel lzo disk host names got names.deps_fname body' dotd rest deps_writable
                (received' rest))))

    -- Where the answer of a job is read by dcc_retrieve_results with the same compression and place of
    -- preprocessing, it gives the compiler's status and standard output, the compiler's messages in
    -- their file, and, of a compilation that has succeeded, the object file and the dependencies that
    -- are asked for. The files must be short enough to be sent and for the fuel, and be writable on
    -- the client, lzo be as documented, version and status fit 32 bits, and the status is zero just where the compiler has succeeded. On the
    -- server all files of the job can be read, and dcc_fix_debug_info and dcc_cleanup_dotd have
    -- succeeded; on the client dcc_add_file_to_log_email does.
    pub retrieve_results-answer :
        (cpp_where : CppWhere) (compiled : ℕ → Bool) (rest : Bytes)
        → host.cpp_where ≡ some cpp_where
        → compiled status ≡ (status == 0)
        → retrieve_results
            (suc fuel)
            lzo
            disk
            host
            names
            true
            (answer lzo host.compr cpp_where compiled protover status job ++ rest)
          ≡ (
            created names.server_stderr_fname err_text
                ∷ (if status == 0 then objects_made cpp_where else []),
            some (ok got),
          )
    unfolding answer send_all
    retrieve_results-answer cpp_where compiled rest placed zero_is_success =
        let (bytes, sends, runs) = front in
        elim (Bool-cases (status == 0)) [
          | inl succeeded ↦
              let messages = (send_all (object_messages lzo host.compr cpp_where job)).0 in
              let sent_all : answer lzo host.compr cpp_where compiled protover status job
                  ≡ bytes ++ messages =
                rw (answer, sends, zero_is_success, succeeded) refl in
              rw
                (
                  sent_all,
                  append_assoc bytes messages rest,
                  runs (messages ++ rest),
                  object_run cpp_where placed succeeded rest,
                  succeeded,
                )
                refl
          | inr failed ↦
              let nothing = packet (codes "DOTO") 0 in
              let (none_sends, _) =
                r_token_int-x_token_int (codes "DOTO") [] 0 refl (omega arith) in
              let sent_all : answer lzo host.compr cpp_where compiled protover status job
                  ≡ bytes ++ (nothing ++ []) =
                rw (answer, sends, zero_is_success, failed, send_all, none_sends) refl in
              rw
                (
                  sent_all,
                  append-nil nothing,
                  append_assoc bytes nothing rest,
                  runs (nothing ++ rest),
                  output_failed fuel lzo disk host names got rest failed,
                  failed,
                )
                refl
        ]
