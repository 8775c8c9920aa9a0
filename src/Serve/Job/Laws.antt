-- ===== src/Serve/Job/Laws.antt =====
-- A job from the request of the client to the results that it retrieves: dcc_compile_remote of
-- src/remote.c and dcc_service_job of src/serve.c together.
use distcc.Prelude.{
  ℕ, suc, ◌^◌, ◌<◌, ◌≡◌, ◌==◌, ==_iff, Bool, true, Bool-cases, inl, inr, Option, some, List, [],
  ◌∷◌, ◌++◌, if◌then◌else◌, refl, sym, ◌∙◌, length, arith,
}
use distcc.Prelude.Bytes.{Bytes, codes}
use distcc.ExitCode.{ok}
use distcc.Effects.{Effect, created, Disk}
use distcc.Arg.{Argv}
use distcc.Hosts.{Compress, Hostdef, CppWhere, on_client, on_server}
use distcc.Rpc.{x_result_header, x_cc_status}
use distcc.Rpc.Tokens.{r_token_int-x_token_int}
use distcc.Bulk.{Lzo, file, x_file}
use distcc.Bulk.Laws.{IsLzo, IsWritable, x_file_body}
use distcc.Dotd.Cleanup.{cleaned}
use distcc.Results.{Names, retrieve_results}
use distcc.Results.Runs.{deps_made, DepsWritable}
use distcc.Results.Answer.{Job, object_messages, answer}
use distcc.Results.Laws.{IsShort, retrieve_results-answer}
use distcc.Serve.Request.{Temps, Prepared}
use distcc.Serve.Job.{
  Compilation, Server, dotd_name, zero_returned, final_status, cleaned_deps, fixed_object, files_of,
  answer_ended,
}

-- An answer depends on the messages of its job alone.
answer-same :
    (lzo : Lzo) (compr : Compress) (cpp_where : CppWhere) (compiled : ℕ → Bool)
    (protover status : ℕ) (j k : Job)
    → j.err_fname ≡ k.err_fname
    → j.out_fname ≡ k.out_fname
    → (compiled status ≡ true
        → object_messages lzo compr cpp_where j ≡ object_messages lzo compr cpp_where k)
    → answer lzo compr cpp_where compiled protover status j
      ≡ answer lzo compr cpp_where compiled protover status k
unfolding answer
answer-same lzo compr cpp_where compiled protover status j k e f same =
    elim (Bool-cases (compiled status)) [
      | inl h ↦ (let s = same h in cc (e, f, s))
      | inr h ↦ ground (arith, e, f, h)
    ]

-- The files that a successful compilation leaves for the client.
abbrev pub HasObject : Temps → Server → Bytes → Bytes → CppWhere → Bytes → Compilation → Type 0
HasObject temps server object dotd on_client client_out_name c = c.temp_o ≡ file object
HasObject temps server object dotd on_server client_out_name c =
    (fixed_object temps server c ≡ ok (true, file object))
    × (cleaned_deps temps server client_out_name c ≡ cleaned dotd)

-- The files that a successful compilation makes on the client.
abbrev pub delivered : Names → Bytes → Bytes → CppWhere → List Effect
delivered names object dotd on_client = created names.output_fname object ∷ []
delivered names object dotd on_server =
    created names.output_fname object ∷ deps_made names.deps_fname dotd

-- What dcc_run_job has prepared for the host.
abbrev pub ready : Hostdef → Argv → Bytes → Option Bytes → CppWhere → Bytes → Prepared
ready host argv orig_output dotd_target cpp_where rest = record {
  argv = argv;
  orig_output = orig_output;
  dotd_target = dotd_target;
  protover = host.protover;
  compr = host.compr;
  cpp_where = cpp_where;
  rest = rest;
}

module _ (fuel : ℕ) (lzo : Lzo) (laws : IsLzo lzo) (temps : Temps) (server : Server) (disk : Disk)
    (host : Hostdef) (names : Names) (err_text out_text object dotd : Bytes)
    (err_short : IsShort fuel lzo host.compr err_text)
    (out_short : IsShort fuel lzo host.compr out_text)
    (object_short : IsShort fuel lzo host.compr object)
    (dotd_short : IsShort fuel lzo host.compr dotd)
    (err_writable : IsWritable disk names.server_stderr_fname)
    (object_writable : IsWritable disk names.output_fname)
    (deps_writable : DepsWritable disk names.deps_fname) where
  -- The files of a job in which nothing is missing.
  abbrev whole : Job
  whole = record {
    err_fname = file err_text;
    out_fname = file out_text;
    temp_o = file object;
    debug_fixed = true;
    cleaned_dotd = ok (file dotd);
  }

  file_sent :
      (token : Bytes)
      → length token ≡ 4
      → (contents : Bytes) → IsShort fuel lzo host.compr contents
      → (bytes : Bytes) × (x_file lzo host.compr token (file contents) ≡ ok bytes)
  file_sent token four contents short =
      let sent = x_file_body lzo token four fuel host.compr contents laws short.0 short.1 in
      (_, sent.1)

  retrieved-whole :
      (cpp_where : CppWhere) (protover status : ℕ)
      → host.cpp_where ≡ some cpp_where
      → protover < 2 ^ 32
      → status < 2 ^ 32
      → server.compiled status ≡ (status == 0)
      → (more : Bytes)
      → retrieve_results
          (suc fuel)
          lzo
          disk
          host
          names
          true
          (answer lzo host.compr cpp_where server.compiled protover status whole ++ more)
        ≡ (
          created names.server_stderr_fname err_text
              ∷ (if status == 0 then delivered names object dotd cpp_where else []),
          some (ok (record { status = status; stdout = out_text })),
        )
  retrieved-whole on_client protover status placed small small' zero_is_success more =
      retrieve_results-answer fuel lzo disk host names laws err_text out_text err_short out_short
        err_writable protover status small small' object dotd object_short dotd_short
        object_writable deps_writable on_client server.compiled more placed zero_is_success
  retrieved-whole on_server protover status placed small small' zero_is_success more =
      retrieve_results-answer fuel lzo disk host names laws err_text out_text err_short out_short
        err_writable protover status small small' object dotd object_short dotd_short
        object_writable deps_writable on_server server.compiled more placed zero_is_success

  module _ (argv : Argv) (orig_output : Bytes) (dotd_target : Option Bytes) where
    same_messages :
        (cpp_where : CppWhere) (rest : Bytes) (c : Compilation)
        → HasObject temps server object dotd cpp_where (dotd_name dotd_target orig_output) c
        → object_messages lzo host.compr cpp_where
            (files_of temps server (ready host argv orig_output dotd_target cpp_where rest) c)
          ≡ object_messages lzo host.compr cpp_where whole
    unfolding object_messages files_of
    same_messages on_client rest c has = rw has refl
    same_messages on_server rest c has = rw (has.0, has.1) refl

    pub answer-retrieved :
        (cpp_where : CppWhere) (rest : Bytes) (c : Compilation)
        → host.cpp_where ≡ some cpp_where
        → c.err_fname ≡ file err_text
        → c.out_fname ≡ file out_text
        → host.protover < 2 ^ 32
        → final_status c < 2 ^ 32
        → server.compiled (final_status c) ≡ (final_status c == 0)
        → (final_status c ≡ 0
            → HasObject temps server object dotd cpp_where (dotd_name dotd_target orig_output) c)
        → (more : Bytes)
        → retrieve_results (suc fuel) lzo disk host names true (
            answer lzo host.compr cpp_where server.compiled host.protover
              (final_status c)
              (files_of temps server (ready host argv orig_output dotd_target cpp_where rest) c)
            ++ more)
          ≡ (
            created names.server_stderr_fname err_text
                ∷ (if final_status c == 0 then delivered names object dotd cpp_where else []),
            some (ok (record { status = final_status c; stdout = out_text })),
          )
    unfolding files_of
    answer-retrieved cpp_where rest c placed err_made out_made small small' zero_is_success has
          more =
        let sent_whole =
          answer-same lzo host.compr cpp_where server.compiled host.protover (final_status c)
            (files_of temps server (ready host argv orig_output dotd_target cpp_where rest) c) whole
            err_made out_made
            (λ compiled.
              same_messages cpp_where rest c
                (has ((==_iff (final_status c) 0).0 (sym zero_is_success ∙ compiled)))) in
        rw sent_whole (
          retrieved-whole cpp_where host.protover (final_status c) placed small small'
            zero_is_success more)

    pub all_sent :
        (cpp_where : CppWhere) (rest : Bytes) (c : Compilation)
        → c.err_fname ≡ file err_text
        → c.out_fname ≡ file out_text
        → host.protover < 2 ^ 32
        → final_status c < 2 ^ 32
        → server.compiled (final_status c) ≡ (final_status c == 0)
        → (final_status c ≡ 0
            → HasObject temps server object dotd cpp_where (dotd_name dotd_target orig_output) c)
        → answer_ended lzo temps server (ready host argv orig_output dotd_target cpp_where rest) c
          ≡ zero_returned
    unfolding answer_ended x_result_header x_cc_status files_of
    all_sent on_client rest c err_made out_made small small' zero_is_success has =
        let (_, serr) = file_sent (codes "SERR") refl err_text err_short in
        let (_, sout) = file_sent (codes "SOUT") refl out_text out_short in
        let (_, doto) = file_sent (codes "DOTO") refl object object_short in
        let (version, _) = r_token_int-x_token_int (codes "DONE") [] host.protover refl small in
        let (status, _) = r_token_int-x_token_int (codes "STAT") [] (final_status c) refl small' in
        elim (Bool-cases (server.compiled (final_status c))) [
          | inl compiled ↦
              let made = has ((==_iff (final_status c) 0).0 (sym zero_is_success ∙ compiled)) in
              rw (err_made, out_made, version, status, serr, sout, compiled, made, doto) refl
          | inr not_compiled ↦
              rw (err_made, out_made, version, status, serr, sout, not_compiled) refl
        ]
    all_sent on_server rest c err_made out_made small small' zero_is_success has =
        let (_, serr) = file_sent (codes "SERR") refl err_text err_short in
        let (_, sout) = file_sent (codes "SOUT") refl out_text out_short in
        let (_, doto) = file_sent (codes "DOTO") refl object object_short in
        let (_, deps) = file_sent (codes "DOTD") refl dotd dotd_short in
        let (version, _) = r_token_int-x_token_int (codes "DONE") [] host.protover refl small in
        let (status, _) = r_token_int-x_token_int (codes "STAT") [] (final_status c) refl small' in
        elim (Bool-cases (server.compiled (final_status c))) [
          | inl compiled ↦
              let made = has ((==_iff (final_status c) 0).0 (sym zero_is_success ∙ compiled)) in
              rw
                (
                  err_made, out_made, version, status, serr, sout, compiled, made.0, doto, made.1,
                  deps,
                )
                refl
          | inr not_compiled ↦
              rw (err_made, out_made, version, status, serr, sout, not_compiled) refl
        ]
