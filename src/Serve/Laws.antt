-- ===== src/Serve/Laws.antt =====
-- The request that dcc_compile_remote of src/remote.c sends, as dcc_run_job of src/serve.c reads it.
use distcc.Prelude.{
  ℕ, suc, ◌*◌, ◌^◌, ◌≤◌, ◌<◌, ◌≡◌, Bool, true, Option, none, some, List, [], ◌∷◌, ◌++◌, map,
  append_assoc, append-nil, refl, ap, ◌∙◌, length, arith,
}
use distcc.Prelude.Bytes.{Bytes, codes}
use distcc.ExitCode.{ExitCode, Result, ok}
use distcc.Effects.{Effect, created, Run, Disk}
use distcc.Arg.{Argv, Scanned, scan_args}
use distcc.Arg.Rewrite.{set_input, set_output}
use distcc.Hosts.{Hostdef, CppWhere, on_client, on_server, get_features_from_protover}
use distcc.Rpc.{x_req_header, x_argv, r_token_string, r_request_header, r_argv}
use distcc.Rpc.Messages.{
  Delivers, AllShort, argv-Delivers, token_string-Delivers, req_header-Delivers,
}
use distcc.Bulk.{Lzo, file}
use distcc.Bulk.Receive.{r_token_file}
use distcc.Bulk.Laws.{IsLzo, IsWritable, IsSendable, r_token_file-x_file}
use distcc.Many.{Source, x_many_files, r_many_files}
use distcc.Many.Items.{Item, AllItems, fname_of, effect_of, x_both-ok}
use distcc.Many.Laws.{r_many_files-x_many_files}
use distcc.Serve.{tweak_arguments}
use distcc.Serve.Header.{length-map, cwd_none, cwd_some, body_source, body_files, header_bytes}
use distcc.Serve.Request.{
  request, Temps, Prepared, read_source, read_files, read_cwd, read_rest, run_job,
}

-- The bytes of the request make the server do the effects, prepare the job, and leave the rest.
abbrev pub Prepares :
    Result Bytes → (Bytes → Run (Option Prepared)) → List Effect → (Bytes → Prepared) → Type 0
Prepares writer reader effects prepared =
    (bytes : Bytes) × (writer ≡ ok bytes)
    × ((rest : Bytes) → reader (bytes ++ rest) ≡ (effects, some (ok (some (prepared rest)))))

module _ (assemble : Bool) (fuel : ℕ) (lzo : Lzo) (disk : Disk) (temps : Temps) (laws : IsLzo lzo)
    (enter : Bytes → Option ExitCode) (host : Hostdef) (known : host.protover ≤ 3) (argv : Argv)
    (short_argv : length argv < 2 ^ 31) (short_words : AllShort argv) (scanned : Scanned)
    (scans : scan_args assemble argv ≡ ok scanned) where
  front_run :
      (t₀ t₁ t₂ t₃ : Bytes) (cpp_where : CppWhere)
      → r_request_header t₀ ≡ ok (host.protover, t₁)
      → get_features_from_protover host.protover ≡ (host.compr, cpp_where, true)
      → read_cwd assemble (suc fuel) lzo disk temps enter cpp_where t₁ ≡ ok t₂
      → r_argv (codes "ARGC") (codes "ARGV") t₂ ≡ ok (argv, t₃)
      → run_job assemble (suc fuel) lzo disk temps enter t₀
        ≡ read_rest assemble (suc fuel) lzo disk temps cpp_where host.protover host.compr scanned t₃
  unfolding run_job
  front_run t₀ t₁ t₂ t₃ cpp_where h₁ features h₂ h₃ = rw (run_job, h₁, features, h₂, h₃, scans) refl

  argv_message :
      Delivers
        (x_argv (codes "ARGC") (codes "ARGV") argv)
        (r_argv (codes "ARGC") (codes "ARGV"))
        argv
  argv_message = argv-Delivers (codes "ARGC") (codes "ARGV") argv refl refl short_argv short_words

  version_message : Delivers (x_req_header host.protover) r_request_header host.protover
  version_message = req_header-Delivers host.protover known

  read_source-run :
      (t₃ rest : Bytes) (effects : List Effect) (with_input with_output : Argv)
      → r_token_file (suc fuel) lzo disk (codes "DOTI") temps.temp_i host.compr t₃
        ≡ (effects, some (ok rest))
      → set_input assemble scanned.newargv temps.temp_i ≡ ok with_input
      → set_output with_input temps.temp_o ≡ ok with_output
      → read_source assemble (suc fuel) lzo disk temps host.protover host.compr scanned t₃ ≡ (
        effects ++ [],
        some (
            ok (
              some (record {
                argv = with_output;
                orig_output = scanned.output_file;
                dotd_target = none;
                protover = host.protover;
                compr = host.compr;
                cpp_where = on_client;
                rest = rest;
              }))),
      )
  unfolding read_source
  read_source-run t₃ rest effects with_input with_output h₁ h₂ h₃ =
      rw (read_source, h₁, h₂, h₃) refl

  -- With lzo as documented: a client that preprocesses sends its version, which is 3 at most and the one
  -- of its features, an argv of fewer than 2 ^ 31 words
  -- with a length of 32 bits, and the preprocessed source, short enough to be sent and for the fuel. The server, if
  -- its scan of the argv succeeds, dcc_set_input and dcc_set_output do on the result, and its input
  -- file is writable, makes that file
  -- with the text of the source, prepares the argv with its own names for input and output, and
  -- knows the name that the client wants for the output; just the bytes of the request are taken off the connection.
  pub run_job-on_client :
      (cwd : Option Bytes) (source : Source) (files : List Bytes) (doti : Bytes)
      (with_input with_output : Argv)
      → host.cpp_where ≡ some on_client
      → get_features_from_protover host.protover ≡ (host.compr, on_client, true)
      → IsSendable lzo host.compr doti
      → length doti ≤ 8 * 2 ^ fuel
      → IsWritable disk temps.temp_i
      → set_input assemble scanned.newargv temps.temp_i ≡ ok with_input
      → set_output with_input temps.temp_o ≡ ok with_output
      → Prepares
          (request lzo host cwd argv source files (file doti))
          (run_job assemble (suc fuel) lzo disk temps enter)
          (created temps.temp_i doti ∷ [])
          (λ rest. record {
            argv = with_output;
            orig_output = scanned.output_file;
            dotd_target = none;
            protover = host.protover;
            compr = host.compr;
            cpp_where = on_client;
            rest = rest;
          })
  unfolding request read_cwd read_rest
  run_job-on_client cwd source files doti with_input with_output placed features sendable enough
        writable h₂ h₃ =
      let (body, sends, runs) =
        r_token_file-x_file lzo disk (codes "DOTI") temps.temp_i refl writable fuel host.compr doti
          laws sendable enough in
      let v = version_message in
      let a = argv_message in
      (
        (v.bytes ++ ([] ++ a.bytes)) ++ body,
        x_both-ok _ _ (v.bytes ++ ([] ++ a.bytes)) body
            (header_bytes lzo host argv cwd v.bytes [] a.bytes v.sends
              (cwd_none host.cpp_where cwd placed) a.sends)
            (body_source lzo host argv source files doti placed ∙ sends),
        λ rest.
            let same : ((v.bytes ++ ([] ++ a.bytes)) ++ body) ++ rest
                ≡ v.bytes ++ (a.bytes ++ (body ++ rest)) =
              simp append_assoc in
            rw same (
              front_run (v.bytes ++ (a.bytes ++ (body ++ rest))) (a.bytes ++ (body ++ rest))
                (a.bytes ++ (body ++ rest)) (body ++ rest) on_client
                (v.reads (a.bytes ++ (body ++ rest))) features refl (a.reads (body ++ rest))
              ∙ read_source-run (body ++ rest) rest (created temps.temp_i doti ∷ []) with_input
                  with_output (runs rest) h₂ h₃),
      )

  read_files-run :
      (t₃ rest : Bytes) (effects : List Effect) (with_output prepared : Argv)
      (dotd_target : Option Bytes)
      → r_many_files (suc fuel) lzo disk temps.temp_dir host.compr t₃ ≡ (effects, some (ok rest))
      → set_output scanned.newargv temps.temp_o ≡ ok with_output
      → tweak_arguments assemble temps.temp_dir temps.deps_fname with_output
        ≡ ok (some (prepared, dotd_target))
      → read_files assemble (suc fuel) lzo disk temps host.protover host.compr scanned t₃ ≡ (
        effects,
        some (
            ok (
              some (record {
                argv = prepared;
                orig_output = scanned.output_file;
                dotd_target = dotd_target;
                protover = host.protover;
                compr = host.compr;
                cpp_where = on_server;
                rest = rest;
              }))),
      )
  unfolding read_files
  read_files-run t₃ rest effects with_output prepared dotd_target h₁ h₂ h₃ =
      rw (read_files, h₁, h₂, h₃, append-nil effects, append-nil effects) refl

  read_cwd-run :
      (cwd t₁ t₂ : Bytes)
      → r_token_string (codes "CDIR") t₁ ≡ ok (cwd, t₂)
      → enter (temps.temp_dir ++ cwd) ≡ none
      → read_cwd assemble (suc fuel) lzo disk temps enter on_server t₁ ≡ ok t₂
  unfolding read_cwd
  read_cwd-run cwd t₁ t₂ h₁ h₂ = rw (read_cwd, h₁, h₂) refl

  -- With lzo as documented: a client that lets the server preprocess sends its version, which is 3 at
  -- most and the one of its features, its directory, an
  -- argv of fewer than 2 ^ 31 words and the files, all with lengths of 32 bits, and the files as they
  -- can be sent and short enough for the fuel. The server, if it can enter that directory below its own, its scan of the argv,
  -- dcc_set_output and the change of the include options succeed, and it can make the files and links,
  -- which have different names, makes the files and links below its own directory, prepares that argv, and knows the
  -- output and the target of the dependencies that the client wants; just the bytes of the request
  -- are taken off the connection.
  pub run_job-on_server :
      (cwd : Bytes) (source : Source) (items : List Item) (doti : Bytes)
      (with_output prepared : Argv) (dotd_target : Option Bytes)
      → host.cpp_where ≡ some on_server
      → get_features_from_protover host.protover ≡ (host.compr, on_server, true)
      → length cwd < 2 ^ 32
      → enter (temps.temp_dir ++ cwd) ≡ none
      → AllItems fuel lzo source disk temps.temp_dir host.compr items
      → length (map fname_of items) < 2 ^ 32
      → set_output scanned.newargv temps.temp_o ≡ ok with_output
      → tweak_arguments assemble temps.temp_dir temps.deps_fname with_output
        ≡ ok (some (prepared, dotd_target))
      → Prepares
          (request lzo host (some cwd) argv source (map fname_of items) (file doti))
          (run_job assemble (suc fuel) lzo disk temps enter)
          (map (effect_of temps.temp_dir) items)
          (λ rest. record {
            argv = prepared;
            orig_output = scanned.output_file;
            dotd_target = dotd_target;
            protover = host.protover;
            compr = host.compr;
            cpp_where = on_server;
            rest = rest;
          })
  unfolding request read_rest
  run_job-on_server cwd source items doti with_output prepared dotd_target placed features short_cwd
        entered found short h₂ h₃ =
      let same_length : length (map fname_of items) ≡ length items = length-map fname_of items in
      let m =
        r_many_files-x_many_files fuel lzo source disk temps.temp_dir host.compr laws items found
          (omega (arith, short, same_length)) in
      let v = version_message in
      let c = token_string-Delivers (codes "CDIR") cwd refl short_cwd in
      let a = argv_message in
      (
        (v.bytes ++ (c.bytes ++ a.bytes)) ++ m.bytes,
        x_both-ok _ _ (v.bytes ++ (c.bytes ++ a.bytes)) m.bytes
            (header_bytes lzo host argv (some cwd) v.bytes c.bytes a.bytes v.sends
              (cwd_some host.cpp_where cwd placed ∙ c.sends) a.sends)
            (body_files lzo host argv source (map fname_of items) doti placed
              ∙ ap (λ n. x_many_files lzo source n (map fname_of items)) same_length
              ∙ m.sends),
        λ rest.
            let t₃ = m.bytes ++ rest in
            let same : ((v.bytes ++ (c.bytes ++ a.bytes)) ++ m.bytes) ++ rest
                ≡ v.bytes ++ (c.bytes ++ (a.bytes ++ t₃)) =
              simp append_assoc in
            rw same (
              front_run (v.bytes ++ (c.bytes ++ (a.bytes ++ t₃))) (c.bytes ++ (a.bytes ++ t₃))
                (a.bytes ++ t₃) t₃ on_server (v.reads (c.bytes ++ (a.bytes ++ t₃))) features
                (read_cwd-run cwd (c.bytes ++ (a.bytes ++ t₃)) (a.bytes ++ t₃)
                  (c.reads (a.bytes ++ t₃)) entered)
                (a.reads t₃)
              ∙ read_files-run t₃ rest (map (effect_of temps.temp_dir) items) with_output prepared
                  dotd_target (m.runs rest) h₂ h₃),
      )
