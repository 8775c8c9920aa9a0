-- ===== src/Serve/Header.antt =====
-- The parts of the request of dcc_compile_remote in src/remote.c.
use distcc.Prelude.{suc, ◌≡◌, Option, some, List, [], ◌∷◌, ◌++◌, map, refl, ap, length}
use distcc.Prelude.Bytes.{Bytes, codes}
use distcc.ExitCode.{ok}
use distcc.Arg.{Argv}
use distcc.Hosts.{Hostdef, CppWhere, on_client, on_server}
use distcc.Rpc.{x_token_string, x_req_header, x_argv}
use distcc.Bulk.{Lzo, file, x_file}
use distcc.Many.{Source, x_many_files}
use distcc.Many.Items.{x_both-ok}
use distcc.Serve.Request.{x_cwd, x_cwd_if, send_header, send_body}

pub length-map : {A B : Type 0} (f : A → B) (xs : List A) → length (map f xs) ≡ length xs
length-map f [] = refl
length-map f (x ∷ xs) = ap suc (length-map f xs)

pub cwd_none :
    (cpp_where : Option CppWhere) (cwd : Option Bytes)
    → cpp_where ≡ some on_client
    → x_cwd_if cpp_where cwd ≡ ok []
unfolding x_cwd_if
cwd_none cpp_where cwd placed = rw placed refl

pub cwd_some :
    (cpp_where : Option CppWhere) (cwd : Bytes)
    → cpp_where ≡ some on_server
    → x_cwd_if cpp_where (some cwd) ≡ x_token_string (codes "CDIR") cwd
unfolding x_cwd_if x_cwd
cwd_some cpp_where cwd placed = rw placed refl

module _ (lzo : Lzo) (host : Hostdef) (argv : Argv) where
  pub body_source :
      (source : Source) (files : List Bytes) (doti : Bytes)
      → host.cpp_where ≡ some on_client
      → send_body lzo host source files (file doti)
        ≡ x_file lzo host.compr (codes "DOTI") (file doti)
  unfolding send_body
  body_source source files doti placed = simp (send_body, placed)

  pub body_files :
      (source : Source) (files : List Bytes) (doti : Bytes)
      → host.cpp_where ≡ some on_server
      → send_body lzo host source files (file doti) ≡ x_many_files lzo source (length files) files
  unfolding send_body
  body_files source files doti placed = simp (send_body, placed)

  pub header_bytes :
      (cwd : Option Bytes) (v c a : Bytes)
      → x_req_header host.protover ≡ ok v
      → x_cwd_if host.cpp_where cwd ≡ ok c
      → x_argv (codes "ARGC") (codes "ARGV") argv ≡ ok a
      → send_header host cwd argv ≡ ok (v ++ (c ++ a))
  unfolding send_header
  header_bytes cwd v c a h₁ h₂ h₃ = x_both-ok _ _ v (c ++ a) h₁ (x_both-ok _ _ c a h₂ h₃)
