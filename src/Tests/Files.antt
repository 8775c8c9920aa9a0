-- ===== src/Tests/Files.antt =====
-- src/filename.c on names.
use distcc.Prelude.{
  ◌≡◌, ◌≢◌, ◌↔◌, ◌≤◌, ◌<◌, ◌⊎◌, inl, inr, refl, Bool, true, false, some, none, [], ◌∷◌, ◌++◌, suc,
  length, arith,
}
use distcc.Prelude.Bytes.{Bytes, codes, contains, first, str_equal, strrchr}
use distcc.ExitCode.{ok, err, distcc_failed}
use distcc.Filename.{
  find_extension, find_basename, preproc_exten, preprocessed_ext, source_ext, is_preprocessed,
  is_source, is_object, source_needs_local, output_from_source, output_from_base,
  set_file_extension,
}

source_names :
    (is_source false (codes "src/hello.c++") ≡ true)
    × (is_source false (codes "hello.s") ≡ false)
    × (is_source true (codes "hello.s") ≡ true)
    × (is_source false (codes "hello.") ≡ false)
    × (is_preprocessed false (codes "a.b/hello.ii") ≡ true)
    × (is_object (codes "hello.c.o") ≡ true)
    × (source_needs_local (codes "build/conftest.c") ≡ true)
unfolding is_source is_preprocessed is_object source_needs_local find_basename find_extension
    strrchr source_ext preprocessed_ext str_equal distcc.Prelude.Bytes.str_startswith
source_names = (refl, refl, refl, refl, refl, refl, refl)

outputs :
    (output_from_source (codes "dir/hello.c") (codes ".o") ≡ ok (codes "hello.o"))
    × (output_from_source (codes "dir/.c") (codes ".o") ≡ err distcc_failed)
    × (preproc_exten (codes ".cpp") ≡ some (codes ".ii"))
unfolding output_from_source output_from_base set_file_extension find_extension strrchr
    preproc_exten str_equal
outputs = (refl, refl, refl)
