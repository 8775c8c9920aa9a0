-- ===== src/Hosts/Features.antt =====
-- The two directions between protocol versions and features of src/hosts.c.
use distcc.Prelude.{ℕ, ◌≡◌, true, ◌↔◌, some, arith}
use distcc.Hosts.{
  Compress, compress_none, lzo1x, CppWhere, on_client, on_server, get_features_from_protover,
  get_protover_from_features,
}

-- A pair of features has a version exactly where that version is known and has these features.
-- So a known version is the version of its features, and no version stands for preprocessing on
-- the server without compression.
protover_features_iff :
    (protover : ℕ) (compr : Compress) (cpp_where : CppWhere)
    → (get_protover_from_features compr cpp_where ≡ some protover)
      ↔ (get_features_from_protover protover ≡ (compr, cpp_where, true))
unfolding get_protover_from_features get_features_from_protover
protover_features_iff protover compress_none on_client = (λ h. ground arith, λ h. ground arith)
protover_features_iff protover compress_none on_server = (λ h. ground arith, λ h. ground arith)
protover_features_iff protover lzo1x on_client = (λ h. ground arith, λ h. ground arith)
protover_features_iff protover lzo1x on_server = (λ h. ground arith, λ h. ground arith)
