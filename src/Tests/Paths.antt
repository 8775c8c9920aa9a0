-- ===== src/Tests/Paths.antt =====
-- The names of the include server, and the client's search of PATH.
use distcc.Prelude.{
  ◌≡◌, refl, inl, inr, Bool, true, false, none, some, [], ◌∷◌, if◌then◌else◌, arith,
}
use distcc.Prelude.Bytes.{
  Bytes, codes, contains, str_equal, str_startswith, str_endswith, strstr, strrchr,
}
use distcc.ExitCode.{ok, undefined}
use distcc.Filename.{find_extension}
use distcc.IncludeServer.{
  original, printed, system_dir, symlink, plain_file, get_original_fname, drop_components,
  from_slash, remove_extension, count_slashes, count_leading_dotdots, is_system_dir,
  categorize_file,
}
use distcc.IncludeServer.Names.{get_original_fname-root}
use distcc.Masquerade.{
  Lstat, missing, no_link, link, rounds, past_match, component_matches, masquerade_in,
  support_masquerade, abspath, squeeze, trim_round, trim_rounds, trim_path,
}
use distcc.Masquerade.Laws.{masquerade_in_lem}
use distcc.Masquerade.Trim.{trim_path-joined}

categorize_file_runs :
    (categorize_file (some false) none (codes "/tmp/s/1/src/a.h.lzo")
      ≡ printed plain_file (codes "/src/a.h"))
    × (categorize_file (some true) (some (codes "../../../usr/x")) (codes "/tmp/s/1/usr/x")
        ≡ printed system_dir (codes "/usr/x"))
    × (categorize_file (some true) (some (codes "../x")) (codes "/tmp/s/1/usr/x")
        ≡ printed symlink (codes "/usr/x"))
unfolding categorize_file get_original_fname drop_components from_slash remove_extension
    count_slashes count_leading_dotdots is_system_dir find_extension strrchr str_equal
    str_startswith str_endswith
categorize_file_runs = (refl, refl, refl)

get_original_fname-root_example :
    (get_original_fname (codes "/tmp/s/1/src/a.h.lzo") ≡ original (codes "/src/a.h"))
    × (get_original_fname (codes "/tmp/s/1/src/a.h.lzo.abs") ≡ original (codes "/src/a.h"))
unfolding contains
get_original_fname-root_example =
    get_original_fname-root (codes "tmp") (codes "s") (codes "1") (codes "src/a.h") refl refl refl

abbrev in_d : Bytes → Bool
in_d name = str_equal name (codes "/d/cc")

abbrev linked : Bytes → Lstat
linked name =
    if str_equal name (codes "/d/cc")
    then link (some (codes "/usr/bin/distcc"))
    else if str_equal name (codes "/bin/cc")
    then no_link
    else if str_equal name (codes "/bad/cc")
    then link none
    else missing

masquerade_runs :
    (support_masquerade 9 4096 (codes "/w") in_d (some (codes "/a:/d:/bin")) none (codes "cc")
      ≡ ok (some (record { new_path = some (codes "/bin"); did_masquerade = some true })))
    × (support_masquerade 9 4096
          (codes "/w")
          in_d
          (some (codes "/a:/w/d:/bin"))
          (some (codes "x/../d"))
          (codes "cc")
        ≡ ok (some (record { new_path = some (codes "/bin"); did_masquerade = some true })))
    × (abspath 9 4096 (codes "/w") (codes "/cc") 0 ≡ ok (some (codes "/cc")))
    × (trim_path 4096 linked (some (codes "/bad:/bin")) (codes "cc") ≡ undefined)
unfolding support_masquerade masquerade_in component_matches past_match rounds abspath squeeze
    trim_path trim_rounds trim_round str_equal strrchr strstr str_startswith
    distcc.Dotd.Cleanup.find
masquerade_runs = (refl, refl, refl, refl)

masquerade_in_lem_example :
    (contains b':' (codes "/d") ≡ false
      → component_matches in_d none (codes "cc") (codes "/d") ≡ true
      → masquerade_in in_d (some (codes "/a:/d:/bin")) none (codes "cc")
        ≡ record { new_path = some (codes "/bin"); did_masquerade = some true })
    × (contains b':' (codes "/bin") ≡ false
        → masquerade_in in_d (some (codes "/a:/bin")) none (codes "cc")
          ≡ record { new_path = none; did_masquerade = some false })
    × (contains b':' (codes "/d") ≡ false
        → component_matches in_d none (codes "cc") (codes "/d") ≡ true
        → masquerade_in in_d (some (codes "/a:/d:")) none (codes "cc")
          ≡ record { new_path = none; did_masquerade = some false })
unfolding contains component_matches str_equal
masquerade_in_lem_example =
    masquerade_in_lem in_d none (codes "cc") (codes "/a" ∷ []) (codes "/d") b'/' (codes "bin")
      (refl, tt) (refl, tt)

trim_path-joined_example :
    trim_path 4096 linked (some (codes "/a:/d:/b:/bin")) (codes "cc") ≡ ok (some (codes "/b:/bin"))
unfolding contains str_equal strstr str_startswith
trim_path-joined_example =
    trim_path-joined 4096 linked (codes "cc") (codes "/a" ∷ []) (codes "/b" ∷ []) (codes "/d")
      (codes "/d:/b:/bin") (codes "/bin") (refl, tt) (inl refl, tt) refl (inl refl)
      (b'/', codes "usr/bin/distcc", refl, omega arith, refl) (refl, tt) (inl refl, tt)
      (inr (codes "/bin", [], inr (b'/', codes "bin", refl, refl, refl), refl, inl refl))
