-- ===== src/Tests/Dependencies.antt =====
-- src/dotd.c: where the dependencies go, and their file on the server.
use distcc.Prelude.{
  suc, ◌≡◌, ◌≢◌, refl, ℕ, if◌then◌else◌, true, false, Bool, Option, none, some, List, [], ◌∷◌,
  length, arith,
}
use distcc.Prelude.Bytes.{Bytes, codes, str_equal, str_startswith, contains, first}
use distcc.ExitCode.{ok, undefined}
use distcc.Arg.{Scanned}
use distcc.Dotd.{
  DotdInfo, dotd_word, dotd_act, dotd_step, dotd_loop, dotd_info, choose_dotd, get_dotd_info,
}
use distcc.Dotd.Items.{Item, word, words}
use distcc.Lines.{fgets, lines}
use distcc.Dotd.Cleanup.{
  Cleaned, failed, cleaned, find, strgraft, trim_loop, clean_line, clean_loop, cleanup_dotd,
}
use distcc.Dotd.Cleanup.Rewritten.{cleanup_dotd_lem}
use distcc.Fresh.{fresh, no_fresh, Stat, fresh_dependency_exists}
use distcc.Fresh.Bounds.{IsDecision, fresh_dependency_exists-IsDecision}
use distcc.Fresh.Names.{Dep, first_fresh, fresh_dependency_exists-text_of}

-- cc -MMD -c dir/a.c -oout/b.o
abbrev joined_o : List Item
joined_o =
    word (codes "cc")
    ∷ word (codes "-MMD")
    ∷ word (codes "-c")
    ∷ word (codes "dir/a.c")
    ∷ word (codes "-oout/b.o")
    ∷ []

abbrev joined_scanned : Scanned
joined_scanned = record {
  input_file = codes "dir/a.c";
  output_file = codes "out/b.o";
  newargv = words joined_o;
}

get_dotd_info_runs :
    (get_dotd_info false (some (codes "x.d t")) (codes "cc" ∷ codes "-MF" ∷ codes "y.d" ∷ [])
      ≡ ok (record {
        dotd_fname = codes "y.d";
        needs_dotd = true;
        sets_dotd_target = false;
        dotd_target = none;
      }))
    × (get_dotd_info false (some (codes "x.d t")) (codes "cc" ∷ codes "-MT" ∷ codes "-MF" ∷ [])
        ≡ ok (record {
          dotd_fname = codes "x.d";
          needs_dotd = true;
          sets_dotd_target = true;
          dotd_target = some (codes "t");
        }))
    × (get_dotd_info false none (codes "cc" ∷ codes "-MF" ∷ []) ≡ undefined)
unfolding get_dotd_info choose_dotd dotd_loop dotd_step dotd_act dotd_word dotd_info
    distcc.Hosts.until contains str_equal str_startswith
get_dotd_info_runs = (refl, refl, refl)

abbrev deps_text : Bytes
deps_text = codes "/t/o: /r/a.c \\\n /r/r/b.h\n"

cleanup_dotd_runs :
    cleanup_dotd 20 (codes "/r") (codes "a.o") (codes "/t/o") 30 (some deps_text) true true
    ≡ cleaned (codes "a.o: /a.c \\\n /b.h\n")
unfolding cleanup_dotd clean_loop clean_line strgraft trim_loop find fgets contains str_startswith
cleanup_dotd_runs = refl

cleanup_dotd_lem_example :
    cleanup_dotd 20
      (codes "/r")
      (codes "a.o")
      (codes "/t/o")
      (suc (length deps_text))
      (some deps_text)
      true
      true
    ≡ cleaned (codes "a.o: /a.c \\\n /b.h\n")
unfolding lines str_startswith distcc.Dotd.Cleanup.Laws.without
    distcc.Dotd.Cleanup.Laws.replace_first
cleanup_dotd_lem_example =
    cleanup_dotd_lem 20 b'/' (codes "r") (codes "a.o") (codes "/t/o") (omega arith) (omega arith)
      deps_text

-- a.o: /x/a.c \NEWLINE b.h, where b.h is younger than the time 7.
abbrev two_deps : List Dep
two_deps =
    record { first_byte = b'/'; more_bytes = codes "x/a.c"; blank = b' '; gap = codes "\\\n " }
    ∷ record { first_byte = b'b'; more_bytes = codes ".h"; blank = b'\n'; gap = [] }
    ∷ []

abbrev ctimes : Bytes → Option ℕ
ctimes name = some (if str_equal name (codes "b.h") then 9 else 3)

abbrev none_excluded : Bytes → Bool
none_excluded name = false

abbrev dotd_stat : Stat
dotd_stat = record { st_mtime = 8; st_size = 19 }

fresh_dependency_exists_runs :
    (fresh_dependency_exists 19
        (some dotd_stat)
        (some (codes "a.o: /x/a.c \\\n b.h\n"))
        none_excluded
        ctimes
        7
      ≡ fresh (codes "b.h"))
    × (fresh_dependency_exists 19
          (some dotd_stat)
          (some (codes "a.o: a\\ b.h\\x"))
          none_excluded
          ctimes
          2
        ≡ fresh (codes "a"))
    × (fresh_dependency_exists 19 (some dotd_stat) (some (codes "a.o: a.c")) none_excluded ctimes 9
        ≡ no_fresh)
unfolding fresh_dependency_exists distcc.Fresh.deps_loop distcc.Fresh.judge_name
    distcc.Fresh.read_name distcc.Fresh.name_step distcc.Fresh.skip_gap distcc.Fresh.find_colon
    distcc.Prelude.Bytes.isspace str_equal
fresh_dependency_exists_runs = (refl, refl, refl)

fresh_dependency_exists-text_of_example :
    fresh_dependency_exists 19
      (some dotd_stat)
      (some (codes "a.o: /x/a.c \\\n b.h\n"))
      none_excluded
      ctimes
      7
    ≡ fresh (codes "b.h")
unfolding contains first_fresh str_equal distcc.Prelude.Bytes.isspace
fresh_dependency_exists-text_of_example =
    fresh_dependency_exists-text_of dotd_stat (codes "a.o") (codes " ") two_deps none_excluded
      ctimes 7 refl refl ((refl, refl, refl), ((refl, refl, refl), tt)) refl (omega arith)

fresh_dependency_exists-IsDecision_example : IsDecision (
    fresh_dependency_exists 19
      (some dotd_stat)
      (some (codes "a.o: /x/a.c \\\n b.h\n"))
      none_excluded
      ctimes
      7)
fresh_dependency_exists-IsDecision_example =
    fresh_dependency_exists-IsDecision dotd_stat (codes "a.o: /x/a.c \\\n b.h\n") none_excluded
      ctimes 7 refl
