-- ===== src/Tests/Compilers.antt =====
-- src/stringmap.c, and the list of compilers of src/serve.c.
use distcc.Prelude.{
  ℕ, ◌≡◌, refl, Bool, true, false, Option, none, some, List, [], ◌∷◌, ◌++◌, arith, ◌≤◌,
}
use distcc.Prelude.Bytes.{Bytes, codes, str_equal, first}
use distcc.ExitCode.{ok, undefined}
use distcc.Hosts.Numbers.{pos, atoi}
use distcc.Lines.{lines}
use distcc.Stringmap.{key_start, key_of, Cmdlist, CmdlistEnv, accepted, remap_compiler}
use distcc.Stringmap.Loading.{loaded, remap_compiler_lem}

abbrev cmdlist : Bytes
cmdlist = codes "/l/v3/bin/cc\n/l/v2/bin/cc\n"

key_of_runs :
    (key_of (pos 2) (codes "/l/bin/cc") ≡ ok (codes "bin/cc"))
    × (key_of (pos 3) (codes "/l/bin/cc") ≡ ok (codes "/l/bin/cc"))
    × (key_of (pos 3) (codes "x/l/bin/cc") ≡ ok (codes "l/bin/cc"))
    × (key_of (pos 1) [] ≡ undefined)
unfolding key_of key_start
key_of_runs = (refl, refl, refl, refl)

abbrev list_given : CmdlistEnv
list_given = record { filename = some (some cmdlist); nw = some (codes "3") }

abbrev unchecked : Cmdlist
unchecked = record { cmdlist_checked = false; map = none }

three_words : atoi (codes "3") ≡ ok (pos 3)
unfolding atoi distcc.Hosts.Numbers.take_decimal distcc.Hosts.Numbers.number_at
    distcc.Prelude.Bytes.isspace distcc.Prelude.Bytes.skip_space
three_words = refl

remap_compiler_lem_example :
    (remap_compiler 20 list_given unchecked (codes "/s/v2/bin/cc")
      ≡ ok (accepted (codes "/l/v2/bin/cc"), loaded 2 (lines cmdlist)))
    × (remap_compiler 20 list_given (loaded 2 (lines cmdlist)) (codes "/s/v2/bin/cc")
        ≡ ok (accepted (codes "/l/v2/bin/cc"), loaded 2 (lines cmdlist)))
unfolding lines distcc.Stringmap.Words.count_slashes_of str_equal
remap_compiler_lem_example =
    remap_compiler_lem 20 2 cmdlist b'/' (codes "s/v2/bin/cc") (some (codes "3")) list_given none
      three_words refl
