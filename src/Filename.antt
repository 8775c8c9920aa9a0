-- ===== src/Filename.antt =====
-- src/filename.c: what the program reads off a file's name. `assemble` is the build option
-- ENABLE_REMOTE_ASSEMBLE. A pointer into a name is the pair of what stands before it and the rest.
pub mod Parts
pub mod Kinds
pub mod Output
use distcc.Prelude.{
  ℕ, Bool, true, false, ◌&&◌, ◌||◌, not, Option, none, some, List, [], ◌∷◌, ◌++◌, ltb, ◌==◌,
  if◌then◌else◌, length,
}
use distcc.Prelude.Bytes.{Bytes, codes, first, second, str_equal, str_startswith, strrchr}
use distcc.ExitCode.{Result, ok, err, distcc_failed}

extension_at : Option (Bytes × Bytes) → Option (Bytes × Bytes)
extension_at none = none
extension_at (some (stem, dot)) = if second dot == 0 then none else some (stem, dot)

unfoldable pub find_extension : Bytes → Option (Bytes × Bytes)
unfolding extension_at
find_extension sfile = extension_at (strrchr b'.' sfile)

basename_at : Bytes → Option (Bytes × Bytes) → Bytes
basename_at sfile none = sfile
basename_at sfile (some (dir, [])) = sfile
basename_at sfile (some (dir, slash ∷ base)) = if first base == 0 then sfile else base

unfoldable pub find_basename : Bytes → Bytes
unfolding basename_at
find_basename sfile = basename_at sfile (strrchr b'/' sfile)

dirname_at : Option (Bytes × Bytes) → Bytes
dirname_at none = []
dirname_at (some (dir, slash)) = dir

unfoldable pub truncate_to_dirname : Bytes → Bytes
unfolding dirname_at
truncate_to_dirname file = dirname_at (strrchr b'/' file)

replace_extension : Bytes → Option (Bytes × Bytes) → Result Bytes
replace_extension new_ext none = err distcc_failed
replace_extension new_ext (some (stem, dot)) =
    if ltb (length dot) (length new_ext) then err distcc_failed else ok (stem ++ new_ext)

unfoldable pub set_file_extension : Bytes → Bytes → Result Bytes
unfolding replace_extension
set_file_extension sfile new_ext = replace_extension new_ext (find_extension sfile)

preproc_of : Bytes → Option Bytes
preproc_of e =
    if str_equal e (codes "i") || str_equal e (codes "c")
    then some (codes ".i")
    else if str_equal e (codes "c")
        || str_equal e (codes "cc")
        || str_equal e (codes "cpp")
        || str_equal e (codes "cxx")
        || str_equal e (codes "cp")
        || str_equal e (codes "c++")
        || str_equal e (codes "C")
        || str_equal e (codes "ii")
    then some (codes ".ii")
    else if str_equal e (codes "mi") || str_equal e (codes "m")
    then some (codes ".mi")
    else if str_equal e (codes "mii") || str_equal e (codes "mm") || str_equal e (codes "M")
    then some (codes ".mii")
    else if str_equal e (codes "s") || str_equal e (codes "S")
    then some (codes ".s")
    else none

unfoldable pub preproc_exten : Bytes → Option Bytes
unfolding preproc_of
preproc_exten [] = none
preproc_exten (c ∷ e) = if not (c == b'.') then none else preproc_of e

-- The switch of dcc_is_preprocessed, on the extension without its dot.
unfoldable pub preprocessed_ext : Bool → Bytes → Bool
preprocessed_ext assemble ext =
    if assemble && first ext == b's'
    then str_equal ext (codes "s")
    else if first ext == b'i'
    then str_equal ext (codes "i") || str_equal ext (codes "ii")
    else if first ext == b'm'
    then str_equal ext (codes "mi") || str_equal ext (codes "mii")
    else false

-- The switch of dcc_is_source, on the extension without its dot.
unfoldable pub source_ext : Bool → Bytes → Bool
source_ext assemble ext =
    if first ext == b'i'
    then str_equal ext (codes "i") || str_equal ext (codes "ii")
    else if first ext == b'c'
    then str_equal ext (codes "c")
      || str_equal ext (codes "cc")
      || str_equal ext (codes "cpp")
      || str_equal ext (codes "cxx")
      || str_equal ext (codes "cp")
      || str_equal ext (codes "c++")
    else if first ext == b'C'
    then str_equal ext (codes "C")
    else if first ext == b'm'
    then str_equal ext (codes "m")
      || str_equal ext (codes "mm")
      || str_equal ext (codes "mi")
      || str_equal ext (codes "mii")
    else if first ext == b'M'
    then str_equal ext (codes "M")
    else if assemble && first ext == b's'
    then str_equal ext (codes "s")
    else if assemble && first ext == b'S'
    then str_equal ext (codes "S")
    else false

-- A test on the extension behind its dot; a name without one fails it.
abbrev ext_test : (Bytes → Bool) → Option (Bytes × Bytes) → Bool
ext_test test none = false
ext_test test (some (stem, [])) = false
ext_test test (some (stem, dot ∷ ext)) = test ext

unfoldable pub is_preprocessed : Bool → Bytes → Bool
is_preprocessed assemble sfile = ext_test (preprocessed_ext assemble) (find_extension sfile)

unfoldable pub is_source : Bool → Bytes → Bool
is_source assemble sfile = ext_test (source_ext assemble) (find_extension sfile)

abbrev is_object_at : Option (Bytes × Bytes) → Bool
is_object_at none = false
is_object_at (some (stem, dot)) = str_equal dot (codes ".o")

unfoldable pub is_object : Bytes → Bool
is_object filename = is_object_at (find_extension filename)

-- True for the nonzero return.
unfoldable pub source_needs_local : Bytes → Bool
source_needs_local filename =
    let p = find_basename filename in
    str_startswith (codes "conftest.") p || str_startswith (codes "tmp.conftest.") p

after_slash : Bytes → Option (Bytes × Bytes) → Bytes
after_slash sfile none = sfile
after_slash sfile (some (dir, [])) = sfile
after_slash sfile (some (dir, slash ∷ base)) = base

-- What dcc_output_from_source does once it has moved behind the last slash.
unfoldable pub output_from_base : Bytes → Bytes → Result Bytes
output_from_base base out_extn =
    if ltb (length base) 3 then err distcc_failed else set_file_extension base out_extn

unfoldable pub output_from_source : Bytes → Bytes → Result Bytes
unfolding after_slash
output_from_source sfile out_extn =
    output_from_base (after_slash sfile (strrchr b'/' sfile)) out_extn
