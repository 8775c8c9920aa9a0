-- ===== src/IncludeServer.antt =====
-- src/include_server_if.c: the names of the include server's files in the source tree, and what the
-- option --scan_includes prints of them. The calls of the file system are arguments; allocation
-- succeeds.
pub mod Names
use distcc.Prelude.{
  ℕ, zero, suc, ◌-◌, ◌*◌, Bool, true, false, ◌&&◌, Option, none, some, [], ◌∷◌, ◌==◌, ltb,
  if◌then◌else◌, drop, take, length,
}
use distcc.Prelude.Bytes.{Bytes, codes, str_equal, str_endswith, str_startswith}
use distcc.Filename.{find_extension}

-- How dcc_get_original_fname ends; `no_memory` reads behind the end of a name.
pub data Original : Type 0 where
  no_memory failed : Original
  original : Bytes → Original

-- strchr(s, '/')
unfoldable pub from_slash : Bytes → Option Bytes
from_slash [] = none
from_slash (c ∷ s) = let rest = from_slash s in if c == b'/' then some (c ∷ s) else rest

go_on : (Bytes → Original) → Option Bytes → Original
go_on next none = failed
go_on next (some work) = next work

-- The loop over the components.
unfoldable pub drop_components : ℕ → Bytes → Original
unfolding go_on
drop_components zero work = original work
drop_components (suc n) [] = no_memory
drop_components (suc n) (c ∷ work) = go_on (λ rest. drop_components n rest) (from_slash work)

stem_of : Bytes → Bytes → Option (Bytes × Bytes) → Bytes
stem_of ext work none = work
stem_of ext work (some (stem, extension)) = if str_equal extension ext then stem else work

unfoldable pub remove_extension : Bytes → Bytes → Bytes
unfolding stem_of
remove_extension ext work = stem_of ext work (find_extension work)

without_suffixes : Original → Original
without_suffixes (original work) =
    original (remove_extension (codes ".lzo") (remove_extension (codes ".abs") work))
without_suffixes other = other

-- dcc_get_original_fname
unfoldable pub get_original_fname : Bytes → Original
unfolding without_suffixes
get_original_fname fname = without_suffixes (drop_components 3 fname)

unfoldable pub count_slashes : Bytes → ℕ
count_slashes [] = 0
count_slashes (c ∷ path) = let rest = count_slashes path in if c == b'/' then suc rest else rest

unfoldable pub count_leading_dotdots : Bytes → ℕ
count_leading_dotdots (a ∷ b ∷ c ∷ path) =
    let rest = count_leading_dotdots path in
    if str_startswith (codes "../") (a ∷ b ∷ c ∷ path) then suc rest else 0
count_leading_dotdots _ = 0

pub data Category : Type 0 where
  system_dir directory symlink plain_file : Category

-- What dcc_categorize_file prints, or that it returns a nonzero value.
pub data Categorized : Type 0 where
  invalid nonzero : Categorized
  printed : Category → Bytes → Categorized

abbrev forcing : Bytes
forcing = codes "/forcing_technique_271828"

unfoldable pub is_system_dir : Bytes → Bytes → Bool
is_system_dir link_target filename =
    let leading_dotdots = count_leading_dotdots link_target in
    ltb 0 leading_dotdots
    && ltb (count_slashes filename) leading_dotdots
    && str_equal (drop (3 * leading_dotdots - 1) link_target) filename

-- The category of a file that is no system directory.
abbrev plain_category : Bool → Bool → Category
plain_category true is_symlink = directory
plain_category false true = symlink
plain_category false false = plain_file

-- The link's target is there where the file is a link.
category : Option Bytes → Bytes → Bool → Category
category none filename forced = plain_category forced false
category (some link_target) filename forced =
    if is_system_dir link_target filename then system_dir else plain_category forced true

print_name : Option Bytes → Original → Categorized
unfolding category
print_name link_target no_memory = invalid
print_name link_target failed = nonzero
print_name link_target (original filename) =
    let forced = str_endswith forcing filename in
    let name = if forced then take (length filename - length forcing) filename else filename in
    printed (category link_target name forced) name

-- dcc_categorize_file, with what dcc_is_link and dcc_read_link give; `none` is a nonzero return.
unfoldable pub categorize_file : Option Bool → Option Bytes → Bytes → Categorized
unfolding print_name
categorize_file none link include_server_filename = nonzero
categorize_file (some false) link include_server_filename =
    print_name none (get_original_fname include_server_filename)
categorize_file (some true) none include_server_filename = nonzero
categorize_file (some true) (some link_target) include_server_filename =
    print_name (some link_target) (get_original_fname include_server_filename)
