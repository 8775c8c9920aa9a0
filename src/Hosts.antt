-- ===== src/Hosts.antt =====
-- src/hosts.c: host definitions and the list of hosts. A cursor is the text that it points to; it is
-- returned where the caller goes on from it. `gssapi` is the build option HAVE_GSSAPI. A build
-- without HAVE_AVAHI is modelled, and allocation succeeds.
pub mod Numbers
pub mod Features
pub mod Parser
pub mod Usable
pub mod Loops
pub mod Parts
use distcc.Hosts.Numbers.{ℤ, pos, negsuc, isdigit, atoi, strtol}
use distcc.Prelude.{
  ℕ, zero, suc, ◌+◌, Bool, true, false, not, ◌&&◌, ◌||◌, Option, none, some, List, [], ◌∷◌, ◌++◌,
  ltb, ◌==◌, if◌then◌else◌, length, take, drop,
}
use distcc.Prelude.Bytes.{Bytes, codes, first, second, contains, isspace, str_startswith}
use distcc.ExitCode.{Result, ok, err, undefined, bad_hostspec, ◌>>=◌}

pub data Compress : Type 0 where
  compress_none lzo1x : Compress

pub data CppWhere : Type 0 where
  on_client on_server : CppWhere

pub data Mode : Type 0 where
  tcp ssh local : Mode

-- struct dcc_hostdef. `none` is a NULL, or the zero of calloc where no enumerator has that value;
-- `next` is the list that the record stands in.
pub record Hostdef : Type 0 where
  pub mode : Option Mode
  pub user : Option Bytes
  pub hostname : Option Bytes
  pub port : ℤ
  pub ssh_command : Option Bytes
  pub is_up : Bool
  pub n_slots : ℤ
  pub hostdef_string : Bytes
  pub protover : ℕ
  pub compr : Compress
  pub cpp_where : Option CppWhere
  pub authenticate : Bool

-- The features, and whether the version is known.
unfoldable pub get_features_from_protover : ℕ → Compress × CppWhere × Bool
get_features_from_protover protover = (
  if ltb 1 protover then lzo1x else compress_none,
  if ltb 2 protover then on_server else on_client,
  not (protover == 0 || ltb 3 protover),
)

-- `none` is the -1.
unfoldable pub get_protover_from_features : Compress → CppWhere → Option ℕ
get_protover_from_features compress_none on_client = some 1
get_protover_from_features lzo1x on_server = some 3
get_protover_from_features lzo1x on_client = some 2
get_protover_from_features compress_none on_server = none

-- strcspn and dcc_dup_part: the text before the first byte of `sep`, and the rest.
unfoldable pub until : Bytes → Bytes → Bytes × Bytes
until sep [] = ([], [])
until sep (c ∷ s) =
    let (part, rest) = until sep s in if contains c sep then ([], c ∷ s) else (c ∷ part, rest)

part_of : Bytes × Bytes → Option Bytes × Bytes
part_of ([], rest) = (none, rest)
part_of (c ∷ part, rest) = (some (c ∷ part), rest)

unfoldable pub dup_part : Bytes → Bytes → Option Bytes × Bytes
unfolding part_of
dup_part src sep = part_of (until sep src)

unfoldable pub skip_digits : Bytes → Bytes
skip_digits [] = []
skip_digits (c ∷ s) = if isdigit c then skip_digits s else c ∷ s

abbrev pub is_zero : ℤ → Bool
is_zero (pos n) = n == 0
is_zero (negsuc n) = false

slots_or_error : Bytes → ℤ → Result (Bytes × Option ℤ)
slots_or_error s val = if is_zero val then err bad_hostspec else ok (skip_digits s, some val)

-- The multiplier, if there is one.
unfoldable pub parse_multiplier : Bytes → Result (Bytes × Option ℤ)
unfolding slots_or_error skip_digits
parse_multiplier src =
    if first src == b'/' || first src == b'='
    then (do val ← atoi (drop 1 src); slots_or_error (drop 1 src) val)
    else ok (src, none)

abbrev pub set_slots : Option ℤ → Hostdef → Hostdef
set_slots none host = host
set_slots (some val) host = record host { n_slots = val }

-- dcc_parse_multiplier on a host.
unfoldable pub multiply : Bytes → Hostdef → Result (Bytes × Hostdef)
multiply src host = do (rest, slots) ← parse_multiplier src; ok (rest, set_slots slots host)

-- One option behind its comma: how many bytes it takes, and the host with it.
unfoldable pub read_option : Bool → Bytes → Hostdef → Option (ℕ × Hostdef)
read_option gssapi p host =
    if str_startswith (codes "lzo") p
    then some (3, record host { compr = lzo1x })
    else if str_startswith (codes "down") p
    then some (4, record host { is_up = false })
    else if str_startswith (codes "cpp") p
    then some (3, record host { cpp_where = some on_server })
    else if gssapi && str_startswith (codes "auth") p
    then some (4, record host { authenticate = true })
    else none

-- The loop over the options. The outer `none` is a loop that is out of fuel.
unfoldable pub options_loop : Bool → ℕ → Bytes → Hostdef → Option (Result (Bytes × Hostdef))
options_loop gssapi zero p host = none
options_loop gssapi (suc fuel) p host =
    if not (first p == b',')
    then some (ok (p, host))
    else elim (read_option gssapi (drop 1 p) host) [
      | none ↦ some (err bad_hostspec)
      | some (n, host') ↦ options_loop gssapi fuel (drop n (drop 1 p)) host'
    ]

abbrev pub finished {ℓ} : {A : Type ℓ} → Option (Result A) → Result A
finished none = undefined
finished (some r) = r

-- dcc_get_protover_from_features on the host's fields.
abbrev pub protover_of : Hostdef → Option ℕ
protover_of host = elim host.cpp_where [
  | none ↦ none
  | some cpp_where ↦ get_protover_from_features host.compr cpp_where
]

set_protover : Bytes → Hostdef → Option ℕ → Result (Bytes × Hostdef)
set_protover rest host none = err bad_hostspec
set_protover rest host (some protover) = ok (rest, record host { protover = protover })

-- The features of a host without options.
abbrev pub without_options : Hostdef → Hostdef
without_options host = record host {
  compr = compress_none;
  cpp_where = some on_client;
  authenticate = false;
}

unfoldable pub parse_options : Bool → Bytes → Hostdef → Result (Bytes × Hostdef)
unfolding set_protover
parse_options gssapi src host = do
  (rest, host') ← finished (options_loop gssapi (length src + 1) src (without_options host))
  set_protover rest host' (protover_of host')
