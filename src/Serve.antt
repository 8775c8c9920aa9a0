-- ===== src/Serve.antt =====
-- The server's side of a request: dcc_run_job of src/serve.c up to the command that it compiles, and
-- the changes that it makes to the command for a client that lets it preprocess. Allocation and the
-- names of temporary files succeed; the remapping and the checks of the compiler are left out.
pub mod Request
pub mod Header
pub mod Job
pub mod Laws
pub mod Targets
use distcc.Prelude.{
  ℕ, zero, suc, ◌==◌, Bool, true, false, ◌&&◌, Option, none, some, List, [], ◌∷◌, ◌++◌,
  if◌then◌else◌, length, drop,
}
use distcc.Prelude.Bytes.{Bytes, codes, first, str_equal, str_startswith}
use distcc.ExitCode.{ExitCode, Result, ok, err, exits, undefined}
use distcc.ExitCode as Code
use distcc.Effects.{Run, quiet, ◌>>=◌, Disk}
use distcc.Filename.{is_source}
use distcc.Arg.{Argv, Scanned, scan_args, argv_append}
use distcc.Arg.Rewrite.{set_input, set_output}
use distcc.Hosts.{Compress, CppWhere, on_client, on_server, get_features_from_protover}
use distcc.Rpc.{r_token_string, r_request_header, r_argv}
use distcc.Bulk.{Lzo}
use distcc.Bulk.Receive.{r_token_file}
use distcc.Many.{r_many_files}

abbrev include_options : List Bytes
include_options =
    codes "-I"
    ∷ codes "-include"
    ∷ codes "-imacros"
    ∷ codes "-idirafter"
    ∷ codes "-iprefix"
    ∷ codes "-iwithprefix"
    ∷ codes "-iwithprefixbefore"
    ∷ codes "-isystem"
    ∷ codes "-iquote"
    ∷ []

-- The first option of the list that the word begins with.
unfoldable pub matching : Bytes → List Bytes → Option Bytes
matching a [] = none
matching a (option ∷ options) = if str_startswith option a then some option else matching a options

-- The name behind the option is put below the root if it begins with a slash.
unfoldable pub rooted : Bytes → Bytes → Bytes → Bytes
rooted root_dir option a =
    let name = drop (length option) a in
    if first name == b'/' then option ++ (root_dir ++ name) else a

-- tweak_include_arguments_for_server. An option that is the last word moves the index behind the NULL.
unfoldable pub tweak_include_arguments : Bytes → Argv → Result Argv
unfolding matching rooted
tweak_include_arguments root_dir [] = ok []
tweak_include_arguments root_dir (a ∷ []) = elim (matching a include_options) [
  | none ↦ ok (a ∷ [])
  | some option ↦ if str_equal a option then undefined else ok (rooted root_dir option a ∷ [])
]
tweak_include_arguments root_dir (a ∷ b ∷ argv) =
    let behind = tweak_include_arguments root_dir argv in
    let rest = tweak_include_arguments root_dir (b ∷ argv) in
    elim (matching a include_options) [
      | none ↦ Code.◌>>=◌ rest (λ r. ok (a ∷ r))
      | some option ↦
          if str_equal a option
          then Code.◌>>=◌ behind (λ r. ok (a ∷ rooted root_dir [] b ∷ r))
          else Code.◌>>=◌ rest (λ r. ok (rooted root_dir option a ∷ r))
    ]

unfoldable pub skip_slashes : Bytes → Bytes
skip_slashes [] = []
skip_slashes (c ∷ s) = let rest = skip_slashes s in if c == b'/' then rest else c ∷ s

-- tweak_input_argument_for_server.
unfoldable pub tweak_input_argument : Bool → Bytes → Argv → Argv
unfolding skip_slashes
tweak_input_argument assemble root_dir [] = []
tweak_input_argument assemble root_dir (a ∷ argv) =
    let rest = tweak_input_argument assemble root_dir argv in
    if is_source assemble a && (first a == b'/')
    then (root_dir ++ (codes "/" ++ skip_slashes a)) ∷ argv
    else a ∷ rest

unfoldable pub with_word : Bytes → Option (Argv × Option Bytes) → Option (Argv × Option Bytes)
with_word a none = none
with_word a (some (argv, target)) = some (a ∷ argv, target)

-- dcc_convert_mt_to_dotd_target: the argv without the first -MT and its target. `none` is the failure
-- for a -MT that is the last word.
unfoldable pub convert_mt_to_dotd_target : Argv → Option (Argv × Option Bytes)
unfolding with_word
convert_mt_to_dotd_target [] = some ([], none)
convert_mt_to_dotd_target (a ∷ []) = if str_equal a (codes "-MT") then none else some (a ∷ [], none)
convert_mt_to_dotd_target (a ∷ b ∷ argv) =
    let rest = convert_mt_to_dotd_target (b ∷ argv) in
    if str_equal a (codes "-MT") then some (argv, some b) else with_word a rest

-- tweak_arguments_for_server. `none` is the return value 1.
unfoldable pub tweak_arguments : Bool → Bytes → Bytes → Argv → Result (Option (Argv × Option Bytes))
tweak_arguments assemble root_dir deps_fname argv = elim (convert_mt_to_dotd_target argv) [
  | none ↦ ok none
  | some got ↦
      Code.◌>>=◌
        (tweak_include_arguments root_dir
          (argv_append (argv_append (argv_append got.0 (codes "-MMD")) (codes "-MF")) deps_fname))
        (λ tweaked. ok (some (tweak_input_argument assemble root_dir tweaked, got.1)))
]
