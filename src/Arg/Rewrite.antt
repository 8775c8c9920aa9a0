-- ===== src/Arg/Rewrite.antt =====
-- dcc_set_action_opt, dcc_set_output and dcc_set_input of src/arg.c. Each returns the argv as it
-- stands afterwards; on an error it has not changed.
pub mod Laws
pub mod Outputs
use distcc.Prelude.{Bool, true, false, ◌||◌, [], ◌∷◌, ◌++◌, if◌then◌else◌}
use distcc.Prelude.Bytes.{Bytes, codes, str_equal, str_startswith}
use distcc.ExitCode.{Result, ok, err, distcc_failed, ◌>>=◌}
use distcc.Filename.{is_source}
use distcc.Arg.{Argv}

abbrev pub is_action : Bytes → Bool
is_action a = str_equal a (codes "-c") || str_equal a (codes "-S")

-- The loop: the rewritten argv, and `gotone`.
unfoldable pub set_action_loop : Argv → Bytes → Argv × Bool
set_action_loop [] new_c = ([], false)
set_action_loop (a ∷ argv) new_c =
    let (rest, gotone) = set_action_loop argv new_c in
    if is_action a then (new_c ∷ rest, true) else (a ∷ rest, gotone)

unfoldable pub set_action_opt : Argv → Bytes → Result Argv
set_action_opt argv new_c =
    let (argv', gotone) = set_action_loop argv new_c in
    if gotone then ok argv' else err distcc_failed

-- The word is left where it is, and the loop goes on.
abbrev keep : Bytes → Result Argv → Result Argv
keep a r = r >>= λ rest. ok (a ∷ rest)

unfoldable pub set_output : Argv → Bytes → Result Argv
set_output [] ofname = err distcc_failed
set_output (a ∷ []) ofname =
    if str_startswith (codes "-o") a then ok ((codes "-o" ++ ofname) ∷ []) else err distcc_failed
set_output (a ∷ b ∷ argv) ofname =
    let rest = set_output (b ∷ argv) ofname in
    if str_equal a (codes "-o")
    then ok (a ∷ ofname ∷ argv)
    else if str_startswith (codes "-o") a
    then ok ((codes "-o" ++ ofname) ∷ b ∷ argv)
    else keep a rest

unfoldable pub set_input : Bool → Argv → Bytes → Result Argv
set_input assemble [] ifname = err distcc_failed
set_input assemble (a ∷ argv) ifname =
    let rest = set_input assemble argv ifname in
    if is_source assemble a then ok (ifname ∷ argv) else keep a rest
