-- ===== src/Dotd.antt =====
-- src/dotd.c: where the dependencies of a compilation go. Dotd/Cleanup has what the server does to
-- the file. Allocation succeeds.
pub mod Cleanup
pub mod Items
pub mod Names
use distcc.Prelude.{
  ◌-◌, Bool, true, false, ◌||◌, ◌==◌, Option, none, some, [], ◌∷◌, ◌++◌, if◌then◌else◌, drop,
}
use distcc.Prelude.Bytes.{Bytes, codes, str_equal, str_startswith, strrchr}
use distcc.ExitCode.{Result, ok, undefined, ◌>>=◌}
use distcc.Filename.{find_extension}
use distcc.Hosts.{until}
use distcc.Arg.{Argv, Scanned, scan_args}

-- The variables that the loop over argv sets.
pub record DotdScan : Type 0 where
  pub needs_dotd : Bool
  pub sets_dotd_target : Bool
  pub deps_output : Option Bytes
  pub has_dash_o : Bool

-- What the loop does at a word.
pub data DotdWord : Type 0 where
  takes_target takes_output joins_output dash_o other : DotdWord

unfoldable pub dotd_word : Bytes → DotdWord
dotd_word a =
    if str_equal a (codes "-MT")
    then takes_target
    else if str_equal a (codes "-MQ")
    then takes_target
    else if str_equal a (codes "-MF")
    then takes_output
    else if str_startswith (codes "-MF") a
    then joins_output
    else if str_equal a (codes "-o")
    then dash_o
    else other

-- The catch-all for all -MD, -MMD, etc, options.
abbrev pub needs : Bytes → DotdScan → DotdScan
needs a s = record s { needs_dotd = s.needs_dotd || str_startswith (codes "-M") a }

-- `++i` inside the loop: what the next word is for.
pub data Pending : Type 0 where
  nothing a_target an_output : Pending

unfoldable pub dotd_act : DotdWord → Bytes → DotdScan → Pending × DotdScan
dotd_act takes_target a s = (a_target, record s { sets_dotd_target = true })
dotd_act takes_output a s = (an_output, needs a s)
dotd_act joins_output a s = (nothing, record (needs a s) { deps_output = some (drop 3 a) })
dotd_act dash_o a s = (nothing, record (needs a s) { has_dash_o = true })
dotd_act other a s = (nothing, needs a s)

unfoldable pub dotd_step : Pending → Bytes → DotdScan → Pending × DotdScan
dotd_step nothing a s = dotd_act (dotd_word a) a s
dotd_step a_target a s = (nothing, s)
dotd_step an_output a s = (nothing, record s { deps_output = some a })

-- The NULL behind the last word counts as a word that is passed over, and the loop then reads on
-- behind the end of argv.
abbrev dotd_end : Pending → DotdScan → Result DotdScan
dotd_end nothing s = ok s
dotd_end _ s = undefined

unfoldable pub dotd_loop : Pending → Argv → DotdScan → Result DotdScan
dotd_loop pending [] s = dotd_end pending s
dotd_loop pending (a ∷ argv) s = let (after, t) = dotd_step pending a s in dotd_loop after argv t

-- The three results by pointer, and dotd_target.
pub record DotdInfo : Type 0 where
  pub dotd_fname : Bytes
  pub needs_dotd : Bool
  pub sets_dotd_target : Bool
  pub dotd_target : Option Bytes

ends_in_dot : Option (Bytes × Bytes) → Bool
ends_in_dot (some (before, dot ∷ [])) = true
ends_in_dot _ = false

-- A name without an extension. The last byte of an empty name is read in front of its memory.
unextended : Bytes → Result Bytes
unfolding ends_in_dot
unextended [] = undefined
unextended (c ∷ name) =
    if ends_in_dot (strrchr b'.' (c ∷ name))
    then ok ((c ∷ name) ++ codes "d")
    else ok ((c ∷ name) ++ codes ".d")

peeled : Bytes → Option (Bytes × Bytes) → Result Bytes
unfolding unextended
peeled name none = unextended name
peeled name (some (stem, extension)) = ok (stem ++ codes ".d")

unfoldable pub dotd_from : Bytes → Result Bytes
unfolding peeled
dotd_from tmp_dotd_fname = peeled tmp_dotd_fname (find_extension tmp_dotd_fname)

abbrev pub after_space : Bytes → Option Bytes
after_space [] = none
after_space (space ∷ target) = some target

-- The input or output file of dcc_scan_args. That it has failed is not looked at; the file name may
-- then be missing.
name_source : Bool → Result Scanned → Result Bytes
name_source has_dash_o (ok scanned) =
    ok (if has_dash_o then scanned.output_file else scanned.input_file)
name_source has_dash_o _ = undefined

unfoldable pub dotd_info : DotdScan → Bytes → Option Bytes → DotdInfo
dotd_info s name target = record {
  dotd_fname = name;
  needs_dotd = s.needs_dotd;
  sets_dotd_target = s.sets_dotd_target;
  dotd_target = target;
}

-- What follows the loop.
unfoldable pub choose_dotd : Bool → Option Bytes → Argv → DotdScan → Option Bytes → Result DotdInfo
unfolding name_source
choose_dotd assemble env_var argv s (some deps_output) = ok (dotd_info s deps_output none)
choose_dotd assemble (some env) argv s none =
    let (name, rest) = until (codes " ") env in ok (dotd_info s name (after_space rest))
choose_dotd assemble none argv s none =
    name_source s.has_dash_o (scan_args assemble argv) >>= λ name.
    dotd_from name >>= λ fname. ok (dotd_info s fname none)

abbrev pub is_some {ℓ} : {A : Type ℓ} → Option A → Bool
is_some none = false
is_some (some a) = true

abbrev pub initial_scan : Option Bytes → DotdScan
initial_scan env_var = record {
  needs_dotd = is_some env_var;
  sets_dotd_target = false;
  deps_output = none;
  has_dash_o = false;
}

-- dcc_get_dotd_info, with the value of DEPENDENCIES_OUTPUT.
unfoldable pub get_dotd_info : Bool → Option Bytes → Argv → Result DotdInfo
get_dotd_info assemble env_var argv = dotd_loop nothing argv (initial_scan env_var) >>= λ s.
    choose_dotd assemble env_var argv s s.deps_output
