-- ===== src/Serve/Targets.antt =====
-- The target of the dependencies: dcc_build_somewhere of src/compile.c appends it, and
-- dcc_convert_mt_to_dotd_target of src/serve.c takes it off.
use distcc.Prelude.{
  ◌≡◌, refl, Bool, true, false, not, ◌&&◌, Option, none, some, [], ◌∷◌, ◌++◌, if◌then◌else◌,
}
use distcc.Prelude.Bytes.{Bytes, codes, str_equal}
use distcc.Arg.{Argv}
use distcc.Client.Build.{server_argv}
use distcc.Serve.{with_word, convert_mt_to_dotd_target}

-- No word is -MT.
abbrev IsWithoutMt : Argv → Type 0
IsWithoutMt [] = Unit {0}
IsWithoutMt (a ∷ argv) = (str_equal a (codes "-MT") ≡ false) × IsWithoutMt argv

plain : (argv : Argv) → IsWithoutMt argv → convert_mt_to_dotd_target argv ≡ some (argv, none)
unfolding convert_mt_to_dotd_target with_word
plain [] free = refl
plain (a ∷ []) (other, free) = rw (convert_mt_to_dotd_target, other) refl
plain (a ∷ b ∷ argv) (other, free) =
    rw (convert_mt_to_dotd_target, other, plain (b ∷ argv) free) refl

appended :
    (argv : Argv) (target : Bytes)
    → IsWithoutMt argv
    → convert_mt_to_dotd_target ((argv ++ (codes "-MT" ∷ [])) ++ (target ∷ []))
      ≡ some (argv, some target)
unfolding convert_mt_to_dotd_target with_word str_equal
appended [] target free = refl
appended (a ∷ []) target (other, free) = rw (convert_mt_to_dotd_target, other) refl
appended (a ∷ b ∷ argv) target (other, free) =
    rw (convert_mt_to_dotd_target, other, appended (b ∷ argv) target free) refl

-- The target that the client asks for, if any: that of the command, or else the output.
abbrev wanted : Bool × Bool × Option Bytes → Bytes → Option Bytes
wanted (needs_dotd, sets_dotd_target, dotd_target) output_fname =
    if needs_dotd && not sets_dotd_target
    then some (elim dotd_target [ none ↦ output_fname | some target ↦ target ])
    else none

-- Where no word of the argv is -MT, the target that the client appends for a server that
-- preprocesses is what the server finds, and the server is left with the argv without it; where the
-- client appends none, the server finds none.
convert_mt_to_dotd_target-server_argv :
    (needs_dotd sets_dotd_target : Bool) (dotd_target : Option Bytes) (argv : Argv)
    (output_fname : Bytes)
    → IsWithoutMt argv
    → convert_mt_to_dotd_target
        (server_argv (needs_dotd, sets_dotd_target, dotd_target) argv output_fname)
      ≡ some (argv, wanted (needs_dotd, sets_dotd_target, dotd_target) output_fname)
unfolding server_argv
convert_mt_to_dotd_target-server_argv false sets dotd_target argv output_fname free =
    plain argv free
convert_mt_to_dotd_target-server_argv true true dotd_target argv output_fname free = plain argv free
convert_mt_to_dotd_target-server_argv true false none argv output_fname free =
    appended argv output_fname free
convert_mt_to_dotd_target-server_argv true false (some target) argv output_fname free =
    appended argv target free
