-- ===== src/Arg/Rewrite/Laws.antt =====
-- What dcc_set_action_opt, dcc_set_output and dcc_set_input of src/arg.c change, and when they fail.
use distcc.Prelude.{
  Bool, true, false, not, ◌≡◌, ◌≢◌, ◌↔◌, refl, inl, inr, [], ◌∷◌, ◌++◌, arith, all, map,
  if◌then◌else◌, Bool-cases,
}
use distcc.Prelude.Bytes.{
  Bytes, codes, str_equal, str_equal_iff, str_startswith, str_startswith-append,
}
use distcc.ExitCode.{ok, ◌>>=◌, err, distcc_failed}
use distcc.Filename.{is_source}
use distcc.Arg.{Argv}
use distcc.Arg.Rewrite.{is_action, set_action_loop, set_action_opt, set_output, set_input}

abbrev no_action : Bytes → Bool
no_action a = not (is_action a)

abbrev pub no_dash_o : Bytes → Bool
no_dash_o a = not (str_startswith (codes "-o") a)

set_action_loop_lem :
    (argv : Argv) (new_c : Bytes)
    → ((set_action_loop argv new_c).0 ≡ map (λ a. if is_action a then new_c else a) argv)
      × ((set_action_loop argv new_c).1 ≡ not (all no_action argv))
unfolding set_action_loop
set_action_loop_lem [] new_c = (refl, refl)
set_action_loop_lem (a ∷ argv) new_c =
    let (ih, jh) = set_action_loop_lem argv new_c in (ground (arith, ih), ground (arith, jh))

-- dcc_set_action_opt replaces every `-c` and `-S`, keeps all other words, and fails exactly where
-- there is none.
set_action_opt_lem :
    (argv : Argv) (new_c : Bytes)
    → set_action_opt argv new_c ≡ (
        if all no_action argv
        then err distcc_failed
        else ok (map (λ a. if is_action a then new_c else a) argv))
unfolding set_action_opt
set_action_opt_lem argv new_c =
    let (e, g) = set_action_loop_lem argv new_c in rw (e, g) (ground arith)

pub dash_o : (a : Bytes) → str_equal a (codes "-o") ≡ true → str_startswith (codes "-o") a ≡ true
dash_o a h = rw ((str_equal_iff a (codes "-o")).0 h) (str_startswith-append (codes "-o") [])

-- A word that does not begin with `-o` is passed over.
set_output-cons :
    (a : Bytes) (argv : Argv) (ofname : Bytes)
    → no_dash_o a ≡ true
    → set_output (a ∷ argv) ofname ≡ (set_output argv ofname >>= λ rest. ok (a ∷ rest))
unfolding set_output
set_output-cons a [] ofname h = ground arith
set_output-cons a (b ∷ argv) ofname h = ground (arith, dash_o a)

-- One that does ends the search.
set_output_found :
    (a : Bytes) (argv : Argv) (ofname : Bytes)
    → no_dash_o a ≡ false
    → set_output (a ∷ argv) ofname ≢ err distcc_failed
unfolding set_output
set_output_found a [] ofname h = ground arith
set_output_found a (b ∷ argv) ofname h = ground arith

fails_cons :
    (a : Bytes) (argv : Argv) (ofname : Bytes)
    → (set_output argv ofname ≡ err distcc_failed) ↔ (all no_dash_o argv ≡ true)
    → (set_output (a ∷ argv) ofname ≡ err distcc_failed) ↔ (all no_dash_o (a ∷ argv) ≡ true)
fails_cons a argv ofname ih = elim (Bool-cases (no_dash_o a)) [
  | inl n ↦ rw (set_output-cons a argv ofname n) (λ h. ground arith, λ h. ground arith)
  | inr y ↦ (λ h. absurd (set_output_found a argv ofname y h), λ h. ground arith)
]

-- dcc_set_output fails exactly where no word begins with `-o`: so also where dcc_scan_args took a
-- bare `NAME.o` for the output.
set_output_fails :
    (argv : Argv) (ofname : Bytes)
    → (set_output argv ofname ≡ err distcc_failed) ↔ (all no_dash_o argv ≡ true)
set_output_fails [] ofname = unfold set_output in (λ h. refl, λ h. refl)
set_output_fails (a ∷ argv) ofname = fails_cons a argv ofname (set_output_fails argv ofname)

set_output-shift :
    (a : Bytes) (before : Argv) (ofname : Bytes) (xs ys : Argv)
    → no_dash_o a ≡ true
    → set_output (before ++ xs) ofname ≡ ok (before ++ ys)
    → set_output (a ∷ (before ++ xs)) ofname ≡ ok (a ∷ (before ++ ys))
set_output-shift a before ofname xs ys n h = rw (set_output-cons a _ ofname n, h)

set_output-joined :
    (old : Bytes) (after : Argv) (ofname : Bytes)
    → str_equal (codes "-o" ++ old) (codes "-o") ≡ false
    → set_output ((codes "-o" ++ old) ∷ after) ofname ≡ ok ((codes "-o" ++ ofname) ∷ after)
unfolding set_output
set_output-joined old [] ofname h = rw (str_startswith-append (codes "-o") old)
set_output-joined old (b ∷ after) ofname h = rw (h, str_startswith-append (codes "-o") old)

-- Behind words that do not begin with `-o`, the name behind `-o` is replaced, or the rest of the
-- word that begins with it; nothing else changes.
pub set_output_lem :
    (before after : Argv) (old ofname : Bytes)
    → all no_dash_o before ≡ true
    → (set_output (before ++ (codes "-o" ∷ old ∷ after)) ofname
        ≡ ok (before ++ (codes "-o" ∷ ofname ∷ after)))
      × (str_equal (codes "-o" ++ old) (codes "-o") ≡ false
          → set_output (before ++ ((codes "-o" ++ old) ∷ after)) ofname
            ≡ ok (before ++ ((codes "-o" ++ ofname) ∷ after)))
set_output_lem [] after old ofname h =
    (unfold set_output str_equal str_startswith in refl, set_output-joined old after ofname)
set_output_lem (a ∷ before) after old ofname h =
    let (ih, jh) = set_output_lem before after old ofname (ground arith) in
    (
      set_output-shift a before ofname _ _ (ground arith) ih,
      λ k. set_output-shift a before ofname _ _ (ground arith) (jh k),
    )

-- dcc_set_input replaces the first word with a source extension, an option with one included, and
-- fails exactly where there is none.
set_input_lem :
    (assemble : Bool) (before after : Argv) (old ifname : Bytes)
    → all (λ a. not (is_source assemble a)) before ≡ true
    → (is_source assemble old ≡ true
        → set_input assemble (before ++ (old ∷ after)) ifname ≡ ok (before ++ (ifname ∷ after)))
      × (set_input assemble before ifname ≡ err distcc_failed)
unfolding set_input
set_input_lem assemble [] after old ifname h = (λ s. rw s, refl)
set_input_lem assemble (a ∷ before) after old ifname h = (
  λ s. ground (arith, (set_input_lem assemble before after old ifname (ground arith)).0 s),
  ground (arith, (set_input_lem assemble before after old ifname (ground arith)).1),
)
