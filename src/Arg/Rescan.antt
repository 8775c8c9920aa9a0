-- ===== src/Arg/Rescan.antt =====
-- The server runs dcc_scan_args of src/arg.c on the argv that the client's run returned.
use mathlib.Core.Path.{subst}
use distcc.Prelude.{
  Bool, false, ◌≡◌, refl, inl, inr, none, some, [], ◌∷◌, ◌++◌, ◌==◌, arith, Bool-cases, sym, ◌∙◌,
}
use distcc.Prelude.Bytes.{Bytes, codes, first, str_equal, str_startswith}
use distcc.ExitCode.{ok, >>=-returns}
use distcc.Arg.Accepts.{Finished, finish-Finished, Finished-finish}
use distcc.Arg.Grammar.{scan_loop-step}
use distcc.Arg.{empty_scan}
use distcc.Arg.{
  Argv, ScanState, Scanned, Claim, free, skipped, output, word_action, scan_word, scan_loop,
  finish_scan, scan_args,
}

-- The loop over two pieces, of which the first leaves no claim on the second.
pub scan_loop-append :
    (assemble : Bool) (claim : Claim) (xs ys : Argv) (s t : ScanState)
    → scan_loop assemble claim xs s ≡ ok t
    → scan_loop assemble claim (xs ++ ys) s ≡ scan_loop assemble free ys t
unfolding scan_loop
scan_loop-append assemble free [] ys s t h = cc
scan_loop-append assemble skipped [] ys s t h = cc
scan_loop-append assemble output [] ys s t h = ground arith
scan_loop-append assemble claim (x ∷ xs) ys s t h =
    let (next, u, e, f) = scan_loop-step assemble claim x xs s t h in
    rw e (scan_loop-append assemble next xs ys u t f)

-- `-o NAME` behind a part with no output sets the output.
pub scan_loop-output :
    (assemble : Bool) (name : Bytes) (ys : Argv) (s : ScanState)
    → s.output_file ≡ none
    → scan_loop assemble free (codes "-o" ∷ name ∷ ys) s
      ≡ scan_loop assemble free ys (record s { output_file = some name })
unfolding scan_loop scan_word word_action str_equal str_startswith
scan_loop-output assemble name ys s h = rw h

scan_loop-end : (assemble : Bool) (s : ScanState) → scan_loop assemble free [] s ≡ ok s
unfolding scan_loop
scan_loop-end assemble s = refl

pub scan_from :
    (assemble : Bool) (compiler : Bytes) (args : Argv) (s : ScanState) (r : Scanned)
    → (first compiler == b'-') ≡ false
    → scan_loop assemble free (compiler ∷ args) empty_scan ≡ ok s
    → Finished (compiler ∷ args) s r
    → scan_args assemble (compiler ∷ args) ≡ ok r
unfolding scan_args
scan_from assemble compiler args s r dash e f =
    rw (dash, e) (Finished-finish (compiler ∷ args) s r f)

-- The run on the returned argv, from the first run's loop and end.
rescan :
    (assemble : Bool) (compiler : Bytes) (args : Argv) (s : ScanState) (r : Scanned)
    → (first compiler == b'-') ≡ false
    → scan_loop assemble free (compiler ∷ args) empty_scan ≡ ok s
    → Finished (compiler ∷ args) s r
    → scan_args assemble r.newargv ≡ ok r
rescan assemble compiler args s r dash e f = elim f.out [
  | inl (out, same) ↦
      subst (λ v. scan_args assemble v ≡ ok r) (sym same)
        (scan_from assemble compiler args s r dash e f)
  | inr (none_seen, chosen, more) ↦
      let tail : Argv = codes "-o" ∷ r.output_file ∷ [] in
      let t = record s { output_file = some r.output_file } in
      let looped =
        scan_loop-append assemble free (compiler ∷ args) tail empty_scan s e
        ∙ scan_loop-output assemble r.output_file [] s none_seen
        ∙ scan_loop-end assemble t in
      subst (λ v. scan_args assemble v ≡ ok r) (sym more)
        (scan_from assemble compiler (args ++ tail) t r dash looped (record {
          flag = f.flag;
          input = f.input;
          distributable = f.distributable;
          not_stdout = f.not_stdout;
          out = inl (refl, more);
        }))
]

-- A run on the argv that a run has returned has the same results, and adds nothing more.
pub scan_args-newargv :
    (assemble : Bool) (argv : Argv) (r : Scanned)
    → scan_args assemble argv ≡ ok r
    → scan_args assemble r.newargv ≡ ok r
unfolding scan_args
scan_args-newargv assemble [] r h = cc
scan_args-newargv assemble (compiler ∷ args) r h = elim (Bool-cases (first compiler == b'-')) [
  | inl dash ↦ absurd (ground arith)
  | inr ok_name ↦
      let argv : Argv = compiler ∷ args in
      let (s, e, f) =
        >>=-returns (scan_loop assemble free argv empty_scan) (finish_scan argv)
          (rw ok_name at h) in
      rescan assemble compiler args s r ok_name e (finish-Finished argv s r f)
]
