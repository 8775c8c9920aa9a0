-- ===== src/Arg/Rewrite/Outputs.antt =====
-- dcc_set_output of src/arg.c against dcc_scan_args: a scan of the rewritten argv sees the new
-- output.
use distcc.Prelude.{
  Bool, true, false, ◌≡◌, ◌≢◌, refl, sym, ◌∙◌, inl, none, some, [], ◌∷◌, ◌++◌, ◌==◌, arith, all,
}
use distcc.Prelude.Bytes.{Bytes, codes, first, str_equal, str_equal_iff, str_startswith}
use distcc.ExitCode.{ok, >>=-returns}
use distcc.Arg.Accepts.{finish-Finished}
use distcc.Arg.Grammar.{scan_loop-step}
use distcc.Arg.Rescan.{scan_loop-append, scan_loop-output, scan_from}
use distcc.Arg.Rewrite.Laws.{no_dash_o, set_output_lem}
use distcc.Arg.Rewrite.{set_output}
use distcc.Arg.{
  Argv, ScanState, Scanned, Claim, free, skipped, output, Action, must_be_local, word_action, act,
  scan_word, scan_loop, finish_scan, scan_args, empty_scan,
}

abbrev renamed : ScanState → Bytes → ScanState
renamed s name = record s { output_file = some name }

act-renamed :
    (k : Action) (next : Claim) (a old new : Bytes) (s t : ScanState)
    → s.output_file ≡ some old
    → act k a s ≡ ok (next, t)
    → (act k a (renamed s new) ≡ ok (next, renamed t new)) × (t.output_file ≡ some old)
unfolding act
act-renamed must_be_local next a old new s t o h = cc
act-renamed _ next a old new s t o h = ground arith

-- Once an output is seen the loop does not look at its name.
scan_word-renamed :
    (assemble : Bool) (claim next : Claim) (a old new : Bytes) (s t : ScanState)
    → s.output_file ≡ some old
    → scan_word assemble claim a s ≡ ok (next, t)
    → (scan_word assemble claim a (renamed s new) ≡ ok (next, renamed t new))
      × (t.output_file ≡ some old)
unfolding scan_word
scan_word-renamed assemble free next a old new s t o h =
    act-renamed (word_action assemble a) next a old new s t o h
scan_word-renamed assemble skipped next a old new s t o h = ground arith
scan_word-renamed assemble output next a old new s t o h = ground arith

scan_loop-renamed :
    (assemble : Bool) (claim : Claim) (argv : Argv) (old new : Bytes) (s t : ScanState)
    → s.output_file ≡ some old
    → scan_loop assemble claim argv s ≡ ok t
    → (scan_loop assemble claim argv (renamed s new) ≡ ok (renamed t new))
      × (t.output_file ≡ some old)
unfolding scan_loop
scan_loop-renamed assemble free [] old new s t o h = ground arith
scan_loop-renamed assemble skipped [] old new s t o h = cc
scan_loop-renamed assemble output [] old new s t o h = ground arith
scan_loop-renamed assemble claim (a ∷ argv) old new s u o h =
    let (next, t, e, f) = scan_loop-step assemble claim a argv s u h in
    let (e', o') = scan_word-renamed assemble claim next a old new s t o e in
    let (f', o'') = scan_loop-renamed assemble next argv old new t u o' f in (rw e' f', o'')

no_output_yet :
    (assemble : Bool) (name : Bytes) (ys : Argv) (s t : ScanState)
    → scan_loop assemble free (codes "-o" ∷ name ∷ ys) s ≡ ok t
    → s.output_file ≡ none
unfolding scan_loop scan_word word_action str_equal str_startswith
no_output_yet assemble name ys s t h = ground arith

-- The loop over the two argvs ends in states that differ in the output alone.
loops_agree :
    (assemble : Bool) (before after : Argv) (old new : Bytes) (s t : ScanState)
    → scan_loop assemble free before empty_scan ≡ ok s
    → scan_loop assemble free (before ++ (codes "-o" ∷ old ∷ after)) empty_scan ≡ ok t
    → (scan_loop assemble free (before ++ (codes "-o" ∷ new ∷ after)) empty_scan
        ≡ ok (renamed t new))
      × (t.output_file ≡ some old)
loops_agree assemble before after old new s t b h =
    let tail : Argv = codes "-o" ∷ old ∷ after in
    let rest = sym (scan_loop-append assemble free before tail empty_scan s b) ∙ h in
    let room = no_output_yet assemble old after s t rest in
    let named = sym (scan_loop-output assemble old after s room) ∙ rest in
    let (e, o) = scan_loop-renamed assemble free after old new (renamed s old) t refl named in
    (
      scan_loop-append assemble free before (codes "-o" ∷ new ∷ after) empty_scan s b
          ∙ scan_loop-output assemble new after s room
          ∙ e,
      o,
    )

-- With a compiler that does not begin with a dash, where dcc_scan_args has found its output behind the
-- first word that begins with `-o`, which is `-o` itself, and the new name is not `-`, dcc_set_output
-- changes that output: it succeeds, and a scan of the new argv finds the new name and the same input.
pub scan_args-set_output :
    (assemble : Bool) (compiler old new : Bytes) (args after : Argv) (s : ScanState) (r : Scanned)
    → first compiler ≢ b'-'
    → all no_dash_o (compiler ∷ args) ≡ true
    → scan_loop assemble free (compiler ∷ args) empty_scan ≡ ok s
    → scan_args assemble (compiler ∷ (args ++ (codes "-o" ∷ old ∷ after))) ≡ ok r
    → new ≢ codes "-"
    → (set_output (compiler ∷ (args ++ (codes "-o" ∷ old ∷ after))) new
        ≡ ok (compiler ∷ (args ++ (codes "-o" ∷ new ∷ after))))
      × (scan_args assemble (compiler ∷ (args ++ (codes "-o" ∷ new ∷ after)))
          ≡ ok (record {
            input_file = r.input_file;
            output_file = new;
            newargv = compiler ∷ (args ++ (codes "-o" ∷ new ∷ after));
          }))
unfolding scan_args
scan_args-set_output assemble compiler old new args after s r ne none_before b h name =
    let argv : Argv = compiler ∷ (args ++ (codes "-o" ∷ old ∷ after)) in
    let dash : (first compiler == b'-') ≡ false = ground arith in
    let (t, e, f) =
      >>=-returns (scan_loop assemble free argv empty_scan) (finish_scan argv) (rw dash at h) in
    let (looped, o) = loops_agree assemble (compiler ∷ args) after old new s t b e in
    let fin = finish-Finished argv t r f in
    (
      (set_output_lem (compiler ∷ args) after old new none_before).0,
      scan_from assemble compiler (args ++ (codes "-o" ∷ new ∷ after)) (renamed t new) _ dash looped
          (record {
            flag = fin.flag;
            input = fin.input;
            distributable = fin.distributable;
            not_stdout = ground (arith, str_equal_iff new (codes "-"));
            out = inl (refl, refl);
          }),
    )
