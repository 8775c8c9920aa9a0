-- ===== src/Arg/Accepts.antt =====
-- The results of dcc_scan_args of src/arg.c, from the items of its argv.
use distcc.Prelude.{
  Bool, true, false, ◌≡◌, ◌≢◌, refl, ◌||◌, ◌↔◌, ◌⊎◌, inl, inr, Option, none, some, List, [], ◌∷◌,
  ◌++◌, arith, append_assoc, if◌then◌else◌, ◌==◌, Bool-cases,
}
use distcc.Prelude.Bytes.{Bytes, codes, first, str_equal}
use distcc.ExitCode.{ok, >>=-returns}
use distcc.Filename.{source_needs_local, output_from_source}
use distcc.Arg.Items.{
  Item, AllItems, words_of, inputs_of, outputs_of, compiles, assembles, gather, some_item, to_list,
  Adds, Reading,
}
use distcc.Arg.Grammar.{loop_Reading, loop_of_items}
use distcc.Arg.{Argv, ScanState, Scanned, free, scan_loop, finish_scan, scan_args, empty_scan}

-- The end of dcc_scan_args, from the state of its loop.
pub record Finished (argv : Argv) (s : ScanState) (r : Scanned) : Type 0 where
  pub flag : (s.seen_opt_c || s.seen_opt_s) ≡ true
  pub input : s.input_file ≡ some r.input_file
  pub distributable : source_needs_local r.input_file ≡ false
  pub not_stdout : str_equal r.output_file (codes "-") ≡ false
  pub out :
      ((s.output_file ≡ some r.output_file) × (r.newargv ≡ argv))
      ⊎ ((s.output_file ≡ none)
          × (output_from_source r.input_file (if s.seen_opt_s then codes ".s" else codes ".o")
              ≡ ok r.output_file)
          × (r.newargv ≡ argv ++ (codes "-o" ∷ r.output_file ∷ [])))

pub finish-Finished :
    (argv : Argv) (s : ScanState) (r : Scanned) → finish_scan argv s ≡ ok r → Finished argv s r
unfolding finish_scan
finish-Finished argv s r h =
    ground (arith, append_assoc argv (codes "-o" ∷ []) (r.output_file ∷ []))

pub Finished-finish :
    (argv : Argv) (s : ScanState) (r : Scanned) → Finished argv s r → finish_scan argv s ≡ ok r
unfolding finish_scan
Finished-finish argv s r h =
    ground (arith, append_assoc argv (codes "-o" ∷ []) (r.output_file ∷ []))

-- The argv is a sequence of items with one input, at most one output and a `-c` or `-S`; no test
-- keeps it local, and the output is the one that it names, or the compiler's choice, appended.
pub record Accepts (assemble : Bool) (argv : Argv) (r : Scanned) : Type 0 where
  pub items : List Item
  pub splits : argv ≡ gather words_of items
  pub good : AllItems assemble items
  pub flag : (some_item compiles items || some_item assembles items) ≡ true
  pub one_input : gather inputs_of items ≡ r.input_file ∷ []
  pub distributable : source_needs_local r.input_file ≡ false
  pub not_stdout : str_equal r.output_file (codes "-") ≡ false
  pub out :
      ((gather outputs_of items ≡ r.output_file ∷ []) × (r.newargv ≡ argv))
      ⊎ ((gather outputs_of items ≡ [])
          × (output_from_source r.input_file
                (if some_item assembles items then codes ".s" else codes ".o")
              ≡ ok r.output_file)
          × (r.newargv ≡ argv ++ (codes "-o" ∷ r.output_file ∷ [])))

-- The lists of a state that started empty.
Adds-from_empty :
    (s : ScanState) (items : List Item)
    → Adds empty_scan s items
    → (to_list s.input_file ≡ gather inputs_of items)
      × (to_list s.output_file ≡ gather outputs_of items)
      × (s.seen_opt_c ≡ some_item compiles items)
      × (s.seen_opt_s ≡ some_item assembles items)
Adds-from_empty s items x = (x.inputs, x.outputs, x.c, x.s_flag)

accepted :
    (assemble : Bool) (argv : Argv) (s : ScanState) (r : Scanned)
    → Reading assemble argv empty_scan s
    → Finished argv s r
    → Accepts assemble argv r
accepted assemble argv s r x f =
    let (i, o, c, a) = Adds-from_empty s x.items x.adds in
    record {
      items = x.items;
      splits = x.splits;
      good = x.good;
      flag = rw (← c, ← a) f.flag;
      one_input = rw (← i, f.input) refl;
      distributable = f.distributable;
      not_stdout = f.not_stdout;
      out = rw (← o, ← a) (ground (arith, f.out));
    }

head_of : List Bytes → Option Bytes
head_of [] = none
head_of (a ∷ l) = some a

-- The state that the items lead to.
state_of : List Item → ScanState
state_of items = record {
  seen_opt_c = some_item compiles items;
  seen_opt_s = some_item assembles items;
  input_file = head_of (gather inputs_of items);
  output_file = head_of (gather outputs_of items);
}

Accepts-finish :
    (assemble : Bool) (argv : Argv) (r : Scanned)
    → (x : Accepts assemble argv r)
    → Adds empty_scan (state_of x.items) x.items × Finished argv (state_of x.items) r
unfolding state_of head_of
Accepts-finish assemble argv r x = (
  record { inputs = rw x.one_input refl; outputs = ground (arith, x.out); c = refl; s_flag = refl },
  record {
    flag = x.flag;
    input = rw x.one_input refl;
    distributable = x.distributable;
    not_stdout = x.not_stdout;
    out = ground (arith, x.out);
  },
)

-- With a compiler that does not begin with a dash, dcc_scan_args succeeds exactly on the argvs that
-- the grammar accepts, and with its results.
pub scan_args_iff :
    (assemble : Bool) (compiler : Bytes) (args : Argv) (r : Scanned)
    → first compiler ≢ b'-'
    → (scan_args assemble (compiler ∷ args) ≡ ok r) ↔ Accepts assemble (compiler ∷ args) r
unfolding scan_args
scan_args_iff assemble compiler args r ne =
    let argv : Argv = compiler ∷ args in
    let dash : (first compiler == b'-') ≡ false = ground arith in
    (
      λ h.
          let (s, e, f) =
            >>=-returns (scan_loop assemble free argv empty_scan) (finish_scan argv)
              (rw dash at h) in
          accepted assemble argv s r (loop_Reading assemble argv empty_scan s e)
            (finish-Finished argv s r f),
      λ x.
          let (y, f) = Accepts-finish assemble argv r x in
          rw dash (
            rw
              (rw (← x.splits) at
                (loop_of_items assemble x.items empty_scan (state_of x.items) x.good y))
              (Finished-finish argv (state_of x.items) r f)),
    )

-- The returned argv is the given one, or has the two words of an output appended.
pub scan_args-out :
    (assemble : Bool) (argv : Argv) (r : Scanned)
    → scan_args assemble argv ≡ ok r
    → (r.newargv ≡ argv) ⊎ (r.newargv ≡ argv ++ (codes "-o" ∷ r.output_file ∷ []))
unfolding scan_args
scan_args-out assemble [] r h = cc
scan_args-out assemble (compiler ∷ args) r h = elim (Bool-cases (first compiler == b'-')) [
  | inl dash ↦ absurd (ground arith)
  | inr name ↦
      let argv : Argv = compiler ∷ args in
      let (s, e, f) =
        >>=-returns (scan_loop assemble free argv empty_scan) (finish_scan argv) (rw name at h) in
      elim ((finish-Finished argv s r f).out) [ inl o ↦ inl o.1 | inr o ↦ inr o.2 ]
]
