-- ===== src/Arg/Grammar.antt =====
-- dcc_scan_args of src/arg.c against the grammar of Arg/Items: it accepts exactly the argvs that
-- the grammar describes, with the results that the grammar gives them.
use distcc.Prelude.{
  Bool, true, ◌≡◌, ◌≢◌, refl, ◌⊎◌, inl, inr, none, some, List, [], ◌∷◌, ◌++◌, arith, drop,
  append_assoc, append-nil, ◌∙◌,
}
use distcc.Prelude.Bytes.{Bytes}
use distcc.ExitCode.{ok, >>=-returns}
use distcc.Arg.Items.{
  Item, single, paired, IsSingle, IsPaired, IsItem, AllItems, words_of, gather, Adds, Reading,
}
use distcc.Arg.{
  Argv, Action, must_be_local, carry_on, skip_next, set_s, set_c, output_next, output_joined,
  source, object, word_action, ScanState, Claim, free, skipped, output, act, scan_word, scan_loop,
}

Adds-nil : (s : ScanState) → Adds s s []
Adds-nil s = record {
  inputs = rw append-nil;
  outputs = rw append-nil;
  c = ground arith;
  s_flag = ground arith;
}

Adds-cons :
    (s t u : ScanState) (i : Item) (items : List Item)
    → Adds s t (i ∷ [])
    → Adds t u items
    → Adds s u (i ∷ items)
Adds-cons s t u i items x y = record {
  inputs = simp (y.inputs, x.inputs, append_assoc, append-nil);
  outputs = simp (y.outputs, x.outputs, append_assoc, append-nil);
  c = ground (arith, x.c, y.c);
  s_flag = ground (arith, x.s_flag, y.s_flag);
}

Reading-cons :
    (assemble : Bool) (argv rest : Argv) (s t u : ScanState) (i : Item)
    → argv ≡ words_of i ++ rest
    → IsItem assemble i
    → Adds s t (i ∷ [])
    → Reading assemble rest t u
    → Reading assemble argv s u
Reading-cons assemble argv rest s t u i e good x r = record {
  items = i ∷ r.items;
  splits = rw (← r.splits) e;
  good = (good, r.good);
  adds = Adds-cons s t u i r.items x r.adds;
}

-- A word that does not claim the next one is an item by itself.
act_free :
    (k : Action) (a : Bytes) (s t : ScanState)
    → act k a s ≡ ok (free, t)
    → IsSingle k × Adds s t (single k a ∷ [])
unfolding act
act_free k a s t h = ground arith

act_paired :
    (assemble : Bool) (k : Action) (a b : Bytes) (claim next : Claim) (s t u : ScanState)
    → act k a s ≡ ok (claim, t)
    → claim ≢ free
    → scan_word assemble claim b t ≡ ok (next, u)
    → (next ≡ free) × IsPaired k × Adds s u (paired k a b ∷ [])
unfolding act scan_word
act_paired assemble k a b free next s t u h ne l = absurd (ne refl)
act_paired assemble k a b skipped next s t u h ne l = ground arith
act_paired assemble k a b output next s t u h ne l = ground arith

Reading-nil :
    (assemble : Bool) (s t : ScanState)
    → scan_loop assemble free [] s ≡ ok t
    → Reading assemble [] s t
unfolding scan_loop
Reading-nil assemble s t h = record { items = []; splits = refl; good = tt; adds = ground arith }

-- One step of the loop, with the state between.
pub scan_loop-step :
    (assemble : Bool) (claim : Claim) (a : Bytes) (argv : Argv) (s u : ScanState)
    → scan_loop assemble claim (a ∷ argv) s ≡ ok u
    → (next : Claim) × (t : ScanState) × (scan_word assemble claim a s ≡ ok (next, t))
      × (scan_loop assemble next argv t ≡ ok u)
unfolding scan_loop
scan_loop-step assemble claim a argv s u h =
    let (p, e, f) =
      >>=-returns (scan_word assemble claim a s)
        (λ (p : Claim × ScanState). scan_loop assemble p.0 argv p.1) h in
    (p.0, p.1, e, f)

not_claimed :
    (assemble : Bool) (claim : Claim) (s t : ScanState)
    → scan_loop assemble claim [] s ≡ ok t
    → claim ≡ free
unfolding scan_loop
not_claimed assemble claim s t h = ground arith

Claim-cases : (c : Claim) → (c ≡ free) ⊎ (c ≢ free)
Claim-cases free = inl refl
Claim-cases skipped = inr (λ e. cc)
Claim-cases output = inr (λ e. cc)

-- The step at a word that claims nothing.
Reading-single :
    (assemble : Bool) (a : Bytes) (argv : Argv) (s t u : ScanState)
    → scan_word assemble free a s ≡ ok (free, t)
    → Reading assemble argv t u
    → Reading assemble (a ∷ argv) s u
unfolding scan_word
Reading-single assemble a argv s t u e r =
    let k = word_action assemble a in
    let (good, adds) = act_free k a s t e in
    Reading-cons assemble (a ∷ argv) argv s t u (single k a) refl (refl, good) adds r

-- The step at a word that takes the next one with it.
Reading-paired :
    (assemble : Bool) (a b : Bytes) (argv : Argv) (claim next : Claim) (s t u v : ScanState)
    → scan_word assemble free a s ≡ ok (claim, t)
    → claim ≢ free
    → scan_word assemble claim b t ≡ ok (next, u)
    → (next ≡ free → Reading assemble argv u v)
    → Reading assemble (a ∷ b ∷ argv) s v
unfolding scan_word
Reading-paired assemble a b argv claim next s t u v e ne f r =
    let k = word_action assemble a in
    let (d, good, adds) = act_paired assemble k a b claim next s t u e ne f in
    Reading-cons assemble (a ∷ b ∷ argv) argv s u v (paired k a b) refl (refl, good) adds (r d)

pub loop_Reading :
    (assemble : Bool) (argv : Argv) (s t : ScanState)
    → scan_loop assemble free argv s ≡ ok t
    → Reading assemble argv s t
loop_Reading assemble [] s t h = Reading-nil assemble s t h
loop_Reading assemble (a ∷ []) s u h =
    let (next, t, e, f) = scan_loop-step assemble free a [] s u h in
    let c = not_claimed assemble next t u f in
    Reading-single assemble a [] s t u (rw c at e) (loop_Reading assemble [] t u (rw c at f))
loop_Reading assemble (a ∷ b ∷ argv) s u h =
    let (next, t, e, f) = scan_loop-step assemble free a (b ∷ argv) s u h in
    elim (Claim-cases next) [
      | inl c ↦
          Reading-single assemble a (b ∷ argv) s t u (rw c at e)
            (loop_Reading assemble (b ∷ argv) t u (rw c at f))
      | inr c ↦
          let (after, v, g, k) = scan_loop-step assemble next b argv t u f in
          Reading-paired assemble a b argv next after s t v u e c g
            (λ d. loop_Reading assemble argv v u (rw d at k))
    ]

-- The state after one item, where the variables have room for its names.
act_single :
    (k : Action) (a : Bytes) (s u : ScanState) (items : List Item)
    → IsSingle k
    → Adds s u (single k a ∷ items)
    → (t : ScanState) × (act k a s ≡ ok (free, t)) × Adds t u items
unfolding act
act_single must_be_local a s u items g x = absurd g
act_single skip_next a s u items g x = absurd g
act_single output_next a s u items g x = absurd g
act_single carry_on a s u items g x = (s, refl, ground arith)
act_single set_s a s u items g x = (record s { seen_opt_s = true }, refl, ground arith)
act_single set_c a s u items g x = (record s { seen_opt_c = true }, refl, ground arith)
act_single output_joined a s u items g x =
    (record s { output_file = some (drop 2 a) }, ground arith, ground arith)
act_single source a s u items g x = (record s { input_file = some a }, ground arith, ground arith)
act_single object a s u items g x = (record s { output_file = some a }, ground arith, ground arith)

paired_words :
    (assemble : Bool) (k : Action) (a b : Bytes) (s u : ScanState) (items : List Item)
    → word_action assemble a ≡ k
    → IsPaired k
    → Adds s u (paired k a b ∷ items)
    → (t : ScanState) × ((argv : Argv)
        → scan_loop assemble free (a ∷ b ∷ argv) s ≡ scan_loop assemble free argv t)
      × Adds t u items
unfolding scan_loop scan_word
paired_words assemble skip_next a b s u items e g x = (s, λ argv. rw e, ground arith)
paired_words assemble output_next a b s u items e g x =
    let room : s.output_file ≡ none = ground arith in
    (record s { output_file = some b }, λ argv. rw e (rw room), ground arith)
paired_words assemble _ a b s u items e g x = absurd g

pub loop_of_items :
    (assemble : Bool) (items : List Item) (s u : ScanState)
    → AllItems assemble items
    → Adds s u items
    → scan_loop assemble free (gather words_of items) s ≡ ok u
unfolding scan_loop scan_word
loop_of_items assemble [] s u g x = ground arith
loop_of_items assemble (single k a ∷ items) s u (g, gs) x =
    let (t, e, y) = act_single k a s u items g.1 x in
    rw g.0 (rw e (loop_of_items assemble items t u gs y))
loop_of_items assemble (paired k a b ∷ items) s u (g, gs) x =
    let (t, e, y) = paired_words assemble k a b s u items g.0 g.1 x in
    e (gather words_of items) ∙ loop_of_items assemble items t u gs y
