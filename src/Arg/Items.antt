-- ===== src/Arg/Items.antt =====
-- What dcc_scan_args of src/arg.c accepts, as a grammar: an argv is a sequence of items, each a word
-- or a word with its argument, and the results are read off the items.
use distcc.Prelude.{
  Bool, true, false, ◌≡◌, ◌||◌, Option, none, some, List, [], ◌∷◌, ◌++◌, arith, drop,
}
use distcc.Prelude.Bytes.{Bytes}
use distcc.ExitCode.{ok}
use distcc.Arg.{
  Argv, Action, must_be_local, skip_next, set_s, set_c, output_next, output_joined, source, object,
  word_action, ScanState, free, act,
}

pub data Item : Type 0 where
  single : Action → Bytes → Item
  paired : Action → Bytes → Bytes → Item

-- The actions of a word that stands alone, and of one that takes the next word with it.
abbrev pub IsSingle : Action → Type 0
IsSingle must_be_local = ⊥
IsSingle skip_next = ⊥
IsSingle output_next = ⊥
IsSingle _ = Unit {0}

abbrev pub IsPaired : Action → Type 0
IsPaired skip_next = Unit {0}
IsPaired output_next = Unit {0}
IsPaired _ = ⊥

abbrev pub IsItem : Bool → Item → Type 0
IsItem assemble (single k a) = (word_action assemble a ≡ k) × IsSingle k
IsItem assemble (paired k a b) = (word_action assemble a ≡ k) × IsPaired k

abbrev pub AllItems : Bool → List Item → Type 0
AllItems assemble [] = Unit {0}
AllItems assemble (i ∷ items) = IsItem assemble i × AllItems assemble items

abbrev pub words_of : Item → Argv
words_of (single k a) = a ∷ []
words_of (paired k a b) = a ∷ b ∷ []

abbrev pub inputs_of : Item → List Bytes
inputs_of (single source a) = a ∷ []
inputs_of _ = []

abbrev pub outputs_of : Item → List Bytes
outputs_of (single output_joined a) = drop 2 a ∷ []
outputs_of (single object a) = a ∷ []
outputs_of (paired output_next a b) = b ∷ []
outputs_of _ = []

abbrev pub compiles : Item → Bool
compiles (single set_c a) = true
compiles _ = false

abbrev pub assembles : Item → Bool
assembles (single set_s a) = true
assembles _ = false

abbrev pub gather {ℓ} : {A : Type ℓ} → (Item → List A) → List Item → List A
gather f [] = []
gather f (i ∷ items) = f i ++ gather f items

abbrev pub some_item : (Item → Bool) → List Item → Bool
some_item f [] = false
some_item f (i ∷ items) = f i || some_item f items

abbrev pub to_list {ℓ} : {A : Type ℓ} → Option A → List A
to_list none = []
to_list (some a) = a ∷ []

-- The loop's state `t` is the state `s` with the items' inputs, outputs and flags added; the
-- variables hold at most one name each, so the items have no more.
pub record Adds (s t : ScanState) (items : List Item) : Type 0 where
  pub inputs : to_list t.input_file ≡ to_list s.input_file ++ gather inputs_of items
  pub outputs : to_list t.output_file ≡ to_list s.output_file ++ gather outputs_of items
  pub c : t.seen_opt_c ≡ (s.seen_opt_c || some_item compiles items)
  pub s_flag : t.seen_opt_s ≡ (s.seen_opt_s || some_item assembles items)

pub record Reading (assemble : Bool) (argv : Argv) (s t : ScanState) : Type 0 where
  pub items : List Item
  pub splits : argv ≡ gather words_of items
  pub good : AllItems assemble items
  pub adds : Adds s t items

single_Adds :
    (k : Action) (a : Bytes) (s t : ScanState)
    → act k a s ≡ ok (free, t)
    → Adds s t (single k a ∷ [])
unfolding act
single_Adds k a s t h = ground arith
