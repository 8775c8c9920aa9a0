-- ===== src/Dotd/Items.antt =====
-- The words that dcc_get_dotd_info of src/dotd.c reads, as items, and what it answers for them.
use distcc.Prelude.{
  ◌≡◌, ◌⊎◌, Bool, true, false, ◌||◌, Option, none, some, List, [], ◌∷◌, if◌then◌else◌, drop,
}
use distcc.Prelude.Bytes.{Bytes, codes, str_equal, str_startswith}
use distcc.ExitCode.{Result, ok, ◌>>=◌}
use distcc.Hosts.{until}
use distcc.Arg.{Argv, Scanned}
use distcc.Dotd.{
  DotdScan, takes_target, takes_output, joins_output, dash_o, other, dotd_word, DotdInfo, is_some,
  after_space, dotd_from,
}

-- A target and an output stand in the word behind; the other items are one word.
pub data Item : Type 0 where
  target output : Bytes → Bytes → Item
  joined word : Bytes → Item

-- The word of the item is read as such.
abbrev pub IsItem : Item → Type 0
IsItem (target a name) = dotd_word a ≡ takes_target
IsItem (output a name) = dotd_word a ≡ takes_output
IsItem (joined a) = dotd_word a ≡ joins_output
IsItem (word a) = (dotd_word a ≡ dash_o) ⊎ (dotd_word a ≡ other)

abbrev pub AreItems : List Item → Type 0
AreItems [] = Unit {0}
AreItems (i ∷ items) = IsItem i × AreItems items

abbrev pub words : List Item → Argv
words [] = []
words (target a name ∷ items) = a ∷ name ∷ words items
words (output a name ∷ items) = a ∷ name ∷ words items
words (joined a ∷ items) = a ∷ words items
words (word a ∷ items) = a ∷ words items

-- The last name that -MF gives, if any; `named` is the one in front.
abbrev last_output : Option Bytes → List Item → Option Bytes
last_output named [] = named
last_output named (output a name ∷ items) = last_output (some name) items
last_output named (joined a ∷ items) = last_output (some (drop 3 a)) items
last_output named (_ ∷ items) = last_output named items

abbrev any_target : List Item → Bool
any_target [] = false
any_target (target a name ∷ items) = true
any_target (_ ∷ items) = any_target items

-- Some word begins with -M, but for -MT, -MQ and what an option takes.
abbrev any_needs : List Item → Bool
any_needs [] = false
any_needs (target a name ∷ items) = any_needs items
any_needs (output a name ∷ items) = str_startswith (codes "-M") a || any_needs items
any_needs (joined a ∷ items) = str_startswith (codes "-M") a || any_needs items
any_needs (word a ∷ items) = str_startswith (codes "-M") a || any_needs items

abbrev any_dash_o : List Item → Bool
any_dash_o [] = false
any_dash_o (word a ∷ items) = str_equal a (codes "-o") || any_dash_o items
any_dash_o (_ ∷ items) = any_dash_o items

abbrev read_items : List Item → DotdScan → DotdScan
read_items items s = record {
  needs_dotd = s.needs_dotd || any_needs items;
  sets_dotd_target = s.sets_dotd_target || any_target items;
  deps_output = last_output s.deps_output items;
  has_dash_o = s.has_dash_o || any_dash_o items;
}

-- What follows the loop, by the items.
abbrev info : Option Bytes → List Item → Bytes → Option Bytes → DotdInfo
info env_var items name target_name = record {
  dotd_fname = name;
  needs_dotd = is_some env_var || any_needs items;
  sets_dotd_target = any_target items;
  dotd_target = target_name;
}

-- The names, where dcc_scan_args has found an input and an output.
abbrev where_to : Scanned → Option Bytes → List Item → Option Bytes → Result DotdInfo
where_to scanned env_var items (some name) = ok (info env_var items name none)
where_to scanned (some env) items none =
    let (name, rest) = until (codes " ") env in ok (info (some env) items name (after_space rest))
where_to scanned none items none =
    dotd_from (if any_dash_o items then scanned.output_file else scanned.input_file) >>= λ name.
    ok (info none items name none)
