-- ===== src/Stringmap.antt =====
-- src/stringmap.c: a file of names that are looked up by their last words, and dcc_remap_compiler of
-- src/serve.c, which looks a compiler up in it. No file holds a NUL; allocation succeeds.
pub mod Words
pub mod Loading
use distcc.Prelude.{
  ℕ, zero, suc, ◌+◌, ◌-◌, Bool, true, false, Option, none, some, List, [], ◌∷◌, ◌==◌, leb,
  if◌then◌else◌, drop, length,
}
use distcc.Prelude.Bytes.{Bytes, codes, first, str_equal}
use distcc.ExitCode.{ExitCode, io_error, Result, ok, err, undefined, ◌>>=◌}
use distcc.Hosts.Numbers.{ℤ, pos, negsuc, atoi}
use distcc.Lines.{fgets}

pub record Entry : Type 0 where
  pub key : Bytes
  pub value : Bytes

pub record Stringmap : Type 0 where
  pub num_final_words_to_match : ℤ
  pub map : List Entry

-- The number of words that have been counted has reached the number to match.
abbrev pub enough : ℕ → ℤ → Bool
enough w (pos n) = leb n w
enough w (negsuc n) = true

-- The loop from a position of the text down to the second byte, after so many words.
unfoldable pub key_start : ℤ → Bytes → ℕ → ℕ → ℕ
key_start words buf zero w = 0
key_start words buf (suc before) w =
    let slash = first (drop (suc before) buf) == b'/' in
    let rest = key_start words buf before (if slash then suc w else w) in
    if slash then (if enough (suc w) words then suc (suc before) else rest) else rest

-- The significant part of a text; of an empty one it begins in front of the text.
unfoldable pub key_of : ℤ → Bytes → Result Bytes
key_of words [] = undefined
key_of words (c ∷ buf) = ok (drop (key_start words (c ∷ buf) (length buf) 0) (c ∷ buf))

-- strip trailing \n
unfoldable pub chomp : Bytes → Bytes
chomp [] = []
chomp (c ∷ []) = if c == b'\n' then [] else c ∷ []
chomp (c ∷ d ∷ s) = c ∷ chomp (d ∷ s)

entry_of : ℤ → Bytes → Result Entry
entry_of words buf = key_of words buf >>= λ key. ok (record { key = key; value = buf })

read_on : Bytes → List Bytes → List Bytes
read_on [] others = []
read_on (c ∷ buf) others = (c ∷ buf) ∷ others

-- What fgets reads from the text, one after the other, up to its end.
unfoldable pub reads : ℕ → ℕ → Bytes → List Bytes
unfolding read_on
reads room zero text = []
reads room (suc fuel) text = let (buf, rest) = fgets room text in read_on buf (reads room fuel rest)

unfoldable pub entries : ℤ → List Bytes → Result (List Entry)
unfolding entry_of
entries words [] = ok []
entries words (buf ∷ bufs) =
    entry_of words (chomp buf) >>= λ e. entries words bufs >>= λ es. ok (e ∷ es)

-- stringmap_load, of a file that can be opened or not; the buffer has twice PATH_MAX bytes.
unfoldable pub stringmap_load : ℕ → Option Bytes → ℤ → Result (Option Stringmap)
stringmap_load path_max none words = ok none
stringmap_load path_max (some text) words =
    entries words (reads (path_max + path_max - 1) (length text) text) >>= λ map.
    ok (some (record { num_final_words_to_match = words; map = map }))

unfoldable pub find_entry : List Entry → Bytes → Option Bytes
find_entry [] key = none
find_entry (e ∷ es) key =
    let rest = find_entry es key in if str_equal e.key key then some e.value else rest

unfoldable pub stringmap_lookup : Stringmap → Bytes → Result (Option Bytes)
stringmap_lookup map string =
    key_of map.num_final_words_to_match string >>= λ key. ok (find_entry map.map key)

-- The static variables of dcc_remap_compiler.
pub record Cmdlist : Type 0 where
  pub cmdlist_checked : Bool
  pub map : Option Stringmap

-- What dcc_remap_compiler returns, with the name of the compiler: 1, 0, or EXIT_IO_ERROR.
pub data Remapped : Type 0 where
  accepted : Bytes → Remapped
  forbidden : Remapped
  not_loaded : Remapped

-- The file that DISTCC_CMDLIST names, if it is set, and DISTCC_CMDLIST_NUMWORDS.
pub record CmdlistEnv : Type 0 where
  pub filename : Option (Option Bytes)
  pub nw : Option Bytes

abbrev pub num_words : Option Bytes → Result ℤ
num_words none = ok (pos 1)
num_words (some nw) = atoi nw

load_cmdlist : ℕ → CmdlistEnv → Option (Option Bytes) → Result (Bool × Cmdlist)
load_cmdlist path_max env none = ok (true, record { cmdlist_checked = true; map = none })
load_cmdlist path_max env (some file) = num_words env.nw >>= λ words.
    stringmap_load path_max file words >>= λ map. ok (elim map [
      | none ↦ (false, record { cmdlist_checked = true; map = none })
      | some m ↦ (true, record { cmdlist_checked = true; map = some m })
    ])

looked_up : Option Bytes → Remapped
looked_up none = forbidden
looked_up (some newname) = accepted newname

remap_with : Option Stringmap → Bytes → Result Remapped
unfolding looked_up
remap_with none compiler_name = ok (accepted compiler_name)
remap_with (some map) compiler_name =
    stringmap_lookup map compiler_name >>= λ newname. ok (looked_up newname)

-- dcc_remap_compiler: the file is loaded in the first call.
unfoldable pub remap_compiler : ℕ → CmdlistEnv → Cmdlist → Bytes → Result (Remapped × Cmdlist)
unfolding load_cmdlist remap_with
remap_compiler path_max env state compiler_name =
    (if state.cmdlist_checked then ok (true, state) else load_cmdlist path_max env env.filename)
    >>= λ (loaded, after).
        if loaded
        then (remap_with after.map compiler_name >>= λ remapped. ok (remapped, after))
        else ok (not_loaded, after)
