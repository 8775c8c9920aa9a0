-- ===== src/Dotd/Cleanup.antt =====
-- dcc_cleanup_dotd of src/dotd.c, over the bytes of the file. No file holds a NUL.
pub mod Rewritten
pub mod Laws
use distcc.Prelude.{
  ℕ, zero, suc, ◌+◌, ◌-◌, ◌*◌, Bool, true, false, not, ◌==◌, ltb, Option, none, some, List, [], ◌∷◌,
  ◌++◌, if◌then◌else◌, drop, length,
}
use distcc.Prelude.Bytes.{Bytes, codes, contains, str_startswith}
use distcc.Lines.{fgets}

-- strstr: what stands in front of the first occurrence, and behind it.
unfoldable pub find : Bytes → Bytes → Option (Bytes × Bytes)
find needle [] = if str_startswith needle [] then some ([], []) else none
find needle (c ∷ s) =
    let rest = find needle s in
    if str_startswith needle (c ∷ s)
    then some ([], drop (length needle) (c ∷ s))
    else elim rest [ none ↦ none | some (before, after) ↦ some (c ∷ before, after) ]

-- dcc_strgraft; `none` is the return of 1.
unfoldable pub strgraft : Bytes → ℕ → Bytes → Bytes → Option Bytes
strgraft haystack hay_size needle new_needle = elim (find needle haystack) [
  | none ↦ some haystack
  | some (before, after) ↦
      if ltb hay_size (length haystack - length needle + length new_needle + 1)
      then none
      else some (before ++ (new_needle ++ after))
]

-- The loop that takes the root directory out of what stands behind `found`.
unfoldable pub trim_loop : ℕ → Bytes → Bytes → Option Bytes
trim_loop zero root_dir found = none
trim_loop (suc fuel) root_dir found = elim (find root_dir found) [
  | none ↦ some found
  | some (before, rest_of_buf) ↦ elim (trim_loop fuel root_dir rest_of_buf) [
    | none ↦ none
    | some rest ↦ some (before ++ rest)
  ]
]

-- How a rewriting ends: the fuel is out, a nonzero return, or the text of the new file.
pub data Cleaned : Type 0 where
  out_of_fuel failed : Cleaned
  cleaned : Bytes → Cleaned

abbrev pub behind_line : Bytes → Cleaned → Cleaned
behind_line line (cleaned text) = cleaned (line ++ text)
behind_line line other = other

-- The loop ends where a line fails.
abbrev after_line : Cleaned → Cleaned → Cleaned
after_line (cleaned line) others = behind_line line others
after_line other others = other

-- The end of the file has not been met where fgets has filled its buffer.
abbrev pub overlong : ℕ → Bytes → Bool
overlong max_line buf = if contains b'\n' buf then false else length buf == max_line - 1

abbrev trimmed_to : Option Bytes → Cleaned
trimmed_to none = out_of_fuel
trimmed_to (some line) = cleaned line

module _ (max_line : ℕ) (root_dir client_out_name server_out_name : Bytes) where
  -- The rewriting of one line, with fuel for as many rounds of the trimming as it has bytes.
  unfoldable pub clean_line : Bytes → Cleaned
  clean_line buf = elim (strgraft buf (2 * max_line) server_out_name client_out_name) [
    | none ↦ failed
    | some grafted ↦ trimmed_to (trim_loop (suc (length grafted)) root_dir grafted)
  ]

  -- What fgets has read, which is nothing at the end of the file.
  clean_read : Bytes → Cleaned → Cleaned
  clean_read [] others = cleaned []
  clean_read (c ∷ buf) others =
      if overlong max_line (c ∷ buf) then failed else after_line (clean_line (c ∷ buf)) others

  -- The loop over the lines.
  unfoldable pub clean_loop : ℕ → Bytes → Cleaned
  unfolding clean_read
  clean_loop zero text = out_of_fuel
  clean_loop (suc fuel) text =
      let (buf, rest) = fgets (max_line - 1) text in clean_read buf (clean_loop fuel rest)

  -- dcc_cleanup_dotd, on what the file holds if it can be opened; whether the new file can be named
  -- and opened, and whether what is written to it arrives.
  unfoldable pub cleanup_dotd : ℕ → Option Bytes → Bool → Bool → Cleaned
  cleanup_dotd fuel none makes writes = failed
  cleanup_dotd fuel (some text) makes writes =
      if not makes
      then failed
      else if writes
      then clean_loop fuel text
      else after_line (clean_loop fuel text) failed
