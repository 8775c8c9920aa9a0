-- ===== src/Fresh.antt =====
-- dcc_fresh_dependency_exists of src/compile.c, over the bytes of the file with the dependencies.
-- What stat and fnmatch answer are arguments; allocation succeeds, and the size of the file fits a
-- size_t. No file holds a NUL.
pub mod Bounds
pub mod Names
use distcc.Prelude.{
  ℕ, zero, suc, ◌-◌, Bool, true, false, ◌&&◌, ◌||◌, Option, none, some, [], ◌∷◌, ◌==◌, ltb, leb,
  if◌then◌else◌, length,
}
use distcc.Prelude.Bytes.{Bytes, isspace}

-- `*result` at the end. `overflow` is a write behind the end of dep_name.
pub data Fresh : Type 0 where
  out_of_fuel overflow no_fresh : Fresh
  fresh : Bytes → Fresh

-- The search for ':'.
unfoldable pub find_colon : Bytes → Option Bytes
find_colon [] = none
find_colon (c ∷ s) = let rest = find_colon s in if c == b':' then some s else rest

-- Skip whitespaces and backslashes.
unfoldable pub skip_gap : Bytes → Bytes
skip_gap [] = []
skip_gap (c ∷ s) = let rest = skip_gap s in if isspace c || c == b'\\' then rest else c ∷ s

-- What the loop over a name does at a byte: it passes over the newline behind a backslash, ends,
-- finds no room, or takes the byte for a backslash or for a part of the name.
pub data NameStep : Type 0 where
  newline ends no_room backslash stores : NameStep

unfoldable pub name_step : ℕ → Bool → ℕ → NameStep
name_step room escaped c =
    if escaped && c == b'\n'
    then newline
    else if isspace c
    then ends
    else if room == 0
    then no_room
    else if c == b'\\'
    then backslash
    else stores

-- The name, and what is left of the file if its end has not been met.
pub data NameRead : Type 0 where
  too_long : NameRead
  named : Bytes → Option Bytes → NameRead

abbrev pub behind_byte : ℕ → NameRead → NameRead
behind_byte c too_long = too_long
behind_byte c (named name rest) = named (c ∷ name) rest

abbrev pub name_result : NameStep → ℕ → Bytes → NameRead → NameRead
name_result newline c s more = more
name_result ends c s more = named [] (some s)
name_result no_room c s more = too_long
name_result backslash c s more = more
name_result stores c s more = behind_byte c more

abbrev pub room_after : NameStep → ℕ → ℕ
room_after stores room = room - 1
room_after _ room = room

abbrev pub is_backslash : NameStep → Bool
is_backslash backslash = true
is_backslash _ = false

-- The loop over a name, with room for so many bytes, behind a backslash or not.
unfoldable pub read_name : ℕ → Bool → Bytes → NameRead
read_name room escaped [] = named [] none
read_name room escaped (c ∷ s) =
    let step = name_step room escaped c in
    name_result step c s (read_name (room_after step room) (is_backslash step) s)

-- The loop goes on unless the end of the file has been met.
deps_after : (Bytes → Fresh) → Option Bytes → Fresh
deps_after loop none = no_fresh
deps_after loop (some text) = loop text

module _ (dotd_fname_size : ℕ) (excluded : Bytes → Bool) (st_ctime : Bytes → Option ℕ)
    (reference_time : ℕ) where
  -- A dependency that can be looked at: too young, or the loop goes on.
  judge_time : Bytes → Option ℕ → Fresh → Fresh
  judge_time dep_name none more = no_fresh
  judge_time dep_name (some ctime) more = if leb reference_time ctime then fresh dep_name else more

  -- What follows the name.
  unfoldable pub judge_name : Bytes → Fresh → Fresh
  unfolding judge_time
  judge_name [] more = more
  judge_name (c ∷ name) more =
      if leb dotd_fname_size (length (c ∷ name))
      then overflow
      else if excluded (c ∷ name)
      then more
      else judge_time (c ∷ name) (st_ctime (c ∷ name)) more

  judge_read : (Bytes → Fresh) → NameRead → Fresh
  judge_read loop too_long = no_fresh
  judge_read loop (named name rest) = judge_name name (deps_after loop rest)

  -- The loop over the dependencies.
  unfoldable pub deps_loop : ℕ → Bytes → Fresh
  unfolding judge_read deps_after
  deps_loop zero text = out_of_fuel
  deps_loop (suc fuel) text =
      judge_read (λ left. deps_loop fuel left) (read_name dotd_fname_size false (skip_gap text))

-- The times of the file, and its size.
pub record Stat : Type 0 where
  pub st_mtime : ℕ
  pub st_size : ℕ

-- `opened` is what the file holds if it can be opened.
unfoldable pub fresh_dependency_exists :
    ℕ → Option Stat → Option Bytes → (Bytes → Bool) → (Bytes → Option ℕ) → ℕ → Fresh
unfolding deps_after
fresh_dependency_exists fuel none opened excluded st_ctime reference_time = no_fresh
fresh_dependency_exists fuel (some stat_dotd) none excluded st_ctime reference_time = no_fresh
fresh_dependency_exists fuel (some stat_dotd) (some text) excluded st_ctime reference_time =
    if ltb stat_dotd.st_mtime reference_time
    then no_fresh
    else deps_after (deps_loop stat_dotd.st_size excluded st_ctime reference_time fuel)
        (find_colon text)
