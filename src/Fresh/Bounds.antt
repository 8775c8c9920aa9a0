-- ===== src/Fresh/Bounds.antt =====
-- The buffer for a name in dcc_fresh_dependency_exists of src/compile.c.
use distcc.Prelude.{
  ℕ, zero, suc, ◌+◌, ◌≤◌, ◌<◌, ◌≡◌, inl, inr, Bool, false, Bool-cases, ◌==◌, ltb, leb, Option, none,
  some, Option-cases, [], ◌∷◌, length, arith,
}
use distcc.Prelude.Bytes.{Bytes}
use distcc.Fresh.{
  Fresh, out_of_fuel, overflow, no_fresh, find_colon, skip_gap, NameStep, ends, no_room, stores,
  name_step, NameRead, too_long, named, name_result, room_after, is_backslash, read_name,
  judge_name, deps_loop, Stat, fresh_dependency_exists, deps_after, judge_time, judge_read,
}

-- No more is taken than the text has; where it goes on, a byte more than the name.
Fits : ℕ → NameRead → Type 0
Fits len too_long = Unit {0}
Fits len (named name none) = length name ≤ len
Fits len (named name (some rest)) = length name + length rest < len

Fits-step :
    (step : NameStep) (c : ℕ) (s : Bytes) (more : NameRead)
    → Fits (length s) more
    → Fits (suc (length s)) (name_result step c s more)
unfolding Fits
Fits-step ends c s more fits = omega arith
Fits-step no_room c s more fits = tt
Fits-step stores c s too_long fits = tt
Fits-step stores c s (named name none) fits = omega arith
Fits-step stores c s (named name (some rest)) fits = omega arith
Fits-step _ c s too_long fits = tt
Fits-step _ c s (named name none) fits = omega arith
Fits-step _ c s (named name (some rest)) fits = omega arith

read_name-Fits :
    (room : ℕ) (escaped : Bool) (s : Bytes) → Fits (length s) (read_name room escaped s)
unfolding read_name
read_name-Fits room escaped [] = unfold Fits in omega arith
read_name-Fits room escaped (c ∷ s) =
    let step = name_step room escaped c in
    Fits-step step c s (read_name (room_after step room) (is_backslash step) s)
      (read_name-Fits (room_after step room) (is_backslash step) s)

length-skip_gap : (s : Bytes) → length (skip_gap s) ≤ length s
unfolding skip_gap
length-skip_gap [] = omega arith
length-skip_gap (c ∷ s) = ground (arith, length-skip_gap s)

length-find_colon : (s : Bytes) {rest : Bytes} → find_colon s ≡ some rest → length rest < length s
unfolding find_colon
length-find_colon [] found = cc
length-find_colon (c ∷ s) found = elim (Bool-cases (c == b':')) [
  | inl here ↦ ground arith
  | inr other ↦
      let more : find_colon s ≡ some _ = (rw other at found) in
      omega (arith, length-find_colon s more)
]

-- The result is a decision about the dependencies.
abbrev pub IsDecision : Fresh → Type 0
IsDecision out_of_fuel = ⊥
IsDecision overflow = ⊥
IsDecision _ = Unit {0}

module _ (size : ℕ) (excluded : Bytes → Bool) (st_ctime : Bytes → Option ℕ)
    (reference_time : ℕ) where
  judge_time-IsDecision :
      (name : Bytes) (ctime : Option ℕ) (more : Fresh)
      → IsDecision more
      → IsDecision (judge_time size excluded st_ctime reference_time name ctime more)
  unfolding judge_time
  judge_time-IsDecision name none more good = tt
  judge_time-IsDecision name (some ctime) more good = elim (Bool-cases (leb reference_time ctime)) [
    | inl young ↦ rw young tt
    | inr old ↦ rw old good
  ]

  judge_name-IsDecision :
      (name : Bytes) (more : Fresh)
      → length name < size
      → IsDecision more
      → IsDecision (judge_name size excluded st_ctime reference_time name more)
  unfolding judge_name
  judge_name-IsDecision [] more small good = good
  judge_name-IsDecision (c ∷ name) more small good =
      let room : leb size (length (c ∷ name)) ≡ false = ground arith in
      elim (Bool-cases (excluded (c ∷ name))) [
        | inl out ↦ rw (room, out) good
        | inr looked ↦
            rw (room, looked) (judge_time-IsDecision (c ∷ name) (st_ctime (c ∷ name)) more good)
      ]

  judge_read-IsDecision :
      (fuel : ℕ)
      → ((text : Bytes)
          → length text < fuel
          → length text < size
          → IsDecision (deps_loop size excluded st_ctime reference_time fuel text))
      → (len : ℕ) (read : NameRead) → Fits len read
      → len < suc fuel
      → len < size
      → IsDecision (
          judge_read size excluded st_ctime reference_time
            (λ left. deps_loop size excluded st_ctime reference_time fuel left)
            read)
  unfolding judge_read deps_after Fits
  judge_read-IsDecision fuel goes len too_long fits less small = tt
  judge_read-IsDecision fuel goes len (named name none) fits less small =
      judge_name-IsDecision name no_fresh (omega arith) tt
  judge_read-IsDecision fuel goes len (named name (some rest)) fits less small =
      judge_name-IsDecision name (deps_loop size excluded st_ctime reference_time fuel rest)
        (omega arith) (goes rest (omega arith) (omega arith))

  deps_loop-IsDecision :
      (fuel : ℕ) (text : Bytes)
      → length text < fuel
      → length text < size
      → IsDecision (deps_loop size excluded st_ctime reference_time fuel text)
  unfolding deps_loop
  deps_loop-IsDecision zero text less small = absurd (omega arith)
  deps_loop-IsDecision (suc fuel) text less small =
      judge_read-IsDecision fuel (deps_loop-IsDecision fuel) (length (skip_gap text))
        (read_name size false (skip_gap text)) (read_name-Fits size false (skip_gap text))
        (omega (arith, length-skip_gap text)) (omega (arith, length-skip_gap text))

-- With fuel for the bytes of the file, and a size that is theirs, dcc_fresh_dependency_exists ends
-- with a decision: it does not write behind the end of its buffer.
pub fresh_dependency_exists-IsDecision :
    (stat_dotd : Stat) (text : Bytes) (excluded : Bytes → Bool) (st_ctime : Bytes → Option ℕ)
    (reference_time : ℕ)
    → stat_dotd.st_size ≡ length text
    → IsDecision (
        fresh_dependency_exists
          (length text)
          (some stat_dotd)
          (some text)
          excluded
          st_ctime
          reference_time)
unfolding fresh_dependency_exists deps_after
fresh_dependency_exists-IsDecision stat_dotd text excluded st_ctime reference_time whole =
    elim (Bool-cases (ltb stat_dotd.st_mtime reference_time)) [
      | inl old ↦ rw old tt
      | inr young ↦ elim (Option-cases (find_colon text)) [
        | inl none_there ↦ rw (young, none_there) tt
        | inr (rest, found) ↦
            let shorter = length-find_colon text found in
            rw (young, found)
              (deps_loop-IsDecision stat_dotd.st_size excluded st_ctime reference_time (length text)
                rest shorter (omega arith))
      ]
    ]
