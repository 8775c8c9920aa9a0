-- ===== src/Fresh/Names.antt =====
-- The names that dcc_fresh_dependency_exists of src/compile.c reads from a file that a compiler has
-- written, and what it decides on them.
use distcc.Prelude.{
  ℕ, zero, suc, ◌+◌, ◌-◌, ◌≤◌, ◌<◌, ◌≡◌, refl, Bool, true, false, not, ◌||◌, ◌==◌, ltb, leb, Option,
  none, some, List, [], ◌∷◌, ◌++◌, if◌then◌else◌, length, length-append, all, arith,
}
use distcc.Prelude.Bytes.{Bytes, contains, isspace}
use distcc.Fresh.{
  Fresh, no_fresh, fresh, find_colon, skip_gap, stores, ends, name_step, named, read_name,
  judge_name, judge_time, judge_read, deps_loop, deps_after, Stat, fresh_dependency_exists,
}

-- A dependency: the byte and the bytes of its name, the blank behind it, and the blanks and
-- backslashes up to the next one.
pub record Dep : Type 0 where
  pub first_byte : ℕ
  pub more_bytes : Bytes
  pub blank : ℕ
  pub gap : Bytes

abbrev pub dep_name : Dep → Bytes
dep_name d = d.first_byte ∷ d.more_bytes

abbrev is_gap : ℕ → Bool
is_gap c = isspace c || c == b'\\'

abbrev is_plain : ℕ → Bool
is_plain c = not (is_gap c)

abbrev IsDep : Dep → Type 0
IsDep d = (all is_plain (dep_name d) ≡ true) × (isspace d.blank ≡ true) × (all is_gap d.gap ≡ true)

abbrev AreDeps : List Dep → Type 0
AreDeps [] = Unit {0}
AreDeps (d ∷ ds) = IsDep d × AreDeps ds

abbrev text_of : List Dep → Bytes
text_of [] = []
text_of (d ∷ ds) = dep_name d ++ (d.blank ∷ (d.gap ++ text_of ds))

-- The decision on a list of names: they are looked at in order, but for the excluded ones, up to the
-- first that cannot be looked at or is not older than the time.
abbrev by_time : ℕ → Dep → Option ℕ → Fresh → Fresh
by_time reference_time d none others = no_fresh
by_time reference_time d (some ctime) others =
    if ltb ctime reference_time then others else fresh (dep_name d)

unfoldable pub first_fresh : (Bytes → Bool) → (Bytes → Option ℕ) → ℕ → List Dep → Fresh
first_fresh excluded st_ctime reference_time [] = no_fresh
first_fresh excluded st_ctime reference_time (d ∷ ds) =
    let others = first_fresh excluded st_ctime reference_time ds in
    if excluded (dep_name d)
    then others
    else by_time reference_time d (st_ctime (dep_name d)) others

find_colon-append :
    (target rest : Bytes)
    → contains b':' target ≡ false
    → find_colon (target ++ (b':' ∷ rest)) ≡ some rest
unfolding find_colon contains
find_colon-append [] rest none_there = refl
find_colon-append (c ∷ target) rest none_there = ground (arith, find_colon-append target rest)

skip_gap-append :
    (gap rest : Bytes) → all is_gap gap ≡ true → skip_gap (gap ++ rest) ≡ skip_gap rest
unfolding skip_gap
skip_gap-append [] rest gaps = refl
skip_gap-append (c ∷ gap) rest gaps = ground (arith, skip_gap-append gap rest)

skip_gap-name : (c : ℕ) (s : Bytes) → is_plain c ≡ true → skip_gap (c ∷ s) ≡ c ∷ s
unfolding skip_gap
skip_gap-name c s plain = ground arith

name_step-plain : (room c : ℕ) → 0 < room → is_plain c ≡ true → name_step room false c ≡ stores
unfolding name_step
name_step-plain room c space plain = ground arith

name_step-blank : (room c : ℕ) → isspace c ≡ true → name_step room false c ≡ ends
unfolding name_step
name_step-blank room c blank = rw blank refl

read_name-plain :
    (name : Bytes) (blank : ℕ) (rest : Bytes) (room : ℕ)
    → all is_plain name ≡ true
    → isspace blank ≡ true
    → length name ≤ room
    → read_name room false (name ++ (blank ∷ rest)) ≡ named name (some rest)
unfolding read_name
read_name-plain [] blank rest room plain is_blank fits =
    rw (name_step-blank room blank is_blank) refl
read_name-plain (c ∷ name) blank rest room plain is_blank fits =
    let step = name_step-plain room c (omega arith) (ground arith) in
    let more = read_name-plain name blank rest (room - 1) (ground arith) is_blank (omega arith) in
    rw step (rw more refl)

module _ (size : ℕ) (excluded : Bytes → Bool) (st_ctime : Bytes → Option ℕ)
    (reference_time : ℕ) where
  judge_time-dep :
      (d : Dep) (ctime : Option ℕ) (others : Fresh)
      → judge_time size excluded st_ctime reference_time (dep_name d) ctime others
        ≡ by_time reference_time d ctime others
  unfolding judge_time
  judge_time-dep d none others = refl
  judge_time-dep d (some ctime) others = ground arith

  judge_name-dep :
      (d : Dep) (others : Fresh)
      → length (dep_name d) < size
      → judge_name size excluded st_ctime reference_time (dep_name d) others ≡ (
          if excluded (dep_name d)
          then others
          else by_time reference_time d (st_ctime (dep_name d)) others)
  unfolding judge_name
  judge_name-dep d others small =
      let room : leb size (length (dep_name d)) ≡ false = ground arith in
      rw room (rw (judge_time-dep d (st_ctime (dep_name d)) others) refl)

  deps_loop-text_of :
      (fuel : ℕ) (gap : Bytes) (ds : List Dep)
      → all is_gap gap ≡ true
      → AreDeps ds
      → length (gap ++ text_of ds) < fuel
      → length (gap ++ text_of ds) < size
      → deps_loop size excluded st_ctime reference_time fuel (gap ++ text_of ds)
        ≡ first_fresh excluded st_ctime reference_time ds
  unfolding deps_loop judge_read deps_after first_fresh
  deps_loop-text_of zero gap ds gaps good less small = absurd (omega arith)
  deps_loop-text_of (suc fuel) gap [] gaps good less small =
      rw (skip_gap-append gap [] gaps) (unfold skip_gap read_name judge_name in refl)
  deps_loop-text_of (suc fuel) gap (d ∷ ds) gaps (dep, good) less small =
      let rest = d.blank ∷ (d.gap ++ text_of ds) in
      let longer : length (gap ++ text_of (d ∷ ds))
          ≡ length gap + (length (dep_name d) + suc (length (d.gap ++ text_of ds))) =
        omega (arith, length-append gap (text_of (d ∷ ds)), length-append (dep_name d) rest) in
      let skips = skip_gap-append gap (dep_name d ++ rest) gaps in
      let stays = skip_gap-name d.first_byte (d.more_bytes ++ rest) (ground arith) in
      let reads =
        read_name-plain (dep_name d) d.blank (d.gap ++ text_of ds) size dep.0 dep.1
          (omega (arith, longer)) in
      let others =
        deps_loop-text_of fuel d.gap ds dep.2 good (omega (arith, longer))
          (omega (arith, longer)) in
      rw (skips, stays, reads, others)
        (judge_name-dep d (first_fresh excluded st_ctime reference_time ds) (omega (arith, longer)))

-- A file of a target without a colon, a colon, any blanks and backslashes, and dependencies that have
-- neither blanks nor backslashes in their names and a blank at once behind each, with any blanks and
-- backslashes behind that: where the file can be read, is not older than the time, and has the size
-- that stat has given, dcc_fresh_dependency_exists decides on the names as they were written. It looks
-- at them in order, but for the excluded ones, up to the first that has no status, for which it finds
-- nothing, or that is not older than the time.
pub fresh_dependency_exists-text_of :
    (stat_dotd : Stat) (target gap : Bytes) (ds : List Dep) (excluded : Bytes → Bool)
    (st_ctime : Bytes → Option ℕ) (reference_time : ℕ)
    → contains b':' target ≡ false
    → all is_gap gap ≡ true
    → AreDeps ds
    → stat_dotd.st_size ≡ length (target ++ (b':' ∷ (gap ++ text_of ds)))
    → reference_time ≤ stat_dotd.st_mtime
    → fresh_dependency_exists
        (length (target ++ (b':' ∷ (gap ++ text_of ds))))
        (some stat_dotd)
        (some (target ++ (b':' ∷ (gap ++ text_of ds))))
        excluded
        st_ctime
        reference_time
      ≡ first_fresh excluded st_ctime reference_time ds
unfolding fresh_dependency_exists deps_after
fresh_dependency_exists-text_of stat_dotd target gap ds excluded st_ctime reference_time no_colon
      gaps good whole young =
    let now : ltb stat_dotd.st_mtime reference_time ≡ false = ground arith in
    let size = length-append target (b':' ∷ (gap ++ text_of ds)) in
    rw (now, find_colon-append target (gap ++ text_of ds) no_colon)
      (deps_loop-text_of stat_dotd.st_size excluded st_ctime reference_time
        (length (target ++ (b':' ∷ (gap ++ text_of ds)))) gap ds gaps good (omega (arith, size))
        (omega (arith, size)))
