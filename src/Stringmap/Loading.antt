-- ===== src/Stringmap/Loading.antt =====
-- The list of compilers that dcc_remap_compiler of src/serve.c loads and looks in.
use distcc.Prelude.{
  ℕ, zero, suc, ◌+◌, ◌-◌, ◌≤◌, ◌≡◌, refl, ap, inl, inr, Bool, true, false, Bool-cases, ◌&&◌, ltb,
  Option, none, some, List, [], ◌∷◌, ◌++◌, append-nil, map, if◌then◌else◌, length, arith,
}
use distcc.Prelude.Bytes.{Bytes, codes, contains, str_equal}
use distcc.ExitCode.{ok}
use distcc.Hosts.Numbers.{ℤ, pos}
use distcc.Lines.{
  Line, lines, line_bytes, List-cases, lines-empty, fgets-end, fgets-short, PlainLines,
  lines-PlainLines,
}
use distcc.Stringmap.Words.{last_words, key_of-last_words}
use distcc.Stringmap.{
  Entry, Stringmap, chomp, reads, read_on, entry_of, entries, stringmap_load, find_entry,
  stringmap_lookup, Cmdlist, CmdlistEnv, Remapped, accepted, forbidden, not_loaded, remap_compiler,
  remap_with, load_cmdlist, num_words, looked_up,
}

-- The text without a newline at its end.
chomp-plain : (body : Bytes) → contains b'\n' body ≡ false → chomp body ≡ body
unfolding chomp contains
chomp-plain [] plain = refl
chomp-plain (c ∷ []) plain = ground arith
chomp-plain (c ∷ d ∷ s) plain = ap (λ (t : Bytes). c ∷ t) (chomp-plain (d ∷ s) (ground arith))

chomp-ended : (body : Bytes) → chomp (body ++ codes "\n") ≡ body
unfolding chomp
chomp-ended [] = refl
chomp-ended (c ∷ []) = refl
chomp-ended (c ∷ d ∷ s) = ap (λ (t : Bytes). c ∷ t) (chomp-ended (d ∷ s))

chomp-line :
    (body : Bytes) (ended : Bool)
    → contains b'\n' body ≡ false
    → chomp (line_bytes (body, ended)) ≡ body
chomp-line body true plain = chomp-ended body
chomp-line body false plain = rw (append-nil body) (chomp-plain body plain)

-- The lines are not empty and fit the buffer.
abbrev good_lines : ℕ → List Line → Bool
good_lines room [] = true
good_lines room (([], ended) ∷ ls) = false
good_lines room ((c ∷ body, ended) ∷ ls) = ltb (length (c ∷ body)) room && good_lines room ls

-- A line that is read is not empty.
read_on-line :
    (c : ℕ) (body : Bytes) (ended : Bool) (others : List Bytes)
    → read_on (line_bytes (c ∷ body, ended)) others ≡ line_bytes (c ∷ body, ended) ∷ others
unfolding read_on
read_on-line c body ended others = refl

nil_of : (s : Bytes) → length s ≤ 0 → s ≡ []
nil_of [] none_there = refl
nil_of (c ∷ s) none_there = absurd (omega arith)

reads_lem :
    (room fuel : ℕ) (text : Bytes)
    → length text ≤ fuel
    → good_lines room (lines text) ≡ true
    → reads room fuel text ≡ map line_bytes (lines text)
unfolding reads
reads_lem room zero text enough good =
    let empty : text ≡ [] = nil_of text (omega arith) in rw empty (unfold lines in refl)
reads_lem room (suc fuel) text enough good = elim (List-cases (lines text)) [
  | inl e ↦ rw (lines-empty text e) (rw (fgets-end room) (unfold lines read_on in refl))
  | inr (([], ended), ls, split) ↦ let bad = rw split at good in cc
  | inr ((c ∷ body, ended), ls, split) ↦
      let ok_line = rw split at good in
      let (rest, read, left, shorter) =
        fgets-short text (c ∷ body) ended ls split room (ground arith) in
      let others = reads_lem room fuel rest (omega arith) (rw left (ground arith)) in
      rw (read, split) (rw (others, left) (read_on-line c body ended (map line_bytes ls)))
]

abbrev entry_for : ℕ → Line → Entry
entry_for m (body, ended) = record { key = last_words m body; value = body }

entries_lem :
    (m room : ℕ) (ls : List Line)
    → good_lines room ls ≡ true
    → PlainLines ls
    → entries (pos (suc m)) (map line_bytes ls) ≡ ok (map (entry_for m) ls)
unfolding entries entry_of
entries_lem m room [] good plain = refl
entries_lem m room (([], ended) ∷ ls) good plain = cc
entries_lem m room ((c ∷ body, ended) ∷ ls) good plain =
    let others = entries_lem m room ls (ground arith) plain.1 in
    rw (chomp-line (c ∷ body) ended plain.0, key_of-last_words m c body, others) refl

-- The first line with the same last m + 1 words as a name.
abbrev first_same : ℕ → Bytes → List Line → Remapped
first_same m name [] = forbidden
first_same m name ((body, ended) ∷ ls) =
    let others = first_same m name ls in
    if str_equal (last_words m body) (last_words m name) then accepted body else others

-- The variables of dcc_remap_compiler when the lines have been loaded.
abbrev pub loaded : ℕ → List Line → Cmdlist
loaded m ls = record {
  cmdlist_checked = true;
  map = some (record { num_final_words_to_match = pos (suc m); map = map (entry_for m) ls });
}

find_entry_lem :
    (m : ℕ) (name : Bytes) (ls : List Line)
    → looked_up (find_entry (map (entry_for m) ls) (last_words m name)) ≡ first_same m name ls
unfolding find_entry looked_up
find_entry_lem m name [] = refl
find_entry_lem m name ((body, ended) ∷ ls) =
    elim (Bool-cases (str_equal (last_words m body) (last_words m name))) [
      | inl same ↦ rw same refl
      | inr other ↦ rw other (find_entry_lem m name ls)
    ]

module _ (path_max m : ℕ) (text : Bytes) (c : ℕ) (name : Bytes) where
  remap_with-loaded :
      remap_with (loaded m (lines text)).map (c ∷ name) ≡ ok (first_same m (c ∷ name) (lines text))
  unfolding remap_with stringmap_lookup
  remap_with-loaded = rw (key_of-last_words m c name, find_entry_lem m (c ∷ name) (lines text)) refl

  -- In a list of compilers whose lines are not empty and fit the buffer, and for a number of words of
  -- one or more, dcc_remap_compiler finds the first line with the same last words as the name of the
  -- compiler, which is not empty, or forbids the compiler: in the first call, which loads the list,
  -- and in the calls after it. The last words are what stands behind the slash with one slash fewer
  -- behind it than there are words, the first byte of the name not counted, or else the whole name.
  pub remap_compiler_lem :
      (nw : Option Bytes) (env : CmdlistEnv) (map : Option Stringmap)
      → num_words nw ≡ ok (pos (suc m))
      → good_lines (path_max + path_max - 1) (lines text) ≡ true
      → (remap_compiler path_max
            (record { filename = some (some text); nw = nw })
            (record { cmdlist_checked = false; map = map })
            (c ∷ name)
          ≡ ok (first_same m (c ∷ name) (lines text), loaded m (lines text)))
        × (remap_compiler path_max env (loaded m (lines text)) (c ∷ name)
            ≡ ok (first_same m (c ∷ name) (lines text), loaded m (lines text)))
  unfolding remap_compiler load_cmdlist stringmap_load
  remap_compiler_lem nw env map counts good =
      let room = path_max + path_max - 1 in
      let read = reads_lem room (length text) text (omega arith) good in
      let made = entries_lem m room (lines text) good (lines-PlainLines text) in
      (rw (counts, read, made, remap_with-loaded) refl, rw remap_with-loaded refl)

-- Where the list cannot be opened, the first call of dcc_remap_compiler fails, and from then on every
-- compiler is accepted.
remap_compiler-not_loaded :
    (path_max : ℕ) (words : ℤ) (nw : Option Bytes) (map : Option Stringmap) (first_name : Bytes)
    → num_words nw ≡ ok words
    → (after : Cmdlist) × (remap_compiler path_max
          (record { filename = some none; nw = nw })
          (record { cmdlist_checked = false; map = map })
          first_name
        ≡ ok (not_loaded, after))
      × ((env : CmdlistEnv) (name : Bytes)
          → remap_compiler path_max env after name ≡ ok (accepted name, after))
unfolding remap_compiler load_cmdlist stringmap_load remap_with
remap_compiler-not_loaded path_max words nw map first_name counts =
    (record { cmdlist_checked = true; map = none }, rw counts refl, λ env name. refl)
