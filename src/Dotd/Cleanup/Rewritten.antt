-- ===== src/Dotd/Cleanup/Rewritten.antt =====
-- dcc_cleanup_dotd of src/dotd.c as a map over the lines of the file.
use distcc.Prelude.{
  ℕ, zero, suc, ◌-◌, ◌*◌, ◌≤◌, ◌<◌, ◌≡◌, inl, inr, refl, Bool, ◌&&◌, true, false, Bool-cases, ltb,
  some, Option-cases, List, [], ◌∷◌, ◌++◌, append-nil, if◌then◌else◌, take, length, length-append,
  arith,
}
use distcc.Prelude.Bytes.{Bytes, codes, contains, contains-append}
use distcc.Dotd.Cleanup.{
  find, strgraft, Cleaned, failed, cleaned, behind_line, overlong, clean_line, clean_read,
  clean_loop, cleanup_dotd,
}
use distcc.Lines.{
  Line, lines, line_bytes, List-cases, lines-empty, lines-cons, fgets-end, fgets-short, fgets-long,
  lines-no_newline, length-take, contains-take,
}
use distcc.Dotd.Cleanup.Laws.{
  without, trim_loop_lem, replace_first, replace-find-none, replace-find-some,
}

module _ (max_line : ℕ) (r : ℕ) (root_rest client_out_name server_out_name : Bytes)
    (room : 2 ≤ max_line) (fits : length client_out_name ≤ max_line) where
  -- A line with the first occurrence of the server's name replaced, and the root taken out.
  abbrev pub rewritten : Line → Bytes
  rewritten line =
      without (r ∷ root_rest) 0 (replace_first server_out_name client_out_name (line_bytes line))

  abbrev rewritten_lines : List Line → Bytes
  rewritten_lines [] = []
  rewritten_lines (line ∷ ls) = rewritten line ++ rewritten_lines ls

  abbrev short_lines : List Line → Bool
  short_lines [] = true
  short_lines ((body, ended) ∷ ls) = ltb (length body) (max_line - 1) && short_lines ls

  length-line_bytes :
      (body : Bytes) (ended : Bool) → length (line_bytes (body, ended)) ≤ suc (length body)
  length-line_bytes body true = omega (arith, length-append body (codes "\n"))
  length-line_bytes body false = omega (arith, length-append body [])

  strgraft-fits :
      (s : Bytes)
      → length s < max_line
      → strgraft s (2 * max_line) server_out_name client_out_name
        ≡ some (replace_first server_out_name client_out_name s)
  unfolding strgraft
  strgraft-fits s short = elim (Option-cases (find server_out_name s)) [
    | inl missing ↦ ground (arith, replace-find-none server_out_name client_out_name s missing)
    | inr ((before, after), found) ↦
        ground (arith, replace-find-some server_out_name client_out_name s found)
  ]

  clean_line-short :
      (s : Bytes)
      → length s < max_line
      → clean_line max_line (r ∷ root_rest) client_out_name server_out_name s
        ≡ cleaned (without (r ∷ root_rest) 0 (replace_first server_out_name client_out_name s))
  unfolding clean_line
  clean_line-short s short =
      let grafted = replace_first server_out_name client_out_name s in
      let trims = trim_loop_lem r root_rest grafted (suc (length grafted)) (omega arith) in
      ground (arith, strgraft-fits s short, trims)

  some_byte :
      (text body : Bytes) (ended : Bool) (ls : List Line)
      → lines text ≡ (body, ended) ∷ ls
      → 0 < length (line_bytes (body, ended))
  some_byte [] body ended ls split = unfold lines in cc
  some_byte (c ∷ s) body ended ls split = elim (lines-cons c s body ended ls split) [
    | inl (newline, empty, ends, more) ↦ rw (empty, ends) (omega arith)
    | inr (inl (other, last, one, ends, more)) ↦ rw (one, ends) (omega arith)
    | inr (inr (other, b, longer, more)) ↦ rw longer (omega arith)
  ]

  overlong-short :
      (text body : Bytes) (ended : Bool) (ls : List Line)
      → lines text ≡ (body, ended) ∷ ls
      → length body < max_line - 1
      → overlong max_line (line_bytes (body, ended)) ≡ false
  overlong-short text body true ls split short =
      let newline : contains b'\n' (body ++ codes "\n") ≡ true =
        rw (contains-append b'\n' body (codes "\n"), lines-no_newline text body true ls split)
          (unfold contains in refl) in
      rw newline refl
  overlong-short text body false ls split short =
      rw (append-nil body, lines-no_newline text body false ls split) (ground arith)

  overlong-full :
      (text body : Bytes) (ended : Bool) (ls : List Line)
      → lines text ≡ (body, ended) ∷ ls
      → length (take (max_line - 1) body) ≡ max_line - 1
      → overlong max_line (take (max_line - 1) body) ≡ true
  overlong-full text body ended ls split full =
      let none_there =
        contains-take (max_line - 1) b'\n' body (lines-no_newline text body ended ls split) in
      rw none_there (rw full (ground arith))

  end_read :
      (fuel : ℕ)
      → clean_loop max_line (r ∷ root_rest) client_out_name server_out_name (suc fuel) []
        ≡ (if short_lines (lines []) then cleaned (rewritten_lines (lines [])) else failed)
  unfolding clean_loop clean_read lines
  end_read fuel = rw (fgets-end (max_line - 1)) refl

  behind_short :
      (text : Bytes) (ls : List Line)
      → behind_line text (if short_lines ls then cleaned (rewritten_lines ls) else failed)
        ≡ (if short_lines ls then cleaned (text ++ rewritten_lines ls) else failed)
  behind_short text ls = elim (Bool-cases (short_lines ls)) [
    | inl short ↦ rw short refl
    | inr long ↦ rw long refl
  ]

  abbrev read : Bytes → Cleaned → Cleaned
  read = clean_read max_line (r ∷ root_rest) client_out_name server_out_name

  clean_read-line :
      (s text : Bytes) (others : Cleaned)
      → 0 < length s
      → overlong max_line s ≡ false
      → clean_line max_line (r ∷ root_rest) client_out_name server_out_name s ≡ cleaned text
      → read s others ≡ behind_line text others
  unfolding clean_read
  clean_read-line [] text others some_byte short line = absurd (omega arith)
  clean_read-line (c ∷ s) text others some_byte short line = rw (short, line) refl

  clean_read-long :
      (s : Bytes) (others : Cleaned)
      → 0 < length s
      → overlong max_line s ≡ true
      → read s others ≡ failed
  unfolding clean_read
  clean_read-long [] others some_byte long = absurd (omega arith)
  clean_read-long (c ∷ s) others some_byte long = rw long refl

  clean_loop_lem :
      (text : Bytes) (fuel : ℕ)
      → length text < fuel
      → clean_loop max_line (r ∷ root_rest) client_out_name server_out_name fuel text
        ≡ (if short_lines (lines text) then cleaned (rewritten_lines (lines text)) else failed)
  unfolding clean_loop
  clean_loop_lem text zero less = absurd (omega arith)
  clean_loop_lem text (suc fuel) less = elim (List-cases (lines text)) [
    | inl e ↦ rw (lines-empty text e) (end_read fuel)
    | inr ((body, ended), ls, split) ↦ elim (Bool-cases (ltb (length body) (max_line - 1))) [
      | inl short ↦
          let (rest, reads, left, shorter) =
            fgets-short text body ended ls split (max_line - 1) (ground arith) in
          let others = clean_loop_lem rest fuel (omega arith) in
          let line =
            clean_line-short (line_bytes (body, ended))
              (ground (arith, length-line_bytes body ended)) in
          let reading =
            clean_read-line (line_bytes (body, ended)) (rewritten (body, ended))
              (clean_loop max_line (r ∷ root_rest) client_out_name server_out_name fuel rest)
              (some_byte text body ended ls split)
              (overlong-short text body ended ls split (ground arith)) line in
          rw (reads, split, reading, others, left, short)
            (behind_short (rewritten (body, ended)) ls)
      | inr long ↦
          let (rest, reads) = fgets-long text body ended ls split (max_line - 1) (ground arith) in
          let full : length (take (max_line - 1) body) ≡ max_line - 1 =
            length-take (max_line - 1) body (ground arith) in
          rw (reads, split, long)
            (clean_read-long (take (max_line - 1) body)
              (clean_loop max_line (r ∷ root_rest) client_out_name server_out_name fuel rest)
              (omega arith) (overlong-full text body ended ls split full))
    ]
  ]

  -- Where no line is too long for the buffer of fgets, dcc_cleanup_dotd gives the lines rewritten,
  -- in their order, and otherwise it fails: with a root directory that is not empty and a name for
  -- the target no longer than the buffer, the substitution never runs out of room.
  pub cleanup_dotd_lem :
      (text : Bytes)
      → cleanup_dotd max_line
          (r ∷ root_rest)
          client_out_name
          server_out_name
          (suc (length text))
          (some text)
          true
          true
        ≡ (if short_lines (lines text) then cleaned (rewritten_lines (lines text)) else failed)
  unfolding cleanup_dotd
  cleanup_dotd_lem text = clean_loop_lem text (suc (length text)) (omega arith)
