-- ===== src/Lines.antt =====
-- Reading a file line by line: fgets of the C library, and the lines of a text.
use distcc.Prelude.{
  ℕ, zero, suc, ◌≤◌, ◌<◌, ◌≡◌, ◌⊎◌, inl, inr, refl, ap, Bool, true, false, Bool-cases, ◌==◌, ==_iff,
  List, [], ◌∷◌, ◌++◌, if◌then◌else◌, take, length, arith,
}
use distcc.Prelude.Bytes.{Bytes, codes, contains}

-- fgets: at most so many bytes, up to the first newline.
unfoldable pub fgets : ℕ → Bytes → Bytes × Bytes
fgets zero s = ([], s)
fgets (suc room) [] = ([], [])
fgets (suc room) (c ∷ s) =
    let (line, rest) = fgets room s in if c == b'\n' then (c ∷ [], s) else (c ∷ line, rest)

-- A line without its newline, and whether it has one.
abbrev pub Line : Type 0
Line = Bytes × Bool

push : ℕ → List Line → List Line
push c [] = (c ∷ [], false) ∷ []
push c ((body, ended) ∷ ls) = (c ∷ body, ended) ∷ ls

-- The lines of a text; the last may lack its newline.
unfoldable pub lines : Bytes → List Line
unfolding push
lines [] = []
lines (c ∷ s) = let ls = lines s in if c == b'\n' then ([], true) ∷ ls else push c ls

abbrev pub line_bytes : Line → Bytes
line_bytes (body, ended) = body ++ (if ended then codes "\n" else [])

pub List-cases {ℓ} : {A : Type ℓ} (l : List A) → (l ≡ []) ⊎ ((x : A) × (xs : List A) × (l ≡ x ∷ xs))
List-cases [] = inl refl
List-cases (x ∷ xs) = inr (x, xs, refl)

pub lines-empty : (s : Bytes) → lines s ≡ [] → s ≡ []
unfolding lines
lines-empty [] none_left = refl
lines-empty (c ∷ s) none_left = elim (Bool-cases (c == b'\n')) [
  | inl newline ↦ absurd (ground arith)
  | inr other ↦ elim (List-cases (lines s)) [
    | inl e ↦ absurd (ground arith)
    | inr (l, ls, e) ↦ absurd (ground arith)
  ]
]

-- The first line of a text with a first byte.
pub lines-cons :
    (c : ℕ) (s body : Bytes) (ended : Bool) (ls : List Line)
    → lines (c ∷ s) ≡ (body, ended) ∷ ls
    → (((c == b'\n') ≡ true) × (body ≡ []) × (ended ≡ true) × (lines s ≡ ls))
      ⊎ (((c == b'\n') ≡ false) × (s ≡ []) × (body ≡ c ∷ []) × (ended ≡ false) × (ls ≡ []))
      ⊎ (((c == b'\n') ≡ false) × (b : Bytes) × (body ≡ c ∷ b) × (lines s ≡ (b, ended) ∷ ls))
unfolding lines push
lines-cons c s body ended ls split = elim (Bool-cases (c == b'\n')) [
  | inl newline ↦ inl (newline, ground arith, ground arith, ground arith)
  | inr other ↦ inr (elim (List-cases (lines s)) [
    | inl e ↦ inl (other, lines-empty s e, ground arith, ground arith, ground arith)
    | inr ((b, en), more, e) ↦ inr (other, b, ground arith, ground arith)
  ])
]

pub fgets-end : (room : ℕ) → fgets room [] ≡ ([], [])
unfolding fgets
fgets-end zero = refl
fgets-end (suc room) = refl

take-end : (room : ℕ) → take {A = ℕ} room [] ≡ []
take-end zero = refl
take-end (suc room) = refl

-- fgets with room for a line reads it, with its newline.
pub fgets-short :
    (s body : Bytes) (ended : Bool) (ls : List Line)
    → lines s ≡ (body, ended) ∷ ls
    → (room : ℕ) → length body < room
    → (rest : Bytes) × (fgets room s ≡ (line_bytes (body, ended), rest))
      × (lines rest ≡ ls)
      × (length rest < length s)
unfolding fgets lines
fgets-short [] body ended ls split room short = unfold lines in cc
fgets-short (c ∷ s) body ended ls split zero short = absurd (omega arith)
fgets-short (c ∷ s) body ended ls split (suc room) short =
    elim (lines-cons c s body ended ls split) [
      | inl (newline, empty, ends, more) ↦
          let ten = (==_iff _ _).0 newline in (s, ground (arith, ten), more, omega arith)
      | inr (inl (other, last, one, ends, more)) ↦
          ([], ground (arith, fgets-end room), rw more refl, omega arith)
      | inr (inr (other, b, longer, more)) ↦
          let (rest, reads, left, less) =
            fgets-short s b ended ls more room (omega (arith, ap length longer)) in
          (rest, ground arith, left, omega arith)
    ]

-- Without room for a line and its newline it reads the front of the line.
pub fgets-long :
    (s body : Bytes) (ended : Bool) (ls : List Line)
    → lines s ≡ (body, ended) ∷ ls
    → (room : ℕ) → room ≤ length body
    → (rest : Bytes) × (fgets room s ≡ (take room body, rest))
unfolding fgets
fgets-long [] body ended ls split room long = unfold lines in cc
fgets-long (c ∷ s) body ended ls split zero long = (c ∷ s, refl)
fgets-long (c ∷ s) body ended ls split (suc room) long = elim (lines-cons c s body ended ls split) [
  | inl (newline, empty, ends, more) ↦ absurd (omega (arith, ap length empty))
  | inr (inl (other, last, one, ends, more)) ↦ ([], ground (arith, fgets-end room, take-end room))
  | inr (inr (other, b, longer, more)) ↦
      let (rest, reads) = fgets-long s b ended ls more room (omega (arith, ap length longer)) in
      (rest, ground arith)
]

pub lines-no_newline :
    (s body : Bytes) (ended : Bool) (ls : List Line)
    → lines s ≡ (body, ended) ∷ ls
    → contains b'\n' body ≡ false
unfolding contains
lines-no_newline [] body ended ls split = unfold lines in cc
lines-no_newline (c ∷ s) body ended ls split = elim (lines-cons c s body ended ls split) [
  | inl (newline, empty, ends, more) ↦ rw empty refl
  | inr (inl (other, last, one, ends, more)) ↦ rw (one, other) refl
  | inr (inr (other, b, longer, more)) ↦ rw (longer, other) (lines-no_newline s b ended ls more)
]

pub length-take : (n : ℕ) (s : Bytes) → n ≤ length s → length (take n s) ≡ n
length-take zero s long = refl
length-take (suc n) [] long = absurd (omega arith)
length-take (suc n) (c ∷ s) long = omega (arith, length-take n s (omega arith))

pub contains-take : (n c : ℕ) (s : Bytes) → contains c s ≡ false → contains c (take n s) ≡ false
unfolding contains
contains-take zero c s none_there = refl
contains-take (suc n) c [] none_there = refl
contains-take (suc n) c (x ∷ s) none_there = ground (arith, contains-take n c s)

-- No line has a newline in it.
abbrev pub PlainLines : List Line → Type 0
PlainLines [] = Unit {0}
PlainLines ((body, ended) ∷ ls) = (contains b'\n' body ≡ false) × PlainLines ls

push-PlainLines :
    (c : ℕ) (ls : List Line) → (c == b'\n') ≡ false → PlainLines ls → PlainLines (push c ls)
unfolding push contains
push-PlainLines c [] other plain = (rw other refl, tt)
push-PlainLines c ((body, ended) ∷ ls) other plain = (rw other (plain.0), plain.1)

pub lines-PlainLines : (text : Bytes) → PlainLines (lines text)
unfolding lines contains
lines-PlainLines [] = tt
lines-PlainLines (c ∷ s) = elim (Bool-cases (c == b'\n')) [
  | inl newline ↦ rw newline (refl, lines-PlainLines s)
  | inr other ↦ rw other (push-PlainLines c (lines s) other (lines-PlainLines s))
]
