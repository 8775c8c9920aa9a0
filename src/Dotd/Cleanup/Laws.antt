-- ===== src/Dotd/Cleanup/Laws.antt =====
-- strstr, dcc_strgraft, and the trimming loop of dcc_cleanup_dotd in src/dotd.c.
use distcc.Prelude.{
  ℕ, zero, suc, ◌-◌, ◌<◌, ◌≡◌, ◌⊎◌, inl, inr, refl, ap, true, false, Bool-cases, none, some,
  Option-cases, [], ◌∷◌, ◌++◌, append-nil, if◌then◌else◌, drop, length, length-append, arith,
}
use distcc.Prelude.Bytes.{Bytes, str_startswith}
use distcc.Dotd.Cleanup.{find, trim_loop}

-- A text without its occurrences of a word, from the left to the right; `skip` bytes of an
-- occurrence are still to be passed over.
unfoldable pub without : Bytes → ℕ → Bytes → Bytes
without needle skip [] = []
without needle (suc skip) (c ∷ s) = without needle skip s
without needle zero (c ∷ s) =
    let rest = without needle 0 s in
    if str_startswith needle (c ∷ s) then without needle (length needle - 1) s else c ∷ rest

without-skip :
    (needle : Bytes) (skip : ℕ) (s : Bytes) → without needle skip s ≡ without needle 0 (drop skip s)
unfolding without
without-skip needle zero s = refl
without-skip needle (suc skip) [] = refl
without-skip needle (suc skip) (c ∷ s) = without-skip needle skip s

startswith-drop :
    (needle s : Bytes) → str_startswith needle s ≡ true → s ≡ needle ++ drop (length needle) s
unfolding str_startswith
startswith-drop [] s h = refl
startswith-drop (n ∷ needle) [] h = cc
startswith-drop (n ∷ needle) (c ∷ s) h = ground (arith, startswith-drop needle s)

-- Where the first occurrence in a text with a first byte is.
find-cons :
    (needle : Bytes) (c : ℕ) (s : Bytes) {before after : Bytes}
    → find needle (c ∷ s) ≡ some (before, after)
    → ((str_startswith needle (c ∷ s) ≡ true)
        × (before ≡ [])
        × (after ≡ drop (length needle) (c ∷ s)))
      ⊎ ((str_startswith needle (c ∷ s) ≡ false)
          × (b : Bytes) × (find needle s ≡ some (b, after))
          × (before ≡ c ∷ b))
unfolding find
find-cons needle c s h = elim (Bool-cases (str_startswith needle (c ∷ s))) [
  | inl starts ↦ inl (starts, ground arith, ground arith)
  | inr other ↦ elim (Option-cases (find needle s)) [
    | inl missing ↦ absurd (ground arith)
    | inr ((b, a), found) ↦ inr (other, b, ground arith, ground arith)
  ]
]

pub find-some :
    (needle s : Bytes) {before after : Bytes}
    → find needle s ≡ some (before, after)
    → s ≡ before ++ (needle ++ after)
unfolding find str_startswith
find-some [] [] h = ground arith
find-some (n ∷ needle) [] h = ground arith
find-some needle (c ∷ s) h = elim (find-cons needle c s h) [
  | inl (starts, front, back) ↦ rw (front, back) (startswith-drop needle (c ∷ s) starts)
  | inr (other, b, found, front) ↦ rw front (ap (λ (t : Bytes). c ∷ t) (find-some needle s found))
]

-- Nothing in front of the first occurrence starts an occurrence.
without-find-none :
    (n : ℕ) (needle s : Bytes) → find (n ∷ needle) s ≡ none → without (n ∷ needle) 0 s ≡ s
unfolding find without
without-find-none n needle [] h = refl
without-find-none n needle (c ∷ s) h = ground (arith, without-find-none n needle s)

without-find-some :
    (n : ℕ) (needle s : Bytes) {before after : Bytes}
    → find (n ∷ needle) s ≡ some (before, after)
    → without (n ∷ needle) 0 s ≡ before ++ without (n ∷ needle) 0 after
unfolding find without
without-find-some n needle [] h = ground arith
without-find-some n needle (c ∷ s) h = elim (find-cons (n ∷ needle) c s h) [
  | inl (starts, front, back) ↦
      let less : length (n ∷ needle) - 1 ≡ length needle = omega arith in
      rw (front, back, starts, less) (without-skip (n ∷ needle) (length needle) s)
  | inr (other, b, found, front) ↦
      rw (front, other) (ap (λ (t : Bytes). c ∷ t) (without-find-some n needle s found))
]

-- The trimming loop takes out the occurrences of a root directory that is not empty, in as many
-- rounds as the line has bytes at most.
pub trim_loop_lem :
    (n : ℕ) (root s : Bytes) (fuel : ℕ)
    → length s < fuel
    → trim_loop fuel (n ∷ root) s ≡ some (without (n ∷ root) 0 s)
unfolding trim_loop
trim_loop_lem n root s zero less = absurd (omega arith)
trim_loop_lem n root s (suc fuel) less = elim (Option-cases (find (n ∷ root) s)) [
  | inl missing ↦ ground (arith, without-find-none n root s missing)
  | inr ((before, after), found) ↦
      let shorter : length after < fuel = omega (
        arith,
        ap length (find-some (n ∷ root) s found),
        length-append before ((n ∷ root) ++ after),
        length-append (n ∷ root) after,
      ) in
      ground (arith, trim_loop_lem n root after fuel shorter, without-find-some n root s found)
]

-- A text with the first occurrence of a word replaced by another.
unfoldable pub replace_first : Bytes → Bytes → Bytes → Bytes
replace_first needle new_needle [] = if str_startswith needle [] then new_needle else []
replace_first needle new_needle (c ∷ s) =
    let rest = replace_first needle new_needle s in
    if str_startswith needle (c ∷ s) then new_needle ++ drop (length needle) (c ∷ s) else c ∷ rest

pub replace-find-none :
    (needle new_needle s : Bytes) → find needle s ≡ none → replace_first needle new_needle s ≡ s
unfolding find replace_first
replace-find-none needle new_needle [] h = ground arith
replace-find-none needle new_needle (c ∷ s) h =
    ground (arith, replace-find-none needle new_needle s)

pub replace-find-some :
    (needle new_needle s : Bytes) {before after : Bytes}
    → find needle s ≡ some (before, after)
    → replace_first needle new_needle s ≡ before ++ (new_needle ++ after)
unfolding find replace_first
replace-find-some needle new_needle [] h = ground (arith, append-nil new_needle)
replace-find-some needle new_needle (c ∷ s) h = elim (find-cons needle c s h) [
  | inl (starts, front, back) ↦ rw (front, back, starts) refl
  | inr (other, b, found, front) ↦
      rw (front, other) (ap (λ (t : Bytes). c ∷ t) (replace-find-some needle new_needle s found))
]
