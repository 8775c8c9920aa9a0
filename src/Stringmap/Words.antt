-- ===== src/Stringmap/Words.antt =====
-- The last words of a name, by which src/stringmap.c looks it up.
use distcc.Prelude.{
  ℕ, zero, suc, ◌+◌, ◌≤◌, ◌<◌, ◌≡◌, ◌⊎◌, refl, ap, sym, ◌∙◌, inl, inr, true, false, Bool-cases,
  ◌==◌, ==_iff, leb, [], ◌∷◌, ◌++◌, if◌then◌else◌, drop, length, length-append, drop-append, arith,
}
use distcc.Prelude.Bytes.{Bytes, first}
use distcc.ExitCode.{ok}
use distcc.Hosts.Numbers.{pos}
use distcc.Stringmap.{key_start, key_of}

-- The slashes of a text.
unfoldable pub count_slashes_of : Bytes → ℕ
count_slashes_of [] = 0
count_slashes_of (c ∷ s) = let rest = count_slashes_of s in if c == b'/' then suc rest else rest

count_slashes_of-drop :
    (p : ℕ) (s : Bytes)
    → count_slashes_of (drop p s) ≡ (
        if first (drop p s) == b'/'
        then suc (count_slashes_of (drop (suc p) s))
        else count_slashes_of (drop (suc p) s))
unfolding count_slashes_of
count_slashes_of-drop zero [] = refl
count_slashes_of-drop zero (c ∷ s) = refl
count_slashes_of-drop (suc p) [] = refl
count_slashes_of-drop (suc p) (c ∷ s) = count_slashes_of-drop p s

count_slashes_of-later :
    (p r : ℕ) (s : Bytes) → p ≤ r → count_slashes_of (drop r s) ≤ count_slashes_of (drop p s)
count_slashes_of-later p zero s le = let same : p ≡ 0 = omega arith in rw same (omega arith)
count_slashes_of-later p (suc r) s le = elim (Bool-cases (p == suc r)) [
  | inl same ↦ rw ((==_iff _ _).0 same) (omega arith)
  | inr other ↦
      ground (arith, count_slashes_of-later p r s (ground arith), count_slashes_of-drop r s)
]

count_slashes_of-append :
    (s t : Bytes) → count_slashes_of (s ++ t) ≡ count_slashes_of s + count_slashes_of t
unfolding count_slashes_of
count_slashes_of-append [] t = omega arith
count_slashes_of-append (c ∷ s) t = ground (arith, count_slashes_of-append s t)

-- The loop from a position stops behind the slash that has m slashes behind it.
key_start-stops :
    (m q p : ℕ) (buf : Bytes)
    → q < p
    → first (drop (suc q) buf) ≡ b'/'
    → count_slashes_of (drop (suc (suc q)) buf) ≡ m
    → key_start (pos (suc m)) buf p (count_slashes_of (drop (suc p) buf)) ≡ suc (suc q)
unfolding key_start
key_start-stops m q zero buf less is_slash behind = absurd (omega arith)
key_start-stops m q (suc p) buf less is_slash behind =
    let count = count_slashes_of-drop (suc p) buf in
    elim (Bool-cases (p == q)) [
      | inl same ↦
          let here : (first (drop (suc p) buf) == b'/') ≡ true =
            rw ((==_iff _ _).0 same, is_slash) refl in
          let enough : leb (suc m) (suc (count_slashes_of (drop (suc (suc p)) buf))) ≡ true =
            rw ((==_iff _ _).0 same, behind) (ground arith) in
          rw (here, enough) (rw ((==_iff _ _).0 same) refl)
      | inr other ↦
          let rec = key_start-stops m q p buf (ground arith) is_slash behind in
          let later = count_slashes_of-later (suc (suc q)) (suc p) buf (ground arith) in
          elim (Bool-cases (first (drop (suc p) buf) == b'/')) [
            | inl here ↦
                let counted = rw here at count in
                let more : leb (suc m) (suc (count_slashes_of (drop (suc (suc p)) buf))) ≡ false =
                  ground (arith, counted, later) in
                rw (here, more) (rw counted at rec)
            | inr plain ↦ let counted = rw plain at count in rw plain (rw counted at rec)
          ]
    ]

-- It runs to the first byte where the others have m slashes at most.
key_start-whole :
    (m p : ℕ) (buf : Bytes)
    → count_slashes_of (drop 1 buf) ≤ m
    → key_start (pos (suc m)) buf p (count_slashes_of (drop (suc p) buf)) ≡ 0
unfolding key_start
key_start-whole m zero buf few = refl
key_start-whole m (suc p) buf few =
    let count = count_slashes_of-drop (suc p) buf in
    let rec = key_start-whole m p buf few in
    let later = count_slashes_of-later 1 (suc p) buf (omega arith) in
    elim (Bool-cases (first (drop (suc p) buf) == b'/')) [
      | inl here ↦
          let counted = rw here at count in
          let more : leb (suc m) (suc (count_slashes_of (drop (suc (suc p)) buf))) ≡ false =
            ground (arith, counted, later) in
          rw (here, more) (rw counted at rec)
      | inr plain ↦ let counted = rw plain at count in rw plain (rw counted at rec)
    ]

drop-past : (s : Bytes) (n : ℕ) → length s ≤ n → drop n s ≡ []
drop-past [] zero past = refl
drop-past [] (suc n) past = refl
drop-past (c ∷ s) zero past = absurd (omega arith)
drop-past (c ∷ s) (suc n) past = drop-past s n (omega arith)

drop-suc :
    (front : Bytes) (c : ℕ) (rest : Bytes) → drop (suc (length front)) (front ++ (c ∷ rest)) ≡ rest
drop-suc [] c rest = refl
drop-suc (d ∷ front) c rest = drop-suc front c rest

count_slashes_of-past : (s : Bytes) → count_slashes_of (drop (length s) s) ≡ 0
unfolding count_slashes_of
count_slashes_of-past s = rw (drop-past s (length s) (omega arith)) refl

start_behind :
    (m c : ℕ) (front rest : Bytes)
    → count_slashes_of rest ≡ m
    → key_start (pos (suc m)) (c ∷ (front ++ (b'/' ∷ rest))) (length (front ++ (b'/' ∷ rest))) 0
      ≡ suc (suc (length front))
start_behind m c front rest behind =
    let buf = c ∷ (front ++ (b'/' ∷ rest)) in
    let tail = drop-append front (b'/' ∷ rest) in
    let is_slash : first (drop (suc (length front)) buf) ≡ b'/' = rw tail refl in
    let after : drop (suc (suc (length front))) buf ≡ rest = drop-suc front b'/' rest in
    let stops =
      key_start-stops m (length front) (length (front ++ (b'/' ∷ rest))) buf
        (omega (arith, length-append front (b'/' ∷ rest))) is_slash (rw after behind) in
    rw (count_slashes_of-past (front ++ (b'/' ∷ rest))) at stops

-- By m + 1 words, the key of a name is what stands behind the slash that has m slashes behind it, if
-- that is not its first byte; a name with m slashes at most behind its first byte is its own key.
key_of_lem :
    (m c : ℕ) (front rest name : Bytes)
    → (count_slashes_of rest ≡ m → key_of (pos (suc m)) ((c ∷ front) ++ (b'/' ∷ rest)) ≡ ok rest)
      × (count_slashes_of name ≤ m → key_of (pos (suc m)) (c ∷ name) ≡ ok (c ∷ name))
unfolding key_of
key_of_lem m c front rest name = (
  λ behind. rw (start_behind m c front rest behind) (ap ok (drop-suc front b'/' rest)),
  λ few.
      rw (rw (count_slashes_of-past name) at (key_start-whole m (length name) (c ∷ name) few)) refl,
)

-- What stands behind the slash of a text that has m slashes behind it, or the whole where there is none.
abbrev behind_slash : ℕ → Bytes → Bytes → Bytes
behind_slash m whole [] = whole
behind_slash m whole (c ∷ s) =
    let rest = behind_slash m whole s in
    if c == b'/' then (if count_slashes_of s == m then s else rest) else rest

-- The last m + 1 words of a name: what stands behind the slash, but not its first byte, that has m
-- slashes behind it, or the whole name where there is none.
abbrev pub last_words : ℕ → Bytes → Bytes
last_words m [] = []
last_words m (c ∷ name) = behind_slash m (c ∷ name) name

abbrev Splits : ℕ → Bytes → Bytes → Type 0
Splits m whole name =
    ((front : Bytes) × (rest : Bytes) × (name ≡ front ++ (b'/' ∷ rest))
      × (count_slashes_of rest ≡ m)
      × (behind_slash m whole name ≡ rest))
    ⊎ ((count_slashes_of name ≤ m) × (behind_slash m whole name ≡ whole))

Splits-plain :
    (m c : ℕ) (whole s : Bytes) → (c == b'/') ≡ false → Splits m whole s → Splits m whole (c ∷ s)
unfolding count_slashes_of
Splits-plain m c whole s plain (inl (front, rest, split, behind, found)) =
    inl (c ∷ front, rest, rw split refl, behind, rw plain found)
Splits-plain m c whole s plain (inr (few, found)) = inr (rw plain few, rw plain found)

Splits-slash :
    (m c : ℕ) (whole s : Bytes)
    → (c == b'/') ≡ true
    → (count_slashes_of s == m) ≡ false
    → Splits m whole s
    → Splits m whole (c ∷ s)
unfolding count_slashes_of
Splits-slash m c whole s slash more (inl (front, rest, split, behind, found)) =
    inl (c ∷ front, rest, rw split refl, behind, rw (slash, more) found)
Splits-slash m c whole s slash more (inr (few, found)) =
    inr (rw slash (ground arith), rw (slash, more) found)

split_name : (m : ℕ) (whole name : Bytes) → Splits m whole name
unfolding count_slashes_of
split_name m whole [] = inr (omega arith, refl)
split_name m whole (c ∷ s) = elim (Bool-cases (c == b'/')) [
  | inr plain ↦ Splits-plain m c whole s plain (split_name m whole s)
  | inl slash ↦ elim (Bool-cases (count_slashes_of s == m)) [
    | inr more ↦ Splits-slash m c whole s slash more (split_name m whole s)
    | inl here ↦ inl (
      [],
      s,
      ap (λ (d : ℕ). d ∷ s) ((==_iff _ _).0 slash),
      (==_iff _ _).0 here,
      rw (slash, here) refl,
    )
  ]
]

-- The key of a name that is not empty is its last words.
pub key_of-last_words :
    (m c : ℕ) (name : Bytes) → key_of (pos (suc m)) (c ∷ name) ≡ ok (last_words m (c ∷ name))
key_of-last_words m c name = elim (split_name m (c ∷ name) name) [
  | inl (front, rest, split, behind, found) ↦
      ap (λ (s : Bytes). key_of (pos (suc m)) (c ∷ s)) split
      ∙ ((key_of_lem m c front rest name).0 behind ∙ ap ok (sym found))
  | inr (few, found) ↦ (key_of_lem m c [] [] name).1 few ∙ ap ok (sym found)
]
