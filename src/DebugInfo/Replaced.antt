-- ===== src/DebugInfo/Replaced.antt =====
-- What the loop of replace_string in src/fix_debug_info.c leaves of the server's directory.
use distcc.Prelude.{
  ℕ, zero, suc, ◌+◌, ◌-◌, ◌≤◌, ◌<◌, ◌≡◌, ◌≢◌, ◌⊎◌, inl, inr, refl, ap, ◌∙◌, length-append, ltb,
  ==_iff, true, false, Bool-cases, [], ◌∷◌, ◌++◌, length, drop, arith,
}
use mathlib.Core.Path.{subst}
use distcc.Prelude.Bytes.{Bytes, str_startswith}
use distcc.DebugInfo.{replace_loop, replace_string, slashes}

-- The first bytes are slashes.
abbrev Slashed : ℕ → Bytes → Type 0
Slashed zero s = Unit {0}
Slashed (suc k) [] = ⊥
Slashed (suc k) (c ∷ s) = (c ≡ b'/') × Slashed k s

abbrev pub last_byte : Bytes → ℕ
last_byte [] = 0
last_byte (c ∷ []) = c
last_byte (c ∷ d ∷ s) = last_byte (d ∷ s)

drop-nil : (i : ℕ) → drop {A = ℕ} i [] ≡ []
drop-nil zero = refl
drop-nil (suc i) = refl

last_byte-cons : (d : ℕ) (w : Bytes) → w ≢ [] → last_byte (d ∷ w) ≡ last_byte w
last_byte-cons d [] ne = absurd (ne refl)
last_byte-cons d (c ∷ w) ne = refl

Slashed-slashes : (k : ℕ) (s : Bytes) → Slashed k (slashes k ++ s)
Slashed-slashes zero s = tt
Slashed-slashes (suc k) s = (refl, Slashed-slashes k s)

Slashed-last_byte :
    (k c : ℕ) (w r : Bytes)
    → Slashed k r
    → length (c ∷ w) ≤ k
    → str_startswith (c ∷ w) r ≡ true
    → last_byte (c ∷ w) ≡ b'/'
unfolding str_startswith
Slashed-last_byte (suc k) c [] (d ∷ r) slashed fits starts = ground (arith, ==_iff c d)
Slashed-last_byte (suc k) c (d ∷ w) (e ∷ r) slashed fits starts =
    Slashed-last_byte k d w r slashed.1 (omega arith) (ground arith)
Slashed-last_byte zero c w r slashed fits starts = absurd (omega arith)
Slashed-last_byte (suc k) c [] [] slashed fits starts = absurd slashed
Slashed-last_byte (suc k) c (d ∷ w) [] slashed fits starts = absurd slashed

-- The bytes are the same but for slashes.
abbrev pub IsKept : Bytes → Bytes → Type 0
IsKept [] [] = Unit {0}
IsKept [] (b ∷ r) = ⊥
IsKept (a ∷ s) [] = ⊥
IsKept (a ∷ s) (b ∷ r) = ((b ≡ a) ⊎ (b ≡ b'/')) × IsKept s r

pub IsKept-refl : (s : Bytes) → IsKept s s
IsKept-refl [] = tt
IsKept-refl (a ∷ s) = (inl refl, IsKept-refl s)

pub IsKept-trans : (s r q : Bytes) → IsKept s r → IsKept r q → IsKept s q
IsKept-trans [] [] q h k = k
IsKept-trans [] (b ∷ r) q h k = absurd h
IsKept-trans (a ∷ s) [] q h k = absurd h
IsKept-trans (a ∷ s) (b ∷ r) [] h k = absurd k
IsKept-trans (a ∷ s) (b ∷ r) (e ∷ q) (inl same, h) (inl same', k) =
    (inl (same' ∙ same), IsKept-trans s r q h k)
IsKept-trans (a ∷ s) (b ∷ r) (e ∷ q) (inr slash, h) (inl same', k) =
    (inr (same' ∙ slash), IsKept-trans s r q h k)
IsKept-trans (a ∷ s) (b ∷ r) (e ∷ q) (first_same, h) (inr slash, k) =
    (inr slash, IsKept-trans s r q h k)

IsKept-slashes :
    (w s : Bytes) → str_startswith w s ≡ true → IsKept s (slashes (length w) ++ drop (length w) s)
unfolding str_startswith
IsKept-slashes [] s starts = IsKept-refl s
IsKept-slashes (d ∷ w) [] starts = absurd (cc)
IsKept-slashes (d ∷ w) (e ∷ s) starts = (inr refl, IsKept-slashes w s (ground arith))

-- A server's path that begins with one slash and does not end with one, and as many slashes.
module _ (c : ℕ) (tail : Bytes) (one_slash : c ≢ b'/')
    (no_slash : last_byte (c ∷ tail) ≢ b'/') where
  abbrev path : Bytes
  path = b'/' ∷ c ∷ tail

  abbrev blank : Bytes
  blank = slashes (length path)

  loop : ℕ → Bytes → Bytes
  unfolding replace_loop
  loop n s = replace_loop path blank n s

  loop-match :
      (n : ℕ) (s : Bytes)
      → str_startswith path s ≡ true
      → loop (suc n) s ≡ b'/' ∷ loop n (slashes (suc (length tail)) ++ drop (length path) s)
  unfolding loop
  loop-match n s h = rw h refl

  loop-other :
      (n d : ℕ) (s : Bytes)
      → str_startswith path (d ∷ s) ≡ false
      → loop (suc n) (d ∷ s) ≡ d ∷ loop n s
  unfolding loop
  loop-other n d s h = rw h refl

  loop-zero : (s : Bytes) → loop zero s ≡ s
  unfolding loop
  loop-zero s = refl

  loop-nil : (n : ℕ) → loop n [] ≡ []
  unfolding loop str_startswith
  loop-nil zero = refl
  loop-nil (suc n) = loop-nil n

  two_slashes : (k : ℕ) (s : Bytes) → Slashed (suc (suc k)) s → str_startswith path s ≡ false
  unfolding str_startswith
  two_slashes k [] slashed = absurd slashed
  two_slashes k (d ∷ []) slashed = absurd slashed.1
  two_slashes k (d ∷ e ∷ s) slashed = ground (arith, ==_iff c e)

  -- Slashes stay.
  Slashed-loop : (n k : ℕ) (s : Bytes) → Slashed k s → Slashed k (loop n s)
  unfolding loop
  Slashed-loop zero k s slashed = slashed
  Slashed-loop (suc n) zero s slashed = tt
  Slashed-loop (suc n) (suc k) [] slashed = absurd slashed
  Slashed-loop (suc n) (suc zero) (d ∷ s) slashed =
      elim (Bool-cases (str_startswith path (d ∷ s))) [
        | inl h ↦ rw (loop-match n (d ∷ s) h) (refl, tt)
        | inr h ↦ rw (loop-other n d s h) (slashed.0, tt)
      ]
  Slashed-loop (suc n) (suc (suc k)) (d ∷ s) slashed =
      rw (loop-other n d s (two_slashes k (d ∷ s) slashed))
        (slashed.0, Slashed-loop n (suc k) s slashed.1)

  -- No end of the path is made by the slashes.
  starts-loop :
      (w : Bytes) (n : ℕ) (s : Bytes)
      → length w ≤ suc (length tail)
      → (w ≢ [] → last_byte w ≢ b'/')
      → str_startswith w (loop n s) ≡ true
      → str_startswith w s ≡ true
  unfolding str_startswith
  starts-loop [] n s fits ends starts = refl
  starts-loop (d ∷ w) zero s fits ends starts =
      subst (λ t. str_startswith (d ∷ w) t ≡ true) (loop-zero s) starts
  starts-loop (d ∷ w) (suc n) [] fits ends starts =
      subst (λ t. str_startswith (d ∷ w) t ≡ true) (loop-nil (suc n)) starts
  starts-loop (d ∷ w) (suc n) (e ∷ s) fits ends starts =
      elim (Bool-cases (str_startswith path (e ∷ s))) [
        | inl h ↦
            let behind = slashes (suc (length tail)) ++ drop (length path) (e ∷ s) in
            let slashed : Slashed (suc (suc (length tail))) (b'/' ∷ loop n behind) = (
              refl,
              Slashed-loop n (suc (length tail)) behind (Slashed-slashes (suc (length tail)) _),
            ) in
            let starts' : str_startswith (d ∷ w) (b'/' ∷ loop n behind) ≡ true =
              subst (λ t. str_startswith (d ∷ w) t ≡ true) (loop-match n (e ∷ s) h) starts in
            absurd (
              ends (cc) (
                Slashed-last_byte (suc (suc (length tail))) d w (b'/' ∷ loop n behind) slashed
                  (omega arith) starts'))
        | inr h ↦
            let starts' : str_startswith (d ∷ w) (e ∷ loop n s) ≡ true =
              subst (λ t. str_startswith (d ∷ w) t ≡ true) (loop-other n e s h) starts in
            let below : str_startswith w (loop n s) ≡ true = ground arith in
            let ends' : w ≢ [] → last_byte w ≢ b'/' =
              λ ne at_end. ends (cc) (last_byte-cons d w ne ∙ at_end) in
            let same = starts-loop w n s (omega arith) ends' below in ground arith
      ]

  not_made :
      (n d : ℕ) (s : Bytes)
      → str_startswith path (d ∷ s) ≡ false
      → str_startswith path (d ∷ loop n s) ≡ false
  unfolding str_startswith
  not_made n d s h = elim (Bool-cases (str_startswith (c ∷ tail) (loop n s))) [
    | inl made ↦
        let same = starts-loop (c ∷ tail) n s (omega arith) (λ _. no_slash) made in ground arith
    | inr other ↦ ground arith
  ]

  -- The server's path begins at none of the places that the loop has been at.
  no_path : (n i : ℕ) (s : Bytes) → i < n → str_startswith path (drop i (loop n s)) ≡ false
  unfolding str_startswith
  no_path zero i s small = absurd (omega arith)
  no_path (suc n) i [] small = rw (loop-nil (suc n)) (rw (drop-nil i) refl)
  no_path (suc n) zero (d ∷ s) small = elim (Bool-cases (str_startswith path (d ∷ s))) [
    | inl h ↦ rw (loop-match n (d ∷ s) h) (
        two_slashes (length tail)
          (b'/' ∷ loop n (slashes (suc (length tail)) ++ drop (length path) (d ∷ s)))
          (refl, Slashed-loop n (suc (length tail)) _ (Slashed-slashes (suc (length tail)) _)))
    | inr h ↦ rw (loop-other n d s h) (not_made n d s h)
  ]
  no_path (suc n) (suc i) (d ∷ s) small = elim (Bool-cases (str_startswith path (d ∷ s))) [
    | inl h ↦
        rw (loop-match n (d ∷ s) h)
          (no_path n i (slashes (suc (length tail)) ++ drop (length path) (d ∷ s)) (omega arith))
    | inr h ↦ rw (loop-other n d s h) (no_path n i s (omega arith))
  ]

  IsKept-loop : (n : ℕ) (s : Bytes) → IsKept s (loop n s)
  IsKept-loop zero s = rw (loop-zero s) (IsKept-refl s)
  IsKept-loop (suc n) [] = rw (loop-nil (suc n)) tt
  IsKept-loop (suc n) (d ∷ s) = elim (Bool-cases (str_startswith path (d ∷ s))) [
    | inl h ↦
        let behind = slashes (suc (length tail)) ++ drop (length path) (d ∷ s) in
        rw (loop-match n (d ∷ s) h) (
          IsKept-trans (d ∷ s) (b'/' ∷ behind) (b'/' ∷ loop n behind)
            (IsKept-slashes path (d ∷ s) h) (inl refl, IsKept-loop n behind))
    | inr h ↦ rw (loop-other n d s h) (inl refl, IsKept-loop n s)
  ]

  -- With a server's path of one slash, another byte and more, not ending with a slash, and as many
  -- slashes for it, replace_string keeps the bytes of the section but for slashes, and leaves the path
  -- at no place, but perhaps at the last two at which it fits the section.
  pub replace_string-path :
      (s : Bytes)
      → IsKept s (replace_string path blank s)
        × ((i : ℕ)
            → i + suc (length path) < length s
            → str_startswith path (drop i (replace_string path blank s)) ≡ false)
  unfolding replace_string loop
  replace_string-path s = elim (Bool-cases (ltb (length s) (length path + 1))) [
    | inl short ↦ rw short (IsKept-refl s, λ i small. absurd (ground arith))
    | inr long ↦ rw long (
      IsKept-loop (length s - length path - 1) s,
      λ i small. no_path (length s - length path - 1) i s (omega arith),
    )
  ]

-- With no earlier occurrence, the loop changes nothing.
replace_loop-same :
    (needle replace : Bytes) (n : ℕ) (s : Bytes)
    → ((i : ℕ) → i < n → str_startswith needle (drop i s) ≡ false)
    → replace_loop needle replace n s ≡ s
unfolding replace_loop
replace_loop-same needle replace zero s free = refl
replace_loop-same needle replace (suc n) [] free =
    let here = free 0 (omega arith) in
    rw here (replace_loop-same needle replace n [] (λ i small. rw (drop-nil i) here))
replace_loop-same needle replace (suc n) (d ∷ s) free =
    let here = free 0 (omega arith) in
    rw here (
      ap (λ (t : Bytes). d ∷ t)
        (replace_loop-same needle replace n s (λ i small. free (suc i) (omega arith))))

-- A path that ends the section, with its NUL, is left as it is.
replace_string-last :
    (needle replace before : Bytes)
    → ((i : ℕ)
        → i < length before
        → str_startswith needle (drop i (before ++ (needle ++ (0 ∷ [])))) ≡ false)
    → replace_string needle replace (before ++ (needle ++ (0 ∷ [])))
      ≡ before ++ (needle ++ (0 ∷ []))
unfolding replace_string
replace_string-last needle replace before free =
    let size : length (before ++ (needle ++ (0 ∷ []))) ≡ length before + (length needle + 1) =
      omega
        (arith, length-append {0} before (needle ++ (0 ∷ [])), length-append {0} needle (0 ∷ [])) in
    let long : ltb (length (before ++ (needle ++ (0 ∷ [])))) (length needle + 1) ≡ false =
      ground arith in
    let rounds : length (before ++ (needle ++ (0 ∷ []))) - length needle - 1 ≡ length before =
      omega arith in
    rw (long, rounds)
      (replace_loop-same needle replace (length before) (before ++ (needle ++ (0 ∷ []))) free)
