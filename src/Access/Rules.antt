-- ===== src/Access/Rules.antt =====
-- The rules that the texts HOST and HOST/BITS stand for.
use distcc.Prelude.{
  ℕ, ◌≤◌, ◌<◌, ◌≡◌, ◌↔◌, ◌⊎◌, inl, inr, false, Bool-cases, Option, none, some, [], ◌∷◌, ◌++◌, ltb,
  ◌==◌, ==_iff, refl, ap, sym, ◌∙◌, arith,
}
use distcc.Prelude.Bytes.{Bytes, codes, contains}
use distcc.ExitCode.{ok, ok_inj, >>=-returns}
use distcc.Hosts.{until}
use distcc.Hosts.Numbers.{ℤ, pos, negsuc, atoi}
use distcc.Access.{
  Address, inet, inet6, Looked, failed, other_family, found, bits_of, split_mask, set_allones,
  set_mask, mask_max_bits, mask_with, mask_of, looked_mask, parse_mask,
}
use distcc.Access.Masks.{prefix_mask, set_mask_inet_lem, set_mask_inet6_lem}

-- The mask of so many ones, in the family of the address.
abbrev pub mask_like : Address → ℕ → Address
mask_like (inet value) n = inet (prefix_mask 4 n)
mask_like (inet6 value) n = inet6 (prefix_mask 16 n)

-- What a text says: the bits after the slash, or all of them where there is no slash or nothing
-- follows it.
pub data IsRule (getaddrinfo : Bytes → Looked) : Bytes → Address → ℕ → Type 0 where
  whole :
      (host : Bytes) (value : Address)
      → contains b'/' host ≡ false
      → getaddrinfo host ≡ found value
      → IsRule getaddrinfo host value (mask_max_bits value)
  slash :
      (host : Bytes) (value : Address)
      → contains b'/' host ≡ false
      → getaddrinfo host ≡ found value
      → IsRule getaddrinfo (host ++ (b'/' ∷ [])) value (mask_max_bits value)
  masked :
      (host : Bytes) (value : Address) (c : ℕ) (text : Bytes) (n : ℕ)
      → contains b'/' host ≡ false
      → getaddrinfo host ≡ found value
      → atoi (c ∷ text) ≡ ok (pos n)
      → n ≤ mask_max_bits value
      → IsRule getaddrinfo (host ++ (b'/' ∷ (c ∷ text))) value n

set_mask_lem :
    (value : Address) (n : ℕ) → n < mask_max_bits value → set_mask value n ≡ mask_like value n
set_mask_lem (inet value) n less = ap inet (set_mask_inet_lem n less)
set_mask_lem (inet6 value) n less = ap inet6 (set_mask_inet6_lem n less)

set_allones_lem : (value : Address) → set_allones value ≡ mask_like value (mask_max_bits value)
unfolding prefix_mask
set_allones_lem (inet value) = refl
set_allones_lem (inet6 value) = refl

mask_with_lem :
    (value : Address) (n : ℕ)
    → n ≤ mask_max_bits value
    → mask_with value (pos n) ≡ ok (mask_like value n)
unfolding mask_with
mask_with_lem value n small = elim (Bool-cases (n == mask_max_bits value)) [
  | inl same ↦
      let n_max = (==_iff _ _).0 same in
      let big : ltb (mask_max_bits value) n ≡ false = ground arith in
      rw (big, same, set_allones_lem value) (rw n_max refl)
  | inr other ↦
      let big : ltb (mask_max_bits value) n ≡ false = ground arith in
      rw (big, other, set_mask_lem value n (ground arith)) refl
]

mask_with-ok :
    (value : Address) (read : ℤ) {mask : Address}
    → mask_with value read ≡ ok mask
    → (n : ℕ) × (read ≡ pos n) × (n ≤ mask_max_bits value) × (mask ≡ mask_like value n)
unfolding mask_with
mask_with-ok value (negsuc n) returned = cc
mask_with-ok value (pos n) {mask} returned = elim (Bool-cases (ltb (mask_max_bits value) n)) [
  | inl big ↦ absurd (ground arith)
  | inr small ↦
      let le : n ≤ mask_max_bits value = ground arith in
      (n, refl, le, ok_inj (sym returned ∙ mask_with_lem value n le))
]

-- Splitting at the slash.
until-append :
    (host rest : Bytes)
    → contains b'/' host ≡ false
    → until (codes "/") (host ++ (b'/' ∷ rest)) ≡ (host, b'/' ∷ rest)
unfolding until contains
until-append [] rest no_slash = refl
until-append (c ∷ host) rest no_slash = ground (arith, until-append host rest)

until-all : (host : Bytes) → contains b'/' host ≡ false → until (codes "/") host ≡ (host, [])
unfolding until contains
until-all [] no_slash = refl
until-all (c ∷ host) no_slash = ground (arith, until-all host)

slash-cases :
    (spec : Bytes)
    → (contains b'/' spec ≡ false)
      ⊎ ((host : Bytes) × (rest : Bytes) × (contains b'/' host ≡ false)
          × (spec ≡ host ++ (b'/' ∷ rest)))
unfolding contains
slash-cases [] = inl refl
slash-cases (c ∷ spec) = elim (Bool-cases (c == b'/')) [
  | inl here ↦ inr ([], spec, refl, ap (λ (x : ℕ). x ∷ spec) ((==_iff _ _).0 here))
  | inr other ↦ elim (slash-cases spec) [
    | inl no_slash ↦ inl (ground arith)
    | inr (host, rest, no_slash, same) ↦
        inr (c ∷ host, rest, ground arith, ap (λ (s : Bytes). c ∷ s) same)
  ]
]

-- A mask of n bits behind the address, which the lookup has found.
mask_of-whole : (value : Address) → mask_of value none ≡ ok (mask_like value (mask_max_bits value))
unfolding mask_of
mask_of-whole value = rw (set_allones_lem value) refl

mask_of-bits :
    (value : Address) (c : ℕ) (text : Bytes) (n : ℕ)
    → atoi (c ∷ text) ≡ ok (pos n)
    → n ≤ mask_max_bits value
    → mask_of value (some (c ∷ text)) ≡ ok (mask_like value n)
unfolding mask_of
mask_of-bits value c text n reads small = rw reads (mask_with_lem value n small)

mask_of-ok :
    (value : Address) (c : ℕ) (text : Bytes) {mask : Address}
    → mask_of value (some (c ∷ text)) ≡ ok mask
    → (n : ℕ) × (atoi (c ∷ text) ≡ ok (pos n))
      × (n ≤ mask_max_bits value)
      × (mask ≡ mask_like value n)
unfolding mask_of
mask_of-ok value c text returned =
    let (read, reads, has) = >>=-returns (atoi (c ∷ text)) (mask_with value) returned in
    let (n, is_pos, small, same) = mask_with-ok value read has in
    (n, rw (← is_pos) reads, small, same)

split_mask-whole : (host : Bytes) → contains b'/' host ≡ false → split_mask host ≡ (host, none)
unfolding split_mask bits_of
split_mask-whole host no_slash = rw (until-all host no_slash) refl

split_mask-slash :
    (host rest : Bytes)
    → contains b'/' host ≡ false
    → split_mask (host ++ (b'/' ∷ rest)) ≡ (host, bits_of (b'/' ∷ rest))
unfolding split_mask
split_mask-slash host rest no_slash = rw (until-append host rest no_slash) refl

looked_mask-ok :
    (looked : Looked) (mask_str : Option Bytes) {value mask : Address}
    → looked_mask looked mask_str ≡ ok (value, mask)
    → (looked ≡ found value) × (mask_of value mask_str ≡ ok mask)
unfolding looked_mask
looked_mask-ok failed mask_str returned = cc
looked_mask-ok other_family mask_str returned = cc
looked_mask-ok (found v) mask_str returned =
    let (m, has, same) = >>=-returns (mask_of v mask_str) (λ mask. ok (v, mask)) returned in
    let pairs = ok_inj same in
    let v_value = ap (λ (p : Address × Address). p.0) pairs in
    let m_mask = ap (λ (p : Address × Address). p.1) pairs in
    (ap found v_value, rw (← v_value, ← m_mask) has)

module _ (getaddrinfo : Bytes → Looked) where
  pub parse_mask-IsRule :
      (spec : Bytes) (value : Address) (n : ℕ)
      → IsRule getaddrinfo spec value n
      → parse_mask getaddrinfo spec ≡ ok (value, mask_like value n)
  unfolding parse_mask looked_mask bits_of
  parse_mask-IsRule _ _ _ (whole host value no_slash looked) =
      rw (split_mask-whole host no_slash, looked, mask_of-whole value) refl
  parse_mask-IsRule _ _ _ (slash host value no_slash looked) =
      rw (split_mask-slash host [] no_slash, looked, mask_of-whole value) refl
  parse_mask-IsRule _ _ _ (masked host value c text n no_slash looked reads small) =
      rw
        (split_mask-slash host (c ∷ text) no_slash, looked, mask_of-bits value c text n reads small)
        refl

  behind_slash :
      (host rest : Bytes) (value mask : Address)
      → contains b'/' host ≡ false
      → parse_mask getaddrinfo (host ++ (b'/' ∷ rest)) ≡ ok (value, mask)
      → (n : ℕ) × IsRule getaddrinfo (host ++ (b'/' ∷ rest)) value n × (mask ≡ mask_like value n)
  unfolding parse_mask bits_of
  behind_slash host [] value mask no_slash returned =
      let (looked, has) =
        looked_mask-ok (getaddrinfo host) none
          (rw (split_mask-slash host [] no_slash) at returned) in
      (
        mask_max_bits value,
        slash host value no_slash looked,
        ok_inj (sym has ∙ mask_of-whole value),
      )
  behind_slash host (c ∷ text) value mask no_slash returned =
      let (looked, has) =
        looked_mask-ok (getaddrinfo host) (some (c ∷ text))
          (rw (split_mask-slash host (c ∷ text) no_slash) at returned) in
      let (n, reads, small, same) = mask_of-ok value c text has in
      (n, masked host value c text n no_slash looked reads small, same)

  pub parse_mask-ok :
      (spec : Bytes) (value mask : Address)
      → parse_mask getaddrinfo spec ≡ ok (value, mask)
      → (n : ℕ) × IsRule getaddrinfo spec value n × (mask ≡ mask_like value n)
  unfolding parse_mask
  parse_mask-ok spec value mask returned = elim (slash-cases spec) [
    | inl no_slash ↦
        let (looked, has) =
          looked_mask-ok (getaddrinfo spec) none
            (rw (split_mask-whole spec no_slash) at returned) in
        (
          mask_max_bits value,
          whole spec value no_slash looked,
          ok_inj (sym has ∙ mask_of-whole value),
        )
    | inr (host, rest, no_slash, same) ↦
        rw same (behind_slash host rest value mask no_slash (rw same at returned))
  ]

  -- dcc_parse_mask takes exactly the texts of the rules, with the address and the mask of the rule.
  pub parse_mask_iff :
      (spec : Bytes) (value mask : Address)
      → (parse_mask getaddrinfo spec ≡ ok (value, mask))
        ↔ ((n : ℕ) × IsRule getaddrinfo spec value n × (mask ≡ mask_like value n))
  parse_mask_iff spec value mask = (
    parse_mask-ok spec value mask,
    λ rule. rw rule.2 (parse_mask-IsRule spec value rule.0 rule.1),
  )
