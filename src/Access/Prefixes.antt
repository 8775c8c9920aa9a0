-- ===== src/Access/Prefixes.antt =====
-- What a HOST/BITS of src/access.c lets in, in terms of the bits of the addresses.
use Prim.Native.Nat.{bit_and}
use distcc.Prelude.{
  ℕ, zero, suc, ◌-◌, ◌^◌, ◌≤◌, ◌<◌, ◌≡◌, ◌↔◌, inl, inr, true, Bool-cases, List, [], ◌∷◌, ◌++◌, ltb,
  ==_iff, all, take, length, refl, arith,
}
use distcc.Prelude.Bytes.{Bytes}
use distcc.Access.{compare_address}
use distcc.Access.Masks.{prefix_mask, bits, masked_iff}

abbrev pub IsAddress : ℕ → Bytes → Type 0
IsAddress len s = (length s ≡ len) × (all (λ c. ltb c 256) s ≡ true)

abbrev pub address_bits : Bytes → List ℕ
address_bits [] = []
address_bits (c ∷ s) = bits c ++ address_bits s

take-append_iff :
    (k : ℕ) (xs ys ps qs : List ℕ)
    → length xs ≡ length ys
    → (take k (xs ++ ps) ≡ take k (ys ++ qs))
      ↔ ((take k xs ≡ take k ys) × (take (k - length xs) ps ≡ take (k - length xs) qs))
take-append_iff zero xs ys ps qs same = ground arith
take-append_iff (suc k) [] [] ps qs same = ground arith
take-append_iff (suc k) (x ∷ xs) (y ∷ ys) ps qs same =
    ground (arith, take-append_iff k xs ys ps qs (omega arith))
take-append_iff (suc k) _ _ ps qs same = absurd (omega arith)

bits-append_iff :
    (k c v : ℕ) (ps qs : List ℕ)
    → (take k (bits c ++ ps) ≡ take k (bits v ++ qs))
      ↔ ((take k (bits c) ≡ take k (bits v)) × (take (k - 8) ps ≡ take (k - 8) qs))
unfolding bits
bits-append_iff k c v ps qs = take-append_iff k (bits c) (bits v) ps qs refl

take-nil : (k : ℕ) → take {A = ℕ} k [] ≡ []
take-nil zero = refl
take-nil (suc k) = refl

take-bits : (k c : ℕ) → 8 ≤ k → take k (bits c) ≡ take 8 (bits c)
unfolding bits
take-bits (suc (suc (suc (suc (suc (suc (suc (suc k)))))))) c long = rw (take-nil k) refl
take-bits _ c long = absurd (omega arith)

byte_iff :
    (k c v : ℕ)
    → c < 256
    → v < 256
    → (bit_and c (256 - 2 ^ (8 - k)) ≡ bit_and v (256 - 2 ^ (8 - k)))
      ↔ (take k (bits c) ≡ take k (bits v))
byte_iff k c v c_byte v_byte = elim (Bool-cases (ltb k 9)) [
  | inl short ↦ masked_iff k c v (ground arith) c_byte v_byte
  | inr long ↦
      let none_left : 8 - k ≡ 0 = ground arith in
      let k_long : 8 ≤ k = ground arith in
      rw (none_left, take-bits k c k_long, take-bits k v k_long)
        (masked_iff 8 c v (omega arith) c_byte v_byte)
]

-- The test of a client's address under the mask of k bits.
pub compare_address_iff :
    (len k : ℕ) (client value : Bytes)
    → IsAddress len client
    → IsAddress len value
    → (compare_address client value (prefix_mask len k) ≡ true)
      ↔ (take k (address_bits client) ≡ take k (address_bits value))
unfolding compare_address prefix_mask
compare_address_iff zero k [] [] cs vs = ground arith
compare_address_iff (suc len) k (c ∷ client) (v ∷ value) cs vs =
    let byte = byte_iff k c v (ground arith) (ground arith) in
    let test = ==_iff (bit_and c (256 - 2 ^ (8 - k))) (bit_and v (256 - 2 ^ (8 - k))) in
    let split = bits-append_iff k c v (address_bits client) (address_bits value) in
    let rest = compare_address_iff len (k - 8) client value (ground arith) (ground arith) in
    ground (arith, byte, test, split, rest)
compare_address_iff _ k _ _ cs vs = absurd (omega arith)
