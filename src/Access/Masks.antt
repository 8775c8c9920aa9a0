-- ===== src/Access/Masks.antt =====
-- The masks of src/access.c, as prefixes of ones, and the bits of a byte behind a mask.
use Prim.Native.Nat.{bit_and}
use distcc.Prelude.{
  ℕ, zero, suc, ◌+◌, ◌-◌, ◌*◌, ◌/◌, ◌%◌, ◌^◌, ◌<◌, ◌≡◌, ◌↔◌, Bool, true, ◌&&◌, List, [], ◌∷◌, ◌==◌,
  ==_iff, take, refl, ap, sym, ◌∙◌, arith,
}
use distcc.Prelude.Bytes.{Bytes, str_equal, str_equal_iff}
use distcc.Access.{set_mask_inet, set_mask_inet6}

-- The test holds of every number below the bound.
all_below : ℕ → (ℕ → Bool) → Bool
all_below zero test = true
all_below (suc n) test = test n && all_below n test

all_below_sound :
    (n : ℕ) (test : ℕ → Bool) (x : ℕ) → all_below n test ≡ true → x < n → test x ≡ true
unfolding all_below
all_below_sound zero test x holds less = absurd (omega arith)
all_below_sound (suc n) test x holds less = ground (arith, all_below_sound n test x)

-- The first k bits of the bytes are ones, the others zeros.
unfoldable pub prefix_mask : ℕ → ℕ → Bytes
prefix_mask zero k = []
prefix_mask (suc len) k = (256 - 2 ^ (8 - k)) ∷ prefix_mask len (k - 8)

inet_table : all_below 32 (λ k. str_equal (set_mask_inet k) (prefix_mask 4 k)) ≡ true
unfolding all_below set_mask_inet distcc.Access.htonl prefix_mask str_equal
inet_table = refl

inet6_table : all_below 128 (λ k. str_equal (set_mask_inet6 k) (prefix_mask 16 k)) ≡ true
unfolding all_below set_mask_inet6 prefix_mask str_equal
inet6_table = refl

pub set_mask_inet_lem : (k : ℕ) → k < 32 → set_mask_inet k ≡ prefix_mask 4 k
set_mask_inet_lem k less = (str_equal_iff _ _).0 (all_below_sound 32 _ k inet_table less)

pub set_mask_inet6_lem : (k : ℕ) → k < 128 → set_mask_inet6 k ≡ prefix_mask 16 k
set_mask_inet6_lem k less = (str_equal_iff _ _).0 (all_below_sound 128 _ k inet6_table less)

-- The bits of a byte, the highest first.
unfoldable pub bits : ℕ → List ℕ
bits c =
    c / 128 % 2
    ∷ c / 64 % 2
    ∷ c / 32 % 2
    ∷ c / 16 % 2
    ∷ c / 8 % 2
    ∷ c / 4 % 2
    ∷ c / 2 % 2
    ∷ c % 2
    ∷ []

from_bits : ℕ → List ℕ → ℕ
from_bits weight [] = 0
from_bits weight (b ∷ bs) = b * weight + from_bits (weight / 2) bs

abbrev masked : ℕ → ℕ → ℕ
masked k c = bit_and c (256 - 2 ^ (8 - k))

read_table :
    all_below 9 (λ k. all_below 256 (λ c. masked k c == from_bits 128 (take k (bits c)))) ≡ true
unfolding all_below bits from_bits
read_table = refl

kept_table :
    all_below 9 (λ k. all_below 256 (λ c. str_equal (take k (bits c)) (take k (bits (masked k c)))))
    ≡ true
unfolding all_below bits str_equal
kept_table = refl

masked_read : (k x : ℕ) → k < 9 → x < 256 → masked k x ≡ from_bits 128 (take k (bits x))
masked_read k x small byte =
    (==_iff _ _).0 (all_below_sound 256 _ x (all_below_sound 9 _ k read_table small) byte)

bits_kept : (k x : ℕ) → k < 9 → x < 256 → take k (bits x) ≡ take k (bits (masked k x))
bits_kept k x small byte =
    (str_equal_iff _ _).0 (all_below_sound 256 _ x (all_below_sound 9 _ k kept_table small) byte)

-- Two bytes are equal behind the mask of k ones exactly where their first k bits are.
pub masked_iff :
    (k c v : ℕ)
    → k < 9
    → c < 256
    → v < 256
    → (masked k c ≡ masked k v) ↔ (take k (bits c) ≡ take k (bits v))
masked_iff k c v small c_byte v_byte = (
  λ same.
      bits_kept k c small c_byte
      ∙ (ap (λ (x : ℕ). take k (bits x)) same ∙ sym (bits_kept k v small v_byte)),
  λ same.
      masked_read k c small c_byte ∙ (ap (from_bits 128) same ∙ sym (masked_read k v small v_byte)),
)
