-- ===== src/Access.antt =====
-- src/access.c in a build with ENABLE_RFC2553: address masks, and the test of a client's address.
-- An address is its bytes in the order of the network. The lookup of a numeric host, the macros on v6
-- addresses and the order of a word's bytes in memory are arguments. Allocation succeeds.
pub mod Masks
pub mod Prefixes
pub mod Mapped
pub mod Clients
pub mod Rules
use Prim.Native.Nat.{bit_and}
use distcc.Prelude.{
  ℕ, zero, suc, ◌+◌, ◌-◌, ◌*◌, ◌/◌, ◌%◌, ◌^◌, Bool, true, false, ◌||◌, Option, none, some, List, [],
  ◌∷◌, ◌++◌, ltb, ◌==◌, if◌then◌else◌, drop,
}
use distcc.Prelude.Bytes.{Bytes, codes}
use distcc.ExitCode.{Result, ok, err, exits, undefined, bad_arguments, access_denied, ◌>>=◌}
use distcc.Hosts.{until}
use distcc.Hosts.Numbers.{ℤ, pos, negsuc, atoi}

-- dcc_address_t, and the address of a client.
pub data Address : Type 0 where
  inet inet6 : Bytes → Address

pub data Client : Type 0 where
  inet inet6 : Bytes → Client
  unsupported : Client

-- What getaddrinfo gives for a numeric host.
pub data Looked : Type 0 where
  failed other_family : Looked
  found : Address → Looked

bits_of : Bytes → Option Bytes
bits_of [] = none
bits_of (slash ∷ []) = none
bits_of (slash ∷ b ∷ bits) = some (b ∷ bits)

-- split_mask.
unfoldable pub split_mask : Bytes → Bytes × Option Bytes
unfolding bits_of
split_mask spec = let (host, rest) = until (codes "/") spec in (host, bits_of rest)

abbrev replicate : ℕ → ℕ → Bytes
replicate zero c = []
replicate (suc n) c = c ∷ replicate n c

-- htonl, as bytes.
unfoldable pub htonl : ℕ → Bytes
htonl x = x / 2 ^ 24 % 256 ∷ x / 2 ^ 16 % 256 ∷ x / 2 ^ 8 % 256 ∷ x % 256 ∷ []

-- `~(allones >> mask_bits)`
unfoldable pub set_mask_inet : ℕ → Bytes
unfolding htonl
set_mask_inet mask_bits = htonl (2 ^ 32 - 1 - (2 ^ 32 - 1) / 2 ^ mask_bits)

unfoldable pub set_mask_inet6 : ℕ → Bytes
set_mask_inet6 mask_bits =
    let allones_count = mask_bits / 8 in
    replicate allones_count 255
    ++ ((255 - 255 / 2 ^ (mask_bits % 8)) ∷ replicate (16 - (allones_count + 1)) 0)

abbrev pub set_allones : Address → Address
set_allones (inet value) = inet (replicate 4 255)
set_allones (inet6 value) = inet6 (replicate 16 255)

abbrev pub set_mask : Address → ℕ → Address
set_mask (inet value) mask_bits = inet (set_mask_inet mask_bits)
set_mask (inet6 value) mask_bits = inet6 (set_mask_inet6 mask_bits)

abbrev pub mask_max_bits : Address → ℕ
mask_max_bits (inet value) = 32
mask_max_bits (inet6 value) = 128

mask_with : Address → ℤ → Result Address
mask_with value (negsuc n) = err bad_arguments
mask_with value (pos mask_bits) =
    if ltb (mask_max_bits value) mask_bits
    then err bad_arguments
    else if mask_bits == mask_max_bits value
    then ok (set_allones value)
    else ok (set_mask value mask_bits)

unfoldable pub mask_of : Address → Option Bytes → Result Address
unfolding mask_with
mask_of value none = ok (set_allones value)
mask_of value (some mask_str) = atoi mask_str >>= mask_with value

looked_mask : Looked → Option Bytes → Result (Address × Address)
looked_mask failed mask_str = err bad_arguments
looked_mask other_family mask_str = err bad_arguments
looked_mask (found value) mask_str = mask_of value mask_str >>= λ mask. ok (value, mask)

-- dcc_parse_mask: the value and the mask.
unfoldable pub parse_mask : (Bytes → Looked) → Bytes → Result (Address × Address)
unfolding looked_mask
parse_mask getaddrinfo spec =
    let (value_str, mask_str) = split_mask spec in looked_mask (getaddrinfo value_str) mask_str

-- The masked addresses are equal, byte for byte: compare_address_inet6, and the `&` of two words.
unfoldable pub compare_address : Bytes → Bytes → Bytes → Bool
compare_address (c ∷ client) (v ∷ value) (m ∷ mask) =
    let rest = compare_address client value mask in
    if bit_and c m == bit_and v m then rest else false
compare_address _ _ _ = true

abbrev pub allow : Bool → Result (Unit {0})
allow true = ok tt
allow false = err access_denied

-- inet_from_inet6: the number of the last four bytes.
unfoldable pub inet_from_inet6 : Bytes → ℕ
inet_from_inet6 a6 = elim (drop 12 a6) [
  | a ∷ b ∷ c ∷ d ∷ _ ↦ a * 2 ^ 24 + b * 2 ^ 16 + c * 2 ^ 8 + d
  | _ ↦ 0
]

-- A number as a word in memory: in the order of the network, or the other way round.
unfoldable pub in_memory : Bool → ℕ → Bytes
unfolding htonl
in_memory little x =
    if little then x % 256 ∷ x / 2 ^ 8 % 256 ∷ x / 2 ^ 16 % 256 ∷ x / 2 ^ 24 % 256 ∷ [] else htonl x

module _ (little : Bool) (v4mapped v4compat : Bytes → Bool) where
  -- dcc_check_address.
  unfoldable pub check_address : Client → Address → Address → Result (Unit {0})
  check_address (Client.inet client) (Address.inet value) (Address.inet mask) =
      allow (compare_address client value mask)
  check_address (Client.inet6 client) (Address.inet value) (Address.inet mask) =
      if v4mapped client || v4compat client
      then allow (compare_address (in_memory little (inet_from_inet6 client)) value mask)
      else err access_denied
  check_address (Client.inet6 client) (Address.inet6 value) (Address.inet6 mask) =
      allow (compare_address client value mask)
  check_address _ _ _ = err access_denied
