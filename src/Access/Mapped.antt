-- ===== src/Access/Mapped.antt =====
-- The v6 clients that src/access.c compares with v4 addresses.
use distcc.Prelude.{
  ℕ, ◌+◌, ◌*◌, ◌/◌, ◌%◌, ◌^◌, ◌<◌, ◌≡◌, refl, Bool, true, ◌||◌, [], ◌∷◌, ◌++◌, length, split-append,
  if◌then◌else◌, arith,
}
use distcc.Prelude.Bytes.{Bytes}
use distcc.Access.{Address, Client, check_address, inet_from_inet6, in_memory, htonl}

-- A word of four bytes.
abbrev word : ℕ → ℕ → ℕ → ℕ → ℕ
word a b c d = a * 2 ^ 24 + b * 2 ^ 16 + c * 2 ^ 8 + d

in_memory-word :
    (little : Bool) (a b c d : ℕ)
    → a < 256
    → b < 256
    → c < 256
    → d < 256
    → in_memory little (word a b c d) ≡ (if little then d ∷ c ∷ b ∷ a ∷ [] else a ∷ b ∷ c ∷ d ∷ [])
unfolding in_memory htonl
in_memory-word little a b c d a_byte b_byte c_byte d_byte =
    let first : word a b c d / 2 ^ 24 % 256 ≡ a = omega arith in
    let second : word a b c d / 2 ^ 16 % 256 ≡ b = omega arith in
    let third : word a b c d / 2 ^ 8 % 256 ≡ c = omega arith in
    let fourth : word a b c d % 256 ≡ d = omega arith in rw (first, second, third, fourth) refl

inet_from_inet6-append :
    (front : Bytes) (a b c d : ℕ)
    → length front ≡ 12
    → inet_from_inet6 (front ++ (a ∷ b ∷ c ∷ d ∷ [])) ≡ word a b c d
unfolding inet_from_inet6
inet_from_inet6-append front a b c d twelve =
    rw ((split-append 12 front (a ∷ b ∷ c ∷ d ∷ []) twelve).1, inet_from_inet6) refl

-- dcc_check_address compares a v6 client that is mapped from or compatible with the v4 address
-- a.b.c.d with a v4 entry as it does the v4 client d.c.b.a on a little-endian host, and as the v4
-- client a.b.c.d on a big-endian one.
check_address-mapped :
    (little : Bool) (v4mapped v4compat : Bytes → Bool) (front : Bytes) (a b c d : ℕ)
    (value mask : Bytes)
    → length front ≡ 12
    → a < 256
    → b < 256
    → c < 256
    → d < 256
    → (v4mapped (front ++ (a ∷ b ∷ c ∷ d ∷ [])) || v4compat (front ++ (a ∷ b ∷ c ∷ d ∷ []))) ≡ true
    → check_address little v4mapped v4compat
        (Client.inet6 (front ++ (a ∷ b ∷ c ∷ d ∷ [])))
        (Address.inet value)
        (Address.inet mask)
      ≡ check_address little v4mapped v4compat
          (Client.inet (if little then d ∷ c ∷ b ∷ a ∷ [] else a ∷ b ∷ c ∷ d ∷ []))
          (Address.inet value)
          (Address.inet mask)
unfolding check_address
check_address-mapped little v4mapped v4compat front a b c d value mask twelve a_byte b_byte c_byte
      d_byte holds_v4 =
    rw
      (
        holds_v4,
        inet_from_inet6-append front a b c d twelve,
        in_memory-word little a b c d a_byte b_byte c_byte d_byte,
      )
      refl
