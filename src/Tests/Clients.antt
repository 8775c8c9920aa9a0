-- ===== src/Tests/Clients.antt =====
-- The access list of src/access.c.
use distcc.Prelude.{
  ℕ, ◌≡◌, ◌↔◌, refl, Bool, true, false, ◌&&◌, ◌==◌, Option, none, some, List, [], ◌∷◌, ◌++◌, take,
  arith, ltb, leb, if◌then◌else◌, all, length, inl, inr,
}
use distcc.Prelude.Bytes.{Bytes, codes, str_equal}
use distcc.ExitCode.{Result, ok, err, access_denied}
use distcc.Hosts.Numbers.{pos}
use distcc.Access.{Address, Client, Looked, failed, found, parse_mask, check_address}
use distcc.Access.Rules.{IsRule, mask_like, parse_mask_iff}
use distcc.Access.Clients.{Allowed, allow_options, check_client}
use distcc.Access.Clients.Admitted.{AnyAdmits, IsValue, check_client_iff}

abbrev lan : Bytes
lan = 10 ∷ 1 ∷ 0 ∷ 0 ∷ []

-- A lookup that knows two hosts.
abbrev two_known : Bytes → Looked
two_known host =
    if str_equal host (codes "10.1.0.0")
    then found (Address.inet lan)
    else if str_equal host (codes "127.0.0.1")
    then found (Address.inet (127 ∷ 0 ∷ 0 ∷ 1 ∷ []))
    else failed

abbrev allowed_two : Allowed
allowed_two =
    (Address.inet (127 ∷ 0 ∷ 0 ∷ 1 ∷ []), Address.inet (255 ∷ 255 ∷ 255 ∷ 255 ∷ []))
    ∷ (Address.inet lan, Address.inet (255 ∷ 255 ∷ 128 ∷ 0 ∷ []))
    ∷ []

abbrev not_v4 : Bytes → Bool
not_v4 a6 = false

abbrev print_address : Option Client → Result Bytes
print_address client = ok (codes "client")

known-IsValue : (v value : Address) → IsValue v → found v ≡ found value → IsValue value
known-IsValue v value valid looked = let same : v ≡ value = cc in rw (← same) valid

choice-IsValue :
    (first second : Bool) (value : Address)
    → (if first
        then found (Address.inet lan)
        else if second
        then found (Address.inet (127 ∷ 0 ∷ 0 ∷ 1 ∷ []))
        else failed)
      ≡ found value
    → IsValue value
choice-IsValue true second value looked = known-IsValue (Address.inet lan) value (refl, refl) looked
choice-IsValue false true value looked =
    known-IsValue (Address.inet (127 ∷ 0 ∷ 0 ∷ 1 ∷ [])) value (refl, refl) looked
choice-IsValue false false value looked = cc

two_known-IsValue : (host : Bytes) (value : Address) → two_known host ≡ found value → IsValue value
two_known-IsValue host value looked =
    choice-IsValue (str_equal host (codes "10.1.0.0")) (str_equal host (codes "127.0.0.1")) value
      looked

allowed_two_made :
    allow_options two_known (codes "10.1.0.0/17" ∷ codes "127.0.0.1" ∷ []) [] ≡ ok allowed_two
unfolding allow_options parse_mask distcc.Access.split_mask distcc.Access.mask_of
    distcc.Access.set_mask_inet distcc.Access.htonl distcc.Hosts.until
    distcc.Hosts.Numbers.take_decimal distcc.Hosts.Numbers.number_at distcc.Hosts.Numbers.atoi
    distcc.Prelude.Bytes.str_equal distcc.Prelude.Bytes.contains distcc.Prelude.Bytes.isspace
    distcc.Prelude.Bytes.skip_space
allowed_two_made = refl

check_client_iff_example :
    (check_client true not_v4 not_v4 print_address
        (some (Client.inet (10 ∷ 1 ∷ 127 ∷ 9 ∷ [])))
        allowed_two
      ≡ ok tt)
    ↔ AnyAdmits true not_v4 not_v4 two_known
        (Client.inet (10 ∷ 1 ∷ 127 ∷ 9 ∷ []))
        (codes "10.1.0.0/17" ∷ codes "127.0.0.1" ∷ [])
check_client_iff_example =
    check_client_iff true not_v4 not_v4 two_known two_known-IsValue print_address
      (Client.inet (10 ∷ 1 ∷ 127 ∷ 9 ∷ [])) (codes "client") (codes "10.1.0.0/17")
      (codes "127.0.0.1" ∷ []) allowed_two (refl, refl) refl allowed_two_made

check_client_runs :
    (check_client true not_v4 not_v4 print_address
        (some (Client.inet (10 ∷ 1 ∷ 127 ∷ 9 ∷ [])))
        allowed_two
      ≡ ok tt)
    × (check_client true not_v4 not_v4 print_address
          (some (Client.inet (10 ∷ 1 ∷ 128 ∷ 9 ∷ [])))
          allowed_two
        ≡ err access_denied)
    × (check_client true not_v4 not_v4 print_address none allowed_two ≡ ok tt)
unfolding check_client distcc.Access.Clients.check_entries check_address
    distcc.Access.compare_address
check_client_runs = (refl, refl, refl)

parse_mask_iff_example :
    (parse_mask two_known (codes "10.1.0.0/17")
      ≡ ok (Address.inet lan, Address.inet (255 ∷ 255 ∷ 128 ∷ 0 ∷ [])))
    ↔ ((n : ℕ) × IsRule two_known (codes "10.1.0.0/17") (Address.inet lan) n
        × (Address.inet (255 ∷ 255 ∷ 128 ∷ 0 ∷ []) ≡ mask_like (Address.inet lan) n))
parse_mask_iff_example =
    parse_mask_iff two_known (codes "10.1.0.0/17") (Address.inet lan)
      (Address.inet (255 ∷ 255 ∷ 128 ∷ 0 ∷ []))

abbrev front : Bytes
front = 0 ∷ 0 ∷ 0 ∷ 0 ∷ 0 ∷ 0 ∷ 0 ∷ 0 ∷ 0 ∷ 0 ∷ 255 ∷ 255 ∷ []

abbrev mapped_front : Bytes → Bool
mapped_front a6 = str_equal (take 12 a6) front
