-- ===== src/Access/Clients/Admitted.antt =====
-- Whom the access list of src/srvnet.c lets in, from the texts of the --allow options.
use distcc.Prelude.{
  ℕ, ◌≡◌, ◌↔◌, ◌⊎◌, inl, inr, refl, ap, sym, ◌∙◌, Bool, true, false, ◌||◌, Option, some, List, [],
  ◌∷◌, take, arith, if◌then◌else◌,
}
use distcc.Prelude.Bytes.{Bytes}
use distcc.ExitCode.{Result, ok, err, access_denied, ok_inj, >>=-returns}
use distcc.Access.{
  Address, Client, Looked, found, allow, inet_from_inet6, in_memory, parse_mask, check_address,
  compare_address,
}
use distcc.Access.Prefixes.{IsAddress, address_bits, compare_address_iff}
use distcc.Access.Rules.{IsRule, mask_like, parse_mask-IsRule, parse_mask-ok}
use distcc.Access.Clients.{Allowed, unless_denied, allow_options, check_entries, check_client}

abbrev pub IsValue : Address → Type 0
IsValue (Address.inet value) = IsAddress 4 value
IsValue (Address.inet6 value) = IsAddress 16 value

abbrev IsClient : Client → Type 0
IsClient (Client.inet client) = IsAddress 4 client
IsClient (Client.inet6 client) = IsAddress 16 client
IsClient Client.unsupported = Unit {0}

abbrev SameBits : ℕ → Bytes → Bytes → Type 0
SameBits n client value = take n (address_bits client) ≡ take n (address_bits value)

abbrev IsAnswer : Result (Unit {0}) → Type 0
IsAnswer r = (r ≡ ok tt) ⊎ (r ≡ err access_denied)

allow_iff : (b : Bool) → (allow b ≡ ok tt) ↔ (b ≡ true)
allow_iff true = (λ e. refl, λ e. refl)
allow_iff false = (λ e. cc, λ e. cc)

allow-cases : (b : Bool) → IsAnswer (allow b)
allow-cases true = inl refl
allow-cases false = inr refl

both {ℓ} : {A B C : Type ℓ} → A ↔ B → B ↔ C → A ↔ C
both f g = (λ a. g.0 (f.0 a), λ c. f.1 (g.1 c))

shuffle_iff {ℓ} : {A B C D : Type ℓ} → A ↔ B → (C ⊎ (A ⊎ D)) ↔ ((B ⊎ C) ⊎ D)
shuffle_iff f = (
  λ p. elim p [ inl c ↦ inl (inr c) | inr (inl a) ↦ inl (inl (f.0 a)) | inr (inr d) ↦ inr d ],
  λ p. elim p [ inl (inl b) ↦ inr (inl (f.1 b)) | inl (inr c) ↦ inl c | inr d ↦ inr (inr d) ],
)

drop_none : {A : Type 0} → (A ⊎ ⊥) ↔ A
drop_none = (λ p. elim p [ inl a ↦ a | inr n ↦ absurd n ], λ a. inl a)

guarded_iff :
    (b : Bool) {r : Result (Unit {0})} {P : Type 0}
    → (r ≡ ok tt) ↔ P
    → ((if b then r else err access_denied) ≡ ok tt) ↔ ((b ≡ true) × P)
guarded_iff true f = (λ e. (refl, f.0 e), λ p. f.1 p.1)
guarded_iff false f = (λ e. cc, λ p. cc)

guarded-cases :
    (b : Bool) {r : Result (Unit {0})} → IsAnswer r → IsAnswer (if b then r else err access_denied)
guarded-cases true f = f
guarded-cases false f = inr refl

unless_denied_iff :
    (r : Result (Unit {0})) (next : Result (Unit {0}) → Result (Unit {0})) {P : Type 0}
    → IsAnswer r
    → (next (err access_denied) ≡ ok tt) ↔ P
    → (unless_denied r (next r) ≡ ok tt) ↔ ((r ≡ ok tt) ⊎ P)
unless_denied_iff (ok tt) next answer f = (λ e. inl refl, λ p. refl)
unless_denied_iff (err access_denied) next answer f =
    (λ e. inr (f.0 e), λ p. elim p [ inl e ↦ cc | inr p ↦ f.1 p ])
unless_denied_iff _ next (inl e) f = cc
unless_denied_iff _ next (inr e) f = cc

module _ (little : Bool) (v4mapped v4compat : Bytes → Bool) where
  -- The client is of the family of the address, and the first n bits are the same. A v6 client that
  -- holds a v4 address counts as the word that inet_from_inet6 stores.
  abbrev Admits : Client → Address → ℕ → Type 0
  Admits (Client.inet client) (Address.inet value) n = SameBits n client value
  Admits (Client.inet6 client) (Address.inet6 value) n = SameBits n client value
  Admits (Client.inet6 client) (Address.inet value) n =
      ((v4mapped client || v4compat client) ≡ true)
      × SameBits n (in_memory little (inet_from_inet6 client)) value
  Admits _ _ n = ⊥

  in_memory-IsAddress : (x : ℕ) → IsAddress 4 (in_memory little x)
  unfolding in_memory distcc.Access.htonl
  in_memory-IsAddress x = ground arith

  check_address_iff :
      (client : Client) (value : Address) (n : ℕ)
      → IsClient client
      → IsValue value
      → (check_address little v4mapped v4compat client value (mask_like value n) ≡ ok tt)
        ↔ Admits client value n
  unfolding check_address
  check_address_iff (Client.inet client) (Address.inet value) n c v =
      both (allow_iff _) (compare_address_iff 4 n client value c v)
  check_address_iff (Client.inet6 client) (Address.inet6 value) n c v =
      both (allow_iff _) (compare_address_iff 16 n client value c v)
  check_address_iff (Client.inet6 client) (Address.inet value) n c v =
      guarded_iff (v4mapped client || v4compat client) (
        both (allow_iff _) (
          compare_address_iff 4 n (in_memory little (inet_from_inet6 client)) value
            (in_memory-IsAddress (inet_from_inet6 client)) v))
  check_address_iff _ _ n c v = (λ e. cc, λ e. absurd e)

  check_address-cases :
      (client : Client) (value mask : Address)
      → IsAnswer (check_address little v4mapped v4compat client value mask)
  unfolding check_address
  check_address-cases (Client.inet client) (Address.inet value) (Address.inet mask) = allow-cases _
  check_address-cases (Client.inet6 client) (Address.inet6 value) (Address.inet6 mask) =
      allow-cases _
  check_address-cases (Client.inet6 client) (Address.inet value) (Address.inet mask) =
      guarded-cases (v4mapped client || v4compat client) (allow-cases _)
  check_address-cases _ _ _ = inr refl

  -- The check of some entry of the list returns zero.
  AnyPasses : Client → Allowed → Type 0
  AnyPasses client [] = ⊥
  AnyPasses client ((value, mask) ∷ l) =
      (check_address little v4mapped v4compat client value mask ≡ ok tt) ⊎ AnyPasses client l

  check_entries_iff :
      (client : Client) (l : Allowed)
      → (check_entries little v4mapped v4compat (err access_denied) client l ≡ ok tt)
        ↔ AnyPasses client l
  unfolding check_entries AnyPasses
  check_entries_iff client [] = (λ e. cc, λ e. absurd e)
  check_entries_iff client ((value, mask) ∷ l) =
      unless_denied_iff (check_address little v4mapped v4compat client value mask)
        (λ r. check_entries little v4mapped v4compat r client l)
        (check_address-cases client value mask) (check_entries_iff client l)

  module _ (getaddrinfo : Bytes → Looked) where
    -- Some of the texts is a rule that admits the client.
    pub AnyAdmits : Client → List Bytes → Type 0
    AnyAdmits client [] = ⊥
    AnyAdmits client (spec ∷ specs) =
        ((value : Address) × (n : ℕ) × IsRule getaddrinfo spec value n × Admits client value n)
        ⊎ AnyAdmits client specs

    module _
        (addresses : (host : Bytes) (value : Address)
          → getaddrinfo host ≡ found value
          → IsValue value) where
      rule-IsValue :
          (spec : Bytes) (value : Address) (n : ℕ) → IsRule getaddrinfo spec value n → IsValue value
      rule-IsValue _ _ _ (IsRule.whole host value no_slash looked) = addresses host value looked
      rule-IsValue _ _ _ (IsRule.slash host value no_slash looked) = addresses host value looked
      rule-IsValue _ _ _ (IsRule.masked host value c text n no_slash looked reads small) =
          addresses host value looked

      -- A text that is taken admits the client exactly where the check of its entry passes.
      entry_iff :
          (client : Client)
          → IsClient client
          → (spec : Bytes) (value mask : Address) → parse_mask getaddrinfo spec ≡ ok (value, mask)
          → (check_address little v4mapped v4compat client value mask ≡ ok tt) ↔ (
              (value : Address) × (n : ℕ) × IsRule getaddrinfo spec value n × Admits client value n)
      entry_iff client c spec value mask taken =
          let (n, rule, same) = parse_mask-ok getaddrinfo spec value mask taken in
          (
            λ passes. (
              value,
              n,
              rule,
              (check_address_iff client value n c (rule-IsValue spec value n rule)).0
                  (rw same at passes),
            ),
            λ (v, m, rule, admits).
                let pairs = ok_inj (sym taken ∙ parse_mask-IsRule getaddrinfo spec v m rule) in
                rw
                  (
                    ap (λ (p : Address × Address). p.0) pairs,
                    ap (λ (p : Address × Address). p.1) pairs,
                  )
                  ((check_address_iff client v m c (rule-IsValue spec v m rule)).1 admits),
          )

      allow_options_iff :
          (client : Client)
          → IsClient client
          → (specs : List Bytes) (before allowed : Allowed)
          → allow_options getaddrinfo specs before ≡ ok allowed
          → AnyPasses client allowed ↔ (AnyAdmits client specs ⊎ AnyPasses client before)
      unfolding allow_options AnyPasses AnyAdmits
      allow_options_iff client c [] before allowed made =
          rw (ok_inj made) (λ p. inr p, λ p. elim p [ inl a ↦ absurd a | inr p ↦ p ])
      allow_options_iff client c (spec ∷ specs) before allowed made =
          let ((value, mask), taken, more) =
            >>=-returns (parse_mask getaddrinfo spec)
              (λ entry. allow_options getaddrinfo specs (entry ∷ before)) made in
          let rest = allow_options_iff client c specs ((value, mask) ∷ before) allowed more in
          both rest (shuffle_iff (entry_iff client c spec value mask taken))

      allow_options-cons :
          (specs : List Bytes) (entry : Address × Address) (before allowed : Allowed)
          → allow_options getaddrinfo specs (entry ∷ before) ≡ ok allowed
          → (front : Address × Address) × (l : Allowed) × (allowed ≡ front ∷ l)
      unfolding allow_options
      allow_options-cons [] entry before allowed made = (entry, before, sym (ok_inj made))
      allow_options-cons (spec ∷ specs) entry before allowed made =
          let (next, taken, more) =
            >>=-returns (parse_mask getaddrinfo spec)
              (λ next. allow_options getaddrinfo specs (next ∷ (entry ∷ before))) made in
          allow_options-cons specs next (entry ∷ before) allowed more

      allow_options-nonempty :
          (spec : Bytes) (specs : List Bytes) (allowed : Allowed)
          → allow_options getaddrinfo (spec ∷ specs) [] ≡ ok allowed
          → (front : Address × Address) × (l : Allowed) × (allowed ≡ front ∷ l)
      unfolding allow_options
      allow_options-nonempty spec specs allowed made =
          let (entry, taken, more) =
            >>=-returns (parse_mask getaddrinfo spec)
              (λ entry. allow_options getaddrinfo specs (entry ∷ [])) made in
          allow_options-cons specs entry [] allowed more

      -- Where the options have been taken and there is at least one, dcc_check_client lets a client
      -- whose address can be printed in exactly where some option admits it: an option HOST admits
      -- that address alone, and HOST/BITS every address of the family of HOST whose first BITS bits
      -- are those of HOST. A v6 client that is mapped from or compatible with a v4 address is
      -- compared with a v4 option by the word that inet_from_inet6 stores.
      pub check_client_iff :
          (sockaddr_to_string : Option Client → Result Bytes) (client : Client) (client_ip : Bytes)
          (spec : Bytes) (specs : List Bytes) (allowed : Allowed)
          → IsClient client
          → sockaddr_to_string (some client) ≡ ok client_ip
          → allow_options getaddrinfo (spec ∷ specs) [] ≡ ok allowed
          → (check_client little v4mapped v4compat sockaddr_to_string (some client) allowed ≡ ok tt)
            ↔ AnyAdmits client (spec ∷ specs)
      unfolding check_client distcc.Access.Clients.allow_listed AnyPasses
      check_client_iff sockaddr_to_string client client_ip spec specs allowed c named made =
          let (front, l, same) = allow_options-nonempty spec specs allowed made in
          let listed = allow_options_iff client c (spec ∷ specs) [] allowed made in
          rw (named, same)
            (both (check_entries_iff client (front ∷ l)) (both (rw same at listed) drop_none))
