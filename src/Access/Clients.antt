-- ===== src/Access/Clients.antt =====
-- The access list: the --allow options of src/dopt.c, and dcc_check_client of src/srvnet.c.
pub mod Admitted
use distcc.Prelude.{ℕ, ◌≡◌, refl, ◌⊎◌, Bool, true, Option, none, some, List, [], ◌∷◌}
use distcc.Prelude.Bytes.{Bytes}
use distcc.ExitCode.{Result, undefined, exits, err, ok, access_denied, ◌>>=◌}
use distcc.Access.{Address, Client, Looked, parse_mask, check_address}

abbrev pub Allowed : Type 0
Allowed = List (Address × Address)

-- The options from the first to the last: each entry goes to the front of the list.
unfoldable pub allow_options : (Bytes → Looked) → List Bytes → Allowed → Result Allowed
allow_options getaddrinfo [] opt_allowed = ok opt_allowed
allow_options getaddrinfo (spec ∷ specs) opt_allowed =
    parse_mask getaddrinfo spec >>= λ entry. allow_options getaddrinfo specs (entry ∷ opt_allowed)

abbrev pub unless_denied : Result (Unit {0}) → Result (Unit {0}) → Result (Unit {0})
unless_denied (err access_denied) next = next
unless_denied ret next = ret

module _ (little : Bool) (v4mapped v4compat : Bytes → Bool) where
  -- The loop over the list, after an entry that has returned `ret`.
  unfoldable pub check_entries : Result (Unit {0}) → Client → Allowed → Result (Unit {0})
  check_entries ret client [] = ret
  check_entries ret client ((value, mask) ∷ l) =
      let ret = check_address little v4mapped v4compat client value mask in
      unless_denied ret (check_entries ret client l)

  allow_listed : Option Client → Allowed → Result (Unit {0})
  unfolding check_entries
  allow_listed none allowed = ok tt
  allow_listed (some client) [] = ok tt
  allow_listed (some client) (entry ∷ allowed) = check_entries (ok tt) client (entry ∷ allowed)

  -- dcc_check_client. The name of the address is for the log.
  unfoldable pub check_client :
      (Option Client → Result Bytes) → Option Client → Allowed → Result (Unit {0})
  unfolding allow_listed
  check_client sockaddr_to_string psa allowed =
      sockaddr_to_string psa >>= λ client_ip. allow_listed psa allowed
