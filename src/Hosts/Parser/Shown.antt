-- ===== src/Hosts/Parser/Shown.antt =====
-- How src/hosts.c reads a host definition that has been written.
use distcc.Prelude.{
  ℕ, zero, suc, ◌+◌, ◌≡◌, ◌≢◌, refl, ap, sym, ◌∙◌, inl, inr, Bool, true, false, Bool-cases, not,
  ◌&&◌, Option, none, some, [], ◌∷◌, ◌++◌, ◌==◌, ==_iff, List, if◌then◌else◌, all, length, drop,
  arith,
}
use distcc.Prelude.Bytes.{Bytes, codes, first, contains, str_startswith}
use distcc.ExitCode.{ok}
use distcc.Hosts.Numbers.{pos, isdigit}
use distcc.Hosts.{Hostdef, tcp, ssh, local, dup_part, until, part_of, multiply}
use distcc.Hosts.Parts.{clean}
use distcc.Hosts.Parser.{
  hostname_at, port_at, ends_port, blanks_with, ssh_command_at, new_host, parse_tcp_host,
  parse_ssh_host, parse_localhost,
}
use distcc.Hosts.Parser.Printed.{
  Features, plain, compressed, pumped, Remote, local_entry, tcp_entry, ssh_entry, show, show_slots,
  show_port, show_command, show_options, with_options, get_or, user_of, IsCount, IsPort, IsCommand,
  separators,
}
use distcc.Hosts.Parser.Pieces.{
  clean_less, dup_part-clean, multiply-slots_shown, port_at-shown, parse_options-shown,
}

-- The text begins with a byte that ends a name, and with no number or multiplier.
abbrev pub Ends : Bytes → Type 0
Ends text =
    (c : ℕ) × (r : Bytes) × (text ≡ c ∷ r)
    × (isdigit c ≡ false)
    × ((c == b'/') ≡ false)
    × ((c == b'=') ≡ false)
    × (contains c (blanks_with (codes "/:")) ≡ true)

-- So does what may stand behind a port.
abbrev EndsPort : Bytes → Type 0
EndsPort text =
    (c : ℕ) × (r : Bytes) × (text ≡ c ∷ r)
    × (isdigit c ≡ false)
    × ((c == b':') ≡ false)
    × (ends_port (c ∷ r) ≡ true)
    × ((c == b'/') ≡ false)
    × ((c == b'=') ≡ false)
    × (contains c (blanks_with []) ≡ true)

options-EndsPort :
    (features : Features) (down : Bool) (rest : Bytes)
    → EndsPort (show_options features down (b'\n' ∷ rest))
unfolding ends_port contains distcc.Prelude.Bytes.isspace
options-EndsPort plain false rest = (b'\n', rest, refl, refl, refl, refl, refl, refl, refl)
options-EndsPort plain true rest = (b',', _, refl, refl, refl, refl, refl, refl, refl)
options-EndsPort compressed down rest = (b',', _, refl, refl, refl, refl, refl, refl, refl)
options-EndsPort pumped down rest = (b',', _, refl, refl, refl, refl, refl, refl, refl)

options-Ends :
    (features : Features) (down : Bool) (rest : Bytes)
    → Ends (show_options features down (b'\n' ∷ rest))
unfolding contains
options-Ends plain false rest = (b'\n', rest, refl, refl, refl, refl, refl)
options-Ends plain true rest = (b',', _, refl, refl, refl, refl, refl)
options-Ends compressed down rest = (b',', _, refl, refl, refl, refl, refl)
options-Ends pumped down rest = (b',', _, refl, refl, refl, refl, refl)

pub port-Ends :
    (port : Option ℕ) (features : Features) (down : Bool) (rest : Bytes)
    → Ends (show_port port (show_options features down (b'\n' ∷ rest)))
unfolding contains
port-Ends none features down rest = options-Ends features down rest
port-Ends (some n) features down rest = (b':', _, refl, refl, refl, refl, refl)

command-Ends :
    (command : Option Bytes) (features : Features) (down : Bool) (rest : Bytes)
    → Ends (show_command command (show_options features down (b'\n' ∷ rest)))
unfolding contains
command-Ends none features down rest = options-Ends features down rest
command-Ends (some command) features down rest = (b':', _, refl, refl, refl, refl, refl)

-- A name with the slots behind it.
abbrev pub NameEnds : Bytes → Type 0
NameEnds text =
    (c : ℕ) × (r : Bytes) × (text ≡ c ∷ r) × (contains c (blanks_with (codes "/:")) ≡ true)

pub slots-NameEnds :
    (slots : Option ℕ) (text : Bytes) → Ends text → NameEnds (show_slots slots text)
unfolding contains
slots-NameEnds none text ends = (ends.0, ends.1, ends.2, ends.6)
slots-NameEnds (some n) text ends = (b'/', _, refl, refl)

within : all (λ c. contains c separators) (blanks_with (codes "/:")) ≡ true
unfolding contains
within = refl

commands : all (λ c. contains c (codes " #\t\n\r," ++ 12 ∷ [])) (blanks_with []) ≡ true
unfolding contains
commands = refl

dup_part-name :
    (name text : Bytes)
    → name ≢ []
    → clean separators name ≡ true
    → NameEnds text
    → dup_part (name ++ text) (blanks_with (codes "/:")) ≡ (some name, text)
dup_part-name name text filled free (c, r, starts, ends) = rw starts (
    dup_part-clean (blanks_with (codes "/:")) name c r filled
      (clean_less separators (blanks_with (codes "/:")) name within free) ends)

no_bracket :
    (name text : Bytes)
    → name ≢ []
    → clean separators name ≡ true
    → (first (name ++ text) == b'[') ≡ false
unfolding contains
no_bracket [] text filled free = absurd (filled refl)
no_bracket (c ∷ name) text filled free = ground arith

hostname_at-shown :
    (name text : Bytes)
    → name ≢ []
    → clean separators name ≡ true
    → NameEnds text
    → hostname_at (name ++ text) ≡ ok (some name, text)
unfolding hostname_at
hostname_at-shown name text filled free ends =
    rw (no_bracket name text filled free, dup_part-name name text filled free ends) refl

multiply-Ends :
    (slots : Option ℕ) (text : Bytes) (default : ℕ) (host : Hostdef)
    → IsCount slots
    → Ends text
    → multiply (show_slots slots text) (record host { n_slots = pos default })
      ≡ ok (text, record host { n_slots = pos (get_or default slots) })
multiply-Ends none text default host good (c, r, starts, digit, slash, equals, _) =
    rw starts
      (multiply-slots_shown none c r (record host { n_slots = pos default }) tt digit slash equals)
multiply-Ends (some n) text default host good (c, r, starts, digit, slash, equals, _) = rw starts (
    multiply-slots_shown (some n) c r (record host { n_slots = pos default }) good digit slash
      equals)

port_at-Ends :
    (port : Option ℕ) (text : Bytes) (host : Hostdef)
    → IsPort port
    → EndsPort text
    → port_at (show_port port text) host ≡ ok (text, record host { port = pos (get_or 3632 port) })
port_at-Ends port text host good (c, r, starts, digit, colon, ends, _, _, _) =
    rw starts (port_at-shown port c r host good digit colon ends)

multiply-EndsPort :
    (text : Bytes) (host : Hostdef) → EndsPort text → multiply text host ≡ ok (text, host)
multiply-EndsPort text host (c, r, starts, digit, colon, ends, slash, equals, _) =
    rw starts (multiply-slots_shown none c r host tt digit slash equals)

pub parse_tcp_host-shown :
    (gssapi : Bool) (r : Remote) (port : Option ℕ) (token rest : Bytes)
    → r.name ≢ []
    → clean separators r.name ≡ true
    → IsCount r.slots
    → IsPort port
    → parse_tcp_host gssapi (new_host token) (show (tcp_entry r port) (b'\n' ∷ rest))
      ≡ ok (
          with_options r.features r.down (record (new_host token) {
            mode = some tcp;
            hostname = some r.name;
            n_slots = pos (get_or 4 r.slots);
            port = pos (get_or 3632 port);
          }))
unfolding parse_tcp_host
parse_tcp_host-shown gssapi r port token rest filled free counted ported =
    let opts = show_options r.features r.down (b'\n' ∷ rest) in
    let named = record (new_host token) { hostname = some r.name } in
    let sized = record named { n_slots = pos (get_or 4 r.slots) } in
    let addressed = record sized { port = pos (get_or 3632 port) } in
    let ends = port-Ends port r.features r.down rest in
    let behind_port = options-EndsPort r.features r.down rest in
    rw
      (
        hostname_at-shown r.name (show_slots r.slots (show_port port opts)) filled free
            (slots-NameEnds r.slots (show_port port opts) ends),
        multiply-Ends r.slots (show_port port opts) 4 named counted ends,
        port_at-Ends port opts sized ported behind_port,
        multiply-EndsPort opts addressed behind_port,
        parse_options-shown gssapi r.features r.down rest addressed,
      )
      refl

-- The user in front of the @.
user-shown :
    (user text : Bytes)
    → clean separators user ≡ true
    → dup_part (user ++ (b'@' ∷ text)) (codes "@") ≡ (user_of user, b'@' ∷ text)
unfolding contains
user-shown [] text free = unfold dup_part until part_of in refl
user-shown (c ∷ user) text free =
    dup_part-clean (codes "@") (c ∷ user) b'@' text (cc)
      (clean_less separators (codes "@") (c ∷ user) refl free) refl

command_at-shown :
    (command : Option Bytes) (text : Bytes) (host : Hostdef)
    → IsCommand command
    → EndsPort text
    → ssh_command_at (show_command command text) (record host { ssh_command = none })
      ≡ (text, record host { ssh_command = command })
unfolding ssh_command_at
command_at-shown none text host good (c, r, starts, digit, colon, _, _, _, _) =
    rw (starts, colon) refl
command_at-shown (some command) text host good (c, r, starts, _, _, _, _, _, ends) =
    let free = clean_less (codes " #\t\n\r," ++ 12 ∷ []) (blanks_with []) command commands good.1 in
    rw starts (rw (dup_part-clean (blanks_with []) command c r good.0 free ends) refl)

pub parse_ssh_host-shown :
    (gssapi : Bool) (user : Bytes) (r : Remote) (command : Option Bytes) (token rest : Bytes)
    → clean separators user ≡ true
    → r.name ≢ []
    → clean separators r.name ≡ true
    → IsCount r.slots
    → IsCommand command
    → parse_ssh_host gssapi (new_host token) (show (ssh_entry user r command) (b'\n' ∷ rest))
      ≡ ok (
          with_options r.features r.down (record (new_host token) {
            mode = some ssh;
            user = user_of user;
            hostname = some r.name;
            n_slots = pos (get_or 4 r.slots);
            ssh_command = command;
          }))
unfolding parse_ssh_host
parse_ssh_host-shown gssapi user r command token rest user_free filled free counted good =
    let opts = show_options r.features r.down (b'\n' ∷ rest) in
    let behind_name = show_slots r.slots (show_command command opts) in
    let named = record (new_host token) { user = user_of user; hostname = some r.name } in
    let sized = record named { n_slots = pos (get_or 4 r.slots) } in
    let commanded = record sized { ssh_command = command } in
    let ends = command-Ends command r.features r.down rest in
    let behind_port = options-EndsPort r.features r.down rest in
    rw
      (
        user-shown user (r.name ++ behind_name) user_free,
        dup_part-name r.name behind_name filled free
            (slots-NameEnds r.slots (show_command command opts) ends),
        multiply-Ends r.slots (show_command command opts) 4 named counted ends,
        command_at-shown command opts sized good behind_port,
        parse_options-shown gssapi r.features r.down rest commanded,
      )
      refl

pub parse_localhost-shown :
    (slots : Option ℕ) (token rest : Bytes)
    → IsCount slots
    → parse_localhost (new_host token) (show (local_entry slots) (b'\n' ∷ rest))
      ≡ ok (record (new_host token) {
        mode = some local;
        hostname = some (codes "localhost");
        n_slots = pos (get_or 2 slots);
      })
unfolding parse_localhost
parse_localhost-shown slots token rest counted =
    rw
      (multiply-Ends slots (b'\n' ∷ rest) 2
        (record (new_host token) { mode = some local; hostname = some (codes "localhost") }) counted
        (options-Ends plain false rest))
      refl
