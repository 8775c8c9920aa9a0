-- ===== src/Hosts/Parser.antt =====
-- The host definitions of src/hosts.c, and dcc_parse_hosts.
pub mod Valid
pub mod Invariant
pub mod Printed
pub mod Pieces
pub mod Shown
pub mod Tokens
pub mod Lists
use distcc.Hosts.Numbers.{ℤ, pos, strtol}
use distcc.Hosts.{
  Compress, compress_none, Mode, tcp, ssh, local, Hostdef, dup_part, until, parse_multiplier,
  multiply, set_slots, parse_options, finished,
}
use distcc.Prelude.{
  ℕ, zero, suc, ◌+◌, Bool, true, false, not, ◌&&◌, ◌||◌, Option, none, some, List, [], ◌∷◌, ◌++◌,
  ltb, ◌==◌, if◌then◌else◌, length, take, drop,
}
use distcc.Prelude.Bytes.{Bytes, codes, first, contains, isspace, str_startswith}
use distcc.ExitCode.{Result, ok, err, exits, undefined, bad_hostspec, ◌>>=◌}

-- The separators of the source's calls of dcc_dup_part: `extra` and " \t\n\r\f,".
abbrev blanks_with : Bytes → Bytes
blanks_with extra = extra ++ codes " \t\n\r" ++ 12 ∷ b',' ∷ []

with_hostname : Option Bytes → Hostdef → Result Hostdef
with_hostname none host = err bad_hostspec
with_hostname (some name) host = ok (record host { hostname = some name })

-- The command behind a colon, up to a space or a comma.
ssh_command_at : Bytes → Hostdef → Bytes × Hostdef
ssh_command_at token host =
    let (command, rest) = dup_part (drop 1 token) (blanks_with []) in
    if first token == b':' then (rest, record host { ssh_command = command }) else (token, host)

-- From the hostname of an ssh host on.
ssh_host_at : Bool → Bytes → Hostdef → Result Hostdef
ssh_host_at gssapi token host = do
  let named = dup_part token (blanks_with (codes "/:"))
  host₁ ← with_hostname named.0 host
  (t₂, host₂) ← multiply named.1 host₁
  let commanded = ssh_command_at t₂ host₂
  (t₃, host₃) ← parse_options gssapi commanded.0 commanded.1
  ok (record host₃ { mode = some ssh })

unfoldable pub parse_ssh_host : Bool → Hostdef → Bytes → Result Hostdef
unfolding ssh_host_at with_hostname ssh_command_at
parse_ssh_host gssapi host token_start =
    let (user, token) = dup_part token_start (codes "@") in
    if not (first token == b'@')
    then err bad_hostspec
    else ssh_host_at gssapi (drop 1 token) (record host { user = user })

-- The hostname, in brackets or not.
pub hostname_at : Bytes → Result (Option Bytes × Bytes)
hostname_at token =
    let (name, rest) = dup_part (drop 1 token) (blanks_with (codes "/]")) in
    if first token == b'['
    then (if not (first rest == b']') then err bad_hostspec else ok (name, drop 1 rest))
    else ok (dup_part token (blanks_with (codes "/:")))

-- What may stand behind a port.
pub ends_port : Bytes → Bool
ends_port [] = true
ends_port (c ∷ tail) = isspace c || c == b'/' || c == b','

-- dcc_default_port
abbrev default_port : ℕ
default_port = 3632

pub port_at : Bytes → Hostdef → Result (Bytes × Hostdef)
port_at token host =
    let (port, tail) = strtol (drop 1 token) in
    if first token == b':'
    then (if ends_port tail then ok (tail, record host { port = port }) else err bad_hostspec)
    else ok (token, record host { port = pos default_port })

unfoldable pub parse_tcp_host : Bool → Hostdef → Bytes → Result Hostdef
unfolding hostname_at port_at ends_port with_hostname
parse_tcp_host gssapi host token_start = do
  (name, t₁) ← hostname_at token_start
  host₁ ← with_hostname name host
  (t₂, host₂) ← multiply t₁ host₁
  (t₃, host₃) ← port_at t₂ host₂
  (t₄, host₄) ← multiply t₃ host₃
  (t₅, host₅) ← parse_options gssapi t₄ host₄
  ok (record host₅ { mode = some tcp })

unfoldable pub parse_localhost : Hostdef → Bytes → Result Hostdef
parse_localhost host token_start = do
  (t, host') ←
      multiply (drop 9 token_start)
        (record host { mode = some local; hostname = some (codes "localhost"); n_slots = pos 2 })
  ok host'

-- A new list item: calloc, and the defaults of dcc_parse_hosts.
abbrev pub new_host : Bytes → Hostdef
new_host token = record {
  mode = none;
  user = none;
  hostname = none;
  port = pos 0;
  ssh_command = none;
  is_up = true;
  n_slots = pos 4;
  hostdef_string = token;
  protover = 1;
  compr = compress_none;
  cpp_where = none;
  authenticate = false;
}

-- The three kinds of hosts. The parsers read on from the start of the token, and are not held to
-- its end.
unfoldable pub parse_host : Bool → Bytes → Bytes → Result Hostdef
parse_host gssapi token text =
    if str_startswith (codes "localhost") text && (length token == 9 || first (drop 9 text) == b'/')
    then parse_localhost (new_host token) text
    else if contains b'@' token
    then parse_ssh_host gssapi (new_host token) text
    else parse_tcp_host gssapi (new_host token) text

-- The list, the flag, and the slots of the two hosts of src/lock.c that the list may set.
pub record HostList : Type 0 where
  pub hosts : List Hostdef
  pub flag_randomize : Bool
  pub local_slots : ℤ
  pub local_cpp_slots : ℤ

-- Behind a comment.
unfoldable pub skip_comment : Bytes → Bytes
skip_comment [] = []
skip_comment (c ∷ s) = if c == b'\n' || c == b'\r' then c ∷ s else skip_comment s

slots_or : ℤ → Option ℤ → ℤ
slots_or old none = old
slots_or old (some val) = val

-- `--localslots`: a bad multiplier leaves the token to be taken for a host.
plain_slots : HostList → Result (Bytes × Option ℤ) → Result (Option HostList)
unfolding slots_or
plain_slots st undefined = undefined
plain_slots st (exits e) = exits e
plain_slots st (err e) = ok none
plain_slots st (ok (rest, val)) =
    ok (some (record st { local_slots = slots_or st.local_slots val }))

-- `--localslots_cpp`: after a bad multiplier the test for `--localslots` is next, and fits.
cpp_slots : HostList → Bytes → Result (Bytes × Option ℤ) → Result (Option HostList)
unfolding slots_or plain_slots
cpp_slots st text undefined = undefined
cpp_slots st text (exits e) = exits e
cpp_slots st text (err e) = plain_slots st (parse_multiplier (drop 12 text))
cpp_slots st text (ok (rest, val)) =
    ok (some (record st { local_cpp_slots = slots_or st.local_cpp_slots val }))

-- What a keyword does, or `none` where the token is taken for a host.
unfoldable pub keyword : Bytes → HostList → Result (Option HostList)
unfolding cpp_slots plain_slots
keyword text st =
    if str_startswith (codes "--randomize") text
    then ok (some (record st { flag_randomize = true }))
    else if str_startswith (codes "--localslots_cpp") text
    then cpp_slots st text (parse_multiplier (drop 16 text))
    else if str_startswith (codes "--localslots") text
    then plain_slots st (parse_multiplier (drop 12 text))
    else ok none

abbrev add_host : HostList → Hostdef → HostList
add_host st host = record st { hosts = st.hosts ++ (host ∷ []) }

host_or_keyword : Bool → Bytes → Bytes → HostList → Option HostList → Result HostList
host_or_keyword gssapi token text st (some st') = ok st'
host_or_keyword gssapi token text st none = do
  host ← parse_host gssapi token text
  ok (add_host st host)

-- One token.
unfoldable pub parse_token : Bool → Bytes → Bytes → HostList → Result HostList
unfolding host_or_keyword
parse_token gssapi token text st = do
  done ← keyword text st
  host_or_keyword gssapi token text st done

-- Where the token that starts here ends.
abbrev pub token_at : Bytes → Bytes × Bytes
token_at = until (codes " #\t\n" ++ 12 ∷ b'\r' ∷ [])

-- The loop. The outer `none` is a loop that is out of fuel.
unfoldable pub hosts_loop : Bool → ℕ → Bytes → HostList → Option (Result HostList)
hosts_loop gssapi zero text st = none
hosts_loop gssapi (suc fuel) [] st = some (ok st)
hosts_loop gssapi (suc fuel) (c ∷ s) st = elim (c == b'#') [
  | true ↦ hosts_loop gssapi fuel (skip_comment s) st
  | false ↦ elim (isspace c) [
    | true ↦ hosts_loop gssapi fuel s st
    | false ↦ elim (parse_token gssapi (token_at (c ∷ s)).0 (c ∷ s) st) [
      | undefined ↦ some undefined
      | exits e ↦ some (exits e)
      | err e ↦ some (err e)
      | ok st' ↦ hosts_loop gssapi fuel (token_at (c ∷ s)).1 st'
    ]
  ]
]

-- The pairs of a random number and a host; `rand i` is the number of the i-th call of rand().
pairs : (ℕ → ℕ) → ℕ → List Hostdef → List (ℕ × Hostdef)
pairs rand i [] = []
pairs rand i (host ∷ hosts) = (rand i, host) ∷ pairs rand (i + 1) hosts

second_of : List (ℕ × Hostdef) → List Hostdef
second_of [] = []
second_of ((r, host) ∷ l) = host ∷ second_of l

-- `qsort` sorts the pairs by dcc_compare_container.
unfoldable pub randomize_host_list :
    (List (ℕ × Hostdef) → List (ℕ × Hostdef)) → (ℕ → ℕ) → List Hostdef → List Hostdef
unfolding pairs second_of
randomize_host_list qsort rand hosts = second_of (qsort (pairs rand 0 hosts))

no_hosts : List Hostdef → Bool
no_hosts [] = true
no_hosts (host ∷ hosts) = false

-- The end of dcc_parse_hosts.
unfoldable pub finish_hosts :
    (List (ℕ × Hostdef) → List (ℕ × Hostdef)) → (ℕ → ℕ) → HostList → Result HostList
unfolding no_hosts
finish_hosts qsort rand st =
    if no_hosts st.hosts
    then err bad_hostspec
    else if st.flag_randomize
    then ok (record st { hosts = randomize_host_list qsort rand st.hosts })
    else ok st

-- On a list that is still empty. The slots of the two local hosts are given and returned.
unfoldable pub parse_hosts :
    Bool → (List (ℕ × Hostdef) → List (ℕ × Hostdef)) → (ℕ → ℕ) → Bytes → ℤ → ℤ → Result HostList
parse_hosts gssapi qsort rand text local_slots local_cpp_slots = do
  st ← finished (
      hosts_loop gssapi (length text + 1) text (record {
        hosts = [];
        flag_randomize = false;
        local_slots = local_slots;
        local_cpp_slots = local_cpp_slots;
      }))
  finish_hosts qsort rand st
