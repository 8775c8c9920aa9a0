-- ===== src/Hosts/Parser/Printed.antt =====
-- Host definitions as they are written in a list for src/hosts.c, and the hosts that they stand for.
use distcc.Hosts.Numbers.{pos}
use distcc.Hosts.{
  Compress, compress_none, lzo1x, CppWhere, on_client, on_server, tcp, ssh, local, Hostdef,
}
use distcc.Hosts.Parser.{new_host}
use distcc.Hosts.Parts.{clean}
use distcc.Prelude.{
  ℕ, ◌^◌, ◌<◌, ◌≡◌, ◌≢◌, Bool, true, false, not, Option, none, some, [], ◌∷◌, ◌++◌, List,
}
use distcc.Prelude.Bytes.{Bytes, codes, first, str_startswith}
use distcc.Locking.Decimal.{print}

-- No option, ",lzo", or ",lzo,cpp".
pub data Features : Type 0 where
  plain compressed pumped : Features

pub record Remote : Type 0 where
  pub name : Bytes
  pub slots : Option ℕ
  pub features : Features
  pub down : Bool

-- HOST[/SLOTS] for localhost, HOST[/SLOTS][:PORT][OPTIONS], and [USER]@HOST[/SLOTS][:COMMAND][OPTIONS].
pub data Entry : Type 0 where
  local_entry : Option ℕ → Entry
  tcp_entry : Remote → Option ℕ → Entry
  ssh_entry : Bytes → Remote → Option Bytes → Entry

-- Each part, with what stands behind it.
abbrev pub show_slots : Option ℕ → Bytes → Bytes
show_slots none rest = rest
show_slots (some n) rest = b'/' ∷ (print n ++ rest)

abbrev pub show_port : Option ℕ → Bytes → Bytes
show_port none rest = rest
show_port (some n) rest = b':' ∷ (print n ++ rest)

abbrev pub show_command : Option Bytes → Bytes → Bytes
show_command none rest = rest
show_command (some command) rest = b':' ∷ (command ++ rest)

abbrev pub show_down : Bool → Bytes → Bytes
show_down false rest = rest
show_down true rest = codes ",down" ++ rest

abbrev pub show_options : Features → Bool → Bytes → Bytes
show_options plain down rest = show_down down rest
show_options compressed down rest = codes ",lzo" ++ show_down down rest
show_options pumped down rest = codes ",lzo,cpp" ++ show_down down rest

abbrev pub show : Entry → Bytes → Bytes
show (local_entry slots) rest = codes "localhost" ++ show_slots slots rest
show (tcp_entry r port) rest =
    r.name ++ show_slots r.slots (show_port port (show_options r.features r.down rest))
show (ssh_entry user r command) rest =
    user
    ++ (b'@'
        ∷ (r.name
            ++ show_slots r.slots (show_command command (show_options r.features r.down rest))))

-- Every entry on a line.
abbrev pub show_list : List Entry → Bytes
show_list [] = []
show_list (e ∷ es) = show e (b'\n' ∷ show_list es)

abbrev pub get_or {ℓ} : {A : Type ℓ} → A → Option A → A
get_or value none = value
get_or old (some value) = value

abbrev compr_of : Features → Compress
compr_of plain = compress_none
compr_of _ = lzo1x

abbrev cpp_where_of : Features → CppWhere
cpp_where_of pumped = on_server
cpp_where_of _ = on_client

abbrev version_of : Features → ℕ
version_of plain = 1
version_of compressed = 2
version_of pumped = 3

abbrev pub with_options : Features → Bool → Hostdef → Hostdef
with_options features down host = record host {
  compr = compr_of features;
  cpp_where = some (cpp_where_of features);
  protover = version_of features;
  is_up = not down;
  authenticate = false;
}

abbrev pub user_of : Bytes → Option Bytes
user_of [] = none
user_of (c ∷ user) = some (c ∷ user)

-- The host of an entry: four slots and the port 3632 where nothing is said, two slots for localhost.
abbrev pub host_of : Entry → Hostdef
host_of (local_entry slots) = record (new_host (show (local_entry slots) [])) {
  mode = some local;
  hostname = some (codes "localhost");
  n_slots = pos (get_or 2 slots);
}
host_of (tcp_entry r port) =
    with_options r.features r.down (record (new_host (show (tcp_entry r port) [])) {
      mode = some tcp;
      hostname = some r.name;
      n_slots = pos (get_or 4 r.slots);
      port = pos (get_or 3632 port);
    })
host_of (ssh_entry user r command) =
    with_options r.features r.down (record (new_host (show (ssh_entry user r command) [])) {
      mode = some ssh;
      user = user_of user;
      hostname = some r.name;
      n_slots = pos (get_or 4 r.slots);
      ssh_command = command;
    })

-- What no word of an entry has: blanks, a comment, and what separates its parts.
abbrev pub separators : Bytes
separators = codes " #\t\n\r,/:@[]" ++ 11 ∷ 12 ∷ []

-- The first word of an entry is not read as a keyword or as localhost.
abbrev pub IsFirst : Bytes → Type 0
IsFirst s =
    (clean separators s ≡ true) × (first s ≢ b'-') × (str_startswith (codes "localhost") s ≡ false)

abbrev pub IsCount : Option ℕ → Type 0
IsCount none = Unit {0}
IsCount (some n) = (n ≢ 0) × (n < 2 ^ 31)

abbrev pub IsPort : Option ℕ → Type 0
IsPort none = Unit {0}
IsPort (some n) = n < 2 ^ 31

abbrev pub IsCommand : Option Bytes → Type 0
IsCommand none = Unit {0}
IsCommand (some command) = (command ≢ []) × (clean (codes " #\t\n\r," ++ 12 ∷ []) command ≡ true)

abbrev pub IsEntry : Entry → Type 0
IsEntry (local_entry slots) = IsCount slots
IsEntry (tcp_entry r port) = (r.name ≢ []) × IsFirst r.name × IsCount r.slots × IsPort port
IsEntry (ssh_entry user r command) =
    IsFirst user
    × (r.name ≢ [])
    × (clean separators r.name ≡ true)
    × IsCount r.slots
    × IsCommand command

abbrev pub AllEntries : List Entry → Type 0
AllEntries [] = Unit {0}
AllEntries (e ∷ es) = IsEntry e × AllEntries es
