-- ===== src/Hosts/Parser/Lists.antt =====
-- Lists of hosts that have been written, as dcc_parse_hosts of src/hosts.c reads them.
use distcc.Prelude.{
  ℕ, suc, ◌+◌, ◌-◌, ◌*◌, ◌≤◌, ◌≡◌, ◌≢◌, refl, ap, sym, ◌∙◌, inl, inr, Bool, true, false, Bool-cases,
  none, some, [], ◌∷◌, ◌++◌, ◌==◌, ==_iff, List, map, append_assoc, append-nil, length,
  length-append, arith,
}
use mathlib.Core.Path.{subst}
use distcc.Prelude.Bytes.{Bytes, codes, contains, isspace, str_startswith}
use distcc.ExitCode.{ok}
use distcc.Hosts.Numbers.{ℤ}
use distcc.Hosts.{Hostdef}
use distcc.Hosts.Parts.{until-clean}
use distcc.Hosts.Parser.{
  HostList, parse_host, parse_token, keyword, token_at, hosts_loop, finish_hosts, parse_hosts,
}
use distcc.Hosts.Parser.Printed.{
  Entry, local_entry, tcp_entry, ssh_entry, show, show_list, host_of, IsFirst, IsEntry, AllEntries,
  show_slots, show_port, show_command, show_options,
}
use distcc.Hosts.Parser.Shown.{
  NameEnds, slots-NameEnds, port-Ends, parse_tcp_host-shown, parse_ssh_host-shown,
  parse_localhost-shown,
}
use distcc.Hosts.Parser.Tokens.{blanks, show-clean, tcp-no_at, ssh-at, show-append}

-- A text whose first byte begins a token, and no keyword.
abbrev Begins : Bytes → Type 0
Begins text =
    (c : ℕ) × (s : Bytes) × (text ≡ c ∷ s)
    × ((c == b'#') ≡ false)
    × (isspace c ≡ false)
    × ((c == b'-') ≡ false)

word-Begins : (word text : Bytes) → word ≢ [] → IsFirst word → Begins (word ++ text)
unfolding contains isspace
word-Begins [] text filled good = absurd (filled refl)
word-Begins (c ∷ word) text filled good =
    (c, word ++ text, refl, ground (arith, good.0), ground (arith, good.0), ground (arith, good.1))

user-Begins : (user text : Bytes) → IsFirst user → Begins (user ++ (b'@' ∷ text))
unfolding isspace
user-Begins [] text good = (b'@', text, refl, refl, refl, refl)
user-Begins (c ∷ user) text good = word-Begins (c ∷ user) (b'@' ∷ text) (cc) good

show-Begins : (e : Entry) (rest : Bytes) → IsEntry e → Begins (show e rest)
unfolding isspace
show-Begins (local_entry slots) rest good = (b'l', _, refl, refl, refl, refl)
show-Begins (tcp_entry r port) rest good = word-Begins r.name _ good.0 good.1
show-Begins (ssh_entry user r command) rest good = user-Begins user _ good.0

keyword-none : (text : Bytes) (st : HostList) → Begins text → keyword text st ≡ ok none
unfolding keyword str_startswith
keyword-none text st (c, s, starts, _, _, dash) =
    let dash' : (b'-' == c) ≡ false = ground (arith, dash) in rw (starts, dash') refl

token_at-show :
    (e : Entry) (rest : Bytes)
    → IsEntry e
    → token_at (show e (b'\n' ∷ rest)) ≡ (show e [], b'\n' ∷ rest)
unfolding contains
token_at-show e rest good =
    rw (show-append e (b'\n' ∷ rest))
      (until-clean blanks (show e []) b'\n' rest (show-clean e good) refl)

-- What begins with localhost does so in the word in front of a mark.
localhost-word :
    (w word : Bytes) (c : ℕ) (rest : Bytes)
    → contains c w ≡ false
    → str_startswith w word ≡ false
    → str_startswith w (word ++ (c ∷ rest)) ≡ false
unfolding str_startswith contains
localhost-word [] word c rest absent other = absurd (cc)
localhost-word (d ∷ w) [] c rest absent other = ground (arith, absent, ==_iff d c)
localhost-word (d ∷ w) (e ∷ word) c rest absent other = elim (Bool-cases (d == e)) [
  | inl same ↦ ground (arith, localhost-word w word c rest (ground arith) (ground arith))
  | inr differs ↦ ground arith
]

no_local :
    (c : ℕ)
    → contains c (codes " \t\n\r" ++ 12 ∷ b',' ∷ []) ≡ true
    → contains c (codes "localhost") ≡ false
unfolding contains
no_local c there = ground (arith, there)

not_localhost :
    (name text : Bytes)
    → NameEnds text
    → str_startswith (codes "localhost") name ≡ false
    → str_startswith (codes "localhost") (name ++ text) ≡ false
unfolding contains
not_localhost name text (c, r, starts, ends) other =
    rw starts (localhost-word (codes "localhost") name c r (ground (arith, ends)) other)

parse_host-show :
    (gssapi : Bool) (e : Entry) (rest : Bytes)
    → IsEntry e
    → parse_host gssapi (show e []) (show e (b'\n' ∷ rest)) ≡ ok (host_of e)
unfolding parse_host str_startswith contains
parse_host-show gssapi (local_entry none) rest good =
    parse_localhost-shown none (show (local_entry none) []) rest good
parse_host-show gssapi (local_entry (some n)) rest good =
    let longer : (length (show (local_entry (some n)) []) == 9) ≡ false = ground arith in
    rw longer (parse_localhost-shown (some n) (show (local_entry (some n)) []) rest good)
parse_host-show gssapi (tcp_entry r port) rest good =
    let ends =
      slots-NameEnds r.slots (show_port port (show_options r.features r.down (b'\n' ∷ rest)))
        (port-Ends port r.features r.down rest) in
    rw
      (
        not_localhost r.name
            (show_slots r.slots (show_port port (show_options r.features r.down (b'\n' ∷ rest))))
            ends good.1.2,
        tcp-no_at r port good.1.0,
      )
      (parse_tcp_host-shown gssapi r port (show (tcp_entry r port) []) rest good.0 good.1.0 good.2
        good.3)
parse_host-show gssapi (ssh_entry user r command) rest good =
    let other =
      localhost-word (codes "localhost") user b'@'
        (r.name
          ++ show_slots r.slots
              (show_command command (show_options r.features r.down (b'\n' ∷ rest))))
        refl good.0.2 in
    rw (other, ssh-at user r command)
      (parse_ssh_host-shown gssapi user r command (show (ssh_entry user r command) []) rest good.0.0
        good.1 good.2 good.3 good.4)

-- One definition, and the list behind it.
parse_token-show :
    (gssapi : Bool) (e : Entry) (rest : Bytes) (st : HostList)
    → IsEntry e
    → parse_token gssapi (show e []) (show e (b'\n' ∷ rest)) st
      ≡ ok (record st { hosts = st.hosts ++ (host_of e ∷ []) })
unfolding parse_token
parse_token-show gssapi e rest st good =
    rw
      (
        keyword-none (show e (b'\n' ∷ rest)) st (show-Begins e (b'\n' ∷ rest) good),
        parse_host-show gssapi e rest good,
      )
      refl

hosts_loop-token :
    (gssapi : Bool) (fuel : ℕ) (text token rest : Bytes) (st st' : HostList)
    → Begins text
    → token_at text ≡ (token, rest)
    → parse_token gssapi token text st ≡ ok st'
    → hosts_loop gssapi (suc fuel) text st ≡ hosts_loop gssapi fuel rest st'
unfolding hosts_loop
hosts_loop-token gssapi fuel text token rest st st' (c, s, starts, hash, space, _) ends parses =
    let ends' : token_at (c ∷ s) ≡ (token, rest) =
      subst (λ t. token_at t ≡ (token, rest)) starts ends in
    let parses' : parse_token gssapi token (c ∷ s) st ≡ ok st' =
      subst (λ t. parse_token gssapi token t st ≡ ok st') starts parses in
    let parses'' : parse_token gssapi (token_at (c ∷ s)).0 (c ∷ s) st ≡ ok st' =
      subst (λ (p : Bytes × Bytes). parse_token gssapi p.0 (c ∷ s) st ≡ ok st') (sym ends')
        parses' in
    rw starts (
      rw (hosts_loop, hash, space, parses'')
        (ap (λ (p : Bytes × Bytes). hosts_loop gssapi fuel p.1 st') ends'))

newline :
    (gssapi : Bool) (fuel : ℕ) (text : Bytes) (st : HostList)
    → hosts_loop gssapi (suc fuel) (b'\n' ∷ text) st ≡ hosts_loop gssapi fuel text st
unfolding hosts_loop isspace
newline gssapi fuel text st = refl

hosts_loop-show :
    (gssapi : Bool) (es : List Entry) (fuel : ℕ) (st : HostList)
    → AllEntries es
    → hosts_loop gssapi (suc (2 * length es + fuel)) (show_list es) st
      ≡ some (ok (record st { hosts = st.hosts ++ map host_of es }))
hosts_loop-show gssapi [] fuel st good = rw (append-nil st.hosts) (unfold hosts_loop in refl)
hosts_loop-show gssapi (e ∷ es) fuel st good =
    let more : 2 * length (e ∷ es) + fuel ≡ suc (suc (2 * length es + fuel)) = omega arith in
    let after = record st { hosts = st.hosts ++ (host_of e ∷ []) } in
    rw more (
      hosts_loop-token gssapi (suc (suc (2 * length es + fuel))) (show e (b'\n' ∷ show_list es))
        (show e []) (b'\n' ∷ show_list es) st after (show-Begins e (b'\n' ∷ show_list es) good.0)
        (token_at-show e (show_list es) good.0) (parse_token-show gssapi e (show_list es) st good.0)
      ∙ (newline gssapi (suc (2 * length es + fuel)) (show_list es) after
          ∙ (hosts_loop-show gssapi es fuel after good.1
              ∙ ap (λ hs. some (ok (record st { hosts = hs })))
                  (append_assoc st.hosts (host_of e ∷ []) (map host_of es)))))

length-show_list : (es : List Entry) → AllEntries es → 2 * length es ≤ length (show_list es)
length-show_list [] good = omega arith
length-show_list (e ∷ es) good =
    let (c, s, starts, _, _, _) = show-Begins e [] good.0 in
    let one : 1 ≤ length (show e []) = rw starts (omega arith) in
    let same = ap (λ (t : Bytes). length t) (show-append e (b'\n' ∷ show_list es)) in
    omega (
      arith,
      same,
      one,
      length-append {0} (show e []) (b'\n' ∷ show_list es),
      length-show_list es good.1,
    )

-- A list of at least one host, each written on a line as localhost[/SLOTS],
-- HOST[/SLOTS][:PORT][OPTIONS] or [USER]@HOST[/SLOTS][:COMMAND][OPTIONS], with OPTIONS nothing, ,lzo
-- or ,lzo,cpp, and ,down behind it or not, is read as these hosts in their order, with the slots of the two local hosts as they were. A HOST is not empty, it and a USER
-- have no separators, the first of them does not begin with a dash or with localhost, a COMMAND is
-- neither empty nor has a blank or comma, and the numbers fit an int, SLOTS other than zero.
pub parse_hosts-show_list :
    (gssapi : Bool) (qsort : List (ℕ × Hostdef) → List (ℕ × Hostdef)) (rand : ℕ → ℕ) (e : Entry)
    (es : List Entry) (local_slots local_cpp_slots : ℤ)
    → AllEntries (e ∷ es)
    → parse_hosts gssapi qsort rand (show_list (e ∷ es)) local_slots local_cpp_slots
      ≡ ok (record {
        hosts = map host_of (e ∷ es);
        flag_randomize = false;
        local_slots = local_slots;
        local_cpp_slots = local_cpp_slots;
      })
unfolding parse_hosts finish_hosts
parse_hosts-show_list gssapi qsort rand e es local_slots local_cpp_slots good =
    let text = show_list (e ∷ es) in
    let long = length-show_list (e ∷ es) good in
    let spare = length text - 2 * length (e ∷ es) in
    let fuel : length text + 1 ≡ suc (2 * length (e ∷ es) + spare) = omega arith in
    rw fuel (
      rw
        (hosts_loop-show gssapi (e ∷ es) spare
          (record {
            hosts = [];
            flag_randomize = false;
            local_slots = local_slots;
            local_cpp_slots = local_cpp_slots;
          })
          good)
        refl)
