-- ===== src/Tests/HostLists.antt =====
-- The host list of src/hosts.c.
use distcc.Prelude.{ℕ, ◌≡◌, ◌≢◌, ◌↔◌, refl, true, false, none, some, List, [], ◌∷◌, length, arith}
use distcc.Prelude.Bytes.{Bytes, codes, contains, str_startswith}
use distcc.ExitCode.{ok, err, bad_hostspec}
use distcc.Hosts.{
  Hostdef, tcp, ssh, local, compress_none, lzo1x, on_client, on_server, get_features_from_protover,
  get_protover_from_features, options_loop,
}
use distcc.Hosts.Numbers.{ℤ, pos, negsuc}
use distcc.Hosts.Loops.{hosts_loop-returns}
use distcc.Hosts.Parser.{HostList, new_host, parse_hosts, hosts_loop}
use distcc.Hosts.Parser.Printed.{
  Entry, compressed, pumped, local_entry, tcp_entry, ssh_entry, show_list, host_of,
}
use distcc.Hosts.Parser.Lists.{parse_hosts-show_list}
use distcc.Hosts.Parser.Valid.{IsValid}
use distcc.Hosts.Parser.Invariant.{Each, parse_hosts-IsValid}

abbrev in_order : List (ℕ × Hostdef) → List (ℕ × Hostdef)
in_order l = l

abbrev two_hosts : HostList
two_hosts = record {
  hosts =
      record (new_host (codes "localhost/3")) {
        mode = some local;
        hostname = some (codes "localhost");
        n_slots = pos 3;
      }
      ∷ record (new_host (codes "a@b,lzo")) {
        mode = some ssh;
        user = some (codes "a");
        hostname = some (codes "b");
        protover = 2;
        compr = lzo1x;
        cpp_where = some on_client;
      }
      ∷ [];
  flag_randomize = true;
  local_slots = pos 4;
  local_cpp_slots = pos 8;
}

parse_hosts_runs :
    (parse_hosts false in_order
        (λ i. i)
        (codes "localhost/3 # x\n a@b,lzo --randomize")
        (pos 4)
        (pos 8)
      ≡ ok two_hosts)
    × (parse_hosts false in_order (λ i. i) (codes "# none") (pos 4) (pos 8) ≡ err bad_hostspec)
    × (parse_hosts false in_order (λ i. i) (codes "b/0") (pos 4) (pos 8) ≡ err bad_hostspec)
    × (parse_hosts false in_order (λ i. i) (codes "b,cpp") (pos 4) (pos 8) ≡ err bad_hostspec)
    × (parse_hosts false in_order (λ i. i) (codes "b/-3") (pos 4) (pos 8)
        ≡ ok (record {
          hosts =
              record (new_host (codes "b/-3")) {
                mode = some tcp;
                hostname = some (codes "b");
                port = pos 3632;
                n_slots = negsuc 2;
                cpp_where = some on_client;
              }
              ∷ [];
          flag_randomize = false;
          local_slots = pos 4;
          local_cpp_slots = pos 8;
        }))
unfolding distcc.Hosts.Numbers.take_decimal distcc.Hosts.Numbers.number_at distcc.Hosts.Numbers.atoi
    distcc.Hosts.Numbers.strtol distcc.Hosts.get_features_from_protover
    distcc.Hosts.get_protover_from_features distcc.Hosts.until distcc.Hosts.dup_part
    distcc.Hosts.skip_digits distcc.Hosts.parse_multiplier distcc.Hosts.multiply
    distcc.Hosts.read_option distcc.Hosts.options_loop distcc.Hosts.parse_options
    distcc.Hosts.Parser.parse_ssh_host distcc.Hosts.Parser.parse_tcp_host
    distcc.Hosts.Parser.parse_localhost distcc.Hosts.Parser.parse_host
    distcc.Hosts.Parser.skip_comment distcc.Hosts.Parser.keyword distcc.Hosts.Parser.parse_token
    distcc.Hosts.Parser.hosts_loop distcc.Hosts.Parser.randomize_host_list
    distcc.Hosts.Parser.finish_hosts distcc.Hosts.Parser.parse_hosts
    distcc.Prelude.Bytes.str_startswith distcc.Prelude.Bytes.contains distcc.Prelude.Bytes.isspace
    distcc.Prelude.Bytes.skip_space
parse_hosts_runs = (refl, refl, refl, refl, refl)

hosts_loop-returns_example : hosts_loop false 11 (codes "a@b #x\nb/2") two_hosts ≢ none
hosts_loop-returns_example =
    hosts_loop-returns false 11 (codes "a@b #x\nb/2") two_hosts (omega arith)

parse_hosts-IsValid_example : (length two_hosts.hosts ≢ 0) × Each IsValid two_hosts.hosts
parse_hosts-IsValid_example =
    parse_hosts-IsValid in_order (λ l. refl) (λ P l h. h) false (λ i. i)
      (codes "localhost/3 # x\n a@b,lzo --randomize") (pos 4) (pos 8) two_hosts parse_hosts_runs.0

abbrev written : Entry
written =
    tcp_entry (record { name = codes "b"; slots = some 3; features = pumped; down = false })
      (some 22)

parse_hosts-show_list_example :
    parse_hosts false in_order
      (λ i. i)
      (show_list (written ∷ local_entry (some 2) ∷ []))
      (pos 4)
      (pos 8)
    ≡ ok (record {
      hosts = host_of written ∷ host_of (local_entry (some 2)) ∷ [];
      flag_randomize = false;
      local_slots = pos 4;
      local_cpp_slots = pos 8;
    })
unfolding str_startswith contains
parse_hosts-show_list_example =
    parse_hosts-show_list false in_order (λ i. i) written (local_entry (some 2) ∷ []) (pos 4)
      (pos 8)
      (
        (
          (λ e. absurd (cc)),
          (refl, (λ e. absurd (omega arith)), refl),
          ((λ e. absurd (omega arith)), omega arith),
          omega arith,
        ),
        (((λ e. absurd (omega arith)), omega arith), tt),
      )

-- A list with all three kinds of hosts.
shown :
    show_list (
      written
      ∷ ssh_entry
          (codes "me")
          (record { name = codes "c"; slots = none; features = compressed; down = true })
          (some (codes "sh"))
      ∷ local_entry none
      ∷ [])
    ≡ codes "b/3:22,lzo,cpp\nme@c:sh,lzo,down\nlocalhost\n"
unfolding distcc.Locking.Decimal.digits
shown = refl
