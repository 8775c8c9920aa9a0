-- ===== src/Hosts/Parser/Valid.antt =====
-- What the three parsers of host definitions in src/hosts.c guarantee of the host.
use distcc.Prelude.{
  ◌==◌, ◌≡◌, ◌≢◌, ◌⊎◌, inl, inr, refl, Bool, true, false, not, if◌then◌else◌, Option, none, some,
  [], ◌∷◌, drop, arith,
}
use distcc.Prelude.Bytes.{Bytes, codes, first, contains}
use mathlib.Core.Path.{subst}
use distcc.ExitCode.{Result, ok, err, >>=-returns, ok_inj, bad_hostspec}
use distcc.Hosts.Numbers.{pos}
use distcc.Hosts.{
  tcp, ssh, local, Hostdef, until, part_of, dup_part, multiply, parse_options, protover_of,
}
use distcc.Hosts.Usable.{
  IsUsable, Keeps, Keeps-IsUsable, multiply-slots, multiply-IsUsable, parse_options-Keeps,
}
use distcc.Hosts.Parser.{
  with_hostname, ssh_command_at, ssh_host_at, hostname_at, port_at, blanks_with, parse_ssh_host,
  parse_tcp_host, parse_localhost, parse_host, new_host,
}

-- The host is usable and has a mode; the version of a remote host is that of its features.
abbrev pub IsValid : Hostdef → Type 0
IsValid host =
    IsUsable host
    × ((host.mode ≡ some local)
        ⊎ (((host.mode ≡ some ssh) ⊎ (host.mode ≡ some tcp))
            × (protover_of host ≡ some host.protover)))

-- What is returned with a zero has the property.
abbrev pub Gives : {A : Type 0} → (A → Type 0) → Result A → Type 0
Gives P result = (value : _) → result ≡ ok value → P value

pub Gives-if :
    {A : Type 0} (P : A → Type 0) (test : Bool) (x y : Result A)
    → Gives P x
    → Gives P y
    → Gives P (if test then x else y)
Gives-if P true x y h k = h
Gives-if P false x y h k = k

-- The functions of the source call an empty part NULL.
part_of-not_empty : (parts : Bytes × Bytes) → (part_of parts).0 ≢ some []
unfolding part_of
part_of-not_empty ([], rest) = ground arith
part_of-not_empty (c ∷ part, rest) = ground arith

dup_part-not_empty : (src sep : Bytes) → (dup_part src sep).0 ≢ some []
unfolding dup_part
dup_part-not_empty src sep = part_of-not_empty (until sep src)

hostname_at-not_empty :
    (token rest : Bytes) (name : Option Bytes)
    → hostname_at token ≡ ok (name, rest)
    → name ≢ some []
unfolding hostname_at
hostname_at-not_empty token rest name h = ground (
  arith,
  dup_part-not_empty token (blanks_with (codes "/:")),
  dup_part-not_empty (drop 1 token) (blanks_with (codes "/]")),
)

with_hostname-IsUsable :
    (name : Option Bytes) (host host' : Hostdef)
    → with_hostname name host ≡ ok host'
    → name ≢ some []
    → host.n_slots ≢ pos 0
    → IsUsable host'
unfolding with_hostname
with_hostname-IsUsable none host host' h ne slotted = ground arith
with_hostname-IsUsable (some []) host host' h ne slotted = ground arith
with_hostname-IsUsable (some (c ∷ name)) host host' h ne slotted =
    let same : record host { hostname = some (c ∷ name) } ≡ host' = cc in
    subst (λ x. IsUsable x) same ((c, name, refl), slotted)

ssh_command_at-Keeps : (token : Bytes) (host : Hostdef) → Keeps host (ssh_command_at token host).1
unfolding ssh_command_at
ssh_command_at-Keeps token host = ground arith

port_at-Keeps :
    (token rest : Bytes) (host host' : Hostdef)
    → port_at token host ≡ ok (rest, host')
    → Keeps host host'
unfolding port_at
port_at-Keeps token rest host host' h = ground arith

ssh_host_at-IsValid :
    (gssapi : Bool) (token : Bytes) (host : Hostdef)
    → host.n_slots ≢ pos 0
    → Gives IsValid (ssh_host_at gssapi token host)
unfolding ssh_host_at
ssh_host_at-IsValid gssapi token host slotted host' h =
    let named = dup_part token (blanks_with (codes "/:")) in
    let (host₁, h₁, k₁) = >>=-returns (with_hostname named.0 host) _ h in
    let ((t₂, host₂), h₂, k₂) = >>=-returns (multiply named.1 host₁) _ k₁ in
    let commanded = ssh_command_at t₂ host₂ in
    let ((t₃, host₃), h₃, k₃) = >>=-returns (parse_options gssapi commanded.0 commanded.1) _ k₂ in
    let usable₁ =
      with_hostname-IsUsable named.0 host host₁ h₁ (dup_part-not_empty token _) slotted in
    let usable₂ = multiply-IsUsable named.1 t₂ host₁ host₂ h₂ usable₁ in
    let usable = Keeps-IsUsable host₂ commanded.1 (ssh_command_at-Keeps t₂ host₂) usable₂ in
    let (kept, known) = parse_options-Keeps gssapi commanded.0 t₃ commanded.1 host₃ h₃ in
    subst (λ x. IsValid x) (ok_inj k₃)
      (Keeps-IsUsable commanded.1 host₃ kept usable, inr (inl refl, known))

parse_ssh_host-IsValid :
    (gssapi : Bool) (host : Hostdef) (text : Bytes)
    → host.n_slots ≢ pos 0
    → Gives IsValid (parse_ssh_host gssapi host text)
unfolding parse_ssh_host
parse_ssh_host-IsValid gssapi host text slotted =
    let (user, token) = dup_part text (codes "@") in
    Gives-if IsValid (not (first token == b'@')) (err bad_hostspec) _ (λ host' h. ground arith)
      (ssh_host_at-IsValid gssapi (drop 1 token) (record host { user = user }) slotted)

parse_tcp_host-IsValid :
    (gssapi : Bool) (host : Hostdef) (text : Bytes)
    → host.n_slots ≢ pos 0
    → Gives IsValid (parse_tcp_host gssapi host text)
unfolding parse_tcp_host
parse_tcp_host-IsValid gssapi host text slotted host' h =
    let ((name, t₁), h₀, k₀) = >>=-returns (hostname_at text) _ h in
    let (host₁, h₁, k₁) = >>=-returns (with_hostname name host) _ k₀ in
    let ((t₂, host₂), h₂, k₂) = >>=-returns (multiply t₁ host₁) _ k₁ in
    let ((t₃, host₃), h₃, k₃) = >>=-returns (port_at t₂ host₂) _ k₂ in
    let ((t₄, host₄), h₄, k₄) = >>=-returns (multiply t₃ host₃) _ k₃ in
    let ((t₅, host₅), h₅, k₅) = >>=-returns (parse_options gssapi t₄ host₄) _ k₄ in
    let usable₁ =
      with_hostname-IsUsable name host host₁ h₁ (hostname_at-not_empty text t₁ name h₀) slotted in
    let usable₂ = multiply-IsUsable t₁ t₂ host₁ host₂ h₂ usable₁ in
    let usable₃ = Keeps-IsUsable host₂ host₃ (port_at-Keeps t₂ t₃ host₂ host₃ h₃) usable₂ in
    let usable₄ = multiply-IsUsable t₃ t₄ host₃ host₄ h₄ usable₃ in
    let (kept, known) = parse_options-Keeps gssapi t₄ t₅ host₄ host₅ h₅ in
    subst (λ x. IsValid x) (ok_inj k₅)
      (Keeps-IsUsable host₄ host₅ kept usable₄, inr (inr refl, known))

parse_localhost-IsValid :
    (host : Hostdef) (text : Bytes) → Gives IsValid (parse_localhost host text)
unfolding parse_localhost
parse_localhost-IsValid host text host' h =
    let start : Hostdef = record host {
      mode = some local;
      hostname = some (codes "localhost");
      n_slots = pos 2;
    } in
    let ((t, host₁), h₁, k₁) = >>=-returns (multiply (drop 9 text) start) _ h in
    let (slotted, named, local_mode) =
      multiply-slots (drop 9 text) t start host₁ h₁ (ground arith) in
    subst (λ x. IsValid x) (ok_inj k₁) (((b'l', codes "ocalhost", named), slotted), inl local_mode)

-- A token that is accepted gives a host that is valid.
pub parse_host-IsValid :
    (gssapi : Bool) (token text : Bytes) → Gives IsValid (parse_host gssapi token text)
unfolding parse_host
parse_host-IsValid gssapi token text =
    let host = new_host token in
    let four : pos 4 ≢ pos 0 = ground arith in
    Gives-if IsValid _ (parse_localhost host text) _ (parse_localhost-IsValid host text) (
      Gives-if IsValid (contains b'@' token) (parse_ssh_host gssapi host text) _
        (parse_ssh_host-IsValid gssapi host text four)
        (parse_tcp_host-IsValid gssapi host text four))
