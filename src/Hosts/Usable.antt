-- ===== src/Hosts/Usable.antt =====
-- What src/hosts.c guarantees of every host that it puts in the list.
use distcc.Prelude.{
  ℕ, zero, suc, ◌+◌, ◌==◌, ◌≡◌, ◌≢◌, inl, inr, ap, refl, Bool, true, false, ◌||◌, if◌then◌else◌,
  Option-cases, sym, ◌∙◌, Option, none, some, ◌∷◌, length, drop, arith,
}
use distcc.Prelude.Bytes.{Bytes, first}
use mathlib.Core.Path.{subst}
use distcc.ExitCode.{Result, ok, ◌>>=◌, >>=-returns}
use distcc.Hosts.Numbers.{ℤ, pos, negsuc, atoi}
use distcc.Hosts.{
  Hostdef, parse_multiplier, multiply, set_slots, slots_or_error, without_options, set_protover,
  read_option, options_loop, parse_options, finished, protover_of,
}

-- The host has a name that is not empty, and a number of slots other than zero.
abbrev pub IsUsable : Hostdef → Type 0
IsUsable host =
    ((c : ℕ) × (name : Bytes) × (host.hostname ≡ some (c ∷ name))) × (host.n_slots ≢ pos 0)

-- The second host has the name and the slots of the first.
abbrev pub Keeps : Hostdef → Hostdef → Type 0
Keeps host host' = (host'.hostname ≡ host.hostname) × (host'.n_slots ≡ host.n_slots)

pub Keeps-IsUsable : (host host' : Hostdef) → Keeps host host' → IsUsable host → IsUsable host'
Keeps-IsUsable host host' (same_name, same_slots) ((c, name, named), slotted) =
    ((c, name, same_name ∙ named), λ zero_slots. slotted (sym same_slots ∙ zero_slots))

slots_or_error-some :
    (s rest : Bytes) (read val : ℤ) → slots_or_error s read ≡ ok (rest, some val) → val ≢ pos 0
unfolding slots_or_error
slots_or_error-some s rest (pos n) val h = ground arith
slots_or_error-some s rest (negsuc n) val h = ground arith

marked-slots :
    (marked : Bool) (src rest : Bytes) (val : ℤ)
    → (if marked then atoi (drop 1 src) >>= slots_or_error (drop 1 src) else ok (src, none))
      ≡ ok (rest, some val)
    → val ≢ pos 0
marked-slots false src rest val h = ground arith
marked-slots true src rest val h =
    let (read, _, checked) = >>=-returns (atoi (drop 1 src)) (slots_or_error (drop 1 src)) h in
    slots_or_error-some (drop 1 src) rest read val checked

parse_multiplier-slots :
    (src rest : Bytes) (val : ℤ) → parse_multiplier src ≡ ok (rest, some val) → val ≢ pos 0
unfolding parse_multiplier
parse_multiplier-slots src rest val h =
    marked-slots (first src == b'/' || first src == b'=') src rest val h

-- A multiplier leaves a host with slots, and changes nothing else that is read below.
set_slots-slots :
    (slots : Option ℤ) (host : Hostdef)
    → ((val : ℤ) → slots ≡ some val → val ≢ pos 0)
    → host.n_slots ≢ pos 0
    → ((set_slots slots host).n_slots ≢ pos 0)
      × ((set_slots slots host).hostname ≡ host.hostname)
      × ((set_slots slots host).mode ≡ host.mode)
set_slots-slots none host nonzero slotted = (slotted, refl, refl)
set_slots-slots (some val) host nonzero slotted = (nonzero val refl, refl, refl)

pub multiply-slots :
    (src rest : Bytes) (host host' : Hostdef)
    → multiply src host ≡ ok (rest, host')
    → host.n_slots ≢ pos 0
    → (host'.n_slots ≢ pos 0) × (host'.hostname ≡ host.hostname) × (host'.mode ≡ host.mode)
unfolding multiply
multiply-slots src rest host host' h slotted =
    let ((t, slots), parsed, set) = >>=-returns (parse_multiplier src) _ h in
    let same : set_slots slots host ≡ host' = cc in
    subst (λ x. (x.n_slots ≢ pos 0) × (x.hostname ≡ host.hostname) × (x.mode ≡ host.mode)) same
      (set_slots-slots slots host
        (λ val e. parse_multiplier-slots src t val (parsed ∙ ap (λ x. ok (t, x)) e)) slotted)

pub multiply-IsUsable :
    (src rest : Bytes) (host host' : Hostdef)
    → multiply src host ≡ ok (rest, host')
    → IsUsable host
    → IsUsable host'
multiply-IsUsable src rest host host' h ((c, name, named), slotted) =
    let (slotted', same, _) = multiply-slots src rest host host' h slotted in
    ((c, name, same ∙ named), slotted')

read_option-Keeps :
    (gssapi : Bool) (p : Bytes) (host host' : Hostdef) (n : ℕ)
    → read_option gssapi p host ≡ some (n, host')
    → Keeps host host'
unfolding read_option
read_option-Keeps gssapi p host host' n h = ground arith

options_loop-Keeps :
    (gssapi : Bool) (fuel : ℕ) (p rest : Bytes) (host host' : Hostdef)
    → options_loop gssapi fuel p host ≡ some (ok (rest, host'))
    → Keeps host host'
unfolding options_loop
options_loop-Keeps gssapi zero p rest host host' h = ground arith
options_loop-Keeps gssapi (suc fuel) p rest host host' h =
    elim (Option-cases (read_option gssapi (drop 1 p) host)) [
      | inl e ↦ ground (arith, e)
      | inr ((n, host₁), e) ↦ ground (
        arith,
        e,
        read_option-Keeps gssapi (drop 1 p) host host₁ n e,
        options_loop-Keeps gssapi fuel (drop n (drop 1 p)) rest host₁ host',
      )
    ]

pub finished-ok :
    {A : Type 0} (loop : Option (Result A)) (value : A)
    → finished loop ≡ ok value
    → loop ≡ some (ok value)
finished-ok none value h = ground arith
finished-ok (some r) value h = ap (λ x. some x) h

set_protover-Keeps :
    (t rest : Bytes) (host host' : Hostdef) (known : Option ℕ)
    → protover_of host ≡ known
    → set_protover t host known ≡ ok (rest, host')
    → Keeps host host' × (protover_of host' ≡ some host'.protover)
unfolding set_protover
set_protover-Keeps t rest host host' none e h = ground arith
set_protover-Keeps t rest host host' (some protover) e h =
    let same : record host { protover = protover } ≡ host' = cc in
    subst (λ x. Keeps host x × (protover_of x ≡ some x.protover)) same ((refl, refl), e)

pub parse_options-Keeps :
    (gssapi : Bool) (src rest : Bytes) (host host' : Hostdef)
    → parse_options gssapi src host ≡ ok (rest, host')
    → Keeps host host' × (protover_of host' ≡ some host'.protover)
unfolding parse_options
parse_options-Keeps gssapi src rest host host' h =
    let ((t, host₁), read, set) =
      >>=-returns (finished (options_loop gssapi (length src + 1) src (without_options host)))
        (λ (t, host₁). set_protover t host₁ (protover_of host₁)) h in
    let read' = finished-ok _ (t, host₁) read in
    let (name₁, slots₁) =
      options_loop-Keeps gssapi (length src + 1) src t (without_options host) host₁ read' in
    let ((name₂, slots₂), known) =
      set_protover-Keeps t rest host₁ host' (protover_of host₁) refl set in
    ((name₂ ∙ name₁, slots₂ ∙ slots₁), known)
