-- ===== src/Hosts/Parser/Pieces.antt =====
-- How src/hosts.c reads the parts of a host definition that has been written.
use distcc.Prelude.{
  ℕ, suc, ◌+◌, ◌≡◌, ◌≢◌, refl, inl, inr, Bool, true, false, Bool-cases, Option, none, some, [], ◌∷◌,
  ◌++◌, ◌==◌, ==_iff, all, length, arith,
}
use mathlib.Core.Path.{subst}
use distcc.Prelude.Bytes.{Bytes, contains, str_startswith}
use distcc.ExitCode.{ok}
use distcc.Hosts.Numbers.{pos, isdigit}
use distcc.Hosts.{
  Hostdef, dup_part, part_of, multiply, set_slots, parse_options, options_loop, read_option,
  get_protover_from_features,
}
use distcc.Hosts.Parts.{clean, until-clean, multiplier-print, multiplier-none, strtol-print}
use distcc.Hosts.Parser.{port_at, ends_port}
use distcc.Hosts.Parser.Printed.{
  Features, plain, compressed, pumped, show_slots, show_port, show_options, with_options, get_or,
  IsCount, IsPort,
}

contains-within :
    (more : Bytes) (c : ℕ) (less : Bytes)
    → all (λ d. contains d more) less ≡ true
    → contains c less ≡ true
    → contains c more ≡ true
unfolding contains
contains-within more c [] within there = absurd (cc)
contains-within more c (d ∷ less) within there = elim (Bool-cases (d == c)) [
  | inl same ↦ subst (λ x. contains x more ≡ true) ((==_iff d c).0 same) (ground arith)
  | inr other ↦ contains-within more c less (ground arith) (ground arith)
]

-- A text that is clean of more is clean of less.
pub clean_less :
    (more less s : Bytes)
    → all (λ c. contains c more) less ≡ true
    → clean more s ≡ true
    → clean less s ≡ true
clean_less more less [] within free = refl
clean_less more less (c ∷ s) within free =
    let below = clean_less more less s within (ground arith) in
    elim (Bool-cases (contains c less)) [
      | inl there ↦ let there' = contains-within more c less within there in ground arith
      | inr absent ↦ ground arith
    ]

add-one : (n : ℕ) → n + 1 ≡ suc n
add-one n = omega arith

pub dup_part-clean :
    (sep name : Bytes) (c : ℕ) (rest : Bytes)
    → name ≢ []
    → clean sep name ≡ true
    → contains c sep ≡ true
    → dup_part (name ++ (c ∷ rest)) sep ≡ (some name, c ∷ rest)
unfolding dup_part part_of
dup_part-clean sep [] c rest filled free ends = absurd (filled refl)
dup_part-clean sep (d ∷ name) c rest filled free ends =
    rw (until-clean sep (d ∷ name) c rest free ends) refl

pub multiply-slots_shown :
    (slots : Option ℕ) (c : ℕ) (rest : Bytes) (host : Hostdef)
    → IsCount slots
    → isdigit c ≡ false
    → (c == b'/') ≡ false
    → (c == b'=') ≡ false
    → multiply (show_slots slots (c ∷ rest)) host
      ≡ ok (c ∷ rest, set_slots (elim slots [ none ↦ none | some n ↦ some (pos n) ]) host)
unfolding multiply
multiply-slots_shown none c rest host good digit slash equals =
    rw (multiplier-none c rest slash equals) refl
multiply-slots_shown (some n) c rest host good digit slash equals =
    rw (multiplier-print n c rest good.0 good.1 digit) refl

pub port_at-shown :
    (port : Option ℕ) (c : ℕ) (rest : Bytes) (host : Hostdef)
    → IsPort port
    → isdigit c ≡ false
    → (c == b':') ≡ false
    → ends_port (c ∷ rest) ≡ true
    → port_at (show_port port (c ∷ rest)) host
      ≡ ok (c ∷ rest, record host { port = pos (get_or 3632 port) })
unfolding port_at
port_at-shown none c rest host good digit colon ends = rw colon refl
port_at-shown (some n) c rest host good digit colon ends =
    rw (strtol-print n c rest good digit, ends) refl

pub parse_options-shown :
    (gssapi : Bool) (features : Features) (down : Bool) (rest : Bytes) (host : Hostdef)
    → parse_options gssapi
        (show_options features down (b'\n' ∷ rest))
        (record host { is_up = true })
      ≡ ok (b'\n' ∷ rest, with_options features down host)
unfolding parse_options options_loop read_option str_startswith get_protover_from_features
parse_options-shown gssapi plain false rest host = rw (add-one (length (b'\n' ∷ rest))) refl
parse_options-shown gssapi plain true rest host =
    rw (add-one (length (show_options plain true (b'\n' ∷ rest)))) refl
parse_options-shown gssapi compressed false rest host =
    rw (add-one (length (show_options compressed false (b'\n' ∷ rest)))) refl
parse_options-shown gssapi compressed true rest host =
    rw (add-one (length (show_options compressed true (b'\n' ∷ rest)))) refl
parse_options-shown gssapi pumped false rest host =
    rw (add-one (length (show_options pumped false (b'\n' ∷ rest)))) refl
parse_options-shown gssapi pumped true rest host =
    rw (add-one (length (show_options pumped true (b'\n' ∷ rest)))) refl
