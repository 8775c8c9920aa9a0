-- ===== src/Hosts/Parser/Tokens.antt =====
-- Where dcc_parse_hosts of src/hosts.c finds the end of a host definition that has been written.
use distcc.Prelude.{
  ℕ, suc, ◌≡◌, refl, ap, sym, Bool, true, false, not, Option, none, some, [], ◌∷◌, ◌++◌, ==_iff,
  all, all-append, append_assoc, arith,
}
use distcc.Prelude.Bytes.{Bytes, codes, contains}
use distcc.Hosts.Numbers.{isdigit}
use distcc.Hosts.Parts.{clean, all-digits}
use distcc.Hosts.Parser.Pieces.{clean_less}
use distcc.Locking.Decimal.{print}
use distcc.Hosts.Parser.Printed.{
  Features, plain, compressed, pumped, Remote, Entry, local_entry, tcp_entry, ssh_entry, show,
  show_slots, show_port, show_command, show_options, show_down, separators, IsCommand, IsEntry,
}

all-implies :
    (p q : ℕ → Bool) (s : Bytes)
    → ((c : ℕ) → p c ≡ true → q c ≡ true)
    → all p s ≡ true
    → all q s ≡ true
all-implies p q [] implies h = refl
all-implies p q (c ∷ s) implies h =
    let here = implies c (ground arith) in
    let below = all-implies p q s implies (ground arith) in ground arith

-- Separators that are among those of names, and are no digits or marks of the other parts.
module _ (sep : Bytes) (names : all (λ c. contains c separators) sep ≡ true)
    (numbers : (c : ℕ) → isdigit c ≡ true → not (contains c sep) ≡ true)
    (marks : clean sep (codes "/:,lzocpdwn") ≡ true) where
  print-clean : (n : ℕ) → clean sep (print n) ≡ true
  print-clean n =
      all-implies isdigit (λ c. not (contains c sep)) (print n) numbers (all-digits (suc n) n)

  down-clean : (down : Bool) → clean sep (show_down down []) ≡ true
  unfolding contains
  down-clean false = refl
  down-clean true = ground (arith, marks)

  options-clean :
      (features : Features) (down : Bool) → clean sep (show_options features down []) ≡ true
  unfolding contains
  options-clean plain down = down-clean down
  options-clean compressed down = ground (arith, marks, down-clean down)
  options-clean pumped down = ground (arith, marks, down-clean down)

  slots-clean :
      (slots : Option ℕ) (text : Bytes)
      → clean sep text ≡ true
      → clean sep (show_slots slots text) ≡ true
  slots-clean none text free = free
  slots-clean (some n) text free =
      let all_of = all-append (λ c. not (contains c sep)) (print n) text (print-clean n) free in
      ground (arith, marks)

  port-clean :
      (port : Option ℕ) (text : Bytes)
      → clean sep text ≡ true
      → clean sep (show_port port text) ≡ true
  port-clean none text free = free
  port-clean (some n) text free =
      let all_of = all-append (λ c. not (contains c sep)) (print n) text (print-clean n) free in
      ground (arith, marks)

  tcp-clean :
      (r : Remote) (port : Option ℕ)
      → clean separators r.name ≡ true
      → clean sep (show (tcp_entry r port) []) ≡ true
  tcp-clean r port free =
      all-append (λ c. not (contains c sep)) r.name _ (clean_less separators sep r.name names free)
        (slots-clean r.slots _ (port-clean port _ (options-clean r.features r.down)))

  local-clean :
      (slots : Option ℕ)
      → clean sep (codes "localhost") ≡ true
      → clean sep (show (local_entry slots) []) ≡ true
  local-clean slots free =
      all-append (λ c. not (contains c sep)) (codes "localhost") (show_slots slots []) free
        (slots-clean slots [] refl)

  command-clean :
      (command : Option Bytes) (text : Bytes)
      → all (λ c. contains c (codes " #\t\n\r," ++ 12 ∷ [])) sep ≡ true
      → IsCommand command
      → clean sep text ≡ true
      → clean sep (show_command command text) ≡ true
  command-clean none text less good free = free
  command-clean (some command) text less good free =
      let own = clean_less (codes " #\t\n\r," ++ 12 ∷ []) sep command less good.1 in
      let all_of = all-append (λ c. not (contains c sep)) command text own free in
      ground (arith, marks)

  ssh-clean :
      (user : Bytes) (r : Remote) (command : Option Bytes)
      → all (λ c. contains c (codes " #\t\n\r," ++ 12 ∷ [])) sep ≡ true
      → contains b'@' sep ≡ false
      → clean separators user ≡ true
      → clean separators r.name ≡ true
      → IsCommand command
      → clean sep (show (ssh_entry user r command) []) ≡ true
  ssh-clean user r command less at user_free free good =
      let options = options-clean r.features r.down in
      let behind = slots-clean r.slots _ (command-clean command _ less good options) in
      let named =
        all-append (λ c. not (contains c sep)) r.name _
          (clean_less separators sep r.name names free) behind in
      all-append (λ c. not (contains c sep)) user _ (clean_less separators sep user names user_free)
        (ground (arith, named))

-- What ends a token.
abbrev pub blanks : Bytes
blanks = codes " #\t\n" ++ 12 ∷ b'\r' ∷ []

digit_no_blank : (c : ℕ) → isdigit c ≡ true → not (contains c blanks) ≡ true
unfolding contains
digit_no_blank c digit = ground arith

digit_no_at : (c : ℕ) → isdigit c ≡ true → not (contains c (codes "@")) ≡ true
unfolding contains
digit_no_at c digit = ground arith

-- The token of an entry has no blank.
pub show-clean : (e : Entry) → IsEntry e → clean blanks (show e []) ≡ true
unfolding contains
show-clean (local_entry slots) good = local-clean blanks refl digit_no_blank refl slots refl
show-clean (tcp_entry r port) good = tcp-clean blanks refl digit_no_blank refl r port good.1.0
show-clean (ssh_entry user r command) good =
    ssh-clean blanks refl digit_no_blank refl user r command refl refl good.0.0 good.2 good.4

clean-contains : (c : ℕ) (s : Bytes) → clean (c ∷ []) s ≡ true → contains c s ≡ false
unfolding contains
clean-contains c [] free = refl
clean-contains c (d ∷ s) free =
    let below = clean-contains c s (ground arith) in ground (arith, ==_iff c d, ==_iff d c)

pub tcp-no_at :
    (r : Remote) (port : Option ℕ)
    → clean separators r.name ≡ true
    → contains b'@' (show (tcp_entry r port) []) ≡ false
unfolding contains
tcp-no_at r port free =
    clean-contains b'@' (show (tcp_entry r port) [])
      (tcp-clean (codes "@") refl digit_no_at refl r port free)

contains_at : (s rest : Bytes) → contains b'@' (s ++ (b'@' ∷ rest)) ≡ true
unfolding contains
contains_at [] rest = refl
contains_at (c ∷ s) rest = ground (arith, contains_at s rest)

pub ssh-at :
    (user : Bytes) (r : Remote) (command : Option Bytes)
    → contains b'@' (show (ssh_entry user r command) []) ≡ true
unfolding contains
ssh-at user r command = contains_at user _

slots-append :
    (slots : Option ℕ) (text rest : Bytes)
    → show_slots slots (text ++ rest) ≡ show_slots slots text ++ rest
slots-append none text rest = refl
slots-append (some n) text rest =
    ap (λ (t : Bytes). b'/' ∷ t) (sym (append_assoc (print n) text rest))

port-append :
    (port : Option ℕ) (text rest : Bytes)
    → show_port port (text ++ rest) ≡ show_port port text ++ rest
port-append none text rest = refl
port-append (some n) text rest =
    ap (λ (t : Bytes). b':' ∷ t) (sym (append_assoc (print n) text rest))

command-append :
    (command : Option Bytes) (text rest : Bytes)
    → show_command command (text ++ rest) ≡ show_command command text ++ rest
command-append none text rest = refl
command-append (some command) text rest =
    ap (λ (t : Bytes). b':' ∷ t) (sym (append_assoc command text rest))

options-append :
    (features : Features) (down : Bool) (rest : Bytes)
    → show_options features down rest ≡ show_options features down [] ++ rest
options-append plain false rest = refl
options-append plain true rest = refl
options-append compressed false rest = refl
options-append compressed true rest = refl
options-append pumped false rest = refl
options-append pumped true rest = refl

-- What is written of an entry, and what stands behind it.
pub show-append : (e : Entry) (rest : Bytes) → show e rest ≡ show e [] ++ rest
show-append (local_entry slots) rest =
    ap (λ (t : Bytes). codes "localhost" ++ t) (slots-append slots [] rest)
show-append (tcp_entry r port) rest =
    let options = options-append r.features r.down rest in
    let ported = port-append port (show_options r.features r.down []) rest in
    let sized = slots-append r.slots (show_port port (show_options r.features r.down [])) rest in
    rw (options, ported, sized) (sym (append_assoc r.name _ rest))
show-append (ssh_entry user r command) rest =
    let options = options-append r.features r.down rest in
    let commanded = command-append command (show_options r.features r.down []) rest in
    let sized =
      slots-append r.slots (show_command command (show_options r.features r.down [])) rest in
    rw (options, commanded, sized) (simp append_assoc)
