-- ===== src/Locking/Names.antt =====
-- Which slots share a lock file of src/lock.c.
use distcc.Prelude.{
  ℕ, ◌≡◌, ap, sym, ◌∙◌, false, Option, none, some, some_inj, ◌∷◌, ◌++◌, drop, length, drop-append,
  arith,
}
use distcc.Prelude.Bytes.{Bytes, codes, first, contains, strrchr, strrchr-append}
use distcc.ExitCode.{ok, ok_inj, >>=-returns}
use distcc.Hosts.{Hostdef, Mode, tcp, ssh, local}
use distcc.Locking.{given, lock_part, make_lock_filename}
use distcc.Locking.Decimal.{
  print, print_int, print_inj, print_int_inj, print-plain, print_int-plain,
}

-- The same slot of the same host, as far as the mode tells hosts apart.
abbrev pub SameSlot : Option Mode → Option Mode → Hostdef → Hostdef → ℕ → ℕ → Type 0
SameSlot (some local) (some local) a b i j = i ≡ j
SameSlot (some tcp) (some tcp) a b i j = (a.hostname ≡ b.hostname) × (a.port ≡ b.port) × (i ≡ j)
SameSlot (some ssh) (some ssh) a b i j = (a.hostname ≡ b.hostname) × (i ≡ j)
SameSlot _ _ a b i j = ⊥

-- The last '_' of a text can be told.
split_last :
    (x y s t : Bytes)
    → contains b'_' s ≡ false
    → contains b'_' t ≡ false
    → x ++ (b'_' ∷ s) ≡ y ++ (b'_' ∷ t)
    → (x ≡ y) × (s ≡ t)
split_last x y s t s_plain t_plain same =
    let pairs = some_inj (
      sym (strrchr-append b'_' x s s_plain)
      ∙ (ap (strrchr b'_') same ∙ strrchr-append b'_' y t t_plain)) in
    (cc, cc)

given-ok : (o : Option Bytes) {s : Bytes} → given o ≡ ok s → o ≡ some s
unfolding given
given-ok none returned = cc
given-ok (some s) returned = ap some (ok_inj returned)

prefix_inj : (pre s t : Bytes) → pre ++ s ≡ pre ++ t → s ≡ t
prefix_inj pre s t same =
    sym (drop-append pre s) ∙ (ap (λ (u : Bytes). drop (length pre) u) same ∙ drop-append pre t)

-- The part of a name for a host that is reached over the network.
tcp_part :
    (a : Hostdef) (i : ℕ) {p : Bytes}
    → lock_part (some tcp) a i ≡ ok p
    → (h : Bytes) × (a.hostname ≡ some h)
      × (p ≡ codes "tcp_" ++ ((h ++ (b'_' ∷ print_int a.port)) ++ (b'_' ∷ print i)))
unfolding lock_part
tcp_part a i made =
    let (h, has, same) =
      >>=-returns (given a.hostname)
        (λ hostname.
          ok (codes "tcp_" ++ ((hostname ++ (b'_' ∷ print_int a.port)) ++ (b'_' ∷ print i))))
        made in
    (h, given-ok a.hostname has, sym (ok_inj same))

ssh_part :
    (a : Hostdef) (i : ℕ) {p : Bytes}
    → lock_part (some ssh) a i ≡ ok p
    → (h : Bytes) × (a.hostname ≡ some h) × (p ≡ codes "ssh_" ++ (h ++ (b'_' ∷ print i)))
unfolding lock_part
ssh_part a i made =
    let (h, has, same) =
      >>=-returns (given a.hostname)
        (λ hostname. ok (codes "ssh_" ++ (hostname ++ (b'_' ∷ print i)))) made in
    (h, given-ok a.hostname has, sym (ok_inj same))

local_part :
    (a : Hostdef) (i : ℕ) {p : Bytes}
    → lock_part (some local) a i ≡ ok p
    → p ≡ codes "localhost_" ++ print i
unfolding lock_part
local_part a i made = sym (ok_inj made)

lock_part-SameSlot :
    (m n : Option Mode) (a b : Hostdef) (i j : ℕ) (p : Bytes)
    → lock_part m a i ≡ ok p
    → lock_part n b j ≡ ok p
    → SameSlot m n a b i j
lock_part-SameSlot (some local) (some local) a b i j p made other = print_inj i j (
    prefix_inj (codes "localhost_") (print i) (print j)
      (sym (local_part a i made) ∙ local_part b j other))
lock_part-SameSlot (some tcp) (some tcp) a b i j p made other =
    let (h, a_has, a_same) = tcp_part a i made in
    let (k, b_has, b_same) = tcp_part b j other in
    let left = h ++ (b'_' ∷ print_int a.port) in
    let right = k ++ (b'_' ∷ print_int b.port) in
    let (front, slots) = split_last left right (print i) (print j) (print-plain i) (print-plain j) (
      prefix_inj (codes "tcp_") (left ++ (b'_' ∷ print i)) (right ++ (b'_' ∷ print j))
        (sym a_same ∙ b_same)) in
    let (names, ports) =
      split_last h k (print_int a.port) (print_int b.port) (print_int-plain a.port)
        (print_int-plain b.port) front in
    (cc, print_int_inj a.port b.port ports, print_inj i j slots)
lock_part-SameSlot (some ssh) (some ssh) a b i j p made other =
    let (h, a_has, a_same) = ssh_part a i made in
    let (k, b_has, b_same) = ssh_part b j other in
    let (names, slots) = split_last h k (print i) (print j) (print-plain i) (print-plain j) (
      prefix_inj (codes "ssh_") (h ++ (b'_' ∷ print i)) (k ++ (b'_' ∷ print j))
        (sym a_same ∙ b_same)) in
    (cc, print_inj i j slots)
lock_part-SameSlot (some local) (some tcp) a b i j p made other =
    let l = local_part a i made in
    let (k, has, r) = tcp_part b j other in absurd (omega (arith, ap first (sym l ∙ r)))
lock_part-SameSlot (some local) (some ssh) a b i j p made other =
    let l = local_part a i made in
    let (k, has, r) = ssh_part b j other in absurd (omega (arith, ap first (sym l ∙ r)))
lock_part-SameSlot (some tcp) (some local) a b i j p made other =
    let l = local_part b j other in
    let (k, has, r) = tcp_part a i made in absurd (omega (arith, ap first (sym l ∙ r)))
lock_part-SameSlot (some ssh) (some local) a b i j p made other =
    let l = local_part b j other in
    let (k, has, r) = ssh_part a i made in absurd (omega (arith, ap first (sym l ∙ r)))
lock_part-SameSlot (some tcp) (some ssh) a b i j p made other =
    let (h, a_has, l) = tcp_part a i made in
    let (k, has, r) = ssh_part b j other in absurd (omega (arith, ap first (sym l ∙ r)))
lock_part-SameSlot (some ssh) (some tcp) a b i j p made other =
    let (h, a_has, l) = ssh_part a i made in
    let (k, has, r) = tcp_part b j other in absurd (omega (arith, ap first (sym l ∙ r)))
lock_part-SameSlot none n a b i j p made other = unfold lock_part in cc
lock_part-SameSlot (some m) none a b i j p made other = unfold lock_part in cc

-- Two slots that dcc_make_lock_filename gives one lock file, with one directory and one lock name, are
-- the same slot of the same host: of a TCP host by name and port, of an SSH host by name, or of
-- localhost.
pub make_lock_filename-SameSlot :
    (dir lockname : Bytes) (a b : Hostdef) (i j : ℕ) (fname : Bytes)
    → make_lock_filename (ok dir) lockname a i ≡ ok fname
    → make_lock_filename (ok dir) lockname b j ≡ ok fname
    → SameSlot a.mode b.mode a b i j
unfolding make_lock_filename
make_lock_filename-SameSlot dir lockname a b i j fname made other =
    let pre = dir ++ (codes "/" ++ (lockname ++ codes "_")) in
    let (p, a_part, a_same) = >>=-returns (lock_part a.mode a i) (λ part. ok (pre ++ part)) made in
    let (q, b_part, b_same) = >>=-returns (lock_part b.mode b j) (λ part. ok (pre ++ part)) other in
    let same = prefix_inj pre p q (ok_inj (a_same ∙ sym b_same)) in
    lock_part-SameSlot a.mode b.mode a b i j q (rw same at a_part) b_part
