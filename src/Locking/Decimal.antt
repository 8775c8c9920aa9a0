-- ===== src/Locking/Decimal.antt =====
-- The %d of the C library: numbers in decimal, and that they can be told apart.
use distcc.Prelude.{
  ℕ, zero, suc, ◌+◌, ◌-◌, ◌*◌, ◌/◌, ◌%◌, ◌<◌, ◌≡◌, refl, ap, sym, ◌∙◌, inl, inr, true, false,
  Bool-cases, ◌==◌, ltb, [], ◌∷◌, ◌++◌, if◌then◌else◌, arith,
}
use distcc.Prelude.Bytes.{Bytes, contains, contains-append}
use distcc.Hosts.Numbers.{ℤ, pos, negsuc}

-- The digits of a number below 10 ^ fuel.
unfoldable pub digits : ℕ → ℕ → Bytes
digits zero n = []
digits (suc fuel) n =
    let front = digits fuel (n / 10) in
    if ltb n 10 then (n + b'0') ∷ [] else front ++ ((n % 10 + b'0') ∷ [])

abbrev pub print : ℕ → Bytes
print n = digits (suc n) n

abbrev pub print_int : ℤ → Bytes
print_int (pos n) = print n
print_int (negsuc n) = b'-' ∷ print (suc n)

unfoldable pub value : ℕ → Bytes → ℕ
value acc [] = acc
value acc (c ∷ s) = value (acc * 10 + (c - b'0')) s

value-append : (acc : ℕ) (s t : Bytes) → value acc (s ++ t) ≡ value (value acc s) t
unfolding value
value-append acc [] t = refl
value-append acc (c ∷ s) t = value-append (acc * 10 + (c - b'0')) s t

pub value-digits : (fuel n : ℕ) → n < fuel → value 0 (digits fuel n) ≡ n
unfolding digits value
value-digits zero n less = absurd (omega arith)
value-digits (suc fuel) n less = elim (Bool-cases (ltb n 10)) [
  | inl small ↦ rw small (omega arith)
  | inr large ↦
      let front = value-digits fuel (n / 10) (ground arith) in
      rw (large, value-append 0 (digits fuel (n / 10)) ((n % 10 + b'0') ∷ []), front) (omega arith)
]

pub print_inj : (m n : ℕ) → print m ≡ print n → m ≡ n
print_inj m n same =
    sym (value-digits (suc m) m (omega arith))
    ∙ (ap (value 0) same ∙ value-digits (suc n) n (omega arith))

contains-digits :
    (c : ℕ)
    → ((d : ℕ) → d < 10 → (d + b'0' == c) ≡ false)
    → (fuel n : ℕ) → contains c (digits fuel n) ≡ false
unfolding digits contains
contains-digits c far zero n = refl
contains-digits c far (suc fuel) n = elim (Bool-cases (ltb n 10)) [
  | inl small ↦ rw (small, far n (ground arith)) refl
  | inr large ↦
      let front = contains-digits c far fuel (n / 10) in
      rw
        (
          large,
          contains-append c (digits fuel (n / 10)) ((n % 10 + b'0') ∷ []),
          front,
          far (n % 10) (omega arith),
        )
        refl
]

pub print-plain : (n : ℕ) → contains b'_' (print n) ≡ false
print-plain n = contains-digits b'_' (λ d less. ground arith) (suc n) n

print-no_minus : (n : ℕ) → contains b'-' (print n) ≡ false
print-no_minus n = contains-digits b'-' (λ d less. ground arith) (suc n) n

pub print_int-plain : (z : ℤ) → contains b'_' (print_int z) ≡ false
print_int-plain (pos n) = print-plain n
print_int-plain (negsuc n) = unfold contains in print-plain (suc n)

has_minus : (n : ℕ) → contains b'-' (print_int (negsuc n)) ≡ true
unfolding contains
has_minus n = refl

pub print_int_inj : (y z : ℤ) → print_int y ≡ print_int z → y ≡ z
print_int_inj (pos m) (pos n) same = ap pos (print_inj m n same)
print_int_inj (pos m) (negsuc n) same =
    let none_there = rw same at (print-no_minus m) in let there = has_minus n in cc
print_int_inj (negsuc m) (pos n) same =
    let none_there = rw (← same) at (print-no_minus n) in let there = has_minus m in cc
print_int_inj (negsuc m) (negsuc n) same =
    let digits_same : print (suc m) ≡ print (suc n) = cc in
    ap negsuc (omega (arith, print_inj (suc m) (suc n) digits_same))
