-- ===== src/Io/Loops.antt =====
-- dcc_readx of src/io.c against reading in one piece.
use distcc.Prelude.{
  ℕ, zero, suc, ◌-◌, ◌≤◌, ◌≡◌, Option, some, List, [], ◌∷◌, ◌++◌, refl, ap, length, take, drop,
  arith,
}
use distcc.Prelude.Bytes.{Bytes}
use distcc.ExitCode.{Result, ok}
use distcc.Hosts.Numbers.{ℤ}
use distcc.Rpc.{readx}
use distcc.Io.{Read, get_io_timeout, select_for_read, waited, smaller, prepend, readx_loop}

pub take-drop : {A : Type 0} (j : ℕ) (xs : List A) → take j xs ++ drop j xs ≡ xs
take-drop zero xs = refl
take-drop (suc j) [] = refl
take-drop (suc j) (x ∷ xs) = ap (λ t. x ∷ t) (take-drop j xs)

take_split :
    {A : Type 0} (j n : ℕ) (xs : List A)
    → j ≤ n
    → j ≤ length xs
    → (take j xs ++ take (n - j) (drop j xs) ≡ take n xs)
      × (drop (n - j) (drop j xs) ≡ drop n xs)
      × (length (drop j xs) ≡ length xs - j)
take_split zero n xs h k = let same : n - 0 ≡ n = omega arith in (rw same, rw same, omega arith)
take_split (suc j) zero xs h k = absurd (omega arith)
take_split (suc j) (suc n) [] h k = absurd (omega arith)
take_split {A} (suc j) (suc n) (x ∷ xs) h k =
    let (front, behind, size) = take_split j n xs (omega arith) (omega arith) in
    let less : suc n - suc j ≡ n - j = omega arith in
    (rw less (ap (λ (t : List A). x ∷ t) front), rw less behind, omega (arith, size))

-- Reading a piece and then the rest is reading all.
pub prepend-readx :
    (j len : ℕ) (input : Bytes)
    → j ≤ len
    → j ≤ length input
    → prepend (take j input) (some (readx (len - j) (drop j input))) ≡ some (readx len input)
unfolding prepend readx
prepend-readx j len input h k =
    let (front, behind, size) = take_split j len input h k in ground (arith, front, behind, size)

-- The answers are those of a system that does not fail, and select reports the descriptor at last.
abbrev IsFine : List Read → Type 0
IsFine [] = Unit {0}
IsFine (Read.chunk k ∷ answers) = IsFine answers
IsFine (Read.again selects ∷ answers) = (select_for_read selects ≡ some (ok tt)) × IsFine answers
IsFine (Read.interrupted ∷ answers) = IsFine answers
IsFine (Read.failed ∷ answers) = ⊥

abbrev chunks : List Read → ℕ
chunks [] = 0
chunks (Read.chunk k ∷ answers) = suc (chunks answers)
chunks (_ ∷ answers) = chunks answers

pub smaller_bounds :
    (k a b : ℕ)
    → (1 ≤ smaller (suc k) (smaller (suc a) (suc b)))
      × (smaller (suc k) (smaller (suc a) (suc b)) ≤ suc a)
      × (smaller (suc k) (smaller (suc a) (suc b)) ≤ suc b)
unfolding smaller
smaller_bounds k a b = ground arith

waited-ready :
    (timeout : Option Bytes) (n : ℤ) (selected : Option (Result (Unit {0})))
    → get_io_timeout timeout ≡ ok n
    → selected ≡ some (ok tt)
    → waited timeout selected ≡ some (ok tt)
waited-ready timeout n selected patient woken = rw (waited, patient) woken

-- Where nothing fails, and read gives bytes, or the end, as often as there are bytes to read, dcc_readx
-- ends as one read of all of them would, however the calls are interrupted and the bytes divided.
pub readx_loop-readx :
    (timeout : Option Bytes) (n : ℤ) (answers : List Read) (len : ℕ) (input : Bytes)
    → get_io_timeout timeout ≡ ok n
    → IsFine answers
    → len ≤ chunks answers
    → readx_loop timeout answers len input ≡ some (readx len input)
unfolding readx_loop readx
readx_loop-readx timeout n answers zero input patient fine enough = ground arith
readx_loop-readx timeout n [] (suc len) input patient fine enough = absurd (omega arith)
readx_loop-readx timeout n (Read.interrupted ∷ answers) (suc len) input patient fine enough =
    readx_loop-readx timeout n answers (suc len) input patient fine enough
readx_loop-readx timeout n (Read.failed ∷ answers) (suc len) input patient fine enough = absurd fine
readx_loop-readx timeout n (Read.again selects ∷ answers) (suc len) input patient (woken, fine)
      enough =
    rw (readx_loop, waited-ready timeout n (select_for_read selects) patient woken)
      (readx_loop-readx timeout n answers (suc len) input patient fine enough)
readx_loop-readx timeout n (Read.chunk k ∷ answers) (suc len) [] patient fine enough = ground arith
readx_loop-readx timeout n (Read.chunk k ∷ answers) (suc len) (c ∷ input) patient fine enough =
    let r = smaller (suc k) (smaller (suc len) (suc (length input))) in
    let (some_read, within, there) = smaller_bounds k len (length input) in
    rw
      (readx_loop-readx timeout n answers (suc len - r) (drop r (c ∷ input)) patient fine
        (omega (arith, enough, some_read)))
      (prepend-readx r (suc len) (c ∷ input) within there)
