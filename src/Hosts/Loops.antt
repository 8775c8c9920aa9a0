-- ===== src/Hosts/Loops.antt =====
-- The fuel of the loops of src/hosts.c.
use distcc.Prelude.{
  ℕ, zero, suc, ◌≡◌, ◌≢◌, ◌≤◌, ◌<◌, Bool, false, Option, none, some, Option-cases, Bool-cases, ◌==◌,
  inl, inr, ◌++◌, List, [], ◌∷◌, length, drop, arith,
}
use distcc.Prelude.Bytes.{Bytes, codes, contains, isspace}
use distcc.ExitCode.{Result, undefined, exits, err, ok}
use distcc.Hosts.{Hostdef, until, read_option, options_loop}
use distcc.Hosts.Parser.{HostList, hosts_loop, skip_comment, token_at, parse_token}

length-drop : {A : Type 0} (n : ℕ) (xs : List A) → length (drop n xs) ≤ length xs
length-drop zero xs = omega arith
length-drop (suc n) [] = omega arith
length-drop (suc n) (x ∷ xs) = omega (arith, length-drop n xs)

length-skip_comment : (s : Bytes) → length (skip_comment s) ≤ length s
unfolding skip_comment
length-skip_comment [] = omega arith
length-skip_comment (c ∷ s) = ground (arith, length-skip_comment s)

length-until : (sep s : Bytes) → length (until sep s).1 ≤ length s
unfolding until
length-until sep [] = omega arith
length-until sep (c ∷ s) = ground (arith, length-until sep s)

-- A token is not empty where its first byte is no separator.
length-token_at :
    (c : ℕ) (s : Bytes) → c ≢ b'#' → isspace c ≡ false → length (token_at (c ∷ s)).1 ≤ length s
unfolding until contains isspace
length-token_at c s h k = ground (arith, length-until (codes " #\t\n" ++ 12 ∷ b'\r' ∷ []) s)

-- With more fuel than the text has bytes, the loop over the options of a host ends.
options_loop-returns :
    (gssapi : Bool) (fuel : ℕ) (p : Bytes) (host : Hostdef)
    → length p < fuel
    → options_loop gssapi fuel p host ≢ none
unfolding options_loop
options_loop-returns gssapi zero p host h = omega arith
options_loop-returns gssapi (suc fuel) [] host h = ground arith
options_loop-returns gssapi (suc fuel) (c ∷ p) host h =
    elim (Option-cases (read_option gssapi p host)) [
      | inl e ↦ ground (arith, e)
      | inr ((n, host'), e) ↦ ground (
        arith,
        e,
        options_loop-returns gssapi fuel (drop n p) host' (omega (arith, h, length-drop n p)),
      )
    ]

after_token-returns :
    (gssapi : Bool) (fuel : ℕ) (rest : Bytes) (parsed : Result HostList)
    → ((st : HostList) → hosts_loop gssapi fuel rest st ≢ none)
    → (elim parsed as (λ x. Option (Result HostList)) [
      | undefined ↦ some undefined
      | exits e ↦ some (exits e)
      | err e ↦ some (err e)
      | ok st ↦ hosts_loop gssapi fuel rest st
    ])
      ≢ none
after_token-returns gssapi fuel rest undefined go = ground arith
after_token-returns gssapi fuel rest (exits e) go = ground arith
after_token-returns gssapi fuel rest (err e) go = ground arith
after_token-returns gssapi fuel rest (ok st) go = go st

-- With more fuel than the text has bytes, the loop of dcc_parse_hosts ends.
pub hosts_loop-returns :
    (gssapi : Bool) (fuel : ℕ) (text : Bytes) (st : HostList)
    → length text < fuel
    → hosts_loop gssapi fuel text st ≢ none
unfolding hosts_loop
hosts_loop-returns gssapi zero text st h = omega arith
hosts_loop-returns gssapi (suc fuel) [] st h = ground arith
hosts_loop-returns gssapi (suc fuel) (c ∷ s) st h = elim (Bool-cases (c == b'#')) [
  | inl e ↦
      rw (hosts_loop, e)
        (hosts_loop-returns gssapi fuel (skip_comment s) st
          (omega (arith, h, length-skip_comment s)))
  | inr e ↦ elim (Bool-cases (isspace c)) [
    | inl k ↦ rw (hosts_loop, e, k) (hosts_loop-returns gssapi fuel s st (omega (arith, h)))
    | inr k ↦
        rw (hosts_loop, e, k)
          (after_token-returns gssapi fuel (token_at (c ∷ s)).1
            (parse_token gssapi (token_at (c ∷ s)).0 (c ∷ s) st)
            (λ st'.
              hosts_loop-returns gssapi fuel (token_at (c ∷ s)).1 st'
                (omega (arith, h, length-token_at c s (ground (arith, e)) k))))
  ]
]
