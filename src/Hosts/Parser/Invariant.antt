-- ===== src/Hosts/Parser/Invariant.antt =====
-- What dcc_parse_hosts of src/hosts.c guarantees of the list that it returns.
use distcc.Prelude.{
  some_inj, ℕ, zero, suc, ◌+◌, ◌==◌, ◌≡◌, ◌≢◌, inl, inr, ap, refl, sym, ◌∙◌, Bool, false,
  Bool-cases, Option, none, some, List, [], ◌∷◌, ◌++◌, length, drop, arith,
}
use distcc.Prelude.Bytes.{Bytes, isspace}
use mathlib.Core.Path.{subst}
use distcc.ExitCode.{Result, ok, err, undefined, exits, >>=-returns, ok_inj}
use distcc.Hosts.Numbers.{ℤ}
use distcc.Hosts.{Hostdef, parse_multiplier, finished}
use distcc.Hosts.Usable.{finished-ok}
use distcc.Hosts.Parser.Valid.{IsValid, Gives, Gives-if, parse_host-IsValid}
use distcc.Hosts.Parser.{
  HostList, parse_host, plain_slots, cpp_slots, keyword, host_or_keyword, parse_token, token_at,
  skip_comment, hosts_loop, pairs, second_of, randomize_host_list, no_hosts, finish_hosts,
  parse_hosts,
}

-- The property holds of each element.
abbrev pub Each : {A : Type 0} → (A → Type 0) → List A → Type 0
Each P [] = Unit {0}
Each P (x ∷ xs) = P x × Each P xs

Each-append :
    {A : Type 0} (P : A → Type 0) (xs ys : List A) → Each P xs → Each P ys → Each P (xs ++ ys)
Each-append P [] ys h k = k
Each-append P (x ∷ xs) ys (h, hs) k = (h, Each-append P xs ys hs k)

plain_slots-hosts :
    (st st' : HostList) (read : Result (Bytes × Option ℤ))
    → plain_slots st read ≡ ok (some st')
    → st'.hosts ≡ st.hosts
unfolding plain_slots
plain_slots-hosts st st' undefined h = ground arith
plain_slots-hosts st st' (exits e) h = ground arith
plain_slots-hosts st st' (err e) h = ground arith
plain_slots-hosts st st' (ok (rest, val)) h = ground arith

cpp_slots-hosts :
    (st st' : HostList) (text : Bytes) (read : Result (Bytes × Option ℤ))
    → cpp_slots st text read ≡ ok (some st')
    → st'.hosts ≡ st.hosts
unfolding cpp_slots
cpp_slots-hosts st st' text undefined h = ground arith
cpp_slots-hosts st st' text (exits e) h = ground arith
cpp_slots-hosts st st' text (err e) h = plain_slots-hosts st st' (parse_multiplier (drop 12 text)) h
cpp_slots-hosts st st' text (ok (rest, val)) h = ground arith

keyword-hosts :
    (text : Bytes) (st st' : HostList) → keyword text st ≡ ok (some st') → st'.hosts ≡ st.hosts
unfolding keyword
keyword-hosts text st st' h = ground (
  arith,
  cpp_slots-hosts st st' text (parse_multiplier (drop 16 text)),
  plain_slots-hosts st st' (parse_multiplier (drop 12 text)),
)

host_or_keyword-IsValid :
    (gssapi : Bool) (token text : Bytes) (st st' : HostList) (done : Option HostList)
    → keyword text st ≡ ok done
    → host_or_keyword gssapi token text st done ≡ ok st'
    → Each IsValid st.hosts
    → Each IsValid st'.hosts
unfolding host_or_keyword
host_or_keyword-IsValid gssapi token text st st' (some st₁) k h valid =
    subst (λ x. Each IsValid x.hosts) (ok_inj h)
      (subst (λ x. Each IsValid x) (sym (keyword-hosts text st st₁ k)) valid)
host_or_keyword-IsValid gssapi token text st st' none k h valid =
    let (host, parsed, added) = >>=-returns (parse_host gssapi token text) _ h in
    subst (λ x. Each IsValid x.hosts) (ok_inj added)
      (Each-append IsValid st.hosts (host ∷ []) valid
        (parse_host-IsValid gssapi token text host parsed, tt))

parse_token-IsValid :
    (gssapi : Bool) (token text : Bytes) (st st' : HostList)
    → parse_token gssapi token text st ≡ ok st'
    → Each IsValid st.hosts
    → Each IsValid st'.hosts
unfolding parse_token
parse_token-IsValid gssapi token text st st' h valid =
    let (done, k, parsed) = >>=-returns (keyword text st) _ h in
    host_or_keyword-IsValid gssapi token text st st' done k parsed valid

-- A run of the loop from this list ends in lists of valid hosts alone.
abbrev Keeps : Option (Result HostList) → Type 0
Keeps loop = (st : HostList) → loop ≡ some (ok st) → Each IsValid st.hosts

after_token-Keeps :
    (gssapi : Bool) (fuel : ℕ) (rest : Bytes) (parsed : Result HostList)
    → ((st : HostList) → parsed ≡ ok st → Keeps (hosts_loop gssapi fuel rest st))
    → Keeps (elim parsed as (λ x. Option (Result HostList)) [
      | undefined ↦ some undefined
      | exits e ↦ some (exits e)
      | err e ↦ some (err e)
      | ok st ↦ hosts_loop gssapi fuel rest st
    ])
after_token-Keeps gssapi fuel rest undefined go st h = ground arith
after_token-Keeps gssapi fuel rest (exits e) go st h = ground arith
after_token-Keeps gssapi fuel rest (err e) go st h = ground arith
after_token-Keeps gssapi fuel rest (ok st₁) go st h = go st₁ refl st h

hosts_loop-IsValid :
    (gssapi : Bool) (fuel : ℕ) (text : Bytes) (st : HostList)
    → Each IsValid st.hosts
    → Keeps (hosts_loop gssapi fuel text st)
unfolding hosts_loop
hosts_loop-IsValid gssapi zero text st valid = λ st' h. ground arith
hosts_loop-IsValid gssapi (suc fuel) [] st valid =
    λ st' h. subst (λ x. Each IsValid x.hosts) (ok_inj (some_inj h)) valid
hosts_loop-IsValid gssapi (suc fuel) (c ∷ s) st valid = elim (Bool-cases (c == b'#')) [
  | inl e ↦ rw (hosts_loop, e) (hosts_loop-IsValid gssapi fuel (skip_comment s) st valid)
  | inr e ↦ elim (Bool-cases (isspace c)) [
    | inl k ↦ rw (hosts_loop, e, k) (hosts_loop-IsValid gssapi fuel s st valid)
    | inr k ↦
        rw (hosts_loop, e, k)
          (after_token-Keeps gssapi fuel (token_at (c ∷ s)).1 _ (λ st₁ parsed.
            hosts_loop-IsValid gssapi fuel (token_at (c ∷ s)).1 st₁
              (parse_token-IsValid gssapi (token_at (c ∷ s)).0 (c ∷ s) st st₁ parsed valid)))
  ]
]

pairs-Each :
    (P : Hostdef → Type 0) (rand : ℕ → ℕ) (i : ℕ) (hosts : List Hostdef)
    → Each P hosts
    → Each (λ x. P x.1) (pairs rand i hosts)
unfolding pairs
pairs-Each P rand i [] h = tt
pairs-Each P rand i (host ∷ hosts) (h, hs) = (h, pairs-Each P rand (i + 1) hosts hs)

second_of-Each :
    (P : Hostdef → Type 0) (l : List (ℕ × Hostdef)) → Each (λ x. P x.1) l → Each P (second_of l)
unfolding second_of
second_of-Each P [] h = tt
second_of-Each P ((r, host) ∷ l) (h, hs) = (h, second_of-Each P l hs)

length-pairs :
    (rand : ℕ → ℕ) (i : ℕ) (hosts : List Hostdef) → length (pairs rand i hosts) ≡ length hosts
unfolding pairs
length-pairs rand i [] = refl
length-pairs rand i (host ∷ hosts) = ap (λ n. suc n) (length-pairs rand (i + 1) hosts)

length-second_of : (l : List (ℕ × Hostdef)) → length (second_of l) ≡ length l
unfolding second_of
length-second_of [] = refl
length-second_of ((r, host) ∷ l) = ap (λ n. suc n) (length-second_of l)

no_hosts-false : (hosts : List Hostdef) → no_hosts hosts ≡ false → length hosts ≢ 0
unfolding no_hosts
no_hosts-false [] h = ground arith
no_hosts-false (host ∷ hosts) h = omega arith

-- What qsort does with the pairs: it keeps their number, and adds none.
module _ (qsort : List (ℕ × Hostdef) → List (ℕ × Hostdef))
    (same_length : (l : List (ℕ × Hostdef)) → length (qsort l) ≡ length l)
    (same_elements : (P : ℕ × Hostdef → Type 0) (l : List (ℕ × Hostdef))
      → Each P l
      → Each P (qsort l)) where
  length-randomize_host_list :
      (rand : ℕ → ℕ) (hosts : List Hostdef)
      → length (randomize_host_list qsort rand hosts) ≡ length hosts
  unfolding randomize_host_list
  length-randomize_host_list rand hosts =
      length-second_of (qsort (pairs rand 0 hosts))
      ∙ same_length (pairs rand 0 hosts)
      ∙ length-pairs rand 0 hosts

  randomize_host_list-Each :
      (P : Hostdef → Type 0) (rand : ℕ → ℕ) (hosts : List Hostdef)
      → Each P hosts
      → Each P (randomize_host_list qsort rand hosts)
  unfolding randomize_host_list
  randomize_host_list-Each P rand hosts h =
      second_of-Each P _
        (same_elements (λ x. P x.1) (pairs rand 0 hosts) (pairs-Each P rand 0 hosts h))

  finish_hosts-IsValid :
      (rand : ℕ → ℕ) (st : HostList)
      → Each IsValid st.hosts
      → Gives (λ x. (length x.hosts ≢ 0) × Each IsValid x.hosts) (finish_hosts qsort rand st)
  unfolding finish_hosts
  finish_hosts-IsValid rand st valid = elim (Bool-cases (no_hosts st.hosts)) [
    | inl e ↦ rw (finish_hosts, e) (λ st' h. ground arith)
    | inr e ↦
        rw (finish_hosts, e)
          (Gives-if _ st.flag_randomize _ (ok st)
            (λ st' h.
              subst (λ x. (length x.hosts ≢ 0) × Each IsValid x.hosts) (ok_inj h)
                (
                  λ z.
                      no_hosts-false st.hosts e
                        (sym (length-randomize_host_list rand st.hosts) ∙ z),
                  randomize_host_list-Each IsValid rand st.hosts valid,
                ))
            (λ st' h.
              subst (λ x. (length x.hosts ≢ 0) × Each IsValid x.hosts) (ok_inj h)
                (no_hosts-false st.hosts e, valid)))
  ]

  -- Where dcc_parse_hosts succeeds, the list is not empty, and each of its hosts has a name that is
  -- not empty, slots other than zero, and a mode; the protocol version of a host that is not local
  -- is that of its features.
  pub parse_hosts-IsValid :
      (gssapi : Bool) (rand : ℕ → ℕ) (text : Bytes) (local_slots local_cpp_slots : ℤ)
      (st : HostList)
      → parse_hosts gssapi qsort rand text local_slots local_cpp_slots ≡ ok st
      → (length st.hosts ≢ 0) × Each IsValid st.hosts
  unfolding parse_hosts
  parse_hosts-IsValid gssapi rand text local_slots local_cpp_slots st h =
      let start : HostList = record {
        hosts = [];
        flag_randomize = false;
        local_slots = local_slots;
        local_cpp_slots = local_cpp_slots;
      } in
      let (st₁, looped, finish) =
        >>=-returns (finished (hosts_loop gssapi (length text + 1) text start)) _ h in
      let valid =
        hosts_loop-IsValid gssapi (length text + 1) text start tt st₁ (finished-ok _ st₁ looped) in
      finish_hosts-IsValid rand st₁ valid st finish
