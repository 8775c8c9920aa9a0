-- ===== src/Where/Order.antt =====
-- The nested loops of dcc_lock_one in src/where.c as one walk over a list of slots.
use distcc.Hosts.{Hostdef}
use distcc.Prelude.{
  ℕ, zero, suc, ◌+◌, ◌≡◌, ◌↔◌, true, false, none, some, List, [], ◌∷◌, ◌++◌, Bool-cases,
  Option-cases, inl, inr, length, refl, ap, sym, ◌∙◌, arith,
}
use mathlib.Core.Path.{subst}
use distcc.ExitCode.{ExitCode, busy}
use distcc.Where.{
  Locking, lock_host, Search, chosen, failed, nothing, is_busy, has_slot, over_hosts, over_slots,
}

abbrev pub Slots : Type 0
Slots = List (Hostdef × ℕ)

-- The hosts that have the slot number, with it.
abbrev pub with_slot : ℕ → List Hostdef → Slots
with_slot i_cpu [] = []
with_slot i_cpu (h ∷ hosts) = elim (has_slot i_cpu h.n_slots) [
  | false ↦ with_slot i_cpu hosts
  | true ↦ (h, i_cpu) ∷ with_slot i_cpu hosts
]

-- So many slots of each host from the i-th on, as far as it has them, in the order in which they are
-- to be tried: for each number, the slot of each host. dcc_lock_one tries the slots 0 to 49.
abbrev pub slots_from : ℕ → ℕ → List Hostdef → Slots
slots_from i_cpu zero hosts = []
slots_from i_cpu (suc left) hosts = with_slot i_cpu hosts ++ slots_from (i_cpu + 1) left hosts

-- The attempts from the t-th on, at these slots, have all found another process there.
abbrev pub AllBusy : Locking → ℕ → Slots → Type 0
AllBusy locking t [] = Unit {0}
AllBusy locking t ((h, i) ∷ l) = (lock_host locking t h i ≡ some busy) × AllBusy locking (t + 1) l

-- The walk.
unfoldable first_free : Locking → ℕ → Slots → Search
first_free locking t [] = nothing t
first_free locking t ((h, i) ∷ l) = elim (lock_host locking t h i) [
  | none ↦ chosen h i
  | some ret ↦ elim (is_busy ret) [ true ↦ first_free locking (t + 1) l | false ↦ failed ret ]
]

-- A walk over a list goes on behind another.
after : Search → (ℕ → Search) → Search
after (chosen h i) go = chosen h i
after (failed ret) go = failed ret
after (nothing t) go = go t

first_free-append :
    (locking : Locking) (t : ℕ) (l m : Slots)
    → first_free locking t (l ++ m) ≡ after (first_free locking t l) (λ t'. first_free locking t' m)
unfolding first_free after
first_free-append locking t [] m = refl
first_free-append locking t ((h, i) ∷ l) m = elim (Option-cases (lock_host locking t h i)) [
  | inl e ↦ rw (first_free, e) refl
  | inr (ret, e) ↦ elim (Bool-cases (is_busy ret)) [
    | inl k ↦ rw (first_free, e, k) (first_free-append locking (t + 1) l m)
    | inr k ↦ rw (first_free, e, k) refl
  ]
]

over_hosts-first_free :
    (locking : Locking) (t i_cpu : ℕ) (hosts : List Hostdef)
    → over_hosts locking t i_cpu hosts ≡ first_free locking t (with_slot i_cpu hosts)
unfolding over_hosts first_free
over_hosts-first_free locking t i_cpu [] = refl
over_hosts-first_free locking t i_cpu (h ∷ hosts) = elim (Bool-cases (has_slot i_cpu h.n_slots)) [
  | inl e ↦ elim (Option-cases (lock_host locking t h i_cpu)) [
    | inl k ↦ rw (over_hosts, first_free, with_slot, e, k) refl
    | inr (ret, k) ↦ elim (Bool-cases (is_busy ret)) [
      | inl b ↦
          rw (over_hosts, first_free, with_slot, e, k, b)
            (over_hosts-first_free locking (t + 1) i_cpu hosts)
      | inr b ↦ rw (over_hosts, first_free, with_slot, e, k, b) refl
    ]
  ]
  | inr e ↦ rw (over_hosts, with_slot, e) (over_hosts-first_free locking t i_cpu hosts)
]

after_slots :
    (locking : Locking) (i_cpu left : ℕ) (hosts : List Hostdef) (found : Search)
    → ((t : ℕ)
        → over_slots locking t (i_cpu + 1) left hosts
          ≡ first_free locking t (slots_from (i_cpu + 1) left hosts))
    → (elim found as (λ x. Search) [
      | chosen h i ↦ chosen h i
      | failed ret ↦ failed ret
      | nothing t ↦ over_slots locking t (i_cpu + 1) left hosts
    ])
      ≡ after found (λ t. first_free locking t (slots_from (i_cpu + 1) left hosts))
unfolding after
after_slots locking i_cpu left hosts (chosen h i) go = refl
after_slots locking i_cpu left hosts (failed ret) go = refl
after_slots locking i_cpu left hosts (nothing t) go = go t

over_slots-first_free :
    (locking : Locking) (t i_cpu left : ℕ) (hosts : List Hostdef)
    → over_slots locking t i_cpu left hosts ≡ first_free locking t (slots_from i_cpu left hosts)
unfolding over_slots first_free
over_slots-first_free locking t i_cpu zero hosts = refl
over_slots-first_free locking t i_cpu (suc left) hosts =
    rw (first_free-append locking t (with_slot i_cpu hosts) (slots_from (i_cpu + 1) left hosts)) (
      rw (← over_hosts-first_free locking t i_cpu hosts) (
        after_slots locking i_cpu left hosts (over_hosts locking t i_cpu hosts)
          (λ t'. over_slots-first_free locking t' (i_cpu + 1) left hosts)))

is_busy_lem : (ret : ExitCode) → is_busy ret ≡ true → ret ≡ busy
is_busy_lem busy h = refl
is_busy_lem _ h = cc

first_free-none :
    (locking : Locking) (t : ℕ) (h : Hostdef) (i : ℕ) (l : Slots)
    → lock_host locking t h i ≡ none
    → first_free locking t ((h, i) ∷ l) ≡ chosen h i
unfolding first_free
first_free-none locking t h i l free = rw (first_free, free) refl

first_free-busy :
    (locking : Locking) (t : ℕ) (h : Hostdef) (i : ℕ) (l : Slots)
    → lock_host locking t h i ≡ some busy
    → first_free locking t ((h, i) ∷ l) ≡ first_free locking (t + 1) l
unfolding first_free
first_free-busy locking t h i l taken = rw (first_free, taken) refl

first_free-failed :
    (locking : Locking) (t : ℕ) (h : Hostdef) (i : ℕ) (l : Slots) (ret : ExitCode)
    → lock_host locking t h i ≡ some ret
    → is_busy ret ≡ false
    → first_free locking t ((h, i) ∷ l) ≡ failed ret
unfolding first_free
first_free-failed locking t h i l ret fails k = rw (first_free, fails, k) refl

-- The slot is free at its attempt, and those in front of it in the list were busy at theirs.
abbrev pub IsFirstFree : Locking → ℕ → Slots → Hostdef × ℕ → Type 0
IsFirstFree locking t l slot =
    (pre : Slots) × (post : Slots) × (l ≡ pre ++ (slot ∷ post))
    × AllBusy locking t pre
    × (lock_host locking (t + length pre) slot.0 slot.1 ≡ none)

first_free-IsFirstFree :
    (locking : Locking) (t : ℕ) (l : Slots) (h : Hostdef) (i : ℕ)
    → first_free locking t l ≡ chosen h i
    → IsFirstFree locking t l (h, i)
unfolding first_free
first_free-IsFirstFree locking t [] h i e = cc
first_free-IsFirstFree locking t ((h', i') ∷ l) h i e =
    elim (Option-cases (lock_host locking t h' i')) [
      | inl k ↦
          let found : chosen h' i' ≡ chosen h i = sym (first_free-none locking t h' i' l k) ∙ e in
          let same : ◌≡◌ {A = Hostdef × ℕ} (h', i') (h, i) = cc in
          let start : t + 0 ≡ t = omega arith in
          subst (λ slot. IsFirstFree locking t ((h', i') ∷ l) slot) same
            ([], l, refl, tt, rw start k)
      | inr (ret, k) ↦ elim (Bool-cases (is_busy ret)) [
        | inl b ↦
            let taken : lock_host locking t h' i' ≡ some busy =
              k ∙ ap (λ r. some r) (is_busy_lem ret b) in
            let (pre, post, parts, all_busy, free) =
              first_free-IsFirstFree locking (t + 1) l h i
                (sym (first_free-busy locking t h' i' l taken) ∙ e) in
            let next : t + suc (length pre) ≡ t + 1 + length pre = omega arith in
            ((h', i') ∷ pre, post, ap (λ m. (h', i') ∷ m) parts, (taken, all_busy), rw next free)
        | inr b ↦
            let fails : failed ret ≡ chosen h i =
              sym (first_free-failed locking t h' i' l ret k b) ∙ e in
            cc
      ]
    ]

IsFirstFree-first_free :
    (locking : Locking) (t : ℕ) (pre post : Slots) (h : Hostdef) (i : ℕ)
    → AllBusy locking t pre
    → lock_host locking (t + length pre) h i ≡ none
    → first_free locking t (pre ++ ((h, i) ∷ post)) ≡ chosen h i
IsFirstFree-first_free locking t [] post h i all_busy free =
    let start : t ≡ t + 0 = omega arith in first_free-none locking t h i post (rw start free)
IsFirstFree-first_free locking t ((h', i') ∷ pre) post h i (taken, all_busy) free =
    let next : t + 1 + length pre ≡ t + suc (length pre) = omega arith in
    first_free-busy locking t h' i' (pre ++ ((h, i) ∷ post)) taken
    ∙ IsFirstFree-first_free locking (t + 1) pre post h i all_busy (rw next free)

-- A round of dcc_lock_one chooses a slot exactly where it is the first of the slots 0 to 49, in the
-- order of slot 0 of each host, then slot 1 of each host that has one, and so on, that is free when
-- it is tried, all those in front of it having been busy when they were tried. A slot with a number
-- of 50 or more is never chosen.
pub over_slots_iff :
    (locking : Locking) (t : ℕ) (hosts : List Hostdef) (h : Hostdef) (i : ℕ)
    → (over_slots locking t 0 50 hosts ≡ chosen h i)
      ↔ IsFirstFree locking t (slots_from 0 50 hosts) (h, i)
over_slots_iff locking t hosts h i = rw (over_slots-first_free locking t 0 50 hosts) (
  first_free-IsFirstFree locking t (slots_from 0 50 hosts) h i,
  λ (pre, post, parts, all_busy, free).
      rw parts (IsFirstFree-first_free locking t pre post h i all_busy free),
)

first_free-nothing :
    (locking : Locking) (t t' : ℕ) (l : Slots)
    → first_free locking t l ≡ nothing t'
    → (t' ≡ t + length l) × AllBusy locking t l
unfolding first_free
first_free-nothing locking t t' [] e = (ground arith, tt)
first_free-nothing locking t t' ((h, i) ∷ l) e = elim (Option-cases (lock_host locking t h i)) [
  | inl k ↦ let found : chosen h i ≡ nothing t' = sym (first_free-none locking t h i l k) ∙ e in cc
  | inr (ret, k) ↦ elim (Bool-cases (is_busy ret)) [
    | inl b ↦
        let taken : lock_host locking t h i ≡ some busy =
          k ∙ ap (λ r. some r) (is_busy_lem ret b) in
        let (ends, all_busy) =
          first_free-nothing locking (t + 1) t' l
            (sym (first_free-busy locking t h i l taken) ∙ e) in
        (omega (arith, ends), (taken, all_busy))
    | inr b ↦
        let fails : failed ret ≡ nothing t' = sym (first_free-failed locking t h i l ret k b) ∙ e in
        cc
  ]
]

-- A round that finds nothing has tried all slots, and all were busy.
pub over_slots-nothing :
    (locking : Locking) (t t' : ℕ) (hosts : List Hostdef)
    → over_slots locking t 0 50 hosts ≡ nothing t'
    → (t' ≡ t + length (slots_from 0 50 hosts)) × AllBusy locking t (slots_from 0 50 hosts)
over_slots-nothing locking t t' hosts e =
    first_free-nothing locking t t' (slots_from 0 50 hosts)
      (sym (over_slots-first_free locking t 0 50 hosts) ∙ e)
