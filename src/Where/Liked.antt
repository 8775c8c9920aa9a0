-- ===== src/Where/Liked.antt =====
-- What dcc_pick_host_from_list_and_lock_it of src/where.c guarantees of the host that it returns.
use distcc.Hosts.{Hostdef, is_zero}
use distcc.Hosts.Numbers.{ℤ}
use distcc.Hosts.Parser.Invariant.{Each}
use distcc.Prelude.{
  ℕ, zero, suc, ◌+◌, ◌≡◌, ◌⊎◌, inl, inr, true, false, Option, none, some, List, [], ◌∷◌, ◌++◌,
  Bool-cases, Option-cases, refl, sym, ap, ◌∙◌, arith,
}
use distcc.Prelude.Bytes.{Bytes}
use mathlib.Core.Path.{subst}
use distcc.ExitCode.{Result, ok, err}
use distcc.Where.{
  Locking, lock_host, Search, chosen, failed, nothing, has_slot, over_slots, lock_one, Timefile,
  check_backoff, keep_liked, backoff_period, remove_disliked, lock_some, lock_list, pick_host,
}
use distcc.Where.Order.{with_slot, slots_from, over_slots_iff}

Each-at :
    {A : Type 0} (P : A → Type 0) (pre : List A) (x : A) (post : List A)
    → Each P (pre ++ (x ∷ post))
    → P x
Each-at P [] x post (here, _) = here
Each-at P (y ∷ pre) x post (_, rest) = Each-at P pre x post rest

Each-join :
    {A : Type 0} (P : A → Type 0) (xs ys : List A) → Each P xs → Each P ys → Each P (xs ++ ys)
Each-join P [] ys h k = k
Each-join P (x ∷ xs) ys (h, hs) k = (h, Each-join P xs ys hs k)

-- The slot is one of its host, which has the property.
abbrev IsSlot : (Hostdef → Type 0) → Hostdef × ℕ → Type 0
IsSlot P (h, i) = P h × (has_slot i h.n_slots ≡ true)

with_slot-IsSlot :
    (P : Hostdef → Type 0) (i : ℕ) (hosts : List Hostdef)
    → Each P hosts
    → Each (IsSlot P) (with_slot i hosts)
with_slot-IsSlot P i [] all = tt
with_slot-IsSlot P i (h ∷ hosts) (here, rest) = elim (Bool-cases (has_slot i h.n_slots)) [
  | inl e ↦ rw (with_slot, e) ((here, e), with_slot-IsSlot P i hosts rest)
  | inr e ↦ rw (with_slot, e) (with_slot-IsSlot P i hosts rest)
]

slots_from-IsSlot :
    (P : Hostdef → Type 0) (i left : ℕ) (hosts : List Hostdef)
    → Each P hosts
    → Each (IsSlot P) (slots_from i left hosts)
slots_from-IsSlot P i zero hosts all = tt
slots_from-IsSlot P i (suc left) hosts all =
    Each-join (IsSlot P) (with_slot i hosts) (slots_from (i + 1) left hosts)
      (with_slot-IsSlot P i hosts all) (slots_from-IsSlot P (i + 1) left hosts all)

lock_host-up :
    (locking : Locking) (t : ℕ) (h : Hostdef) (i : ℕ)
    → lock_host locking t h i ≡ none
    → h.is_up ≡ true
unfolding lock_host
lock_host-up locking t h i e = ground arith

over_slots-IsSlot :
    (P : Hostdef → Type 0) (locking : Locking) (t : ℕ) (hosts : List Hostdef) (h : Hostdef) (i : ℕ)
    → Each P hosts
    → over_slots locking t 0 50 hosts ≡ chosen h i
    → IsSlot P (h, i) × (h.is_up ≡ true)
over_slots-IsSlot P locking t hosts h i all e =
    let (pre, post, parts, all_busy, free) = (over_slots_iff locking t hosts h i).0 e in
    (
      Each-at (IsSlot P) pre (h, i) post
          (subst (λ l. Each (IsSlot P) l) parts (slots_from-IsSlot P 0 50 hosts all)),
      lock_host-up locking _ h i free,
    )

chosen_at :
    (found : Search) (next : ℕ → Option (Result (Hostdef × ℕ))) (h : Hostdef) (i : ℕ)
    → (elim found as (λ x. Option (Result (Hostdef × ℕ))) [
      | chosen h' i' ↦ some (ok (h', i'))
      | failed ret ↦ some (err ret)
      | nothing t ↦ next t
    ])
      ≡ some (ok (h, i))
    → (found ≡ chosen h i) ⊎ ((t : ℕ) × (next t ≡ some (ok (h, i))))
chosen_at (chosen h' i') next h i e = inl cc
chosen_at (failed ret) next h i e = cc
chosen_at (nothing t) next h i e = inr (t, e)

lock_one-IsSlot :
    (P : Hostdef → Type 0) (fuel : ℕ) (locking : Locking) (t : ℕ) (hosts : List Hostdef)
    (h : Hostdef) (i : ℕ)
    → Each P hosts
    → lock_one fuel locking t hosts ≡ some (ok (h, i))
    → IsSlot P (h, i) × (h.is_up ≡ true)
unfolding lock_one
lock_one-IsSlot P zero locking t hosts h i all e = cc
lock_one-IsSlot P (suc fuel) locking t hosts h i all e =
    elim (chosen_at (over_slots locking t 0 50 hosts) (λ t'. lock_one fuel locking t' hosts) h i
      e) [
        | inl found ↦ over_slots-IsSlot P locking t hosts h i all found
        | inr (t', later) ↦ lock_one-IsSlot P fuel locking t' hosts h i all later
      ]

keep_liked-liked :
    (P : Hostdef → Type 0) (timefile : Timefile) (now : Hostdef → ℕ) (period : ℤ)
    (hosts : List Hostdef)
    → Each P hosts
    → Each
        (λ h. P h × (check_backoff timefile now period h ≡ none))
        (keep_liked timefile now period hosts)
unfolding keep_liked
keep_liked-liked P timefile now period [] all = tt
keep_liked-liked P timefile now period (h ∷ hosts) (here, rest) =
    elim (Option-cases (check_backoff timefile now period h)) [
      | inl e ↦ rw (keep_liked, e) ((here, e), keep_liked-liked P timefile now period hosts rest)
      | inr (ret, e) ↦ rw (keep_liked, e) (keep_liked-liked P timefile now period hosts rest)
    ]

lock_some-IsSlot :
    (P : Hostdef → Type 0) (fuel : ℕ) (locking : Locking) (hosts : List Hostdef) (h : Hostdef)
    (i : ℕ)
    → Each P hosts
    → lock_some fuel locking hosts ≡ some (ok (h, i))
    → IsSlot P (h, i) × (h.is_up ≡ true)
unfolding lock_some
lock_some-IsSlot P fuel locking [] h i all e = cc
lock_some-IsSlot P fuel locking (h' ∷ hosts) h i all e =
    lock_one-IsSlot P fuel locking 0 (h' ∷ hosts) h i all e

-- With a backoff period other than zero, the host that is picked from a list is up, has the slot
-- that is locked, and is not in its backoff period; what holds of all hosts of the list holds of it.
pub pick_host-liked :
    (P : Hostdef → Type 0) (fuel : ℕ) (locking : Locking) (timefile : Timefile) (now : Hostdef → ℕ)
    (bp : Option Bytes) (period : ℤ) (hostlist : List Hostdef) (h : Hostdef) (i : ℕ)
    → backoff_period bp ≡ ok period
    → is_zero period ≡ false
    → Each P hostlist
    → pick_host fuel locking timefile now bp (ok hostlist) ≡ some (ok (h, i))
    → P h
      × (h.is_up ≡ true)
      × (has_slot i h.n_slots ≡ true)
      × (check_backoff timefile now period h ≡ none)
unfolding pick_host remove_disliked
pick_host-liked P fuel locking timefile now bp period hostlist h i known nonzero all e =
    let kept : remove_disliked timefile now bp hostlist
        ≡ ok (keep_liked timefile now period hostlist) =
      rw (remove_disliked, known, nonzero) refl in
    let locked : lock_some fuel locking (keep_liked timefile now period hostlist)
        ≡ some (ok (h, i)) =
      sym (ap (λ r. lock_list fuel locking r) kept) ∙ e in
    let (((holds, liked), slot), up) =
      lock_some-IsSlot (λ x. P x × (check_backoff timefile now period x ≡ none)) fuel locking
        (keep_liked timefile now period hostlist) h i
        (keep_liked-liked P timefile now period hostlist all) locked in
    (holds, up, slot, liked)
