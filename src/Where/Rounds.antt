-- ===== src/Where/Rounds.antt =====
-- When dcc_lock_one of src/where.c returns, and when it goes round forever.
use distcc.Hosts.{Hostdef}
use distcc.Hosts.Numbers.{ℤ, pos, negsuc}
use distcc.Hosts.Parser.Invariant.{Each}
use distcc.Prelude.{
  ℕ, zero, suc, ◌+◌, ◌≤◌, ◌≡◌, ◌≢◌, ◌⊎◌, inl, inr, false, Option, none, some, List, [], ◌∷◌, ◌++◌,
  Bool-cases, length, length-append, refl, ap, sym, ◌∙◌, arith,
}
use mathlib.Core.Path.{subst}
use distcc.ExitCode.{Result, ok, err, busy}
use distcc.Where.{
  Locking, lock_host, Search, chosen, failed, nothing, has_slot, over_hosts, over_slots, lock_one,
}
use distcc.Where.Order.{Slots, slots_from, AllBusy, over_slots-nothing}

AllBusy-at :
    (locking : Locking) (t : ℕ) (pre post : Slots) (h : Hostdef) (i : ℕ)
    → AllBusy locking t (pre ++ ((h, i) ∷ post))
    → lock_host locking (t + length pre) h i ≡ some busy
AllBusy-at locking t [] post h i (taken, all_busy) =
    let start : t + 0 ≡ t = omega arith in rw start taken
AllBusy-at locking t (slot ∷ pre) post h i (taken, all_busy) =
    let next : t + suc (length pre) ≡ t + 1 + length pre = omega arith in
    rw next (AllBusy-at locking (t + 1) pre post h i all_busy)

-- A round that finds nothing is followed by one that does not run out of fuel.
after_round-returns :
    (fuel : ℕ) (locking : Locking) (hosts : List Hostdef) (found : Search)
    → ((t : ℕ) → found ≡ nothing t → lock_one fuel locking t hosts ≢ none)
    → (elim found as (λ x. Option (Result (Hostdef × ℕ))) [
      | chosen h i ↦ some (ok (h, i))
      | failed ret ↦ some (err ret)
      | nothing t ↦ lock_one fuel locking t hosts
    ])
      ≢ none
after_round-returns fuel locking hosts (chosen h i) go = ground arith
after_round-returns fuel locking hosts (failed ret) go = ground arith
after_round-returns fuel locking hosts (nothing t) go = go t refl

module _ (locking : Locking) (hosts : List Hostdef) (pre post : Slots) (h : Hostdef) (i : ℕ)
    (since : ℕ) (listed : slots_from 0 50 hosts ≡ pre ++ ((h, i) ∷ post))
    (stays_free : (t : ℕ) → since ≤ t → lock_host locking t h i ≡ none) where
  round_ends :
      (t t' : ℕ) → over_slots locking t 0 50 hosts ≡ nothing t' → (suc t ≤ t') × (suc t ≤ since)
  round_ends t t' e =
      let (ends, all_busy) = over_slots-nothing locking t t' hosts e in
      let taken =
        AllBusy-at locking t pre post h i (subst (λ l. AllBusy locking t l) listed all_busy) in
      let free_later : since ≤ t + length pre → none ≡ some busy =
        λ late. sym (stays_free (t + length pre) late) ∙ taken in
      let size : length (slots_from 0 50 hosts) ≡ length pre + length ((h, i) ∷ post) =
        ap (λ (l : Slots). length l) listed ∙ length-append pre ((h, i) ∷ post) in
      (omega (arith, ends, size), ground (arith, free_later))

  -- If a slot of a host of the list, with a number from 0 to 49, is free at every attempt from some
  -- number on, then dcc_lock_one returns, in one more round than the attempts before that number at
  -- most.
  pub lock_one-returns :
      (fuel t : ℕ) → since ≤ t + fuel → lock_one (suc fuel) locking t hosts ≢ none
  unfolding lock_one
  lock_one-returns zero t enough =
      after_round-returns zero locking hosts (over_slots locking t 0 50 hosts)
        (λ t' e. ground (arith, round_ends t t' e))
  lock_one-returns (suc fuel) t enough =
      after_round-returns (suc fuel) locking hosts (over_slots locking t 0 50 hosts)
        (λ t' e. lock_one-returns fuel t' (omega (arith, enough, round_ends t t' e)))

-- The host is down, or has no slot at all.
abbrev IsDead : Hostdef → Type 0
IsDead h = (h.is_up ≡ false) ⊎ (has_slot 0 h.n_slots ≡ false)

has_slot-less :
    (i_cpu : ℕ) (n_slots : ℤ) → has_slot 0 n_slots ≡ false → has_slot i_cpu n_slots ≡ false
has_slot-less i_cpu (pos n) h = ground arith
has_slot-less i_cpu (negsuc n) h = refl

over_hosts-dead :
    (locking : Locking) (t i_cpu : ℕ) (hosts : List Hostdef)
    → Each IsDead hosts
    → (t' : ℕ) × (over_hosts locking t i_cpu hosts ≡ nothing t')
unfolding over_hosts lock_host
over_hosts-dead locking t i_cpu [] dead = (t, refl)
over_hosts-dead locking t i_cpu (h ∷ hosts) (inr no_slots, dead) =
    rw (over_hosts, has_slot-less i_cpu h.n_slots no_slots)
      (over_hosts-dead locking t i_cpu hosts dead)
over_hosts-dead locking t i_cpu (h ∷ hosts) (inl down, dead) =
    elim (Bool-cases (has_slot i_cpu h.n_slots)) [
      | inl e ↦
          rw (over_hosts, lock_host, e, down) (over_hosts-dead locking (t + 1) i_cpu hosts dead)
      | inr e ↦ rw (over_hosts, e) (over_hosts-dead locking t i_cpu hosts dead)
    ]

over_slots-dead :
    (locking : Locking) (t i_cpu left : ℕ) (hosts : List Hostdef)
    → Each IsDead hosts
    → (t' : ℕ) × (over_slots locking t i_cpu left hosts ≡ nothing t')
unfolding over_slots
over_slots-dead locking t i_cpu zero hosts dead = (t, refl)
over_slots-dead locking t i_cpu (suc left) hosts dead =
    let (t', none_here) = over_hosts-dead locking t i_cpu hosts dead in
    rw (over_slots, none_here) (over_slots-dead locking t' (i_cpu + 1) left hosts dead)

-- Where every host of the list is down or has no slot, as with a negative multiplier, dcc_lock_one
-- never returns, whatever the locks are.
lock_one-dead :
    (fuel : ℕ) (locking : Locking) (t : ℕ) (hosts : List Hostdef)
    → Each IsDead hosts
    → lock_one fuel locking t hosts ≡ none
unfolding lock_one
lock_one-dead zero locking t hosts dead = refl
lock_one-dead (suc fuel) locking t hosts dead =
    let (t', nothing_found) = over_slots-dead locking t 0 50 hosts dead in
    rw (lock_one, nothing_found) (lock_one-dead fuel locking t' hosts dead)
