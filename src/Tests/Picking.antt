-- ===== src/Tests/Picking.antt =====
-- The choice of a host of src/where.c.
use distcc.Prelude.{
  true, ℕ, ◌≡◌, ◌≢◌, ◌≤◌, ◌↔◌, refl, false, inr, none, some, [], ◌∷◌, ltb, if◌then◌else◌, arith,
}
use distcc.Prelude.Bytes.{Bytes, codes}
use distcc.ExitCode.{ok, busy}
use distcc.Hosts.{Hostdef, tcp}
use distcc.Hosts.Numbers.{pos, negsuc}
use distcc.Hosts.Parser.{new_host}
use distcc.Locking.{make_lock_filename}
use distcc.Locking.Names.{SameSlot, make_lock_filename-SameSlot}
use distcc.Where.{
  Timefile, has_slot, check_backoff, keep_liked, remove_disliked, pick_host, Locking, lock_host,
  chosen, over_slots, over_hosts, lock_one,
}
use distcc.Where.Order.{IsFirstFree, slots_from, over_slots_iff}
use distcc.Where.Liked.{pick_host-liked}
use distcc.Where.Rounds.{lock_one-returns}

abbrev one : Hostdef
one = record (new_host (codes "one")) { n_slots = pos 1 }

abbrev two : Hostdef
two = record (new_host (codes "two")) { n_slots = pos 2 }

abbrev down : Hostdef
down = record (new_host (codes "down")) { is_up = false }

abbrev minus : Hostdef
minus = record (new_host (codes "minus/-3")) { n_slots = negsuc 2 }

-- Another process holds all slots at the first two attempts.
abbrev later : Locking
later t h i = if ltb t 2 then some busy else none

lock_one_runs :
    (lock_one 1 later 0 (one ∷ two ∷ []) ≡ some (ok (two, 1)))
    × (lock_one 2 later 0 (down ∷ one ∷ []) ≡ some (ok (one, 0)))
    × (lock_one 9 later 0 (down ∷ minus ∷ []) ≡ none)
unfolding lock_one over_slots over_hosts lock_host
lock_one_runs = (refl, refl, refl)

later_lem : (t : ℕ) → 2 ≤ t → lock_host later t one 0 ≡ none
unfolding lock_host
later_lem t h = ground arith

over_slots_iff_example :
    (over_slots later 0 0 50 (one ∷ two ∷ []) ≡ chosen two 1)
    ↔ IsFirstFree later 0 (slots_from 0 50 (one ∷ two ∷ [])) (two, 1)
over_slots_iff_example = over_slots_iff later 0 (one ∷ two ∷ []) two 1

lock_one-returns_example : lock_one 3 later 0 (one ∷ []) ≢ none
lock_one-returns_example =
    lock_one-returns later (one ∷ []) [] [] one 0 2 refl later_lem 2 0 (omega arith)

four : pos 4 ≢ pos 0
four = ground arith

two_slots : pos 2 ≢ pos 0
two_slots = ground arith

-- A host that is still in its backoff period, and one that is not.
abbrev files : Timefile
files h = inr (if h.is_up then 100 else 150)

files_run : pick_host 3 later files (λ h. 170) none (ok (down ∷ two ∷ [])) ≡ some (ok (two, 0))
unfolding pick_host remove_disliked keep_liked check_backoff lock_one over_slots over_hosts
    lock_host
files_run = refl

pick_host-liked_example :
    (two.n_slots ≢ pos 0)
    × (two.is_up ≡ true)
    × (has_slot 0 two.n_slots ≡ true)
    × (check_backoff files (λ h. 170) (pos 60) two ≡ none)
pick_host-liked_example =
    pick_host-liked (λ h. h.n_slots ≢ pos 0) 3 later files (λ h. 170) none (pos 60)
      (down ∷ two ∷ []) two 0 refl refl (four, (two_slots, tt)) files_run

-- Two definitions of one slot have one lock file.
abbrev first_slot : Hostdef
first_slot = record (new_host (codes "h,lzo")) {
  mode = some tcp;
  hostname = some (codes "h_1");
  port = pos 3632;
}

abbrev second_slot : Hostdef
second_slot = record (new_host (codes "h:3632")) {
  mode = some tcp;
  hostname = some (codes "h_1");
  port = pos 3632;
}

abbrev slot_file : Bytes
slot_file = codes "/l/cpu_tcp_h_1_3632_12"

slot_file_made :
    (make_lock_filename (ok (codes "/l")) (codes "cpu") first_slot 12 ≡ ok slot_file)
    × (make_lock_filename (ok (codes "/l")) (codes "cpu") second_slot 12 ≡ ok slot_file)
unfolding make_lock_filename distcc.Locking.Decimal.digits
slot_file_made = (refl, refl)

make_lock_filename-SameSlot_example : SameSlot (some tcp) (some tcp) first_slot second_slot 12 12
make_lock_filename-SameSlot_example =
    make_lock_filename-SameSlot (codes "/l") (codes "cpu") first_slot second_slot 12 12 slot_file
      slot_file_made.0 slot_file_made.1
