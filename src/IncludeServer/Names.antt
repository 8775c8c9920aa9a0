-- ===== src/IncludeServer/Names.antt =====
-- The names of src/include_server_if.c in the tree of the include server.
use distcc.Prelude.{
  ℕ, zero, suc, ◌-◌, ◌*◌, ◌<◌, ◌≡◌, ◌≢◌, ◌↔◌, refl, ap, inl, inr, true, false, Bool-cases, ltb,
  some, [], ◌∷◌, ◌++◌, append_assoc, if◌then◌else◌, drop, arith,
}
use distcc.Prelude.Bytes.{Bytes, codes, first, contains, str_equal, str_equal_iff, str_startswith}
use distcc.Filename.Parts.{find_extension-append}
use distcc.IncludeServer.{
  original, from_slash, go_on, drop_components, stem_of, remove_extension, without_suffixes,
  get_original_fname, count_slashes, count_leading_dotdots, is_system_dir,
}

from_slash-append :
    (d rest : Bytes)
    → contains b'/' d ≡ false
    → from_slash (d ++ (b'/' ∷ rest)) ≡ some (b'/' ∷ rest)
unfolding from_slash contains
from_slash-append [] rest plain = refl
from_slash-append (c ∷ d) rest plain = ground (arith, from_slash-append d rest)

-- A root of the include server's tree, three components long.
abbrev pub root : Bytes → Bytes → Bytes → Bytes → Bytes
root d e f name = b'/' ∷ (d ++ (b'/' ∷ (e ++ (b'/' ∷ (f ++ name)))))

drop_components-root :
    (d e f name : Bytes)
    → contains b'/' d ≡ false
    → contains b'/' e ≡ false
    → contains b'/' f ≡ false
    → drop_components 3 (root d e f (b'/' ∷ name)) ≡ original (b'/' ∷ name)
unfolding drop_components go_on
drop_components-root d e f name d_plain e_plain f_plain =
    rw
      (
        from_slash-append d (e ++ (b'/' ∷ (f ++ (b'/' ∷ name)))) d_plain,
        from_slash-append e (f ++ (b'/' ∷ name)) e_plain,
        from_slash-append f name f_plain,
      )
      refl

remove_extension-append :
    (ext stem rest : Bytes)
    → contains b'.' rest ≡ false
    → first rest ≢ 0
    → remove_extension ext (stem ++ (b'.' ∷ rest))
      ≡ (if str_equal (b'.' ∷ rest) ext then stem else stem ++ (b'.' ∷ rest))
unfolding remove_extension stem_of
remove_extension-append ext stem rest last some_byte =
    rw (find_extension-append stem rest last some_byte) refl

not_abs :
    (stem : Bytes) → remove_extension (codes ".abs") (stem ++ codes ".lzo") ≡ stem ++ codes ".lzo"
unfolding contains str_equal
not_abs stem = remove_extension-append (codes ".abs") stem (codes "lzo") refl (λ e. cc)

no_abs : (stem : Bytes) → remove_extension (codes ".abs") (stem ++ codes ".abs") ≡ stem
unfolding contains str_equal
no_abs stem = remove_extension-append (codes ".abs") stem (codes "abs") refl (λ e. cc)

no_lzo : (stem : Bytes) → remove_extension (codes ".lzo") (stem ++ codes ".lzo") ≡ stem
unfolding contains str_equal
no_lzo stem = remove_extension-append (codes ".lzo") stem (codes "lzo") refl (λ e. cc)

-- A compressed file of the include server has the name of the source file below a root of three
-- components, with .lzo or .lzo.abs behind it; dcc_get_original_fname gives the source file's name.
pub get_original_fname-root :
    (d e f name : Bytes)
    → contains b'/' d ≡ false
    → contains b'/' e ≡ false
    → contains b'/' f ≡ false
    → (get_original_fname (root d e f ((b'/' ∷ name) ++ codes ".lzo")) ≡ original (b'/' ∷ name))
      × (get_original_fname (root d e f ((b'/' ∷ name) ++ codes ".lzo.abs"))
          ≡ original (b'/' ∷ name))
unfolding get_original_fname without_suffixes
get_original_fname-root d e f name d_plain e_plain f_plain =
    let lzo = (b'/' ∷ name) ++ codes ".lzo" in
    let both = append_assoc (b'/' ∷ name) (codes ".lzo") (codes ".abs") in
    let drops = drop_components-root d e f (name ++ codes ".lzo") d_plain e_plain f_plain in
    let drops_both =
      drop_components-root d e f (name ++ codes ".lzo.abs") d_plain e_plain f_plain in
    (
      rw (drops, not_abs (b'/' ∷ name), no_lzo (b'/' ∷ name)) refl,
      rw (drops_both, ← both, no_abs lzo, no_lzo (b'/' ∷ name)) refl,
    )

-- So many times ../ in front of a text.
abbrev climb : ℕ → Bytes → Bytes
climb zero s = s
climb (suc k) s = b'.' ∷ b'.' ∷ b'/' ∷ climb k s

count_leading_dotdots-climb :
    (k : ℕ) (rest : Bytes)
    → str_startswith (codes "../") rest ≡ false
    → count_leading_dotdots (climb k rest) ≡ k
unfolding count_leading_dotdots str_startswith
count_leading_dotdots-climb zero [] plain = refl
count_leading_dotdots-climb zero (a ∷ []) plain = refl
count_leading_dotdots-climb zero (a ∷ b ∷ []) plain = refl
count_leading_dotdots-climb zero (a ∷ b ∷ c ∷ rest) plain = rw plain refl
count_leading_dotdots-climb (suc k) rest plain =
    ap (λ (n : ℕ). suc n) (count_leading_dotdots-climb k rest plain)

up_climbs :
    (a b c k : ℕ) (s rest : Bytes)
    → str_startswith (codes "../") (a ∷ b ∷ c ∷ s) ≡ true
    → s ≡ climb k rest
    → a ∷ b ∷ c ∷ s ≡ climb (suc k) rest
unfolding str_startswith
up_climbs a b c k s rest up same =
    let dot : a ≡ b'.' = ground arith in
    let dots : b ≡ b'.' = ground arith in
    let slash : c ≡ b'/' = ground arith in
    rw (dot, dots, slash) (ap (λ (t : Bytes). b'.' ∷ b'.' ∷ b'/' ∷ t) same)

climbs :
    (s : Bytes)
    → (rest : Bytes) × (s ≡ climb (count_leading_dotdots s) rest)
      × (str_startswith (codes "../") rest ≡ false)
unfolding count_leading_dotdots str_startswith
climbs [] = ([], refl, refl)
climbs (a ∷ []) = (a ∷ [], refl, ground arith)
climbs (a ∷ b ∷ []) = (a ∷ b ∷ [], refl, ground arith)
climbs (a ∷ b ∷ c ∷ s) = elim (Bool-cases (str_startswith (codes "../") (a ∷ b ∷ c ∷ s))) [
  | inl up ↦
      let (rest, same, plain) = climbs s in
      (rest, rw up (up_climbs a b c (count_leading_dotdots s) s rest up same), plain)
  | inr plain ↦ (a ∷ b ∷ c ∷ s, rw plain refl, plain)
]

drop-climb : (k : ℕ) (rest : Bytes) → drop (3 * suc k - 1) (climb (suc k) rest) ≡ b'/' ∷ rest
drop-climb zero rest = refl
drop-climb (suc k) rest =
    let longer : 3 * suc (suc k) - 1 ≡ suc (suc (suc (3 * suc k - 1))) = omega arith in
    rw longer (drop-climb k rest)

named_by :
    (k : ℕ) (link_target rest name : Bytes)
    → link_target ≡ climb k rest
    → 0 < k
    → str_equal (drop (3 * k - 1) link_target) (b'/' ∷ name) ≡ true
    → rest ≡ name
named_by zero link_target rest name same some_up ends = absurd (omega arith)
named_by (suc k) link_target rest name same some_up ends =
    let whole = (str_equal_iff _ _).0 (rw (same, drop-climb k rest) at ends) in cc

climbs_over :
    (k : ℕ) (name : Bytes)
    → str_startswith (codes "../") name ≡ false
    → count_slashes (b'/' ∷ name) < k
    → is_system_dir (climb k name) (b'/' ∷ name) ≡ true
unfolding is_system_dir
climbs_over zero name plain more = absurd (omega arith)
climbs_over (suc k) name plain more =
    let ends = (str_equal_iff (b'/' ∷ name) (b'/' ∷ name)).1 refl in
    let up = count_leading_dotdots-climb (suc k) name plain in
    let over : ltb (count_slashes (b'/' ∷ name)) (suc k) ≡ true = ground arith in
    rw (up, over, drop-climb k name, ends) (ground arith)

-- A link stands for a system directory exactly where it climbs over more directories than its own
-- name has slashes, and ends with that name.
is_system_dir_iff :
    (link_target name : Bytes)
    → (is_system_dir link_target (b'/' ∷ name) ≡ true) ↔ (
        (k : ℕ) × (link_target ≡ climb k name)
        × (str_startswith (codes "../") name ≡ false)
        × (count_slashes (b'/' ∷ name) < k))
unfolding is_system_dir
is_system_dir_iff link_target name = (
  λ found.
      let (rest, same, plain) = climbs link_target in
      let k = count_leading_dotdots link_target in
      let ends : str_equal (drop (3 * k - 1) link_target) (b'/' ∷ name) ≡ true = ground arith in
      let named = named_by k link_target rest name same (ground arith) ends in
      (k, rw (← named) same, rw (← named) plain, ground arith),
  λ (k, same, plain, more). rw same (climbs_over k name plain more),
)
