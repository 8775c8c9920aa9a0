-- ===== src/Arg/Expand/Fields.antt =====
-- dcc_expand_preprocessor_options of src/arg.c against a description by comma-separated fields.

use distcc.Prelude.{
  ℕ, zero, suc, ◌<◌, Bool, true, false, ◌&&◌, ◌||◌, ◌≡◌, inl, inr, refl, none, some, List, [], ◌∷◌,
  ◌++◌, arith, ◌==◌, if◌then◌else◌, length, drop, Option-cases,
}
use distcc.Prelude.Bytes.{Bytes, codes, contains, str_equal, str_startswith}
use distcc.Arg.{Argv}
use distcc.Arg.Expand.{strchr, cut, count_extra_args, copy_extra_args}

unfoldable pub push : ℕ → List Bytes → List Bytes
push c [] = (c ∷ []) ∷ []
push c (f ∷ fs) = (c ∷ f) ∷ fs

-- The fields of a text between its commas.
unfoldable pub fields : Bytes → List Bytes
fields [] = [] ∷ []
fields (c ∷ s) = let rest = fields s in if c == b',' then [] ∷ rest else push c rest

-- The words that the fields stand for: the field behind `-MD` or `-MMD` is a file, which regular
-- options name by `-MF`.
abbrev is_deps : Bytes → Bool
is_deps f = str_equal f (codes "-MD") || str_equal f (codes "-MMD")

unfoldable pub regular : List Bytes → Argv
regular [] = []
regular (f ∷ []) = f ∷ []
regular (f ∷ g ∷ fs) =
    let file = regular fs in
    let other = regular (g ∷ fs) in if is_deps f then f ∷ codes "-MF" ∷ g ∷ file else f ∷ other

fields-last : (s : Bytes) → strchr s ≡ none → fields s ≡ cut s ∷ []
unfolding strchr cut fields push
fields-last [] h = refl
fields-last (c ∷ s) h = ground (arith, fields-last s)

fields-next : (s t : Bytes) → strchr s ≡ some t → fields s ≡ cut s ∷ fields (drop 1 t)
unfolding strchr cut fields push
fields-next [] t h = cc
fields-next (c ∷ s) t h = ground (arith, fields-next s t)

length-strchr : (s t : Bytes) → strchr s ≡ some t → length (drop 1 t) < length s
unfolding strchr
length-strchr [] t h = cc
length-strchr (c ∷ s) t h = ground (arith, length-strchr s t)

-- A prefix that ends with the first comma is a first field with a further one behind it.
starts_field :
    (w s : Bytes)
    → contains b',' w ≡ false
    → str_startswith (w ++ (b',' ∷ [])) s
      ≡ (str_equal (cut s) w && elim (strchr s) [ none ↦ false | some t ↦ true ])
unfolding contains strchr cut str_equal str_startswith
starts_field [] [] h = refl
starts_field [] (c ∷ s) h = ground arith
starts_field (x ∷ w) [] h = refl
starts_field (x ∷ w) (c ∷ s) h = ground (arith, starts_field w s)

pub copy_regular :
    (fuel : ℕ) (opt : Bytes)
    → length opt < fuel
    → copy_extra_args fuel opt ≡ some (regular (fields opt))
unfolding copy_extra_args regular contains
copy_regular zero opt h = absurd (omega arith)
copy_regular (suc fuel) opt h = elim (Option-cases (strchr opt)) [
  | inl e ↦ ground (arith, fields-last opt e)
  | inr (t, e) ↦ elim (Option-cases (strchr (drop 1 t))) [
    | inl g ↦ ground (
      arith,
      fields-next opt t e,
      fields-last (drop 1 t) g,
      length-strchr opt t e,
      copy_regular fuel (drop 1 t),
    )
    | inr (u, g) ↦ ground (
      arith,
      fields-next opt t e,
      fields-next (drop 1 t) u g,
      length-strchr opt t e,
      length-strchr (drop 1 t) u g,
      copy_regular fuel (drop 1 t),
      copy_regular fuel (drop 1 u),
    )
  ]
]

pub count_regular :
    (fuel : ℕ) (opt : Bytes)
    → length opt < fuel
    → count_extra_args fuel opt ≡ some (length (regular (fields opt)))
unfolding count_extra_args regular contains
count_regular zero opt h = absurd (omega arith)
count_regular (suc fuel) opt h = elim (Option-cases (strchr opt)) [
  | inl e ↦ ground (
    arith,
    fields-last opt e,
    starts_field (codes "-MD") opt refl,
    starts_field (codes "-MMD") opt refl,
  )
  | inr (t, e) ↦ elim (Option-cases (strchr (drop 1 t))) [
    | inl g ↦ ground (
      arith,
      fields-next opt t e,
      fields-last (drop 1 t) g,
      length-strchr opt t e,
      count_regular fuel (drop 1 t),
      starts_field (codes "-MD") opt refl,
      starts_field (codes "-MMD") opt refl,
    )
    | inr (u, g) ↦ ground (
      arith,
      fields-next opt t e,
      fields-next (drop 1 t) u g,
      length-strchr opt t e,
      length-strchr (drop 1 t) u g,
      count_regular fuel (drop 1 t),
      count_regular fuel (drop 1 u),
      starts_field (codes "-MD") opt refl,
      starts_field (codes "-MMD") opt refl,
    )
  ]
]
