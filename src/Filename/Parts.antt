-- ===== src/Filename/Parts.antt =====
-- The parts of a name that dcc_find_extension, dcc_find_basename and dcc_truncate_to_dirname of
-- src/filename.c return.
use distcc.Prelude.{
  false, ◌≡◌, ◌≢◌, ◌↔◌, inl, inr, refl, none, some, [], ◌∷◌, ◌++◌, arith, Option-cases,
}
use distcc.Prelude.Bytes.{
  Bytes, first, contains, strrchr, strrchr-some, strrchr-eq-none, strrchr-append,
}
use distcc.Filename.{find_extension, find_basename, truncate_to_dirname}

-- `ext` is the last dot of the name and what follows it, at least one byte.
abbrev IsExtension : Bytes → Bytes → Bytes → Type 0
IsExtension name stem ext =
    (rest : Bytes) × (ext ≡ b'.' ∷ rest)
    × (name ≡ stem ++ ext)
    × (contains b'.' rest ≡ false)
    × (first rest ≢ 0)

find_extension-IsExtension :
    (name stem ext : Bytes) → find_extension name ≡ some (stem, ext) → IsExtension name stem ext
unfolding find_extension
find_extension-IsExtension name stem ext h = elim (Option-cases (strrchr b'.' name)) [
  | inl e ↦ absurd (ground arith)
  | inr ((b, t), e) ↦
      let (rest, starts, splits, last) = strrchr-some b'.' name e in
      (rest, ground arith, ground arith, last, ground arith)
]

-- dcc_find_extension finds the extension of a name, and nothing else.
pub find_extension_iff :
    (name stem ext : Bytes) → (find_extension name ≡ some (stem, ext)) ↔ IsExtension name stem ext
unfolding find_extension
find_extension_iff name stem ext = (
  find_extension-IsExtension name stem ext,
  λ (rest, starts, splits, last, ne).
      rw (splits, starts, strrchr-append b'.' stem rest last) (ground arith),
)

-- A name without a slash is its own basename. Behind the last slash the basename is what follows
-- it, if that is not empty; a name that ends with its last slash is returned whole.
find_basename_lem :
    (dir base : Bytes)
    → contains b'/' base ≡ false
    → (find_basename base ≡ base)
      × (first base ≢ 0 → find_basename (dir ++ (b'/' ∷ base)) ≡ base)
      × (find_basename (dir ++ (b'/' ∷ [])) ≡ dir ++ (b'/' ∷ []))
unfolding find_basename
find_basename_lem dir base h = (
  rw (strrchr-eq-none b'/' base h),
  λ ne. rw (strrchr-append b'/' dir base h) (ground arith),
  rw (strrchr-append b'/' dir [] (unfold contains in refl)),
)

-- dcc_truncate_to_dirname keeps what stands before the last slash, and nothing of a name without
-- a slash.
truncate_to_dirname_lem :
    (dir base : Bytes)
    → contains b'/' base ≡ false
    → (truncate_to_dirname (dir ++ (b'/' ∷ base)) ≡ dir) × (truncate_to_dirname base ≡ [])
unfolding truncate_to_dirname
truncate_to_dirname_lem dir base h =
    (rw (strrchr-append b'/' dir base h), rw (strrchr-eq-none b'/' base h))

-- The kind tests read the last extension.
pub find_extension-append :
    (stem rest : Bytes)
    → contains b'.' rest ≡ false
    → first rest ≢ 0
    → find_extension (stem ++ (b'.' ∷ rest)) ≡ some (stem, b'.' ∷ rest)
find_extension-append stem rest h ne =
    (find_extension_iff _ stem (b'.' ∷ rest)).1 (rest, refl, refl, h, ne)

pub find_extension-dot : (stem : Bytes) → find_extension (stem ++ (b'.' ∷ [])) ≡ none
unfolding find_extension distcc.Filename.extension_at
find_extension-dot stem = rw (strrchr-append b'.' stem [] (unfold contains in refl)) refl

pub find_extension-none : (name : Bytes) → contains b'.' name ≡ false → find_extension name ≡ none
unfolding find_extension distcc.Filename.extension_at
find_extension-none name no_dot = rw (strrchr-eq-none b'.' name no_dot) refl
