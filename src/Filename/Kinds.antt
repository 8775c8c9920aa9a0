-- ===== src/Filename/Kinds.antt =====
-- The kinds of files that src/filename.c tells apart by their extensions.
use distcc.Prelude.{
  ℕ, Bool, true, false, ◌≡◌, ◌≢◌, ◌⊎◌, inl, inr, refl, ◌&&◌, some, [], ◌∷◌, ◌++◌, ◌==◌, arith,
  Option-cases,
}
use distcc.Prelude.Bytes.{Bytes, codes, first, str_equal, contains, str_equal_iff}
use distcc.Filename.Parts.{find_extension-append}
use distcc.Filename.{
  find_extension, preproc_exten, preprocessed_ext, source_ext, is_preprocessed, is_source,
  is_object,
}

preprocessed_ext-source_ext :
    (assemble : Bool) (ext : Bytes)
    → preprocessed_ext assemble ext ≡ true
    → source_ext assemble ext ≡ true
unfolding preprocessed_ext source_ext
preprocessed_ext-source_ext assemble ext h = ground arith

source_ext-ne-object :
    (assemble : Bool) (ext : Bytes)
    → source_ext assemble ext ≡ true
    → str_equal ext (codes "o") ≡ false
unfolding source_ext
source_ext-ne-object assemble ext h = ground (arith, str_equal_iff ext (codes "o"))

str_equal-object :
    (dot : ℕ) (ext : Bytes)
    → str_equal (dot ∷ ext) (codes ".o") ≡ (dot == b'.' && str_equal ext (codes "o"))
unfolding str_equal
str_equal-object dot ext = refl

-- A preprocessed file is a source file, and no source file is an object file.
is_source_kinds :
    (assemble : Bool) (name : Bytes)
    → (is_preprocessed assemble name ≡ true → is_source assemble name ≡ true)
      × (is_source assemble name ≡ true → is_object name ≡ false)
unfolding is_preprocessed is_source is_object
is_source_kinds assemble name = elim (Option-cases (find_extension name)) [
  | inl e ↦ (ground arith, ground arith)
  | inr ((stem, []), e) ↦ (ground arith, ground arith)
  | inr ((stem, dot ∷ ext), e) ↦ (
    ground (arith, preprocessed_ext-source_ext assemble ext),
    ground (arith, source_ext-ne-object assemble ext, str_equal-object dot ext),
  )
]

is_preprocessed-append :
    (assemble : Bool) (stem rest : Bytes)
    → contains b'.' rest ≡ false
    → first rest ≢ 0
    → is_preprocessed assemble (stem ++ (b'.' ∷ rest)) ≡ preprocessed_ext assemble rest
unfolding is_preprocessed
is_preprocessed-append assemble stem rest h ne = rw (find_extension-append stem rest h ne)

is_source-append :
    (assemble : Bool) (stem rest : Bytes)
    → contains b'.' rest ≡ false
    → first rest ≢ 0
    → is_source assemble (stem ++ (b'.' ∷ rest)) ≡ source_ext assemble rest
unfolding is_source
is_source-append assemble stem rest h ne = rw (find_extension-append stem rest h ne)

abbrev OneOf : Bytes → Type 0
OneOf p =
    (p ≡ codes ".i") ⊎ (p ≡ codes ".ii") ⊎ (p ≡ codes ".mi") ⊎ (p ≡ codes ".mii") ⊎ (p ≡ codes ".s")

preproc_exten-OneOf : (e p : Bytes) → preproc_exten e ≡ some p → OneOf p
unfolding preproc_exten
preproc_exten-OneOf [] p h = cc
preproc_exten-OneOf (c ∷ e) p h = ground arith

-- What the closure below says of one extension.
abbrev IsClosed : Bytes → Type 0
IsClosed p = (preproc_exten p ≡ some p) × ((stem : Bytes) → is_preprocessed true (stem ++ p) ≡ true)

IsClosed-at :
    (rest : Bytes)
    → preproc_exten (b'.' ∷ rest) ≡ some (b'.' ∷ rest)
    → contains b'.' rest ≡ false
    → first rest ≢ 0
    → preprocessed_ext true rest ≡ true
    → IsClosed (b'.' ∷ rest)
IsClosed-at rest same h ne yes_ext =
    (same, λ stem. rw (is_preprocessed-append true stem rest h ne) yes_ext)

OneOf-IsClosed : (p : Bytes) → OneOf p → IsClosed p
unfolding preproc_exten preprocessed_ext contains str_equal
OneOf-IsClosed p (inl e) = rw e (IsClosed-at (codes "i") refl refl (omega arith) refl)
OneOf-IsClosed p (inr (inl e)) = rw e (IsClosed-at (codes "ii") refl refl (omega arith) refl)
OneOf-IsClosed p (inr (inr (inl e))) = rw e (IsClosed-at (codes "mi") refl refl (omega arith) refl)
OneOf-IsClosed p (inr (inr (inr (inl e)))) =
    rw e (IsClosed-at (codes "mii") refl refl (omega arith) refl)
OneOf-IsClosed p (inr (inr (inr (inr e)))) =
    rw e (IsClosed-at (codes "s") refl refl (omega arith) refl)

-- dcc_preproc_exten is a closure: the extension that it returns is returned for itself, and names
-- a preprocessed file in a build that assembles remotely.
preproc_exten_idem :
    (e p : Bytes)
    → preproc_exten e ≡ some p
    → (preproc_exten p ≡ some p) × ((stem : Bytes) → is_preprocessed true (stem ++ p) ≡ true)
preproc_exten_idem e p h = OneOf-IsClosed p (preproc_exten-OneOf e p h)
