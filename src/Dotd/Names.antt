-- ===== src/Dotd/Names.antt =====
-- The name for the dependencies that dcc_get_dotd_info of src/dotd.c makes from a file name.
use distcc.Prelude.{ℕ, ◌≡◌, ◌≢◌, refl, ap, false, some, [], ◌∷◌, ◌++◌, append_assoc}
use distcc.Prelude.Bytes.{Bytes, codes, first, contains, strrchr, strrchr-append, strrchr-eq-none}
use distcc.ExitCode.{ok}
use distcc.Filename.Parts.{find_extension-append, find_extension-dot, find_extension-none}
use distcc.Dotd.{dotd_from, peeled, unextended, ends_in_dot}

strrchr-dot : (stem : Bytes) → strrchr b'.' (stem ++ codes ".") ≡ some (stem, codes ".")
strrchr-dot stem = strrchr-append b'.' stem [] (unfold contains in refl)

unextended-dot : (stem : Bytes) → unextended (stem ++ codes ".") ≡ ok (stem ++ codes ".d")
unfolding unextended ends_in_dot strrchr
unextended-dot [] = refl
unextended-dot (c ∷ stem) =
    rw (strrchr-dot (c ∷ stem)) (ap ok (append_assoc (c ∷ stem) (codes ".") (codes "d")))

unextended-plain :
    (c : ℕ) (stem : Bytes)
    → contains b'.' (c ∷ stem) ≡ false
    → unextended (c ∷ stem) ≡ ok ((c ∷ stem) ++ codes ".d")
unfolding unextended ends_in_dot
unextended-plain c stem no_dot = rw (strrchr-eq-none b'.' (c ∷ stem) no_dot) refl

-- The name for the dependencies is a stem with .d: of a name with an extension, of a name that ends
-- with a dot, or of a name without a dot, which is the stem itself.
dotd_from_lem :
    (stem rest : Bytes) (c : ℕ)
    → contains b'.' rest ≡ false
    → contains b'.' (c ∷ stem) ≡ false
    → (first rest ≢ 0 → dotd_from (stem ++ (b'.' ∷ rest)) ≡ ok (stem ++ codes ".d"))
      × (dotd_from (stem ++ codes ".") ≡ ok (stem ++ codes ".d"))
      × (dotd_from (c ∷ stem) ≡ ok ((c ∷ stem) ++ codes ".d"))
unfolding dotd_from peeled
dotd_from_lem stem rest c last no_dot = (
  λ some_byte. rw (find_extension-append stem rest last some_byte) refl,
  rw (find_extension-dot stem, unextended-dot stem) refl,
  rw (find_extension-none (c ∷ stem) no_dot, unextended-plain c stem no_dot) refl,
)
