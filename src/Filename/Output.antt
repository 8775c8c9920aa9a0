-- ===== src/Filename/Output.antt =====
-- dcc_output_from_source of src/filename.c: the output that the compiler would choose.
use distcc.Prelude.{
  ℕ, suc, ◌≤◌, ◌<◌, false, ◌≡◌, ◌≢◌, ◌⊎◌, inl, inr, refl, ◌∷◌, ◌++◌, arith, ltb, if◌then◌else◌,
  length, Option-cases,
}
use distcc.Prelude.Bytes.{
  Bytes, first, contains, contains-append, strrchr, strrchr-append, strrchr-some, strrchr-none,
  strrchr-eq-none,
}
use distcc.ExitCode.{ok, err, distcc_failed}
use distcc.Filename.Parts.{find_extension_iff, find_extension-append}
use distcc.Filename.{find_extension, set_file_extension, output_from_base, output_from_source}

-- The name is `dir` up to its last slash, if there is one, and then `base`.
abbrev IsBase : Bytes → Bytes → Type 0
IsBase name base =
    (contains b'/' base ≡ false) × ((name ≡ base) ⊎ ((dir : Bytes) × (name ≡ dir ++ (b'/' ∷ base))))

output_from_source-base :
    (name base ext : Bytes)
    → IsBase name base
    → output_from_source name ext ≡ output_from_base base ext
unfolding output_from_source
output_from_source-base name base ext (h, inl e) = rw (e, strrchr-eq-none b'/' base h)
output_from_source-base name base ext (h, inr (dir, e)) = rw (e, strrchr-append b'/' dir base h)

set_file_extension-append :
    (stem rest new : Bytes)
    → contains b'.' rest ≡ false
    → first rest ≢ 0
    → set_file_extension (stem ++ (b'.' ∷ rest)) new
      ≡ (if ltb (suc (length rest)) (length new) then err distcc_failed else ok (stem ++ new))
unfolding set_file_extension
set_file_extension-append stem rest new h ne = rw (find_extension-append stem rest h ne)

-- A source file's output stands in the current directory, whatever directory the source is in, and
-- the new extension takes the place of the old one. The call fails where the name behind the last
-- slash is shorter than three bytes, or the old extension is shorter than the new.
output_from_source_lem :
    (name stem rest ext : Bytes)
    → IsBase name (stem ++ (b'.' ∷ rest))
    → contains b'.' rest ≡ false
    → first rest ≢ 0
    → (3 ≤ length (stem ++ (b'.' ∷ rest))
        → length ext ≤ suc (length rest)
        → output_from_source name ext ≡ ok (stem ++ ext))
      × ((length (stem ++ (b'.' ∷ rest)) < 3) ⊎ (suc (length rest) < length ext)
          → output_from_source name ext ≡ err distcc_failed)
unfolding output_from_base
output_from_source_lem name stem rest ext b h ne =
    rw (output_from_source-base name (stem ++ (b'.' ∷ rest)) ext b)
      (rw (set_file_extension-append stem rest ext h ne) (λ l k. ground arith, λ f. ground arith))

-- Every name has a base.
name-IsBase : (name : Bytes) → (base : Bytes) × IsBase name base
name-IsBase name = elim (Option-cases (strrchr b'/' name)) [
  | inl e ↦ (name, (strrchr-none b'/' name e, inl refl))
  | inr ((dir, found), e) ↦
      let (base, starts, splits, last) = strrchr-some b'/' name e in
      (base, (last, inr (dir, rw (← starts) splits)))
]

contains-left : (c : ℕ) (a b : Bytes) → contains c (a ++ b) ≡ false → contains c a ≡ false
contains-left c a b h = ground (arith, contains-append c a b)

base_in_cwd :
    (base ext out : Bytes)
    → contains b'/' base ≡ false
    → contains b'/' ext ≡ false
    → output_from_base base ext ≡ ok out
    → (contains b'/' out ≡ false) × (stem : Bytes) × (out ≡ stem ++ ext)
unfolding output_from_base set_file_extension
base_in_cwd base ext out b h e = elim (Option-cases (find_extension base)) [
  | inl f ↦ absurd (ground arith)
  | inr ((stem, dot), f) ↦
      let x = (find_extension_iff base stem dot).0 f in
      let o : out ≡ stem ++ ext = ground arith in
      let s = contains-left b'/' stem dot (rw x.2 at b) in
      (rw o (ground (arith, contains-append b'/' stem ext)), stem, o)
]

-- Whatever dcc_output_from_source returns is a file name without a slash that ends in the new
-- extension, if that has no slash itself.
output_from_source-in_cwd :
    (name ext out : Bytes)
    → contains b'/' ext ≡ false
    → output_from_source name ext ≡ ok out
    → (contains b'/' out ≡ false) × (stem : Bytes) × (out ≡ stem ++ ext)
output_from_source-in_cwd name ext out h e =
    let (base, b) = name-IsBase name in
    base_in_cwd base ext out b.0 h (rw (output_from_source-base name base ext b) at e)
