-- ===== src/Masquerade/Abspath.antt =====
-- The absolute paths that dcc_abspath of src/util.c gives.
use distcc.Prelude.{
  ℕ, zero, suc, ◌+◌, ◌≤◌, ◌<◌, ◌≡◌, refl, ap, inl, inr, Bool, false, ◌==◌, leb, none, some,
  Option-cases, [], ◌∷◌, ◌++◌, length, length-append, take-append, arith,
}
use distcc.Prelude.Bytes.{Bytes, codes, strrchr}
use distcc.ExitCode.{ok}
use distcc.Dotd.Cleanup.{find}
use distcc.Dotd.Cleanup.Laws.{find-some}
use distcc.Masquerade.{squeeze, abspath, masquerade_in, support_masquerade}

-- With more fuel than the path has bytes the loop ends: each round makes the rest of the path three
-- bytes shorter.
squeeze-returns :
    (fuel : ℕ) (done p : Bytes)
    → length p < fuel
    → (path : Bytes) × (squeeze fuel done p ≡ some path)
unfolding squeeze
squeeze-returns zero done p less = absurd (omega arith)
squeeze-returns (suc fuel) done p less = elim (Option-cases (find (codes "/../") p)) [
  | inl missing ↦ (done ++ p, ground arith)
  | inr ((before, after), found) ↦
      let shorter : length after + 4 ≤ length p = omega (
        arith,
        ap length (find-some (codes "/../") p found),
        length-append before (codes "/../" ++ after),
      ) in
      elim (Option-cases (strrchr b'/' (done ++ before))) [
        | inl none_there ↦
            let (path, rest) = squeeze-returns fuel (done ++ before) (b'/' ∷ after) (omega arith) in
            (path, ground (arith, rest))
        | inr ((dir, slash), there) ↦
            let (path, rest) = squeeze-returns fuel dir (b'/' ∷ after) (omega arith) in
            (path, ground (arith, rest))
      ]
]

squeeze-plain :
    (fuel : ℕ) (done p : Bytes)
    → find (codes "/../") p ≡ none
    → squeeze (suc fuel) done p ≡ some (done ++ p)
unfolding squeeze
squeeze-plain fuel done p plain = ground arith

abspath-absolute :
    (fuel max_path : ℕ) (cwd dir progname : Bytes)
    → find (codes "/../") (b'/' ∷ dir) ≡ none
    → length (b'/' ∷ dir) < max_path
    → abspath
        (suc fuel)
        max_path
        cwd
        (b'/' ∷ (dir ++ (codes "/" ++ progname)))
        (length (b'/' ∷ dir))
      ≡ ok (some (b'/' ∷ dir))
unfolding abspath
abspath-absolute fuel max_path cwd dir progname plain short =
    let part = take-append dir (codes "/" ++ progname) in
    let counted : (length (b'/' ∷ dir) == 0) ≡ false = ground arith in
    let fits : leb max_path (length (b'/' ∷ dir)) ≡ false = ground arith in
    rw (counted, part, fits, squeeze-plain fuel [] (b'/' ∷ dir) plain) refl

-- The directory of a program that has been called by its absolute name, without /../ in it, is the
-- directory that dcc_support_masquerade looks for in PATH.
support_masquerade-absolute :
    (fuel max_path : ℕ) (cwd : Bytes) (access : Bytes → Bool) (envpath dir progname : Bytes)
    → find (codes "/../") (b'/' ∷ dir) ≡ none
    → length (b'/' ∷ dir) < max_path
    → support_masquerade (suc fuel) max_path cwd access (some envpath) (some (b'/' ∷ dir)) progname
      ≡ ok (some (masquerade_in access (some envpath) (some (b'/' ∷ dir)) progname))
unfolding support_masquerade
support_masquerade-absolute fuel max_path cwd access envpath dir progname plain short =
    rw (abspath-absolute fuel max_path cwd dir progname plain short) refl
