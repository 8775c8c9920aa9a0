-- ===== src/DebugInfo/Kept.antt =====
-- What dcc_fix_debug_info of src/fix_debug_info.c may change of an object file.
use distcc.Prelude.{
  ℕ, zero, suc, ap, ◌∙◌, ◌+◌, ◌-◌, ◌^◌, ◌≡◌, ◌≢◌, inl, inr, refl, sym, leb, ◌==◌, ◌||◌, Bool, true,
  Bool-cases, Option, none, some, [], ◌∷◌, ◌++◌, length, take, drop, arith,
}
use mathlib.Core.Path.{subst}
use distcc.Prelude.Bytes.{Bytes, codes}
use distcc.ExitCode.{Result, ok, >>=-returns, ok_inj}
use distcc.Bulk.{Opened, file}
use distcc.DebugInfo.{
  Elf, replace_string, slashes, section_replaced, section_updated, update_section,
  update_debug_info, fix_debug_info, find_elf_section,
}
use distcc.DebugInfo.Replaced.{IsKept, IsKept-refl, IsKept-trans, last_byte, replace_string-path}

IsKept-append : (a b s r : Bytes) → IsKept a b → IsKept s r → IsKept (a ++ s) (b ++ r)
IsKept-append [] [] s r h k = k
IsKept-append [] (y ∷ b) s r h k = absurd h
IsKept-append (x ∷ a) [] s r h k = absurd h
IsKept-append (x ∷ a) (y ∷ b) s r h k = (h.0, IsKept-append a b s r h.1 k)

take-drop : (n : ℕ) (s : Bytes) → s ≡ take n s ++ drop n s
take-drop zero s = refl
take-drop (suc n) [] = refl
take-drop (suc n) (d ∷ s) = ap (λ (t : Bytes). d ∷ t) (take-drop n s)

drop-drop : (m n : ℕ) (s : Bytes) → drop n (drop m s) ≡ drop (m + n) s
drop-drop zero n s = let e : 0 + n ≡ n = omega arith in rw e refl
drop-drop (suc m) zero [] = let e : suc m + 0 ≡ suc m = omega arith in rw e refl
drop-drop (suc m) (suc n) [] = let e : suc m + suc n ≡ suc (m + suc n) = omega arith in rw e refl
drop-drop (suc m) n (d ∷ s) =
    let e : suc m + n ≡ suc (m + n) = omega arith in rw e (drop-drop m n s)

-- A section between two parts of a file.
three_parts :
    (start size : ℕ) (s : Bytes)
    → s ≡ take start s ++ (take size (drop start s) ++ drop (start + size) s)
three_parts start size s =
    take-drop start s
    ∙ ap (λ (t : Bytes). take start s ++ t)
        (take-drop size (drop start s)
          ∙ ap (λ (t : Bytes). take size (drop start s) ++ t) (drop-drop start size s))

-- A file that is made of another is the same but for slashes.
abbrev Keeps : Bytes → Result Bytes → Type 0
Keeps base (ok base') = IsKept base base'
Keeps base other = Unit {0}

module _ (c : ℕ) (tail : Bytes) (one_slash : c ≢ b'/')
    (no_slash : last_byte (c ∷ tail) ≢ b'/') where
  abbrev path : Bytes
  path = b'/' ∷ c ∷ tail

  section-Keeps :
      (base : Bytes) (section : Option (ℕ × ℕ))
      → Keeps base (section_updated path (slashes (length path)) base section)
  unfolding section_updated section_replaced
  section-Keeps base none = IsKept-refl base
  section-Keeps base (some (start, size)) =
      let replaced = replace_string path (slashes (length path)) (take size (drop start base)) in
      let kept : IsKept base (take start base ++ (replaced ++ drop (start + size) base)) =
        subst (λ t. IsKept t (take start base ++ (replaced ++ drop (start + size) base)))
          (sym (three_parts start size base))
          (IsKept-append (take start base) (take start base) _ _ (IsKept-refl _) (
            IsKept-append _ _ _ _
              (replace_string-path c tail one_slash no_slash (take size (drop start base))).0
              (IsKept-refl (drop (start + size) base)))) in
      elim (Bool-cases (size == 0 || leb (2 ^ 31) size)) [
        | inl empty ↦ rw empty (IsKept-refl base)
        | inr whole ↦ elim (Bool-cases (leb (start + size) (length base))) [
          | inl inside ↦ rw (whole, inside) kept
          | inr outside ↦ elim (Bool-cases (leb size (length path + 1))) [
            | inl short ↦ rw (whole, outside, short) (IsKept-refl base)
            | inr long ↦ rw (whole, outside, long) tt
          ]
        ]
      ]

  update-IsKept :
      (elf : Elf) (base name base' : Bytes)
      → update_section elf base name path (slashes (length path)) ≡ ok base'
      → IsKept base base'
  unfolding update_section
  update-IsKept elf base name base' done =
      let (section, _, updated) = >>=-returns (find_elf_section elf base name) _ done in
      subst (Keeps base) updated (section-Keeps base section)

  as_slashes :
      (elf : Elf) (unmaps : Bool) (b : ℕ) (base : Bytes)
      → fix_debug_info elf unmaps (codes "/") path (file (b ∷ base))
        ≡ update_debug_info elf unmaps (b ∷ base) path (slashes (length path))
  unfolding fix_debug_info
  as_slashes elf unmaps b base =
      let fits : leb 1 (length path) ≡ true = ground arith in
      let more : length path - 1 ≡ suc (length tail) = omega arith in rw (fits, more) refl

  -- With a server's path of one slash, another byte and more, not ending with a slash, and "/" for the
  -- client's: where dcc_fix_debug_info returns for a file that is not empty, without a read of foreign
  -- memory, the file has as many bytes as before, and each is the same or a slash.
  pub fix_debug_info-IsKept :
      (elf : Elf) (unmaps returns_zero : Bool) (b : ℕ) (base : Bytes) (fixed : Opened)
      → fix_debug_info elf unmaps (codes "/") path (file (b ∷ base)) ≡ ok (returns_zero, fixed)
      → (base' : Bytes) × (fixed ≡ file base') × IsKept (b ∷ base) base'
  unfolding update_debug_info
  fix_debug_info-IsKept elf unmaps returns_zero b base fixed done =
      let (base₁, first, rest) =
        >>=-returns
          (update_section elf (b ∷ base) (codes ".debug_info") path (slashes (length path))) _
          (sym (as_slashes elf unmaps b base) ∙ done) in
      let (base₂, second, last) =
        >>=-returns (update_section elf base₁ (codes ".debug_str") path (slashes (length path))) _
          rest in
      (
        base₂,
        ap (λ (p : Bool × Opened). p.1) (sym (ok_inj last)),
        IsKept-trans (b ∷ base) base₁ base₂
            (update-IsKept elf (b ∷ base) (codes ".debug_info") base₁ first)
            (update-IsKept elf base₁ (codes ".debug_str") base₂ second),
      )
