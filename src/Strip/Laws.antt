-- ===== src/Strip/Laws.antt =====
-- What dcc_strip_dasho of src/strip.c leaves of an argv.
use distcc.Prelude.{
  ℕ, true, false, ◌≡◌, refl, sym, append-nil, ◌∙◌, inl, inr, [], ◌∷◌, ◌++◌, arith, all, Bool-cases,
  if◌then◌else◌,
}
use distcc.Prelude.Bytes.{Bytes, codes, str_equal, str_startswith}
use distcc.ExitCode.{Result, ok, err, exits, undefined, ◌>>=◌}
use distcc.Arg.Rewrite.Laws.{no_dash_o, dash_o}
use distcc.Arg.{Argv}
use distcc.Strip.{strip_dasho}

abbrev pub Cleared : Result Argv → Type 0
Cleared (ok to) = all no_dash_o to ≡ true
Cleared _ = Unit {0}

strip_dasho-keep :
    (a : Bytes) (from : Argv)
    → no_dash_o a ≡ true
    → strip_dasho (a ∷ from) ≡ (strip_dasho from >>= λ to. ok (a ∷ to))
unfolding strip_dasho
strip_dasho-keep a [] h = ground (arith, dash_o a)
strip_dasho-keep a (b ∷ from) h = ground (arith, dash_o a)

-- A word that begins with `-o` is not copied.
strip_dasho-drop :
    (a b : Bytes) (from : Argv)
    → no_dash_o a ≡ false
    → strip_dasho (a ∷ b ∷ from)
      ≡ (if str_equal a (codes "-o") then strip_dasho from else strip_dasho (b ∷ from))
unfolding strip_dasho
strip_dasho-drop a b from h = ground arith

Cleared-cons :
    (a : Bytes) (r : Result Argv)
    → no_dash_o a ≡ true
    → Cleared r
    → Cleared (r >>= λ to. ok (a ∷ to))
Cleared-cons a (ok to) n h = ground arith
Cleared-cons a (err e) n h = tt
Cleared-cons a (exits e) n h = tt
Cleared-cons a undefined n h = tt

Cleared-last : (a : Bytes) → Cleared (strip_dasho (a ∷ []))
unfolding strip_dasho
Cleared-last a = ground arith

strip_dasho-Cleared : (from : Argv) → Cleared (strip_dasho from)
strip_dasho-Cleared [] = unfold strip_dasho in refl
strip_dasho-Cleared (a ∷ []) = Cleared-last a
strip_dasho-Cleared (a ∷ b ∷ from) = elim (Bool-cases (no_dash_o a)) [
  | inl n ↦
      rw (strip_dasho-keep a (b ∷ from) n)
        (Cleared-cons a (strip_dasho (b ∷ from)) n (strip_dasho-Cleared (b ∷ from)))
  | inr y ↦ rw (strip_dasho-drop a b from y) (elim (Bool-cases (str_equal a (codes "-o"))) [
    | inl e ↦ rw e (strip_dasho-Cleared from)
    | inr e ↦ rw e (strip_dasho-Cleared (b ∷ from))
  ])
]

bind-ok : (r : Result Argv) → (r >>= λ to. ok to) ≡ r
bind-ok (ok to) = refl
bind-ok (err e) = refl
bind-ok (exits e) = refl
bind-ok undefined = refl

bind-ok_cons :
    (a : Bytes) (before : Argv) (r : Result Argv)
    → ((r >>= λ to. ok (before ++ to)) >>= λ to. ok (a ∷ to))
      ≡ (r >>= λ to. ok (a ∷ (before ++ to)))
bind-ok_cons a before (ok to) = refl
bind-ok_cons a before (err e) = refl
bind-ok_cons a before (exits e) = refl
bind-ok_cons a before undefined = refl

strip_dasho-append :
    (before from : Argv)
    → all no_dash_o before ≡ true
    → strip_dasho (before ++ from) ≡ (strip_dasho from >>= λ to. ok (before ++ to))
strip_dasho-append [] from h = sym (bind-ok (strip_dasho from))
strip_dasho-append (a ∷ before) from h =
    strip_dasho-keep a (before ++ from) (ground arith)
    ∙ rw (strip_dasho-append before from (ground arith)) (bind-ok_cons a before (strip_dasho from))

strip_dasho-first :
    (f : Bytes) (from : Argv)
    → (strip_dasho (codes "-o" ∷ f ∷ from) ≡ strip_dasho from)
      × (strip_dasho (codes "-o" ∷ []) ≡ undefined)
      × (strip_dasho [] ≡ ok [])
unfolding strip_dasho str_equal
strip_dasho-first f from = (refl, refl, refl)

strip_dasho-joined :
    (c : ℕ) (name : Bytes) (from : Argv)
    → strip_dasho ((codes "-o" ++ (c ∷ name)) ∷ from) ≡ strip_dasho from
unfolding strip_dasho str_equal str_startswith
strip_dasho-joined c name [] = refl
strip_dasho-joined c name (b ∷ from) = refl

-- dcc_strip_dasho leaves no word that begins with `-o` where it returns. Words in front of the first
-- such word are kept, a word -oFILE is dropped alone, a bare `-o` goes with the word behind it, and the
-- rest is stripped likewise; but where the bare `-o` is the last word, the function reads behind the
-- closing NULL.
pub strip_dasho_lem :
    (before from : Argv) (file : Bytes) (c : ℕ) (name : Bytes)
    → all no_dash_o before ≡ true
    → Cleared (strip_dasho from)
      × (strip_dasho before ≡ ok before)
      × (strip_dasho (before ++ ((codes "-o" ++ (c ∷ name)) ∷ from))
          ≡ (strip_dasho from >>= λ to. ok (before ++ to)))
      × (strip_dasho (before ++ (codes "-o" ∷ file ∷ from))
          ≡ (strip_dasho from >>= λ to. ok (before ++ to)))
      × (strip_dasho (before ++ (codes "-o" ∷ [])) ≡ undefined)
strip_dasho_lem before from file c name h =
    let (x, y, z) = strip_dasho-first file from in
    (
      strip_dasho-Cleared from,
      rw append-nil at (rw z at (strip_dasho-append before [] h)),
      rw (strip_dasho-joined c name from) at
          (strip_dasho-append before ((codes "-o" ++ (c ∷ name)) ∷ from) h),
      rw x at (strip_dasho-append before (codes "-o" ∷ file ∷ from) h),
      rw y at (strip_dasho-append before (codes "-o" ∷ []) h),
    )
