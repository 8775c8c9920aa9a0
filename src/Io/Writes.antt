-- ===== src/Io/Writes.antt =====
-- dcc_writex of src/io.c against the buffer that it is given.
use distcc.Prelude.{
  ℕ, suc, ◌≡◌, Option, none, some, List, [], ◌∷◌, ◌++◌, append_assoc, refl, ap, ◌∙◌, length, take,
  drop,
}
use distcc.Prelude.Bytes.{Bytes}
use distcc.ExitCode.{Result, ok, err, exits, undefined}
use distcc.Io.{Write, select_for_write, waited, smaller, Written, wrote, writex_loop}
use distcc.Io.Loops.{take-drop}

-- What is written is the front of the buffer; `left` is what is left of it, and is empty on success.
abbrev IsFront : Bytes → Written → Type 0
IsFront buf (bytes, result) =
    (left : Bytes) × (bytes ++ left ≡ buf) × (result ≡ some (ok tt) → left ≡ [])

after_wait-IsFront :
    (buf : Bytes) (rest : Written) (selected : Option (Result (Unit {0})))
    → IsFront buf rest
    → IsFront buf (elim selected as (λ x. Written) [
      | none ↦ ([], none)
      | some undefined ↦ ([], some undefined)
      | some (exits e) ↦ ([], some (exits e))
      | some (err e) ↦ ([], some (err e))
      | some (ok done) ↦ rest
    ])
after_wait-IsFront buf rest none front = (buf, refl, λ h. cc)
after_wait-IsFront buf rest (some undefined) front = (buf, refl, λ h. cc)
after_wait-IsFront buf rest (some (exits e)) front = (buf, refl, λ h. cc)
after_wait-IsFront buf rest (some (err e)) front = (buf, refl, λ h. cc)
after_wait-IsFront buf rest (some (ok done)) front = front

wrote-IsFront :
    (r : ℕ) (buf : Bytes) (rest : Written)
    → IsFront (drop r buf) rest
    → IsFront buf (wrote (take r buf) rest)
unfolding wrote
wrote-IsFront r buf (bytes, result) (left, front, all) = (
  left,
  append_assoc (take r buf) bytes left ∙ ap (λ t. take r buf ++ t) front ∙ take-drop r buf,
  all,
)

-- Whatever the system answers, dcc_writex writes the front of its buffer in order, and where it
-- succeeds it has written all of it.
pub writex_loop-IsFront :
    (timeout : Option Bytes) (answers : List Write) (buf : Bytes)
    → (left : Bytes) × ((writex_loop timeout answers buf).0 ++ left ≡ buf)
      × ((writex_loop timeout answers buf).1 ≡ some (ok tt) → left ≡ [])
unfolding writex_loop
writex_loop-IsFront timeout answers [] = ([], refl, λ h. refl)
writex_loop-IsFront timeout [] (c ∷ buf) = (c ∷ buf, refl, λ h. cc)
writex_loop-IsFront timeout (Write.interrupted ∷ answers) (c ∷ buf) =
    writex_loop-IsFront timeout answers (c ∷ buf)
writex_loop-IsFront timeout (Write.failed ∷ answers) (c ∷ buf) = (c ∷ buf, refl, λ h. cc)
writex_loop-IsFront timeout (Write.again selects ∷ answers) (c ∷ buf) =
    after_wait-IsFront (c ∷ buf) (writex_loop timeout answers (c ∷ buf))
      (waited timeout (select_for_write selects)) (writex_loop-IsFront timeout answers (c ∷ buf))
writex_loop-IsFront timeout (Write.chunk k ∷ answers) (c ∷ buf) =
    let r = smaller k (suc (length buf)) in
    wrote-IsFront r (c ∷ buf) (writex_loop timeout answers (drop r (c ∷ buf)))
      (writex_loop-IsFront timeout answers (drop r (c ∷ buf)))
