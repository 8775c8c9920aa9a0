-- ===== src/Masquerade.antt =====
-- The client's search of PATH: dcc_support_masquerade of src/climasq.c, and dcc_trim_path and
-- dcc_abspath of src/util.c. What access, lstat, readlink and getcwd answer are arguments; putenv and
-- allocation succeed.
pub mod Laws
pub mod Trim
pub mod Abspath
use distcc.Prelude.{
  ℕ, zero, suc, ◌+◌, ◌-◌, Bool, true, false, ◌&&◌, Option, none, some, List, [], ◌∷◌, ◌++◌, ◌==◌,
  ltb, leb, if◌then◌else◌, drop, take, length,
}
use distcc.Prelude.Bytes.{Bytes, codes, first, second, str_equal, strstr, strrchr}
use distcc.ExitCode.{Result, ok, exits, undefined, out_of_memory, ◌>>=◌}
use distcc.Dotd.Cleanup.{find}

add_byte : ℕ → List (Bytes × Bytes) → List (Bytes × Bytes)
add_byte c [] = (c ∷ [], []) ∷ []
add_byte c ((component, n) ∷ more) = (c ∷ component, n) ∷ more

-- The rounds of the loops over PATH: a component, and what stands behind it and its colon. A loop
-- ends where nothing is left.
unfoldable pub rounds : Bytes → List (Bytes × Bytes)
unfolding add_byte
rounds [] = []
rounds (c ∷ p) = let more = rounds p in if c == b':' then ([], p) ∷ more else add_byte c more

-- What is left of PATH behind the first component that matches; nothing where none does.
unfoldable pub past_match : (Bytes → Bool) → List (Bytes × Bytes) → Bytes
past_match matches [] = []
past_match matches ((component, n) ∷ more) =
    let rest = past_match matches more in if matches component then n else rest

-- The PATH that is set, if it is, and what is written to *did_masquerade.
pub record Masqueraded : Type 0 where
  pub new_path : Option Bytes
  pub did_masquerade : Option Bool

masqueraded : Bytes → Masqueraded
masqueraded [] = record { new_path = none; did_masquerade = some false }
masqueraded (c ∷ p) = record { new_path = some (c ∷ p); did_masquerade = some true }

-- The component is the directory that the program has been called by, or it holds a program of the
-- name.
unfoldable pub component_matches : (Bytes → Bool) → Option Bytes → Bytes → Bytes → Bool
component_matches access (some findpath) progname component = str_equal component findpath
component_matches access none progname component = access (component ++ (codes "/" ++ progname))

-- dcc_support_masquerade, behind the call of dcc_abspath.
unfoldable pub masquerade_in : (Bytes → Bool) → Option Bytes → Option Bytes → Bytes → Masqueraded
unfolding masqueraded component_matches
masquerade_in access none findpath progname = record { new_path = none; did_masquerade = none }
masquerade_in access (some envpath) findpath progname =
    masqueraded (past_match (component_matches access findpath progname) (rounds envpath))

-- The loop of dcc_abspath that takes out a directory and the /.. behind it; in front of `p` stands
-- `done`.
unfoldable pub squeeze : ℕ → Bytes → Bytes → Option Bytes
squeeze zero done p = none
squeeze (suc fuel) done p = elim (find (codes "/../") p) [
  | none ↦ some (done ++ p)
  | some (before, after) ↦ elim (strrchr b'/' (done ++ before)) [
    | none ↦ squeeze fuel (done ++ before) (b'/' ∷ after)
    | some (dir, slash) ↦ squeeze fuel dir (b'/' ∷ after)
  ]
]

-- `path += 2` for a path that begins with ./
abbrev without_dot : Bytes → Bytes
without_dot path = if first path == b'.' && second path == b'/' then drop 2 path else path

-- dcc_abspath on so many bytes of a path, all of them for 0, with a buffer of max_path bytes.
-- `none` is a lack of fuel.
unfoldable pub abspath : ℕ → ℕ → Bytes → Bytes → ℕ → Result (Option Bytes)
abspath fuel max_path cwd path path_len =
    let part = if path_len == 0 then path else take path_len path in
    let used = without_dot part in
    if first path == b'/'
    then (if leb max_path (length used) then exits out_of_memory else ok (squeeze fuel [] used))
    else if leb max_path (length cwd + 1 + length used)
    then exits out_of_memory
    else ok (squeeze fuel cwd (b'/' ∷ used))

-- dcc_support_masquerade: argv[0] is the directory with its slash, if any, and progname.
unfoldable pub support_masquerade :
    ℕ
    → ℕ
    → Bytes
    → (Bytes → Bool)
    → Option Bytes
    → Option Bytes
    → Bytes
    → Result (Option Masqueraded)
support_masquerade fuel max_path cwd access none dir progname =
    ok (some (masquerade_in access none none progname))
support_masquerade fuel max_path cwd access (some envpath) none progname =
    ok (some (masquerade_in access (some envpath) none progname))
support_masquerade fuel max_path cwd access (some envpath) (some dir) progname =
    abspath fuel max_path cwd (dir ++ (codes "/" ++ progname)) (length dir) >>= λ found.
    ok (elim found [
      | none ↦ none
      | some findpath ↦ some (masquerade_in access (some envpath) (some findpath) progname)
    ])

-- A name that lstat is called on: it does not exist, is no symbolic link, or is one, whose target can
-- be read or not.
pub data Lstat : Type 0 where
  missing no_link : Lstat
  link : Option Bytes → Lstat

-- A round of dcc_trim_path. The size_t that takes the -1 of readlink passes the test for 0 or less,
-- and is then an index of linkbuf, as is the whole size of linkbuf.
unfoldable pub trim_round :
    ℕ
    → Lstat
    → Bytes
    → Option Bytes
    → (Option Bytes → Result (Option Bytes))
    → Result (Option Bytes)
trim_round max_path missing n newpath next = next newpath
trim_round max_path no_link n newpath next = ok newpath
trim_round max_path (link none) n newpath next = undefined
trim_round max_path (link (some [])) n newpath next = next newpath
trim_round max_path (link (some (c ∷ target))) n newpath next =
    if leb max_path (length (c ∷ target))
    then undefined
    else next (if strstr (c ∷ target) (codes "distcc") then some n else newpath)

unfoldable pub trim_rounds :
    ℕ → (Bytes → Lstat) → List (Bytes × Bytes) → Option Bytes → Result (Option Bytes)
trim_rounds max_path lstat [] newpath = ok newpath
trim_rounds max_path lstat ((file, n) ∷ more) newpath =
    trim_round max_path (lstat file) n newpath (λ after. trim_rounds max_path lstat more after)

-- dcc_trim_path: the PATH that is set, if it is.
unfoldable pub trim_path : ℕ → (Bytes → Lstat) → Option Bytes → Bytes → Result (Option Bytes)
trim_path max_path lstat none compiler_name = ok none
trim_path max_path lstat (some envpath) compiler_name =
    trim_rounds max_path (λ component. lstat (component ++ (codes "/" ++ compiler_name)))
      (rounds envpath) none
