-- ===== src/Strip.antt =====
-- src/strip.c: the words that need not cross the network, and the output options.
pub mod Laws
pub mod Items
use distcc.Prelude.{Bool, true, false, ◌||◌, [], ◌∷◌, if◌then◌else◌}
use distcc.Prelude.Bytes.{Bytes, codes, str_equal, str_startswith}
use distcc.ExitCode.{Result, ok, undefined, ◌>>=◌}
use distcc.Arg.{Argv}

-- Options of dcc_strip_local_args that take the next word with them.
unfoldable pub takes_word : Bytes → Bool
takes_word a =
    str_equal (codes "-D") a
    || str_equal (codes "-I") a
    || str_equal (codes "-U") a
    || str_equal (codes "-L") a
    || str_equal (codes "-l") a
    || str_equal (codes "-MF") a
    || str_equal (codes "-MT") a
    || str_equal (codes "-MQ") a
    || str_equal (codes "-include") a
    || str_equal (codes "-imacros") a
    || str_equal (codes "-iprefix") a
    || str_equal (codes "-iwithprefix") a
    || str_equal (codes "-isystem") a
    || str_equal (codes "-iwithprefixbefore") a
    || str_equal (codes "-idirafter") a

-- Options with their argument joined.
unfoldable pub joined_word : Bytes → Bool
joined_word a =
    str_startswith (codes "-Wp,") a
    || str_startswith (codes "-Wl,") a
    || str_startswith (codes "-D") a
    || str_startswith (codes "-U") a
    || str_startswith (codes "-I") a
    || str_startswith (codes "-l") a
    || str_startswith (codes "-L") a
    || str_startswith (codes "-MF") a
    || str_startswith (codes "-MT") a
    || str_startswith (codes "-MQ") a

-- Options that only affect cpp.
unfoldable pub cpp_word : Bytes → Bool
cpp_word a =
    str_equal (codes "-undef") a
    || str_equal (codes "-nostdinc") a
    || str_equal (codes "-nostdinc++") a
    || str_equal (codes "-MD") a
    || str_equal (codes "-MMD") a
    || str_equal (codes "-MG") a
    || str_equal (codes "-MP") a

unfoldable pub strip_local_args : Argv → Argv
strip_local_args [] = []
strip_local_args (a ∷ []) =
    if takes_word a then [] else if joined_word a then [] else if cpp_word a then [] else a ∷ []
strip_local_args (a ∷ b ∷ from) =
    let behind = strip_local_args from in
    let rest = strip_local_args (b ∷ from) in
    if takes_word a
    then behind
    else if joined_word a
    then rest
    else if cpp_word a
    then rest
    else a ∷ rest

-- A bare `-o` at the end moves the index behind the NULL.
unfoldable pub strip_dasho : Argv → Result Argv
strip_dasho [] = ok []
strip_dasho (a ∷ []) =
    if str_equal a (codes "-o")
    then undefined
    else if str_startswith (codes "-o") a
    then ok []
    else ok (a ∷ [])
strip_dasho (a ∷ b ∷ from) =
    let behind = strip_dasho from in
    let rest = strip_dasho (b ∷ from) in
    if str_equal a (codes "-o")
    then behind
    else if str_startswith (codes "-o") a
    then rest
    else (rest >>= λ to. ok (a ∷ to))
