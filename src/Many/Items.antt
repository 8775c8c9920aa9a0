-- ===== src/Many/Items.antt =====
-- The items that dcc_x_many_files of src/clirpc.c sends, and their messages.
use distcc.Prelude.{
  ℕ, suc, ◌*◌, ◌%◌, ◌^◌, ◌≤◌, ◌<◌, ◌≡◌, Bool, true, false, if◌then◌else◌, none, some, List, [], ◌∷◌,
  ◌++◌, refl, length, arith,
}
use distcc.Prelude.Bytes.{Bytes, str_equal}
use distcc.ExitCode.{Result, ok}
use distcc.Effects.{Effect, created, linked, Run, Disk}
use distcc.Hosts.{Compress, compress_none, lzo1x}
use distcc.Rpc.{hex_digits, x_token_string}
use distcc.Rpc.Tokens.{r_token_int-x_token_int}
use distcc.Bulk.{Lzo, file, open_read, x_file}
use distcc.Bulk.Receive.{r_bulk}
use distcc.Bulk.Laws.{IsLzo, IsWritable, r_bulk-plain, r_bulk-packed}
use distcc.Many.{Source, x_both, below}

-- A name on the client, the name that it stands for, and the target of a link; or the text and the
-- bytes of the local file, which the receiver takes for the compressed text if it decompresses.
pub data Item : Type 0 where
  link : Bytes → Bytes → Bytes → Item
  regular : Bytes → Bytes → Bytes → Bytes → Item

abbrev IsPacked : ℕ → Lzo → Compress → Bytes → Bytes → Type 0
IsPacked fuel lzo compress_none plain packed = (packed ≡ plain) × (length packed < 2 ^ 32)
IsPacked fuel lzo lzo1x plain packed =
    (lzo.compress plain ≡ some packed)
    × (length plain < 2 ^ 32)
    × (length packed < 2 ^ 29)
    × (length plain ≤ 8 * 2 ^ fuel)

-- The client finds the item as it is described, and the server can make it below the directory.
abbrev pub IsItem : ℕ → Lzo → Source → Disk → Bytes → Compress → Item → Type 0
IsItem fuel lzo source disk dirname compr (link fname original target) =
    (source.original_fname fname ≡ ok original)
    × (source.read_link fname ≡ ok (some target))
    × (length original < 2 ^ 32)
    × (length target < 2 ^ 32)
    × (disk.ancestors (dirname ++ original) ≡ none)
    × (disk.symlinks (below dirname target) (dirname ++ original) ≡ true)
    × (disk.cleanup (dirname ++ original) ≡ none)
IsItem fuel lzo source disk dirname compr (regular fname original plain packed) =
    (source.original_fname fname ≡ ok original)
    × (source.read_link fname ≡ ok none)
    × (length original < 2 ^ 32)
    × (source.opened fname ≡ file packed)
    × IsPacked fuel lzo compr plain packed
    × IsWritable disk (dirname ++ original)
    × (disk.cleanup (dirname ++ original) ≡ none)

abbrev pub original_of : Item → Bytes
original_of (link _ original _) = original
original_of (regular _ original _ _) = original

-- Some item has the name on the server.
abbrev pub has_name : Bytes → List Item → Bool
has_name original [] = false
has_name original (item ∷ items) =
    let rest = has_name original items in
    if str_equal (original_of item) original then true else rest

-- All items are as described, with different names on the server.
abbrev pub AllItems : ℕ → Lzo → Source → Disk → Bytes → Compress → List Item → Type 0
AllItems fuel lzo source disk dirname compr [] = Unit {0}
AllItems fuel lzo source disk dirname compr (item ∷ items) =
    IsItem fuel lzo source disk dirname compr item
    × (has_name (original_of item) items ≡ false)
    × AllItems fuel lzo source disk dirname compr items

abbrev pub fname_of : Item → Bytes
fname_of (link fname _ _) = fname
fname_of (regular fname _ _ _) = fname

abbrev pub effect_of : Bytes → Item → Effect
effect_of dirname (link fname original target) = linked (dirname ++ original) (below dirname target)
effect_of dirname (regular fname original plain packed) = created (dirname ++ original) plain

-- What is written makes the reader change the file system in the given way, whatever follows.
pub record Makes (writer : Result Bytes) (reader : Bytes → Run Bytes) (effects : List Effect)
    : Type 0 where
  pub bytes : Bytes
  pub sends : writer ≡ ok bytes
  pub runs : (rest : Bytes) → reader (bytes ++ rest) ≡ (effects, some (ok rest))

pub x_token_string_lem :
    (token buf : Bytes)
    → length token ≡ 4
    → length buf < 2 ^ 32
    → x_token_string token buf ≡ ok (token ++ hex_digits 8 (length buf) ++ buf)
unfolding x_token_string
x_token_string_lem token buf four short =
    let same : length buf % 2 ^ 32 ≡ length buf = omega arith in
    rw (same, (r_token_int-x_token_int token [] (length buf) four short).0) refl

pub x_file_plain :
    (lzo : Lzo) (token contents : Bytes)
    → length token ≡ 4
    → length contents < 2 ^ 32
    → x_file lzo compress_none token (file contents)
      ≡ ok (token ++ hex_digits 8 (length contents) ++ contents)
unfolding x_file open_read
x_file_plain lzo token contents four short =
    let same : length contents % 2 ^ 32 ≡ length contents = omega arith in
    rw (x_file, same, (r_token_int-x_token_int token [] (length contents) four short).0) refl

pub x_both-ok : (a b : Result Bytes) (x y : Bytes) → a ≡ ok x → b ≡ ok y → x_both a b ≡ ok (x ++ y)
unfolding x_both
x_both-ok a b x y first second = rw (first, second) refl

pub r_bulk-IsPacked :
    (fuel : ℕ) (lzo : Lzo) (compr : Compress) (plain packed rest : Bytes)
    → IsLzo lzo
    → IsPacked fuel lzo compr plain packed
    → (length packed < 2 ^ 32)
      × (r_bulk (suc fuel) lzo (length packed) compr (packed ++ rest)
          ≡ ([], some (ok (plain, rest))))
r_bulk-IsPacked fuel lzo compress_none plain packed rest laws (same, short) =
    (short, rw same (r_bulk-plain (suc fuel) lzo plain rest))
r_bulk-IsPacked fuel lzo lzo1x plain packed rest laws (packs, short, small, enough) =
    (omega arith, r_bulk-packed fuel lzo plain packed rest laws packs short small enough)
