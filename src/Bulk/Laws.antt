-- ===== src/Bulk/Laws.antt =====
-- Files through dcc_x_file and dcc_r_file of src/bulk.c.
use distcc.Prelude.{
  ℕ, zero, suc, ◌*◌, ◌%◌, ◌^◌, ◌≤◌, ◌<◌, ◌≡◌, ◌≢◌, true, false, Bool-cases, none, some, inl, inr,
  List, [], ◌∷◌, ◌++◌, append_assoc, append-nil, leb, ◌==◌, if◌then◌else◌, refl, ap, sym, length,
  take, length-append, take-append, drop-append, arith,
}
use native.Mathlib.Nat.{pow-succ', mul_assoc}
use distcc.Prelude.Bytes.{Bytes}
use distcc.ExitCode.{Result, ok}
use distcc.Effects.{created, Disk}
use distcc.Hosts.{Compress, compress_none, lzo1x}
use distcc.Rpc.{hex_digits}
use distcc.Rpc.Tokens.{readx-append, r_token_int-x_token_int}
use distcc.Bulk.{Lzo, done, overrun, file, open_read, compress_file, x_file_lzo1x, x_file}
use distcc.Bulk.Receive.{pump_readwrite, lzo_loop, r_bulk_lzo1x, r_bulk, r_file, r_token_file}

-- What the program relies on in lzo: a compressed text is not empty, and is decompressed again into
-- a buffer that is large enough; for a smaller one the answer is LZO_E_OUTPUT_OVERRUN.
pub record IsLzo (lzo : Lzo) : Type 0 where
  pub not_empty : (plain packed : Bytes) → lzo.compress plain ≡ some packed → length packed ≢ 0
  pub unpacks :
      (plain packed : Bytes) (size : ℕ)
      → lzo.compress plain ≡ some packed
      → lzo.decompress packed size ≡ (if leb (length plain) size then done plain else overrun)

-- The file system lets a file of the name be written.
abbrev pub IsWritable : Disk → Bytes → Type 0
IsWritable disk fname =
    (disk.ancestors fname ≡ none) × (disk.opens fname ≡ true) × (disk.closes fname ≡ true)

double : (size fuel : ℕ) → size * 2 ^ suc fuel ≡ size * 2 * 2 ^ fuel
double size fuel = rw (pow-succ' 2 fuel) (sym (mul_assoc size 2 (2 ^ fuel)))

-- The buffer grows up to the length of the text.
lzo_loop-unpacks :
    (lzo : Lzo) (plain packed : Bytes) (fuel size : ℕ)
    → IsLzo lzo
    → lzo.compress plain ≡ some packed
    → length plain < 2 ^ 32
    → length plain ≤ size * 2 ^ fuel
    → size < 2 ^ 33
    → lzo_loop (suc fuel) lzo packed size ≡ some (ok plain)
unfolding lzo_loop
lzo_loop-unpacks lzo plain packed zero size laws packs short enough small =
    let fits : leb (length plain) size ≡ true = ground arith in
    rw (lzo_loop, laws.unpacks plain packed size packs, fits) refl
lzo_loop-unpacks lzo plain packed (suc fuel) size laws packs short enough small =
    elim (Bool-cases (leb (length plain) size)) [
      | inl fits ↦ rw (lzo_loop, laws.unpacks plain packed size packs, fits) refl
      | inr over ↦
          let same : size * 2 % 2 ^ 64 ≡ size * 2 = ground arith in
          let more : lzo_loop (suc fuel) lzo packed (size * 2 % 2 ^ 64) ≡ some (ok plain) =
            rw same (
              lzo_loop-unpacks lzo plain packed fuel (size * 2) laws packs short
                (omega (arith, enough, double size fuel)) (ground arith)) in
          rw (lzo_loop, laws.unpacks plain packed size packs, over) more
    ]

-- The text can be sent: it and its compressed form are short enough for the numbers that the two
-- sides use.
abbrev pub IsSendable : Lzo → Compress → Bytes → Type 0
IsSendable lzo compress_none contents = length contents < 2 ^ 32
IsSendable lzo lzo1x contents =
    (length contents < 2 ^ 32)
    × ((packed : Bytes) × (lzo.compress contents ≡ some packed) × (length packed < 2 ^ 29))

pub r_file-created :
    (fuel : ℕ) (lzo : Lzo) (disk : Disk) (fname : Bytes) (len : ℕ) (compr : Compress)
    (input contents rest : Bytes)
    → IsWritable disk fname
    → r_bulk fuel lzo len compr input ≡ ([], some (ok (contents, rest)))
    → r_file fuel lzo disk fname len compr input ≡ (created fname contents ∷ [], some (ok rest))
unfolding r_file
r_file-created fuel lzo disk fname len compr input contents rest (dirs, opens, closes) received =
    rw (r_file, dirs, opens, closes, received) refl

pump_all :
    (contents rest : Bytes)
    → pump_readwrite (length contents) (contents ++ rest) ≡ ok (contents, rest)
unfolding pump_readwrite
pump_all contents rest =
    ground
      (arith, length-append contents rest, take-append contents rest, drop-append contents rest)

pub r_bulk-plain :
    (fuel : ℕ) (lzo : Lzo) (contents rest : Bytes)
    → r_bulk fuel lzo (length contents) compress_none (contents ++ rest)
      ≡ ([], some (ok (contents, rest)))
unfolding r_bulk
r_bulk-plain fuel lzo [] rest = refl
r_bulk-plain fuel lzo (c ∷ contents) rest =
    let more : (suc (length contents) == 0) ≡ false = ground arith in
    rw (r_bulk, more, pump_all (c ∷ contents) rest) refl

r_bulk-nothing :
    (fuel : ℕ) (lzo : Lzo) (rest : Bytes)
    → r_bulk fuel lzo 0 lzo1x rest ≡ ([], some (ok ([], rest)))
unfolding r_bulk
r_bulk-nothing fuel lzo rest = refl

pub r_bulk-packed :
    (fuel : ℕ) (lzo : Lzo) (contents packed rest : Bytes)
    → IsLzo lzo
    → lzo.compress contents ≡ some packed
    → length contents < 2 ^ 32
    → length packed < 2 ^ 29
    → length contents ≤ 8 * 2 ^ fuel
    → r_bulk (suc fuel) lzo (length packed) lzo1x (packed ++ rest)
      ≡ ([], some (ok (contents, rest)))
unfolding r_bulk r_bulk_lzo1x
r_bulk-packed fuel lzo contents packed rest laws packs short small enough =
    let more : (length packed == 0) ≡ false =
      ground (arith, laws.not_empty contents packed packs) in
    let size : 8 * length packed % 2 ^ 32 ≡ 8 * length packed = omega arith in
    let loop =
      lzo_loop-unpacks lzo contents packed fuel (8 * length packed) laws packs short
        (grind (arith, laws.not_empty contents packed packs)) (omega arith) in
    rw (r_bulk, r_bulk_lzo1x, more, readx-append (length packed) packed rest refl, size, loop) refl

-- A text that is sent with the token is received under the token as a file of the name.
abbrev pub FileDelivers : ℕ → Lzo → Disk → Compress → Bytes → Bytes → Bytes → Result Bytes → Type 0
FileDelivers fuel lzo disk compr token fname contents writer =
    (bytes : Bytes) × (writer ≡ ok bytes)
    × ((rest : Bytes)
        → r_token_file fuel lzo disk token fname compr (bytes ++ rest)
          ≡ (created fname contents ∷ [], some (ok rest)))

take_all : {A : Type 0} (xs : List A) → take (length xs) xs ≡ xs
take_all [] = refl
take_all (x ∷ xs) = ap (λ t. x ∷ t) (take_all xs)

module _ (lzo : Lzo) (token : Bytes) (four : length token ≡ 4) where
  x_file_lzo1x-nothing : x_file lzo lzo1x token (file []) ≡ ok (token ++ hex_digits 8 0 ++ [])
  unfolding x_file open_read x_file_lzo1x
  x_file_lzo1x-nothing =
      let (header, _) = r_token_int-x_token_int token [] 0 four (omega arith) in
      rw header (rw (append-nil (token ++ hex_digits 8 0)))

  x_file_lzo1x-packed :
      (contents packed : Bytes)
      → (length contents == 0) ≡ false
      → lzo.compress contents ≡ some packed
      → length contents < 2 ^ 32
      → length packed < 2 ^ 29
      → x_file lzo lzo1x token (file contents)
        ≡ ok (token ++ hex_digits 8 (length packed) ++ packed)
  unfolding x_file open_read x_file_lzo1x compress_file
  x_file_lzo1x-packed contents packed more packs short small =
      let whole : length contents % 2 ^ 32 ≡ length contents = omega arith in
      let all : take (length contents) contents ≡ contents = take_all contents in
      let size : length packed % 2 ^ 32 ≡ length packed = omega arith in
      let (header, _) = r_token_int-x_token_int token [] (length packed) four (omega arith) in
      rw (x_file_lzo1x, whole, more, all, compress_file, packs, size, header) refl

  -- The body that dcc_x_file sends, and what dcc_r_bulk makes of it.
  pub x_file_body :
      (fuel : ℕ) (compr : Compress) (contents : Bytes)
      → IsLzo lzo
      → IsSendable lzo compr contents
      → length contents ≤ 8 * 2 ^ fuel
      → (body : Bytes) × (x_file lzo compr token (file contents)
          ≡ ok (token ++ hex_digits 8 (length body) ++ body))
        × (length body < 2 ^ 32)
        × ((rest : Bytes)
            → r_bulk (suc fuel) lzo (length body) compr (body ++ rest)
              ≡ ([], some (ok (contents, rest))))
  unfolding x_file open_read
  x_file_body fuel compress_none contents laws short enough =
      let whole : length contents % 2 ^ 32 ≡ length contents = omega arith in
      let (header, _) = r_token_int-x_token_int token [] (length contents) four short in
      (
        contents,
        rw (x_file, whole, header) refl,
        short,
        λ rest. r_bulk-plain (suc fuel) lzo contents rest,
      )
  x_file_body fuel lzo1x [] laws (short, (packed, packs, small)) enough =
      ([], x_file_lzo1x-nothing, omega arith, λ rest. r_bulk-nothing (suc fuel) lzo rest)
  x_file_body fuel lzo1x (c ∷ contents) laws (short, (packed, packs, small)) enough =
      let more : (suc (length contents) == 0) ≡ false = ground arith in
      (
        packed,
        x_file_lzo1x-packed (c ∷ contents) packed more packs short small,
        omega arith,
        λ rest. r_bulk-packed fuel lzo (c ∷ contents) packed rest laws packs short small enough,
      )

module _ (lzo : Lzo) (disk : Disk) (token fname : Bytes) (four : length token ≡ 4)
    (writable : IsWritable disk fname) where
  -- A packet with its body behind it.
  packet_body :
      (fuel : ℕ) (compr : Compress) (body contents rest : Bytes)
      → length body < 2 ^ 32
      → r_bulk fuel lzo (length body) compr (body ++ rest) ≡ ([], some (ok (contents, rest)))
      → r_token_file fuel lzo disk token fname compr
          (token ++ hex_digits 8 (length body) ++ body ++ rest)
        ≡ (created fname contents ∷ [], some (ok rest))
  unfolding r_token_file
  packet_body fuel compr body contents rest short received =
      let (_, header) = r_token_int-x_token_int token (body ++ rest) (length body) four short in
      let file_made =
        r_file-created fuel lzo disk fname (length body) compr (body ++ rest) contents rest writable
          received in
      rw (append_assoc (token ++ hex_digits 8 (length body)) body rest)
        (rw (r_token_file, header, file_made) refl)

  -- A text that can be sent is written by dcc_x_file under a token of four bytes, and dcc_r_token_file
  -- writes it to its file and takes just its bytes off the connection, whatever follows them, where
  -- the file can be written. For a text of n bytes with compression, the buffer is enlarged at most k
  -- times, where n is at most 8 * 2 ^ k.
  pub r_token_file-x_file :
      (fuel : ℕ) (compr : Compress) (contents : Bytes)
      → IsLzo lzo
      → IsSendable lzo compr contents
      → length contents ≤ 8 * 2 ^ fuel
      → FileDelivers
          (suc fuel)
          lzo
          disk
          compr
          token
          fname
          contents
          (x_file lzo compr token (file contents))
  r_token_file-x_file fuel compr contents laws sendable enough =
      let (body, sends, short, received) =
        x_file_body lzo token four fuel compr contents laws sendable enough in
      (
        token ++ hex_digits 8 (length body) ++ body,
        sends,
        λ rest. packet_body (suc fuel) compr body contents rest short (received rest),
      )
