-- ===== src/Many/Laws.antt =====
-- The files that dcc_x_many_files of src/clirpc.c sends and dcc_r_many_files of src/srvrpc.c makes.
use distcc.Prelude.{
  ℕ, suc, ◌%◌, ◌^◌, ◌<◌, ◌≡◌, true, none, some, List, [], ◌∷◌, ◌++◌, map, append_assoc, refl, ◌∙◌,
  length, arith,
}
use distcc.Prelude.Bytes.{Bytes, codes, str_equal}
use distcc.ExitCode.{ok}
use distcc.Effects.{Effect, created, linked, Disk, quiet-bind, run-bind}
use distcc.Hosts.{Compress}
use distcc.Rpc.{hex_digits, x_token_string, r_token_string, r_str_alloc}
use distcc.Rpc.Tokens.{readx-append, r_sometoken_int-packet}
use distcc.Rpc.Messages.{Delivers, token_int-Delivers, token_string-Delivers}
use distcc.Bulk.{Lzo}
use distcc.Bulk.Receive.{r_bulk, r_file}
use distcc.Bulk.Laws.{IsLzo, IsWritable, r_file-created}
use distcc.Many.Items.{
  Item, link, regular, IsItem, AllItems, fname_of, effect_of, Makes, x_token_string_lem,
  x_file_plain, x_both-ok, r_bulk-IsPacked,
}
use distcc.Many.{
  Source, x_entry, x_one, x_all, x_many_files, below, add_cleanup, make_link, r_entry, r_one, r_all,
  r_many_files,
}

module _ (fuel : ℕ) (lzo : Lzo) (source : Source) (disk : Disk) (dirname : Bytes) (compr : Compress)
    (laws : IsLzo lzo) where
  entry-link :
      (name target rest : Bytes)
      → disk.ancestors name ≡ none
      → disk.symlinks (below dirname target) name ≡ true
      → disk.cleanup name ≡ none
      → r_entry (suc fuel) lzo disk dirname compr name (codes "LINK", length target, target ++ rest)
        ≡ (linked name (below dirname target) ∷ [], some (ok rest))
  unfolding r_entry make_link add_cleanup str_equal r_str_alloc
  entry-link name target rest dirs linkable kept =
      let read : r_str_alloc (length target) (target ++ rest) ≡ ok (target, rest) =
        rw (readx-append (length target) target rest refl) refl in
      quiet-bind (r_str_alloc (length target) (target ++ rest)) _ (target, rest) read
      ∙ rw (make_link, add_cleanup, dirs, linkable, kept) refl

  entry-file :
      (name plain packed rest : Bytes)
      → IsWritable disk name
      → disk.cleanup name ≡ none
      → r_bulk (suc fuel) lzo (length packed) compr (packed ++ rest) ≡ ([], some (ok (plain, rest)))
      → r_entry (suc fuel) lzo disk dirname compr name (codes "FILE", length packed, packed ++ rest)
        ≡ (created name plain ∷ [], some (ok rest))
  unfolding r_entry add_cleanup str_equal
  entry-file name plain packed rest writable kept received =
      run-bind (r_file (suc fuel) lzo disk name (length packed) compr (packed ++ rest)) _
        (created name plain ∷ []) [] rest (ok rest)
        (r_file-created (suc fuel) lzo disk name (length packed) compr (packed ++ rest) plain rest
          writable received)
        (rw (add_cleanup, kept) refl)

  -- A name, and a message behind it.
  one-run :
      (original token body rest : Bytes) (effects : List Effect)
      (name : Delivers
        (x_token_string (codes "NAME") original)
        (r_token_string (codes "NAME"))
        original)
      → length token ≡ 4
      → length body < 2 ^ 32
      → r_entry
          (suc fuel)
          lzo
          disk
          dirname
          compr
          (dirname ++ original)
          (token, length body, body ++ rest)
        ≡ (effects, some (ok rest))
      → r_one
          (suc fuel)
          lzo
          disk
          dirname
          compr
          (name.bytes ++ (token ++ hex_digits 8 (length body) ++ body) ++ rest)
        ≡ (effects, some (ok rest))
  unfolding r_one
  one-run original token body rest effects name four short entry = rw append_assoc (
      quiet-bind _ _ (original, (token ++ hex_digits 8 (length body) ++ body) ++ rest)
        (name.reads _)
      ∙ rw (append_assoc (token ++ hex_digits 8 (length body)) body rest) (
          quiet-bind _ _ (token, length body, body ++ rest)
            (r_sometoken_int-packet token (body ++ rest) (length body) four short)
          ∙ entry))

  one-Makes :
      (item : Item)
      → IsItem fuel lzo source disk dirname compr item
      → Makes
          (x_one lzo source (fname_of item))
          (r_one (suc fuel) lzo disk dirname compr)
          (effect_of dirname item ∷ [])
  unfolding x_one x_entry
  one-Makes (link fname original target) (known, is_link, short, short', dirs, linkable, kept) =
      let name = token_string-Delivers (codes "NAME") original refl short in
      let message = codes "LINK" ++ hex_digits 8 (length target) ++ target in
      record {
        bytes = name.bytes ++ message;
        sends =
            rw (x_one, known, is_link)
              (x_both-ok _ _ name.bytes message name.sends
                (x_token_string_lem (codes "LINK") target refl short'));
        runs = λ rest.
            one-run original (codes "LINK") target rest _ name refl short'
              (entry-link (dirname ++ original) target rest dirs linkable kept);
      }
  one-Makes (regular fname original plain packed)
        (known, no_link, short, opened, as_packed, writable, kept) =
      let name = token_string-Delivers (codes "NAME") original refl short in
      let message = codes "FILE" ++ hex_digits 8 (length packed) ++ packed in
      let (short', _) = r_bulk-IsPacked fuel lzo compr plain packed [] laws as_packed in
      record {
        bytes = name.bytes ++ message;
        sends =
            rw (x_one, known, no_link, opened)
              (x_both-ok _ _ name.bytes message name.sends
                (x_file_plain lzo (codes "FILE") packed refl short'));
        runs = λ rest. one-run original (codes "FILE") packed rest _ name refl short' (
            entry-file (dirname ++ original) plain packed rest writable kept
              (r_bulk-IsPacked fuel lzo compr plain packed rest laws as_packed).1);
      }

  all-Makes :
      (items : List Item)
      → AllItems fuel lzo source disk dirname compr items
      → Makes
          (x_all lzo source (map fname_of items))
          (r_all (suc fuel) lzo disk dirname compr (length items))
          (map (effect_of dirname) items)
  unfolding x_all r_all
  all-Makes [] items = record { bytes = []; sends = refl; runs = λ rest. refl }
  all-Makes (item ∷ items) (here, _, later) =
      let one = one-Makes item here in
      let more = all-Makes items later in
      record {
        bytes = one.bytes ++ more.bytes;
        sends = x_both-ok _ _ one.bytes more.bytes one.sends more.sends;
        runs = λ rest. rw append_assoc (
            run-bind _ _ (effect_of dirname item ∷ []) (map (effect_of dirname) items)
              (more.bytes ++ rest) (ok rest) (one.runs (more.bytes ++ rest)) (more.runs rest));
      }

  -- The files and links that the client sends with dcc_x_many_files are made by dcc_r_many_files in
  -- their order, below the server's directory, with the text of each file; a link's target is put
  -- below the directory too if it begins with a slash. The bytes of the message are taken off the
  -- connection, whatever follows them. The names on the server must be different, the server must be
  -- able to make the files and links and to note them for its cleanup, their number, names, targets
  -- and bytes must fit an unsigned, and compressed files must be what lzo, as documented, makes of
  -- texts short enough for the fuel.
  pub r_many_files-x_many_files :
      (items : List Item)
      → AllItems fuel lzo source disk dirname compr items
      → length items < 2 ^ 32
      → Makes
          (x_many_files lzo source (length items) (map fname_of items))
          (r_many_files (suc fuel) lzo disk dirname compr)
          (map (effect_of dirname) items)
  unfolding x_many_files r_many_files
  r_many_files-x_many_files items found short =
      let all = all-Makes items found in
      let same : length items % 2 ^ 32 ≡ length items = omega arith in
      let header = token_int-Delivers (codes "NFIL") (length items) refl short in
      record {
        bytes = header.bytes ++ all.bytes;
        sends = rw same (x_both-ok _ _ header.bytes all.bytes (rw header.sends refl) all.sends);
        runs = λ rest. rw append_assoc (
            quiet-bind _ _ (length items, all.bytes ++ rest) (header.reads (all.bytes ++ rest))
            ∙ all.runs rest);
      }
