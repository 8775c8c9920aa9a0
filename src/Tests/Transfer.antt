-- ===== src/Tests/Transfer.antt =====
-- Files and answers on the connection: src/io.c, src/bulk.c, src/clirpc.c, src/srvrpc.c and src/serve.c.
use distcc.Prelude.{
  ℕ, ◌≡◌, ◌⊎◌, ◌==◌, Bool, refl, sym, true, none, some, some_inj, List, [], ◌∷◌, ◌++◌, map, length,
  leb, if◌then◌else◌, arith,
}
use distcc.Prelude.Bytes.{Bytes, codes, str_equal}
use distcc.ExitCode.{ok, err, truncated, io_error}
use distcc.Effects.{created, linked, Disk}
use distcc.Hosts.{Hostdef, lzo1x, on_server}
use distcc.Hosts.Numbers.{pos}
use distcc.Hosts.Parser.{new_host}
use distcc.Io.{
  Select, Read, Write, get_io_timeout, select_for_read, select_for_write, readx_loop, writex_loop,
}
use distcc.Io.Loops.{readx_loop-readx}
use distcc.Io.Failures.{IsFailure, readx_loop-IsFailure}
use distcc.Io.Writes.{writex_loop-IsFront}
use distcc.Rpc.{readx}
use distcc.Bulk.{Lzo, Decompressed, done, overrun, bad, file, x_file}
use distcc.Bulk.Laws.{IsLzo, FileDelivers, r_token_file-x_file}
use distcc.Many.{Source, x_many_files, r_many_files}
use distcc.Many.Items.{Item, Makes, fname_of}
use distcc.Many.Laws.{r_many_files-x_many_files}
use distcc.Results.{Names, retrieve_results}
use distcc.Results.Answer.{answer}
use distcc.Results.Laws.{retrieve_results-answer}

abbrev slow : List Read
slow =
    Read.chunk 0
    ∷ Read.interrupted
    ∷ Read.again (Select.interrupted ∷ Select.unset ∷ Select.ready ∷ [])
    ∷ Read.chunk 7
    ∷ Read.chunk 0
    ∷ []

readx_runs :
    (readx_loop none slow 3 (codes "DONE") ≡ some (ok (codes "DON", codes "E")))
    × (readx_loop none slow 3 (codes "DO") ≡ some (err truncated))
    × (readx_loop none (Read.chunk 0 ∷ Read.again (Select.timed_out ∷ []) ∷ []) 3 (codes "DONE")
        ≡ some (err io_error))
    × (readx_loop none (Read.chunk 0 ∷ []) 3 (codes "DONE") ≡ none)
unfolding readx_loop select_for_read get_io_timeout distcc.Io.prepend distcc.Io.smaller
readx_runs = (refl, refl, refl, refl)

writex_runs :
    writex_loop none
      (Write.chunk 1 ∷ Write.again (Select.unset ∷ []) ∷ Write.chunk 9 ∷ [])
      (codes "STAT")
    ≡ (codes "STAT", some (ok tt))
unfolding writex_loop select_for_write get_io_timeout distcc.Io.wrote distcc.Io.smaller
writex_runs = refl

readx_loop-readx_example : readx_loop none slow 3 (codes "DONE") ≡ some (readx 3 (codes "DONE"))
unfolding get_io_timeout select_for_read
readx_loop-readx_example =
    readx_loop-readx none (pos 300) slow 3 (codes "DONE") refl (refl, tt) (omega arith)

readx_loop-IsFailure_example :
    (ok (codes "DON", codes "E") ≡ readx 3 (codes "DONE"))
    ⊎ IsFailure {A = Bytes × Bytes} none (ok (codes "DON", codes "E"))
readx_loop-IsFailure_example =
    readx_loop-IsFailure none slow 3 (codes "DONE") (ok (codes "DON", codes "E")) readx_runs.0

writex_loop-IsFront_example :
    (left : Bytes) × ((writex_loop none (Write.chunk 1 ∷ []) (codes "STAT")).0 ++ left
      ≡ codes "STAT")
    × ((writex_loop none (Write.chunk 1 ∷ []) (codes "STAT")).1 ≡ some (ok tt) → left ≡ [])
writex_loop-IsFront_example = writex_loop-IsFront none (Write.chunk 1 ∷ []) (codes "STAT")

-- A compression that puts a byte in front of the text.
pub marked_decompress : Bytes → ℕ → Decompressed
marked_decompress [] size = bad
marked_decompress (_ ∷ plain) size = if leb (length plain) size then done plain else overrun

abbrev pub marked : Lzo
marked = record { compress = λ plain. some (b'z' ∷ plain); decompress = marked_decompress }

pub marked-IsLzo : IsLzo marked
unfolding marked_decompress
marked-IsLzo = record {
  not_empty = λ plain packed h. rw (sym (some_inj h)) (ground arith);
  unpacks = λ plain packed size h. rw (sym (some_inj h)) refl;
}

abbrev pub open_disk : Disk
open_disk = record {
  ancestors = λ fname. none;
  opens = λ fname. true;
  closes = λ fname. true;
  symlinks = λ target fname. true;
  cleanup = λ fname. none;
}

r_token_file-x_file_example :
    FileDelivers 2 marked open_disk lzo1x
      (codes "DOTI")
      (codes "in.i")
      (codes "int x;")
      (x_file marked lzo1x (codes "DOTI") (file (codes "int x;")))
r_token_file-x_file_example =
    r_token_file-x_file marked open_disk (codes "DOTI") (codes "in.i") refl (refl, refl, refl) 1
      lzo1x (codes "int x;") marked-IsLzo (omega arith, (b'z' ∷ codes "int x;", refl, omega arith))
      (omega arith)

-- A header that is sent compressed, and a link to it.
abbrev pub items : List Item
items =
    Item.regular (codes "/inc/a.h.lzo") (codes "/a.h") (codes "int x;") (b'z' ∷ codes "int x;")
    ∷ Item.link (codes "/inc/b.h") (codes "/b.h") (codes "/a.h")
    ∷ []

abbrev pub included : Source
included = record {
  original_fname = λ fname. if length fname == 12 then ok (codes "/a.h") else ok (codes "/b.h");
  read_link = λ fname. if length fname == 12 then ok none else ok (some (codes "/a.h"));
  opened = λ fname. file (b'z' ∷ codes "int x;");
}

r_many_files-x_many_files_example :
    Makes
      (x_many_files marked included 2 (map fname_of items))
      (r_many_files 2 marked open_disk (codes "/tmp/d") lzo1x)
      (created (codes "/tmp/d/a.h") (codes "int x;")
        ∷ linked (codes "/tmp/d/b.h") (codes "/tmp/d/a.h")
        ∷ [])
unfolding str_equal
r_many_files-x_many_files_example =
    r_many_files-x_many_files 1 marked included open_disk (codes "/tmp/d") lzo1x marked-IsLzo items
      (
        (
          refl,
          refl,
          omega arith,
          refl,
          (refl, omega arith, omega arith, omega arith),
          (refl, refl, refl),
          refl,
        ),
        refl,
        ((refl, refl, omega arith, omega arith, refl, refl, refl), refl, tt),
      )
      (omega arith)

abbrev pump_host : Hostdef
pump_host = record (new_host (codes "one")) {
  protover = 3;
  compr = lzo1x;
  cpp_where = some on_server;
}

abbrev pub names : Names
names = record {
  output_fname = codes "a.o";
  deps_fname = some (codes "a.d");
  server_stderr_fname = codes "err";
}

abbrev pub exited : ℕ → Bool
exited status = status == 0

retrieve_results-answer_example :
    retrieve_results 2 marked open_disk pump_host names true (
      answer marked lzo1x on_server exited 3 0 (record {
        err_fname = file (codes "warn");
        out_fname = file [];
        temp_o = file (codes "ELF");
        debug_fixed = true;
        cleaned_dotd = ok (file (codes "a.o: a.c"));
      })
      ++ [])
    ≡ (
      created (codes "err") (codes "warn")
          ∷ created (codes "a.o") (codes "ELF")
          ∷ created (codes "a.d") (codes "a.o: a.c")
          ∷ [],
      some (ok (record { status = 0; stdout = [] })),
    )
retrieve_results-answer_example =
    retrieve_results-answer 1 marked open_disk pump_host names marked-IsLzo (codes "warn") []
      ((omega arith, (b'z' ∷ codes "warn", refl, omega arith)), omega arith)
      ((omega arith, (b'z' ∷ [], refl, omega arith)), omega arith) (refl, refl, refl) 3 0
      (omega arith) (omega arith) (codes "ELF") (codes "a.o: a.c")
      ((omega arith, (b'z' ∷ codes "ELF", refl, omega arith)), omega arith)
      ((omega arith, (b'z' ∷ codes "a.o: a.c", refl, omega arith)), omega arith) (refl, refl, refl)
      (refl, refl, refl) on_server exited [] refl refl
