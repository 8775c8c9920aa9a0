-- ===== src/DebugInfo.antt =====
-- src/fix_debug_info.c, in a build with HAVE_ELF_H: the server's directory in the debugging
-- information of an object file. The layout of <elf.h> is an argument; allocation succeeds, and
-- counting and logging are left out.
pub mod Replaced
pub mod Kept
use distcc.Prelude.{
  ℕ, zero, suc, ◌+◌, ◌-◌, ◌*◌, ◌%◌, ◌^◌, ltb, leb, ◌==◌, Bool, true, false, ◌&&◌, ◌||◌, not, Option,
  none, some, List, [], ◌∷◌, ◌++◌, if◌then◌else◌, length, take, drop,
}
use distcc.Prelude.Bytes.{Bytes, codes, str_startswith}
use distcc.ExitCode.{Result, ok, undefined, ◌>>=◌}
use distcc.Bulk.{Opened, missing, unreadable, file}

-- A field of a structure: its offset, and how many bytes it has.
abbrev pub Field : Type 0
Field = ℕ × ℕ

-- Elf32_Ehdr and Elf32_Shdr, or Elf64_Ehdr and Elf64_Shdr.
pub record Layout : Type 0 where
  pub sizeof_ehdr : ℕ
  pub sizeof_shdr : ℕ
  pub e_shoff : Field
  pub e_shnum : Field
  pub e_shstrndx : Field
  pub sh_name : Field
  pub sh_offset : Field
  pub sh_size : Field
  pub sh_link : Field

-- <elf.h>, with the byte order of the host: `elf_data` is what EI_DATA is for it, and `number` the
-- value of the bytes of a word.
pub record Elf : Type 0 where
  pub elfmag : Bytes
  pub ei_data : ℕ
  pub ei_class : ℕ
  pub elf_data : ℕ
  pub elfclass32 : ℕ
  pub elfclass64 : ℕ
  pub shn_undef : ℕ
  pub shn_xindex : ℕ
  pub elf32 : Layout
  pub elf64 : Layout
  pub number : Bytes → ℕ

-- The strings before the closing NUL of the first are the same; the first is what is left of a file.
unfoldable pub name_is : Bytes → Bytes → Result Bool
name_is [] name = undefined
name_is (c ∷ s) [] = ok (c == 0)
name_is (c ∷ s) (d ∷ name) = let rest = name_is s name in if c == d then rest else ok false

module _ (elf : Elf) (base : Bytes) where
  -- A read behind the end of the mapped file is one of foreign memory.
  unfoldable pub field_at : ℕ → Field → Result ℕ
  field_at at (offset, bytes) =
      if leb (at + offset + bytes) (length base)
      then ok (elf.number (take bytes (drop (at + offset) base)))
      else undefined

  module _ (layout : Layout) where
    -- The loop over the sections from the `i`th on: the index of the one with the name.
    unfoldable pub section_loop : ℕ → ℕ → ℕ → ℕ → Bytes → Result (Option ℕ)
    unfolding field_at
    section_loop e_shoff string_index zero i name = ok none
    section_loop e_shoff string_index (suc n) i name =
        let rest = section_loop e_shoff string_index n (suc i) name in
        field_at (e_shoff + string_index * layout.sizeof_shdr) layout.sh_offset >>= λ names.
        field_at (e_shoff + i * layout.sizeof_shdr) layout.sh_name >>= λ sh_name.
        name_is (drop (names + sh_name) base) name >>= λ same. if same then ok (some i) else rest

    -- The start and size of the section, where it is not empty.
    found_section : ℕ → Option ℕ → Result (Option (ℕ × ℕ))
    unfolding field_at
    found_section e_shoff none = ok none
    found_section e_shoff (some i) =
        field_at (e_shoff + i * layout.sizeof_shdr) layout.sh_size >>= λ sh_size.
        if sh_size == 0
        then ok none
        else (field_at (e_shoff + i * layout.sizeof_shdr) layout.sh_offset >>= λ sh_offset.
            ok (some (sh_offset, sh_size % 2 ^ 32)))

    -- The code for one of the two classes.
    unfoldable pub find_in_class : Bytes → Result (Option (ℕ × ℕ))
    unfolding field_at found_section
    find_in_class name = field_at 0 layout.e_shoff >>= λ e_shoff.
        field_at 0 layout.e_shstrndx >>= λ e_shstrndx.
        if ltb (length base) layout.sizeof_ehdr
          || e_shoff == 0
          || ltb ((2 ^ 64 + length base - layout.sizeof_shdr) % 2 ^ 64) e_shoff
          || e_shstrndx == elf.shn_undef
        then ok none
        else ((if e_shstrndx == elf.shn_xindex
              then field_at e_shoff layout.sh_link
              else ok e_shstrndx)
            >>= λ string_index. field_at 0 layout.e_shnum >>= λ e_shnum.
                (if e_shnum == 0 then field_at e_shoff layout.sh_size else ok e_shnum)
                >>= λ num_sections.
                    section_loop e_shoff string_index (num_sections % 2 ^ 32) 0 name >>= λ desired.
                    found_section e_shoff desired)

  -- FindElfSection. The size of a section is an `int`, whose sign update_section tests.
  unfoldable pub find_elf_section : Bytes → Result (Option (ℕ × ℕ))
  unfolding find_in_class field_at
  find_elf_section name =
      if str_startswith elf.elfmag base
      then (field_at elf.ei_data (0, 1) >>= λ data_order.
          if data_order == elf.elf_data
          then (field_at elf.ei_class (0, 1) >>= λ class.
              if class == elf.elfclass32
              then find_in_class elf.elf32 name
              else if class == elf.elfclass64
              then find_in_class elf.elf64 name
              else ok none)
          else ok none)
      else ok none

-- `needle` is the parameter `search`: memcmp, and memcpy where the bytes are the same.
abbrev pub written : Bytes → Bytes → Bytes → Bytes
written needle replace s = if str_startswith needle s then replace ++ drop (length needle) s else s

abbrev pub keep_first : Bytes → Bytes → Bytes
keep_first [] rest = rest
keep_first (c ∷ s) rest = c ∷ rest

-- The loop at a position, with so many rounds to go.
unfoldable pub replace_loop : Bytes → Bytes → ℕ → Bytes → Bytes
replace_loop needle replace zero s = s
replace_loop needle replace (suc n) s =
    keep_first (written needle replace s)
      (replace_loop needle replace n (drop 1 (written needle replace s)))

-- replace_string, where the memory holds the bytes of the section.
unfoldable pub replace_string : Bytes → Bytes → Bytes → Bytes
unfolding replace_loop
replace_string needle replace s =
    if ltb (length s) (length needle + 1)
    then s
    else replace_loop needle replace (length s - length needle - 1) s

-- The section that has been found; one that leaves the file makes the loop touch foreign memory, if
-- the loop has a round.
section_replaced : Bytes → Bytes → Bytes → ℕ → ℕ → Result Bytes
unfolding replace_string
section_replaced needle replace base start size =
    if size == 0 || leb (2 ^ 31) size
    then ok base
    else if leb (start + size) (length base)
    then ok (
        take start base
        ++ (replace_string needle replace (take size (drop start base))
            ++ drop (start + size) base))
    else if leb size (length needle + 1)
    then ok base
    else undefined

section_updated : Bytes → Bytes → Bytes → Option (ℕ × ℕ) → Result Bytes
unfolding section_replaced
section_updated needle replace base none = ok base
section_updated needle replace base (some (start, size)) =
    section_replaced needle replace base start size

-- update_section
unfoldable pub update_section : Elf → Bytes → Bytes → Bytes → Bytes → Result Bytes
unfolding section_updated
update_section elf base name needle replace =
    find_elf_section elf base name >>= λ section. section_updated needle replace base section

-- update_debug_info on a file that is there, with whether munmap_file succeeds.
unfoldable pub update_debug_info : Elf → Bool → Bytes → Bytes → Bytes → Result (Bool × Opened)
unfolding update_section
update_debug_info elf unmaps base needle replace =
    update_section elf base (codes ".debug_info") needle replace >>= λ base'.
    update_section elf base' (codes ".debug_str") needle replace >>= λ base''.
    ok (unmaps, file base'')

abbrev pub slashes : ℕ → Bytes
slashes zero = []
slashes (suc n) = b'/' ∷ slashes n

-- dcc_fix_debug_info, with whether it returns zero. A file that mmap_file cannot map stays, and zero is
-- returned; the assertion on the two lengths must hold.
unfoldable pub fix_debug_info : Elf → Bool → Bytes → Bytes → Opened → Result (Bool × Opened)
unfolding update_debug_info
fix_debug_info elf unmaps client_path server_path (file (b ∷ base)) =
    if leb (length client_path) (length server_path)
    then update_debug_info elf unmaps (b ∷ base) server_path
        (client_path ++ slashes (length server_path - length client_path))
    else undefined
fix_debug_info elf unmaps client_path server_path local =
    if leb (length client_path) (length server_path) then ok (true, local) else undefined
