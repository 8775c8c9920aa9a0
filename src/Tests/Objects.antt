-- ===== src/Tests/Objects.antt =====
-- src/fix_debug_info.c on a small object file with a section .debug_str.
use distcc.Prelude.{
  ℕ, zero, suc, ◌+◌, ◌*◌, ◌<◌, ◌≡◌, refl, true, false, none, some, [], ◌∷◌, ◌++◌, drop, arith,
}
use distcc.Prelude.Bytes.{Bytes, codes, str_startswith}
use distcc.ExitCode.{ok, undefined}
use distcc.Bulk.{file}
use distcc.DebugInfo.{
  Layout, Elf, find_elf_section, section_loop, name_is, replace_string, slashes, fix_debug_info,
}
use distcc.DebugInfo.Replaced.{IsKept, replace_string-path}
use distcc.DebugInfo.Kept.{fix_debug_info-IsKept}

abbrev little : Bytes → ℕ
little [] = 0
little (b ∷ s) = b + 256 * little s

abbrev elf32 : Layout
elf32 = record {
  sizeof_ehdr = 52;
  sizeof_shdr = 40;
  e_shoff = (32, 4);
  e_shnum = (48, 2);
  e_shstrndx = (50, 2);
  sh_name = (0, 4);
  sh_offset = (16, 4);
  sh_size = (20, 4);
  sh_link = (24, 4);
}

abbrev elf64 : Layout
elf64 = record {
  sizeof_ehdr = 64;
  sizeof_shdr = 64;
  e_shoff = (40, 8);
  e_shnum = (60, 2);
  e_shstrndx = (62, 2);
  sh_name = (0, 4);
  sh_offset = (24, 8);
  sh_size = (32, 8);
  sh_link = (40, 4);
}

abbrev pub elf : Elf
elf = record {
  elfmag = 127 ∷ codes "ELF";
  ei_data = 5;
  ei_class = 4;
  elf_data = 1;
  elfclass32 = 1;
  elfclass64 = 2;
  shn_undef = 0;
  shn_xindex = 0xffff;
  elf32 = elf32;
  elf64 = elf64;
  number = little;
}

abbrev zeros : ℕ → Bytes
zeros zero = []
zeros (suc n) = 0 ∷ zeros n

-- The fields behind sh_name and in front of the next name.
abbrev section : ℕ → ℕ → ℕ → Bytes
section name start size = name ∷ (zeros 23 ++ (start ∷ (zeros 7 ++ (size ∷ zeros 31))))

-- A 64-bit object file with the section names at 64 and 13 bytes of text in .debug_str at 76.
abbrev pub object_with : Bytes → Bytes
object_with text =
    127
    ∷ (codes "ELF"
        ++ (2
            ∷ 1
            ∷ (zeros 34
                ++ (89
                    ∷ (zeros 19
                        ++ (3
                            ∷ 0
                            ∷ 1
                            ∷ 0
                            ∷ (0
                                ∷ (codes ".debug_str"
                                    ++ (0
                                        ∷ (text
                                            ++ (section 0 0 0
                                                ++ (section 0 64 12 ++ section 1 76 13))))))))))))

abbrev pub on_server_text : Bytes
on_server_text = codes "/tmp/d/a.c" ++ (0 ∷ b'x' ∷ 0 ∷ [])

abbrev pub on_client_text : Bytes
on_client_text = codes "///////a.c" ++ (0 ∷ b'x' ∷ 0 ∷ [])

pub object_fixed :
    fix_debug_info elf true (codes "/") (codes "/tmp/d") (file (object_with on_server_text))
    ≡ ok (true, file (object_with on_client_text))
unfolding fix_debug_info find_elf_section section_loop name_is replace_string str_startswith
object_fixed = refl

-- The section is found; a file that ends behind the magic number is read behind its end.
finds :
    (find_elf_section elf (object_with on_server_text) (codes ".debug_str") ≡ ok (some (76, 13)))
    × (find_elf_section elf (object_with on_server_text) (codes ".debug_info") ≡ ok none)
    × (find_elf_section elf (127 ∷ codes "ELF") (codes ".debug_info") ≡ undefined)
unfolding find_elf_section section_loop name_is str_startswith
finds = (refl, refl, refl)

-- The last string of a section is not replaced, nor is a byte that may follow.
replaced :
    (replace_string (codes "/d") (codes "//") (codes "/d/d" ++ (0 ∷ 0 ∷ []))
      ≡ codes "////" ++ (0 ∷ 0 ∷ []))
    × (replace_string (codes "/d") (codes "//") (codes "/d/d" ++ (0 ∷ []))
        ≡ codes "///d" ++ (0 ∷ []))
unfolding replace_string str_startswith
replaced = (refl, refl)

-- "/tmp/d" is a slash, the byte t, and the rest.
replace_string-path_example :
    IsKept on_server_text (replace_string (codes "/tmp/d") (slashes 6) on_server_text)
    × ((i : ℕ)
        → i + 7 < 13
        → str_startswith
            (codes "/tmp/d")
            (drop i (replace_string (codes "/tmp/d") (slashes 6) on_server_text))
          ≡ false)
replace_string-path_example =
    replace_string-path b't' (codes "mp/d") (λ e. absurd (omega arith)) (λ e. absurd (omega arith))
      on_server_text

fix_debug_info-IsKept_example :
    (base' : Bytes) × (file (object_with on_client_text) ≡ file base')
    × IsKept (object_with on_server_text) base'
fix_debug_info-IsKept_example =
    fix_debug_info-IsKept b't' (codes "mp/d") (λ e. absurd (omega arith))
      (λ e. absurd (omega arith)) elf true true 127 (drop 1 (object_with on_server_text))
      (file (object_with on_client_text)) object_fixed
