-- ===== src/Elf/Dynamic/Symtab/Tests.antt =====
-- A file with two sections, read by `read_full_symtab_symbols` of crates/daoti-core/src/elf/mod.rs.
use yl.Prelude.{ℕ, ◌≡◌, refl, List, [], ◌∷◌, ◌++◌, ok, panic, replicate}
use yl.Prelude.Bytes.{to_le, from_le}
use yl.Prelude.Utf8.{is_utf8, utf8_from}
use yl.Elf.Parse.{word}
use yl.Elf.Dynamic.{until_zero}
use yl.Elf.Dynamic.Symtab.{
  Section, read_full_symtab_symbols, read_tables, read_full_symbols, read_full_symbol, named,
  read_sections, read_section, find_tables,
}
use yl.Elf.Dynamic.Symtab.Roundtrip.{SymbolEntry, unnamed, called}

unfoldable header : ℕ → ℕ → ℕ → ℕ → ℕ → List ℕ
unfolding to_le
header kind link offset size entsize =
    to_le 4 0
    ++ to_le 4 kind
    ++ to_le 8 0
    ++ to_le 8 0
    ++ to_le 8 offset
    ++ to_le 8 size
    ++ to_le 4 link
    ++ to_le 4 0
    ++ to_le 8 0
    ++ to_le 8 entsize

unfoldable symbol : ℕ → ℕ → List ℕ
unfolding to_le
symbol name value = to_le 4 name ++ to_le 4 0 ++ to_le 8 value ++ to_le 8 0

unfoldable file : ℕ → List ℕ
unfolding to_le header symbol replicate
file entsize =
    0x7f ∷ 0x45 ∷ 0x4c ∷ 0x46 ∷ 2 ∷ replicate 35 0
    ++ to_le 8 64
    ++ replicate 10 0
    ++ to_le 2 64
    ++ to_le 2 2
    ++ to_le 2 0
    ++ header 2 1 192 48 entsize
    ++ header 3 0 240 6 0
    ++ symbol 0 0
    ++ symbol 1 0x401000
    ++ 0 ∷ 0x6d ∷ 0x61 ∷ 0x69 ∷ 0x6e ∷ 0 ∷ []

finds_main :
    read_full_symtab_symbols (file 24) ≡ ok ((0x6d ∷ 0x61 ∷ 0x69 ∷ 0x6e ∷ [], 0x401000) ∷ [])
unfolding read_full_symtab_symbols read_tables read_full_symbols read_full_symbol named
    read_sections read_section find_tables word until_zero is_utf8 utf8_from from_le to_le file
    header symbol replicate
finds_main = refl

-- Entries of eight bytes are shorter than a symbol.
short_entries : read_full_symtab_symbols (file 8) ≡ panic
unfolding read_full_symtab_symbols read_tables read_full_symbols read_full_symbol named
    read_sections read_section find_tables word until_zero is_utf8 utf8_from from_le to_le file
    header symbol replicate
short_entries = refl

-- The null entry, and `main`.
abbrev entries : List SymbolEntry
entries = unnamed 0 0 0 ∷ called (0x6d ∷ 0x61 ∷ 0x69 ∷ 0x6e ∷ []) 0 0x401000 0 ∷ []

abbrev symtab_section : Section
symtab_section = record { sh_type = 2; sh_link = 1; sh_offset = 192; sh_size = 48; sh_entsize = 24 }

abbrev strtab_section : Section
strtab_section = record { sh_type = 3; sh_link = 0; sh_offset = 240; sh_size = 6; sh_entsize = 0 }
