-- ===== src/Elf/Dynamic/Symtab/Sections.antt =====
-- The sections that `read_full_symtab_symbols` of crates/daoti-core/src/elf/mod.rs chooses, and the
-- symbols of a whole file.
use yl.Prelude.{
  ℕ, suc, ◌+◌, ◌≤◌, ◌<◌, ◌≡◌, false, some, List, ◌∷◌, ◌++◌, ◌==◌, length, take, drop, get_elem?,
  All, ok, u64_mod, ◌^◌,
}
use yl.Elf.Parse.{word}
use yl.Elf.Dynamic.Symtab.{Section, Found, read_sections}
use yl.Elf.Dynamic.Symtab.Roundtrip.{SymbolEntry, entries_bytes, names_bytes, IsEntry}

-- A section that holds no symbol table.
abbrev pub IsOther : Section → Type 0
IsOther s = (s.sh_type == 2) ≡ false

-- What the loop keeps of a symbol table and its string table.
abbrev pub both : Section → Section → Found
both symtab table = record {
  symtab_info = some (symtab.sh_offset, symtab.sh_size, symtab.sh_entsize);
  strtab_info = some (table.sh_offset, table.sh_size);
}

-- A 64-bit object with one symbol table, linked to a string table, and the bytes of these entries
-- in both.
pub record IsObject (bytes : List ℕ) (es : List SymbolEntry) : Type 0 where
  pub size : (64 ≤ length bytes) × (length bytes < u64_mod)
  pub class : word 1 bytes 4 ≡ ok 2
  pub e_shoff : ℕ
  pub e_shentsize : ℕ
  pub e_shnum : ℕ
  pub shoff : (word 8 bytes 40 ≡ ok e_shoff) × (0 < e_shoff)
  pub shentsize : (word 2 bytes 58 ≡ ok e_shentsize) × (64 ≤ e_shentsize)
  pub shnum : (word 2 bytes 60 ≡ ok e_shnum) × (0 < e_shnum)
  pub before : List Section
  pub symtab : Section
  pub after : List Section
  pub table : Section
  pub sections : read_sections bytes e_shoff e_shentsize 0 e_shnum ≡ ok (before ++ symtab ∷ after)
  pub only : (symtab.sh_type ≡ 2) × All IsOther before × All IsOther after
  pub link :
      (get_elem? (before ++ symtab ∷ after) symtab.sh_link ≡ some table) × (table.sh_type ≡ 3)
  pub entry_size : symtab.sh_entsize ≡ 24
  pub sizes :
      (symtab.sh_size ≡ length (entries_bytes 1 es))
      × (table.sh_size ≡ suc (length (names_bytes es)))
  pub inside :
      (symtab.sh_offset + length (entries_bytes 1 es) ≤ length bytes)
      × (table.sh_offset + suc (length (names_bytes es)) ≤ length bytes)
  pub symtab_bytes :
      take (length (entries_bytes 1 es)) (drop symtab.sh_offset bytes) ≡ entries_bytes 1 es
  pub strtab_bytes :
      take (suc (length (names_bytes es))) (drop table.sh_offset bytes) ≡ 0 ∷ names_bytes es
  pub small : suc (length (names_bytes es)) < 256 ^ 4
  pub entries : All IsEntry es
