-- ===== src/Elf/Dynamic/Symtab.antt =====
-- The full symbol table of an object, crates/daoti-core/src/elf/mod.rs: `read_full_symtab_symbols`.
pub mod Roundtrip
pub mod Sections
mod Tests
use yl.Prelude.{
  ℕ, zero, suc, ◌+◌, ◌*◌, ◌/◌, ◌%◌, ◌^◌, Bool, true, false, not, ◌&&◌, ◌||◌, Option, none, some,
  List, [], ◌∷◌, ltb, leb, ◌==◌, if◌then◌else◌, length, take, drop, get_elem?, Result, ok, err,
  panic, ◌>>=◌, add_u64,
}
use yl.Prelude.Utf8.{is_utf8}
use yl.Elf.Parse.{word}
use yl.Elf.Dynamic.{until_zero}

-- A row of the vector `sections`.
pub record Section : Type 0 where
  pub sh_type : ℕ
  pub sh_link : ℕ
  pub sh_offset : ℕ
  pub sh_size : ℕ
  pub sh_entsize : ℕ

unfoldable pub read_section : List ℕ → ℕ → Result Section
unfolding word
read_section bytes base = do
  sh_type ← word 4 bytes (base + 4)
  sh_offset ← word 8 bytes (base + 24)
  sh_size ← word 8 bytes (base + 32)
  sh_link ← word 4 bytes (base + 40)
  sh_entsize ← word 8 bytes (base + 56)
  ok (record {
    sh_type = sh_type;
    sh_link = sh_link;
    sh_offset = sh_offset;
    sh_size = sh_size;
    sh_entsize = sh_entsize % 2 ^ 32;
  })

-- The loop over the section headers from `index` on, `left` of them.
unfoldable pub read_sections : List ℕ → ℕ → ℕ → ℕ → ℕ → Result (List Section)
unfolding read_section
read_sections bytes shoff shentsize index zero = ok []
read_sections bytes shoff shentsize index (suc left) =
    let later = read_sections bytes shoff shentsize (suc index) left in
    do
      base ← add_u64 shoff (index * shentsize)
      stop ← add_u64 base 64
      if ltb (length bytes) stop
          then ok []
          else do section ← read_section bytes base; rest ← later; ok (section ∷ rest)

-- The variables `symtab_info` and `strtab_info`.
pub record Found : Type 0 where
  pub symtab_info : Option (ℕ × ℕ × ℕ)
  pub strtab_info : Option (ℕ × ℕ)

-- The string table that a symbol table names.
abbrev pub linked : List Section → Section → Option (ℕ × ℕ) → Option (ℕ × ℕ)
linked sections section before = elim (get_elem? sections section.sh_link) [
  | none ↦ before
  | some table ↦ if table.sh_type == 3 then some (table.sh_offset, table.sh_size) else before
]

abbrev pub or_first : Option (ℕ × ℕ) → ℕ × ℕ → Option (ℕ × ℕ)
or_first none table = some table
or_first (some table') table = some table'

abbrev pub see_symtab : List Section → Section → Found → Found
see_symtab sections section found =
    if section.sh_type == 2
    then record {
      symtab_info = some (section.sh_offset, section.sh_size, section.sh_entsize);
      strtab_info = linked sections section found.strtab_info;
    }
    else found

abbrev pub see_strtab : Section → Found → Found
see_strtab section found =
    if section.sh_type == 3
    then record found {
      strtab_info = or_first found.strtab_info (section.sh_offset, section.sh_size);
    }
    else found

unfoldable pub find_tables : List Section → List Section → Found → Found
find_tables sections [] found = found
find_tables sections (section ∷ rest) found =
    find_tables sections rest (see_strtab section (see_symtab sections section found))

abbrev pub is_empty : List ℕ → Bool
is_empty [] = true
is_empty (b ∷ bs) = false

-- `from_utf8(…).unwrap_or_default()`, and the test for an empty name.
unfoldable pub named : List ℕ → ℕ → Option (List ℕ × ℕ)
named name st_value = if is_utf8 name && not (is_empty name) then some (name, st_value) else none

-- One entry of the symbol table, unless it has no name or one that is not UTF-8.
unfoldable pub read_full_symbol : List ℕ → List ℕ → ℕ → ℕ → Result (Option (List ℕ × ℕ))
unfolding word named
read_full_symbol symtab strtab entsize index = do
  let entry = take entsize (drop (index * entsize) symtab)
  st_name ← word 4 entry 0
  st_value ← word 8 entry 8
  if st_name == 0
      then ok none
      else if ltb (length strtab) st_name
      then panic
      else ok (named (until_zero (drop st_name strtab)) st_value)

abbrev pub push_symbol : Option (List ℕ × ℕ) → List (List ℕ × ℕ) → List (List ℕ × ℕ)
push_symbol none symbols = symbols
push_symbol (some symbol) symbols = symbol ∷ symbols

-- The loop over the entries from `index` on, `left` of them.
unfoldable pub read_full_symbols : List ℕ → List ℕ → ℕ → ℕ → ℕ → Result (List (List ℕ × ℕ))
unfolding read_full_symbol
read_full_symbols symtab strtab entsize index zero = ok []
read_full_symbols symtab strtab entsize index (suc left) = do
  symbol ← read_full_symbol symtab strtab entsize index
  rest ← read_full_symbols symtab strtab entsize (suc index) left
  ok (push_symbol symbol rest)

-- The tables' bytes, and the loop over the entries.
unfoldable pub read_tables : List ℕ → ℕ × ℕ × ℕ → ℕ × ℕ → Result (List (List ℕ × ℕ))
unfolding read_full_symbols
read_tables bytes (symtab_off, symtab_len, symtab_entsize) (strtab_off, strtab_len) = do
  let entsize = if ltb 0 symtab_entsize then symtab_entsize else 24
  symtab_end ← add_u64 symtab_off symtab_len
  if ltb (length bytes) symtab_end then ok [] else do
    strtab_end ← add_u64 strtab_off strtab_len
    if ltb (length bytes) strtab_end
        then ok []
        else read_full_symbols (take symtab_len (drop symtab_off bytes))
            (take strtab_len (drop strtab_off bytes)) entsize 0 (symtab_len / entsize)

abbrev pub read_found : List ℕ → Found → Result (List (List ℕ × ℕ))
read_found bytes found = elim found.symtab_info [
  | none ↦ ok []
  | some symtab ↦ elim found.strtab_info [
    | none ↦ ok []
    | some strtab ↦ read_tables bytes symtab strtab
  ]
]

unfoldable pub read_full_symtab_symbols : List ℕ → Result (List (List ℕ × ℕ))
unfolding read_sections find_tables read_tables word
read_full_symtab_symbols bytes = if ltb (length bytes) 64 then ok [] else do
  class ← word 1 bytes 4
  if not (class == 2) then ok [] else do
    e_shoff ← word 8 bytes 40
    e_shentsize ← word 2 bytes 58
    e_shnum ← word 2 bytes 60
    if (e_shoff == 0) || ((e_shnum == 0) || ltb e_shentsize 64) then ok [] else do
      sections ← read_sections bytes e_shoff e_shentsize 0 e_shnum
      read_found bytes
          (find_tables sections sections (record { symtab_info = none; strtab_info = none }))
