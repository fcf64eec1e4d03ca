-- ===== src/Elf/Dynamic.antt =====
-- The dynamic part of a file, crates/daoti-core/src/elf/mod.rs: the load plan's data, addresses to
-- file offsets, and the reading of symbols and relocation tables. A name is its list of bytes.
pub mod Symbols
pub mod Symtab
pub mod Chains
pub mod Relr
pub mod Plan
mod Tests
use yl.Prelude.{
  ℕ, zero, suc, ◌+◌, ◌-◌, ◌*◌, ◌/◌, ◌%◌, ◌^◌, Bool, true, false, not, ◌&&◌, ◌||◌, Option, none,
  some, List, [], ◌∷◌, ◌++◌, ltb, leb, ◌==◌, if◌then◌else◌, length, drop, find, Result, ok, err,
  panic, ◌>>=◌, ◌>>◌, require, ok_or, checked_add, add_u64, other, u64_mod,
}
use yl.Prelude.Int.{ℤ, signed64}
use yl.Prelude.Utf8.{is_utf8}
use yl.Elf.{ElfSegment, is_load}
use yl.Elf.Parse.{word}

pub data X8664RelocationType : Type 0 where
  none_type : X8664RelocationType
  type64 : X8664RelocationType
  relative : X8664RelocationType
  glob_dat : X8664RelocationType
  jump_slot : X8664RelocationType
  dtp_mod64 : X8664RelocationType
  dtp_off64 : X8664RelocationType
  tp_off64 : X8664RelocationType
  copy : X8664RelocationType
  i_relative : X8664RelocationType
  unknown : ℕ → X8664RelocationType

pub record RelocationEntry : Type 0 where
  pub offset : ℕ
  pub info : ℕ
  pub addend : Option ℤ
  pub symbol : ℕ
  pub symbol_name : Option (List ℕ)
  pub symbol_size : ℕ
  pub relocation_type : X8664RelocationType

-- The arms of the `match` in `decode`.
unfoldable pub decode_in : List (ℕ × X8664RelocationType) → ℕ → X8664RelocationType
decode_in [] value = unknown value
decode_in ((k, t) ∷ arms) value = let rest = decode_in arms value in if value == k then t else rest

abbrev pub relocation_types : List (ℕ × X8664RelocationType)
relocation_types =
    (0, none_type)
    ∷ (1, type64)
    ∷ (5, copy)
    ∷ (6, glob_dat)
    ∷ (7, jump_slot)
    ∷ (8, relative)
    ∷ (16, dtp_mod64)
    ∷ (17, dtp_off64)
    ∷ (18, tp_off64)
    ∷ (37, i_relative)
    ∷ []

unfoldable pub decode : ℕ → X8664RelocationType
unfolding decode_in
decode value = decode_in relocation_types value

pub record DynamicLoadSegment : Type 0 where
  pub vaddr : ℕ
  pub file_offset : ℕ
  pub file_size : ℕ
  pub memory_size : ℕ
  pub mapped_start : ℕ
  pub mapped_end : ℕ
  pub flags : ℕ

pub record DependencyEdge : Type 0 where
  pub from : List ℕ
  pub to : List ℕ

pub record TlsMetadata : Type 0 where
  pub vaddr : ℕ
  pub file_offset : ℕ
  pub file_size : ℕ
  pub memory_size : ℕ
  pub align : ℕ

pub record ElfDynamicEntry : Type 0 where
  pub tag : ℤ
  pub value : ℕ

-- A table is its address, its entry size and its count, and `jmprel` says too whether its entries
-- have an addend.
pub record DynamicLoadPlan : Type 0 where
  pub load_bias : ℕ
  pub relocated_entry : ℕ
  pub load_segments : List DynamicLoadSegment
  pub tls : Option TlsMetadata
  pub dependency_graph : List DependencyEdge
  pub interpreter : Option (List ℕ)
  pub entries : List ElfDynamicEntry
  pub needed : List (List ℕ)
  pub strtab : Option ℕ
  pub symtab : Option ℕ
  pub rela : Option (ℕ × ℕ × ℕ)
  pub rel : Option (ℕ × ℕ × ℕ)
  pub relr : Option (ℕ × ℕ × ℕ)
  pub jmprel : Option (ℕ × ℕ × ℕ × Bool)

-- The byte at `address` is in the file part of the segment.
abbrev pub in_file : ℕ → ElfSegment → Bool
in_file address s =
    is_load s
    && (leb s.vaddr address
        && (ltb (address - s.vaddr + 1) u64_mod && leb (address - s.vaddr + 1) s.filesz))

unfoldable pub vaddr_to_file : List ℕ → List ElfSegment → ℕ → Result ℕ
vaddr_to_file bytes segments address = do
  segment ← ok_or (find (in_file address) segments) (other "重定位表不在可加载文件段内" [])
  index ← ok_or (checked_add segment.offset (address - segment.vaddr)) (other "重定位表文件偏移溢出" [])
  require (leb index (length bytes)) (other "重定位表文件偏移越界" [])
  ok index

-- The bytes before the first 0, or all of them.
unfoldable pub until_zero : List ℕ → List ℕ
until_zero [] = []
until_zero (b ∷ bs) = let rest = until_zero bs in if b == 0 then [] else b ∷ rest

unfoldable pub string_at : List ℕ → List ElfSegment → ℕ → ℕ → Result (List ℕ)
unfolding vaddr_to_file until_zero is_utf8
string_at bytes segments strtab name_offset = do
  name_addr ← ok_or (checked_add strtab name_offset) (other "动态符号名地址溢出" [])
  start ← vaddr_to_file bytes segments name_addr
  let name = until_zero (drop start bytes)
  require (is_utf8 name) (other "动态符号名不是有效 UTF-8" [])
  ok name

unfoldable pub symbol_file : List ℕ → List ElfSegment → ℕ → ℕ → Result ℕ
unfolding vaddr_to_file
symbol_file bytes segments symtab index = do
  sym_addr ← ok_or (checked_add symtab (index * 24)) (other "动态符号地址溢出" [])
  vaddr_to_file bytes segments sym_addr

unfoldable pub dynamic_symbol_name :
    List ℕ → List ElfSegment → DynamicLoadPlan → ℕ → Result (Option (List ℕ))
unfolding string_at symbol_file word
dynamic_symbol_name bytes segments plan index = elim plan.symtab [
  | none ↦ ok none
  | some symtab ↦ elim plan.strtab [
    | none ↦ ok none
    | some strtab ↦ do
      sym ← symbol_file bytes segments symtab index
      if ltb (length bytes) (sym + 4) then ok none else do
        name_offset ← word 4 bytes sym
        name ← string_at bytes segments strtab name_offset
        ok (some name)
  ]
]

unfoldable pub dynamic_symbol_size : List ℕ → List ElfSegment → DynamicLoadPlan → ℕ → Result ℕ
unfolding symbol_file word
dynamic_symbol_size bytes segments plan index = elim plan.symtab [
  | none ↦ ok 0
  | some symtab ↦ do
    sym ← symbol_file bytes segments symtab index
    if ltb (length bytes) (sym + 24) then ok 0 else word 8 bytes (sym + 16)
]

-- One entry of a table: `info` holds the symbol in its high half and the type in its low half.
unfoldable pub read_relocation :
    List ℕ → List ElfSegment → DynamicLoadPlan → Bool → ℕ → Result RelocationEntry
unfolding dynamic_symbol_name dynamic_symbol_size decode word
read_relocation bytes segments plan rela off = do
  offset ← word 8 bytes off
  info ← word 8 bytes (off + 8)
  addend ← if rela then (word 8 bytes (off + 16) >>= (λ w. ok (some (signed64 w)))) else ok none
  name ← dynamic_symbol_name bytes segments plan (info / 4294967296)
  size ← dynamic_symbol_size bytes segments plan (info / 4294967296)
  ok (record {
    offset = offset;
    info = info;
    addend = addend;
    symbol = info / 4294967296;
    symbol_name = name;
    symbol_size = size;
    relocation_type = decode (info % 4294967296);
  })

-- The loop over `chunks_exact(entry_size)`: `count` entries from `off` on.
unfoldable pub read_relocations_from :
    List ℕ → List ElfSegment → DynamicLoadPlan → Bool → ℕ → ℕ → ℕ → Result (List RelocationEntry)
unfolding read_relocation
read_relocations_from bytes segments plan rela entry_size off zero = ok []
read_relocations_from bytes segments plan rela entry_size off (suc count) = do
  entry ← read_relocation bytes segments plan rela off
  rest ← read_relocations_from bytes segments plan rela entry_size (off + entry_size) count
  ok (entry ∷ rest)

-- `checked_mul`, `checked_add` and the test against the length of the file.
unfoldable pub read_relocation_table :
    List ℕ → List ElfSegment → DynamicLoadPlan → ℕ → ℕ → ℕ → Bool → Result (List RelocationEntry)
unfolding read_relocations_from
read_relocation_table bytes segments plan address entry_size count rela = do
  start ← vaddr_to_file bytes segments address
  require (ltb (entry_size * count) u64_mod) (other "重定位表大小溢出" [])
  stop ← ok_or (checked_add start (entry_size * count)) (other "重定位表边界溢出" [])
  require (leb stop (length bytes)) (other "重定位表超出文件边界" [])
  read_relocations_from bytes segments plan rela entry_size start count

abbrev pub relative_entry : ℕ → RelocationEntry
relative_entry offset = record {
  offset = offset;
  info = 0;
  addend = none;
  symbol = 0;
  symbol_name = none;
  symbol_size = 0;
  relocation_type = relative;
}

-- The bits 1 to 63 of a bitmap word, from `bit` on: `bits` is the word shifted down to that bit.
unfoldable pub relr_bits : ℕ → ℕ → ℕ → ℕ → Result (List RelocationEntry)
relr_bits slot bit bits zero = ok []
relr_bits slot bit bits (suc left) =
    let rest = relr_bits slot (suc bit) (bits / 2) left in
    if bits % 2 == 1
    then (do offset ← add_u64 slot ((bit - 1) * 8); es ← rest; ok (relative_entry offset ∷ es))
    else rest

-- One word of the RELR table: an address, or a bitmap of the 63 slots after the last one.
unfoldable pub relr_word : ℕ → ℕ → Result (List RelocationEntry × ℕ)
unfolding relr_bits
relr_word slot w =
    if w % 2 == 0
    then (do next ← add_u64 w 8; ok (relative_entry w ∷ [], next))
    else (do es ← relr_bits slot 1 (w / 2) 63; next ← add_u64 slot 504; ok (es, next))

unfoldable pub relr_from : List ℕ → List ElfSegment → ℕ → ℕ → ℕ → ℕ → Result (List RelocationEntry)
unfolding relr_word vaddr_to_file word
relr_from bytes segments address index slot zero = ok []
relr_from bytes segments address index slot (suc left) = do
  word_addr ← add_u64 address (index * 8)
  file ← vaddr_to_file bytes segments word_addr
  w ← word 8 bytes file
  one ← relr_word slot w
  rest ← relr_from bytes segments address (suc index) one.1 left
  ok (one.0 ++ rest)

-- A table with entries of one size, if the plan has it.
unfoldable pub read_sized :
    List ℕ
    → List ElfSegment
    → DynamicLoadPlan
    → Bool
    → Option (ℕ × ℕ × ℕ)
    → Result (List RelocationEntry)
unfolding read_relocation_table
read_sized bytes segments plan rela none = ok []
read_sized bytes segments plan rela (some (address, entry_size, count)) =
    if entry_size == (if rela then 24 else 16)
    then read_relocation_table bytes segments plan address entry_size count rela
    else err (other (if rela then "x86_64 DT_RELA 条目大小错误" else "x86_64 DT_REL 条目大小错误") [])

unfoldable pub read_jmprel :
    List ℕ
    → List ElfSegment
    → DynamicLoadPlan
    → Option (ℕ × ℕ × ℕ × Bool)
    → Result (List RelocationEntry)
unfolding read_relocation_table
read_jmprel bytes segments plan none = ok []
read_jmprel bytes segments plan (some (address, entry_size, count, rela)) =
    if entry_size == (if rela then 24 else 16)
    then read_relocation_table bytes segments plan address entry_size count rela
    else err (other "x86_64 DT_JMPREL 条目大小错误" [])

unfoldable pub read_relr :
    List ℕ → List ElfSegment → Option (ℕ × ℕ × ℕ) → Result (List RelocationEntry)
unfolding relr_from
read_relr bytes segments none = ok []
read_relr bytes segments (some (address, entry_size, count)) =
    if entry_size == 8
    then relr_from bytes segments address 0 0 count
    else err (other "x86_64 DT_RELR 条目大小错误" [])

unfoldable pub read_dynamic_relocations_with_plt :
    List ℕ → List ElfSegment → DynamicLoadPlan → Bool → Result (List RelocationEntry)
unfolding read_sized read_jmprel read_relr
read_dynamic_relocations_with_plt bytes segments plan include_plt = do
  rela ← read_sized bytes segments plan true plan.rela
  plt ← if include_plt then read_jmprel bytes segments plan plan.jmprel else ok []
  rel ← read_sized bytes segments plan false plan.rel
  relr ← read_relr bytes segments plan.relr
  ok (rela ++ (plt ++ (rel ++ relr)))

abbrev pub read_dynamic_relocations :
    List ℕ → List ElfSegment → DynamicLoadPlan → Result (List RelocationEntry)
read_dynamic_relocations bytes segments plan =
    read_dynamic_relocations_with_plt bytes segments plan true
