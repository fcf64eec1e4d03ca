-- ===== src/Elf/Dynamic/Symbols.antt =====
-- The dynamic symbols of an object, crates/daoti-core/src/elf/mod.rs:
-- `read_loaded_dynamic_symbols`.
use yl.Prelude.{
  false, ℕ, zero, suc, ◌+◌, ◌-◌, ◌*◌, ◌%◌, max, Bool, not, Option, none, some, List, [], ◌∷◌, ltb,
  leb, ◌==◌, if◌then◌else◌, length, Result, ok, err, ◌>>=◌, ◌>>◌, require, ok_or, checked_add,
  other, unfinished,
}
use yl.Prelude.Int.{pos, negsuc}
use yl.Elf.{ElfSegment}
use yl.Elf.Parse.{
  word, parse_elf_from_bytes, read_header_64, read_header_32, finish_parse, read_table,
  read_segments, program_header_64, program_header_32, match_name,
}
use yl.Prelude.Bytes.{from_le}
use yl.Prelude.Utf8.{is_utf8, utf8_from}
use yl.Elf.Dynamic.{ElfDynamicEntry, DynamicLoadPlan, vaddr_to_file, string_at, until_zero}

pub record LoadedDynamicSymbol : Type 0 where
  pub name : List ℕ
  pub loaded_address : ℕ
  pub defined : Bool
  pub symbol_type : ℕ
  pub raw_value : ℕ

-- `plan.entries.iter().find(|entry| entry.tag == tag)`, for a tag that is not negative.
abbrev pub has_tag : ElfDynamicEntry → ℕ → Bool
has_tag entry tag = elim entry.tag [ pos t ↦ t == tag | negsuc t ↦ false ]

unfoldable pub find_tag : List ElfDynamicEntry → ℕ → Option ℕ
find_tag [] tag = none
find_tag (entry ∷ entries) tag =
    let rest = find_tag entries tag in if has_tag entry tag then some entry.value else rest

-- The closure `read_u32`.
unfoldable pub read_u32 : List ℕ → ℕ → Result ℕ
unfolding word
read_u32 bytes offset = do
  stop ← ok_or (checked_add offset 4) (other "DT_GNU_HASH 偏移溢出" [])
  require (leb stop (length bytes)) (other "DT_GNU_HASH 超出文件边界" [])
  word 4 bytes offset

-- The walk along one chain, `chains` the place of its table; a round reads four bytes further on,
-- so the length of the file bounds the rounds.
unfoldable pub gnu_chain : List ℕ → ℕ → ℕ → ℕ → ℕ → ℕ → Result ℕ
unfolding read_u32
gnu_chain bytes chains symoffset current count zero = err unfinished
gnu_chain bytes chains symoffset current count (suc fuel) =
    let rest = gnu_chain bytes chains symoffset (suc current) (max count (suc current)) fuel in
    do
      offset ←
          ok_or (checked_add chains ((current - symoffset) * 4)) (other "DT_GNU_HASH chain 偏移溢出" [])
      chain ← read_u32 bytes offset
      if chain % 2 == 1 then ok (max count (suc current)) else rest

-- The loop over the buckets from `bucket` on, `left` of them.
unfoldable pub gnu_buckets : List ℕ → ℕ → ℕ → ℕ → ℕ → ℕ → ℕ → Result ℕ
unfolding gnu_chain
gnu_buckets bytes buckets_file buckets symoffset count bucket zero = ok count
gnu_buckets bytes buckets_file buckets symoffset count bucket (suc left) = do
  offset ← ok_or (checked_add buckets_file (bucket * 4)) (other "DT_GNU_HASH bucket 溢出" [])
  index ← read_u32 bytes offset
  count' ← if ltb index symoffset then ok count else do
    chains ← ok_or (checked_add buckets_file (buckets * 4)) (other "DT_GNU_HASH chain 偏移溢出" [])
    gnu_chain bytes chains symoffset index count (suc (length bytes))
  gnu_buckets bytes buckets_file buckets symoffset count' (suc bucket) left

-- The number of symbols that a DT_GNU_HASH table describes. The product by 8 does not overflow.
unfoldable pub gnu_count : List ℕ → ℕ → Result ℕ
unfolding gnu_buckets read_u32
gnu_count bytes file = do
  buckets ← read_u32 bytes file
  symoffset ← read_u32 bytes (file + 4)
  bloom_size ← read_u32 bytes (file + 8)
  buckets_file ← ok_or (checked_add file (16 + bloom_size * 8)) (other "DT_GNU_HASH bucket 偏移溢出" [])
  gnu_buckets bytes buckets_file buckets symoffset symoffset 0 buckets

unfoldable pub symbol_count : List ℕ → List ElfSegment → List ElfDynamicEntry → Result ℕ
unfolding find_tag gnu_count
symbol_count bytes segments entries = elim (find_tag entries 4) [
  | some hash ↦ do
    file ← vaddr_to_file bytes segments hash
    require (leb (file + 8) (length bytes)) (other "DT_HASH 超出文件边界" [])
    word 4 bytes (file + 4)
  | none ↦ elim (find_tag entries 0x6ffffef5) [
    | some hash ↦ do file ← vaddr_to_file bytes segments hash; gnu_count bytes file
    | none ↦ ok 0
  ]
]

-- One symbol, unless it has no name.
unfoldable pub read_symbol :
    List ℕ → List ElfSegment → ℕ → ℕ → ℕ → ℕ → Result (Option LoadedDynamicSymbol)
unfolding word
read_symbol bytes segments load_bias symtab strtab index = do
  sym_addr ← ok_or (checked_add symtab (index * 24)) (other "动态符号地址溢出" [])
  sym_file ← vaddr_to_file bytes segments sym_addr
  require (leb (sym_file + 24) (length bytes)) (other "动态符号超出文件边界" [])
  name_offset ← word 4 bytes sym_file
  st_info ← word 1 bytes (sym_file + 4)
  st_shndx ← word 2 bytes (sym_file + 6)
  st_value ← word 8 bytes (sym_file + 8)
  if name_offset == 0 then ok none else do
    name ← string_at bytes segments strtab name_offset
    loaded_address ← ok_or (checked_add load_bias st_value) (other "动态符号已装载地址溢出" [])
    ok (
        some (record {
          name = name;
          loaded_address = loaded_address;
          defined = not (st_shndx == 0);
          symbol_type = st_info % 16;
          raw_value = st_value;
        }))

abbrev pub push : Option LoadedDynamicSymbol → List LoadedDynamicSymbol → List LoadedDynamicSymbol
push none symbols = symbols
push (some s) symbols = s ∷ symbols

-- The loop over the symbols from `index` on, `left` of them.
unfoldable pub read_symbols_from :
    List ℕ → List ElfSegment → ℕ → ℕ → ℕ → ℕ → ℕ → Result (List LoadedDynamicSymbol)
unfolding read_symbol
read_symbols_from bytes segments load_bias symtab strtab index zero = ok []
read_symbols_from bytes segments load_bias symtab strtab index (suc left) = do
  symbol ← read_symbol bytes segments load_bias symtab strtab index
  rest ← read_symbols_from bytes segments load_bias symtab strtab (suc index) left
  ok (push symbol rest)

abbrev pub entry_size_of : List ElfDynamicEntry → ℕ
entry_size_of entries = elim (find_tag entries 11) [ none ↦ 24 | some value ↦ value ]

unfoldable pub read_loaded_dynamic_symbols :
    List ℕ → DynamicLoadPlan → Result (List LoadedDynamicSymbol)
unfolding symbol_count read_symbols_from
read_loaded_dynamic_symbols bytes plan = elim plan.symtab [
  | none ↦ ok []
  | some symtab ↦ elim plan.strtab [
    | none ↦ ok []
    | some strtab ↦ do
      info ← parse_elf_from_bytes bytes
      require (entry_size_of plan.entries == 24) (other "x86_64 动态符号条目大小错误" [])
      count ← symbol_count bytes info.segments plan.entries
      read_symbols_from bytes info.segments plan.load_bias symtab strtab 0 count
  ]
]

-- Named on an `unfolding` line, it opens the readers of symbols, for tests.
unfoldable pub symbol_code : Unit {0}
unfolding find_tag read_u32 gnu_chain gnu_buckets gnu_count symbol_count read_symbol
    read_symbols_from read_loaded_dynamic_symbols vaddr_to_file string_at until_zero is_utf8
    utf8_from parse_elf_from_bytes read_header_64 read_header_32 finish_parse read_table
    read_segments program_header_64 program_header_32 match_name word from_le
symbol_code = tt
