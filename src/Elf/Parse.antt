-- ===== src/Elf/Parse.antt =====
-- The header parser of crates/daoti-core/src/elf/mod.rs: `ElfInfo` and `parse_elf_from_bytes`.
-- A file is its list of bytes; an index out of range and an overflowing sum of offsets panic.
pub mod Safe
pub mod Print
pub mod Roundtrip
mod Tests
use yl.Prelude.{
  ℕ, zero, suc, ◌+◌, ◌*◌, ◌^◌, String, Bool, true, false, not, ◌&&◌, ◌||◌, List, [], ◌∷◌, ltb, leb,
  ◌==◌, if◌then◌else◌, length, take, drop, get_or, Result, ok, err, panic, ◌>>=◌, ◌>>◌, require,
  add_u64, other,
}
use yl.Prelude.Bytes.{from_le}
use yl.Elf.{ElfSegment}

pub record ElfInfo : Type 0 where
  pub arch : String
  pub file_type : String
  pub entry : ℕ
  pub ph_num : ℕ
  pub sh_num : ℕ
  pub abi : String
  pub executable : Bool
  pub is_64 : Bool
  pub segments : List ElfSegment

-- `from_le_bytes` of the `n` bytes at `at`.
unfoldable pub word : ℕ → List ℕ → ℕ → Result ℕ
unfolding from_le
word n bytes at =
    if leb (at + n) (length bytes) then ok (from_le (take n (drop at bytes))) else panic

-- The values of the header that the parser uses.
pub record Header : Type 0 where
  pub phoff : ℕ
  pub phnum : ℕ
  pub shnum : ℕ
  pub entry : ℕ
  pub e_type : ℕ
  pub e_machine : ℕ

unfoldable pub read_header_64 : List ℕ → Result Header
unfolding word
read_header_64 bytes = do
  require (leb 64 (length bytes)) (other "数据太短，不足 64 位 ELF header" [])
  e_type ← word 2 bytes 16
  e_machine ← word 2 bytes 18
  entry ← word 8 bytes 24
  phoff ← word 8 bytes 32
  phnum ← word 2 bytes 56
  shnum ← word 2 bytes 60
  ok (record {
    phoff = phoff;
    phnum = phnum;
    shnum = shnum;
    entry = entry;
    e_type = e_type;
    e_machine = e_machine;
  })

unfoldable pub read_header_32 : List ℕ → Result Header
unfolding word
read_header_32 bytes = do
  require (leb 52 (length bytes)) (other "数据太短，不足 32 位 ELF header" [])
  e_type ← word 2 bytes 16
  e_machine ← word 2 bytes 18
  entry ← word 4 bytes 24
  phoff ← word 4 bytes 28
  phnum ← word 2 bytes 44
  shnum ← word 2 bytes 48
  ok (record {
    phoff = phoff;
    phnum = phnum;
    shnum = shnum;
    entry = entry;
    e_type = e_type;
    e_machine = e_machine;
  })

-- The arms of a `match` on a number, and its default.
unfoldable pub match_name : List (ℕ × String) → String → ℕ → String
match_name [] default n = default
match_name ((k, name) ∷ arms) default n =
    let rest = match_name arms default n in if n == k then name else rest

abbrev pub arch_names : List (ℕ × String)
arch_names =
    (0x00, "无特定架构")
    ∷ (0x02, "SPARC")
    ∷ (0x03, "i386 (x86)")
    ∷ (0x08, "MIPS")
    ∷ (0x14, "PowerPC")
    ∷ (0x15, "PowerPC (64-bit)")
    ∷ (0x28, "ARM")
    ∷ (0x2A, "SuperH")
    ∷ (0x32, "IA-64")
    ∷ (0x3E, "x86_64")
    ∷ (0xB7, "AArch64")
    ∷ (0xF3, "RISC-V")
    ∷ []

abbrev pub file_type_names : List (ℕ × String)
file_type_names =
    (0, "ET_NONE（无类型）")
    ∷ (1, "ET_REL（可重定位目标文件）")
    ∷ (2, "ET_EXEC（可执行文件）")
    ∷ (3, "ET_DYN（共享库/动态可执行）")
    ∷ (4, "ET_CORE（核心转储）")
    ∷ []

abbrev pub abi_names : List (ℕ × String)
abi_names =
    (0, "UNIX System V")
    ∷ (1, "HP-UX")
    ∷ (2, "NetBSD")
    ∷ (3, "Linux")
    ∷ (6, "Solaris")
    ∷ (7, "AIX")
    ∷ (9, "FreeBSD")
    ∷ (10, "Tru64")
    ∷ (12, "OpenBSD")
    ∷ (13, "OpenVMS")
    ∷ (97, "ARM EABI")
    ∷ (255, "Standalone")
    ∷ []

unfoldable pub program_header_64 : List ℕ → ℕ → Result ElfSegment
unfolding word
program_header_64 bytes off = do
  p_type ← word 4 bytes off
  p_flags ← word 4 bytes (off + 4)
  p_offset ← word 8 bytes (off + 8)
  p_vaddr ← word 8 bytes (off + 16)
  p_paddr ← word 8 bytes (off + 24)
  p_filesz ← word 8 bytes (off + 32)
  p_memsz ← word 8 bytes (off + 40)
  p_align ← word 8 bytes (off + 48)
  ok (record {
    type_ = p_type;
    offset = p_offset;
    vaddr = p_vaddr;
    paddr = p_paddr;
    filesz = p_filesz;
    memsz = p_memsz;
    flags = p_flags;
    align = p_align;
  })

unfoldable pub program_header_32 : List ℕ → ℕ → Result ElfSegment
unfolding word
program_header_32 bytes off = do
  p_type ← word 4 bytes off
  p_offset ← word 4 bytes (off + 4)
  p_vaddr ← word 4 bytes (off + 8)
  p_paddr ← word 4 bytes (off + 12)
  p_filesz ← word 4 bytes (off + 16)
  p_memsz ← word 4 bytes (off + 20)
  p_flags ← word 4 bytes (off + 24)
  p_align ← word 4 bytes (off + 28)
  ok (record {
    type_ = p_type;
    offset = p_offset;
    vaddr = p_vaddr;
    paddr = p_paddr;
    filesz = p_filesz;
    memsz = p_memsz;
    flags = p_flags;
    align = p_align;
  })

abbrev pub ph_entry_size : Bool → ℕ
ph_entry_size is_64 = if is_64 then 56 else 32

abbrev pub program_header : Bool → List ℕ → ℕ → Result ElfSegment
program_header true bytes off = program_header_64 bytes off
program_header false bytes off = program_header_32 bytes off

-- The loop over the table: `count` entries from `off` on.
unfoldable pub read_segments : Bool → List ℕ → ℕ → ℕ → Result (List ElfSegment)
unfolding program_header_64 program_header_32
read_segments is_64 bytes off zero = ok []
read_segments is_64 bytes off (suc count) = do
  seg ← program_header is_64 bytes off
  rest ← read_segments is_64 bytes (off + ph_entry_size is_64) count
  ok (seg ∷ rest)

unfoldable pub read_table : Bool → List ℕ → Header → Result (List ElfSegment)
unfolding read_segments
read_table is_64 bytes h =
    if ltb 0 h.phnum && ltb 0 h.phoff
    then (do
      let size = h.phnum * ph_entry_size is_64
      ph_end ← add_u64 h.phoff size
      require (leb ph_end (length bytes))
          (other "Program header 表超出数据边界：偏移 {}，大小 {}，数据长度 {}" (h.phoff ∷ size ∷ length bytes ∷ []))
      read_segments is_64 bytes h.phoff h.phnum)
    else ok []

-- `data[0..4] == [0x7F, 0x45, 0x4C, 0x46]`, for a file of four bytes at least.
abbrev pub has_magic : List ℕ → Bool
has_magic bytes =
    get_or bytes 0 0 == 0x7F
    && (get_or bytes 1 0 == 0x45 && (get_or bytes 2 0 == 0x4C && get_or bytes 3 0 == 0x46))

-- What follows the header: the names, and the table.
unfoldable pub finish_parse : Bool → List ℕ → Header → Result ElfInfo
unfolding read_table match_name
finish_parse is_64 bytes h = do
  segments ← read_table is_64 bytes h
  ok (record {
    arch = match_name arch_names "未知架构" h.e_machine;
    file_type = match_name file_type_names "未知类型" h.e_type;
    entry = h.entry;
    ph_num = h.phnum;
    sh_num = h.shnum;
    abi = match_name abi_names "未知 ABI" (get_or bytes 7 0);
    executable = h.e_type == 2 || (h.e_type == 3 && ltb 0 h.phnum);
    is_64 = is_64;
    segments = segments;
  })

-- The indices 4, 5 and 7 are in range once the length is tested.
unfoldable pub parse_elf_from_bytes : List ℕ → Result ElfInfo
unfolding read_header_64 read_header_32 finish_parse
parse_elf_from_bytes bytes = do
  require (leb 16 (length bytes)) (other "数据太短，不足 ELF 标识头" [])
  require (has_magic bytes) (other "非 ELF 格式：魔数不匹配" [])
  let class = get_or bytes 4 0
  let byte_order = get_or bytes 5 0
  require (class == 1 || class == 2) (other "不支持的 ELF 类别：{}（应为 1=32-bit 或 2=64-bit）" (class ∷ []))
  require (byte_order == 1) (other "仅支持小端序（little-endian），当前字节序：{}" (byte_order ∷ []))
  let is_64 = class == 2
  h ← if is_64 then read_header_64 bytes else read_header_32 bytes
  finish_parse is_64 bytes h
