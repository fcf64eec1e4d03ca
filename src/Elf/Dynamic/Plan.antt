-- ===== src/Elf/Dynamic/Plan.antt =====
-- `plan_dynamic_load` of crates/daoti-core/src/elf/mod.rs: the plan for a dynamic object, from its
-- program headers and its dynamic section.
pub mod Lowest
pub mod Needed
pub mod Segments
mod Tests
use yl.Prelude.{
  ℕ, zero, suc, ◌+◌, ◌-◌, ◌*◌, ◌/◌, ◌%◌, min, Bool, true, false, not, ◌&&◌, ◌||◌, Option, none,
  some, List, [], ◌∷◌, ◌++◌, ltb, leb, ◌==◌, if◌then◌else◌, length, take, drop, any, find, Result,
  ok, err, panic, ◌>>=◌, ◌>>◌, require, ok_or, checked_add, checked_sub, saturating_add, u64_mod,
  String, other, unavailable,
}
use yl.Prelude.Int.{ℤ, pos, signed64}
use yl.Prelude.Utf8.{is_utf8}
use text.Mathlib.Text as Text
use yl.Elf.{ElfSegment, is_load}
use yl.Elf.Parse.{ElfInfo, word, parse_elf_from_bytes}
use yl.Elf.Layout.{align_down, align_up}
use yl.Elf.Dynamic.{
  DynamicLoadSegment, DependencyEdge, TlsMetadata, ElfDynamicEntry, DynamicLoadPlan, until_zero,
}
use yl.Elf.Relocation.{same_name}

-- What the loop over the program headers keeps. `lowest` starts at the largest word.
pub record Headers : Type 0 where
  pub lowest : ℕ
  pub dynamic : Option (ℕ × ℕ)
  pub interpreter : Option (List ℕ)
  pub tls : Option TlsMetadata

-- The path in a PT_INTERP segment, up to its first 0.
unfoldable pub read_interpreter : List ℕ → ℕ → ℕ → Result (List ℕ)
unfolding until_zero is_utf8
read_interpreter bytes offset filesz = do
  stop ← ok_or (checked_add offset filesz) (other "PT_INTERP 边界溢出" [])
  require (leb stop (length bytes)) (other "PT_INTERP 超出文件边界" [])
  let name = until_zero (take filesz (drop offset bytes))
  require (is_utf8 name) (other "PT_INTERP 不是有效 UTF-8" [])
  ok name

-- One program header at `off`.
unfoldable pub read_program_header : List ℕ → ℕ → Headers → Result Headers
unfolding word read_interpreter
read_program_header bytes off h = do
  tag ← word 4 bytes off
  offset ← word 8 bytes (off + 8)
  vaddr ← word 8 bytes (off + 16)
  filesz ← word 8 bytes (off + 32)
  memsz ← word 8 bytes (off + 40)
  align ← word 8 bytes (off + 48)
  if tag == 1
      then ok (record h { lowest = min h.lowest vaddr })
      else (if tag == 7
          then ok (record h {
            tls = some (record {
              vaddr = vaddr;
              file_offset = offset;
              file_size = filesz;
              memory_size = memsz;
              align = align;
            });
          })
          else (if tag == 2
              then ok (record h { dynamic = some (offset, filesz) })
              else (if tag == 3
                  then (do
                    name ← read_interpreter bytes offset filesz
                    ok (record h { interpreter = some name }))
                  else ok h)))

-- The loop over the program headers, from the `index`th on.
unfoldable pub read_program_headers : List ℕ → ℕ → ℕ → Headers → ℕ → Result Headers
unfolding read_program_header
read_program_headers bytes phoff index h zero = ok h
read_program_headers bytes phoff index h (suc left) = do
  off ← ok_or (checked_add phoff (index * 56)) (other "Program header 偏移溢出" [])
  stop ← ok_or (checked_add off 56) (other "Program header 边界溢出" [])
  require (leb stop (length bytes)) (other "Program header 超出文件边界" [])
  h' ← read_program_header bytes off h
  read_program_headers bytes phoff (suc index) h' left

unfoldable pub plan_segment : ℕ → ElfSegment → Result DynamicLoadSegment
plan_segment load_bias s = do
  raw_start ← ok_or (checked_add s.vaddr load_bias) (other "PT_LOAD 映射起点溢出" [])
  mapped_start ← align_down raw_start 4096
  raw_end ← ok_or (checked_add raw_start s.memsz) (other "PT_LOAD 映射终点溢出" [])
  mapped_end ← align_up raw_end 4096
  ok (record {
    vaddr = s.vaddr;
    file_offset = s.offset;
    file_size = s.filesz;
    memory_size = s.memsz;
    mapped_start = mapped_start;
    mapped_end = mapped_end;
    flags = s.flags;
  })

-- `filter`, `map` and `collect`: the first error ends the loop.
unfoldable pub plan_load_segments : ℕ → List ElfSegment → Result (List DynamicLoadSegment)
unfolding plan_segment
plan_load_segments load_bias [] = ok []
plan_load_segments load_bias (s ∷ ss) =
    let rest = plan_load_segments load_bias ss in
    if is_load s then (do one ← plan_segment load_bias s; more ← rest; ok (one ∷ more)) else rest

-- The entries of the dynamic section, the null entry included.
unfoldable pub read_entries : List ℕ → ℕ → ℕ → Result (List ElfDynamicEntry)
unfolding word signed64
read_entries bytes off zero = ok []
read_entries bytes off (suc left) = do
  tag ← word 8 bytes off
  value ← word 8 bytes (off + 8)
  let entry = λ (rest : List ElfDynamicEntry). record { tag = signed64 tag; value = value } ∷ rest
  elim (tag == 0) [
    | true ↦ ok (entry [])
    | false ↦ do rest ← read_entries bytes (off + 16) left; ok (entry rest)
  ]

abbrev pub is_tag : ℕ → ElfDynamicEntry → Bool
is_tag tag e = elim e.tag [ pos n ↦ n == tag | _ ↦ false ]

-- `value_for(tag)`
unfoldable pub value_for : List ElfDynamicEntry → ℕ → Option ℕ
value_for [] tag = none
value_for (e ∷ es) tag = let rest = value_for es tag in if is_tag tag e then some e.value else rest

abbrev pub or_default : Option ℕ → ℕ → ℕ
or_default none d = d
or_default (some x) d = x

-- `a % b`, which panics for a divisor 0.
abbrev pub rem : ℕ → ℕ → Result ℕ
rem a b = if b == 0 then panic else ok (a % b)

-- `DT_PLTREL`, and the table that it describes.
unfoldable pub plan_jmprel : List ElfDynamicEntry → Result (Option (ℕ × ℕ × ℕ × Bool))
unfolding value_for
plan_jmprel es = do
  let kind = or_default (value_for es 20) 7
  require (kind == 7 || kind == 17) (unavailable "不支持的 DT_PLTREL 类型：{other}" (kind ∷ []))
  let plt_rela = kind == 7
  elim (value_for es 23) [
    | none ↦ ok none
    | some address ↦ do
      let entry_size =
          if plt_rela then or_default (value_for es 9) 24 else or_default (value_for es 19) 16
      let size = or_default (value_for es 2) 0
      left ← rem size entry_size
      require (left == 0) (other "DT_PLTRELSZ 大小不是条目大小的整数倍" [])
      ok (some (address, entry_size, size / entry_size, plt_rela))
  ]

-- A table with entries of a fixed size: `addr`, `size` and `ent` are the tags of its values.
unfoldable pub plan_table :
    List ElfDynamicEntry → ℕ → ℕ → ℕ → ℕ → String → String → Result (Option (ℕ × ℕ × ℕ))
unfolding value_for
plan_table es addr size ent entry_size wrong uneven = elim (value_for es addr) [
  | none ↦ ok none
  | some address ↦ do
    let bytes = or_default (value_for es size) 0
    require (or_default (value_for es ent) entry_size == entry_size) (other wrong [])
    require (bytes % entry_size == 0) (other uneven [])
    ok (some (address, entry_size, bytes / entry_size))
]

-- `virtual_address` is in the file part of the segment.
abbrev pub holds_string : ℕ → ElfSegment → Bool
holds_string address s =
    is_load s && (leb s.vaddr address && ltb address (saturating_add s.vaddr s.filesz))

unfoldable pub read_dynamic_string : List ℕ → List ElfSegment → ℕ → ℕ → Result (List ℕ)
unfolding until_zero is_utf8
read_dynamic_string bytes segments strtab offset = do
  address ← ok_or (checked_add strtab offset) (other "动态字符串地址溢出" [])
  s ← ok_or (find (holds_string address) segments) (other "动态字符串不在可加载文件段内" [])
  at ← ok_or (checked_add s.offset (address - s.vaddr)) (other "动态字符串文件偏移溢出" [])
  require (ltb at (length bytes)) (other "动态字符串超出文件边界" [])
  let name = until_zero (drop at bytes)
  require (is_utf8 name) (other "动态字符串不是有效 UTF-8" [])
  ok name

-- The names of the DT_NEEDED entries, each of them once, in the order of the entries.
unfoldable pub read_needed :
    List ℕ → List ElfSegment → ℕ → List (List ℕ) → List ElfDynamicEntry → Result (List (List ℕ))
unfolding read_dynamic_string same_name
read_needed bytes segments strtab needed [] = ok needed
read_needed bytes segments strtab needed (e ∷ es) = elim (is_tag 1 e) [
  | false ↦ read_needed bytes segments strtab needed es
  | true ↦ do
    name ← read_dynamic_string bytes segments strtab e.value
    read_needed bytes segments strtab
        (if any (λ item. same_name item name) needed then needed else needed ++ name ∷ []) es
]

unfoldable pub needed_names :
    List ℕ → List ElfSegment → List ElfDynamicEntry → Result (List (List ℕ))
unfolding value_for read_needed
needed_names bytes segments es = elim (value_for es 5) [
  | none ↦ ok []
  | some strtab ↦ read_needed bytes segments strtab [] es
]

-- "<main>"
abbrev pub main_name : List ℕ
main_name = 0x3c ∷ 0x6d ∷ 0x61 ∷ 0x69 ∷ 0x6e ∷ 0x3e ∷ []

unfoldable pub main_edges : List (List ℕ) → List DependencyEdge
main_edges [] = []
main_edges (to ∷ names) = record { from = main_name; to = to } ∷ main_edges names

-- The class, the machine and the type of the file.
abbrev pub is_plannable : ElfInfo → Bool
is_plannable info =
    info.is_64 && (Text.◌==◌ info.arch "x86_64" && Text.◌==◌ info.file_type "ET_DYN（共享库/动态可执行）")

-- What the plan takes from the dynamic section.
unfoldable pub finish_plan :
    List ℕ
    → ElfInfo
    → Headers
    → ℕ
    → ℕ
    → List DynamicLoadSegment
    → List ElfDynamicEntry
    → Result DynamicLoadPlan
unfolding plan_jmprel plan_table needed_names value_for main_edges
finish_plan bytes info h load_bias relocated_entry load_segments es = do
  jmprel ← plan_jmprel es
  rela ← plan_table es 7 8 9 24 "x86_64 DT_RELA 条目大小错误" "DT_RELA 大小不是条目大小的整数倍"
  rel ← plan_table es 17 18 19 16 "x86_64 DT_REL 条目大小错误" "DT_REL 大小不是条目大小的整数倍"
  relr ← plan_table es 36 35 37 8 "x86_64 DT_RELR 大小错误" "x86_64 DT_RELR 大小错误"
  needed ← needed_names bytes info.segments es
  ok (record {
    load_bias = load_bias;
    relocated_entry = relocated_entry;
    load_segments = load_segments;
    tls = h.tls;
    dependency_graph = main_edges needed;
    interpreter = h.interpreter;
    entries = es;
    needed = needed;
    strtab = value_for es 5;
    symtab = value_for es 6;
    rela = rela;
    rel = rel;
    relr = relr;
    jmprel = jmprel;
  })

-- The bias of the object, and what depends on it.
unfoldable pub plan_at : List ℕ → ElfInfo → Headers → ℕ → ℕ → ℕ → Result DynamicLoadPlan
unfolding plan_load_segments read_entries finish_plan
plan_at bytes info h offset size preferred_base = do
  load_bias ←
      ok_or (checked_sub preferred_base (h.lowest / 4096 * 4096)) (other "动态 ELF load bias 下溢" [])
  relocated_entry ← ok_or (checked_add info.entry load_bias) (other "动态 ELF 重定位入口地址溢出" [])
  load_segments ← plan_load_segments load_bias info.segments
  es ← read_entries bytes offset (size / 16)
  finish_plan bytes info h load_bias relocated_entry load_segments es

unfoldable pub plan_dynamic_load : List ℕ → ℕ → Result DynamicLoadPlan
unfolding parse_elf_from_bytes word read_program_headers plan_at
plan_dynamic_load bytes preferred_base = do
  info ← parse_elf_from_bytes bytes
  require (is_plannable info) (unavailable "动态装载第一阶段仅支持 x86_64 ET_DYN" [])
  phoff ← word 8 bytes 32
  phnum ← word 2 bytes 56
  h ←
      read_program_headers bytes phoff 0
        (record { lowest = u64_mod - 1; dynamic = none; interpreter = none; tls = none }) phnum
  require (not (h.lowest == u64_mod - 1)) (unavailable "ET_DYN 缺少 PT_LOAD" [])
  (offset, size) ← ok_or h.dynamic (unavailable "ET_DYN 缺少 PT_DYNAMIC" [])
  require (size % 16 == 0) (other "PT_DYNAMIC 超出文件边界" [])
  stop ← ok_or (checked_add offset size) (other "PT_DYNAMIC 边界溢出" [])
  require (leb stop (length bytes)) (other "PT_DYNAMIC 超出文件边界" [])
  plan_at bytes info h offset size preferred_base
