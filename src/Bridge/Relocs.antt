-- ===== src/Bridge/Relocs.antt =====
-- `apply_elf_runtime_relocations` of crates/daoti-core/src/elf/syscall_bridge.rs: the relocations of
-- an ELF file that was copied to `addr` by a mapping of its descriptor. A signed addend is added
-- with wrap-around, so it is kept as its 64-bit word. The counts of applied and skipped entries are
-- only traced and left out.
pub mod Apply
use yl.Prelude.{
  ℕ, zero, suc, ◌+◌, ◌-◌, ◌*◌, ◌/◌, ◌%◌, Bool, true, false, ◌&&◌, ◌||◌, not, Option, none, some,
  List, [], ◌∷◌, ◌++◌, ltb, leb, ◌==◌, if◌then◌else◌, length, drop, Result, ok, err, panic, ◌>>=◌,
  ok_or, checked_add, saturating_add, add_u64, u64_mod, other,
}
use yl.Prelude.Bytes.{to_le}
use yl.Memory.{MemoryModel, write}
use yl.Elf.Parse.{word}
use yl.Elf.Dynamic.{until_zero}
use yl.Elf.Relocation.{same_name}
use yl.Bridge.Bits.{align_up}
use yl.Bridge.Tls.{wrapping_sub}

pub record LoadRange : Type 0 where
  pub vaddr : ℕ
  pub memsz : ℕ
  pub offset : ℕ
  pub filesz : ℕ

pub record TlsLayout : Type 0 where
  pub vaddr : ℕ
  pub filesz : ℕ
  pub memsz : ℕ
  pub align : ℕ

-- What the loop over the program headers collects.
pub record Segments : Type 0 where
  pub loads : List LoadRange
  pub dynamic : Option (ℕ × ℕ)
  pub tls : Option TlsLayout

abbrev pub no_segments : Segments
no_segments = record { loads = []; dynamic = none; tls = none }

unfoldable pub add_header : Segments → ℕ → ℕ → ℕ → ℕ → ℕ → ℕ → Segments
add_header s p_type p_offset p_vaddr p_filesz p_memsz p_align =
    if p_type == 1
    then record s {
      loads =
          s.loads
          ++ record { vaddr = p_vaddr; memsz = p_memsz; offset = p_offset; filesz = p_filesz } ∷ [];
    }
    else (if p_type == 2
        then record s { dynamic = some (p_offset, p_filesz) }
        else (if p_type == 7
            then record s {
              tls =
                  some (record {
                    vaddr = p_vaddr;
                    filesz = p_filesz;
                    memsz = p_memsz;
                    align = p_align;
                  });
            }
            else s))

-- The loop over the program headers: `count` of them from `base` on.
unfoldable pub scan_headers : List ℕ → ℕ → ℕ → Segments → ℕ → Result Segments
unfolding add_header word
scan_headers bytes entry_size base s zero = ok s
scan_headers bytes entry_size base s (suc count) = do
  p_type ← word 4 bytes base
  p_offset ← word 8 bytes (base + 8)
  p_vaddr ← word 8 bytes (base + 16)
  p_filesz ← word 8 bytes (base + 32)
  p_memsz ← word 8 bytes (base + 40)
  p_align ← word 8 bytes (base + 48)
  scan_headers bytes entry_size (base + entry_size)
      (add_header s p_type p_offset p_vaddr p_filesz p_memsz p_align) count

-- Whether the bytes from `va` to `stop` are in the file part of a segment.
abbrev pub in_load : ℕ → ℕ → LoadRange → Bool
in_load va stop r =
    leb r.vaddr va && (leb stop (saturating_add r.vaddr r.memsz) && leb (stop - r.vaddr) r.filesz)

-- The search of `vaddr_to_offset`, for a range that does not overflow.
unfoldable pub offset_in : List LoadRange → ℕ → ℕ → Result (Option ℕ)
offset_in [] va stop = ok none
offset_in (r ∷ rs) va stop =
    let rest = offset_in rs va stop in
    if in_load va stop r
    then (do offset ← add_u64 r.offset (va - r.vaddr); ok (some offset))
    else rest

unfoldable pub vaddr_to_offset : List LoadRange → ℕ → ℕ → Result (Option ℕ)
unfolding offset_in
vaddr_to_offset loads va len = elim (checked_add va len) [
  | none ↦ ok none
  | some stop ↦ offset_in loads va stop
]

-- What the loop over the dynamic section collects; a table is its address and its size.
pub record DynamicTables : Type 0 where
  pub symtab : Option ℕ
  pub strtab : Option ℕ
  pub rela : Option (ℕ × ℕ)
  pub jmprel : Option (ℕ × ℕ)

abbrev pub no_tables : DynamicTables
no_tables = record { symtab = none; strtab = none; rela = none; jmprel = none }

-- `if let Some(entry) = table.as_mut() { entry.1 = val }`
abbrev pub resize : Option (ℕ × ℕ) → ℕ → Option (ℕ × ℕ)
resize none size = none
resize (some table) size = some (table.0, size)

unfoldable pub add_tag : DynamicTables → ℕ → ℕ → DynamicTables
add_tag d tag val =
    if tag == 6
    then record d { symtab = some val }
    else (if tag == 5
        then record d { strtab = some val }
        else (if tag == 7
            then record d { rela = some (val, 0) }
            else (if tag == 8
                then record d { rela = resize d.rela val }
                else (if tag == 23
                    then record d { jmprel = some (val, 0) }
                    else (if tag == 2 then record d { jmprel = resize d.jmprel val } else d)))))

-- The loop over the dynamic section: `left` entries from `off` on, up to the null entry.
unfoldable pub scan_dynamic : List ℕ → ℕ → DynamicTables → ℕ → Result DynamicTables
unfolding add_tag word
scan_dynamic bytes off d zero = ok d
scan_dynamic bytes off d (suc left) = do
  tag ← word 8 bytes off
  val ← word 8 bytes (off + 8)
  elim (tag == 0) [ true ↦ ok d | false ↦ scan_dynamic bytes (off + 16) (add_tag d tag val) left ]

-- An object that was copied to `addr`.
pub record LoadedObject : Type 0 where
  pub bytes : List ℕ
  pub addr : ℕ
  pub segments : Segments
  pub tables : DynamicTables

-- The offset of a symbol in the file, where there is a table and it holds the symbol.
unfoldable pub symbol_offset : LoadedObject → ℕ → Result (Option ℕ)
unfolding vaddr_to_offset
symbol_offset o r_sym = elim o.tables.symtab [
  | none ↦ ok none
  | some symtab ↦ do at ← add_u64 symtab (r_sym * 24); vaddr_to_offset o.segments.loads at 24
]

abbrev pub curbrk_name : List ℕ
curbrk_name = 0x5f ∷ 0x5f ∷ 0x63 ∷ 0x75 ∷ 0x72 ∷ 0x62 ∷ 0x72 ∷ 0x6b ∷ []

-- `&bytes[name_off..]`, up to the first 0, against the name.
unfoldable pub name_is_curbrk : List ℕ → Option ℕ → Result Bool
unfolding until_zero same_name
name_is_curbrk bytes none = ok false
name_is_curbrk bytes (some name_off) =
    if leb name_off (length bytes)
    then ok (same_name (until_zero (drop name_off bytes)) curbrk_name)
    else panic

-- Whether the name of an undefined symbol is `__curbrk`.
unfoldable pub is_curbrk : LoadedObject → ℕ → Result Bool
unfolding vaddr_to_offset name_is_curbrk
is_curbrk o st_name = elim o.tables.strtab [
  | none ↦ ok false
  | some strtab ↦ do
    at ← add_u64 strtab st_name
    name_off ← vaddr_to_offset o.segments.loads at 1
    name_is_curbrk o.bytes name_off
]

-- The slot of a variable in the static block: symbol and addend less the size of the block.
unfoldable pub tls_value : LoadedObject → ℕ → ℕ → Result (Option ℕ)
unfolding symbol_offset align_up word
tls_value o r_sym r_addend = elim o.segments.tls [
  | none ↦ ok none
  | some tls ↦ do
    let place = λ (sym_value : ℕ). (do
      size ← align_up tls.memsz tls.align
      ok (some (wrapping_sub ((sym_value + r_addend) % u64_mod) size)))
    if r_sym == 0 then place 0 else (do
      found ← symbol_offset o r_sym
      elim found [
        | none ↦ ok none
        | some sym_off ↦ do sym_value ← word 8 o.bytes (sym_off + 8); place sym_value
      ])
]

-- The address of a defined symbol, and of `__curbrk`.
unfoldable pub symbol_value : LoadedObject → ℕ → ℕ → Result (Option ℕ)
unfolding symbol_offset is_curbrk word
symbol_value o r_sym r_addend = do
  found ← symbol_offset o r_sym
  elim found [
    | none ↦ ok none
    | some sym_off ↦ do
      st_name ← word 4 o.bytes sym_off
      st_shndx ← word 2 o.bytes (sym_off + 6)
      st_value ← word 8 o.bytes (sym_off + 8)
      if st_shndx == 0
          then (do
            curbrk ← is_curbrk o st_name
            ok (if curbrk then some ((o.addr + 0x222218) % u64_mod) else none))
          else ok (some (((o.addr + st_value) % u64_mod + r_addend) % u64_mod))
  ]

-- The value of an entry, or none where it is skipped.
unfoldable pub reloc_value : LoadedObject → ℕ → ℕ → ℕ → Result (Option ℕ)
unfolding tls_value symbol_value
reloc_value o r_type r_sym r_addend =
    if r_type == 8 || r_type == 37
    then ok (some ((o.addr + r_addend) % u64_mod))
    else (if r_type == 18
        then tls_value o r_sym r_addend
        else (if r_type == 6 || r_type == 7 || r_type == 2
            then symbol_value o r_sym r_addend
            else ok none))

-- The program headers, where the file has a complete table.
unfoldable pub program_headers : List ℕ → Result Segments
unfolding scan_headers word
program_headers bytes = if ltb (length bytes) 64 then ok no_segments else do
  e_phoff ← word 8 bytes 32
  e_phentsize ← word 2 bytes 54
  e_phnum ← word 2 bytes 56
  if e_phnum == 0 || ltb e_phentsize 56 then ok no_segments else (do
    ph_end ←
        ok_or (checked_add e_phoff (e_phnum * e_phentsize)) (other "ELF program header 范围溢出" [])
    if ltb (length bytes) ph_end
        then ok no_segments
        else scan_headers bytes e_phentsize e_phoff no_segments e_phnum)
