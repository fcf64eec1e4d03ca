-- ===== src/Bridge/Maps.antt =====
-- `mmap` in `handle_with_memory_inner` of crates/daoti-core/src/elf/syscall_bridge.rs: anonymous
-- memory, and copies of open files, where an ELF file is laid out by its segments and relocated.
use yl.Prelude.{
  ℕ, ◌*◌, ◌/◌, ◌%◌, min, max, Bool, ◌&&◌, ◌||◌, not, Option, none, some, List, [], ◌∷◌, ltb, leb,
  ◌==◌, if◌then◌else◌, length, get_or, Result, ok, ◌>>=◌, ◌>>◌, require, ok_or, checked_add,
  saturating_add, add_u64, other, unavailable,
}
use yl.Prelude.Bytes.{to_le}
use yl.Prelude.Int.{signed64}
use yl.Memory.{MemoryModel, rw_perm, read, write, mprotect, mmap_anonymous_private_topdown}
use yl.Elf.{ElfSegment, is_load}
use yl.Elf.Parse.{parse_elf_from_bytes}
use yl.Bridge.{Host, RuntimeSyscallEvent, ElfTlsImage, NativeSyscallBridge, Reply, as_i32}
use yl.Bridge.Bits.{has, perm_of}
use yl.Bridge.Files.{get_file, bytes_between}
use yl.Bridge.Relocs.{TlsLayout}
use yl.Bridge.Relocs.Apply.{apply_elf_runtime_relocations}

-- A 64-bit little-endian ELF file by its first six bytes.
abbrev pub is_mapped_elf : List ℕ → Bool
is_mapped_elf bytes =
    get_or bytes 0 0 == 0x7f
    && (get_or bytes 1 0 == 0x45
        && (get_or bytes 2 0 == 0x4c
            && (get_or bytes 3 0 == 0x46 && (get_or bytes 4 0 == 2 && get_or bytes 5 0 == 1))))

-- The largest `vaddr + memsz` of the loadable segments, if there is one.
unfoldable pub virtual_end : List ElfSegment → Option ℕ
virtual_end [] = none
virtual_end (s ∷ ss) =
    let rest = virtual_end ss in
    let stop = saturating_add s.vaddr s.memsz in
    if is_load s then elim rest [ none ↦ some stop | some far ↦ some (max stop far) ] else rest

abbrev pub unwrap_or : Option ℕ → ℕ → ℕ
unwrap_or none d = d
unwrap_or (some x) d = x

-- `requested.max(virtual_end).saturating_add(4095) / 4096 * 4096`
unfoldable pub elf_length : List ElfSegment → ℕ → ℕ
unfolding virtual_end
elf_length segments requested =
    saturating_add (max requested (unwrap_or (virtual_end segments) requested)) 4095 / 4096 * 4096

-- The copy of a segment's file part.
unfoldable pub copy_segment : Bool → List ℕ → ℕ → ℕ → ElfSegment → MemoryModel → Result MemoryModel
unfolding bytes_between write
copy_segment fix bytes addr mapped_len s m = do
  segment_end ← ok_or (checked_add s.offset s.filesz) (other "ELF PT_LOAD 文件范围溢出" [])
  require (leb segment_end (length bytes)) (other "ELF PT_LOAD 超出文件边界" [])
  target ← ok_or (checked_add addr s.vaddr) (other "ELF PT_LOAD 运行时地址溢出" [])
  require (leb (saturating_add target s.filesz) (saturating_add addr mapped_len))
      (other "ELF PT_LOAD 超出 mmap 范围" [])
  chunk ← bytes_between bytes s.offset segment_end
  write fix m target chunk

-- The loop over the segments, which passes over those that are not loadable.
unfoldable pub copy_segments :
    Bool → List ℕ → ℕ → ℕ → List ElfSegment → MemoryModel → Result MemoryModel
unfolding copy_segment
copy_segments fix bytes addr mapped_len [] m = ok m
copy_segments fix bytes addr mapped_len (s ∷ ss) m = do
  m' ← if is_load s then copy_segment fix bytes addr mapped_len s m else ok m
  copy_segments fix bytes addr mapped_len ss m'

-- The image of the static block, read back after the relocation.
unfoldable pub tls_image :
    Option TlsLayout → ℕ → MemoryModel → Option ElfTlsImage → Result (Option ElfTlsImage)
unfolding read
tls_image none addr m old = ok old
tls_image (some tls) addr m old = do
  image_addr ← ok_or (checked_add addr tls.vaddr) (other "ELF PT_TLS 地址溢出" [])
  image ← read m image_addr tls.filesz
  ok (some (record { image = image; memsz = tls.memsz; align = tls.align }))

-- What an ELF file adds to its mapping: segments, relocations, the image of the static block and
-- the variable that holds the program break.
unfoldable pub load_elf :
    Bool
    → List ℕ
    → ℕ
    → ℕ
    → NativeSyscallBridge
    → MemoryModel
    → Result (NativeSyscallBridge × MemoryModel)
unfolding parse_elf_from_bytes copy_segments apply_elf_runtime_relocations tls_image write to_le
load_elf fix bytes addr mapped_len b m = do
  info ← parse_elf_from_bytes bytes
  m₁ ← copy_segments fix bytes addr mapped_len info.segments m
  (m₂, tls) ← apply_elf_runtime_relocations fix m₁ bytes addr
  image ← tls_image tls addr m₂ b.elf_tls
  curbrk ← add_u64 addr 0x222218
  m₃ ← write fix m₂ curbrk (to_le 8 b.current_brk)
  ok (record b { elf_tls = image }, m₃)

-- The bytes of another file, as far as the file goes.
unfoldable pub load_plain : Bool → List ℕ → ℕ → ℕ → ℕ → MemoryModel → Result MemoryModel
unfolding bytes_between write
load_plain fix bytes addr offset copy_end m =
    if ltb offset copy_end
    then (do chunk ← bytes_between bytes offset copy_end; write fix m addr chunk)
    else ok m

-- `requested_perm != MemPerm::rw()`
abbrev pub is_rw : ℕ → Bool
is_rw prot = has prot 1 && (has prot 2 && not (has prot 4))

unfoldable pub protect_plain : ℕ → ℕ → ℕ → MemoryModel → Result MemoryModel
unfolding mprotect
protect_plain prot addr len m = if is_rw prot then ok m else do
  padded ← ok_or (checked_add len 4095) (other "mmap 长度对齐溢出" [])
  mprotect m addr (padded / 4096 * 4096) (perm_of prot)

abbrev pub mapped_length : List ℕ → ℕ → Result ℕ
mapped_length bytes len =
    if is_mapped_elf bytes
    then (parse_elf_from_bytes bytes >>= (λ info. ok (elf_length info.segments len)))
    else ok len

-- What is put into the new mapping at `addr`.
unfoldable pub fill_mapping :
    Bool
    → List ℕ
    → RuntimeSyscallEvent
    → ℕ
    → ℕ
    → ℕ
    → NativeSyscallBridge
    → MemoryModel
    → Result (NativeSyscallBridge × MemoryModel)
unfolding load_elf load_plain protect_plain
fill_mapping fix bytes ev copy_end addr mapped_len b m =
    if is_mapped_elf bytes then load_elf fix bytes addr mapped_len b m else do
      m₁ ← load_plain fix bytes addr ev.arg5 copy_end m
      m₂ ← protect_plain ev.arg2 addr ev.arg1 m₁
      ok (b, m₂)

unfoldable pub mmap_file : Host → RuntimeSyscallEvent → NativeSyscallBridge → MemoryModel → Reply
unfolding get_file elf_length parse_elf_from_bytes mmap_anonymous_private_topdown fill_mapping
mmap_file host ev b m = do
  file ← ok_or (get_file b.files (as_i32 ev.arg4)) (other "无效 mmap 文件描述符" [])
  stop ← ok_or (checked_add ev.arg5 ev.arg1) (other "mmap 文件范围溢出" [])
  require (ltb ev.arg2 8) (other "mmap 保护标志无效" [])
  mapped_len ← mapped_length file.bytes ev.arg1
  (addr, m₁) ← mmap_anonymous_private_topdown m mapped_len rw_perm
  (b', m₂) ←
      fill_mapping host.fix_ns_loaded file.bytes ev (min stop (length file.bytes)) addr mapped_len b
        m₁
  ok (signed64 addr, b', m₂)

-- `event.args[4] == u64::MAX || event.args[4] == u32::MAX as u64`
abbrev pub anonymous_fd : RuntimeSyscallEvent → Bool
anonymous_fd ev = ev.arg4 == 18446744073709551615 || ev.arg4 == 4294967295

unfoldable pub mmap_anonymous : RuntimeSyscallEvent → NativeSyscallBridge → MemoryModel → Reply
unfolding mmap_anonymous_private_topdown
mmap_anonymous ev b m = do
  require (has ev.arg3 2 && (has ev.arg3 32 && (anonymous_fd ev && ev.arg5 == 0)))
      (unavailable "仅支持匿名私有 mmap 映射" (ev.arg0 ∷ ev.arg1 ∷ ev.arg3 ∷ ev.arg4 ∷ ev.arg5 ∷ []))
  require (ltb ev.arg2 8) (other "mmap 保护标志无效" [])
  (addr, m') ← mmap_anonymous_private_topdown m ev.arg1 (perm_of ev.arg2)
  ok (signed64 addr, b, m')

unfoldable pub sys_mmap : Host → RuntimeSyscallEvent → NativeSyscallBridge → MemoryModel → Reply
unfolding mmap_file mmap_anonymous
sys_mmap host ev b m =
    if not (anonymous_fd ev) && ev.arg5 % 4096 == 0
    then mmap_file host ev b m
    else mmap_anonymous ev b m
