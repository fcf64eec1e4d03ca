-- ===== src/Bridge/Tls.antt =====
-- `arch_prctl` in `handle_with_memory_inner` of crates/daoti-core/src/elf/syscall_bridge.rs: the base
-- of thread-local storage, and the block around it that is set up with it.
use yl.Prelude.{
  ℕ, ◌+◌, ◌-◌, ◌*◌, ◌/◌, ◌%◌, Option, none, some, [], replicate, Result, ok, err, panic, ◌>>=◌,
  ok_or, add_u64, u64_mod, unavailable,
}
use yl.Prelude.Bytes.{to_le}
use yl.Prelude.Int.{pos}
use yl.Memory.{MemoryModel, MemoryRegion, rw_perm, read, write, add_region}
use yl.Bridge.{Host, RuntimeSyscallEvent, ElfTlsImage, NativeSyscallBridge, Reply, handle}
use yl.Bridge.Bits.{align_up}

-- `value.wrapping_sub(by)` on 64-bit words.
abbrev pub wrapping_sub : ℕ → ℕ → ℕ
wrapping_sub value by = (value + (u64_mod - by)) % u64_mod

abbrev pub zero_page : ℕ → MemoryRegion
zero_page page = record { base = page; perm = rw_perm; bytes = replicate 4096 0 }

-- A page of zeros at `page`, where its first eight bytes cannot be read.
unfoldable pub ensure_page : MemoryModel → ℕ → Result MemoryModel
unfolding read add_region replicate
ensure_page m page = elim (read m page 8) [
  | panic ↦ panic
  | ok bytes ↦ ok m
  | err e ↦ add_region m (zero_page page)
]

unfoldable pub sys_get_fs : Host → RuntimeSyscallEvent → NativeSyscallBridge → MemoryModel → Reply
unfolding write to_le
sys_get_fs host ev b m = do
  fs ← ok_or b.fs_base (unavailable "FS 基址尚未设置" [])
  m' ← write host.fix_ns_loaded m ev.arg1 (to_le 8 fs)
  ok (pos 0, b, m')

-- The initial image of the static block, below `fs`.
unfoldable pub place_image : Host → ℕ → Option ElfTlsImage → MemoryModel → Result MemoryModel
unfolding align_up ensure_page write
place_image host fs none m = ok m
place_image host fs (some tls) m = do
  tls_off ← align_up tls.memsz tls.align
  let block_start = wrapping_sub fs tls_off
  m' ← ensure_page m (block_start / 4096 * 4096)
  write host.fix_ns_loaded m' block_start tls.image

unfoldable pub place_locale : Host → ℕ → Option ℕ → MemoryModel → Result MemoryModel
unfolding write to_le
place_locale host fs none m = ok m
place_locale host fs (some locale) m =
    write host.fix_ns_loaded m (wrapping_sub fs 0x60) (to_le 8 locale)

-- The pages that the C library writes above `fs`.
unfoldable pub ensure_slots : ℕ → MemoryModel → Result MemoryModel
unfolding ensure_page
ensure_slots fs m = do
  low ← add_u64 fs 0x4000
  m' ← ensure_page m (low / 4096 * 4096)
  high ← add_u64 fs 0x5000
  ensure_page m' (high / 4096 * 4096)

-- Both guards, and the pointer to itself at `fs`.
unfoldable pub place_guards : Host → ℕ → NativeSyscallBridge → MemoryModel → Result MemoryModel
unfolding write to_le
place_guards host fs b m = do
  pointer_at ← add_u64 fs 0x30
  m₁ ← write host.fix_ns_loaded m pointer_at (to_le 8 b.pointer_guard)
  stack_at ← add_u64 fs 0x28
  m₂ ← write host.fix_ns_loaded m₁ stack_at (to_le 8 b.stack_guard)
  write host.fix_ns_loaded m₂ fs (to_le 8 fs)

unfoldable pub sys_set_fs : Host → RuntimeSyscallEvent → NativeSyscallBridge → MemoryModel → Reply
unfolding place_image place_locale ensure_slots place_guards handle
sys_set_fs host ev b m = do
  let fs = ev.arg1
  m₁ ← ensure_slots fs m
  m₂ ← place_image host fs b.elf_tls m₁
  m₃ ← place_locale host fs b.tls_locale m₂
  m₄ ← place_guards host fs b m₃
  (value, b') ← handle ev b
  ok (value, b', m₄)
