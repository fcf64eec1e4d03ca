-- ===== src/Bridge/Paths.antt =====
-- The calls of crates/daoti-core/src/elf/syscall_bridge.rs that take a path: `resolve_guest_path`,
-- `access` and `openat`. A file is looked up below the allowed roots.
use yl.Prelude.{
  ℕ, zero, suc, ◌+◌, true, false, DaotiError, Option, none, some, List, [], ◌∷◌, ◌||◌, ◌&&◌, not,
  ltb, ◌==◌, if◌then◌else◌, get_or, find, Result, ok, panic, ◌>>=◌, ◌>>◌, require, ok_or, add_u64,
  other, unavailable, io,
}
use yl.Prelude.Int.{pos, negsuc, signed64}
use yl.Prelude.Utf8.{is_utf8}
use yl.Memory.{MemoryModel, read}
use yl.Bridge.{GuestPath, Host, RuntimeSyscallEvent, NativeSyscallBridge, Reply, as_i32}
use yl.Bridge.Bits.{has}

-- The loop over `index`, at most 4096 bytes up to the first 0.
unfoldable pub read_path : MemoryModel → ℕ → ℕ → ℕ → Result GuestPath
unfolding read
read_path m base index zero = ok []
read_path m base index (suc left) = do
  at ← add_u64 base index
  one ← read m at 1
  elim (get_or one 0 0 == 0) [
    | true ↦ ok []
    | false ↦ do rest ← read_path m base (suc index) left; ok (get_or one 0 0 ∷ rest)
  ]

-- The path of a call, which has to be UTF-8.
unfoldable pub path_at : MemoryModel → ℕ → DaotiError → Result GuestPath
unfolding read_path
path_at m base malformed = do raw ← read_path m base 0 4096; require (is_utf8 raw) malformed; ok raw

-- For each root the base name first, then the whole path.
unfoldable pub candidates : Host → List GuestPath → GuestPath → List GuestPath
candidates host [] path = []
candidates host (root ∷ roots) path =
    let rest = host.join root (host.strip_root path) ∷ candidates host roots path in
    elim (host.file_name path) [ none ↦ rest | some name ↦ host.join root name ∷ rest ]

unfoldable pub resolve_guest_path : Host → NativeSyscallBridge → GuestPath → Option GuestPath
unfolding candidates
resolve_guest_path host b path = find host.is_file (candidates host b.allowed_roots path)

unfoldable pub sys_access : Host → RuntimeSyscallEvent → NativeSyscallBridge → MemoryModel → Reply
unfolding path_at resolve_guest_path
sys_access host ev b m = do
  path ← path_at m ev.arg0 (other "access 路径不是 UTF-8" [])
  elim (resolve_guest_path host b path) [
    | none ↦ ok (negsuc 1, b, m)
    | some candidate ↦
        if has ev.arg1 4 && not (host.metadata candidate)
        then ok (negsuc 12, b, m)
        else (if has ev.arg1 2 || has ev.arg1 1 then ok (negsuc 12, b, m) else ok (pos 0, b, m))
  ]

-- The descriptor that an open file gets; `next_fd` stays an `i32`.
unfoldable pub insert_file : NativeSyscallBridge → List ℕ → Result NativeSyscallBridge
insert_file b bytes =
    if ltb (b.next_fd + 1) 2147483648
    then ok (record b {
      files = (b.next_fd, record { bytes = bytes; offset = 0 }) ∷ b.files;
      next_fd = b.next_fd + 1;
    })
    else panic

unfoldable pub sys_openat : Host → RuntimeSyscallEvent → NativeSyscallBridge → MemoryModel → Reply
unfolding path_at resolve_guest_path insert_file
sys_openat host ev b m = do
  require (as_i32 ev.arg0 == 4294967196) (unavailable "openat 仅支持 AT_FDCWD" [])
  path ← path_at m ev.arg1 (other "openat 路径不是 UTF-8" [])
  elim (resolve_guest_path host b path) [
    | none ↦ ok (negsuc 1, b, m)
    | some candidate ↦ do
      bytes ← ok_or (host.read_file candidate) io
      b' ← insert_file b bytes
      ok (signed64 b.next_fd, b', m)
  ]
