-- ===== src/Bridge/Files.antt =====
-- The calls of crates/daoti-core/src/elf/syscall_bridge.rs on open files: `read`, `pread64`, `fstat`
-- and `newfstatat`. The map from descriptors to files is an association list without repeated keys.
use yl.Prelude.{
  ℕ, ◌+◌, ◌-◌, ◌/◌, min, Bool, true, false, Option, none, some, List, [], ◌∷◌, ◌++◌, leb, ◌==◌,
  if◌then◌else◌, length, take, drop, replicate, Result, ok, panic, ◌>>=◌, ok_or, saturating_add,
  other,
}
use yl.Prelude.Bytes.{to_le}
use yl.Prelude.Int.{pos, signed64}
use yl.Memory.{MemoryModel, write}
use yl.Bridge.{Host, RuntimeSyscallEvent, OpenFile, NativeSyscallBridge, Reply, as_i32}

-- `files.get(&fd)`
unfoldable pub get_file : List (ℕ × OpenFile) → ℕ → Option OpenFile
get_file [] fd = none
get_file (f ∷ files) fd = let rest = get_file files fd in if f.0 == fd then some f.1 else rest

-- `*offset = end`
unfoldable pub set_offset : List (ℕ × OpenFile) → ℕ → ℕ → List (ℕ × OpenFile)
set_offset [] fd stop = []
set_offset (f ∷ files) fd stop =
    let rest = set_offset files fd stop in
    if f.0 == fd then (f.0, record f.1 { offset = stop }) ∷ files else f ∷ rest

-- `&bytes[start..end]`
unfoldable pub bytes_between : List ℕ → ℕ → ℕ → Result (List ℕ)
bytes_between bytes start stop =
    if leb start stop
    then (if leb stop (length bytes) then ok (take (stop - start) (drop start bytes)) else panic)
    else panic

-- `start.saturating_add(count).min(bytes.len())`
abbrev pub read_end : List ℕ → ℕ → ℕ → ℕ
read_end bytes start count = min (saturating_add start count) (length bytes)

-- `read`, and `pread64` where `positioned` is set.
unfoldable pub sys_read :
    Bool → Host → RuntimeSyscallEvent → NativeSyscallBridge → MemoryModel → Reply
unfolding get_file set_offset bytes_between write
sys_read positioned host ev b m = do
  let fd = as_i32 ev.arg0
  file ← ok_or (get_file b.files fd) (other "无效文件描述符" [])
  let start = if positioned then ev.arg3 else file.offset
  let stop = read_end file.bytes start ev.arg2
  chunk ← bytes_between file.bytes start stop
  m' ← write host.fix_ns_loaded m ev.arg1 chunk
  let files = if positioned then b.files else set_offset b.files fd stop
  ok (signed64 (stop - start), record b { files = files }, m')

-- `struct stat` with its fields at 8, 16, 20, 48, 56 and 64, and zeros elsewhere.
unfoldable pub stat_bytes : ℕ → ℕ → List ℕ
unfolding to_le replicate
stat_bytes size blocks =
    replicate 8 0
    ++ to_le 8 1
    ++ to_le 4 0x8000
    ++ to_le 4 1
    ++ replicate 24 0
    ++ to_le 8 size
    ++ to_le 8 4096
    ++ to_le 8 blocks
    ++ replicate 72 0

-- The size and the blocks that are filled in: those of an open file, for `newfstatat` only.
unfoldable pub stat_of : Bool → Option OpenFile → List ℕ
unfolding stat_bytes
stat_of false file = stat_bytes 0 0
stat_of true none = stat_bytes 0 0
stat_of true (some file) = stat_bytes (length file.bytes) ((length file.bytes + 511) / 512)

-- `fstat`, and `newfstatat` where `at` is set.
unfoldable pub sys_stat :
    Bool → Host → RuntimeSyscallEvent → NativeSyscallBridge → MemoryModel → Reply
unfolding get_file stat_of write
sys_stat at host ev b m = do
  let file = get_file b.files (as_i32 ev.arg0)
  m' ← write host.fix_ns_loaded m (if at then ev.arg2 else ev.arg1) (stat_of at file)
  ok (pos 0, b, m')
