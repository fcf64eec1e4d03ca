-- ===== src/Bridge/Output.antt =====
-- The output of crates/daoti-core/src/elf/syscall_bridge.rs: `write`, `writev` and `capture_stdout`,
-- which append bytes of the memory to the sink.
use yl.Prelude.{
  ℕ, zero, suc, ◌-◌, ◌*◌, ◌&&◌, not, List, [], ◌∷◌, ◌++◌, ltb, ◌==◌, if◌then◌else◌, take, drop,
  Result, ok, ◌>>=◌, ◌>>◌, require, add_u64, unavailable,
}
use yl.Prelude.Bytes.{from_le}
use yl.Prelude.Int.{signed64}
use yl.Memory.{MemoryModel, read}
use yl.Bridge.{RuntimeSyscallEvent, NativeSyscallBridge, Reply}

-- `BufferSink::write_all`
abbrev pub write_all : NativeSyscallBridge → List ℕ → NativeSyscallBridge
write_all b bytes = record b { sink = b.sink ++ bytes }

unfoldable pub sys_write : RuntimeSyscallEvent → NativeSyscallBridge → MemoryModel → Reply
unfolding read
sys_write ev b m = do
  require (not (not (ev.arg0 == 1) && not (ev.arg0 == 2)))
      (unavailable "write 仅支持 stdout/stderr，fd={fd}" (ev.arg0 ∷ []))
  bytes ← read m ev.arg1 ev.arg2
  ok (signed64 ev.arg2, write_all b bytes, m)

-- The loop over the vectors: `count` of them from the `i`th on, and the total so far.
unfoldable pub write_vectors :
    MemoryModel → ℕ → ℕ → ℕ → NativeSyscallBridge → ℕ → Result (ℕ × NativeSyscallBridge)
unfolding read from_le
write_vectors m base i total b zero = ok (total, b)
write_vectors m base i total b (suc count) = do
  at ← add_u64 base (i * 16)
  raw ← read m at 16
  let size = from_le (drop 8 raw)
  bytes ← read m (from_le (take 8 raw)) size
  total' ← add_u64 total size
  write_vectors m base (suc i) total' (write_all b bytes) count

unfoldable pub sys_writev : RuntimeSyscallEvent → NativeSyscallBridge → MemoryModel → Reply
unfolding write_vectors
sys_writev ev b m = do
  require (not (not (ev.arg0 == 1) && not (ev.arg0 == 2)))
      (unavailable "writev 仅支持 stdout/stderr，fd={fd}" (ev.arg0 ∷ []))
  (total, b') ← write_vectors m ev.arg1 0 0 b ev.arg2
  ok (signed64 total, b', m)

-- The bytes between the base and the pointer of the guest's output buffer.
unfoldable pub capture_stdout : MemoryModel → ℕ → NativeSyscallBridge → Result NativeSyscallBridge
unfolding read from_le
capture_stdout m stdout b = do
  at ← add_u64 stdout 0x20
  fields ← read m at 16
  let write_base = from_le (take 8 fields)
  let write_ptr = from_le (drop 8 fields)
  if ltb write_base write_ptr
      then (do bytes ← read m write_base (write_ptr - write_base); ok (write_all b bytes))
      else ok b
