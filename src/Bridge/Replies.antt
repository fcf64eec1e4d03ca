-- ===== src/Bridge/Replies.antt =====
-- The calls of crates/daoti-core/src/elf/syscall_bridge.rs that fill in a result or move a limit:
-- `mprotect`, `getrlimit`, `prlimit64`, `brk`, `getrandom`, `rt_sigprocmask` and `clock_gettime`.
use yl.Prelude.{
  ℕ, zero, suc, ◌+◌, ◌-◌, ◌*◌, ◌/◌, ◌%◌, ◌&&◌, Option, none, some, List, [], ◌∷◌, ◌++◌, ltb, ◌==◌,
  ◌||◌, if◌then◌else◌, replicate, ok, ◌>>=◌, ◌>>◌, require, ok_or, u64_mod, other, unavailable,
}
use yl.Prelude.Bytes.{to_le}
use yl.Prelude.Int.{pos, signed64}
use yl.Memory.{MemoryModel, write, mprotect}
use yl.Bridge.{Host, RuntimeSyscallEvent, NativeSyscallBridge, Reply}
use yl.Bridge.Bits.{perm_of}

unfoldable pub sys_mprotect : RuntimeSyscallEvent → NativeSyscallBridge → MemoryModel → Reply
unfolding mprotect
sys_mprotect ev b m = if ev.arg1 == 0 then ok (pos 0, b, m) else do
  require (ltb ev.arg2 8) (other "mprotect 保护标志无效" [])
  m' ← mprotect m ev.arg0 ev.arg1 (perm_of ev.arg2)
  ok (pos 0, b, m')

-- A write to memory with the result 0.
abbrev pub fill : Host → ℕ → List ℕ → NativeSyscallBridge → MemoryModel → Reply
fill host addr bytes b m = do m' ← write host.fix_ns_loaded m addr bytes; ok (pos 0, b, m')

-- The current and the largest value of a resource are equal.
unfoldable pub limit_of : ℕ → Option ℕ
limit_of resource =
    if resource == 3
    then some 0x800000
    else (if resource == 2 || resource == 9 then some (u64_mod - 2) else none)

unfoldable pub sys_getrlimit :
    Host → RuntimeSyscallEvent → NativeSyscallBridge → MemoryModel → Reply
unfolding limit_of write to_le
sys_getrlimit host ev b m = do
  cur ← ok_or (limit_of ev.arg0) (unavailable "未实现的 getrlimit 资源：{}" (ev.arg0 ∷ []))
  fill host ev.arg1 (to_le 8 cur ++ to_le 8 cur) b m

unfoldable pub sys_prlimit64 :
    Host → RuntimeSyscallEvent → NativeSyscallBridge → MemoryModel → Reply
unfolding limit_of write to_le
sys_prlimit64 host ev b m =
    if ev.arg0 == 0 && ev.arg2 == 0
    then (do
      cur ← ok_or (limit_of ev.arg1) (unavailable "未实现的 prlimit64 资源：{}" (ev.arg1 ∷ []))
      fill host ev.arg3 (to_le 8 cur ++ to_le 8 cur) b m)
    else ok (pos 0, b, m)

unfoldable pub sys_brk : RuntimeSyscallEvent → NativeSyscallBridge → MemoryModel → Reply
sys_brk ev b m =
    if ev.arg0 == 0
    then ok (signed64 b.current_brk, b, m)
    else (if ltb b.heap_end ev.arg0
        then ok (signed64 b.current_brk, b, m)
        else ok (signed64 ev.arg0, record b { current_brk = ev.arg0 }, m))

-- `count` bytes from the `index`th on.
unfoldable pub random_bytes : ℕ → ℕ → ℕ → List ℕ
random_bytes address index zero = []
random_bytes address index (suc count) =
    (((address + index) % u64_mod * 0x9e3779b9) % u64_mod / 16777216) % 256
    ∷ random_bytes address (suc index) count

unfoldable pub sys_getrandom :
    Host → RuntimeSyscallEvent → NativeSyscallBridge → MemoryModel → Reply
unfolding random_bytes write
sys_getrandom host ev b m = do
  m' ← write host.fix_ns_loaded m ev.arg0 (random_bytes ev.arg0 0 ev.arg1)
  ok (signed64 ev.arg1, b, m')

unfoldable pub sys_sigprocmask :
    Host → RuntimeSyscallEvent → NativeSyscallBridge → MemoryModel → Reply
unfolding write replicate
sys_sigprocmask host ev b m =
    if ev.arg2 == 0 then ok (pos 0, b, m) else fill host ev.arg2 (replicate 128 0) b m

unfoldable pub sys_clock_gettime :
    Host → RuntimeSyscallEvent → NativeSyscallBridge → MemoryModel → Reply
unfolding write to_le replicate
sys_clock_gettime host ev b m = do
  (sec, nsec) ← ok_or host.now (other "系统时间不可用：{e}" [])
  fill host ev.arg1 (to_le 8 sec ++ to_le 4 nsec ++ replicate 4 0) b m
