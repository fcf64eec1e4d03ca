-- ===== src/Bridge/Dispatch.antt =====
-- `handle_with_memory_inner` of crates/daoti-core/src/elf/syscall_bridge.rs: the choice of the call
-- by its number, and runs of calls.
use yl.Prelude.{◌%◌, ◌&&◌, ◌||◌, List, [], ◌∷◌, ◌==◌, if◌then◌else◌, Result, ok, ◌>>=◌}
use yl.Prelude.Int.{ℤ, pos, negsuc}
use yl.Memory.{MemoryModel}
use yl.Bridge.{Host, RuntimeSyscallEvent, NativeSyscallBridge, Reply, handle}
use yl.Bridge.Paths.{sys_access, sys_openat}
use yl.Bridge.Files.{sys_read, sys_stat}
use yl.Bridge.Output.{sys_write, sys_writev}
use yl.Bridge.Replies.{
  sys_mprotect, sys_getrlimit, sys_prlimit64, sys_brk, sys_getrandom, sys_sigprocmask,
  sys_clock_gettime,
}
use yl.Bridge.Tls.{sys_get_fs, sys_set_fs}
use yl.Bridge.Maps.{sys_mmap}

-- `self.handle(event)`, which leaves the memory alone.
abbrev pub without_memory : RuntimeSyscallEvent → NativeSyscallBridge → MemoryModel → Reply
without_memory ev b m = do (value, b') ← handle ev b; ok (value, b', m)

-- The calls behind `mmap` in the order of the source.
unfoldable pub handle_late : Host → RuntimeSyscallEvent → NativeSyscallBridge → MemoryModel → Reply
unfolding handle sys_getrlimit sys_prlimit64 sys_brk sys_getrandom sys_sigprocmask sys_clock_gettime
    sys_writev sys_write
handle_late host ev b m =
    if ev.nr == 163
    then sys_getrlimit host ev b m
    else (if ev.nr == 302
        then sys_prlimit64 host ev b m
        else (if ev.nr == 12
            then sys_brk ev b m
            else (if ev.nr == 318
                then sys_getrandom host ev b m
                else (if ev.nr == 14
                    then sys_sigprocmask host ev b m
                    else (if ev.nr == 228
                        then sys_clock_gettime host ev b m
                        else (if ev.nr == 20
                            then sys_writev ev b m
                            else (if ev.nr == 1
                                then sys_write ev b m
                                else without_memory ev b m)))))))

-- `arch_prctl`, `futex` and `mmap`.
unfoldable pub handle_middle :
    Host → RuntimeSyscallEvent → NativeSyscallBridge → MemoryModel → Reply
unfolding handle sys_get_fs sys_set_fs sys_mmap handle_late
handle_middle host ev b m =
    if ev.nr == 158 && ev.arg0 == 0x3001
    then ok (pos 0, b, m)
    else (if ev.nr == 158 && ev.arg0 == 0x1003
        then sys_get_fs host ev b m
        else (if ev.nr == 158 && ev.arg0 == 0x1002
            then sys_set_fs host ev b m
            else (if ev.nr == 202 && ev.arg1 % 128 == 0
                then ok (negsuc 10, b, m)
                else (if ev.nr == 9 then sys_mmap host ev b m else handle_late host ev b m))))

unfoldable pub handle_with_memory :
    Host → RuntimeSyscallEvent → NativeSyscallBridge → MemoryModel → Reply
unfolding sys_access sys_openat sys_read sys_stat sys_mprotect handle_middle
handle_with_memory host ev b m =
    if ev.nr == 21
    then sys_access host ev b m
    else (if ev.nr == 257
        then sys_openat host ev b m
        else (if ev.nr == 3
            then ok (pos 0, b, m)
            else (if ev.nr == 0 || ev.nr == 17
                then sys_read (ev.nr == 17) host ev b m
                else (if ev.nr == 5 || ev.nr == 262
                    then sys_stat (ev.nr == 262) host ev b m
                    else (if ev.nr == 10
                        then sys_mprotect ev b m
                        else handle_middle host ev b m)))))

-- The calls of a guest one after the other, each with the host as it is then. The first error or
-- panic ends the run, as it ends the interpreter.
unfoldable pub run_calls :
    List (Host × RuntimeSyscallEvent)
    → NativeSyscallBridge
    → MemoryModel
    → Result (List ℤ × NativeSyscallBridge × MemoryModel)
unfolding handle_with_memory
run_calls [] b m = ok ([], b, m)
run_calls (call ∷ calls) b m = do
  (value, b₁, m₁) ← handle_with_memory call.0 call.1 b m
  (values, b₂, m₂) ← run_calls calls b₁ m₁
  ok (value ∷ values, b₂, m₂)
