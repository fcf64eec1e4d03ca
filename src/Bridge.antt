-- ===== src/Bridge.antt =====
-- The syscall bridge, crates/daoti-core/src/elf/syscall_bridge.rs: `NativeSyscallBridge`, its
-- builders, and `handle`, the calls that need no memory. The output sink is `BufferSink`, the bytes
-- that were written so far. The observer, which only sees the result, and the trace output are left
-- out, and so is the field `main_ptload_ranges` that only the trace reads.
pub mod Paths
pub mod Files
pub mod Output
pub mod Replies
pub mod Tls
pub mod Bits
pub mod Relocs
pub mod Maps
pub mod Dispatch
pub mod Moves
pub mod Kept
pub mod Calls
pub mod Runs
pub mod Breaks
pub mod Transfers
pub mod Vectors
pub mod Unknown
pub mod Align
pub mod Copies
pub mod Guards
mod Tests
use yl.Prelude.{
  ℕ, ◌+◌, ◌%◌, Bool, ◌&&◌, ◌||◌, Option, none, some, List, [], ◌∷◌, ltb, ◌==◌, if◌then◌else◌,
  Result, ok, err, panic, ◌>>=◌, unavailable,
}
use yl.Prelude.Int.{ℤ, pos, negsuc}
use yl.Memory.{MemoryModel}

abbrev pub GuestPath : Type 0
GuestPath = List ℕ

-- What the program takes from its host: paths, the files behind them, the clock and the variable
-- DAOTI_FIX_NS_LOADED_WRITE. `strip_root` is `strip_prefix("/").unwrap_or(path)`, `metadata` says
-- whether `std::fs::metadata` succeeds, `now` is the time since 1970 in seconds and nanoseconds.
pub record Host : Type 0 where
  pub fix_ns_loaded : Bool
  pub strip_root : GuestPath → GuestPath
  pub file_name : GuestPath → Option GuestPath
  pub join : GuestPath → GuestPath → GuestPath
  pub is_file : GuestPath → Bool
  pub metadata : GuestPath → Bool
  pub read_file : GuestPath → Option (List ℕ)
  pub now : Option (ℕ × ℕ)

-- `args` is an array of six words.
pub record RuntimeSyscallEvent : Type 0 where
  pub nr : ℕ
  pub arg0 : ℕ
  pub arg1 : ℕ
  pub arg2 : ℕ
  pub arg3 : ℕ
  pub arg4 : ℕ
  pub arg5 : ℕ

-- An entry of `files`: the content and the offset of the next `read`.
pub record OpenFile : Type 0 where
  pub bytes : List ℕ
  pub offset : ℕ

pub record ElfTlsImage : Type 0 where
  pub image : List ℕ
  pub memsz : ℕ
  pub align : ℕ

-- A descriptor and an exit code are 32-bit words, the pattern of an `i32`.
pub record NativeSyscallBridge : Type 0 where
  pub sink : List ℕ
  pub exit_code : Option ℕ
  pub fs_base : Option ℕ
  pub heap_start : ℕ
  pub current_brk : ℕ
  pub heap_end : ℕ
  pub tls_locale : Option ℕ
  pub clear_child_tid : Option ℕ
  pub pointer_guard : ℕ
  pub stack_guard : ℕ
  pub allowed_roots : List GuestPath
  pub files : List (ℕ × OpenFile)
  pub next_fd : ℕ
  pub elf_tls : Option ElfTlsImage

abbrev pub new : NativeSyscallBridge
new = record {
  sink = [];
  exit_code = none;
  fs_base = none;
  heap_start = 0;
  current_brk = 0;
  heap_end = 0;
  tls_locale = none;
  clear_child_tid = none;
  pointer_guard = 0;
  stack_guard = 0;
  allowed_roots = [];
  files = [];
  next_fd = 3;
  elf_tls = none;
}

abbrev pub with_brk : NativeSyscallBridge → ℕ → ℕ → NativeSyscallBridge
with_brk b brk heap_end = record b { heap_start = brk; current_brk = brk; heap_end = heap_end }

abbrev pub with_tls_guards : NativeSyscallBridge → Option ℕ → ℕ → ℕ → NativeSyscallBridge
with_tls_guards b locale pointer_guard stack_guard = record b {
  tls_locale = locale;
  pointer_guard = pointer_guard;
  stack_guard = stack_guard;
}

-- The result of a call with the state it leaves. A failed call ends the run of the interpreter,
-- so an error has no state.
abbrev pub Reply : Type 0
Reply = Result (ℤ × NativeSyscallBridge × MemoryModel)

-- `x as i32`, as a 32-bit word.
abbrev pub as_i32 : ℕ → ℕ
as_i32 x = x % 4294967296

-- `128 + signal as i32`, where the sum is at most the largest `i32`.
unfoldable pub signal_exit : ℕ → Result ℕ
signal_exit signal =
    let code = as_i32 signal in
    if ltb 2147483519 code && ltb code 2147483648 then panic else ok ((code + 128) % 4294967296)

-- The signal of `raise`, `tkill` and `tgkill`.
unfoldable pub signal_of : RuntimeSyscallEvent → ℕ
signal_of ev = if ev.nr == 117 then ev.arg0 else (if ev.nr == 200 then ev.arg1 else ev.arg2)

-- The arms of `handle` that return a constant.
unfoldable pub constant_reply : ℕ → Option ℤ
constant_reply nr =
    if nr == 10 || nr == 28 || nr == 228 || nr == 203 || nr == 13 || nr == 14
    then some (pos 0)
    else (if nr == 273 || nr == 274 || nr == 302
        then some (pos 0)
        else (if nr == 21 || nr == 89
            then some (negsuc 1)
            else (if nr == 204 || nr == 186 || nr == 39
                then some (pos 1)
                else (if nr == 334 then some (negsuc 37) else none))))

unfoldable pub futex_reply : ℕ → Result ℤ
futex_reply operation =
    if operation == 0
    then ok (negsuc 10)
    else (if operation == 1
        then ok (pos 0)
        else err (unavailable "未支持的 futex 操作：{}" (operation ∷ [])))

unfoldable pub arch_prctl :
    RuntimeSyscallEvent → NativeSyscallBridge → Result (ℤ × NativeSyscallBridge)
arch_prctl ev b =
    if ev.arg0 == 0x1002
    then ok (pos 0, record b { fs_base = some ev.arg1 })
    else (if ev.arg0 == 0x1003
        then err (unavailable "arch_prctl GET_FS 需要内存上下文" [])
        else err (unavailable "未支持的 arch_prctl 操作：{}" (ev.arg0 ∷ [])))

-- The arms of `handle` that keep something or look at the arguments.
unfoldable pub handle_other :
    RuntimeSyscallEvent → NativeSyscallBridge → Result (ℤ × NativeSyscallBridge)
unfolding signal_exit signal_of futex_reply arch_prctl
handle_other ev b =
    if ev.nr == 60 || ev.nr == 231
    then ok (pos 0, record b { exit_code = some (as_i32 ev.arg0) })
    else (if ev.nr == 117 || ev.nr == 200 || ev.nr == 234
        then (do code ← signal_exit (signal_of ev); ok (pos 0, record b { exit_code = some code }))
        else (if ev.nr == 16
            then ok (if ev.arg1 == 0x5401 then negsuc 24 else pos 0, b)
            else (if ev.nr == 202
                then (do value ← futex_reply (ev.arg1 % 128); ok (value, b))
                else (if ev.nr == 218
                    then ok (pos 1, record b { clear_child_tid = some ev.arg0 })
                    else (if ev.nr == 158
                        then arch_prctl ev b
                        else err (unavailable "未支持的 Linux syscall：{}" (ev.nr ∷ [])))))))

unfoldable pub handle : RuntimeSyscallEvent → NativeSyscallBridge → Result (ℤ × NativeSyscallBridge)
unfolding constant_reply handle_other
handle ev b = elim (constant_reply ev.nr) [ some value ↦ ok (value, b) | none ↦ handle_other ev b ]
