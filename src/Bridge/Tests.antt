-- ===== src/Bridge/Tests.antt =====
-- Runs of crates/daoti-core/src/elf/syscall_bridge.rs on a small guest, and the theorems about the bridge
-- at them.
use yl.Prelude.{
  ℕ, ◌≡◌, refl, arith, false, none, some, List, [], ◌∷◌, map, ok, err, panic, unavailable, OnOk,
  IsOk, IsSafe, replicate,
}
use yl.Prelude.Bytes.{from_le, to_le}
use yl.Prelude.Int.{pos, signed64}
use yl.Memory.{memory_code, MemoryModel, rw_perm}
use yl.Memory.Valid as Regions
use yl.Bridge.{
  Host, RuntimeSyscallEvent, OpenFile, NativeSyscallBridge, new, with_brk, with_tls_guards, handle,
  handle_other, arch_prctl, constant_reply,
}
use yl.Bridge.Breaks.{requested, breaks, last_break, run_calls-breaks}
use yl.Bridge.Runs.{run_calls-IsValid}
use yl.Bridge.Copies.{Shown, sys_mmap-Shown}
use yl.Bridge.Dispatch.{handle_late, handle_middle, handle_with_memory, run_calls}
use yl.Bridge.Files.{get_file, set_offset, bytes_between, sys_read}
use yl.Bridge.Tls.{sys_set_fs, ensure_slots, ensure_page, place_image, place_locale, place_guards}
use yl.Bridge.Kept.{IsValid}
use yl.Bridge.Output.{sys_write, sys_writev, write_vectors}
use yl.Bridge.Replies.{sys_brk}
use yl.Bridge.Transfers.{Transfer, sys_read-Transfer, sys_read-IsSafe, pread64_panic}
use yl.Bridge.Unknown.{handle_with_memory-unknown}
use yl.Bridge.Vectors.{AsWrites, sys_writev-AsWrites}

-- A host without files.
abbrev bare : Host
bare = record {
  fix_ns_loaded = false;
  strip_root = λ path. path;
  file_name = λ path. none;
  join = λ root path. path;
  is_file = λ path. false;
  metadata = λ path. false;
  read_file = λ path. none;
  now = none;
}

abbrev guest_memory : MemoryModel
guest_memory = record {
  min_addr = 0x4000;
  max_addr = 0x10000;
  regions = record { base = 0x4000; perm = rw_perm; bytes = 72 ∷ 105 ∷ 0 ∷ 0 ∷ 0 ∷ 0 ∷ [] } ∷ [];
  trace_writable_pt_load = [];
  ns_loaded_write_fix = none;
  namespace_root_addr = none;
}

abbrev text_file : OpenFile
text_file = record { bytes = 97 ∷ 98 ∷ 99 ∷ 100 ∷ 101 ∷ []; offset = 1 }

abbrev guest : NativeSyscallBridge
guest = record (with_brk (with_tls_guards new none 7 9) 0x8000 0x9000) {
  files = (3, text_file) ∷ [];
  next_fd = 4;
}

abbrev call : ℕ → ℕ → ℕ → ℕ → ℕ → ℕ → RuntimeSyscallEvent
call nr a b c d e = record { nr = nr; arg0 = a; arg1 = b; arg2 = c; arg3 = d; arg4 = e; arg5 = 0 }

guest-IsValid : IsValid guest
guest-IsValid = ground arith

memory-IsValid : Regions.IsValid guest_memory
memory-IsValid = ground arith

abbrev write_hi : RuntimeSyscallEvent
write_hi = call 1 1 0x4000 2 0 0

-- `brk` to 0x8800, a `write` of two bytes, and `exit_group` with 3.
calls_run :
    run_calls
      ((bare, call 12 0x8800 0 0 0 0) ∷ (bare, write_hi) ∷ (bare, call 231 3 0 0 0 0) ∷ [])
      guest
      guest_memory
    ≡ ok (
      pos 0x8800 ∷ pos 2 ∷ pos 0 ∷ [],
      record guest { current_brk = 0x8800; sink = 72 ∷ 105 ∷ []; exit_code = some 3 },
      guest_memory,
    )
unfolding memory_code run_calls handle_with_memory handle_middle handle_late handle handle_other
    constant_reply sys_write sys_brk signed64
calls_run = refl

run_calls-IsValid_example :
    OnOk
      (run_calls
        ((bare, call 12 0x8800 0 0 0 0) ∷ (bare, write_hi) ∷ (bare, call 231 3 0 0 0 0) ∷ [])
        guest
        guest_memory)
      (λ r. IsValid r.1 × Regions.IsValid r.2)
run_calls-IsValid_example =
    run_calls-IsValid
      ((bare, call 12 0x8800 0 0 0 0) ∷ (bare, write_hi) ∷ (bare, call 231 3 0 0 0 0) ∷ []) guest
      guest_memory guest-IsValid memory-IsValid

-- Three `brk` calls, with what a guest left in the other registers.
abbrev brk_calls : List (Host × RuntimeSyscallEvent)
brk_calls =
    (bare, call 12 0x8800 5 6 7 8) ∷ (bare, call 12 0x9001 1 0 0 0) ∷ (bare, call 12 0 0 9 0 0) ∷ []

run_calls-breaks_example :
    run_calls brk_calls guest guest_memory
    ≡ ok (
      map signed64 (breaks 0x9000 0x8000 (requested brk_calls)),
      record guest { current_brk = last_break 0x9000 0x8000 (requested brk_calls) },
      guest_memory,
    )
run_calls-breaks_example = run_calls-breaks brk_calls guest guest_memory (refl, (refl, (refl, tt)))

-- Ten bytes are asked for at 0x4001, and four are left.
abbrev read_call : RuntimeSyscallEvent
read_call = call 0 3 0x4001 10 0 0

abbrev memory_after : MemoryModel
memory_after = record guest_memory {
  regions =
      record { base = 0x4000; perm = rw_perm; bytes = 72 ∷ 98 ∷ 99 ∷ 100 ∷ 101 ∷ 0 ∷ [] } ∷ [];
}

abbrev guest_after : NativeSyscallBridge
guest_after = record guest { files = (3, record text_file { offset = 5 }) ∷ [] }

read_runs :
    handle_with_memory bare read_call guest guest_memory ≡ ok (pos 4, guest_after, memory_after)
unfolding memory_code handle_with_memory sys_read get_file set_offset bytes_between signed64
read_runs = refl

sys_read-Transfer_example :
    Transfer guest guest_memory 3 0x4001 10 text_file (pos 4) guest_after memory_after
sys_read-Transfer_example =
    sys_read-Transfer bare read_call guest guest_memory text_file refl refl guest-IsValid
      memory-IsValid (omega arith) (unfold get_file in refl) read_runs

sys_read-IsSafe_example : IsSafe (handle_with_memory bare read_call guest guest_memory)
sys_read-IsSafe_example =
    sys_read-IsSafe bare read_call guest guest_memory refl guest-IsValid memory-IsValid
      (omega arith) (ground arith)

pread64_panic_example : handle_with_memory bare (call 17 3 0x4001 1 6 0) guest guest_memory ≡ panic
pread64_panic_example =
    pread64_panic bare (call 17 3 0x4001 1 6 0) guest guest_memory text_file refl
      (unfold get_file in refl) (omega arith)

-- One vector at 0x4000, of the two bytes behind it.
abbrev vector_memory : MemoryModel
vector_memory = record guest_memory {
  regions =
      record {
        base = 0x4000;
        perm = rw_perm;
        bytes = 0x10 ∷ 0x40 ∷ 0 ∷ 0 ∷ 0 ∷ 0 ∷ 0 ∷ 0 ∷ 2 ∷ 0 ∷ 0 ∷ 0 ∷ 0 ∷ 0 ∷ 0 ∷ 0 ∷ 72 ∷ 105 ∷ [];
      }
      ∷ [];
}

abbrev writev_call : RuntimeSyscallEvent
writev_call = call 20 1 0x4000 1 0 0

writev_runs :
    handle_with_memory bare writev_call guest vector_memory
    ≡ ok (pos 2, record guest { sink = 72 ∷ 105 ∷ [] }, vector_memory)
unfolding memory_code handle_with_memory handle_middle handle_late sys_writev write_vectors from_le
    signed64
writev_runs = refl

sys_writev-AsWrites_example : OnOk (handle_with_memory bare writev_call guest vector_memory) (λ r.
    (total : ℕ) × (r.0 ≡ signed64 total)
    × AsWrites bare 1 vector_memory 0x4000 0 1 guest total r.1
    × (r.2 ≡ vector_memory))
sys_writev-AsWrites_example = sys_writev-AsWrites bare writev_call guest vector_memory refl

handle_with_memory-unknown_example :
    handle_with_memory bare (call 56 0 0 0 0 0) guest guest_memory
    ≡ err (unavailable "未支持的 Linux syscall：{}" (56 ∷ []))
handle_with_memory-unknown_example =
    handle_with_memory-unknown bare (call 56 0 0 0 0 0) guest guest_memory refl

abbrev mmap_call : RuntimeSyscallEvent
mmap_call = call 9 0 16 1 2 3

sys_mmap-Shown_example :
    OnOk
      (handle_with_memory bare mmap_call guest guest_memory)
      (λ r. Shown guest_memory text_file.bytes 0 16 1 r.0 r.2 × (r.1 ≡ guest))
sys_mmap-Shown_example =
    sys_mmap-Shown bare mmap_call guest guest_memory text_file refl refl refl refl memory-IsValid
      (unfold get_file in refl) refl

-- Room for the words at the base of thread-local storage.
abbrev fs_memory : MemoryModel
fs_memory = record guest_memory {
  regions = record { base = 0x4800; perm = rw_perm; bytes = replicate 64 0 } ∷ [];
}

abbrev set_fs : RuntimeSyscallEvent
set_fs = call 158 0x1002 0x4800 0 0 0

set_fs_runs : IsOk (handle_with_memory bare set_fs guest fs_memory)
unfolding memory_code handle_with_memory handle_middle sys_set_fs ensure_slots ensure_page
    place_image place_locale place_guards handle handle_other arch_prctl constant_reply to_le
    replicate
set_fs_runs = tt
