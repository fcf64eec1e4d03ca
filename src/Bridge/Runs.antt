-- ===== src/Bridge/Runs.antt =====
-- `mmap`, the choice of the call and runs of calls in crates/daoti-core/src/elf/syscall_bridge.rs,
-- against the invariants of the bridge and of the memory.
use yl.Prelude.{
  ℕ, ◌%◌, refl, min, Bool, List, [], ◌∷◌, ltb, ◌==◌, ◌&&◌, ◌||◌, not, length, require, ok_or,
  add_u64, checked_add, OnOk, OnOk-bind, OnOk-chain, OnOk-if,
}
use yl.Prelude.Bytes.{to_le}
use yl.Memory.{MemoryModel, rw_perm, write, mmap_anonymous_private_topdown}
use yl.Memory.Valid as Regions
use yl.Memory.Steps.{Reach, here, Reach-trans, Reach-keeps}
use yl.Elf.Parse.{parse_elf_from_bytes}
use yl.Bridge.{Host, RuntimeSyscallEvent, NativeSyscallBridge, as_i32}
use yl.Bridge.Files.{get_file}
use yl.Bridge.Relocs.Apply.{apply_elf_runtime_relocations}
use yl.Bridge.Maps.{
  tls_image, copy_segments, load_elf, load_plain, protect_plain, mapped_length, is_mapped_elf,
  fill_mapping, mmap_file, anonymous_fd, sys_mmap,
}
use yl.Bridge.Dispatch.{handle_late, handle_middle, handle_with_memory, run_calls}
use yl.Bridge.Moves.{
  write-Moves, mmap-Moves, Ends, apply_elf_runtime_relocations-Moves, copy_segments-Moves,
  load_plain-Moves, protect_plain-Moves,
}
use yl.Bridge.Kept.{IsValid, Kept, sys_read-Kept, sys_stat-Kept}
use yl.Bridge.Calls.{
  same_files, continue, sys_access-Kept, sys_openat-Kept, sys_mprotect-Kept, sys_getrlimit-Kept,
  sys_prlimit64-Kept, sys_brk-Kept, sys_getrandom-Kept, sys_sigprocmask-Kept,
  sys_clock_gettime-Kept, sys_write-Kept, sys_get_fs-Kept, sys_writev-Kept, sys_set_fs-Kept,
  without_memory-Kept, mmap_anonymous-Kept,
}

load_elf-Kept :
    (fix : Bool) (bytes : List ℕ) (addr mapped_len : ℕ) (b : NativeSyscallBridge) (m : MemoryModel)
    → IsValid b
    → OnOk (load_elf fix bytes addr mapped_len b m) (λ r. IsValid r.0 × Reach m r.1)
unfolding load_elf
load_elf-Kept fix bytes addr mapped_len b m v =
    OnOk-bind (parse_elf_from_bytes bytes) _ V (λ info e.
      OnOk-chain (copy_segments fix bytes addr mapped_len info.segments m) _ (Reach m) V
        (copy_segments-Moves fix bytes addr mapped_len info.segments m)
        (λ m₁ r₁.
          OnOk-chain (apply_elf_runtime_relocations fix m₁ bytes addr) _ (Ends m₁) V
            (apply_elf_runtime_relocations-Moves fix m₁ bytes addr)
            (λ p r₂. OnOk-bind (tls_image p.1 addr p.0 b.elf_tls) _ V (λ image e'.
              OnOk-bind (add_u64 addr 0x222218) _ V (λ curbrk f.
                OnOk-chain (write fix p.0 curbrk (to_le 8 b.current_brk)) _ (Reach m) V
                  (continue _ (Reach-trans r₁ r₂) (write-Moves fix p.0 curbrk _))
                  (λ m₃ r₃.
                    (same_files b (record b { elf_tls = image }) refl refl v.heap v, r₃)))))))
  where
    V : NativeSyscallBridge × MemoryModel → Type 0
    V r = IsValid r.0 × Reach m r.1

fill_mapping-Kept :
    (fix : Bool) (bytes : List ℕ) (ev : RuntimeSyscallEvent) (copy_end addr mapped_len : ℕ)
    (b : NativeSyscallBridge) (m : MemoryModel)
    → IsValid b
    → OnOk (fill_mapping fix bytes ev copy_end addr mapped_len b m) (λ r. IsValid r.0 × Reach m r.1)
unfolding fill_mapping
fill_mapping-Kept fix bytes ev copy_end addr mapped_len b m v =
    OnOk-if (is_mapped_elf bytes) _ _ V (load_elf-Kept fix bytes addr mapped_len b m v) (
      OnOk-chain (load_plain fix bytes addr ev.arg5 copy_end m) _ (Reach m) V
        (load_plain-Moves fix bytes addr ev.arg5 copy_end m)
        (λ m₁ r₁.
          OnOk-chain (protect_plain ev.arg2 addr ev.arg1 m₁) _ (Reach m) V
            (continue _ r₁ (protect_plain-Moves ev.arg2 addr ev.arg1 m₁)) (λ m₂ r₂. (v, r₂))))
  where
    V : NativeSyscallBridge × MemoryModel → Type 0
    V r = IsValid r.0 × Reach m r.1

module _ (host : Host) (ev : RuntimeSyscallEvent) (b : NativeSyscallBridge) (m : MemoryModel)
    (v : IsValid b) where
  mmap_file-Kept : OnOk (mmap_file host ev b m) (Kept m)
  unfolding mmap_file
  mmap_file-Kept = OnOk-bind (ok_or (get_file b.files (as_i32 ev.arg4)) _) _ (Kept m) (λ file e.
      OnOk-bind (ok_or (checked_add ev.arg5 ev.arg1) _) _ (Kept m) (λ stop e'.
        OnOk-bind (require (ltb ev.arg2 8) _) _ (Kept m) (λ t f.
          OnOk-bind (mapped_length file.bytes ev.arg1) _ (Kept m) (λ mapped_len f'.
            OnOk-chain (mmap_anonymous_private_topdown m mapped_len rw_perm) _ (λ r. Reach m r.1)
              (Kept m) (mmap-Moves m mapped_len rw_perm)
              (λ r s.
                let fix = host.fix_ns_loaded in
                let copy_end = min stop (length file.bytes) in
                OnOk-chain (fill_mapping fix file.bytes ev copy_end r.0 mapped_len b r.1) _
                  (λ q. IsValid q.0 × Reach r.1 q.1) (Kept m)
                  (fill_mapping-Kept fix file.bytes ev copy_end r.0 mapped_len b r.1 v)
                  (λ q k. (k.0, Reach-trans s k.1)))))))

  sys_mmap-Kept : OnOk (sys_mmap host ev b m) (Kept m)
  unfolding sys_mmap
  sys_mmap-Kept =
      OnOk-if (not (anonymous_fd ev) && ev.arg5 % 4096 == 0) _ _ (Kept m) mmap_file-Kept
        (mmap_anonymous-Kept host ev b m v)

  handle_late-Kept : OnOk (handle_late host ev b m) (Kept m)
  unfolding handle_late
  handle_late-Kept = OnOk-if (ev.nr == 163) _ _ (Kept m) (sys_getrlimit-Kept host ev b m v) (
      OnOk-if (ev.nr == 302) _ _ (Kept m) (sys_prlimit64-Kept host ev b m v) (
        OnOk-if (ev.nr == 12) _ _ (Kept m) (sys_brk-Kept host ev b m v) (
          OnOk-if (ev.nr == 318) _ _ (Kept m) (sys_getrandom-Kept host ev b m v) (
            OnOk-if (ev.nr == 14) _ _ (Kept m) (sys_sigprocmask-Kept host ev b m v) (
              OnOk-if (ev.nr == 228) _ _ (Kept m) (sys_clock_gettime-Kept host ev b m v) (
                OnOk-if (ev.nr == 20) _ _ (Kept m) (sys_writev-Kept host ev b m v) (
                  OnOk-if (ev.nr == 1) _ _ (Kept m) (sys_write-Kept host ev b m v)
                    (without_memory-Kept host ev b m v))))))))

  handle_middle-Kept : OnOk (handle_middle host ev b m) (Kept m)
  unfolding handle_middle
  handle_middle-Kept =
      OnOk-if (ev.nr == 158 && ev.arg0 == 0x3001) _ _ (Kept m) (v, here)
        (OnOk-if (ev.nr == 158 && ev.arg0 == 0x1003) _ _ (Kept m) (sys_get_fs-Kept host ev b m v) (
          OnOk-if (ev.nr == 158 && ev.arg0 == 0x1002) _ _ (Kept m) (sys_set_fs-Kept host ev b m v) (
            OnOk-if (ev.nr == 202 && ev.arg1 % 128 == 0) _ _ (Kept m) (v, here)
              (OnOk-if (ev.nr == 9) _ _ (Kept m) sys_mmap-Kept handle_late-Kept))))

  -- In a valid bridge, any call that succeeds leaves a valid bridge, and changes the memory only by
  -- operations of the memory model.
  pub handle_with_memory-Kept : OnOk (handle_with_memory host ev b m) (Kept m)
  unfolding handle_with_memory
  handle_with_memory-Kept = OnOk-if (ev.nr == 21) _ _ (Kept m) (sys_access-Kept host ev b m v) (
      OnOk-if (ev.nr == 257) _ _ (Kept m) (sys_openat-Kept host ev b m v) (
        OnOk-if (ev.nr == 3) _ _ (Kept m) (v, here)
          (OnOk-if (ev.nr == 0 || ev.nr == 17) _ _ (Kept m)
            (sys_read-Kept host ev b m v (ev.nr == 17))
            (OnOk-if (ev.nr == 5 || ev.nr == 262) _ _ (Kept m)
              (sys_stat-Kept host ev b m v (ev.nr == 262))
              (OnOk-if (ev.nr == 10) _ _ (Kept m) (sys_mprotect-Kept host ev b m v)
                handle_middle-Kept)))))

-- From a valid bridge and a valid memory, any run of calls that succeeds ends in a valid bridge and
-- a valid memory: the program break stays at most the end of the heap, descriptors stay distinct
-- and offsets inside their files, and no two regions of memory share an address.
pub run_calls-IsValid :
    (calls : List (Host × RuntimeSyscallEvent)) (b : NativeSyscallBridge) (m : MemoryModel)
    → IsValid b
    → Regions.IsValid m
    → OnOk (run_calls calls b m) (λ r. IsValid r.1 × Regions.IsValid r.2)
unfolding run_calls
run_calls-IsValid [] b m v w = (v, w)
run_calls-IsValid (call ∷ calls) b m v w =
    OnOk-chain (handle_with_memory call.0 call.1 b m) _ (Kept m)
      (λ r. IsValid r.1 × Regions.IsValid r.2) (handle_with_memory-Kept call.0 call.1 b m v)
      (λ r k.
        OnOk-chain (run_calls calls r.1 r.2) _ (λ s. IsValid s.1 × Regions.IsValid s.2)
          (λ s. IsValid s.1 × Regions.IsValid s.2)
          (run_calls-IsValid calls r.1 r.2 k.0 (Reach-keeps k.1 w)) (λ s x. x))
