-- ===== src/Memory/Tests.antt =====
-- Runs of `MemoryModel` (crates/daoti-core/src/elf/runtime.rs) on a small memory, and the memory
-- theorems at them.
use yl.Prelude.{
  ℕ, ◌+◌, ◌<◌, ◌≡◌, refl, true, false, none, some, List, [], ◌∷◌, arith, if◌then◌else◌, length,
  get_or, ok, IsOk, IsSafe,
}
use yl.Memory.{
  memory_code, MemPerm, rw_perm, MemoryRegion, MemoryModel, new, add_region,
  mmap_anonymous_private_topdown, corrected, write, read, redirect, zeroed,
}
use yl.Memory.Access.{read-write, overwritten}
use yl.Memory.Mapping.{view-add_region, view-mprotect, repermed}
use yl.Memory.Mmap.{Fresh, mmap_topdown-Fresh, mmap_topdown-IsOk}
use yl.Memory.Steps.{here, next, added, stored, Reach-IsValid, read-write-IsSafe}
use yl.Memory.Valid.{IsValid}
use yl.Memory.View.{covers, cell_in, view}

abbrev r_perm : MemPerm
r_perm = record { read = true; write = false; execute = false }

abbrev start_region : MemoryRegion
start_region = record { base = 0x4000; perm = rw_perm; bytes = 1 ∷ 2 ∷ 3 ∷ 4 ∷ 5 ∷ 6 ∷ 7 ∷ 8 ∷ [] }

abbrev empty_memory : MemoryModel
empty_memory = record {
  min_addr = 0x4000;
  max_addr = 0x6000;
  regions = [];
  trace_writable_pt_load = [];
  ns_loaded_write_fix = none;
  namespace_root_addr = none;
}

abbrev memory : MemoryModel
memory = record empty_memory { regions = start_region ∷ [] }

abbrev after_write : MemoryModel
after_write = record empty_memory {
  regions = record start_region { bytes = 1 ∷ 2 ∷ 9 ∷ 9 ∷ 5 ∷ 6 ∷ 7 ∷ 8 ∷ [] } ∷ [];
}

new_runs : new 0x4000 0x6000 ≡ ok empty_memory
unfolding memory_code
new_runs = refl

add_runs : add_region empty_memory start_region ≡ ok memory
unfolding memory_code
add_runs = refl

write_runs : write false memory 0x4002 (9 ∷ 9 ∷ []) ≡ ok after_write
unfolding memory_code
write_runs = refl

memory-IsValid : IsValid memory
memory-IsValid = ground arith

Reach-IsValid_example : IsValid after_write
Reach-IsValid_example =
    Reach-IsValid 0x4000 0x6000 {m = empty_memory} (omega arith) new_runs
      (next (next here (added start_region add_runs)) (stored false 0x4002 (9 ∷ 9 ∷ []) write_runs))

read-write_example :
    (now : List ℕ) × (read after_write 0x4001 3 ≡ ok now)
    × (length now ≡ 3)
    × ((i : ℕ)
        → i < 3
        → get_or now i 0
          ≡ overwritten
              (redirect 0x4002)
              (corrected false none (redirect 0x4002) (9 ∷ 9 ∷ []))
              (redirect 0x4001 + i)
              (get_or (2 ∷ 3 ∷ 4 ∷ []) i 0))
read-write_example =
    read-write false memory 0x4002 (9 ∷ 9 ∷ []) memory-IsValid write_runs 0x4001 3 (2 ∷ 3 ∷ 4 ∷ [])
      (unfold memory_code in refl)

abbrev protected_memory : MemoryModel
protected_memory = record empty_memory {
  regions =
      record start_region { perm = r_perm; bytes = 1 ∷ 2 ∷ 3 ∷ 4 ∷ [] }
      ∷ record start_region { base = 0x4004; bytes = 5 ∷ 6 ∷ 7 ∷ 8 ∷ [] }
      ∷ [];
}

view-mprotect_example :
    view protected_memory.regions 0x4003
    ≡ repermed 0x4000 4 r_perm 0x4003 (view memory.regions 0x4003)
unfolding memory_code
view-mprotect_example = view-mprotect memory 0x4000 4 r_perm 0x4003 memory-IsValid refl

view-add_region_example : view memory.regions 0x4003 ≡ (
    if covers 0x4003 start_region
    then some (cell_in start_region 0x4003)
    else view empty_memory.regions 0x4003)
view-add_region_example = view-add_region empty_memory start_region 0x4003 (ground arith) add_runs

mmap_topdown-Fresh_example :
    Fresh memory 1 rw_perm 0x5000
      (record empty_memory { regions = start_region ∷ zeroed 0x5000 rw_perm 4096 ∷ [] })
unfolding memory_code
mmap_topdown-Fresh_example = mmap_topdown-Fresh memory 1 rw_perm memory-IsValid refl

mmap_topdown-IsOk_example : IsOk (mmap_anonymous_private_topdown memory 1 rw_perm)
mmap_topdown-IsOk_example =
    mmap_topdown-IsOk memory 1 rw_perm 0x5000 memory-IsValid (omega arith) (omega arith)
      (omega arith) (ground arith)

read-write-IsSafe_example :
    IsSafe (read memory 0x4006 5) × IsSafe (write true memory 0x4006 (1 ∷ []))
read-write-IsSafe_example =
    read-write-IsSafe true memory 0x4006 5 (1 ∷ []) memory-IsValid (omega arith)
