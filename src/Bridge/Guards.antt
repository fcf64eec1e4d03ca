-- ===== src/Bridge/Guards.antt =====
-- What `arch_prctl` of crates/daoti-core/src/elf/syscall_bridge.rs leaves at the base of thread-local
-- storage.
use yl.Prelude.{ℕ, ◌+◌, ◌≡◌}
use yl.Prelude.Bytes.{to_le}
use yl.Memory.{MemoryModel, redirect}
use yl.Memory.Valid as Regions
use yl.Memory.Held.{Holds}

-- The words at the base of thread-local storage.
pub record Guarded (m : MemoryModel) (fs pointer_guard stack_guard : ℕ) : Type 0 where
  pub itself : Holds m fs (to_le 8 fs)
  pub stack : Holds m (fs + 0x28) (to_le 8 stack_guard)
  pub pointer : Holds m (fs + 0x30) (to_le 8 pointer_guard)

-- None of the three words is at an address that the memory redirects.
abbrev pub Plain : ℕ → Type 0
Plain fs =
    (redirect fs ≡ fs) × (redirect (fs + 0x28) ≡ fs + 0x28) × (redirect (fs + 0x30) ≡ fs + 0x30)
