-- ===== src/Bridge/Bits.antt =====
-- Bits of 64-bit words in crates/daoti-core/src/elf/syscall_bridge.rs: `align_up` with its mask, and
-- the flags of `mmap` and `mprotect`.
use yl.Prelude.{
  ℕ, zero, suc, ◌+◌, ◌-◌, ◌*◌, ◌/◌, ◌%◌, Bool, not, ◌&&◌, leb, ◌==◌, if◌then◌else◌, Result, ok,
  ◌>>=◌, add_u64,
}
use yl.Memory.{MemPerm}

-- `x & !y`, on the `n` low bits.
unfoldable pub and_not : ℕ → ℕ → ℕ → ℕ
and_not zero x y = 0
and_not (suc n) x y =
    (if x % 2 == 1 && not (y % 2 == 1) then 1 else 0) + 2 * and_not n (x / 2) (y / 2)

unfoldable pub align_up : ℕ → ℕ → Result ℕ
unfolding and_not
align_up value align =
    if leb align 1
    then ok value
    else (do sum ← add_u64 value align; ok (and_not 64 (sum - 1) (align - 1)))

-- `x & bit != 0`, for a power of two.
abbrev pub has : ℕ → ℕ → Bool
has x bit = (x / bit) % 2 == 1

-- The test of the protection bits, and the permissions they stand for.
abbrev pub perm_of : ℕ → MemPerm
perm_of prot = record { read = has prot 1; write = has prot 2; execute = has prot 4 }
