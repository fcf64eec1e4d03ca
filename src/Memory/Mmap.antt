-- ===== src/Memory/Mmap.antt =====
-- `mmap_anonymous_private_topdown` of crates/daoti-core/src/elf/runtime.rs as a whole: the rounding
-- of the length, the search and the new region.
use yl.Prelude.{
  ℕ, ◌+◌, ◌-◌, ◌*◌, ◌/◌, ◌%◌, ◌≤◌, ◌<◌, ◌≡◌, sym, ◌∙◌, true, false, Option, some, List, arith, ltb,
  ◌==◌, if◌then◌else◌, u64_mod, length, get_or, OnOk-apply, ok, IsOk, replicate, length-replicate,
  get_or-replicate,
}
use yl.Memory.{MemPerm, MemoryModel, zeroed, topdown_from, mmap_anonymous_private_topdown}
use mathlib.Core.Path.{subst}
use yl.Memory.Mapping.{view-add_region}
use yl.Memory.Topdown.{IsFree, Mapped, topdown_from-Mapped, topdown_from-IsOk}
use yl.Memory.Valid.{IsValid}
use yl.Memory.View.{Cell, covers, cell_in, view, in_range}

-- The length of a mapping: whole pages.
abbrev pub rounded : ℕ → ℕ
rounded len = (len + 4095) / 4096 * 4096

-- The page at which the search starts.
abbrev pub top_page : MemoryModel → ℕ → ℕ
top_page m size = (m.max_addr - size) / 4096

pub searched :
    (m : MemoryModel) (len : ℕ) (perm : MemPerm) {r : ℕ × MemoryModel}
    → mmap_anonymous_private_topdown m len perm ≡ ok r
    → topdown_from m (rounded len) perm (top_page m (rounded len)) ≡ ok r
unfolding mmap_anonymous_private_topdown
searched m len perm e = ground arith

zeroed_cells :
    (base size a : ℕ) (perm : MemPerm) (o : Option Cell)
    → (if covers a (zeroed base perm size) then some (cell_in (zeroed base perm size) a) else o)
      ≡ (if in_range base size a then some (record { perm = perm; byte = 0 }) else o)
zeroed_cells base size a perm o =
    let bytes : List ℕ = replicate size 0 in
    let long : length bytes ≡ size = length-replicate size 0 in
    let byte : get_or bytes (a - base) 0 ≡ 0 = get_or-replicate size (a - base) 0 in rw (long, byte)

-- What a successful mapping is.
pub record Fresh (m : MemoryModel) (len : ℕ) (perm : MemPerm) (base : ℕ) (m' : MemoryModel)
    : Type 0 where
  pub aligned : base % 4096 ≡ 0
  pub free : IsFree m (rounded len) base
  pub highest : (p : ℕ) → p % 4096 ≡ 0 → IsFree m (rounded len) p → p ≤ base
  pub cells :
      (a : ℕ)
      → view m'.regions a ≡ (
          if in_range base (rounded len) a
          then some (record { perm = perm; byte = 0 })
          else view m.regions a)

-- A top-down mapping of a valid memory that succeeds is page-aligned and lies in free address
-- space, above every other aligned place that was free; its bytes are 0 with the requested permissions, and no other cell of
-- memory changes.
pub mmap_topdown-Fresh :
    (m : MemoryModel) (len : ℕ) (perm : MemPerm) {base : ℕ} {m' : MemoryModel}
    → IsValid m
    → mmap_anonymous_private_topdown m len perm ≡ ok (base, m')
    → Fresh m len perm base m'
mmap_topdown-Fresh m len perm {base} {m'} v e =
    let size = rounded len in
    let x : Mapped m size perm (top_page m size) base m' =
      OnOk-apply (λ r. Mapped m size perm (top_page m size) r.0 r.1)
        (topdown_from-Mapped m size perm v.small (top_page m size)) (searched m len perm e) in
    record {
      aligned = x.aligned;
      free = x.free;
      highest = λ p al f.
          let whole : p / 4096 * 4096 ≡ p = omega arith in
          omega (
            arith,
            whole,
            x.highest (p / 4096) (omega (arith, f.below)) (subst (IsFree m size) (sym whole) f),
          );
      cells = λ a.
          view-add_region m (zeroed base perm size) a v x.filled
          ∙ zeroed_cells base size a perm (view m.regions a);
    }

-- A top-down mapping of a valid memory succeeds whenever its length is not 0 and does not overflow
-- when it is rounded to pages, and some aligned place is free for it.
pub mmap_topdown-IsOk :
    (m : MemoryModel) (len : ℕ) (perm : MemPerm) (p : ℕ)
    → IsValid m
    → 0 < len
    → len + 4095 < u64_mod
    → p % 4096 ≡ 0
    → IsFree m (rounded len) p
    → IsOk (mmap_anonymous_private_topdown m len perm)
unfolding mmap_anonymous_private_topdown
mmap_topdown-IsOk m len perm p v some_len fits al f =
    let size = rounded len in
    let whole : p / 4096 * 4096 ≡ p = omega arith in
    let long : (len == 0) ≡ false = ground arith in
    let padded : ltb (len + 4095) u64_mod ≡ true = ground arith in
    rw (long, padded)
      (topdown_from-IsOk m size perm v.small (top_page m size) (p / 4096) (omega (arith, f.below))
        (omega (arith, f.below)) (subst (IsFree m size) (sym whole) f))
