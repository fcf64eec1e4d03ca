-- ===== src/Memory/Steps.antt =====
-- Runs of `MemoryModel` (crates/daoti-core/src/elf/runtime.rs): every operation that changes the
-- memory, in any order, and the panics of reads and writes.
use yl.Prelude.{
  ℕ, ◌+◌, ◌-◌, ◌≤◌, ◌<◌, ◌≡◌, inl, inr, Bool, true, List, [], ◌∷◌, arith, leb, Bool-cases,
  Option-cases, u64_mod, length, OnSome, OnSome-apply, OnOk-apply, saturating_add, All, ok, IsSafe,
  IsSafe-map,
}
use yl.Memory.{
  MemPerm, MemoryRegion, MemoryModel, new, add_region, mprotect, mmap_anonymous_private,
  mmap_anonymous_private_topdown, zeroed, write, write_at, store_in, read, read_at, contains,
  find_region, redirect, corrected,
}
use yl.Memory.Mmap.{rounded, searched, top_page}
use yl.Memory.Regions.{Within}
use yl.Memory.Topdown.{Mapped, topdown_from-Mapped}
use yl.Memory.Valid.{IsValid, new-IsValid, add_region-IsValid, mprotect-IsValid, write-IsValid}

pub mmap_topdown-IsValid :
    (m : MemoryModel) (len : ℕ) (perm : MemPerm) {base : ℕ} {m' : MemoryModel}
    → IsValid m
    → mmap_anonymous_private_topdown m len perm ≡ ok (base, m')
    → IsValid m'
mmap_topdown-IsValid m len perm {base} {m'} v e =
    let size = rounded len in
    let x : Mapped m size perm (top_page m size) base m' =
      OnOk-apply (λ r. Mapped m size perm (top_page m size) r.0 r.1)
        (topdown_from-Mapped m size perm v.small (top_page m size)) (searched m len perm e) in
    add_region-IsValid m (zeroed base perm size) v x.filled

mmap_low-added :
    (m : MemoryModel) (len : ℕ) (perm : MemPerm) {base : ℕ} {m' : MemoryModel}
    → mmap_anonymous_private m len perm ≡ ok (base, m')
    → add_region m (zeroed base perm (rounded len)) ≡ ok m'
unfolding mmap_anonymous_private
mmap_low-added m len perm e = ground arith

-- One operation of the memory, with the arguments that its caller chooses.
pub data Step (m m' : MemoryModel) : Type 0 where
  added : (r : MemoryRegion) → add_region m r ≡ ok m' → Step m m'
  protected : (addr len : ℕ) (perm : MemPerm) → mprotect m addr len perm ≡ ok m' → Step m m'
  stored :
      (fix : Bool) (addr : ℕ) (new_bytes : List ℕ) → write fix m addr new_bytes ≡ ok m' → Step m m'
  mapped_low :
      (base len : ℕ) (perm : MemPerm)
      → mmap_anonymous_private m len perm ≡ ok (base, m')
      → Step m m'
  mapped_high :
      (base len : ℕ) (perm : MemPerm)
      → mmap_anonymous_private_topdown m len perm ≡ ok (base, m')
      → Step m m'

pub data Reach (m : MemoryModel) : MemoryModel → Type 0 where
  here : Reach m m
  next : {m₁ m₂ : MemoryModel} → Reach m m₁ → Step m₁ m₂ → Reach m m₂

Step-IsValid : {m m' : MemoryModel} → Step m m' → IsValid m → IsValid m'
Step-IsValid {m} (added r e) v = add_region-IsValid m r v e
Step-IsValid {m} (protected addr len perm e) v = mprotect-IsValid m addr len perm v e
Step-IsValid {m} (stored fix addr new_bytes e) v = write-IsValid fix m addr new_bytes v e
Step-IsValid {m} (mapped_low base len perm e) v =
    add_region-IsValid m (zeroed base perm (rounded len)) v (mmap_low-added m len perm e)
Step-IsValid {m} (mapped_high base len perm e) v = mmap_topdown-IsValid m len perm v e

pub Reach-trans : {m m₁ m₂ : MemoryModel} → Reach m m₁ → Reach m₁ m₂ → Reach m m₂
Reach-trans r here = r
Reach-trans r (next s step) = next (Reach-trans r s) step

pub Reach-keeps : {m m' : MemoryModel} → Reach m m' → IsValid m → IsValid m'
Reach-keeps here v = v
Reach-keeps (next r s) v = Step-IsValid s (Reach-keeps r v)

-- A memory made by `new` with a 64-bit upper bound, and changed by any run of operations that
-- succeed, has its regions inside its bounds and no address in two of them.
pub Reach-IsValid :
    (lo hi : ℕ) {m m' : MemoryModel} → hi < u64_mod → new lo hi ≡ ok m → Reach m m' → IsValid m'
Reach-IsValid lo hi small e r = Reach-keeps r (new-IsValid lo hi small e)

find_region-fits :
    (lo hi : ℕ) (rs : List MemoryRegion) (addr len : ℕ)
    → hi + 1 < u64_mod
    → All (Within lo hi) rs
    → OnSome (find_region rs addr len) (λ r. addr - r.base + len ≤ length r.bytes)
find_region-fits lo hi [] addr len small w = tt
find_region-fits lo hi (r ∷ rs) addr len small w =
    elim (Bool-cases (contains addr (saturating_add addr len) r)) [
      | inl e ↦ rw e (ground arith)
      | inr e ↦ rw e (find_region-fits lo hi rs addr len small w.1)
    ]

store_in-IsSafe :
    (r : MemoryRegion) (addr : ℕ) (new_bytes : List ℕ)
    → addr - r.base + length new_bytes ≤ length r.bytes
    → IsSafe (store_in r addr new_bytes)
unfolding store_in
store_in-IsSafe r addr new_bytes fits =
    let inside : leb (addr - r.base + length new_bytes) (length r.bytes) ≡ true = ground arith in
    elim (Bool-cases r.perm.write) [ inl w ↦ simp (w, inside) tt | inr w ↦ simp w tt ]

write_at-IsSafe :
    (lo hi : ℕ) (rs : List MemoryRegion) (addr : ℕ) (new_bytes : List ℕ)
    → hi + 1 < u64_mod
    → All (Within lo hi) rs
    → IsSafe (write_at rs addr (saturating_add addr (length new_bytes)) new_bytes)
unfolding write_at
write_at-IsSafe lo hi [] addr new_bytes small w = tt
write_at-IsSafe lo hi (r ∷ rs) addr new_bytes small w =
    let stop = saturating_add addr (length new_bytes) in
    elim (Bool-cases (contains addr stop r)) [
      | inl e ↦ rw e (
          IsSafe-map (store_in r addr new_bytes) (λ r'. r' ∷ rs)
            (store_in-IsSafe r addr new_bytes (ground arith)))
      | inr e ↦ rw e (
          IsSafe-map (write_at rs addr stop new_bytes) (λ rs'. r ∷ rs')
            (write_at-IsSafe lo hi rs addr new_bytes small w.1))
    ]

read_at-IsSafe :
    (lo hi : ℕ) (rs : List MemoryRegion) (addr len : ℕ)
    → hi + 1 < u64_mod
    → All (Within lo hi) rs
    → IsSafe (read_at rs addr len)
unfolding read_at
read_at-IsSafe lo hi rs addr len small w = elim (Option-cases (find_region rs addr len)) [
  | inl n ↦ rw n tt
  | inr (r, s) ↦
      let fits =
        OnSome-apply (λ r. addr - r.base + len ≤ length r.bytes)
          (find_region-fits lo hi rs addr len small w) s in
      let inside : leb (addr - r.base + len) (length r.bytes) ≡ true = ground arith in
      elim (Bool-cases r.perm.read) [
        | inl q ↦ rw s (simp (q, inside) tt)
        | inr q ↦ rw s (simp q tt)
      ]
]

-- In a valid memory that ends below the very last address, neither a read nor a write panics,
-- whatever the address, the length and the bytes: it succeeds or returns an error.
pub read-write-IsSafe :
    (fix : Bool) (m : MemoryModel) (addr len : ℕ) (new_bytes : List ℕ)
    → IsValid m
    → m.max_addr + 1 < u64_mod
    → IsSafe (read m addr len) × IsSafe (write fix m addr new_bytes)
unfolding read write
read-write-IsSafe fix m addr len new_bytes v small =
    let a = redirect addr in
    let fixed = corrected fix m.ns_loaded_write_fix a new_bytes in
    (
      read_at-IsSafe m.min_addr m.max_addr m.regions a len small v.bounded,
      IsSafe-map (write_at m.regions a (saturating_add a (length fixed)) fixed)
          (λ rs. record m { regions = rs })
          (write_at-IsSafe m.min_addr m.max_addr m.regions a fixed small v.bounded),
    )
