-- ===== src/Memory/Valid.antt =====
-- The invariant of `MemoryModel` (crates/daoti-core/src/elf/runtime.rs): regions lie inside the
-- address bounds and share no address.
use yl.Prelude.{
  ℕ, ◌+◌, ◌%◌, ◌≤◌, ◌<◌, ◌≡◌, inl, inr, Bool, false, some, List, [], ◌∷◌, ◌++◌, arith, leb,
  Bool-cases, u64_mod, length, any, OnSome-apply, OnOk, OnOk-apply, saturating_add, All, All-append,
  All-map, Pairwise, ok,
}
use yl.Memory.{
  MemPerm, MemoryRegion, region_end, MemoryModel, new, sort_by_base, overlaps, add_region, mprotect,
  protect_first, write, write_at, corrected, redirect,
}
use yl.Memory.Same.{Same, write_at-Same, Same-All, Same-Pairwise}
use yl.Memory.Regions.{
  Within, Apart, Apart-symm, All-sort_by_base, Pairwise-sort_by_base, any-overlaps, Pairwise-append,
  protect_first-All, protect_first-Pairwise,
}

pub record IsValid (m : MemoryModel) : Type 0 where
  pub ordered : m.min_addr ≤ m.max_addr
  pub small : m.max_addr < u64_mod
  pub bounded : All (Within m.min_addr m.max_addr) m.regions
  pub apart : Pairwise Apart m.regions

pub new-IsValid : (lo hi : ℕ) {m : MemoryModel} → hi < u64_mod → new lo hi ≡ ok m → IsValid m
unfolding new
new-IsValid lo hi h e = OnOk-apply IsValid (fresh lo hi h) e
  where
    fresh : (lo hi : ℕ) → hi < u64_mod → OnOk (new lo hi) IsValid
    fresh lo hi h = elim (Bool-cases (leb lo hi)) [
      | inl e ↦ rw e (record { ordered = ground arith; small = h; bounded = tt; apart = tt })
      | inr e ↦ rw e tt
    ]

-- What an accepted region satisfies.
pub record Added (m : MemoryModel) (r : MemoryRegion) (m' : MemoryModel) : Type 0 where
  pub above : m.min_addr ≤ r.base
  pub below : region_end r ≤ m.max_addr
  pub clear : any (overlaps r.base (region_end r)) m.regions ≡ false
  pub result : m' ≡ record m { regions = sort_by_base (m.regions ++ r ∷ []) }

pub add_region-Added :
    (m : MemoryModel) (r : MemoryRegion) {m' : MemoryModel} → add_region m r ≡ ok m' → Added m r m'
unfolding add_region
add_region-Added m r e = ground arith

pub Pairwise-snoc :
    (r : MemoryRegion) (rs : List MemoryRegion)
    → All (Apart r) rs
    → Pairwise Apart rs
    → Pairwise Apart (rs ++ r ∷ [])
Pairwise-snoc r rs a p =
    Pairwise-append rs (r ∷ []) p (tt, tt)
      (All-map (Apart r) (λ s. All (Apart s) (r ∷ [])) rs (λ s x. (Apart-symm r s x, tt)) a)

pub add_region-IsValid :
    (m : MemoryModel) (r : MemoryRegion) {m' : MemoryModel}
    → IsValid m
    → add_region m r ≡ ok m'
    → IsValid m'
add_region-IsValid m r v e =
    let a = add_region-Added m r e in
    rw a.result (record {
      ordered = v.ordered;
      small = v.small;
      bounded = All-sort_by_base (Within m.min_addr m.max_addr) (m.regions ++ r ∷ []) (
          All-append (Within m.min_addr m.max_addr) m.regions (r ∷ []) v.bounded
            ((a.above, a.below), tt));
      apart =
          Pairwise-sort_by_base (m.regions ++ r ∷ [])
            (Pairwise-snoc r m.regions (any-overlaps r m.regions a.clear) v.apart);
    })

pub record Protected (m : MemoryModel) (addr len : ℕ) (perm : MemPerm) (m' : MemoryModel)
    : Type 0 where
  pub fits : addr + len < u64_mod
  pub some_len : 0 < len
  pub aligned : addr % 4096 ≡ 0
  pub replaced : protect_first addr (addr + len) perm m.regions ≡ some m'.regions
  pub result : m' ≡ record m { regions = m'.regions }

pub mprotect-Protected :
    (m : MemoryModel) (addr len : ℕ) (perm : MemPerm) {m' : MemoryModel}
    → mprotect m addr len perm ≡ ok m'
    → Protected m addr len perm m'
unfolding mprotect
mprotect-Protected m addr len perm e = ground arith

pub mprotect-IsValid :
    (m : MemoryModel) (addr len : ℕ) (perm : MemPerm) {m' : MemoryModel}
    → IsValid m
    → mprotect m addr len perm ≡ ok m'
    → IsValid m'
mprotect-IsValid m addr len perm {m'} v e =
    let p = mprotect-Protected m addr len perm e in
    rw p.result (record {
      ordered = v.ordered;
      small = v.small;
      bounded =
          OnSome-apply (All (Within m.min_addr m.max_addr))
            (protect_first-All addr (addr + len) perm (omega arith) (Within m.min_addr m.max_addr)
              (λ r s w i. omega arith) m.regions v.bounded)
            p.replaced;
      apart =
          OnSome-apply (Pairwise Apart)
            (protect_first-Pairwise addr (addr + len) perm (omega arith) m.regions v.apart)
            p.replaced;
    })

pub record Written (fix : Bool) (m : MemoryModel) (addr : ℕ) (new_bytes : List ℕ) (m' : MemoryModel)
    : Type 0 where
  pub stored :
      let fixed = corrected fix m.ns_loaded_write_fix (redirect addr) new_bytes in
      write_at m.regions (redirect addr) (saturating_add (redirect addr) (length fixed)) fixed
      ≡ ok m'.regions
  pub result : m' ≡ record m { regions = m'.regions }

pub write-Written :
    (fix : Bool) (m : MemoryModel) (addr : ℕ) (new_bytes : List ℕ) {m' : MemoryModel}
    → write fix m addr new_bytes ≡ ok m'
    → Written fix m addr new_bytes m'
unfolding write
write-Written fix m addr new_bytes e = ground arith

pub write-IsValid :
    (fix : Bool) (m : MemoryModel) (addr : ℕ) (new_bytes : List ℕ) {m' : MemoryModel}
    → IsValid m
    → write fix m addr new_bytes ≡ ok m'
    → IsValid m'
write-IsValid fix m addr new_bytes {m'} v e =
    let w = write-Written fix m addr new_bytes e in
    let s : Same m.regions m'.regions =
      OnOk-apply (Same m.regions) (write_at-Same m.regions (redirect addr) _ _) w.stored in
    rw w.result (record {
      ordered = v.ordered;
      small = v.small;
      bounded = Same-All m.min_addr m.max_addr m.regions m'.regions s v.bounded;
      apart = Same-Pairwise m.regions m'.regions s v.apart;
    })
