-- ===== src/Memory/Topdown.antt =====
-- The search of `mmap_anonymous_private_topdown` of crates/daoti-core/src/elf/runtime.rs, from the
-- top page down.
use yl.Prelude.{
  ℕ, zero, suc, ◌+◌, ◌*◌, ◌%◌, ◌≤◌, ◌<◌, ◌≡◌, inl, inr, false, [], ◌∷◌, ◌++◌, arith, ltb, leb,
  leb→le, Bool-cases, u64_mod, length, any, OnOk, OnOk-map, OnOk-intro, OnOk-weaken, saturating_add,
  Result, ok, IsOk, replicate, length-replicate,
}
use mathlib.Core.Path.{subst}
use yl.Memory.{
  MemPerm, MemoryModel, add_region, overlaps, zeroed, topdown_from, topdown_step, sort_by_base,
}
use yl.Memory.Valid.{add_region-Added}

-- A free page-aligned place for `size` bytes at `base`.
pub record IsFree (m : MemoryModel) (size base : ℕ) : Type 0 where
  pub above : m.min_addr ≤ base
  pub below : base + size ≤ m.max_addr
  pub clear : any (overlaps base (base + size)) m.regions ≡ false

-- A free place can be filled.
add_region-IsFree :
    (m : MemoryModel) (perm : MemPerm) (size base : ℕ)
    → m.max_addr < u64_mod
    → IsFree m size base
    → add_region m (zeroed base perm size)
      ≡ ok (record m { regions = sort_by_base (m.regions ++ zeroed base perm size ∷ []) })
unfolding add_region
add_region-IsFree m perm size base small f =
    let zeros : length (replicate {A = ℕ} size 0) ≡ size = length-replicate size 0 in
    rw zeros (ground arith)

-- A place that was filled was free.
filled-IsFree :
    (m : MemoryModel) (perm : MemPerm) (size base : ℕ) {m' : MemoryModel}
    → add_region m (zeroed base perm size) ≡ ok m'
    → IsFree m size base
filled-IsFree m perm size base e =
    let zeros : length (replicate {A = ℕ} size 0) ≡ size = length-replicate size 0 in
    let a = add_region-Added m (zeroed base perm size) e in
    record { above = a.above; below = omega (arith, a.below); clear = rw zeros at a.clear }

-- What a successful search from `page` down returns.
pub record Mapped (m : MemoryModel) (size : ℕ) (perm : MemPerm) (page base : ℕ) (m' : MemoryModel)
    : Type 0 where
  pub free : IsFree m size base
  pub aligned : base % 4096 ≡ 0
  pub highest : (p : ℕ) → p ≤ page → IsFree m size (p * 4096) → p * 4096 ≤ base
  pub filled : add_region m (zeroed base perm size) ≡ ok m'

module _ (m : MemoryModel) (size : ℕ) (perm : MemPerm) (small : m.max_addr < u64_mod) where
  -- One round: it fills `base`, or hands over to the rest because `base` is not free.
  topdown_step-cases :
      (P : ℕ → MemoryModel → Type 0) (page : ℕ) (lower : Result (ℕ × MemoryModel))
      → ((m' : MemoryModel)
          → add_region m (zeroed (page * 4096) perm size) ≡ ok m'
          → P (page * 4096) m')
      → (¬ IsFree m size (page * 4096) → OnOk lower (λ r. P r.0 r.1))
      → OnOk (topdown_step m size perm (page * 4096) lower) (λ r. P r.0 r.1)
  unfolding topdown_step
  topdown_step-cases P page lower here below =
      let base = page * 4096 in
      elim (Bool-cases (ltb base m.min_addr)) [
        | inl e ↦ rw e tt
        | inr e ↦ elim (Bool-cases (any (overlaps base (saturating_add base size)) m.regions)) [
          | inl o ↦
              rw (e, o)
                (below (λ f.
                  let exact : saturating_add base size ≡ base + size = ground (arith, f.below) in
                  cc (rw exact at o, f.clear)))
          | inr o ↦
              rw (e, o)
                (OnOk-map (λ m'. P base m') (λ r. P r.0 r.1) (λ m'. (base, m'))
                  (add_region m (zeroed base perm size)) (λ m' x. x)
                  (OnOk-intro (add_region m (zeroed base perm size)) (λ m'. P base m') here))
        ]
      ]

  pub topdown_from-Mapped :
      (page : ℕ) → OnOk (topdown_from m size perm page) (λ r. Mapped m size perm page r.0 r.1)
  unfolding topdown_from
  topdown_from-Mapped zero =
      topdown_step-cases (Mapped m size perm 0) 0 _
        (λ m' e. record {
          free = filled-IsFree m perm size 0 e;
          aligned = omega arith;
          highest = λ p l f. omega arith;
          filled = e;
        })
        (λ n. tt)
  topdown_from-Mapped (suc page) =
      topdown_step-cases (Mapped m size perm (suc page)) (suc page) (topdown_from m size perm page)
        (λ m' e. record {
          free = filled-IsFree m perm size (suc page * 4096) e;
          aligned = omega arith;
          highest = λ p l f. omega arith;
          filled = e;
        })
        (λ n.
          OnOk-weaken (λ r. Mapped m size perm page r.0 r.1)
            (λ r. Mapped m size perm (suc page) r.0 r.1) (topdown_from m size perm page)
            (λ r x. record {
              free = x.free;
              aligned = x.aligned;
              highest = λ p l f. elim (Bool-cases (leb p page)) [
                | inl e ↦ x.highest p (leb→le p page e) f
                | inr e ↦
                    let last : p ≡ suc page = ground arith in
                    absurd (n (subst (λ q. IsFree m size (q * 4096)) last f))
              ];
              filled = x.filled;
            })
            (topdown_from-Mapped page))

  topdown_step-IsOk :
      (page : ℕ) (lower : Result (ℕ × MemoryModel))
      → page * 4096 + size ≤ m.max_addr
      → m.min_addr ≤ page * 4096
      → (¬ IsFree m size (page * 4096) → IsOk lower)
      → IsOk (topdown_step m size perm (page * 4096) lower)
  unfolding topdown_step
  topdown_step-IsOk page lower fits above below =
      let base = page * 4096 in
      let low : ltb base m.min_addr ≡ false = ground arith in
      let exact : saturating_add base size ≡ base + size = ground arith in
      elim (Bool-cases (any (overlaps base (base + size)) m.regions)) [
        | inl o ↦ rw (low, exact, o) (below (λ f. cc (o, f.clear)))
        | inr o ↦
            let free : IsFree m size base = record { above = above; below = fits; clear = o } in
            rw (low, exact, o, add_region-IsFree m perm size base small free) tt
      ]

  -- The search succeeds where some page at or below its start is free.
  pub topdown_from-IsOk :
      (page p : ℕ)
      → page * 4096 + size ≤ m.max_addr
      → p ≤ page
      → IsFree m size (p * 4096)
      → IsOk (topdown_from m size perm page)
  unfolding topdown_from
  topdown_from-IsOk zero p fits le f =
      let same : p ≡ 0 = omega arith in
      topdown_step-IsOk 0 _ fits (omega (arith, f.above))
        (λ n. absurd (n (subst (λ q. IsFree m size (q * 4096)) same f)))
  topdown_from-IsOk (suc page) p fits le f =
      topdown_step-IsOk (suc page) (topdown_from m size perm page) fits (omega (arith, f.above))
        (λ n. elim (Bool-cases (leb p page)) [
          | inl e ↦ topdown_from-IsOk page p (omega arith) (leb→le p page e) f
          | inr e ↦
              let last : p ≡ suc page = ground arith in
              absurd (n (subst (λ q. IsFree m size (q * 4096)) last f))
        ])
