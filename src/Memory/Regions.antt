-- ===== src/Memory/Regions.antt =====
-- Lists of regions that do not overlap: the facts behind `add_region` and `mprotect` of
-- crates/daoti-core/src/elf/runtime.rs.
use yl.Prelude.{
  ℕ, ◌-◌, ◌≤◌, ◌≡◌, ◌⊎◌, inl, inr, false, List, [], ◌∷◌, ◌++◌, arith, ltb, leb, Bool-cases, length,
  length-take, length-drop, take, drop, any, OnSome, OnSome-map, OnSome-×, All, All-append, All-map,
  Pairwise,
}
use yl.Memory.{
  MemPerm, MemoryRegion, region_end, insert_by_base, sort_by_base, overlaps, contains, split_region,
  protect_first,
}

abbrev pub Within : ℕ → ℕ → MemoryRegion → Type 0
Within lo hi r = (lo ≤ r.base) × (region_end r ≤ hi)

-- No address lies in both.
abbrev pub Apart : MemoryRegion → MemoryRegion → Type 0
Apart r s = (region_end r ≤ s.base) ⊎ (region_end s ≤ r.base)

pub Apart-symm : (r s : MemoryRegion) → Apart r s → Apart s r
Apart-symm r s (inl h) = inr h
Apart-symm r s (inr h) = inl h

pub All-insert_by_base {κ} :
    (P : MemoryRegion → Type κ) (r : MemoryRegion) (rs : List MemoryRegion)
    → P r
    → All P rs
    → All P (insert_by_base r rs)
unfolding insert_by_base
All-insert_by_base P r [] p h = (p, tt)
All-insert_by_base P r (s ∷ rs) p h = elim (Bool-cases (leb r.base s.base)) [
  | inl e ↦ rw e (p, (h.0, h.1))
  | inr e ↦ rw e (h.0, All-insert_by_base P r rs p h.1)
]

pub All-sort_by_base {κ} :
    (P : MemoryRegion → Type κ) (rs : List MemoryRegion) → All P rs → All P (sort_by_base rs)
unfolding sort_by_base
All-sort_by_base P [] h = tt
All-sort_by_base P (r ∷ rs) h =
    All-insert_by_base P r (sort_by_base rs) h.0 (All-sort_by_base P rs h.1)

Pairwise-insert_by_base :
    (r : MemoryRegion) (rs : List MemoryRegion)
    → All (Apart r) rs
    → Pairwise Apart rs
    → Pairwise Apart (insert_by_base r rs)
unfolding insert_by_base
Pairwise-insert_by_base r [] a p = (tt, tt)
Pairwise-insert_by_base r (s ∷ rs) a p = elim (Bool-cases (leb r.base s.base)) [
  | inl e ↦ rw e (a, p)
  | inr e ↦ rw e (
    All-insert_by_base (Apart s) r rs (Apart-symm r s a.0) p.0,
    Pairwise-insert_by_base r rs a.1 p.1,
  )
]

pub Pairwise-sort_by_base :
    (rs : List MemoryRegion) → Pairwise Apart rs → Pairwise Apart (sort_by_base rs)
unfolding sort_by_base
Pairwise-sort_by_base [] p = tt
Pairwise-sort_by_base (r ∷ rs) p =
    Pairwise-insert_by_base r (sort_by_base rs) (All-sort_by_base (Apart r) rs p.0)
      (Pairwise-sort_by_base rs p.1)

-- The test of `add_region` finds no overlap exactly when the range is apart from every region.
pub any-overlaps :
    (r : MemoryRegion) (rs : List MemoryRegion)
    → any (overlaps r.base (region_end r)) rs ≡ false
    → All (Apart r) rs
any-overlaps r [] h = tt
any-overlaps r (s ∷ rs) h = (ground arith, any-overlaps r rs (ground arith))

pub Pairwise-append :
    (rs ss : List MemoryRegion)
    → Pairwise Apart rs
    → Pairwise Apart ss
    → All (λ r. All (Apart r) ss) rs
    → Pairwise Apart (rs ++ ss)
Pairwise-append [] ss p q h = q
Pairwise-append (r ∷ rs) ss p q h =
    (All-append (Apart r) rs ss p.0 h.0, Pairwise-append rs ss p.1 q h.1)

-- What a piece of a region keeps of it.
abbrev pub Inside : MemoryRegion → MemoryRegion → Type 0
Inside r s = (r.base ≤ s.base) × (region_end s ≤ region_end r)

module _ (addr stop : ℕ) (perm : MemPerm) (r : MemoryRegion) where
  abbrev pub Held : Type 0
  Held = (r.base ≤ addr) × (addr ≤ stop) × (stop ≤ region_end r)

  pub pieces :
      Held
      → (length (take (addr - r.base) r.bytes) ≡ addr - r.base)
        × (length (take (stop - r.base - (addr - r.base)) (drop (addr - r.base) r.bytes))
            ≡ stop - addr)
        × (length (drop (stop - r.base) r.bytes) ≡ region_end r - stop)
  pieces h =
      let t = length-take (addr - r.base) r.bytes in
      let m = length-take (stop - r.base - (addr - r.base)) (drop (addr - r.base) r.bytes) in
      let d = length-drop (addr - r.base) r.bytes in
      let e = length-drop (stop - r.base) r.bytes in (omega arith, omega arith, omega arith)

  pub split_region-Inside : Held → All (Inside r) (split_region addr stop perm r)
  unfolding split_region
  split_region-Inside h = elim (Bool-cases (ltb 0 (addr - r.base))) [
    | inl e ↦ elim (Bool-cases (ltb (stop - r.base) (length r.bytes))) [
      | inl d ↦ rw (e, d) (omega (arith, pieces h))
      | inr d ↦ rw (e, d) (omega (arith, pieces h))
    ]
    | inr e ↦ elim (Bool-cases (ltb (stop - r.base) (length r.bytes))) [
      | inl d ↦ rw (e, d) (omega (arith, pieces h))
      | inr d ↦ rw (e, d) (omega (arith, pieces h))
    ]
  ]

  pub split_region-Pairwise : Held → Pairwise Apart (split_region addr stop perm r)
  unfolding split_region
  split_region-Pairwise h = elim (Bool-cases (ltb 0 (addr - r.base))) [
    | inl e ↦ elim (Bool-cases (ltb (stop - r.base) (length r.bytes))) [
      | inl d ↦ rw (e, d) (omega (arith, pieces h))
      | inr d ↦ rw (e, d) (omega (arith, pieces h))
    ]
    | inr e ↦ elim (Bool-cases (ltb (stop - r.base) (length r.bytes))) [
      | inl d ↦ rw (e, d) (omega (arith, pieces h))
      | inr d ↦ rw (e, d) (omega (arith, pieces h))
    ]
  ]

-- A piece of a region is apart from what the region is apart from.
Apart-Inside : (r s t : MemoryRegion) → Inside r s → Apart r t → Apart s t
Apart-Inside r s t i (inl h) = inl (omega arith)
Apart-Inside r s t i (inr h) = inr (omega arith)

Inside-Apart-All :
    (r : MemoryRegion) (rs ss : List MemoryRegion)
    → All (Apart r) rs
    → All (Inside r) ss
    → All (λ s. All (Apart s) rs) ss
Inside-Apart-All r rs ss a i =
    All-map (Inside r) (λ s. All (Apart s) rs) ss
      (λ s x. All-map (Apart r) (Apart s) rs (λ t. Apart-Inside r s t x) a) i

module _ (addr stop : ℕ) (perm : MemPerm) (forward : addr ≤ stop) where
  pub protect_first-All :
      (P : MemoryRegion → Type 0)
      → ((r s : MemoryRegion) → P r → Inside r s → P s)
      → (rs : List MemoryRegion) → All P rs
      → OnSome (protect_first addr stop perm rs) (All P)
  unfolding protect_first
  protect_first-All P down [] h = tt
  protect_first-All P down (r ∷ rs) h = elim (Bool-cases (contains addr stop r)) [
    | inl e ↦ rw e (
        All-append P (split_region addr stop perm r) rs
          (All-map (Inside r) P (split_region addr stop perm r) (λ s. down r s h.0)
            (split_region-Inside addr stop perm r (ground arith)))
          h.1)
    | inr e ↦ rw e (
        OnSome-map (All P) (All P) (λ rs'. r ∷ rs') (protect_first addr stop perm rs)
          (λ rs' x. (h.0, x)) (protect_first-All P down rs h.1))
  ]

  pub protect_first-Pairwise :
      (rs : List MemoryRegion)
      → Pairwise Apart rs
      → OnSome (protect_first addr stop perm rs) (Pairwise Apart)
  unfolding protect_first
  protect_first-Pairwise [] p = tt
  protect_first-Pairwise (r ∷ rs) p = elim (Bool-cases (contains addr stop r)) [
    | inl e ↦
        let held : Held addr stop perm r = ground arith in
        rw e (
          Pairwise-append (split_region addr stop perm r) rs
            (split_region-Pairwise addr stop perm r held) p.1
            (Inside-Apart-All r rs (split_region addr stop perm r) p.0
              (split_region-Inside addr stop perm r held)))
    | inr e ↦ rw e (
        OnSome-map (λ rs'. All (Apart r) rs' × Pairwise Apart rs') (Pairwise Apart) (λ rs'. r ∷ rs')
          (protect_first addr stop perm rs) (λ rs' x. x)
          (OnSome-× (All (Apart r)) (Pairwise Apart) (protect_first addr stop perm rs)
            (protect_first-All (Apart r)
              (λ s t a i. Apart-symm t r (Apart-Inside s t r i (Apart-symm r s a))) rs p.0)
            (protect_first-Pairwise rs p.1)))
  ]
