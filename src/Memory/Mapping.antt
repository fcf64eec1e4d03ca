-- ===== src/Memory/Mapping.antt =====
-- New regions and changed permissions of `MemoryModel` (crates/daoti-core/src/elf/runtime.rs):
-- what `add_region` and `mprotect` do to the map from addresses to cells.
use yl.Prelude.{
  ℕ, ◌+◌, ◌-◌, ◌≤◌, ◌<◌, ◌≡◌, sym, ap, ◌∙◌, inl, inr, true, false, Option, some, List, [], ◌∷◌,
  ◌++◌, arith, ltb, if◌then◌else◌, Bool-cases, length, take, drop, get_or, get_or-take, get_or-drop,
  OnSome, OnSome-apply, All, Pairwise, ok, OnSome-map,
}
use yl.Memory.{
  MemPerm, MemoryRegion, MemoryModel, contains, add_region, mprotect, protect_first, split_region,
}
use yl.Memory.Access.{slice_byte}
use yl.Memory.Regions.{Apart, Held, pieces, any-overlaps}
use yl.Memory.Valid.{IsValid, Pairwise-snoc, add_region-Added, mprotect-Protected}
use yl.Memory.View.{Cell, covers, cell_in, view, view-append, view-sort_by_base, in_range}
use mathlib.Core.Option

-- A region that is added to a valid memory adds its own cells to the map and changes no other.
pub view-add_region :
    (m : MemoryModel) (r : MemoryRegion) {m' : MemoryModel} (a : ℕ)
    → IsValid m
    → add_region m r ≡ ok m'
    → view m'.regions a ≡ (if covers a r then some (cell_in r a) else view m.regions a)
unfolding view
view-add_region m r {m'} a v e =
    let d = add_region-Added m r e in
    let clear = any-overlaps r m.regions d.clear in
    ap (λ q. view q.regions a) d.result
    ∙ view-sort_by_base (m.regions ++ r ∷ []) a (Pairwise-snoc r m.regions clear v.apart)
    ∙ view-append m.regions r a clear

-- The cell at `a` once the range has the permissions `perm`.
abbrev pub repermed : ℕ → ℕ → MemPerm → ℕ → Option Cell → Option Cell
repermed addr len perm a o =
    if in_range addr len a then Option.map (λ (c : Cell). record c { perm = perm }) o else o

module _ (addr stop : ℕ) (perm : MemPerm) (r : MemoryRegion) (h : Held addr stop perm r) where
  middle_byte :
      (a : ℕ)
      → addr ≤ a
      → a < stop
      → get_or (take (stop - r.base - (addr - r.base)) (drop (addr - r.base) r.bytes)) (a - addr) 0
        ≡ get_or r.bytes (a - r.base) 0
  middle_byte a low high =
      let index : addr + (a - addr) - r.base ≡ a - r.base = omega arith in
      sym (
        slice_byte r.bytes r.base addr (stop - r.base - (addr - r.base)) (a - addr) h.0
          (omega arith))
      ∙ ap (λ k. get_or r.bytes k 0) index

  right_byte :
      (a : ℕ)
      → stop ≤ a
      → get_or (drop (stop - r.base) r.bytes) (a - stop) 0 ≡ get_or r.bytes (a - r.base) 0
  right_byte a low =
      let index : stop - r.base + (a - stop) ≡ a - r.base = omega arith in
      get_or-drop (stop - r.base) r.bytes (a - stop) 0 ∙ ap (λ k. get_or r.bytes k 0) index

  view-split_region :
      (rs : List MemoryRegion) (a : ℕ)
      → view (split_region addr stop perm r ++ rs) a
        ≡ repermed addr (stop - addr) perm a (view (r ∷ rs) a)
  unfolding view split_region
  view-split_region rs a =
      let p = pieces addr stop perm r h in
      elim (Bool-cases (ltb 0 (addr - r.base))) [
        | inl e ↦ elim (Bool-cases (ltb (stop - r.base) (length r.bytes))) [
          | inl d ↦
              rw (e, d)
                (ground (
                  arith,
                  p,
                  get_or-take (addr - r.base) r.bytes (a - r.base) 0,
                  middle_byte a,
                  right_byte a,
                ))
          | inr d ↦
              rw (e, d)
                (ground (
                  arith,
                  p,
                  get_or-take (addr - r.base) r.bytes (a - r.base) 0,
                  middle_byte a,
                  right_byte a,
                ))
        ]
        | inr e ↦ elim (Bool-cases (ltb (stop - r.base) (length r.bytes))) [
          | inl d ↦ rw (e, d) (ground (arith, p, middle_byte a, right_byte a))
          | inr d ↦ rw (e, d) (ground (arith, p, middle_byte a, right_byte a))
        ]
      ]

module _ (addr stop : ℕ) (perm : MemPerm) (forward : addr ≤ stop) where
  protect_first_elsewhere :
      (r : MemoryRegion) (rs : List MemoryRegion) (a : ℕ)
      → All (Apart r) rs
      → covers a r ≡ true
      → OnSome (protect_first addr stop perm rs) (λ _. in_range addr (stop - addr) a ≡ false)
  unfolding protect_first
  protect_first_elsewhere r [] a h c = tt
  protect_first_elsewhere r (s ∷ rs) a h c = elim (Bool-cases (contains addr stop s)) [
    | inl e ↦ rw e (ground arith)
    | inr e ↦ rw e (
        OnSome-map (λ _. in_range addr (stop - addr) a ≡ false)
          (λ _. in_range addr (stop - addr) a ≡ false) (λ rs'. s ∷ rs')
          (protect_first addr stop perm rs) (λ rs' x. x) (protect_first_elsewhere r rs a h.1 c))
  ]

  view-protect_first :
      (rs : List MemoryRegion) (a : ℕ)
      → Pairwise Apart rs
      → OnSome
          (protect_first addr stop perm rs)
          (λ rs'. view rs' a ≡ repermed addr (stop - addr) perm a (view rs a))
  unfolding protect_first view
  view-protect_first [] a p = tt
  view-protect_first (r ∷ rs) a p =
      let done : List MemoryRegion → Type 0 =
        λ rs'. view rs' a ≡ repermed addr (stop - addr) perm a (view (r ∷ rs) a) in
      let rest = protect_first addr stop perm rs in
      elim (Bool-cases (contains addr stop r)) [
        | inl e ↦ rw e (view-split_region addr stop perm r (ground arith) rs a)
        | inr e ↦ rw e (elim (Bool-cases (covers a r)) [
          | inl c ↦
              OnSome-map (λ _. in_range addr (stop - addr) a ≡ false) done (λ rs'. r ∷ rs') rest
                (λ rs' x. ground arith) (protect_first_elsewhere r rs a p.0 c)
          | inr c ↦
              OnSome-map (λ rs'. view rs' a ≡ repermed addr (stop - addr) perm a (view rs a)) done
                (λ rs'. r ∷ rs') rest (λ rs' x. ground arith) (view-protect_first rs a p.1)
        ])
      ]

-- An `mprotect` of a valid memory that succeeds changes the permissions of its range, and leaves
-- every byte and all other permissions as they were.
pub view-mprotect :
    (m : MemoryModel) (addr len : ℕ) (perm : MemPerm) {m' : MemoryModel} (a : ℕ)
    → IsValid m
    → mprotect m addr len perm ≡ ok m'
    → view m'.regions a ≡ repermed addr len perm a (view m.regions a)
view-mprotect m addr len perm {m'} a v e =
    let p = mprotect-Protected m addr len perm e in
    let size : addr + len - addr ≡ len = omega arith in
    OnSome-apply (λ rs'. view rs' a ≡ repermed addr (addr + len - addr) perm a (view m.regions a))
      (view-protect_first addr (addr + len) perm (omega arith) m.regions a v.apart) p.replaced
    ∙ ap (λ n. repermed addr n perm a (view m.regions a)) size
