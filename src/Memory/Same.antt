-- ===== src/Memory/Same.antt =====
-- The shape of the regions before and after `MemoryModel::write` in
-- crates/daoti-core/src/elf/runtime.rs.
use yl.Prelude.{
  ℕ, ◌+◌, ◌-◌, ◌≤◌, ◌≡◌, refl, inl, inr, true, List, [], ◌∷◌, ◌++◌, arith, Bool-cases, length,
  length-append, length-take, length-drop, take, drop, OnOk, OnOk->>=, OnOk-map, OnOk-intro, ◌∙◌,
  ap, sym, All, Pairwise, ok,
}
use yl.Memory.{MemoryRegion, contains, write_at, store_in}
use yl.Memory.Regions.{Within, Apart}

-- The same regions, but for the bytes in them.
abbrev pub Same : List MemoryRegion → List MemoryRegion → Type 0
Same [] [] = Unit
Same (r ∷ rs) (s ∷ ss) =
    ((r.base ≡ s.base) × (length r.bytes ≡ length s.bytes) × (r.perm ≡ s.perm)) × Same rs ss
Same [] (s ∷ ss) = ⊥
Same (r ∷ rs) [] = ⊥

pub Same-refl : (rs : List MemoryRegion) → Same rs rs
Same-refl [] = tt
Same-refl (r ∷ rs) = ((refl, refl, refl), Same-refl rs)

pub length-splice :
    (bytes new_bytes : List ℕ) (start : ℕ)
    → start + length new_bytes ≤ length bytes
    → length (take start bytes ++ (new_bytes ++ drop (start + length new_bytes) bytes))
      ≡ length bytes
length-splice bytes new_bytes start h = omega (
  arith,
  length-append (take start bytes) (new_bytes ++ drop (start + length new_bytes) bytes),
  length-append new_bytes (drop (start + length new_bytes) bytes),
  length-take start bytes,
  length-drop (start + length new_bytes) bytes,
)

-- What `store_in` returns: the region with `new_bytes` in the place of as many bytes.
pub record Stored (r : MemoryRegion) (addr : ℕ) (new_bytes : List ℕ) (r' : MemoryRegion)
    : Type 0 where
  pub writable : r.perm.write ≡ true
  pub fits : addr - r.base + length new_bytes ≤ length r.bytes
  pub base : r'.base ≡ r.base
  pub perm : r'.perm ≡ r.perm
  pub bytes :
      r'.bytes
      ≡ take (addr - r.base) r.bytes
        ++ (new_bytes ++ drop (addr - r.base + length new_bytes) r.bytes)
  pub size : length r'.bytes ≡ length r.bytes

pub store_in-Stored :
    (r : MemoryRegion) (addr : ℕ) (new_bytes : List ℕ) {r' : MemoryRegion}
    → store_in r addr new_bytes ≡ ok r'
    → Stored r addr new_bytes r'
unfolding store_in
store_in-Stored r addr new_bytes {r'} e =
    let fits : addr - r.base + length new_bytes ≤ length r.bytes = ground arith in
    let bytes : r'.bytes
        ≡ take (addr - r.base) r.bytes
          ++ (new_bytes ++ drop (addr - r.base + length new_bytes) r.bytes) =
      ground arith in
    record {
      writable = ground arith;
      fits = fits;
      base = ground arith;
      perm = ground arith;
      bytes = bytes;
      size = ap length bytes ∙ length-splice r.bytes new_bytes (addr - r.base) fits;
    }

pub write_at-Same :
    (rs : List MemoryRegion) (addr stop : ℕ) (new_bytes : List ℕ)
    → OnOk (write_at rs addr stop new_bytes) (Same rs)
unfolding write_at
write_at-Same [] addr stop new_bytes = tt
write_at-Same (r ∷ rs) addr stop new_bytes = elim (Bool-cases (contains addr stop r)) [
  | inl e ↦ rw e (
      OnOk->>= (store_in r addr new_bytes) (λ r'. ok (r' ∷ rs)) (Same (r ∷ rs))
        (OnOk-intro (store_in r addr new_bytes) (λ r'. Same (r ∷ rs) (r' ∷ rs))
          (λ r' x.
            let s = store_in-Stored r addr new_bytes x in
            ((sym s.base, sym s.size, sym s.perm), Same-refl rs))))
  | inr e ↦ rw e (
      OnOk-map (Same rs) (Same (r ∷ rs)) (λ rs'. r ∷ rs') (write_at rs addr stop new_bytes)
        (λ rs' s. ((refl, refl, refl), s)) (write_at-Same rs addr stop new_bytes))
]

pub Same-All :
    (lo hi : ℕ) (rs ss : List MemoryRegion)
    → Same rs ss
    → All (Within lo hi) rs
    → All (Within lo hi) ss
Same-All lo hi [] [] s h = tt
Same-All lo hi (r ∷ rs) (t ∷ ss) s h = (omega arith, Same-All lo hi rs ss s.1 h.1)
Same-All lo hi [] (t ∷ ss) s h = absurd s
Same-All lo hi (r ∷ rs) [] s h = absurd s

Same-Apart :
    (r t : MemoryRegion) (rs ss : List MemoryRegion)
    → r.base ≡ t.base
    → length r.bytes ≡ length t.bytes
    → Same rs ss
    → All (Apart r) rs
    → All (Apart t) ss
Same-Apart r t [] [] b l s h = tt
Same-Apart r t (q ∷ rs) (u ∷ ss) b l s h = (ground arith, Same-Apart r t rs ss b l s.1 h.1)
Same-Apart r t [] (u ∷ ss) b l s h = absurd s
Same-Apart r t (q ∷ rs) [] b l s h = absurd s

pub Same-Pairwise : (rs ss : List MemoryRegion) → Same rs ss → Pairwise Apart rs → Pairwise Apart ss
Same-Pairwise [] [] s p = tt
Same-Pairwise (r ∷ rs) (t ∷ ss) s p =
    (Same-Apart r t rs ss s.0.0 s.0.1 s.1 p.0, Same-Pairwise rs ss s.1 p.1)
Same-Pairwise [] (t ∷ ss) s p = absurd s
Same-Pairwise (r ∷ rs) [] s p = absurd s
