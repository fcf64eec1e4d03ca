-- ===== src/Memory/Held.antt =====
-- The bytes that a write to the memory of crates/daoti-core/src/elf/runtime.rs leaves there.
use yl.Prelude.{
  ℕ, ◌+◌, ◌-◌, ◌<◌, ◌≡◌, refl, ap, ◌∙◌, inl, inr, arith, true, false, Option, some, List, [], ◌∷◌,
  Bool-cases, length, get_or, ok, saturating_add, OnOk, OnOk-apply, none, OnOk-bind,
}
use yl.Memory.{MemoryRegion, MemoryModel, contains, corrected, store_in, write, write_at, redirect}
use yl.Memory.Access.{view-write}
use yl.Memory.Same.{store_in-Stored}
use yl.Memory.Valid as Regions
use yl.Memory.View.{Cell, covers, cell_in, view, in_range, patched}

-- `bytes` stand in memory at `addr`.
abbrev pub Holds : MemoryModel → ℕ → List ℕ → Type 0
Holds m addr bytes =
    (i : ℕ)
    → i < length bytes
    → (c : Cell) × (view m.regions (addr + i) ≡ some c) × (c.byte ≡ get_or bytes i 0)

-- A range that is written was mapped.
write_at-mapped :
    (rs : List MemoryRegion) (addr : ℕ) (bytes : List ℕ) (a : ℕ)
    → in_range addr (length bytes) a ≡ true
    → OnOk
        (write_at rs addr (saturating_add addr (length bytes)) bytes)
        (λ _. (c : Cell) × (view rs a ≡ some c))
unfolding write_at view
write_at-mapped [] addr bytes a inside = tt
write_at-mapped (r ∷ rs) addr bytes a inside =
    let stop = saturating_add addr (length bytes) in
    elim (Bool-cases (contains addr stop r)) [
      | inl e ↦ rw e (
          OnOk-bind (store_in r addr bytes) _ _ (λ r' done.
            let s = store_in-Stored r addr bytes done in
            let hit : covers a r ≡ true = ground (arith, s.fits) in (cell_in r a, rw hit refl)))
      | inr e ↦ rw e (
          OnOk-bind (write_at rs addr stop bytes) _ _ (λ rs' done. elim (Bool-cases (covers a r)) [
            | inl c ↦ (cell_in r a, rw c refl)
            | inr c ↦ rw c (
                OnOk-apply (λ _. (c : Cell) × (view rs a ≡ some c))
                  (write_at-mapped rs addr bytes a inside) done)
          ]))
    ]

patched_inside :
    (addr : ℕ) (bytes : List ℕ) (a : ℕ) (o : Option Cell) (c : Cell)
    → in_range addr (length bytes) a ≡ true
    → o ≡ some c
    → patched addr bytes a o ≡ some (record c { byte = get_or bytes (a - addr) 0 })
patched_inside addr bytes a o c inside e = rw (inside, e) refl

-- Without the correction of a namespace head, a write stores the bytes as they are.
pub corrected-eq :
    (o : Option (ℕ × ℕ)) (addr : ℕ) (bytes : List ℕ) → corrected false o addr bytes ≡ bytes
unfolding corrected
corrected-eq none addr bytes = refl
corrected-eq (some o) addr bytes = refl

module _ (m : MemoryModel) (addr : ℕ) (bytes : List ℕ) {m' : MemoryModel} (v : Regions.IsValid m)
    (e : write false m addr bytes ≡ ok m') where
  pub written_cells :
      (a : ℕ) → view m'.regions a ≡ patched (redirect addr) bytes a (view m.regions a)
  written_cells a =
      view-write false m addr bytes v e a
      ∙ ap (λ new. patched (redirect addr) new a (view m.regions a))
          (corrected-eq m.ns_loaded_write_fix (redirect addr) bytes)

  written_at :
      write_at m.regions (redirect addr) (saturating_add (redirect addr) (length bytes)) bytes
      ≡ ok m'.regions
  written_at =
      let w = (Regions.write-Written false m addr bytes e).stored in
      let same = corrected-eq m.ns_loaded_write_fix (redirect addr) bytes in rw same at w

  pub write-Holds : Holds m' (redirect addr) bytes
  write-Holds i l =
      let at = redirect addr in
      let inside : in_range at (length bytes) (at + i) ≡ true = ground arith in
      let (c, before) =
        OnOk-apply (λ _. (c : Cell) × (view m.regions (at + i) ≡ some c))
          (write_at-mapped m.regions at bytes (at + i) inside) written_at in
      let index : at + i - at ≡ i = omega arith in
      (
        record c { byte = get_or bytes i 0 },
        written_cells (at + i)
            ∙ patched_inside at bytes (at + i) (view m.regions (at + i)) c inside before
            ∙ ap (λ k. some (record c { byte = get_or bytes k 0 })) index,
        refl,
      )
