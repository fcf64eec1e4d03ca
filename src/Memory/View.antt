-- ===== src/Memory/View.antt =====
-- What the regions of `MemoryModel` (crates/daoti-core/src/elf/runtime.rs) mean: a partial map
-- from addresses to permissions and bytes.
use yl.Prelude.{
  ℕ, ◌+◌, ◌-◌, ◌≤◌, ◌≡◌, refl, ap, ◌∙◌, inl, inr, Bool, true, false, ◌&&◌, Option, none, some, List,
  [], ◌∷◌, ◌++◌, arith, ltb, leb, if◌then◌else◌, Bool-cases, length, length-take, take, drop,
  get_or, get_or-append, get_or-take, get_or-drop, OnOk, OnOk->>=, OnOk-map, OnOk-intro,
  saturating_add, All, Pairwise, ok,
}
use yl.Memory.{
  MemPerm, MemoryRegion, region_end, insert_by_base, sort_by_base, contains, write_at, store_in,
}
use yl.Memory.Same.{Stored, store_in-Stored}
use yl.Memory.Regions.{Apart, All-sort_by_base}
use mathlib.Core.Option
use mathlib.Core.Path.{ap₂}

pub record Cell : Type 0 where
  pub perm : MemPerm
  pub byte : ℕ

abbrev pub covers : ℕ → MemoryRegion → Bool
covers a r = leb r.base a && ltb a (region_end r)

abbrev pub cell_in : MemoryRegion → ℕ → Cell
cell_in r a = record { perm = r.perm; byte = get_or r.bytes (a - r.base) 0 }

unfoldable pub view : List MemoryRegion → ℕ → Option Cell
view [] a = none
view (r ∷ rs) a = if covers a r then some (cell_in r a) else view rs a

view-insert_by_base :
    (r : MemoryRegion) (rs : List MemoryRegion) (a : ℕ)
    → All (Apart r) rs
    → view (insert_by_base r rs) a ≡ view (r ∷ rs) a
unfolding view insert_by_base
view-insert_by_base r [] a h = refl
view-insert_by_base r (s ∷ rs) a h = ground (arith, view-insert_by_base r rs a h.1)

pub view-sort_by_base :
    (rs : List MemoryRegion) (a : ℕ) → Pairwise Apart rs → view (sort_by_base rs) a ≡ view rs a
unfolding view sort_by_base
view-sort_by_base [] a p = refl
view-sort_by_base (r ∷ rs) a p =
    view-insert_by_base r (sort_by_base rs) a (All-sort_by_base (Apart r) rs p.0)
    ∙ ap (λ o. if covers a r then some (cell_in r a) else o) (view-sort_by_base rs a p.1)

pub view-append :
    (rs : List MemoryRegion) (r : MemoryRegion) (a : ℕ)
    → All (Apart r) rs
    → view (rs ++ r ∷ []) a ≡ view (r ∷ rs) a
unfolding view
view-append [] r a h = refl
view-append (s ∷ rs) r a h = ground (arith, view-append rs r a h.1)

-- An address that a region covers is not covered by a region apart from it.
pub view-Apart :
    (r : MemoryRegion) (rs : List MemoryRegion) (a : ℕ)
    → All (Apart r) rs
    → covers a r ≡ true
    → view rs a ≡ none
unfolding view
view-Apart r [] a h c = refl
view-Apart r (s ∷ rs) a h c = ground (arith, view-Apart r rs a h.1 c)

-- A range of addresses.
abbrev pub in_range : ℕ → ℕ → ℕ → Bool
in_range addr len a = leb addr a && ltb a (addr + len)

-- The cell at `a` once `new_bytes` stand at `addr`.
abbrev pub patched : ℕ → List ℕ → ℕ → Option Cell → Option Cell
patched addr new_bytes a o =
    if in_range addr (length new_bytes) a
    then Option.map (λ (c : Cell). record c { byte = get_or new_bytes (a - addr) 0 }) o
    else o

get_or-splice :
    (bytes new_bytes : List ℕ) (start i : ℕ)
    → start + length new_bytes ≤ length bytes
    → get_or (take start bytes ++ (new_bytes ++ drop (start + length new_bytes) bytes)) i 0 ≡ (
        if in_range start (length new_bytes) i
        then get_or new_bytes (i - start) 0
        else get_or bytes i 0)
get_or-splice bytes new_bytes start i h =
    let k = start + length new_bytes in
    let e : length (take start bytes) ≡ start = omega (arith, length-take start bytes) in
    let beyond : k ≤ i → get_or bytes (k + (i - start - length new_bytes)) 0 ≡ get_or bytes i 0 =
      λ l.
        let same : k + (i - start - length new_bytes) ≡ i = omega arith in
        ap (λ j. get_or bytes j 0) same in
    get_or-append (take start bytes) (new_bytes ++ drop k bytes) i 0
    ∙ rw e (
        ground (
          arith,
          get_or-take start bytes i 0,
          get_or-append new_bytes (drop k bytes) (i - start) 0,
          get_or-drop k bytes (i - start - length new_bytes) 0,
          beyond,
        ))

write_at_elsewhere :
    (r : MemoryRegion) (rs : List MemoryRegion) (addr a : ℕ) (new_bytes : List ℕ)
    → All (Apart r) rs
    → covers a r ≡ true
    → OnOk
        (write_at rs addr (saturating_add addr (length new_bytes)) new_bytes)
        (λ _. in_range addr (length new_bytes) a ≡ false)
unfolding write_at
write_at_elsewhere r [] addr a new_bytes h c = tt
write_at_elsewhere r (s ∷ rs) addr a new_bytes h c =
    let stop = saturating_add addr (length new_bytes) in
    let out : List MemoryRegion → Type 0 = λ _. in_range addr (length new_bytes) a ≡ false in
    elim (Bool-cases (contains addr stop s)) [
      | inl e ↦ rw e (
          OnOk->>= (store_in s addr new_bytes) (λ s'. ok (s' ∷ rs)) out
            (OnOk-intro (store_in s addr new_bytes)
              (λ s'. in_range addr (length new_bytes) a ≡ false)
              (λ s' x. ground (arith, store_in-Stored s addr new_bytes x))))
      | inr e ↦ rw e (
          OnOk-map out out (λ rs'. s ∷ rs') (write_at rs addr stop new_bytes) (λ rs' x. x)
            (write_at_elsewhere r rs addr a new_bytes h.1 c))
    ]

byte_hit :
    (r r' : MemoryRegion) (addr : ℕ) (new_bytes : List ℕ) (a : ℕ)
    → r.base ≤ addr
    → r.base ≤ a
    → Stored r addr new_bytes r'
    → get_or r'.bytes (a - r'.base) 0 ≡ (
        if in_range addr (length new_bytes) a
        then get_or new_bytes (a - addr) 0
        else get_or r.bytes (a - r.base) 0)
byte_hit r r' addr new_bytes a low above s =
    let start = addr - r.base in
    let index : a - r.base - start ≡ a - addr = omega arith in
    ap₂ (λ bs b. get_or bs (a - b) 0) s.bytes s.base
    ∙ get_or-splice r.bytes new_bytes start (a - r.base) s.fits
    ∙ rw index (ground arith)

view_hit :
    (r r' : MemoryRegion) (rs : List MemoryRegion) (addr : ℕ) (new_bytes : List ℕ) (a : ℕ)
    → r.base ≤ addr
    → Stored r addr new_bytes r'
    → view (r' ∷ rs) a ≡ patched addr new_bytes a (view (r ∷ rs) a)
unfolding view
view_hit r r' rs addr new_bytes a low s =
    ground (arith, λ (h : r.base ≤ a). byte_hit r r' addr new_bytes a low h s)

pub view-write_at :
    (rs : List MemoryRegion) (addr : ℕ) (new_bytes : List ℕ) (a : ℕ)
    → Pairwise Apart rs
    → OnOk
        (write_at rs addr (saturating_add addr (length new_bytes)) new_bytes)
        (λ rs'. view rs' a ≡ patched addr new_bytes a (view rs a))
unfolding write_at view
view-write_at [] addr new_bytes a p = tt
view-write_at (r ∷ rs) addr new_bytes a p =
    let stop = saturating_add addr (length new_bytes) in
    let done : List MemoryRegion → Type 0 =
      λ rs'. view rs' a ≡ patched addr new_bytes a (view (r ∷ rs) a) in
    elim (Bool-cases (contains addr stop r)) [
      | inl e ↦ rw e (
          OnOk->>= (store_in r addr new_bytes) (λ r'. ok (r' ∷ rs)) done
            (OnOk-intro (store_in r addr new_bytes) (λ r'. done (r' ∷ rs))
              (λ r' x.
                view_hit r r' rs addr new_bytes a (ground arith)
                  (store_in-Stored r addr new_bytes x))))
      | inr e ↦
          let rest = write_at rs addr stop new_bytes in
          rw e (elim (Bool-cases (covers a r)) [
            | inl c ↦
                OnOk-map (λ _. in_range addr (length new_bytes) a ≡ false) done (λ rs'. r ∷ rs')
                  rest (λ rs' x. ground arith) (write_at_elsewhere r rs addr a new_bytes p.0 c)
            | inr c ↦
                OnOk-map (λ rs'. view rs' a ≡ patched addr new_bytes a (view rs a)) done
                  (λ rs'. r ∷ rs') rest (λ rs' x. ground arith)
                  (view-write_at rs addr new_bytes a p.1)
          ])
    ]
