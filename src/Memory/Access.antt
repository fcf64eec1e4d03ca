-- ===== src/Memory/Access.antt =====
-- Reads and writes of `MemoryModel` (crates/daoti-core/src/elf/runtime.rs) against the map that
-- its regions stand for.
use yl.Prelude.{
  ℕ, ◌+◌, ◌-◌, ◌≤◌, ◌<◌, ◌≡◌, sym, ap, ◌∙◌, ◌⊎◌, inl, inr, Bool, true, false, some, List, [], ◌∷◌,
  arith, if◌then◌else◌, Bool-cases, Option-cases, length, length-take, length-drop, take, drop,
  get_or, get_or-take, get_or-drop, list_ext, OnSome, OnSome-apply, OnSome-weaken, OnOk-apply,
  saturating_add, Pairwise, ok,
}
use yl.Memory.{
  MemPerm, MemoryRegion, MemoryModel, contains, find_region, read_at, read, write, corrected,
  redirect,
}
use yl.Memory.Regions.{Apart}
use yl.Memory.Same.{Same, write_at-Same}
use yl.Memory.Valid.{IsValid, write-Written, write-IsValid}
use yl.Memory.View.{covers, cell_in, view, view-Apart, in_range, patched, view-write_at}

-- The region that `find_region` returns, and what it says of the map.
find_region-view :
    (rs : List MemoryRegion) (addr len : ℕ)
    → Pairwise Apart rs
    → OnSome (find_region rs addr len) (λ r.
      (contains addr (saturating_add addr len) r ≡ true)
      × ((a : ℕ) → covers a r ≡ true → view rs a ≡ some (cell_in r a)))
unfolding view
find_region-view [] addr len p = tt
find_region-view (r ∷ rs) addr len p =
    elim (Bool-cases (contains addr (saturating_add addr len) r)) [
      | inl e ↦ rw e (e, λ a c. rw c)
      | inr e ↦ rw e (
          OnSome-weaken
            (λ t.
              (contains addr (saturating_add addr len) t ≡ true)
              × ((a : ℕ) → covers a t ≡ true → view rs a ≡ some (cell_in t a)))
            (λ t.
              (contains addr (saturating_add addr len) t ≡ true)
              × ((a : ℕ)
                  → covers a t ≡ true
                  → (if covers a r then some (cell_in r a) else view rs a) ≡ some (cell_in t a)))
            (find_region rs addr len)
            (λ t h. (h.0, λ a c. ground (arith, h.1 a c, view-Apart r rs a p.0)))
            (find_region-view rs addr len p.1))
    ]

-- How a read succeeds.
pub record ReadFrom (rs : List MemoryRegion) (addr len : ℕ) (out : List ℕ) (r : MemoryRegion)
    : Type 0 where
  pub found : find_region rs addr len ≡ some r
  pub readable : r.perm.read ≡ true
  pub fits : addr - r.base + len ≤ length r.bytes
  pub bytes : out ≡ take len (drop (addr - r.base) r.bytes)

read_at-ReadFrom :
    (rs : List MemoryRegion) (addr len : ℕ) (out : List ℕ)
    → read_at rs addr len ≡ ok out
    → (r : MemoryRegion) × ReadFrom rs addr len out r
unfolding read_at
read_at-ReadFrom rs addr len out e = elim (Option-cases (find_region rs addr len)) [
  | inl n ↦ absurd (ground arith)
  | inr (r, s) ↦ (r, ground arith)
]

read_at-eq-ok :
    (rs : List MemoryRegion) (addr len : ℕ) (r : MemoryRegion)
    → find_region rs addr len ≡ some r
    → r.perm.read ≡ true
    → addr - r.base + len ≤ length r.bytes
    → read_at rs addr len ≡ ok (take len (drop (addr - r.base) r.bytes))
unfolding read_at
read_at-eq-ok rs addr len r found readable fits = rw found (ground arith)

pub slice_byte :
    (bytes : List ℕ) (base addr len i : ℕ)
    → base ≤ addr
    → i < len
    → get_or bytes (addr + i - base) 0 ≡ get_or (take len (drop (addr - base) bytes)) i 0
slice_byte bytes base addr len i low l =
    let index : addr + i - base ≡ addr - base + i = omega arith in
    ap (λ k. get_or bytes k 0) index
    ∙ sym (get_or-take len (drop (addr - base) bytes) i 0 l ∙ get_or-drop (addr - base) bytes i 0)

-- A region of one list has its match in a list of the same shape.
find_region-Same :
    (rs ss : List MemoryRegion) (addr len : ℕ)
    → Same rs ss
    → OnSome (find_region rs addr len) (λ r.
      (t : MemoryRegion) × (find_region ss addr len ≡ some t)
      × (t.base ≡ r.base)
      × (t.perm ≡ r.perm)
      × (length t.bytes ≡ length r.bytes))
find_region-Same [] ss addr len s = tt
find_region-Same (r ∷ rs) [] addr len s = absurd s
find_region-Same (r ∷ rs) (t ∷ ss) addr len s =
    elim (Bool-cases (contains addr (saturating_add addr len) r)) [
      | inl e ↦
          let c : contains addr (saturating_add addr len) t ≡ true = ground arith in
          rw e (t, rw c, sym s.0.0, sym s.0.2, sym s.0.1)
      | inr e ↦
          let c : contains addr (saturating_add addr len) t ≡ false = ground arith in
          rw (e, c) (find_region-Same rs ss addr len s.1)
    ]

-- What a read returns: `len` bytes of one region that may be read.
pub record Reads (rs : List MemoryRegion) (addr len : ℕ) (out : List ℕ) : Type 0 where
  pub perm : MemPerm
  pub readable : perm.read ≡ true
  pub size : length out ≡ len
  pub cells :
      (i : ℕ) → i < len → view rs (addr + i) ≡ some (record { perm = perm; byte = get_or out i 0 })

pub read_at-Reads :
    (rs : List MemoryRegion) (addr len : ℕ) (out : List ℕ)
    → Pairwise Apart rs
    → read_at rs addr len ≡ ok out
    → Reads rs addr len out
read_at-Reads rs addr len out p e =
    let (r, f) = read_at-ReadFrom rs addr len out e in
    let (c, cells) =
      OnSome-apply
        (λ r.
          (contains addr (saturating_add addr len) r ≡ true)
          × ((a : ℕ) → covers a r ≡ true → view rs a ≡ some (cell_in r a)))
        (find_region-view rs addr len p) f.found in
    record {
      perm = r.perm;
      readable = f.readable;
      size =
          ap length f.bytes
          ∙ omega (
            arith,
            f.fits,
            length-take len (drop (addr - r.base) r.bytes),
            length-drop (addr - r.base) r.bytes,
          );
      cells = λ i l.
          cells (addr + i) (ground (arith, f.fits))
          ∙ ap (λ b. some (record { perm = r.perm; byte = b }))
              (slice_byte r.bytes r.base addr len i (ground arith) l
                ∙ ap (λ o. get_or o i 0) (sym f.bytes));
    }

-- Where memory of the same shape could be read, it still can.
read_at-Same :
    (rs ss : List MemoryRegion) (addr len : ℕ) (out : List ℕ)
    → Same rs ss
    → read_at rs addr len ≡ ok out
    → (out' : List ℕ) × (read_at ss addr len ≡ ok out')
unfolding read_at
read_at-Same rs ss addr len out s e =
    let (r, f) = read_at-ReadFrom rs addr len out e in
    let (t, found, base, perm, size) =
      OnSome-apply
        (λ r.
          (t : MemoryRegion) × (find_region ss addr len ≡ some t)
          × (t.base ≡ r.base)
          × (t.perm ≡ r.perm)
          × (length t.bytes ≡ length r.bytes))
        (find_region-Same rs ss addr len s) f.found in
    (
      take len (drop (addr - t.base) t.bytes),
      read_at-eq-ok ss addr len t found (ap (λ q. q.read) perm ∙ f.readable)
          (omega (arith, f.fits)),
    )

-- The byte that stands at `a` after a write of `new_bytes` at `addr` over a byte `old`.
abbrev pub overwritten : ℕ → List ℕ → ℕ → ℕ → ℕ
overwritten addr new_bytes a old =
    if in_range addr (length new_bytes) a then get_or new_bytes (a - addr) 0 else old

module _ (fix : Bool) (m : MemoryModel) (addr : ℕ) (new_bytes : List ℕ) {m' : MemoryModel}
    (v : IsValid m) (e : write fix m addr new_bytes ≡ ok m') where
  abbrev fixed : List ℕ
  fixed = corrected fix m.ns_loaded_write_fix (redirect addr) new_bytes

  overwritten_inside :
      (i old : ℕ)
      → fixed ≡ new_bytes
      → i < length new_bytes
      → overwritten (redirect addr) fixed (redirect addr + i) old ≡ get_or new_bytes i 0
  overwritten_inside i old same l =
      let index : redirect addr + i - redirect addr ≡ i = omega arith in
      rw (same, index) (ground arith)

  -- A write changes the bytes of its range, and nothing else of the map.
  pub view-write : (a : ℕ) → view m'.regions a ≡ patched (redirect addr) fixed a (view m.regions a)
  view-write a =
      OnOk-apply (λ rs'. view rs' a ≡ patched (redirect addr) fixed a (view m.regions a))
        (view-write_at m.regions (redirect addr) fixed a v.apart)
        (write-Written fix m addr new_bytes e).stored

  write-Same : Same m.regions m'.regions
  write-Same =
      OnOk-apply (Same m.regions) (write_at-Same m.regions (redirect addr) _ _)
        (write-Written fix m addr new_bytes e).stored

  -- After a write to a valid memory that succeeds, every range that could be read before can be
  -- read, and gives the written bytes where it was written and the bytes of before elsewhere.
  pub read-write :
      (b len : ℕ) (old : List ℕ)
      → read m b len ≡ ok old
      → (now : List ℕ) × (read m' b len ≡ ok now)
        × (length now ≡ len)
        × ((i : ℕ)
            → i < len
            → get_or now i 0 ≡ overwritten (redirect addr) fixed (redirect b + i) (get_or old i 0))
  unfolding read
  read-write b len old before =
      let (now, after) = read_at-Same m.regions m'.regions (redirect b) len old write-Same before in
      let w = write-IsValid fix m addr new_bytes v e in
      let r = read_at-Reads m.regions (redirect b) len old v.apart before in
      let r' = read_at-Reads m'.regions (redirect b) len now w.apart after in
      (
        now,
        after,
        r'.size,
        λ i l. ground (arith, view-write (redirect b + i), r.cells i l, r'.cells i l),
      )

  -- After a write to a valid memory that succeeds, reading the written range gives exactly the
  -- written bytes, if the range could be read before and the bytes were not corrected.
  pub read-write_self :
      (old : List ℕ)
      → fixed ≡ new_bytes
      → read m addr (length new_bytes) ≡ ok old
      → read m' addr (length new_bytes) ≡ ok new_bytes
  read-write_self old same before =
      let (now, after, size, cells) = read-write addr (length new_bytes) old before in
      let bytes : now ≡ new_bytes =
        list_ext 0 now new_bytes size (λ i l.
          cells i (omega arith) ∙ overwritten_inside i (get_or old i 0) same (omega arith)) in
      after ∙ ap (λ (o : List ℕ). ok o) bytes

  -- After a write to a valid memory that succeeds, a range that could be read and shares no address
  -- with the written one reads as before.
  pub read-write_ne :
      (b len : ℕ) (old : List ℕ)
      → (redirect b + len ≤ redirect addr) ⊎ (redirect addr + length fixed ≤ redirect b)
      → read m b len ≡ ok old
      → read m' b len ≡ ok old
  unfolding read
  read-write_ne b len old away before =
      let (now, after, size, cells) = read-write b len old before in
      let r = read_at-Reads m.regions (redirect b) len old v.apart before in
      let bytes : now ≡ old =
        list_ext 0 now old (size ∙ sym r.size) (λ i l. cells i (omega arith) ∙ ground arith) in
      after ∙ ap (λ (o : List ℕ). ok o) bytes
