-- ===== src/Elf/Layout/Total.antt =====
-- Segments that a layout is found for: crates/daoti-core/src/elf/layout.rs, `plan_segments`.
use yl.Prelude.{
  ℕ, ◌+◌, ◌≤◌, ◌<◌, ◌≡◌, Option, none, some, List, [], ◌∷◌, arith, length, All, All-map, Pairwise,
  IsOk, IsOk->>=, IsOk-map, saturating_add, OnOk-apply, u64_mod,
}
use yl.Elf.{ElfSegment}
use yl.Elf.Layout.Sort.{Before, Separate, sort-Before, sort-All, length-sort}
use yl.Elf.Layout.Plan.{After, Laid, plan_one-Planned, plan_from-Run}
use yl.Elf.Layout.{
  SegmentMapping, plan_one, plan_from, last_end, plan_loads, plan_segments, load_segments,
  sort_by_vaddr,
}

-- Both parts of the segment end at least two pages below the end of the address space.
abbrev pub Fits : ElfSegment → Type 0
Fits s = (s.vaddr + s.memsz + 8192 ≤ u64_mod) × (s.vaddr + s.filesz + 8192 ≤ u64_mod)

plan_one-IsOk :
    (prev : Option ℕ) (bss : ℕ) (s : ElfSegment)
    → Fits s
    → After prev s
    → bss ≤ s.vaddr
    → IsOk (plan_one prev bss s)
unfolding plan_one
plan_one-IsOk none bss s f a b = ground (arith, f.0, f.1)
plan_one-IsOk (some p) bss s f a b = ground (arith, f.0, f.1)

plan_from-IsOk :
    (prev : Option ℕ) (bss : ℕ) (ss : List ElfSegment)
    → All Fits ss
    → All (After prev) ss
    → All (λ s. bss ≤ s.vaddr) ss
    → Pairwise Before ss
    → IsOk (plan_from prev bss ss)
unfolding plan_from
plan_from-IsOk prev bss [] f a b p = tt
plan_from-IsOk prev bss (s ∷ ss) f a b p =
    IsOk->>= (plan_one prev bss s) _ (plan_one-IsOk prev bss s f.0 a.0 b.0) (λ one e.
      let sum = plan_one-Planned prev bss s e in
      let next : saturating_add s.vaddr s.memsz ≡ s.vaddr + s.memsz = ground (arith, sum.fits) in
      IsOk-map (plan_from (some (saturating_add s.vaddr s.memsz)) one.1 ss) _ (
        rw next (
          plan_from-IsOk (some (s.vaddr + s.memsz)) one.1 ss f.1 p.0
            (All-map (Before s) _ ss (λ t h. omega (arith, sum.sum, b.0, h)) p.0) p.1)))

last_end-IsOk :
    (prev : Option ℕ) (ss : List ElfSegment) (ms : List SegmentMapping)
    → Laid prev ss ms
    → IsOk (last_end ms)
unfolding last_end
last_end-IsOk prev [] [] l = tt
last_end-IsOk prev [] (m ∷ ms) l = elim l [ ]
last_end-IsOk prev (s ∷ ss) [] l = elim l [ ]
last_end-IsOk prev (s ∷ []) (m ∷ []) l = ground (arith, l.1.small)
last_end-IsOk prev (s ∷ []) (m ∷ n ∷ ms) l = elim l.3 [ ]
last_end-IsOk prev (s ∷ t ∷ ss) (m ∷ []) l = elim l.3 [ ]
last_end-IsOk prev (s ∷ t ∷ ss) (m ∷ n ∷ ms) l =
    last_end-IsOk (some (s.vaddr + s.memsz)) (t ∷ ss) (n ∷ ms) l.3

plan_loads-IsOk :
    (loads : List ElfSegment)
    → 0 < length loads
    → All Fits loads
    → Pairwise Before loads
    → IsOk (plan_loads loads)
unfolding plan_loads
plan_loads-IsOk [] n f p = omega (arith, n)
plan_loads-IsOk (s ∷ ss) n f p =
    let zero_le = All-map Fits (λ t. 0 ≤ t.vaddr) (s ∷ ss) (λ t h. omega arith) f in
    let all_after = All-map Fits (After none) (s ∷ ss) (λ t h. tt) f in
    IsOk->>= (plan_from none 0 (s ∷ ss)) _ (plan_from-IsOk none 0 (s ∷ ss) f all_after zero_le p)
      (λ planned e.
        let r = OnOk-apply _ (plan_from-Run none 0 (s ∷ ss)) e in
        IsOk-map (last_end planned.0) _ (last_end-IsOk none (s ∷ ss) planned.0 r.0))

-- Planning succeeds when there is a loadable segment, and the loadable segments hold memory, share
-- no address whatever their order, and end two pages below the end of the address space.
pub plan_segments-IsOk :
    (segments : List ElfSegment)
    → 0 < length (load_segments segments)
    → All (λ s. 0 < s.memsz) (load_segments segments)
    → All Fits (load_segments segments)
    → Pairwise Separate (load_segments segments)
    → IsOk (plan_segments segments)
unfolding plan_segments
plan_segments-IsOk segments n pos f sep =
    plan_loads-IsOk (sort_by_vaddr (load_segments segments)) (rw length-sort n) (sort-All Fits _ f)
      (sort-Before _ pos sep)
