-- ===== src/Elf/Layout/Plan.antt =====
-- What a planned layout promises of the loadable segments: crates/daoti-core/src/elf/layout.rs,
-- `plan_segments`.
use yl.Prelude.{
  ℕ, ◌+◌, ◌-◌, ◌%◌, ◌≤◌, ◌<◌, ◌≡◌, refl, Option, none, some, List, [], ◌∷◌, ltb, arith, length, All,
  All-map, All-zip, Pairwise, ok, saturating_add, OnOk, OnOk-apply, OnOk-chain, OnOk-intro, u64_mod,
}
use yl.Elf.{ElfSegment}
use yl.Elf.Layout.Sort.{Before, sort-Perm}
use mathlib.Core.List.{Perm}
use yl.Elf.Layout.{
  SegmentMapping, MemoryLayout, plan_one, plan_from, first_offset, last_end, plan_loads,
  plan_segments, load_segments, sort_by_vaddr,
}

-- The mapping that belongs to a segment: whole pages around its memory and its file part.
pub record Places (s : ElfSegment) (m : SegmentMapping) : Type 0 where
  pub same_vaddr : m.vaddr ≡ s.vaddr
  pub same_flags : m.flags ≡ s.flags
  pub bss : m.has_bss ≡ ltb s.filesz s.memsz
  pub aligned : m.offset_in_sandbox % 4096 ≡ 0
  pub whole_pages : m.memsz_pages % 4096 ≡ 0
  pub starts : m.offset_in_sandbox ≤ s.vaddr
  pub near : s.vaddr < m.offset_in_sandbox + 4096
  pub memory : s.vaddr + s.memsz ≤ m.offset_in_sandbox + m.memsz_pages
  pub file : s.vaddr + s.filesz ≤ m.offset_in_sandbox + m.memsz_pages
  pub small : m.offset_in_sandbox + m.memsz_pages < u64_mod

-- The segment starts at or after the given end.
abbrev pub After : Option ℕ → ElfSegment → Type 0
After none s = Unit
After (some e) s = e ≤ s.vaddr

-- The bytes past the file part, summed.
abbrev pub zeroed_bytes : List ElfSegment → ℕ
zeroed_bytes [] = 0
zeroed_bytes (s ∷ ss) = (s.memsz - s.filesz) + zeroed_bytes ss

pub record Planned (prev : Option ℕ) (bss : ℕ) (s : ElfSegment) (r : SegmentMapping × ℕ)
    : Type 0 where
  pub places : Places s (r.0)
  pub after : After prev s
  pub sum : r.1 ≡ bss + (s.memsz - s.filesz)
  pub fits : s.vaddr + s.memsz < u64_mod

pub plan_one-Planned :
    (prev : Option ℕ) (bss : ℕ) (s : ElfSegment) {r : SegmentMapping × ℕ}
    → plan_one prev bss s ≡ ok r
    → Planned prev bss s r
unfolding plan_one
plan_one-Planned none bss s e = ground arith
plan_one-Planned (some p) bss s e = ground arith

-- The segments and mappings of a run of the loop, one to one.
abbrev pub Laid : Option ℕ → List ElfSegment → List SegmentMapping → Type 0
Laid prev [] [] = Unit
Laid prev [] (m ∷ ms) = ⊥
Laid prev (s ∷ ss) [] = ⊥
Laid prev (s ∷ ss) (m ∷ ms) =
    After prev s
    × Places s m
    × (s.vaddr + s.memsz < u64_mod)
    × Laid (some (s.vaddr + s.memsz)) ss ms

abbrev pub Run : Option ℕ → ℕ → List ElfSegment → List SegmentMapping × ℕ → Type 0
Run prev bss ss r = Laid prev ss (r.0) × (r.1 ≡ bss + zeroed_bytes ss)

pub plan_from-Run :
    (prev : Option ℕ) (bss : ℕ) (ss : List ElfSegment)
    → OnOk (plan_from prev bss ss) (Run prev bss ss)
unfolding plan_from
plan_from-Run prev bss [] = (tt, omega arith)
plan_from-Run prev bss (s ∷ ss) =
    OnOk-chain (plan_one prev bss s) _ (Planned prev bss s) _
      (OnOk-intro (plan_one prev bss s) _ (λ r e. plan_one-Planned prev bss s e))
      (λ one p.
        OnOk-chain (plan_from (some (saturating_add s.vaddr s.memsz)) one.1 ss) _ _ _
          (plan_from-Run (some (saturating_add s.vaddr s.memsz)) one.1 ss)
          (λ rest q.
            let e : saturating_add s.vaddr s.memsz ≡ s.vaddr + s.memsz = ground (arith, p.fits) in
            let laid0 = q.0 in
            let laid : Laid (some (s.vaddr + s.memsz)) ss rest.0 = rw e at laid0 in
            ((p.after, p.places, p.fits, laid), omega (arith, p.sum, q.1))))

-- Every later segment lies after the given end, and each ends before the next starts.
Laid-Pairwise :
    (e : ℕ) (ss : List ElfSegment) (ms : List SegmentMapping)
    → Laid (some e) ss ms
    → All (λ t. e ≤ t.vaddr) ss × Pairwise Before ss
Laid-Pairwise e [] ms l = (tt, tt)
Laid-Pairwise e (s ∷ ss) [] l = elim l [ ]
Laid-Pairwise e (s ∷ ss) (m ∷ ms) l =
    let rest = Laid-Pairwise (s.vaddr + s.memsz) ss ms l.3 in
    let later = All-map _ (λ t. e ≤ t.vaddr) ss (λ t h. omega (arith, l.0)) rest.0 in
    ((l.0, later), (rest.0, rest.1))

-- The last mapping ends past every segment.
Laid-last_end :
    (prev : Option ℕ) (ss : List ElfSegment) (ms : List SegmentMapping) {stop : ℕ}
    → Laid prev ss ms
    → last_end ms ≡ ok stop
    → All (λ s. s.vaddr + s.memsz ≤ stop) ss
unfolding last_end
Laid-last_end prev [] ms l e = tt
Laid-last_end prev (s ∷ ss) [] l e = elim l [ ]
Laid-last_end prev (s ∷ []) (m ∷ []) l e = (ground (arith, l.1), tt)
Laid-last_end prev (s ∷ []) (m ∷ n ∷ ms) l e = elim l.3 [ ]
Laid-last_end prev (s ∷ t ∷ ss) (m ∷ []) l e = elim l.3 [ ]
Laid-last_end prev (s ∷ t ∷ ss) (m ∷ n ∷ ms) l e =
    let rest = Laid-last_end (some (s.vaddr + s.memsz)) (t ∷ ss) (n ∷ ms) l.3 e in
    (omega (arith, rest.0, l.3.0), rest)

-- The layout of the segments `loads`, which are in the order of their addresses.
pub record IsLayout (loads : List ElfSegment) (l : MemoryLayout) : Type 0 where
  pub laid : Laid none loads l.mappings
  pub apart : Pairwise Before loads
  pub inside : All (λ s. l.base ≤ s.vaddr × s.vaddr + s.memsz ≤ l.base + l.total_size) loads
  pub bss : l.bss_bytes ≡ zeroed_bytes loads
  pub count : l.load_segment_count ≡ length loads

Laid-first_offset :
    (s : ElfSegment) (ss : List ElfSegment) (ms : List SegmentMapping)
    → Laid none (s ∷ ss) ms
    → All (λ t. first_offset ms ≤ t.vaddr) (s ∷ ss) × Pairwise Before (s ∷ ss)
Laid-first_offset s ss [] l = elim l [ ]
Laid-first_offset s ss (m ∷ ms) l =
    let rest = Laid-Pairwise (s.vaddr + s.memsz) ss ms l.3 in
    let low : m.offset_in_sandbox ≤ s.vaddr = l.1.starts in
    ((low, All-map _ _ ss (λ t h. omega (arith, low)) rest.0), rest)

plan_loads-IsLayout : (loads : List ElfSegment) → OnOk (plan_loads loads) (IsLayout loads)
unfolding plan_loads
plan_loads-IsLayout [] = tt
plan_loads-IsLayout (s ∷ ss) =
    OnOk-chain (plan_from none 0 (s ∷ ss)) _ _ _ (plan_from-Run none 0 (s ∷ ss)) (λ planned r.
      OnOk-chain (last_end planned.0) _ (λ stop. last_end planned.0 ≡ ok stop) _
        (OnOk-intro (last_end planned.0) _ (λ x e. e))
        (λ stop e.
          let low = Laid-first_offset s ss planned.0 r.0 in
          let high = Laid-last_end none (s ∷ ss) planned.0 r.0 e in
          record {
            laid = r.0;
            apart = low.1;
            inside =
                All-map _ _ (s ∷ ss) (λ t h. (h.0, omega (arith, h.0, h.1)))
                  (All-zip _ _ (s ∷ ss) low.0 high);
            bss = omega (arith, r.1);
            count = refl;
          }))

pub plan_segments-sorted :
    (segments : List ElfSegment) {l : MemoryLayout}
    → plan_segments segments ≡ ok l
    → IsLayout (sort_by_vaddr (load_segments segments)) l
unfolding plan_segments
plan_segments-sorted segments e =
    let loads = sort_by_vaddr (load_segments segments) in
    OnOk-apply (IsLayout loads) (plan_loads-IsLayout loads) e

-- A layout that is planned describes the loadable segments, put in another order: each has a
-- mapping of whole pages around its memory and its file part, whose `offset_in_sandbox` is the
-- address of its first page, not relative to the layout's base, the memory of each ends before the
-- next starts, all of it lies between `base` and `base + total_size`, and `bss_bytes` is the sum
-- of the bytes past the file parts.
pub plan_segments-IsLayout :
    (segments : List ElfSegment) {l : MemoryLayout}
    → plan_segments segments ≡ ok l
    → (loads : List ElfSegment) × Perm loads (load_segments segments) × IsLayout loads l
plan_segments-IsLayout segments e = (
  sort_by_vaddr (load_segments segments),
  sort-Perm (load_segments segments),
  plan_segments-sorted segments e,
)
