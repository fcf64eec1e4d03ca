-- ===== src/Elf/Layout.antt =====
-- The layout planner, crates/daoti-core/src/elf/layout.rs: page-aligned places for the loadable
-- segments of a program.
pub mod Sort
pub mod Plan
pub mod Total
mod Tests
use yl.Prelude.{
  ℕ, zero, suc, ◌+◌, ◌-◌, ◌%◌, max, Bool, true, false, Option, none, some, List, [], ◌∷◌, ltb, leb,
  ◌==◌, if◌then◌else◌, length, Result, ok, err, panic, ◌>>=◌, add_u64, saturating_add, other,
}
use yl.Elf.{ElfSegment, is_load}

abbrev pub page_size : ℕ
page_size = 4096

pub record SegmentMapping : Type 0 where
  pub offset_in_sandbox : ℕ
  pub vaddr : ℕ
  pub filesz_pages : ℕ
  pub memsz_pages : ℕ
  pub flags : ℕ
  pub has_bss : Bool
  pub raw_filesz : ℕ
  pub raw_memsz : ℕ

pub record MemoryLayout : Type 0 where
  pub page_size : ℕ
  pub base : ℕ
  pub total_size : ℕ
  pub mappings : List SegmentMapping
  pub bss_bytes : ℕ
  pub load_segment_count : ℕ

-- The remainder by 0 panics.
abbrev pub align_down : ℕ → ℕ → Result ℕ
align_down addr page = if page == 0 then panic else ok (addr - addr % page)

abbrev pub align_up : ℕ → ℕ → Result ℕ
align_up addr page =
    if page == 0
    then ok addr
    else (if addr % page == 0 then ok addr else add_u64 addr (page - addr % page))

-- `segments.iter().filter(|s| s.type_ == PT_LOAD)`
unfoldable pub load_segments : List ElfSegment → List ElfSegment
load_segments [] = []
load_segments (s ∷ ss) = let rest = load_segments ss in if is_load s then s ∷ rest else rest

-- `loads.sort_by_key(|s| s.vaddr)`, which is stable.
unfoldable pub insert_by_vaddr : ElfSegment → List ElfSegment → List ElfSegment
insert_by_vaddr s [] = s ∷ []
insert_by_vaddr s (t ∷ ts) = if leb s.vaddr t.vaddr then s ∷ t ∷ ts else t ∷ insert_by_vaddr s ts

unfoldable pub sort_by_vaddr : List ElfSegment → List ElfSegment
unfolding insert_by_vaddr
sort_by_vaddr [] = []
sort_by_vaddr (s ∷ ss) = insert_by_vaddr s (sort_by_vaddr ss)

-- `if let Some(prev_end) = prev_raw_end { if seg.vaddr < prev_end { return Err(..) } }`
abbrev pub check_overlap : Option ℕ → ElfSegment → Result (Unit {0})
check_overlap none s = ok tt
check_overlap (some prev_end) s =
    if ltb s.vaddr prev_end
    then err (other "段重叠：段 vaddr=0x{:x} 早于上一段实际终点 0x{:x}" (s.vaddr ∷ prev_end ∷ []))
    else ok tt

-- One round of the loop: the mapping of the segment, and `bss_bytes` after it.
unfoldable pub plan_one : Option ℕ → ℕ → ElfSegment → Result (SegmentMapping × ℕ)
plan_one prev bss_bytes s = do
  start_aligned ← align_down s.vaddr page_size
  filesz_aligned ← align_up s.filesz page_size
  file_end ← add_u64 s.vaddr filesz_aligned
  end_aligned ← align_up (max (saturating_add s.vaddr s.memsz) file_end) page_size
  _ ← check_overlap prev s
  let has_bss = ltb s.filesz s.memsz
  bss' ← if has_bss then add_u64 bss_bytes (s.memsz - s.filesz) else ok bss_bytes
  ok (
    record {
      offset_in_sandbox = start_aligned;
      vaddr = s.vaddr;
      filesz_pages = max s.filesz filesz_aligned;
      memsz_pages = end_aligned - start_aligned;
      flags = s.flags;
      has_bss = has_bss;
      raw_filesz = s.filesz;
      raw_memsz = s.memsz;
    },
    bss',
  )

-- The loop, with the end of the segment before and the zeroed bytes so far.
unfoldable pub plan_from : Option ℕ → ℕ → List ElfSegment → Result (List SegmentMapping × ℕ)
unfolding plan_one
plan_from prev bss_bytes [] = ok ([], bss_bytes)
plan_from prev bss_bytes (s ∷ ss) = do
  one ← plan_one prev bss_bytes s
  rest ← plan_from (some (saturating_add s.vaddr s.memsz)) one.1 ss
  ok (one.0 ∷ rest.0, rest.1)

-- `mappings.first().map(|m| m.offset_in_sandbox).unwrap_or(0)`
abbrev pub first_offset : List SegmentMapping → ℕ
first_offset [] = 0
first_offset (m ∷ ms) = m.offset_in_sandbox

-- `mappings.last().map(|m| m.offset_in_sandbox + m.memsz_pages).unwrap_or(0)`
unfoldable pub last_end : List SegmentMapping → Result ℕ
last_end [] = ok 0
last_end (m ∷ []) = add_u64 m.offset_in_sandbox m.memsz_pages
last_end (m ∷ n ∷ ms) = last_end (n ∷ ms)

unfoldable pub plan_loads : List ElfSegment → Result MemoryLayout
unfolding plan_from last_end
plan_loads [] = err (other "ELF 无可加载段（PT_LOAD 数量为 0），无法规划内存布局" [])
plan_loads (s ∷ ss) = do
  planned ← plan_from none 0 (s ∷ ss)
  stop ← last_end planned.0
  let base = first_offset planned.0
  ok (record {
    page_size = page_size;
    base = base;
    total_size = stop - base;
    mappings = planned.0;
    bss_bytes = planned.1;
    load_segment_count = length (s ∷ ss);
  })

unfoldable pub plan_segments : List ElfSegment → Result MemoryLayout
unfolding plan_loads load_segments sort_by_vaddr
plan_segments segments = plan_loads (sort_by_vaddr (load_segments segments))

-- Named on an `unfolding` line, it opens the whole component, for tests.
unfoldable pub layout_code : Unit {0}
unfolding plan_segments plan_loads load_segments sort_by_vaddr insert_by_vaddr plan_from plan_one
    last_end
layout_code = tt
