-- ===== src/Elf/Layout/Tests.antt =====
-- The planner of crates/daoti-core/src/elf/layout.rs on a program of two segments and a note.
use yl.Prelude.{true, false, ℕ, ◌≡◌, refl, List, [], ◌∷◌, ok, IsOk, inr, arith}
use mathlib.Core.List.{Perm}
use yl.Elf.{ElfSegment}
use yl.Elf.Layout.{MemoryLayout, plan_segments, load_segments, layout_code}
use yl.Elf.Layout.Plan.{IsLayout, plan_segments-IsLayout}
use yl.Elf.Layout.Total.{plan_segments-IsOk}

abbrev segment : ℕ → ℕ → ℕ → ℕ → ElfSegment
segment type_ vaddr filesz memsz = record {
  type_ = type_;
  offset = 0;
  vaddr = vaddr;
  paddr = vaddr;
  filesz = filesz;
  memsz = memsz;
  flags = 5;
  align = 4096;
}

-- The data segment comes first, and a note is left out.
abbrev program : List ElfSegment
program = segment 1 0x600010 50 5000 ∷ segment 4 0 8 8 ∷ segment 1 0x400000 100 100 ∷ []

abbrev planned : MemoryLayout
planned = record {
  page_size = 4096;
  base = 0x400000;
  total_size = 0x202000;
  mappings =
      record {
        offset_in_sandbox = 0x400000;
        vaddr = 0x400000;
        filesz_pages = 4096;
        memsz_pages = 4096;
        flags = 5;
        has_bss = false;
        raw_filesz = 100;
        raw_memsz = 100;
      }
      ∷ record {
        offset_in_sandbox = 0x600000;
        vaddr = 0x600010;
        filesz_pages = 4096;
        memsz_pages = 8192;
        flags = 5;
        has_bss = true;
        raw_filesz = 50;
        raw_memsz = 5000;
      }
      ∷ [];
  bss_bytes = 4950;
  load_segment_count = 2;
}

plan-program : plan_segments program ≡ ok planned
unfolding layout_code
plan-program = refl

plan_segments-IsLayout_example :
    (loads : List ElfSegment) × Perm loads (load_segments program) × IsLayout loads planned
plan_segments-IsLayout_example = plan_segments-IsLayout program plan-program

plan_segments-IsOk_example : IsOk (plan_segments program)
unfolding load_segments
plan_segments-IsOk_example =
    plan_segments-IsOk program (omega arith) (omega arith, (omega arith, tt))
      ((omega arith, omega arith), ((omega arith, omega arith), tt))
      ((inr (omega arith), tt), (tt, tt))
