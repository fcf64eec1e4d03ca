-- ===== src/Elf/Sample.antt =====
-- A small object file that the tests of crates/daoti-core/src/elf/ share: one loadable segment,
-- with a hash table, two symbols and their names behind the table of segments.
use yl.Prelude.{none, some, [], ◌∷◌, ◌++◌, replicate}
use yl.Prelude.Bytes.{to_le}
use yl.Prelude.Int.{pos}
use yl.Elf.{ElfSegment}
use yl.Elf.Parse.Print.{ElfFile}
use yl.Elf.Dynamic.{DynamicLoadPlan}

abbrev pub code_segment : ElfSegment
code_segment = record {
  type_ = 1;
  offset = 0;
  vaddr = 0;
  paddr = 0;
  filesz = 181;
  memsz = 200;
  flags = 5;
  align = 4096;
}

-- DT_HASH at 120, the symbols at 128, the names at 176.
abbrev pub object : ElfFile
object = record {
  abi = 0;
  e_type = 3;
  e_machine = 0x3E;
  e_version = 1;
  entry = 0x40;
  shoff = 0;
  e_flags = 0;
  shentsize = 0;
  shnum = 0;
  shstrndx = 0;
  gap = [];
  segments = code_segment ∷ [];
  rest =
      1
      ∷ 0
      ∷ 0
      ∷ 0
      ∷ 2
      ∷ 0
      ∷ 0
      ∷ 0
      ∷ (replicate 24 0
          ++ (to_le 4 1
              ++ (0x12
                  ∷ 0
                  ∷ 1
                  ∷ 0
                  ∷ (to_le 8 0x40 ++ (to_le 8 4 ++ (0 ∷ 102 ∷ 111 ∷ 111 ∷ 0 ∷ []))))));
}

abbrev pub object_plan : DynamicLoadPlan
object_plan = record {
  load_bias = 0x1000;
  relocated_entry = 0x1040;
  load_segments = [];
  tls = none;
  dependency_graph = [];
  interpreter = none;
  needed = [];
  entries = record { tag = pos 4; value = 120 } ∷ [];
  strtab = some 176;
  symtab = some 128;
  rela = none;
  rel = none;
  relr = none;
  jmprel = none;
}
