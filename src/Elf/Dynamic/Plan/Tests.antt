-- ===== src/Elf/Dynamic/Plan/Tests.antt =====
-- `plan_dynamic_load` of crates/daoti-core/src/elf/mod.rs on a small object with a dynamic section.
use yl.Prelude.{arith, [], ◌∷◌, ◌++◌, replicate, OnOk, IsOk}
use yl.Prelude.Bytes.{to_le, from_le}
use yl.Prelude.Int.{signed64}
use yl.Elf.{ElfSegment}
use yl.Elf.Parse.{
  parse_elf_from_bytes, read_header_64, finish_parse, read_table, read_segments, program_header_64,
  match_name, word,
}
use yl.Elf.Parse.Print.{ElfFile, IsFile, file_bytes, header_bytes, ph_bytes, info_of}
use yl.Elf.Parse.Roundtrip.{parse-file_bytes}
use yl.Elf.Sample.{code_segment, object}
use yl.Elf.Dynamic.Plan.{
  plan_dynamic_load, plan_at, plan_load_segments, plan_segment, read_program_headers,
  read_program_header, read_entries, finish_plan, plan_jmprel, plan_table, needed_names, value_for,
  main_edges,
}
use yl.Elf.Dynamic.Plan.Segments.{Planned, plan_dynamic_load-Planned}

abbrev dynamic_segment : ElfSegment
dynamic_segment = record code_segment { type_ = 2; offset = 176; filesz = 32; memsz = 32 }

-- A symbol table at 0x10, and the null entry.
abbrev dynamic_object : ElfFile
dynamic_object = record object {
  segments = code_segment ∷ dynamic_segment ∷ [];
  rest = to_le 8 6 ++ (to_le 8 0x10 ++ replicate 16 0);
}

dynamic_object-IsFile : IsFile dynamic_object
dynamic_object-IsFile = record {
  abi = omega arith;
  e_type = omega arith;
  e_machine = omega arith;
  entry = omega arith;
  shnum = omega arith;
  phnum = omega arith;
  place = omega arith;
  segments = (
    record {
      type_ = omega arith;
      flags = omega arith;
      offset = omega arith;
      vaddr = omega arith;
      paddr = omega arith;
      filesz = omega arith;
      memsz = omega arith;
      align = omega arith;
    },
    (
      record {
        type_ = omega arith;
        flags = omega arith;
        offset = omega arith;
        vaddr = omega arith;
        paddr = omega arith;
        filesz = omega arith;
        memsz = omega arith;
        align = omega arith;
      },
      tt,
    ),
  );
}

plan_runs : IsOk (plan_dynamic_load (file_bytes dynamic_object) 0x10000)
unfolding plan_dynamic_load plan_at plan_load_segments plan_segment read_program_headers
    read_program_header read_entries finish_plan plan_jmprel plan_table needed_names value_for
    main_edges parse_elf_from_bytes read_header_64 finish_parse read_table read_segments
    program_header_64 match_name word header_bytes ph_bytes to_le from_le replicate signed64
plan_runs = tt

plan_dynamic_load-Planned_example :
    OnOk
      (plan_dynamic_load (file_bytes dynamic_object) 0x10000)
      (Planned (file_bytes dynamic_object) (info_of dynamic_object) 0x10000)
plan_dynamic_load-Planned_example =
    plan_dynamic_load-Planned (file_bytes dynamic_object) 0x10000 (info_of dynamic_object)
      (parse-file_bytes dynamic_object dynamic_object-IsFile)
