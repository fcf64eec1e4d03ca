-- ===== src/Elf/Image/Tests.antt =====
-- The image of a small object, crates/daoti-core/src/elf/mod.rs: its file is cut short.
use yl.Prelude.{ℕ, ◌≡◌, refl, true, List, [], ◌∷◌, ok, arith}
use yl.Elf.{ElfSegment}
use yl.Elf.Parse.{ElfInfo}
use yl.Elf.Layout.{load_segments, sort_by_vaddr, layout_code}
use yl.Elf.Image.{ElfLoader, SandboxImage, new, build_image, image_code}
use yl.Elf.Image.Own.{AllOwn, build_image-AllOwn}

abbrev segment : ElfSegment
segment = record {
  type_ = 1;
  offset = 2;
  vaddr = 0x1000;
  paddr = 0x1000;
  filesz = 4;
  memsz = 6;
  flags = 6;
  align = 4096;
}

abbrev loader : ElfLoader
loader = record {
  info = record {
    arch = "x86_64";
    file_type = "ET_EXEC（可执行文件）";
    entry = 0x1000;
    ph_num = 1;
    sh_num = 0;
    abi = "UNIX System V";
    executable = true;
    is_64 = true;
    segments = segment ∷ [];
  };
  layout = record {
    page_size = 4096;
    base = 0x1000;
    total_size = 4096;
    mappings =
        record {
          offset_in_sandbox = 0x1000;
          vaddr = 0x1000;
          filesz_pages = 4096;
          memsz_pages = 4096;
          flags = 6;
          has_bss = true;
          raw_filesz = 4;
          raw_memsz = 6;
        }
        ∷ [];
    bss_bytes = 2;
    load_segment_count = 1;
  };
}

abbrev file : List ℕ
file = 1 ∷ 2 ∷ 3 ∷ 4 ∷ 5 ∷ []

abbrev image : SandboxImage
image = record {
  entry = 0x1000;
  base = 0x1000;
  segments =
      record {
        offset_in_sandbox = 0x1000;
        vaddr = 0x1000;
        flags = 6;
        bytes = 3 ∷ 4 ∷ 5 ∷ 0 ∷ 0 ∷ 0 ∷ [];
      }
      ∷ [];
}

build_runs : build_image loader file ≡ ok image
unfolding image_code
build_runs = refl

-- A note that starts where the loadable segment does, with one byte of the file.
abbrev note : ElfSegment
note = record segment { type_ = 4; offset = 0; filesz = 1; memsz = 1; flags = 4 }

abbrev info : ElfInfo
info = record loader.info { segments = segment ∷ note ∷ [] }

new_runs : new info ≡ ok (record loader { info = info })
unfolding layout_code
new_runs = refl

noted_runs : build_image (record loader { info = info }) file ≡ ok image
unfolding image_code
noted_runs = refl

-- With the note before it in the table, the segment gets the bytes of the note.
note_first :
    build_image (record loader { info = record info { segments = note ∷ segment ∷ [] } }) file
    ≡ ok (record image {
      segments =
          record { offset_in_sandbox = 0x1000; vaddr = 0x1000; flags = 6; bytes = 1 ∷ [] } ∷ [];
    })
unfolding image_code
note_first = refl

build_image-AllOwn_example :
    AllOwn file (sort_by_vaddr (load_segments (segment ∷ note ∷ []))) image.segments
    × (image.entry ≡ 0x1000)
build_image-AllOwn_example =
    build_image-AllOwn info file (omega arith) (unfold load_segments in (refl, tt)) new_runs
      noted_runs
