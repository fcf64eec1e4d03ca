-- ===== src/Elf/Parse/Tests.antt =====
-- The parser of crates/daoti-core/src/elf/mod.rs on the bytes of a small object.
use yl.Prelude.{Bool, ℕ, ◌≡◌, ◌==◌, List, [], ◌∷◌, arith, get_or, ok, IsSafe}
use yl.Elf.Sample.{object}
use yl.Elf.Parse.{Header, parse_elf_from_bytes}
use yl.Elf.Parse.Print.{ElfFile, IsFile, file_bytes, header_bytes, info_of, read_header-file_bytes}
use yl.Elf.Parse.Roundtrip.{parse-file_bytes}
use yl.Elf.Parse.Safe.{parse-IsSafe, EndsInside, header_for}

object-IsFile : IsFile object
object-IsFile = record {
  abi = omega arith;
  e_type = omega arith;
  e_machine = omega arith;
  entry = omega arith;
  shnum = omega arith;
  phnum = omega arith;
  place = omega arith;
  segments = (
    record {
      type_ = omega arith;
      flags = omega arith;
      offset = omega arith;
      vaddr = omega arith;
      paddr = omega arith;
      filesz = omega arith;
      memsz = omega arith;
      align = omega arith;
    },
    tt,
  );
}

-- The same object with three bytes between its header and its table.
abbrev spaced : ElfFile
spaced = record object { gap = 1 ∷ 2 ∷ 3 ∷ [] }

spaced-IsFile : IsFile spaced
spaced-IsFile = record {
  abi = omega arith;
  e_type = omega arith;
  e_machine = omega arith;
  entry = omega arith;
  shnum = omega arith;
  phnum = omega arith;
  place = omega arith;
  segments = object-IsFile.segments;
}

parse-file_bytes_example : parse_elf_from_bytes (file_bytes spaced) ≡ ok (info_of spaced)
parse-file_bytes_example = parse-file_bytes spaced spaced-IsFile

abbrev class_is_64 : List ℕ → Bool
class_is_64 bytes = get_or bytes 4 0 == 2

object-EndsInside :
    (h : Header)
    → header_for (class_is_64 (file_bytes object)) (file_bytes object) ≡ ok h
    → EndsInside (class_is_64 (file_bytes object)) h
unfolding header_bytes
object-EndsInside h e =
    let found = read_header-file_bytes object object-IsFile in ground (arith, found, e)

parse-IsSafe_example : IsSafe (parse_elf_from_bytes (file_bytes object))
parse-IsSafe_example = parse-IsSafe (file_bytes object) object-EndsInside
