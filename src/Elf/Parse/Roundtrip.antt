-- ===== src/Elf/Parse/Roundtrip.antt =====
-- `parse_elf_from_bytes` of crates/daoti-core/src/elf/mod.rs on the bytes of a 64-bit file.
use yl.Prelude.{
  ℕ, ◌+◌, ◌*◌, ◌≤◌, ◌<◌, ◌≡◌, ◌⊎◌, refl, sym, ap, ◌∙◌, true, List, [], ◌∷◌, ◌++◌, arith, ltb, leb,
  u64_mod, length, length-append, get_or, ok, inl, inr,
}
use yl.Prelude.Bytes.{to_le}
use yl.Elf.{ElfSegment}
use yl.Elf.Parse.{
  has_magic, Header, read_segments, read_header_64, read_table, finish_parse, parse_elf_from_bytes,
}
use yl.Elf.Parse.Print.{
  ElfFile, IsFile, file_bytes, header_bytes, table_bytes, header_of, info_of,
  read_segments-table_bytes, length-table_bytes, read_header-file_bytes, table_offset, append_assoc,
}

length-header_bytes : (f : ElfFile) → length (header_bytes f) ≡ 64
unfolding header_bytes to_le
length-header_bytes f = refl

length-file_bytes :
    (f : ElfFile)
    → length (file_bytes f) ≡ 64 + (length f.gap + (length f.segments * 56 + length f.rest))
length-file_bytes f =
    let behind = length-append f.gap (table_bytes f.segments f.rest) in
    length-append (header_bytes f) (f.gap ++ table_bytes f.segments f.rest)
    ∙ omega (arith, behind, length-header_bytes f, length-table_bytes f.segments f.rest)

read_table-some :
    (bytes : List ℕ) (h : Header) (ss : List ElfSegment)
    → 0 < h.phnum
    → 0 < h.phoff
    → h.phoff + h.phnum * 56 < u64_mod
    → h.phoff + h.phnum * 56 ≤ length bytes
    → read_segments true bytes h.phoff h.phnum ≡ ok ss
    → read_table true bytes h ≡ ok ss
unfolding read_table
read_table-some bytes h ss n o small fits e =
    let some_entries : ltb 0 h.phnum ≡ true = ground (arith, n) in
    let placed : ltb 0 h.phoff ≡ true = ground (arith, o) in
    let word_size : ltb (h.phoff + h.phnum * 56) u64_mod ≡ true = ground (arith, small) in
    let inside : leb (h.phoff + h.phnum * 56) (length bytes) ≡ true = ground (arith, fits) in
    rw (some_entries, placed, word_size, inside) e

read_table-none : (bytes : List ℕ) (h : Header) → h.phnum ≡ 0 → read_table true bytes h ≡ ok []
unfolding read_table
read_table-none bytes h e = rw e refl

read_table-file_bytes :
    (f : ElfFile) → IsFile f → read_table true (file_bytes f) (header_of f) ≡ ok f.segments
read_table-file_bytes f w =
    let pre = header_bytes f ++ f.gap in
    let start : length pre ≡ table_offset f =
      length-append (header_bytes f) f.gap ∙ omega (arith, length-header_bytes f) in
    let all : read_segments true (file_bytes f) (table_offset f) (length f.segments)
        ≡ ok f.segments =
      rw (append_assoc (header_bytes f) f.gap (table_bytes f.segments f.rest), sym start)
        (read_segments-table_bytes pre f.segments f.rest w.segments) in
    elim (none_or_some f.segments) [
      | inl e ↦
          read_table-none (file_bytes f) (header_of f) (ap length e) ∙ ap (λ ss. ok ss) (sym e)
      | inr e ↦
          read_table-some (file_bytes f) (header_of f) f.segments e (omega arith)
            (omega (arith, w.place)) (omega (arith, length-file_bytes f)) all
    ]
  where
    none_or_some : (ss : List ElfSegment) → (ss ≡ []) ⊎ (0 < length ss)
    none_or_some [] = inl refl
    none_or_some (s ∷ ss) = inr (omega arith)

parse-header :
    (bytes : List ℕ) (h : Header)
    → 16 ≤ length bytes
    → has_magic bytes ≡ true
    → get_or bytes 4 0 ≡ 2
    → get_or bytes 5 0 ≡ 1
    → read_header_64 bytes ≡ ok h
    → parse_elf_from_bytes bytes ≡ finish_parse true bytes h
unfolding parse_elf_from_bytes
parse-header bytes h long magic class order e =
    let enough : leb 16 (length bytes) ≡ true = ground (arith, long) in
    rw (enough, magic, class, order, e) refl

-- Parsing the bytes of a 64-bit little-endian file, with its table at any place behind the header,
-- gives back its header's fields and all its program headers, the loadable ones and the others, when
-- each field fits its word.
pub parse-file_bytes :
    (f : ElfFile) → IsFile f → parse_elf_from_bytes (file_bytes f) ≡ ok (info_of f)
unfolding finish_parse header_bytes
parse-file_bytes f w =
    parse-header (file_bytes f) (header_of f) (omega (arith, length-file_bytes f)) refl refl refl
      (read_header-file_bytes f w)
    ∙ (rw (read_table-file_bytes f w) refl)
