-- ===== src/Elf/Parse/Print.antt =====
-- The bytes of a 64-bit file, as a description that is independent of the parser of
-- crates/daoti-core/src/elf/mod.rs, and the parser's parts on them.
use yl.Prelude.{
  ℕ, suc, ◌+◌, ◌*◌, ◌^◌, ◌≤◌, ◌<◌, ◌≡◌, refl, sym, ap, ◌∙◌, true, ◌&&◌, ◌||◌, List, [], ◌∷◌, ◌++◌,
  arith, ltb, leb, ◌==◌, length, length-append, take, drop, All, ok,
}
use yl.Prelude.Bytes.{to_le, from_le-to_le}
use yl.Elf.{ElfSegment}
use yl.Elf.Parse.{
  word, Header, ElfInfo, program_header_64, read_segments, read_header_64, match_name, arch_names,
  file_type_names, abi_names,
}

pub drop-skip : (xs ys : List ℕ) (k : ℕ) → drop (length xs + k) (xs ++ ys) ≡ drop k ys
drop-skip [] ys k = ap (λ i. drop i ys) (omega arith)
drop-skip (x ∷ xs) ys k =
    let e : suc (length xs) + k ≡ suc (length xs + k) = omega arith in rw e (drop-skip xs ys k)

-- A field whose bytes stand at `at`.
pub word-field :
    (n x : ℕ) (bytes : List ℕ) (at : ℕ)
    → at + n ≤ length bytes
    → x < 256 ^ n
    → take n (drop at bytes) ≡ to_le n x
    → word n bytes at ≡ ok x
unfolding word
word-field n x bytes at f h e =
    let fits : leb (at + n) (length bytes) ≡ true = ground arith in
    rw (fits, e, from_le-to_le n x h) refl

-- A field of an entry that stands behind `pre`.
entry-field :
    (n x : ℕ) (pre ys : List ℕ) (k : ℕ)
    → k + n ≤ length ys
    → x < 256 ^ n
    → take n (drop k ys) ≡ to_le n x
    → word n (pre ++ ys) (length pre + k) ≡ ok x
entry-field n x pre ys k f h e =
    word-field n x (pre ++ ys) (length pre + k) (rw length-append (omega (arith, f))) h
      (rw drop-skip e)

-- The entry of a segment in the table.
unfoldable pub ph_bytes : ElfSegment → List ℕ
unfolding to_le
ph_bytes s =
    to_le 4 s.type_
    ++ (to_le 4 s.flags
        ++ (to_le 8 s.offset
            ++ (to_le 8 s.vaddr
                ++ (to_le 8 s.paddr
                    ++ (to_le 8 s.filesz ++ (to_le 8 s.memsz ++ to_le 8 s.align))))))

-- The fields fit the words that hold them.
pub record IsSegment (s : ElfSegment) : Type 0 where
  pub type_ : s.type_ < 256 ^ 4
  pub flags : s.flags < 256 ^ 4
  pub offset : s.offset < 256 ^ 8
  pub vaddr : s.vaddr < 256 ^ 8
  pub paddr : s.paddr < 256 ^ 8
  pub filesz : s.filesz < 256 ^ 8
  pub memsz : s.memsz < 256 ^ 8
  pub align : s.align < 256 ^ 8

program_header-ph_bytes :
    (pre : List ℕ) (s : ElfSegment) (post : List ℕ)
    → IsSegment s
    → program_header_64 (pre ++ (ph_bytes s ++ post)) (length pre) ≡ ok s
unfolding program_header_64 ph_bytes
program_header-ph_bytes pre s post w =
    let zero_at : length pre + 0 ≡ length pre = omega arith in
    let f0 = entry-field 4 s.type_ pre (ph_bytes s ++ post) 0 (omega arith) w.type_ refl in
    let f1 = entry-field 4 s.flags pre (ph_bytes s ++ post) 4 (omega arith) w.flags refl in
    let f2 = entry-field 8 s.offset pre (ph_bytes s ++ post) 8 (omega arith) w.offset refl in
    let f3 = entry-field 8 s.vaddr pre (ph_bytes s ++ post) 16 (omega arith) w.vaddr refl in
    let f4 = entry-field 8 s.paddr pre (ph_bytes s ++ post) 24 (omega arith) w.paddr refl in
    let f5 = entry-field 8 s.filesz pre (ph_bytes s ++ post) 32 (omega arith) w.filesz refl in
    let f6 = entry-field 8 s.memsz pre (ph_bytes s ++ post) 40 (omega arith) w.memsz refl in
    let f7 = entry-field 8 s.align pre (ph_bytes s ++ post) 48 (omega arith) w.align refl in
    let f0' = rw zero_at at f0 in rw (f0', f1, f2, f3, f4, f5, f6, f7) refl

-- The table, and what follows it.
abbrev pub table_bytes : List ElfSegment → List ℕ → List ℕ
table_bytes [] post = post
table_bytes (s ∷ ss) post = ph_bytes s ++ table_bytes ss post

length-ph_bytes : (s : ElfSegment) → length (ph_bytes s) ≡ 56
unfolding ph_bytes
length-ph_bytes s = refl

pub append_assoc : (xs ys zs : List ℕ) → xs ++ (ys ++ zs) ≡ (xs ++ ys) ++ zs
append_assoc [] ys zs = refl
append_assoc (x ∷ xs) ys zs = ap (λ l. x ∷ l) (append_assoc xs ys zs)

pub read_segments-table_bytes :
    (pre : List ℕ) (ss : List ElfSegment) (post : List ℕ)
    → All IsSegment ss
    → read_segments true (pre ++ table_bytes ss post) (length pre) (length ss) ≡ ok ss
unfolding read_segments
read_segments-table_bytes pre [] post w = refl
read_segments-table_bytes pre (s ∷ ss) post w =
    let one = program_header-ph_bytes pre s (table_bytes ss post) w.0 in
    let rest = read_segments-table_bytes (pre ++ ph_bytes s) ss post w.1 in
    let place : length (pre ++ ph_bytes s) ≡ length pre + 56 =
      length-append pre (ph_bytes s) ∙ ap (λ k. length pre + k) (length-ph_bytes s) in
    let moved : read_segments true (pre ++ (ph_bytes s ++ table_bytes ss post)) (length pre + 56)
          (length ss)
        ≡ ok ss =
      rw (append_assoc pre (ph_bytes s) (table_bytes ss post), sym place) rest in
    rw (one, moved) refl

pub length-table_bytes :
    (ss : List ElfSegment) (post : List ℕ)
    → length (table_bytes ss post) ≡ length ss * 56 + length post
length-table_bytes [] post = omega arith
length-table_bytes (s ∷ ss) post =
    length-append (ph_bytes s) (table_bytes ss post)
    ∙ omega (arith, length-ph_bytes s, length-table_bytes ss post)

-- The parts of a 64-bit file: the header's fields, the bytes between the header and the table, the
-- segments, and the bytes after the table.
pub record ElfFile : Type 0 where
  pub abi : ℕ
  pub e_type : ℕ
  pub e_machine : ℕ
  pub e_version : ℕ
  pub entry : ℕ
  pub shoff : ℕ
  pub e_flags : ℕ
  pub shentsize : ℕ
  pub shnum : ℕ
  pub shstrndx : ℕ
  pub gap : List ℕ
  pub segments : List ElfSegment
  pub rest : List ℕ

pub record IsFile (f : ElfFile) : Type 0 where
  pub abi : f.abi < 256
  pub e_type : f.e_type < 256 ^ 2
  pub e_machine : f.e_machine < 256 ^ 2
  pub entry : f.entry < 256 ^ 8
  pub shnum : f.shnum < 256 ^ 2
  pub phnum : length f.segments < 256 ^ 2
  pub place : 64 + length f.gap + length f.segments * 56 < 256 ^ 8
  pub segments : All IsSegment f.segments

-- The place of the table.
abbrev pub table_offset : ElfFile → ℕ
table_offset f = 64 + length f.gap

-- The 64 bytes of the header.
unfoldable pub header_bytes : ElfFile → List ℕ
unfolding to_le
header_bytes f =
    0x7F
    ∷ 0x45
    ∷ 0x4C
    ∷ 0x46
    ∷ 2
    ∷ 1
    ∷ 1
    ∷ f.abi
    ∷ 0
    ∷ 0
    ∷ 0
    ∷ 0
    ∷ 0
    ∷ 0
    ∷ 0
    ∷ 0
    ∷ (to_le 2 f.e_type
        ++ (to_le 2 f.e_machine
            ++ (to_le 4 f.e_version
                ++ (to_le 8 f.entry
                    ++ (to_le 8 (table_offset f)
                        ++ (to_le 8 f.shoff
                            ++ (to_le 4 f.e_flags
                                ++ (to_le 2 64
                                    ++ (to_le 2 56
                                        ++ (to_le 2 (length f.segments)
                                            ++ (to_le 2 f.shentsize
                                                ++ (to_le 2 f.shnum
                                                    ++ to_le 2 f.shstrndx))))))))))))

abbrev pub file_bytes : ElfFile → List ℕ
file_bytes f = header_bytes f ++ (f.gap ++ table_bytes f.segments f.rest)

abbrev pub header_of : ElfFile → Header
header_of f = record {
  phoff = table_offset f;
  phnum = length f.segments;
  shnum = f.shnum;
  entry = f.entry;
  e_type = f.e_type;
  e_machine = f.e_machine;
}

pub read_header-file_bytes :
    (f : ElfFile) → IsFile f → read_header_64 (file_bytes f) ≡ ok (header_of f)
unfolding read_header_64 header_bytes
read_header-file_bytes f w =
    let long : leb 64 (length (file_bytes f)) ≡ true = ground arith in
    let f0 = word-field 2 f.e_type (file_bytes f) 16 (omega arith) w.e_type refl in
    let f1 = word-field 2 f.e_machine (file_bytes f) 18 (omega arith) w.e_machine refl in
    let f2 = word-field 8 f.entry (file_bytes f) 24 (omega arith) w.entry refl in
    let f3 =
      word-field 8 (table_offset f) (file_bytes f) 32 (omega arith) (omega (arith, w.place)) refl in
    let f4 = word-field 2 (length f.segments) (file_bytes f) 56 (omega arith) w.phnum refl in
    let f5 = word-field 2 f.shnum (file_bytes f) 60 (omega arith) w.shnum refl in
    rw (long, f0, f1, f2, f3, f4, f5) refl

-- What the parser should give back.
abbrev pub info_of : ElfFile → ElfInfo
info_of f = record {
  arch = match_name arch_names "未知架构" f.e_machine;
  file_type = match_name file_type_names "未知类型" f.e_type;
  entry = f.entry;
  ph_num = length f.segments;
  sh_num = f.shnum;
  abi = match_name abi_names "未知 ABI" f.abi;
  executable = f.e_type == 2 || (f.e_type == 3 && ltb 0 (length f.segments));
  is_64 = true;
  segments = f.segments;
}
