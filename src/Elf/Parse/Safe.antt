-- ===== src/Elf/Parse/Safe.antt =====
-- Panics of `parse_elf_from_bytes` of crates/daoti-core/src/elf/mod.rs, and the sum of the table's
-- offset and size.
use yl.Prelude.{
  leb→le, IsOk-IsSafe, ℕ, zero, suc, ◌+◌, ◌*◌, ◌≤◌, ◌<◌, ◌≡◌, Bool, true, false, ◌&&◌, ◌||◌, List,
  arith, ltb, leb, ◌==◌, if◌then◌else◌, Bool-cases, u64_mod, length, get_or, Result, ok, ◌>>=◌,
  IsOk, IsSafe, IsSafe->>=, IsOk->>=, IsOk-map, OnOk-intro, inl, inr,
}
use yl.Elf.Parse.{
  word, Header, ph_entry_size, has_magic, program_header, program_header_64, program_header_32,
  read_segments, read_header_64, read_header_32, read_table, finish_parse, parse_elf_from_bytes,
}

word-IsOk : (n : ℕ) (bytes : List ℕ) (at : ℕ) → at + n ≤ length bytes → IsOk (word n bytes at)
unfolding word
word-IsOk n bytes at f =
    let fits : leb (at + n) (length bytes) ≡ true = ground (arith, f) in rw fits tt

word-then :
    {A : Type 0} (n : ℕ) (bytes : List ℕ) (at : ℕ) (f : ℕ → Result A)
    → at + n ≤ length bytes
    → ((x : ℕ) → IsSafe (f x))
    → IsSafe (word n bytes at >>= f)
unfolding word
word-then n bytes at f fits k =
    let inside : leb (at + n) (length bytes) ≡ true = ground (arith, fits) in rw inside (k _)

read_header_64-IsSafe : (bytes : List ℕ) → IsSafe (read_header_64 bytes)
unfolding read_header_64
read_header_64-IsSafe bytes = elim (Bool-cases (leb 64 (length bytes))) [
  | inr e ↦ rw e tt
  | inl e ↦
      let long : 64 ≤ length bytes = leb→le 64 (length bytes) e in
      rw e (
        word-then 2 bytes 16 _ (omega (arith, long)) (λ x0.
          (word-then 2 bytes 18 _ (omega (arith, long)) (λ x1.
            (word-then 8 bytes 24 _ (omega (arith, long)) (λ x2.
              (word-then 8 bytes 32 _ (omega (arith, long)) (λ x3.
                (word-then 2 bytes 56 _ (omega (arith, long))
                  (λ x4. (word-then 2 bytes 60 _ (omega (arith, long)) (λ x5. tt))))))))))))
]

read_header_32-IsSafe : (bytes : List ℕ) → IsSafe (read_header_32 bytes)
unfolding read_header_32
read_header_32-IsSafe bytes = elim (Bool-cases (leb 52 (length bytes))) [
  | inr e ↦ rw e tt
  | inl e ↦
      let long : 52 ≤ length bytes = leb→le 52 (length bytes) e in
      rw e (
        word-then 2 bytes 16 _ (omega (arith, long)) (λ x0.
          (word-then 2 bytes 18 _ (omega (arith, long)) (λ x1.
            (word-then 4 bytes 24 _ (omega (arith, long)) (λ x2.
              (word-then 4 bytes 28 _ (omega (arith, long)) (λ x3.
                (word-then 2 bytes 44 _ (omega (arith, long))
                  (λ x4. (word-then 2 bytes 48 _ (omega (arith, long)) (λ x5. tt))))))))))))
]

program_header-IsOk :
    (is_64 : Bool) (bytes : List ℕ) (off : ℕ)
    → off + ph_entry_size is_64 ≤ length bytes
    → IsOk (program_header is_64 bytes off)
unfolding program_header_64 program_header_32 word
program_header-IsOk true bytes off f = ground (arith, f)
program_header-IsOk false bytes off f = ground (arith, f)

read_segments-IsOk :
    (is_64 : Bool) (bytes : List ℕ) (off count : ℕ)
    → off + count * ph_entry_size is_64 ≤ length bytes
    → IsOk (read_segments is_64 bytes off count)
unfolding read_segments
read_segments-IsOk is_64 bytes off zero f = tt
read_segments-IsOk is_64 bytes off (suc count) f =
    let step : off + ph_entry_size is_64 + count * ph_entry_size is_64 ≤ length bytes =
      next_entry is_64 off count (length bytes) f in
    IsOk->>= (program_header is_64 bytes off) _
      (program_header-IsOk is_64 bytes off (omega (arith, step)))
      (λ seg e.
        IsOk-map (read_segments is_64 bytes (off + ph_entry_size is_64) count) _
          (read_segments-IsOk is_64 bytes (off + ph_entry_size is_64) count step))
  where
    next_entry :
        (is_64 : Bool) (off count n : ℕ)
        → off + suc count * ph_entry_size is_64 ≤ n
        → off + ph_entry_size is_64 + count * ph_entry_size is_64 ≤ n
    next_entry true off count n f = omega (arith, f)
    next_entry false off count n f = omega (arith, f)

-- The table's end is a 64-bit word.
abbrev pub EndsInside : Bool → Header → Type 0
EndsInside is_64 h = h.phoff + h.phnum * ph_entry_size is_64 < u64_mod

read_table-IsSafe :
    (is_64 : Bool) (bytes : List ℕ) (h : Header)
    → EndsInside is_64 h
    → IsSafe (read_table is_64 bytes h)
unfolding read_table
read_table-IsSafe is_64 bytes h small = elim (Bool-cases (ltb 0 h.phnum && ltb 0 h.phoff)) [
  | inr e ↦ rw e tt
  | inl e ↦
      let size = h.phoff + h.phnum * ph_entry_size is_64 in
      let word_size : ltb size u64_mod ≡ true = ground (arith, small) in
      rw (e, word_size)
        (elim (Bool-cases (leb size (length bytes))) [
          | inr f ↦ rw f tt
          | inl f ↦
              rw f (IsOk-IsSafe _ (read_segments-IsOk is_64 bytes h.phoff h.phnum (leb→le _ _ f)))
        ])
]

abbrev pub header_for : Bool → List ℕ → Result Header
header_for is_64 bytes = if is_64 then read_header_64 bytes else read_header_32 bytes

header_for-IsSafe : (is_64 : Bool) (bytes : List ℕ) → IsSafe (header_for is_64 bytes)
header_for-IsSafe true bytes = read_header_64-IsSafe bytes
header_for-IsSafe false bytes = read_header_32-IsSafe bytes

-- The parser never panics on a file whose header table ends below 2 ^ 64: it returns the
-- information or an error, whatever the bytes.
pub parse-IsSafe :
    (bytes : List ℕ)
    → ((h : Header)
        → header_for (get_or bytes 4 0 == 2) bytes ≡ ok h
        → EndsInside (get_or bytes 4 0 == 2) h)
    → IsSafe (parse_elf_from_bytes bytes)
unfolding parse_elf_from_bytes finish_parse
parse-IsSafe bytes small =
    let is_64 = get_or bytes 4 0 == 2 in
    let parsed : IsSafe (header_for is_64 bytes >>= finish_parse is_64 bytes) =
      IsSafe->>= (header_for is_64 bytes) (finish_parse is_64 bytes) (header_for-IsSafe is_64 bytes)
        (OnOk-intro (header_for is_64 bytes) (λ h. IsSafe (finish_parse is_64 bytes h))
          (λ h e.
            IsSafe->>= (read_table is_64 bytes h) _ (read_table-IsSafe is_64 bytes h (small h e))
              (OnOk-intro (read_table is_64 bytes h) _ (λ ss e'. tt)))) in
    elim (Bool-cases (leb 16 (length bytes))) [
      | inr e ↦ rw e tt
      | inl e ↦ rw e (elim (Bool-cases (has_magic bytes)) [
        | inr f ↦ rw f tt
        | inl f ↦ rw f (elim (Bool-cases (get_or bytes 4 0 == 1 || get_or bytes 4 0 == 2)) [
          | inr g ↦ rw g tt
          | inl g ↦
              rw g (elim (Bool-cases (get_or bytes 5 0 == 1)) [
                | inr o ↦ rw o tt
                | inl o ↦ rw o parsed
              ])
        ])
      ])
    ]
