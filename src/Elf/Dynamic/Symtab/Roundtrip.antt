-- ===== src/Elf/Dynamic/Symtab/Roundtrip.antt =====
-- The tables that `read_full_symtab_symbols` of crates/daoti-core/src/elf/mod.rs reads, as a
-- description of their bytes that is independent of the reader.
use yl.Prelude.{
  ℕ, zero, suc, ◌+◌, ◌*◌, ◌/◌, ◌^◌, ◌≤◌, ◌<◌, ◌≡◌, refl, sym, ap, ◌∙◌, arith, true, false, none,
  some, List, [], ◌∷◌, ◌++◌, ltb, ◌==◌, length, length-append, take, drop, All, ok, u64_mod,
}
use yl.Prelude.Bytes.{to_le}
use yl.Prelude.Utf8.{is_utf8}
use yl.Elf.Parse.{word}
use yl.Elf.Parse.Print.{word-field, drop-skip}
use yl.Elf.Dynamic.{until_zero}
use yl.Elf.Dynamic.Symtab.{read_tables, read_full_symbols, read_full_symbol, named, is_empty}

-- An entry with no name, or one with a name: its kind, its value and its size.
pub data SymbolEntry : Type 0 where
  unnamed : ℕ → ℕ → ℕ → SymbolEntry
  called : List ℕ → ℕ → ℕ → ℕ → SymbolEntry

-- The string table behind its first 0: each name and a 0.
unfoldable pub names_bytes : List SymbolEntry → List ℕ
names_bytes [] = []
names_bytes (unnamed info value size ∷ es) = names_bytes es
names_bytes (called name info value size ∷ es) = name ++ 0 ∷ names_bytes es

unfoldable pub entry_bytes : ℕ → ℕ → ℕ → ℕ → List ℕ
unfolding to_le
entry_bytes st_name info value size =
    to_le 4 st_name ++ (to_le 4 info ++ (to_le 8 value ++ to_le 8 size))

-- The symbol table, whose next name stands at `at` of the string table.
unfoldable pub entries_bytes : ℕ → List SymbolEntry → List ℕ
unfolding entry_bytes
entries_bytes at [] = []
entries_bytes at (unnamed info value size ∷ es) =
    entry_bytes 0 info value size ++ entries_bytes at es
entries_bytes at (called name info value size ∷ es) =
    entry_bytes at info value size ++ entries_bytes (at + suc (length name)) es

-- A value of 64 bits, and a name of UTF-8 with no 0 in it.
abbrev pub IsEntry : SymbolEntry → Type 0
IsEntry (unnamed info value size) = value < 256 ^ 8
IsEntry (called name info value size) =
    (value < 256 ^ 8) × (is_utf8 name ≡ true) × (is_empty name ≡ false) × All (λ b. 0 < b) name

-- The named ones, in their order.
abbrev pub symbols_of : List SymbolEntry → List (List ℕ × ℕ)
symbols_of [] = []
symbols_of (unnamed info value size ∷ es) = symbols_of es
symbols_of (called name info value size ∷ es) = (name, value) ∷ symbols_of es

drop_nil : (n : ℕ) → drop {A = ℕ} n [] ≡ []
drop_nil zero = refl
drop_nil (suc n) = refl

drop-drop : (a b : ℕ) (xs : List ℕ) → drop (a + b) xs ≡ drop b (drop a xs)
drop-drop zero b xs = ap (λ n. drop n xs) (omega arith)
drop-drop (suc a) b [] = drop_nil (suc a + b) ∙ sym (drop_nil b)
drop-drop (suc a) b (x ∷ xs) =
    let e : suc a + b ≡ suc (a + b) = omega arith in rw e (drop-drop a b xs)

until_zero-name :
    (name rest : List ℕ) → All (λ b. 0 < b) name → until_zero (name ++ 0 ∷ rest) ≡ name
unfolding until_zero
until_zero-name [] rest h = refl
until_zero-name (b ∷ name) rest h =
    let positive : (b == 0) ≡ false = ground (arith, h.0) in
    rw positive (ap (λ l. b ∷ l) (until_zero-name name rest h.1))

-- One entry at the front of what is left of the symbol table.
module _ (symtab strtab : List ℕ) (index st_name info value size : ℕ) (rest : List ℕ)
    (here : drop (index * 24) symtab ≡ entry_bytes st_name info value size ++ rest)
    (small : st_name < 256 ^ 4) (word_value : value < 256 ^ 8) where
  entry_taken : take 24 (drop (index * 24) symtab) ≡ entry_bytes st_name info value size
  unfolding entry_bytes
  entry_taken = rw here refl

  name_word : word 4 (take 24 (drop (index * 24) symtab)) 0 ≡ ok st_name
  unfolding entry_bytes
  name_word =
      rw entry_taken
        (word-field 4 st_name (entry_bytes st_name info value size) 0 (omega arith) small refl)

  value_word : word 8 (take 24 (drop (index * 24) symtab)) 8 ≡ ok value
  unfolding entry_bytes
  value_word =
      rw entry_taken
        (word-field 8 value (entry_bytes st_name info value size) 8 (omega arith) word_value refl)

  next_entry : drop (suc index * 24) symtab ≡ rest
  unfolding entry_bytes
  next_entry =
      let e : suc index * 24 ≡ index * 24 + 24 = omega arith in
      rw e (drop-drop (index * 24) 24 symtab ∙ rw here refl)

read_full_symbol-unnamed :
    (symtab strtab : List ℕ) (index info value size : ℕ) (rest : List ℕ)
    → drop (index * 24) symtab ≡ entry_bytes 0 info value size ++ rest
    → value < 256 ^ 8
    → read_full_symbol symtab strtab 24 index ≡ ok none
unfolding read_full_symbol
read_full_symbol-unnamed symtab strtab index info value size rest here w =
    let n = name_word symtab strtab index 0 info value size rest here (omega arith) w in
    let v = value_word symtab strtab index 0 info value size rest here (omega arith) w in
    rw (n, v) refl

read_full_symbol-called :
    (symtab strtab : List ℕ) (index at : ℕ) (name : List ℕ) (info value size : ℕ)
    (rest names : List ℕ)
    → drop (index * 24) symtab ≡ entry_bytes at info value size ++ rest
    → drop at strtab ≡ name ++ 0 ∷ names
    → 0 < at
    → at ≤ length strtab
    → length strtab < 256 ^ 4
    → IsEntry (called name info value size)
    → read_full_symbol symtab strtab 24 index ≡ ok (some (name, value))
unfolding read_full_symbol named
read_full_symbol-called symtab strtab index at name info value size rest names here text placed
      inside small w =
    let n = name_word symtab strtab index at info value size rest here (omega arith) w.0 in
    let v = value_word symtab strtab index at info value size rest here (omega arith) w.0 in
    let some_name : (at == 0) ≡ false = ground (arith, placed) in
    let in_table : ltb (length strtab) at ≡ false = ground (arith, inside) in
    let read : until_zero (drop at strtab) ≡ name = rw text (until_zero-name name names w.3) in
    rw (n, v) (rw (some_name, in_table) (rw read (rw (w.1, w.2) refl)))

read_full_symbols-entries :
    (symtab strtab : List ℕ) (index at : ℕ) (es : List SymbolEntry)
    → drop (index * 24) symtab ≡ entries_bytes at es
    → drop at strtab ≡ names_bytes es
    → 0 < at
    → at + length (names_bytes es) ≡ length strtab
    → length strtab < 256 ^ 4
    → All IsEntry es
    → read_full_symbols symtab strtab 24 index (length es) ≡ ok (symbols_of es)
unfolding read_full_symbols entries_bytes names_bytes
read_full_symbols-entries symtab strtab index at [] here text placed fits small w = refl
read_full_symbols-entries symtab strtab index at (unnamed info value size ∷ es) here text placed
      fits small w =
    let one =
      read_full_symbol-unnamed symtab strtab index info value size (entries_bytes at es) here w.0 in
    let next =
      next_entry symtab strtab index 0 info value size (entries_bytes at es) here (omega arith)
        w.0 in
    let rest =
      read_full_symbols-entries symtab strtab (suc index) at es next text placed fits small w.1 in
    rw (one, rest) refl
read_full_symbols-entries symtab strtab index at (called name info value size ∷ es) here text placed
      fits small w =
    let later = entries_bytes (at + suc (length name)) es in
    let long : length (name ++ 0 ∷ names_bytes es) ≡ length name + suc (length (names_bytes es)) =
      length-append name (0 ∷ names_bytes es) in
    let one =
      read_full_symbol-called symtab strtab index at name info value size later (names_bytes es)
        here text placed (omega (arith, fits)) small w.0 in
    let next =
      next_entry symtab strtab index at info value size later here (omega (arith, fits, small))
        w.0.0 in
    let behind : drop (at + suc (length name)) strtab ≡ names_bytes es =
      drop-drop at (suc (length name)) strtab
      ∙ rw text (
          let e : suc (length name) ≡ length name + 1 = omega arith in
          rw e (drop-skip name (0 ∷ names_bytes es) 1)) in
    let rest =
      read_full_symbols-entries symtab strtab (suc index) (at + suc (length name)) es next behind
        (omega arith) (omega (arith, fits, long)) small w.1 in
    rw (one, rest) refl

length-entries_bytes :
    (at : ℕ) (es : List SymbolEntry) → length (entries_bytes at es) ≡ length es * 24
unfolding entries_bytes entry_bytes
length-entries_bytes at [] = omega arith
length-entries_bytes at (unnamed info value size ∷ es) = omega (arith, length-entries_bytes at es)
length-entries_bytes at (called name info value size ∷ es) =
    omega (arith, length-entries_bytes (at + suc (length name)) es)

-- A file whose symbol table, of any entries of 24 bytes, and whose string table, a 0 and the names
-- of the entries, stand at two places inside it: reading the tables gives the named symbols, each
-- with its value, in their order.
pub read_tables-entries :
    (bytes : List ℕ) (symtab_off strtab_off : ℕ) (es : List SymbolEntry)
    → length bytes < u64_mod
    → symtab_off + length (entries_bytes 1 es) ≤ length bytes
    → strtab_off + suc (length (names_bytes es)) ≤ length bytes
    → take (length (entries_bytes 1 es)) (drop symtab_off bytes) ≡ entries_bytes 1 es
    → take (suc (length (names_bytes es))) (drop strtab_off bytes) ≡ 0 ∷ names_bytes es
    → suc (length (names_bytes es)) < 256 ^ 4
    → All IsEntry es
    → read_tables bytes
        (symtab_off, length (entries_bytes 1 es), 24)
        (strtab_off, suc (length (names_bytes es)))
      ≡ ok (symbols_of es)
unfolding read_tables
read_tables-entries bytes symtab_off strtab_off es word_size f f' symtab strtab small w =
    let n = length (entries_bytes 1 es) in
    let k = suc (length (names_bytes es)) in
    let a : ltb (symtab_off + n) u64_mod ≡ true = ground (arith, f, word_size) in
    let b : ltb (length bytes) (symtab_off + n) ≡ false = ground (arith, f) in
    let c : ltb (strtab_off + k) u64_mod ≡ true = ground (arith, f', word_size) in
    let d : ltb (length bytes) (strtab_off + k) ≡ false = ground (arith, f') in
    let count : n / 24 ≡ length es = omega (arith, length-entries_bytes 1 es) in
    rw (a, b)
      (rw (c, d)
        (rw (symtab, strtab)
          (rw count (
            read_full_symbols-entries (entries_bytes 1 es) (0 ∷ names_bytes es) 0 1 es refl refl
              (omega arith) (omega arith) small w))))
