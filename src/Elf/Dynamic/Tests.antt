-- ===== src/Elf/Dynamic/Tests.antt =====
-- A bitmap word of the compressed relocation table and a GNU hash table,
-- crates/daoti-core/src/elf/mod.rs.
use yl.Prelude.{
  ℕ, ◌+◌, ◌*◌, ◌≡◌, refl, Bool, true, false, List, [], ◌∷◌, ◌++◌, arith, replicate, ok,
}
use yl.Elf.Dynamic.{relr_word}
use yl.Elf.Dynamic.Symbols.{gnu_count, symbol_code}
use yl.Elf.Dynamic.Chains.{Finished, gnu_count-Finished}
use yl.Elf.Dynamic.Relr.{from_bits, marked, relr_word-marked}

-- The first and the third of the 63 slots, and the last.
abbrev marks : List Bool
marks = true ∷ false ∷ true ∷ (replicate 59 false ++ true ∷ [])

relr_word-marked_example :
    relr_word 0x4000 (1 + 2 * from_bits marks) ≡ ok (marked 0x4000 marks, 0x4000 + 504)
unfolding replicate
relr_word-marked_example = relr_word-marked 0x4000 marks refl (omega arith)

-- A table of one bucket from symbol 1 on, whose chain has two links.
abbrev hash_bytes : List ℕ
hash_bytes =
    1 ∷ 0 ∷ 0 ∷ 0 ∷ 1 ∷ 0 ∷ 0 ∷ 0 ∷ 0 ∷ 0 ∷ 0 ∷ 0 ∷ 0 ∷ 0 ∷ 0 ∷ 0 ∷ 1 ∷ 0 ∷ 0 ∷ 0 ∷ 2 ∷ 0 ∷ 0 ∷ 0
    ∷ 5 ∷ 0 ∷ 0 ∷ 0 ∷ []

two_symbols : gnu_count hash_bytes 0 ≡ ok 3
unfolding symbol_code
two_symbols = refl

gnu_count-Finished_example : Finished (gnu_count hash_bytes 0)
gnu_count-Finished_example = gnu_count-Finished hash_bytes 0
