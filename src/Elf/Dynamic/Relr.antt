-- ===== src/Elf/Dynamic/Relr.antt =====
-- The compressed table of relative relocations of crates/daoti-core/src/elf/mod.rs: a bitmap word
-- stands for the slots that its bits mark.
use yl.Prelude.{
  ℕ, suc, ◌+◌, ◌-◌, ◌*◌, ◌/◌, ◌%◌, ◌≤◌, ◌<◌, ◌≡◌, refl, sym, ap, ◌∙◌, Bool, true, false, List, [],
  ◌∷◌, arith, ltb, ◌==◌, if◌then◌else◌, u64_mod, length, ok,
}
use yl.Elf.Dynamic.{RelocationEntry, relative_entry, relr_bits, relr_word}

-- The word whose bits, the lowest first, are the given ones.
abbrev pub from_bits : List Bool → ℕ
from_bits [] = 0
from_bits (b ∷ bs) = (if b then 1 else 0) + 2 * from_bits bs

-- The marked slots among those of 8 bytes from `slot` on.
abbrev pub marked : ℕ → List Bool → List RelocationEntry
marked slot [] = []
marked slot (b ∷ bs) =
    if b then relative_entry slot ∷ marked (slot + 8) bs else marked (slot + 8) bs

relr_bits-marked :
    (slot bit at : ℕ) (bs : List Bool)
    → at ≡ slot + (bit - 1) * 8
    → 0 < bit
    → at + 8 * length bs ≤ u64_mod
    → relr_bits slot bit (from_bits bs) (length bs) ≡ ok (marked at bs)
unfolding relr_bits
relr_bits-marked slot bit at [] e p f = refl
relr_bits-marked slot bit at (true ∷ bs) e p f =
    let rest =
      relr_bits-marked slot (suc bit) (at + 8) bs (omega (arith, e, p)) (omega arith)
        (omega (arith, f)) in
    let half : (1 + 2 * from_bits bs) / 2 ≡ from_bits bs = omega arith in
    let odd : ((1 + 2 * from_bits bs) % 2 == 1) ≡ true = ground arith in
    let inside : ltb (slot + (bit - 1) * 8) u64_mod ≡ true = ground (arith, e, f) in
    rw (half, odd, inside, rest, e) refl
relr_bits-marked slot bit at (false ∷ bs) e p f =
    let rest =
      relr_bits-marked slot (suc bit) (at + 8) bs (omega (arith, e, p)) (omega arith)
        (omega (arith, f)) in
    let half : (0 + 2 * from_bits bs) / 2 ≡ from_bits bs = omega arith in
    let odd : ((0 + 2 * from_bits bs) % 2 == 1) ≡ false = ground arith in rw (half, odd) rest

relr_word-odd :
    (slot w : ℕ) (es : List RelocationEntry)
    → (w % 2 == 0) ≡ false
    → ltb (slot + 504) u64_mod ≡ true
    → relr_bits slot 1 (w / 2) 63 ≡ ok es
    → relr_word slot w ≡ ok (es, slot + 504)
unfolding relr_word
relr_word-odd slot w es odd inside all = rw (odd, all, inside) refl

marks_odd : (n : ℕ) → ((1 + 2 * n) % 2 == 0) ≡ false
marks_odd n = ground arith

slots_inside : (slot : ℕ) → slot + 504 < u64_mod → ltb (slot + 504) u64_mod ≡ true
slots_inside slot f = ground arith

-- A bitmap word of 63 marks is read as relative relocations of exactly the marked slots, in the
-- order of their addresses, and moves on by 63 slots, if these end below the end of the address space.
pub relr_word-marked :
    (slot : ℕ) (bs : List Bool)
    → length bs ≡ 63
    → slot + 504 < u64_mod
    → relr_word slot (1 + 2 * from_bits bs) ≡ ok (marked slot bs, slot + 504)
relr_word-marked slot bs n f =
    let half : (1 + 2 * from_bits bs) / 2 ≡ from_bits bs = omega arith in
    let all = relr_bits-marked slot 1 slot bs (omega arith) (omega arith) (omega (arith, n, f)) in
    relr_word-odd slot (1 + 2 * from_bits bs) (marked slot bs) (marks_odd (from_bits bs))
      (slots_inside slot f)
      (ap (λ w. relr_bits slot 1 w 63) half
        ∙ ap (λ k. relr_bits slot 1 (from_bits bs) k) (sym n)
        ∙ all)
