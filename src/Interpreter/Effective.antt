-- ===== src/Interpreter/Effective.antt =====
-- The address of an operand with a SIB byte in crates/daoti-core/src/elf/runtime.rs against the one that
-- the architecture defines: base + index * scale + displacement, modulo 2 ^ 64.
use yl.Prelude.{
  ℕ, zero, suc, ◌+◌, ◌*◌, ◌/◌, ◌%◌, ◌^◌, ◌<◌, ◌≡◌, refl, sym, ap, ◌∙◌, inl, inr, arith, Bool, false,
  not, ◌&&◌, Option, none, some, List, [], ◌∷◌, ◌==◌, if◌then◌else◌, Bool-cases, length, get_or,
  u64_mod, ok,
}
use yl.Interpreter.{numbered, pick, reg, has, extended}
use yl.Interpreter.Operand.{Cpu, sib_base, sib_index, index_value, sib_addr, sib_target}
use yl.Interpreter.ByteRegisters.{extended_lt}

-- The parts of an address: the numbers of its registers, where there are any, and the scale.
pub record Address : Type 0 where
  pub base : Option ℕ
  pub index : Option ℕ
  pub shift : ℕ

-- The architecture's reading of a SIB byte: no base for the field 5 in mode 0, no index for the
-- field 4 unless REX.X extends it.
abbrev pub sib_parts : ℕ → ℕ → ℕ → Address
sib_parts mod_ sib rex = record {
  base =
      if mod_ == 0 && sib_base sib == 5 then none else some (extended (sib_base sib) (has rex 1));
  index =
      if sib_index sib == 4 && not (has rex 2)
      then none
      else some (extended (sib_index sib) (has rex 2));
  shift = sib / 64 % 4;
}

abbrev pub value_of : Cpu → Option ℕ → ℕ
value_of c none = 0
value_of c (some n) = get_or (numbered c.general) n 0

abbrev pub effective : Cpu → Address → ℕ → ℕ
effective c a disp = (value_of c a.base + value_of c a.index * 2 ^ a.shift + disp) % u64_mod

pick-get_or : (xs : List ℕ) (n : ℕ) → n < length xs → pick xs n ≡ ok (get_or xs n 0)
pick-get_or [] n l = absurd (omega arith)
pick-get_or (x ∷ xs) zero l = refl
pick-get_or (x ∷ xs) (suc n) l = pick-get_or xs n (omega arith)

reg-extended :
    (c : Cpu) (field : ℕ) (b : Bool)
    → field < 8
    → reg c.general (extended field b) ≡ ok (value_of c (some (extended field b)))
unfolding reg
reg-extended c field b l =
    pick-get_or (numbered c.general) (extended field b) (extended_lt field b l)

-- The index register as the code reads it, where its test for no index is the architecture's.
index_value-eq :
    (c : Cpu) (sib rex : ℕ) (absent : Bool)
    → absent ≡ (sib_index sib == 4 && not (has rex 2))
    → index_value c sib rex absent
      ≡ ok (value_of c (sib_parts 0 sib rex).index * 2 ^ (sib / 64 % 4) % u64_mod)
unfolding index_value
index_value-eq c sib rex absent same = elim (Bool-cases absent) [
  | inl e ↦
      let f = sym same ∙ e in
      let none_is_zero : 0 ≡ 0 * 2 ^ (sib / 64 % 4) % u64_mod = omega arith in
      rw (e, f) (ap (λ (x : ℕ). ok x) none_is_zero)
  | inr e ↦
      let f = sym same ∙ e in
      rw (e, f) (rw (reg-extended c (sib_index sib) (has rex 2) (omega arith)) refl)
]

-- Without a base register: mode 0 with the base field 5.
abbrev pub no_base : ℕ → ℕ → Bool
no_base mod_ sib = mod_ == 0 && sib_base sib == 5

-- The address of an operand with a SIB byte is the architecture's, for every mode, SIB byte, REX
-- prefix and displacement, but for an operand without a base register whose index field is 4 with
-- REX.X set.
pub sib_target-effective :
    (c : Cpu) (mod_ sib rex disp : ℕ)
    → (no_base mod_ sib && (sib_index sib == 4 && has rex 2)) ≡ false
    → sib_target c mod_ sib rex disp ≡ ok (effective c (sib_parts mod_ sib rex) disp)
unfolding sib_target sib_addr
sib_target-effective c mod_ sib rex disp usual =
    let x = value_of c (sib_parts 0 sib rex).index * 2 ^ (sib / 64 % 4) in
    elim (Bool-cases (no_base mod_ sib)) [
      | inl e ↦
          let same : (sib_index sib == 4) ≡ (sib_index sib == 4 && not (has rex 2)) =
            ground arith in
          let sum : (x % u64_mod + disp) % u64_mod ≡ (0 + x + disp) % u64_mod = omega arith in
          rw e (rw (index_value-eq c sib rex (sib_index sib == 4) same) (ap (λ (a : ℕ). ok a) sum))
      | inr e ↦
          let b = value_of c (some (extended (sib_base sib) (has rex 1))) in
          let sum : ((b + x % u64_mod) % u64_mod + disp) % u64_mod ≡ (b + x + disp) % u64_mod =
            omega arith in
          rw e (
            rw (index_value-eq c sib rex (sib_index sib == 4 && not (has rex 2)) refl) (
              rw (reg-extended c (sib_base sib) (has rex 1) (omega arith))
                (ap (λ (a : ℕ). ok a) sum)))
    ]
