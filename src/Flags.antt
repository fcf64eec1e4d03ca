-- ===== src/Flags.antt =====
-- The flags of the x86-64 interpreter, crates/daoti-core/src/elf/runtime.rs: what arithmetic and
-- logic leave in `rflags`, and the conditions of the conditional jumps. Operands are 64-bit words.
pub mod Compare
pub mod Widths
mod Tests
use yl.Prelude.{
  ℕ, zero, suc, ◌+◌, ◌-◌, ◌*◌, ◌/◌, ◌%◌, ◌^◌, Bool, true, false, not, ◌&&◌, ◌||◌, ltb, ◌==◌,
  if◌then◌else◌, Result, ok, panic, ◌>>=◌, u64_mod, List, [], ◌∷◌, get_or,
}

-- One more than the mask of a width in bytes: `x & mask` is `x % modulus width`.
abbrev pub modulus : ℕ → ℕ
modulus width =
    if width == 1
    then 256
    else (if width == 2 then 65536 else (if width == 4 then 4294967296 else u64_mod))

-- `1u64 << (width * 8 - 1)`, which panics on a width of 0 or above 8.
abbrev pub sign_bit : ℕ → Result ℕ
sign_bit width = if width == 0 || ltb 8 width then panic else ok (2 ^ (width * 8 - 1))

-- `x & bit != 0`, for a power of two.
abbrev pub has_bit : ℕ → ℕ → Bool
has_bit x bit = (x / bit) % 2 == 1

abbrev pub same_bool : Bool → Bool → Bool
same_bool true b = b
same_bool false b = not b

-- `f |= bit`, for a bit that is not in `f` yet.
abbrev pub set_if : Bool → ℕ → ℕ → ℕ
set_if c bit f = f + (if c then bit else 0)

-- `count_ones` of the `n` low bits.
unfoldable pub count_ones : ℕ → ℕ → ℕ
count_ones zero x = 0
count_ones (suc n) x = x % 2 + count_ones n (x / 2)

-- `(value & 0xff).count_ones().is_multiple_of(2)`
abbrev pub even_parity : ℕ → Bool
even_parity value = count_ones 8 (value % 256) % 2 == 0

unfoldable pub update_flags_logic : ℕ → ℕ → Result ℕ
update_flags_logic result width = do
  let value = result % modulus width
  sign ← sign_bit width
  ok (
      set_if (even_parity value) 0x04
        (set_if (has_bit value sign) 0x80 (set_if (value == 0) 0x40 0)))

-- The carry: a borrow of a subtraction, or a sum below its first operand.
abbrev pub carry : ℕ → ℕ → ℕ → Bool → Bool
carry result lhs rhs is_sub = if is_sub then ltb lhs rhs else ltb result lhs

abbrev pub overflow : ℕ → ℕ → ℕ → ℕ → Bool → Bool
overflow sign result lhs rhs is_sub =
    if is_sub
    then not (same_bool (has_bit lhs sign) (has_bit rhs sign))
      && same_bool (has_bit result sign) (has_bit rhs sign)
    else same_bool (has_bit lhs sign) (has_bit rhs sign)
      && not (same_bool (has_bit result sign) (has_bit lhs sign))

unfoldable pub update_flags_arith_width : ℕ → ℕ → ℕ → Bool → ℕ → Result ℕ
update_flags_arith_width result lhs rhs is_sub width = do
  sign ← sign_bit width
  let r = result % modulus width
  let a = lhs % modulus width
  let b = rhs % modulus width
  ok (
      set_if (even_parity r) 0x04 (
        set_if (overflow sign r a b is_sub) 0x800 (
          set_if (carry r a b is_sub) 0x01
            (set_if (has_bit r sign) 0x80 (set_if (r == 0) 0x40 0)))))

abbrev pub update_flags_arith64 : ℕ → ℕ → ℕ → Bool → Result ℕ
update_flags_arith64 result lhs rhs is_sub = update_flags_arith_width result lhs rhs is_sub 8

abbrev pub xor : Bool → Bool → Bool
xor a b = not (same_bool a b)

-- The arms of the `match` on `op & 0x0f`, in their order.
unfoldable pub parse_jcc : ℕ → ℕ → Bool
parse_jcc op rflags =
    let zf = has_bit rflags 0x40 in
    let sf = has_bit rflags 0x80 in
    let of = has_bit rflags 0x800 in
    let cf = has_bit rflags 0x1 in
    let pf = has_bit rflags 0x4 in
    get_or
      (of
        ∷ not of
        ∷ cf
        ∷ not cf
        ∷ zf
        ∷ not zf
        ∷ (cf || zf)
        ∷ (not cf && not zf)
        ∷ sf
        ∷ not sf
        ∷ pf
        ∷ not pf
        ∷ xor sf of
        ∷ not (xor sf of)
        ∷ (zf || xor sf of)
        ∷ (not zf && not (xor sf of))
        ∷ [])
      (op % 16) false
