-- ===== src/Flags/Widths.antt =====
-- Comparisons at each operand width: `update_flags_arith_width` and `parse_jcc` of
-- crates/daoti-core/src/elf/runtime.rs.
use yl.Prelude.{◌⊎◌, ℕ, ◌+◌, ◌-◌, ◌*◌, ◌%◌, ◌^◌, ◌<◌, ◌≡◌, refl, true, ok, u64_mod, arith, inl, inr}
use yl.Flags.{modulus, update_flags_arith_width}
use yl.Flags.Compare.{Jumps, packed-Jumps}

-- The widths that the instructions have, in bytes.
abbrev pub IsWidth : ℕ → Type 0
IsWidth w = (w ≡ 1) ⊎ (w ≡ 2) ⊎ (w ≡ 4) ⊎ (w ≡ 8)

-- `lhs.wrapping_sub(rhs)` on 64-bit words.
abbrev pub wrapping_sub : ℕ → ℕ → ℕ
wrapping_sub lhs rhs = (lhs + (u64_mod - rhs)) % u64_mod

-- The flags that a comparison of a width leaves, and what the jumps make of them.
abbrev pub Compared : ℕ → ℕ → ℕ → ℕ → Type 0
Compared w sign lhs rhs =
    (f : ℕ) × (update_flags_arith_width (wrapping_sub lhs rhs) lhs rhs true w ≡ ok f)
    × Jumps sign (lhs % modulus w) (rhs % modulus w) f

module _ (lhs rhs : ℕ) (small : lhs < u64_mod) (small' : rhs < u64_mod) where
  byte_1-Compared : Compared 1 128 lhs rhs
  unfolding update_flags_arith_width
  byte_1-Compared = (
    _,
    refl,
    packed-Jumps 128 (lhs % 256) (rhs % 256) (wrapping_sub lhs rhs % 256)
        (record {
          small_a = omega arith;
          small_b = omega arith;
          no_borrow = λ l. omega (arith, l, small, small');
          borrow = λ l. omega (arith, l, small, small');
          bit_a = ground arith;
          bit_b = ground arith;
          bit_d = ground arith;
        })
        _,
  )

  byte_2-Compared : Compared 2 32768 lhs rhs
  unfolding update_flags_arith_width
  byte_2-Compared = (
    _,
    refl,
    packed-Jumps 32768 (lhs % 65536) (rhs % 65536) (wrapping_sub lhs rhs % 65536)
        (record {
          small_a = omega arith;
          small_b = omega arith;
          no_borrow = λ l. omega (arith, l, small, small');
          borrow = λ l. omega (arith, l, small, small');
          bit_a = ground arith;
          bit_b = ground arith;
          bit_d = ground arith;
        })
        _,
  )

  byte_4-Compared : Compared 4 2147483648 lhs rhs
  unfolding update_flags_arith_width
  byte_4-Compared = (
    _,
    refl,
    packed-Jumps 2147483648 (lhs % 4294967296) (rhs % 4294967296)
        (wrapping_sub lhs rhs % 4294967296)
        (record {
          small_a = omega arith;
          small_b = omega arith;
          no_borrow = λ l. omega (arith, l, small, small');
          borrow = λ l. omega (arith, l, small, small');
          bit_a = ground arith;
          bit_b = ground arith;
          bit_d = ground arith;
        })
        _,
  )

  byte_8-Compared : Compared 8 9223372036854775808 lhs rhs
  unfolding update_flags_arith_width
  byte_8-Compared = (
    _,
    refl,
    packed-Jumps 9223372036854775808 (lhs % 18446744073709551616) (rhs % 18446744073709551616)
        (wrapping_sub lhs rhs % 18446744073709551616)
        (record {
          small_a = omega arith;
          small_b = omega arith;
          no_borrow = λ l. omega (arith, l, small, small');
          borrow = λ l. omega (arith, l, small, small');
          bit_a = ground arith;
          bit_b = ground arith;
          bit_d = ground arith;
        })
        _,
  )

-- After the flags of a subtraction of two words, at each width that instructions have, the
-- conditional jumps test the order of the operands cut to that width: je equality, jb, jbe and ja
-- the unsigned order, jl, jge, jle and jg the signed order.
pub compare-Jumps :
    (w lhs rhs : ℕ)
    → IsWidth w
    → lhs < u64_mod
    → rhs < u64_mod
    → Compared w (2 ^ (w * 8 - 1)) lhs rhs
compare-Jumps w lhs rhs (inl e) small small' = rw e (byte_1-Compared lhs rhs small small')
compare-Jumps w lhs rhs (inr (inl e)) small small' = rw e (byte_2-Compared lhs rhs small small')
compare-Jumps w lhs rhs (inr (inr (inl e))) small small' =
    rw e (byte_4-Compared lhs rhs small small')
compare-Jumps w lhs rhs (inr (inr (inr e))) small small' =
    rw e (byte_8-Compared lhs rhs small small')
