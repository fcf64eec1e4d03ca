-- ===== src/Flags/Compare.antt =====
-- Comparing and jumping, crates/daoti-core/src/elf/runtime.rs: the flags of a subtraction, the
-- conditional jumps and the order of the operands.
use yl.Prelude.{
  leb→le, leb→gt, ◌⊎◌, ℕ, ◌+◌, ◌-◌, ◌*◌, ◌≤◌, ◌<◌, ◌≡◌, refl, ◌∙◌, Bool, true, not, ◌&&◌, ◌||◌, ltb,
  leb, ◌==◌, if◌then◌else◌, arith, Bool-cases, inl, inr,
}
use yl.Flags.{has_bit, same_bool, set_if, overflow, xor, parse_jcc}

-- The flags, set one after the other.
abbrev pub packed : Bool → Bool → Bool → Bool → Bool → ℕ
packed z s c o p = set_if p 0x04 (set_if o 0x800 (set_if c 0x01 (set_if s 0x80 (set_if z 0x40 0))))

module _ (z s c o p : Bool) where
  zero_flag : has_bit (packed z s c o p) 0x40 ≡ z
  zero_flag = ground arith

  sign_flag : has_bit (packed z s c o p) 0x80 ≡ s
  sign_flag = ground arith

  carry_flag : has_bit (packed z s c o p) 0x1 ≡ c
  carry_flag = ground arith

  overflow_flag : has_bit (packed z s c o p) 0x800 ≡ o
  overflow_flag = ground arith

-- The order of signed words is the order of the words with their sign bit flipped.
abbrev pub flipped : ℕ → ℕ → ℕ
flipped sign x = if leb sign x then x - sign else x + sign

-- What the jumps test after a comparison of `a` with `b`.
pub record Jumps (sign a b f : ℕ) : Type 0 where
  pub equal : parse_jcc 0x4 f ≡ (a == b)
  pub below : parse_jcc 0x2 f ≡ ltb a b
  pub below_or_equal : parse_jcc 0x6 f ≡ leb a b
  pub above : parse_jcc 0x7 f ≡ ltb b a
  pub less : parse_jcc 0xc f ≡ ltb (flipped sign a) (flipped sign b)
  pub greater_or_equal : parse_jcc 0xd f ≡ leb (flipped sign b) (flipped sign a)
  pub less_or_equal : parse_jcc 0xe f ≡ leb (flipped sign a) (flipped sign b)
  pub greater : parse_jcc 0xf f ≡ ltb (flipped sign b) (flipped sign a)

-- The difference `d` of two words of a width, wrapped around.
pub record Difference (sign a b d : ℕ) : Type 0 where
  pub small_a : a < 2 * sign
  pub small_b : b < 2 * sign
  pub no_borrow : b ≤ a → d ≡ a - b
  pub borrow : a < b → d + b ≡ a + 2 * sign
  pub bit_a : has_bit a sign ≡ leb sign a
  pub bit_b : has_bit b sign ≡ leb sign b
  pub bit_d : has_bit d sign ≡ leb sign d

signed_order :
    (sign a b d : ℕ)
    → a < 2 * sign
    → b < 2 * sign
    → (b ≤ a × (d ≡ a - b)) ⊎ (a < b × (d + b ≡ a + 2 * sign))
    → xor
        (leb sign d)
        (not (same_bool (leb sign a) (leb sign b)) && same_bool (leb sign d) (leb sign b))
      ≡ ltb (flipped sign a) (flipped sign b)
signed_order sign a b d sa sb (inl h) = ground (arith, sa, sb, h.0, h.1)
signed_order sign a b d sa sb (inr h) = ground (arith, sa, sb, h.0, h.1)

le_or_lt : (a b : ℕ) → (b ≤ a) ⊎ (a < b)
le_or_lt a b = elim (Bool-cases (leb b a)) [
  | inl e ↦ inl (leb→le b a e)
  | inr e ↦ inr (leb→gt b a e)
]

-- The jumps on flags that say `lt` of the signed order and `eq` and `lo` of the words.
jumps_on :
    (z s c o p : Bool)
    → (parse_jcc 0x4 (packed z s c o p) ≡ z)
      × (parse_jcc 0x2 (packed z s c o p) ≡ c)
      × (parse_jcc 0x6 (packed z s c o p) ≡ c || z)
      × (parse_jcc 0x7 (packed z s c o p) ≡ not c && not z)
      × (parse_jcc 0xc (packed z s c o p) ≡ xor s o)
      × (parse_jcc 0xd (packed z s c o p) ≡ not (xor s o))
      × (parse_jcc 0xe (packed z s c o p) ≡ z || xor s o)
      × (parse_jcc 0xf (packed z s c o p) ≡ not z && not (xor s o))
unfolding parse_jcc
jumps_on z s c o p =
    let fz = zero_flag z s c o p in
    let fs = sign_flag z s c o p in
    let fc = carry_flag z s c o p in
    let fo = overflow_flag z s c o p in
    (
      fz,
      fc,
      rw (fc, fz) refl,
      rw (fc, fz) refl,
      rw (fs, fo) refl,
      rw (fs, fo) refl,
      rw (fz, fs, fo) refl,
      rw (fz, fs, fo) refl,
    )

either :
    (sign a b : ℕ)
    → a < 2 * sign
    → b < 2 * sign
    → ((a == b) || ltb (flipped sign a) (flipped sign b)) ≡ leb (flipped sign a) (flipped sign b)
either sign a b sa sb = ground (arith, sa, sb)

neither :
    (sign a b : ℕ)
    → a < 2 * sign
    → b < 2 * sign
    → (not (a == b) && not (ltb (flipped sign a) (flipped sign b)))
      ≡ ltb (flipped sign b) (flipped sign a)
neither sign a b sa sb = ground (arith, sa, sb)

module _ (sign a b d : ℕ) (h : Difference sign a b d) where
  signed_less :
      xor (has_bit d sign) (overflow sign d a b true) ≡ ltb (flipped sign a) (flipped sign b)
  signed_less =
      rw (h.bit_a, h.bit_b, h.bit_d)
        (signed_order sign a b d h.small_a h.small_b
          (elim (le_or_lt a b) [ inl l ↦ inl (l, h.no_borrow l) | inr l ↦ inr (l, h.borrow l) ]))

  is_equal : (d == 0) ≡ (a == b)
  is_equal = elim (le_or_lt a b) [
    | inl l ↦ let e = h.no_borrow l in ground (arith, e, l)
    | inr l ↦ let e = h.borrow l in ground (arith, e, l, h.small_b)
  ]

  pub packed-Jumps :
      (p : Bool)
      → Jumps sign a b (packed (d == 0) (has_bit d sign) (ltb a b) (overflow sign d a b true) p)
  packed-Jumps p =
      let j = jumps_on (d == 0) (has_bit d sign) (ltb a b) (overflow sign d a b true) p in
      record {
        equal = j.0 ∙ is_equal;
        below = j.1;
        below_or_equal = j.2 ∙ rw is_equal (ground arith);
        above = j.3 ∙ rw is_equal (ground arith);
        less = j.4 ∙ signed_less;
        greater_or_equal = j.5 ∙ rw signed_less (ground arith);
        less_or_equal = j.6 ∙ rw (is_equal, signed_less) (either sign a b h.small_a h.small_b);
        greater = j.7 ∙ rw (is_equal, signed_less) (neither sign a b h.small_a h.small_b);
      }
