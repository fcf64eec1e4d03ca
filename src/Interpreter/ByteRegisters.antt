-- ===== src/Interpreter/ByteRegisters.antt =====
-- The byte registers of crates/daoti-core/src/elf/runtime.rs, `rd8` and `wr8`: without a REX prefix the
-- fields 4 to 7 are ah, ch, dh and bh.
use yl.Prelude.{
  ℕ, ◌-◌, ◌/◌, ◌%◌, ◌<◌, ◌≡◌, ◌≢◌, refl, sym, ap, ◌∙◌, inl, inr, arith, Bool, true, false, ◌==◌,
  if◌then◌else◌, Bool-cases, Result, ok, ◌>>=◌,
}
use mathlib.Core.Path.{ap₂}
use yl.Interpreter.{
  GeneralRegisters, reg, reg_mut, names_high, extended, field_index, rd8, wr8, put_high, put_low,
}
use yl.Interpreter.Registers.{reg_mut-Set, reg-IsOk}

-- Where a byte register stands: the number of the register, and whether it is its second byte.
abbrev pub place : ℕ → ℕ → Bool → ℕ × Bool
place code rex field =
    if names_high code rex then (code - 4, true) else (field_index code rex field, false)

abbrev pub byte_of : Bool → ℕ → ℕ
byte_of high r = if high then (r / 256) % 256 else r % 256

abbrev pub put_byte : Bool → ℕ → ℕ → ℕ
put_byte high r val = if high then put_high r val else put_low r val

abbrev pub byte_at : GeneralRegisters → ℕ × Bool → Result ℕ
byte_at g at = reg g at.0 >>= (λ r. ok (byte_of at.1 r))

abbrev put_at : GeneralRegisters → ℕ × Bool → ℕ → Result GeneralRegisters
put_at g at val = reg g at.0 >>= (λ r. reg_mut g at.0 (put_byte at.1 r val))

rd8-byte_at :
    (g : GeneralRegisters) (code rex : ℕ) (field : Bool)
    → rd8 g code rex field ≡ byte_at g (place code rex field)
unfolding rd8
rd8-byte_at g code rex field = elim (Bool-cases (names_high code rex)) [
  | inl e ↦ rw e refl
  | inr e ↦ rw e refl
]

wr8-put_at :
    (g : GeneralRegisters) (code rex : ℕ) (field : Bool) (val : ℕ)
    → wr8 g code rex field val ≡ put_at g (place code rex field) val
unfolding wr8
wr8-put_at g code rex field val = elim (Bool-cases (names_high code rex)) [
  | inl e ↦ rw e refl
  | inr e ↦ rw e refl
]

pub extended_lt : (code : ℕ) (b : Bool) → code < 8 → extended code b < 16
extended_lt code b l = ground arith

place_lt : (code rex : ℕ) (field : Bool) → code < 8 → (place code rex field).0 < 16
place_lt code rex field l = elim (Bool-cases (names_high code rex)) [
  | inl e ↦ rw e (omega arith)
  | inr e ↦ rw e (extended_lt code _ l)
]

byte_of-put_byte : (high : Bool) (r val : ℕ) → val < 256 → byte_of high (put_byte high r val) ≡ val
byte_of-put_byte true r val l = omega arith
byte_of-put_byte false r val l = omega arith

byte_of-put_byte_ne :
    (high other : Bool) (r val : ℕ)
    → val < 256
    → other ≢ high
    → byte_of other (put_byte high r val) ≡ byte_of other r
byte_of-put_byte_ne true true r val l ne = absurd (ne refl)
byte_of-put_byte_ne true false r val l ne = omega arith
byte_of-put_byte_ne false true r val l ne = omega arith
byte_of-put_byte_ne false false r val l ne = absurd (ne refl)

put_at-eq :
    (g : GeneralRegisters) (at : ℕ × Bool) (val : ℕ)
    → at.0 < 16
    → val < 256
    → (g' : GeneralRegisters) × (put_at g at val ≡ ok g')
      × (byte_at g' at ≡ ok val)
      × ((there : ℕ × Bool) → there ≢ at → byte_at g' there ≡ byte_at g there)
put_at-eq g at val l small =
    let (r, e) = reg-IsOk g at.0 l in
    let (g', done, set) = (reg_mut-Set g at.0 (put_byte at.1 r val)).0 l in
    (
      g',
      rw e done,
      rw set.here (ap (λ (x : ℕ). ok x) (byte_of-put_byte at.1 r val small)),
      λ there ne. elim (Bool-cases (there.0 == at.0)) [
        | inr away ↦
            ap (λ x. x >>= (λ r. ok (byte_of there.1 r))) (set.others there.0 (ground arith))
        | inl same ↦
            let i : there.0 ≡ at.0 = ground arith in
            let k : ℕ → Result ℕ = λ x. ok (byte_of there.1 x) in
            let now : reg g' at.0 >>= k ≡ ok (byte_of there.1 r) = rw set.here (
              ap (λ (x : ℕ). ok x)
                (byte_of-put_byte_ne at.1 there.1 r val small
                  (λ h. ne (ap₂ (λ a b. (a, b)) i h)))) in
            let before : reg g at.0 >>= k ≡ ok (byte_of there.1 r) = rw e refl in
            ap (λ n. reg g' n >>= k) i ∙ now ∙ sym (ap (λ n. reg g n >>= k) i ∙ before)
      ],
    )

-- Writing a byte register by a three-bit field succeeds. Reading the same field then gives the
-- written byte, and any field that names another byte, be it of another register or the other of
-- the two low bytes of the same one, reads as before.
pub wr8-rd8 :
    (g : GeneralRegisters) (code rex : ℕ) (field : Bool) (val : ℕ)
    → code < 8
    → val < 256
    → (g' : GeneralRegisters) × (wr8 g code rex field val ≡ ok g')
      × (rd8 g' code rex field ≡ ok val)
      × ((code' rex' : ℕ) (field' : Bool)
          → place code' rex' field' ≢ place code rex field
          → rd8 g' code' rex' field' ≡ rd8 g code' rex' field')
wr8-rd8 g code rex field val l small =
    let (g', done, here, others) =
      put_at-eq g (place code rex field) val (place_lt code rex field l) small in
    (
      g',
      wr8-put_at g code rex field val ∙ done,
      rd8-byte_at g' code rex field ∙ here,
      λ code' rex' field' ne.
          rd8-byte_at g' code' rex' field'
          ∙ others (place code' rex' field') ne
          ∙ sym (rd8-byte_at g code' rex' field'),
    )
