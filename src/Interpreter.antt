-- ===== src/Interpreter.antt =====
-- The register file of crates/daoti-core/src/elf/runtime.rs, `GeneralRegisters`, and the parts of
-- `X86_64Interpreter` that read and write registers by their number. A register is a 64-bit word.
pub mod Operand
pub mod Registers
pub mod ByteRegisters
pub mod Effective
pub mod Consumed
mod Tests
use yl.Prelude.{
  ℕ, zero, suc, ◌+◌, ◌-◌, ◌*◌, ◌/◌, ◌%◌, Bool, not, ◌&&◌, Option, none, some, List, [], ◌∷◌, ltb,
  leb, ◌==◌, if◌then◌else◌, get_or, get_elem?, Result, ok, panic, ◌>>=◌,
}

pub record GeneralRegisters : Type 0 where
  pub rax : ℕ
  pub rbx : ℕ
  pub rcx : ℕ
  pub rdx : ℕ
  pub rsi : ℕ
  pub rdi : ℕ
  pub rbp : ℕ
  pub rsp : ℕ
  pub r8 : ℕ
  pub r9 : ℕ
  pub r10 : ℕ
  pub r11 : ℕ
  pub r12 : ℕ
  pub r13 : ℕ
  pub r14 : ℕ
  pub r15 : ℕ
  pub rip : ℕ
  pub rflags : ℕ

abbrev pub new : ℕ → ℕ → GeneralRegisters
new rip rsp = record {
  rax = 0;
  rbx = 0;
  rcx = 0;
  rdx = 0;
  rsi = 0;
  rdi = 0;
  rbp = 0;
  rsp = rsp;
  r8 = 0;
  r9 = 0;
  r10 = 0;
  r11 = 0;
  r12 = 0;
  r13 = 0;
  r14 = 0;
  r15 = 0;
  rip = rip;
  rflags = 0;
}

-- The arms of `reg`, in the order of their numbers.
abbrev pub numbered : GeneralRegisters → List ℕ
numbered g =
    g.rax ∷ g.rcx ∷ g.rdx ∷ g.rbx ∷ g.rsp ∷ g.rbp ∷ g.rsi ∷ g.rdi ∷ g.r8 ∷ g.r9 ∷ g.r10 ∷ g.r11
    ∷ g.r12 ∷ g.r13 ∷ g.r14 ∷ g.r15 ∷ []

-- The same registers with the values of a list.
unfoldable pub with_numbered : GeneralRegisters → List ℕ → GeneralRegisters
with_numbered g xs = record g {
  rax = get_or xs 0 0;
  rcx = get_or xs 1 0;
  rdx = get_or xs 2 0;
  rbx = get_or xs 3 0;
  rsp = get_or xs 4 0;
  rbp = get_or xs 5 0;
  rsi = get_or xs 6 0;
  rdi = get_or xs 7 0;
  r8 = get_or xs 8 0;
  r9 = get_or xs 9 0;
  r10 = get_or xs 10 0;
  r11 = get_or xs 11 0;
  r12 = get_or xs 12 0;
  r13 = get_or xs 13 0;
  r14 = get_or xs 14 0;
  r15 = get_or xs 15 0;
}

unfoldable pub set_at : List ℕ → ℕ → ℕ → List ℕ
set_at [] n value = []
set_at (x ∷ xs) zero value = value ∷ xs
set_at (x ∷ xs) (suc n) value = x ∷ set_at xs n value

-- The `n`th value; another number than 0 to 15 panics.
abbrev pub pick : List ℕ → ℕ → Result ℕ
pick xs n = elim (get_elem? xs n) [ none ↦ panic | some value ↦ ok value ]

unfoldable pub reg : GeneralRegisters → ℕ → Result ℕ
reg g n = pick (numbered g) n

-- `*self.reg_mut(n) = value`
unfoldable pub reg_mut : GeneralRegisters → ℕ → ℕ → Result GeneralRegisters
unfolding with_numbered set_at
reg_mut g n value = if ltb n 16 then ok (with_numbered g (set_at (numbered g) n value)) else panic

-- `x & bit != 0`, for a power of two.
abbrev pub has : ℕ → ℕ → Bool
has x bit = (x / bit) % 2 == 1

-- `code | 8`, if the extension bit is set.
abbrev pub extended : ℕ → Bool → ℕ
extended code extension = if extension && not (has code 8) then code + 8 else code

-- Whether a field names the second byte of one of the first four registers.
abbrev pub names_high : ℕ → ℕ → Bool
names_high code rex = rex == 0 && (leb 4 code && leb code 7)

-- The number of a register field: REX.R extends the register field, REX.B the other one.
abbrev pub field_index : ℕ → ℕ → Bool → ℕ
field_index code rex is_reg_field = extended code (if is_reg_field then has rex 4 else has rex 1)

unfoldable pub rd8 : GeneralRegisters → ℕ → ℕ → Bool → Result ℕ
unfolding reg
rd8 g code rex is_reg_field =
    if names_high code rex
    then (do r ← reg g (code - 4); ok ((r / 256) % 256))
    else (do r ← reg g (field_index code rex is_reg_field); ok (r % 256))

-- `(*r & !(0xff << 8)) | (val << 8)`
abbrev pub put_high : ℕ → ℕ → ℕ
put_high r val = r / 65536 * 65536 + val * 256 + r % 256

-- `(*r & !0xff) | val`
abbrev pub put_low : ℕ → ℕ → ℕ
put_low r val = r / 256 * 256 + val

-- `val` is a byte.
unfoldable pub wr8 : GeneralRegisters → ℕ → ℕ → Bool → ℕ → Result GeneralRegisters
unfolding reg reg_mut
wr8 g code rex is_reg_field val =
    if names_high code rex
    then (do r ← reg g (code - 4); reg_mut g (code - 4) (put_high r val))
    else (do
      r ← reg g (field_index code rex is_reg_field)
      reg_mut g (field_index code rex is_reg_field) (put_low r val))
