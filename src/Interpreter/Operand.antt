-- ===== src/Interpreter/Operand.antt =====
-- The addresses of operands in crates/daoti-core/src/elf/runtime.rs: `seg_addr`, `sib_addr` and
-- `resolve_dst` of `X86_64Interpreter`. A displacement is kept as the 64-bit word it is extended to.
use yl.Prelude.{
  String, ℕ, ◌+◌, ◌-◌, ◌*◌, ◌/◌, ◌%◌, ◌^◌, Bool, not, ◌&&◌, Option, none, some, List, [], ◌∷◌, ltb,
  leb, ◌==◌, if◌then◌else◌, length, get_or, u64_mod, Result, ok, err, ◌>>=◌, ◌>>◌, require, add_u64,
  other,
}
use yl.Elf.Parse.{word}
use yl.Interpreter.{GeneralRegisters, reg, has, extended}

-- What the functions read of the interpreter.
pub record Cpu : Type 0 where
  pub general : GeneralRegisters
  pub fs_override : Bool
  pub fs_base : ℕ

abbrev pub seg_addr : Cpu → ℕ → ℕ
seg_addr c addr = if c.fs_override then (addr + c.fs_base) % u64_mod else addr

-- `as i32 as i64 as u64` and `as i8 as i64 as u64`.
abbrev pub extend32 : ℕ → ℕ
extend32 d = if ltb d 2147483648 then d else d + (u64_mod - 4294967296)

abbrev pub extend8 : ℕ → ℕ
extend8 d = if ltb d 128 then d else d + (u64_mod - 256)

-- A displacement of four bytes at `p`, or of one, and where it ends.
unfoldable pub disp32 : String → List ℕ → ℕ → Result (ℕ × ℕ)
unfolding word
disp32 truncated bytes p = do
  require (leb (p + 4) (length bytes)) (other truncated [])
  d ← word 4 bytes p
  ok (extend32 d, p + 4)

unfoldable pub disp8 : List ℕ → ℕ → Result (ℕ × ℕ)
disp8 bytes p = do
  require (ltb p (length bytes)) (other "disp8 截断" [])
  ok (extend8 (get_or bytes p 0), p + 1)

abbrev pub sib_base : ℕ → ℕ
sib_base sib = sib % 8

abbrev pub sib_index : ℕ → ℕ
sib_index sib = sib / 8 % 8

-- `x.wrapping_shl(scale_shift)`
abbrev pub scaled : ℕ → ℕ → ℕ
scaled sib x = x * 2 ^ (sib / 64 % 4) % u64_mod

-- The scaled index register, or 0 where there is none.
unfoldable pub index_value : Cpu → ℕ → ℕ → Bool → Result ℕ
unfolding reg
index_value c sib rex absent =
    if absent
    then ok 0
    else do x ← reg c.general (extended (sib_index sib) (has rex 2)); ok (scaled sib x)

unfoldable pub sib_addr : Cpu → ℕ → ℕ → ℕ → Result ℕ
unfolding index_value reg
sib_addr c sib rex disp = do
  index ← index_value c sib rex (sib_index sib == 4 && not (has rex 2))
  base ← reg c.general (extended (sib_base sib) (has rex 1))
  ok (((base + index) % u64_mod + disp) % u64_mod)

-- The displacement behind a SIB byte.
unfoldable pub sib_disp : ℕ → ℕ → List ℕ → ℕ → Result (ℕ × ℕ)
unfolding disp32 disp8
sib_disp mod_ sib bytes p =
    if mod_ == 0
    then (if sib_base sib == 5 then disp32 "SIB 无基址 disp32 截断" bytes p else ok (0, p))
    else (if mod_ == 0x40
        then disp8 bytes p
        else (if mod_ == 0x80
            then disp32 "SIB disp32 截断" bytes p
            else err (other "不支持的 SIB mod：0x{mod_:02x}" (mod_ ∷ []))))

-- Without a base register the index field 4 is always no register.
unfoldable pub sib_target : Cpu → ℕ → ℕ → ℕ → ℕ → Result ℕ
unfolding index_value sib_addr
sib_target c mod_ sib rex disp =
    if mod_ == 0 && sib_base sib == 5
    then (do index ← index_value c sib rex (sib_index sib == 4); ok ((index + disp) % u64_mod))
    else sib_addr c sib rex disp

-- The operand with a SIB byte.
unfoldable pub resolve_sib : Cpu → ℕ → ℕ → List ℕ → ℕ → Result (ℕ × Option ℕ × ℕ)
unfolding sib_disp sib_target
resolve_sib c mod_ rex bytes p = do
  require (ltb p (length bytes)) (other "SIB 字节截断" [])
  let sib = get_or bytes p 0
  (disp, p') ← sib_disp mod_ sib bytes (p + 1)
  addr ← sib_target c mod_ sib rex disp
  ok (0, some (seg_addr c addr), p')

-- The displacement behind a base register.
unfoldable pub base_disp : ℕ → List ℕ → ℕ → Result (ℕ × ℕ)
unfolding disp32 disp8
base_disp mod_ bytes p =
    if mod_ == 0
    then ok (0, p)
    else (if mod_ == 0x40
        then disp8 bytes p
        else (if mod_ == 0x80
            then disp32 "disp32 截断" bytes p
            else err (other "不支持的寻址模式 mod：0x{mod_:02x}" (mod_ ∷ []))))

-- The number of the register, the address if the operand is in memory, and the place behind the
-- operand. `p` counts the bytes of the instruction that were read.
unfoldable pub resolve_dst : Cpu → ℕ → ℕ → ℕ → List ℕ → ℕ → Result (ℕ × Option ℕ × ℕ)
unfolding disp32 resolve_sib base_disp reg
resolve_dst c mod_ rm rex bytes p =
    if mod_ == 0xc0
    then ok (extended rm (has rex 1), none, p)
    else (if mod_ == 0 && rm == 5
        then (do
          (disp, p') ← disp32 "rip 相对 disp32 截断" bytes p
          next_rip ← add_u64 c.general.rip p'
          ok (0, some (seg_addr c ((next_rip + disp) % u64_mod)), p'))
        else (if rm == 4 then resolve_sib c mod_ rex bytes p else (do
          base ← reg c.general (extended rm (has rex 1))
          (disp, p') ← base_disp mod_ bytes p
          ok (extended rm (has rex 1), some (seg_addr c ((base + disp) % u64_mod)), p'))))
