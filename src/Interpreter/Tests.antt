-- ===== src/Interpreter/Tests.antt =====
-- The theorems about registers and operands of crates/daoti-core/src/elf/runtime.rs at small cases.
use yl.Prelude.{ℕ, ◌≤◌, ◌<◌, ◌≡◌, ◌≢◌, refl, arith, Bool, true, false, [], ◌∷◌, ok, panic, OnOk}
use yl.Interpreter.{GeneralRegisters, new, reg_mut, rd8, wr8}
use yl.Interpreter.ByteRegisters.{place, wr8-rd8}
use yl.Interpreter.Consumed.{Taken, operand_size, resolve_dst-Taken}
use yl.Interpreter.Effective.{sib_parts, effective, sib_target-effective}
use yl.Interpreter.Operand.{Cpu, resolve_dst, sib_target}
use yl.Interpreter.Registers.{Set, reg_mut-Set}

abbrev registers : GeneralRegisters
registers = record (new 0x401000 0x7000) { rax = 0x1234; rdi = 0x500000; r12 = 3 }

abbrev cpu : Cpu
cpu = record { general = registers; fs_override = false; fs_base = 0x9000 }

reg_mut-Set_example :
    (5 < 16 → (g' : GeneralRegisters) × (reg_mut registers 5 77 ≡ ok g') × Set registers 5 77 g')
    × (16 ≤ 5 → reg_mut registers 5 77 ≡ panic)
reg_mut-Set_example = reg_mut-Set registers 5 77

-- `ah` without a REX prefix.
wr8-rd8_example :
    (g' : GeneralRegisters) × (wr8 registers 4 0 true 0xff ≡ ok g')
    × (rd8 g' 4 0 true ≡ ok 0xff)
    × ((code' rex' : ℕ) (field' : Bool)
        → place code' rex' field' ≢ place 4 0 true
        → rd8 g' code' rex' field' ≡ rd8 registers code' rex' field')
wr8-rd8_example = wr8-rd8 registers 4 0 true 0xff (omega arith) (omega arith)

-- [rdi + r12 * 4 + 0x10], with a displacement of one byte.
resolve_dst-Taken_example :
    OnOk
      (resolve_dst cpu 0x40 4 2 (0x89 ∷ 0xa7 ∷ 0x10 ∷ []) 1)
      (Taken (0x89 ∷ 0xa7 ∷ 0x10 ∷ []) 1 (operand_size 0x40 4 0xa7))
resolve_dst-Taken_example = resolve_dst-Taken cpu 0x40 4 2 (0x89 ∷ 0xa7 ∷ 0x10 ∷ []) 1

sib_target-effective_example :
    sib_target cpu 0x40 0xa7 2 0x10 ≡ ok (effective cpu (sib_parts 0x40 0xa7 2) 0x10)
sib_target-effective_example = sib_target-effective cpu 0x40 0xa7 2 0x10 refl

-- [r12 * 4 + 0x600000], without a base register.
