-- ===== src/Elf.antt =====
-- The ELF reader of crates/daoti-core/src/elf/mod.rs: the segment record that the parser fills and
-- the layout planner and the loader read.
pub mod Layout
pub mod Parse
pub mod Dynamic
pub mod Image
mod Sample
pub mod Relocation
use yl.Prelude.{ℕ, Bool, ◌==◌}

-- `type_` and `flags` are 32-bit words, the other fields 64-bit words.
pub record ElfSegment : Type 0 where
  pub type_ : ℕ
  pub offset : ℕ
  pub vaddr : ℕ
  pub paddr : ℕ
  pub filesz : ℕ
  pub memsz : ℕ
  pub flags : ℕ
  pub align : ℕ

abbrev pub pt_load : ℕ
pt_load = 1

-- `s.type_ == PT_LOAD`
abbrev pub is_load : ElfSegment → Bool
is_load s = s.type_ == pt_load
