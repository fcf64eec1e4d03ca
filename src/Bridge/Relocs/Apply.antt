-- ===== src/Bridge/Relocs/Apply.antt =====
-- The second half of `apply_elf_runtime_relocations` in
-- crates/daoti-core/src/elf/syscall_bridge.rs: the loop over the entries, and the whole function.
use yl.Prelude.{
  ℕ, zero, suc, ◌+◌, ◌*◌, ◌/◌, ◌%◌, Bool, false, ◌&&◌, ◌||◌, not, Option, none, some, List, [], ◌∷◌,
  ◌==◌, if◌then◌else◌, Result, ok, err, panic, ◌>>=◌, add_u64, u64_mod,
}
use yl.Prelude.Bytes.{to_le}
use yl.Memory.{MemoryModel, write}
use yl.Elf.Parse.{word}
use yl.Bridge.Relocs.{
  TlsLayout, no_tables, LoadedObject, program_headers, scan_dynamic, vaddr_to_offset, reloc_value,
}

-- The write of a value; an entry that cannot be written is skipped. The flag says whether the slot
-- of `__curbrk` was filled.
unfoldable pub write_value : Bool → MemoryModel → Bool → ℕ → Bool → ℕ → Result (MemoryModel × Bool)
unfolding write to_le
write_value fix m curbrk target is_slot value = elim (write fix m target (to_le 8 value)) [
  | panic ↦ panic
  | err e ↦ ok (m, curbrk)
  | ok m' ↦ ok (m', curbrk || (is_slot && not (value == 0)))
]

-- The entry at `entry_off` of the file.
unfoldable pub apply_entry :
    Bool → LoadedObject → ℕ → MemoryModel → Bool → Result (MemoryModel × Bool)
unfolding reloc_value write_value word
apply_entry fix o entry_off m curbrk = do
  r_offset ← word 8 o.bytes entry_off
  r_info ← word 8 o.bytes (entry_off + 8)
  r_addend ← word 8 o.bytes (entry_off + 16)
  let r_type = r_info % 4294967296
  value ← reloc_value o r_type (r_info / 4294967296) r_addend
  elim value [
    | none ↦ ok (m, curbrk)
    | some v ↦
        write_value fix m curbrk ((o.addr + r_offset) % u64_mod)
          (r_offset == 0x219e60 && r_type == 6) v
  ]

-- The loop over the entries of a table: `count` of them from the `k`th on.
unfoldable pub apply_entries :
    Bool → LoadedObject → ℕ → ℕ → MemoryModel → Bool → ℕ → Result (MemoryModel × Bool)
unfolding vaddr_to_offset apply_entry
apply_entries fix o base_vaddr k m curbrk zero = ok (m, curbrk)
apply_entries fix o base_vaddr k m curbrk (suc count) = do
  at ← add_u64 base_vaddr (k * 24)
  found ← vaddr_to_offset o.segments.loads at 24
  (m', curbrk') ← elim found [
    | none ↦ ok (m, curbrk)
    | some entry_off ↦ apply_entry fix o entry_off m curbrk
  ]
  apply_entries fix o base_vaddr (suc k) m' curbrk' count

unfoldable pub apply_table :
    Bool → LoadedObject → Option (ℕ × ℕ) → MemoryModel → Bool → Result (MemoryModel × Bool)
unfolding apply_entries
apply_table fix o none m curbrk = ok (m, curbrk)
apply_table fix o (some table) m curbrk = apply_entries fix o table.0 0 m curbrk (table.1 / 24)

-- Both tables, and the flag of `__sbrk` where the slot of `__curbrk` was filled.
unfoldable pub apply_tables : Bool → LoadedObject → MemoryModel → Result MemoryModel
unfolding apply_table write
apply_tables fix o m = do
  (m₁, curbrk₁) ← apply_table fix o o.tables.rela m false
  (m₂, curbrk₂) ← apply_table fix o o.tables.jmprel m₁ curbrk₁
  if curbrk₂ then (do flag ← add_u64 o.addr 0x228e4e; write fix m₂ flag (1 ∷ [])) else ok m₂

-- The result holds the layout of the static block, where the file has a dynamic section.
unfoldable pub apply_elf_runtime_relocations :
    Bool → MemoryModel → List ℕ → ℕ → Result (MemoryModel × Option TlsLayout)
unfolding program_headers scan_dynamic apply_tables
apply_elf_runtime_relocations fix m bytes addr = do
  segments ← program_headers bytes
  elim segments.dynamic [
    | none ↦ ok (m, none)
    | some (dyn_off, dyn_filesz) ↦ do
      tables ← scan_dynamic bytes dyn_off no_tables (dyn_filesz / 16)
      m' ←
          apply_tables fix
            (record { bytes = bytes; addr = addr; segments = segments; tables = tables }) m
      ok (m', segments.tls)
  ]
