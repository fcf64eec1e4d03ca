-- ===== src/Elf/Relocation/Tests.antt =====
-- Relocations of crates/daoti-core/src/elf/relocation.rs on a small memory.
use yl.Prelude.{
  ◌==◌, if◌then◌else◌, ℕ, ◌≡◌, refl, inl, inr, false, Option, none, some, List, [], ◌∷◌, ◌++◌,
  arith, replicate, ok, OnOk,
}
use yl.Prelude.Int.{ℤ, pos, negsuc}
use yl.Memory.{memory_code, MemoryModel, MemoryRegion, rw_perm, read, redirect}
use yl.Elf.Dynamic.{
  X8664RelocationType, relative, jump_slot, copy, RelocationEntry, DynamicLoadPlan,
}
use yl.Elf.Dynamic.Symbols.{LoadedDynamicSymbol, read_loaded_dynamic_symbols, symbol_code}
use yl.Elf.Sample.{object, object_plan}
use yl.Elf.Parse.Print.{file_bytes, header_bytes, ph_bytes}
use yl.Prelude.Bytes.{to_le}
use yl.Elf.Relocation.{
  or_insert, same_name, Name, SymbolResolver, CrossObjectSymbolResolver, as_resolver, from_objects,
}
use yl.Elf.Relocation.Apply.{AppliedRelocation, apply_with_tls, fill_slot, apply_code}
use yl.Elf.Relocation.Slots.{IsLoading}
use yl.Elf.Relocation.Frame.{apply_away, apply-Stored, Stored}
use yl.Elf.Relocation.Copy.{copy_short}
use yl.Elf.Relocation.Maps.{resolve_name-first_address, first_address, Symbols}

abbrev region : MemoryRegion
region = record { base = 0x5000; perm = rw_perm; bytes = replicate 32 7 }

abbrev memory : MemoryModel
memory = record {
  min_addr = 0x4000;
  max_addr = 0x6000;
  regions = region ∷ [];
  trace_writable_pt_load = [];
  ns_loaded_write_fix = none;
  namespace_root_addr = none;
}

memory-IsLoading : IsLoading memory
unfolding replicate
memory-IsLoading = record { valid = ground arith; plain = refl }

abbrev plan : DynamicLoadPlan
plan = record {
  load_bias = 0x1000;
  relocated_entry = 0x1040;
  load_segments = [];
  tls = none;
  dependency_graph = [];
  interpreter = none;
  needed = [];
  entries = [];
  strtab = none;
  symtab = none;
  rela = none;
  rel = none;
  relr = none;
  jmprel = none;
}

abbrev entry : X8664RelocationType → ℕ → ℕ → Option ℤ → RelocationEntry
entry kind offset symbol addend = record {
  offset = offset;
  info = 0;
  addend = addend;
  symbol = symbol;
  symbol_name = none;
  symbol_size = 4;
  relocation_type = kind;
}

-- Symbol 3 is at 0x5008.
abbrev resolver : SymbolResolver
resolver = record {
  resolve = λ symbol. if symbol == 3 then some 0x5008 else none;
  resolve_name = λ name. none;
  tls_owner = λ name. none;
}

abbrev entries : List RelocationEntry
entries =
    entry relative 0x4000 0 (some (pos 0x234)) ∷ entry jump_slot 0x4010 3 (some (negsuc 7)) ∷ []

apply_away_example :
    OnOk
      (apply_with_tls false memory plan resolver none entries)
      (λ a. read a.1 0x5008 8 ≡ ok (replicate 8 7))
unfolding replicate redirect memory_code
apply_away_example =
    apply_away false plan resolver none memory entries 0x5008 8 (replicate 8 7) memory-IsLoading
      (refl, (refl, tt)) (inr (omega arith), (inl (omega arith), tt)) refl

apply-Stored_example :
    OnOk (apply_with_tls false memory plan resolver none entries) (Stored false plan resolver none)
unfolding replicate redirect memory_code
apply-Stored_example =
    apply-Stored false plan resolver none memory entries memory-IsLoading (refl, (refl, tt))
      ((inl (omega arith), tt), (tt, tt)) ((replicate 8 7, refl), ((replicate 8 7, refl), tt))

abbrev copied : AppliedRelocation × MemoryModel
copied = (
  record { offset = 0x4000; address = 0x5000; relocation_type = copy; value = 0 },
  record memory { regions = record region { bytes = replicate 8 0 ++ replicate 24 7 } ∷ [] },
)

copy_runs : fill_slot false memory 0x5000 plan resolver none (entry copy 0x4000 3 none) ≡ ok copied
unfolding replicate redirect memory_code apply_code
copy_runs = refl

copy_short_example : read copied.1 0x5000 8 ≡ ok (replicate 8 0)
unfolding replicate redirect memory_code
copy_short_example =
    copy_short false memory 0x5000 plan resolver none (entry copy 0x4000 3 none) memory-IsLoading
      (omega arith) refl (replicate 8 7, refl) copy_runs

abbrev foo : Name
foo = 102 ∷ 111 ∷ 111 ∷ []

-- The object twice, loaded at two places: the first defines `foo`.
abbrev objects : List (List ℕ × DynamicLoadPlan)
objects =
    (file_bytes object, object_plan)
    ∷ (file_bytes object, record object_plan { load_bias = 0x9000 })
    ∷ []

abbrev found : CrossObjectSymbolResolver
found = record { symbols = []; names = (foo, 0x1040) ∷ []; owners = [] }

from_objects_runs : from_objects objects ≡ ok found
unfolding to_le replicate header_bytes ph_bytes from_objects read_loaded_dynamic_symbols symbol_code
    or_insert same_name
from_objects_runs = refl

resolve_name-first_address_example :
    (all : List LoadedDynamicSymbol) × Symbols objects all
    × ((name : Name) → (as_resolver found).resolve_name name ≡ first_address all name)
resolve_name-first_address_example = resolve_name-first_address objects from_objects_runs
