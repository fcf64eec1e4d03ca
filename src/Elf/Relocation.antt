-- ===== src/Elf/Relocation.antt =====
-- The relocation applier, crates/daoti-core/src/elf/relocation.rs: resolvers, the TLS context and
-- `apply_x86_64_relocations_with_tls`. A hash map is an association list without repeated keys.
-- On an error the callers drop the memory with it, so the result of a failure has none.
pub mod Apply
pub mod Maps
pub mod Slots
pub mod Frame
pub mod Copy
mod Tests
use yl.Prelude.{
  ℕ, zero, suc, ◌+◌, ◌-◌, ◌*◌, ◌%◌, min, max, Bool, true, false, not, ◌&&◌, ◌||◌, Option, none,
  some, List, [], ◌∷◌, ◌++◌, ltb, leb, ◌==◌, if◌then◌else◌, length, take, any, Result, ok, err,
  panic, ◌>>=◌, ◌>>◌, require, ok_or, checked_add, checked_sub, other, unavailable,
}
use yl.Prelude.Int.{ℤ, pos, negsuc, signed64}
use yl.Prelude.Bytes.{to_le, from_le}
use yl.Memory.{MemoryModel, read, write}
use yl.Elf.Dynamic.{
  X8664RelocationType, none_type, type64, relative, glob_dat, jump_slot, dtp_mod64, dtp_off64,
  tp_off64, copy, i_relative, unknown, RelocationEntry, DynamicLoadPlan,
}
use yl.Elf.Dynamic.Symbols.{LoadedDynamicSymbol, read_loaded_dynamic_symbols}

abbrev pub Name : Type 0
Name = List ℕ

unfoldable pub same_name : Name → Name → Bool
same_name [] [] = true
same_name [] (y ∷ ys) = false
same_name (x ∷ xs) [] = false
same_name (x ∷ xs) (y ∷ ys) = let rest = same_name xs ys in x == y && rest

module _ {K V : Type 0} (same : K → K → Bool) where
  -- `map.get(key).copied()`
  unfoldable pub get : List (K × V) → K → Option V
  get [] key = none
  get (kv ∷ map) key = let rest = get map key in if same kv.0 key then some kv.1 else rest

  -- `map.entry(key).or_insert(value)`
  unfoldable pub or_insert : List (K × V) → K → V → List (K × V)
  or_insert [] key value = (key, value) ∷ []
  or_insert (kv ∷ map) key value =
      let rest = or_insert map key value in if same kv.0 key then kv ∷ map else kv ∷ rest

pub record TlsSymbolLocation : Type 0 where
  pub module_id : ℕ
  pub block_start : ℕ
  pub offset : ℕ

pub record TlsContext : Type 0 where
  pub tp : ℕ
  pub symbol_tls : List (Name × TlsSymbolLocation)

abbrev pub new_context : ℕ → TlsContext
new_context tp = record { tp = tp; symbol_tls = [] }

abbrev pub insert : TlsContext → Name → TlsSymbolLocation → TlsContext
insert c name location = record c { symbol_tls = or_insert same_name c.symbol_tls name location }

abbrev pub resolve_tls : TlsContext → Name → Option TlsSymbolLocation
resolve_tls c name = get same_name c.symbol_tls name

-- `values().find(|loc| loc.module_id == module_id).map(|loc| loc.block_start)`
unfoldable pub block_of : List (Name × TlsSymbolLocation) → ℕ → Option ℕ
block_of [] module_id = none
block_of (kv ∷ map) module_id =
    let rest = block_of map module_id in
    if kv.1.module_id == module_id then some kv.1.block_start else rest

-- `checked_add` or `checked_sub` of the magnitude.
abbrev pub offset_by : ℕ → ℤ → Option ℕ
offset_by base (pos n) = checked_add base n
offset_by base (negsuc n) = checked_sub base (suc n)

unfoldable pub get_addr : TlsContext → ℕ → ℤ → Option ℕ
unfolding block_of
get_addr c module_id offset = elim (block_of c.symbol_tls module_id) [
  | none ↦ none
  | some block_start ↦ offset_by block_start offset
]

-- The methods that a `SymbolResolver` gives; `resolve_with_name` is the same for all of them.
pub record SymbolResolver : Type 0 where
  pub resolve : ℕ → Option ℕ
  pub resolve_name : Name → Option ℕ
  pub tls_owner : Name → Option ℕ

-- `a.or_else(|| b)`
abbrev pub or_else {ℓ} : {A : Type ℓ} → Option A → Option A → Option A
or_else none b = b
or_else (some a) b = some a

-- `name.and_then(f)`
abbrev pub and_then {ℓ} : {A : Type ℓ} → Option Name → (Name → Option A) → Option A
and_then none f = none
and_then (some name) f = f name

abbrev pub resolve_with_name : SymbolResolver → ℕ → Option Name → Option ℕ
resolve_with_name r symbol name = or_else (and_then name r.resolve_name) (r.resolve symbol)

pub record CrossObjectSymbolResolver : Type 0 where
  pub symbols : List (ℕ × ℕ)
  pub names : List (Name × ℕ)
  pub owners : List (Name × ℕ)

abbrev pub as_resolver : CrossObjectSymbolResolver → SymbolResolver
as_resolver r = record {
  resolve = λ symbol. get (λ a b. a == b) r.symbols symbol;
  resolve_name = λ name. get same_name r.names name;
  tls_owner = λ name. get same_name r.owners name;
}

abbrev pub insert_symbol : CrossObjectSymbolResolver → ℕ → ℕ → CrossObjectSymbolResolver
insert_symbol r symbol address = record r {
  symbols = or_insert (λ a b. a == b) r.symbols symbol address;
}

abbrev pub insert_name : CrossObjectSymbolResolver → Name → ℕ → CrossObjectSymbolResolver
insert_name r name address = record r { names = or_insert same_name r.names name address }

-- `owners.entry(name).or_insert(id)`, for an object with a TLS module.
abbrev pub insert_owner : CrossObjectSymbolResolver → Name → Option ℕ → CrossObjectSymbolResolver
insert_owner r name none = r
insert_owner r name (some id) = record r { owners = or_insert same_name r.owners name id }

-- The loop over one object's symbols.
unfoldable pub insert_all :
    CrossObjectSymbolResolver → Option ℕ → List LoadedDynamicSymbol → CrossObjectSymbolResolver
insert_all r id [] = r
insert_all r id (s ∷ ss) =
    let added = insert_owner (insert_name r s.name s.loaded_address) s.name id in
    insert_all (if s.defined then added else r) id ss

-- `plan.tls.is_some()`
abbrev pub is_some {ℓ} : {A : Type ℓ} → Option A → Bool
is_some none = false
is_some (some a) = true

-- The loop over the objects; `next_module` counts those with TLS.
unfoldable pub from_objects_with :
    CrossObjectSymbolResolver
    → ℕ
    → List (List ℕ × DynamicLoadPlan)
    → Result CrossObjectSymbolResolver
unfolding insert_all
from_objects_with r next_module [] = ok r
from_objects_with r next_module (object ∷ objects) = do
  let has_tls = is_some object.1.tls
  let id = if has_tls then some next_module else none
  symbols ← read_loaded_dynamic_symbols object.0 object.1
  from_objects_with (insert_all r id symbols) (if has_tls then suc next_module else next_module)
      objects

unfoldable pub from_objects : List (List ℕ × DynamicLoadPlan) → Result CrossObjectSymbolResolver
unfolding from_objects_with
from_objects objects =
    from_objects_with (record { symbols = []; names = []; owners = [] }) 1 objects
