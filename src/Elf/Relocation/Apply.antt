-- ===== src/Elf/Relocation/Apply.antt =====
-- `apply_x86_64_relocations_with_tls` of crates/daoti-core/src/elf/relocation.rs: the value of each
-- kind of relocation, and the loop that writes the slots.
use yl.Prelude.{
  ℕ, max, Bool, true, false, Option, none, some, List, [], ◌∷◌, leb, ◌==◌, if◌then◌else◌, length,
  take, any, Result, ok, err, panic, ◌>>=◌, ok_or, checked_add, checked_sub, other, unavailable,
}
use yl.Prelude.Int.{ℤ, pos, signed64}
use yl.Prelude.Bytes.{to_le, from_le}
use yl.Memory.{MemoryModel, read, write}
use yl.Elf.Dynamic.{
  X8664RelocationType, none_type, type64, relative, glob_dat, jump_slot, dtp_mod64, dtp_off64,
  tp_off64, copy, i_relative, unknown, RelocationEntry, DynamicLoadPlan,
}
use yl.Elf.Relocation.{
  Name, same_name, TlsSymbolLocation, TlsContext, resolve_tls, offset_by, SymbolResolver, or_else,
  and_then, resolve_with_name,
}

pub record AppliedRelocation : Type 0 where
  pub offset : ℕ
  pub address : ℕ
  pub relocation_type : X8664RelocationType
  pub value : ℕ

abbrev pub add_signed : ℕ → ℤ → Result ℕ
add_signed base addend = ok_or (offset_by base addend) (other "符号重定位值溢出" [])

-- `read_u64(memory, address).unwrap_or(0)`
unfoldable pub read_or_zero : MemoryModel → ℕ → Result ℕ
read_or_zero m address = elim (read m address 8) [
  | ok bs ↦ ok (from_le bs)
  | err e ↦ ok 0
  | panic ↦ panic
]

-- `entry.addend.unwrap_or_else(|| read_u64(memory, address).unwrap_or(0) as i64)`
abbrev pub addend_or_slot : MemoryModel → ℕ → Option ℤ → Result ℤ
addend_or_slot m address none = read_or_zero m address >>= (λ w. ok (signed64 w))
addend_or_slot m address (some a) = ok a

-- `addend.map(|a| add_signed(0, a)).transpose()?.unwrap_or_else(..)`, with the slot's old value.
abbrev pub addend_value : MemoryModel → ℕ → Option ℤ → Result ℕ
addend_value m address none = read_or_zero m address
addend_value m address (some a) = add_signed 0 a

abbrev pub addend_or_zero : Option ℤ → ℤ
addend_or_zero none = pos 0
addend_or_zero (some a) = a

-- `tls.zip(entry.symbol_name.as_deref()).and_then(|(ctx, name)| ctx.resolve(name))`
abbrev pub tls_location : Option TlsContext → Option Name → Option TlsSymbolLocation
tls_location none name = none
tls_location (some ctx) name = and_then name (resolve_tls ctx)

abbrev pub tp_of : Option TlsContext → ℕ
tp_of none = 0
tp_of (some ctx) = ctx.tp

-- The module ID, from the context, else from the owner of the symbol, else the old slot.
unfoldable pub dtp_mod_value :
    MemoryModel → ℕ → SymbolResolver → Option TlsContext → RelocationEntry → Result ℕ
unfolding read_or_zero
dtp_mod_value m address r tls entry = elim (tls_location tls entry.symbol_name) [
  | some loc ↦ ok loc.module_id
  | none ↦ elim (and_then entry.symbol_name r.tls_owner) [
    | some id ↦ ok id
    | none ↦ read_or_zero m address
  ]
]

unfoldable pub dtp_off_value : MemoryModel → ℕ → Option TlsContext → RelocationEntry → Result ℕ
unfolding read_or_zero
dtp_off_value m address tls entry = elim (tls_location tls entry.symbol_name) [
  | some loc ↦ add_signed loc.offset (addend_or_zero entry.addend)
  | none ↦ addend_value m address entry.addend
]

unfoldable pub tp_off_value : MemoryModel → ℕ → Option TlsContext → RelocationEntry → Result ℕ
unfolding read_or_zero
tp_off_value m address tls entry = elim (tls_location tls entry.symbol_name) [
  | some loc ↦ do
    start ← ok_or (checked_add loc.block_start loc.offset) (other "TLS 变量地址溢出" [])
    var_addr ← add_signed start (addend_or_zero entry.addend)
    ok_or (checked_sub var_addr (tp_of tls)) (other "TPOFF64 相对 TP 下溢" [])
  | none ↦ addend_value m address entry.addend
]

-- "_ITM_deregisterTMCloneTable", "_ITM_registerTMCloneTable" and "__gmon_start__".
abbrev pub weak_names : List Name
weak_names =
    (95 ∷ 73 ∷ 84 ∷ 77 ∷ 95 ∷ 100 ∷ 101 ∷ 114 ∷ 101 ∷ 103 ∷ 105 ∷ 115 ∷ 116 ∷ 101 ∷ 114 ∷ 84 ∷ 77
      ∷ 67 ∷ 108 ∷ 111 ∷ 110 ∷ 101 ∷ 84 ∷ 97 ∷ 98 ∷ 108 ∷ 101 ∷ [])
    ∷ (95 ∷ 73 ∷ 84 ∷ 77 ∷ 95 ∷ 114 ∷ 101 ∷ 103 ∷ 105 ∷ 115 ∷ 116 ∷ 101 ∷ 114 ∷ 84 ∷ 77 ∷ 67 ∷ 108
        ∷ 111 ∷ 110 ∷ 101 ∷ 84 ∷ 97 ∷ 98 ∷ 108 ∷ 101 ∷ [])
    ∷ (95 ∷ 95 ∷ 103 ∷ 109 ∷ 111 ∷ 110 ∷ 95 ∷ 115 ∷ 116 ∷ 97 ∷ 114 ∷ 116 ∷ 95 ∷ 95 ∷ [])
    ∷ []

abbrev pub is_weak : Name → Bool
is_weak name = any (same_name name) weak_names

-- 0 for the symbols that a program may leave undefined.
abbrev pub weak_value : Option Name → Option ℕ
weak_value none = none
weak_value (some name) = if is_weak name then some 0 else none

unfoldable pub symbol_value : MemoryModel → ℕ → SymbolResolver → RelocationEntry → Result ℕ
unfolding read_or_zero same_name
symbol_value m address r entry =
    if entry.symbol == 0 then addend_value m address entry.addend else do
      symbol ←
          ok_or
            (or_else (resolve_with_name r entry.symbol entry.symbol_name)
              (weak_value entry.symbol_name))
            (other "未解析动态符号：{} ({})" (entry.symbol ∷ []))
      addend ← addend_or_slot m address entry.addend
      add_signed symbol addend

-- The value for the slot, for the kinds that only compute one.
unfoldable pub slot_value :
    MemoryModel
    → ℕ
    → DynamicLoadPlan
    → SymbolResolver
    → Option TlsContext
    → RelocationEntry
    → X8664RelocationType
    → Result ℕ
unfolding read_or_zero dtp_mod_value dtp_off_value tp_off_value symbol_value
slot_value m address plan r tls entry relative =
    addend_or_slot m address entry.addend >>= (λ addend. add_signed plan.load_bias addend)
slot_value m address plan r tls entry i_relative =
    ok_or entry.addend (other "IRELATIVE 缺少 addend" [])
    >>= (λ addend. add_signed plan.load_bias addend)
slot_value m address plan r tls entry dtp_mod64 = dtp_mod_value m address r tls entry
slot_value m address plan r tls entry dtp_off64 = dtp_off_value m address tls entry
slot_value m address plan r tls entry tp_off64 = tp_off_value m address tls entry
slot_value m address plan r tls entry glob_dat = symbol_value m address r entry
slot_value m address plan r tls entry jump_slot = symbol_value m address r entry
slot_value m address plan r tls entry type64 = symbol_value m address r entry
slot_value m address plan r tls entry copy = err (unavailable "不支持的 x86_64 重定位类型：{:?}" [])
slot_value m address plan r tls entry none_type = err (unavailable "不支持的 x86_64 重定位类型：{:?}" [])
slot_value m address plan r tls entry (unknown n) =
    err (unavailable "不支持的 x86_64 重定位类型：{:?}" (n ∷ []))

-- `src_copy[..size.min(8)].try_into().unwrap_or([0; 8])`, read as a word.
abbrev pub head_word : List ℕ → ℕ
head_word bs = if leb 8 (length bs) then from_le (take 8 bs) else 0

-- The read of the source, with its error replaced.
abbrev pub copy_source : MemoryModel → ℕ → ℕ → Result (List ℕ)
copy_source m symbol size = elim (read m symbol size) [
  | ok bs ↦ ok bs
  | err e ↦ err (other "COPY 重定位源地址读取失败：0x{symbol:x}" (symbol ∷ []))
  | panic ↦ panic
]

-- COPY moves the symbol's bytes, and gives the word at their head for the slot.
unfoldable pub copy_symbol :
    Bool → MemoryModel → ℕ → SymbolResolver → RelocationEntry → Result (ℕ × MemoryModel)
copy_symbol fix m address r entry = do
  symbol ←
      ok_or (resolve_with_name r entry.symbol entry.symbol_name)
        (other "未解析动态符号：{} ({})" (entry.symbol ∷ []))
  src ← copy_source m symbol (max entry.symbol_size 1)
  m' ← write fix m address src
  ok (head_word src, m')

unfoldable pub value_and_memory :
    Bool
    → MemoryModel
    → ℕ
    → DynamicLoadPlan
    → SymbolResolver
    → Option TlsContext
    → RelocationEntry
    → X8664RelocationType
    → Result (ℕ × MemoryModel)
unfolding slot_value copy_symbol
value_and_memory fix m address plan r tls entry copy = copy_symbol fix m address r entry
value_and_memory fix m address plan r tls entry kind =
    slot_value m address plan r tls entry kind >>= (λ value. ok (value, m))

-- One round of the loop for the kinds that fill a slot.
unfoldable pub fill_slot :
    Bool
    → MemoryModel
    → ℕ
    → DynamicLoadPlan
    → SymbolResolver
    → Option TlsContext
    → RelocationEntry
    → Result (AppliedRelocation × MemoryModel)
unfolding value_and_memory
fill_slot fix m address plan r tls entry = do
  vm ← value_and_memory fix m address plan r tls entry entry.relocation_type
  m' ← write fix vm.1 address (to_le 8 vm.0)
  ok (
    record {
      offset = entry.offset;
      address = address;
      relocation_type = entry.relocation_type;
      value = vm.0;
    },
    m',
  )

abbrev pub is_none : X8664RelocationType → Bool
is_none none_type = true
is_none _ = false

unfoldable pub apply_with_tls :
    Bool
    → MemoryModel
    → DynamicLoadPlan
    → SymbolResolver
    → Option TlsContext
    → List RelocationEntry
    → Result (List AppliedRelocation × MemoryModel)
unfolding fill_slot
apply_with_tls fix m plan r tls [] = ok ([], m)
apply_with_tls fix m plan r tls (entry ∷ entries) = do
  address ← ok_or (checked_add entry.offset plan.load_bias) (other "重定位目标地址溢出" [])
  elim (is_none entry.relocation_type) [
    | true ↦ apply_with_tls fix m plan r tls entries
    | false ↦ do
      one ← fill_slot fix m address plan r tls entry
      rest ← apply_with_tls fix one.1 plan r tls entries
      ok (one.0 ∷ rest.0, rest.1)
  ]

-- `apply_x86_64_relocations`, without a TLS context.
abbrev pub apply_x86_64_relocations :
    Bool
    → MemoryModel
    → DynamicLoadPlan
    → SymbolResolver
    → List RelocationEntry
    → Result (List AppliedRelocation × MemoryModel)
apply_x86_64_relocations fix m plan r entries = apply_with_tls fix m plan r none entries

-- Named on an `unfolding` line, it opens the whole component, for tests.
unfoldable pub apply_code : Unit {0}
unfolding read_or_zero dtp_mod_value dtp_off_value tp_off_value symbol_value slot_value copy_symbol
    value_and_memory fill_slot apply_with_tls
apply_code = tt
