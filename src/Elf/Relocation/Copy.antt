-- ===== src/Elf/Relocation/Copy.antt =====
-- COPY relocations of crates/daoti-core/src/elf/relocation.rs: what is left at the target of a
-- symbol that is shorter than a slot.
use yl.Prelude.{
  ℕ, ◌<◌, ◌≡◌, refl, Bool, false, Option, List, [], ◌∷◌, arith, leb, length, replicate, OnOk,
  OnOk-apply, OnOk-bind, ok, ◌>>=◌, ok_or, other, max,
}
use yl.Prelude.Bytes.{to_le}
use yl.Memory.{MemoryModel, read, write, redirect}
use yl.Memory.Access.{read_at-Reads}
use yl.Elf.Dynamic.{copy, RelocationEntry, DynamicLoadPlan}
use yl.Elf.Relocation.{TlsContext, SymbolResolver, resolve_with_name}
use yl.Elf.Relocation.Apply.{
  AppliedRelocation, fill_slot, value_and_memory, copy_symbol, copy_source, head_word,
}
use yl.Elf.Relocation.Slots.{IsLoading, Readable, fill_slot_self}

module _ (fix : Bool) (m : MemoryModel) (address : ℕ) (plan : DynamicLoadPlan) (r : SymbolResolver)
    (tls : Option TlsContext) (entry : RelocationEntry) (l : IsLoading m)
    (short : entry.symbol_size < 8) where
  source_head :
      (symbol : ℕ) {src : List ℕ}
      → copy_source m symbol (max entry.symbol_size 1) ≡ ok src
      → head_word src ≡ 0
  unfolding read
  source_head symbol {src} e =
      let before : read m symbol (max entry.symbol_size 1) ≡ ok src = ground arith in
      let size =
        (read_at-Reads m.regions (redirect symbol) (max entry.symbol_size 1) src l.valid.apart
          before).size in
      let none_of : leb 8 (length src) ≡ false = rw size (ground arith) in rw none_of refl

  copy_symbol_short : OnOk (copy_symbol fix m address r entry) (λ vm. vm.0 ≡ 0)
  unfolding copy_symbol
  copy_symbol_short =
      OnOk-bind
        (ok_or (resolve_with_name r entry.symbol entry.symbol_name)
          (other "未解析动态符号：{} ({})" (entry.symbol ∷ [])))
        (λ x.
          copy_source m x (max entry.symbol_size 1)
          >>= (λ src. write fix m address src >>= (λ m'. ok (head_word src, m'))))
        (λ vm. vm.0 ≡ 0)
        (λ symbol e.
          OnOk-bind (copy_source m symbol (max entry.symbol_size 1))
            (λ src. write fix m address src >>= (λ m'. ok (head_word src, m'))) (λ vm. vm.0 ≡ 0)
            (λ src e'.
              OnOk-bind (write fix m address src) (λ m'. ok (head_word src, m')) (λ vm. vm.0 ≡ 0)
                (λ m' w. source_head symbol e')))

  fill_slot_short :
      (kind : entry.relocation_type ≡ copy)
      → OnOk (fill_slot fix m address plan r tls entry) (λ a. a.0.value ≡ 0)
  unfolding fill_slot value_and_memory
  fill_slot_short kind = rw kind (
      OnOk-bind (copy_symbol fix m address r entry) _ (λ a. a.0.value ≡ 0)
        (λ vm e.
          OnOk-bind (write fix vm.1 address (to_le 8 vm.0)) _ (λ a. a.0.value ≡ 0)
            (λ m' w. OnOk-apply (λ vm. vm.0 ≡ 0) copy_symbol_short e)))

  -- A COPY relocation of a symbol of fewer than 8 bytes that succeeds, in a valid memory whose
  -- writes are not corrected, leaves 8 zero bytes at its target, if the target could be read.
  pub copy_short :
      {a : AppliedRelocation × MemoryModel}
      → entry.relocation_type ≡ copy
      → Readable m address
      → fill_slot fix m address plan r tls entry ≡ ok a
      → read a.1 address 8 ≡ ok (replicate 8 0)
  unfolding to_le replicate
  copy_short kind readable e =
      let zero_value = OnOk-apply (λ a. a.0.value ≡ 0) (fill_slot_short kind) e in
      let self = fill_slot_self fix m address plan r tls entry l e readable in rw zero_value at self
