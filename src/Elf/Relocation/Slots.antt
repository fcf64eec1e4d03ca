-- ===== src/Elf/Relocation/Slots.antt =====
-- What applied relocations leave in memory: crates/daoti-core/src/elf/relocation.rs,
-- `apply_x86_64_relocations_with_tls`.
use yl.Prelude.{
  ℕ, ◌+◌, ◌≤◌, ◌≡◌, refl, ap, ◌∙◌, ◌⊎◌, inl, inr, Bool, true, false, Option, none, List, [], ◌∷◌,
  Bool-cases, length, OnOk, OnOk-apply, OnOk-map, OnOk-chain, OnOk-bind, Result, ok, err, panic,
  ◌>>=◌, ok_or, other, max, checked_add,
}
use yl.Prelude.Bytes.{to_le, length-to_le}
use yl.Memory.{MemoryModel, read, write, redirect, corrected}
use yl.Memory.Valid.{IsValid, write-IsValid, write-Written}
use yl.Memory.Access.{read-write, read-write_self, read-write_ne}
use yl.Elf.Dynamic.{
  X8664RelocationType, none_type, type64, relative, glob_dat, jump_slot, dtp_mod64, dtp_off64,
  tp_off64, copy, i_relative, unknown, RelocationEntry, DynamicLoadPlan,
}
use yl.Elf.Relocation.{TlsContext, SymbolResolver, resolve_with_name}
use yl.Elf.Relocation.Apply.{
  AppliedRelocation, apply_with_tls, fill_slot, value_and_memory, slot_value, copy_symbol, is_none,
  copy_source, head_word,
}

-- A valid memory in which no write is corrected, as it is while a program is loaded.
pub record IsLoading (m : MemoryModel) : Type 0 where
  pub valid : IsValid m
  pub plain : m.ns_loaded_write_fix ≡ none

write-IsLoading :
    (fix : Bool) (m : MemoryModel) (addr : ℕ) (bs : List ℕ) {m' : MemoryModel}
    → IsLoading m
    → write fix m addr bs ≡ ok m'
    → IsLoading m'
write-IsLoading fix m addr bs l e = record {
  valid = write-IsValid fix m addr bs l.valid e;
  plain = ap (λ x. x.ns_loaded_write_fix) (write-Written fix m addr bs e).result ∙ l.plain;
}

uncorrected :
    (fix : Bool) (m : MemoryModel) (address : ℕ)
    → IsLoading m
    → (bs : List ℕ) → corrected fix m.ns_loaded_write_fix (redirect address) bs ≡ bs
unfolding corrected
uncorrected fix m address l bs = rw l.plain refl

abbrev pub is_copy : X8664RelocationType → Bool
is_copy copy = true
is_copy _ = false

-- An address at which 8 bytes can be read.
abbrev pub Readable : MemoryModel → ℕ → Type 0
Readable m address = (old : List ℕ) × (read m address 8 ≡ ok old)

-- The memory behind the computation of a value: only COPY changes it.
abbrev Computed : MemoryModel → X8664RelocationType → ℕ × MemoryModel → Type 0
Computed m kind vm =
    (IsLoading m → IsLoading (vm.1))
    × (is_copy kind ≡ false → vm.1 ≡ m)
    × (IsLoading m → (b : ℕ) → Readable m b → Readable (vm.1) b)

same_memory :
    (m : MemoryModel) (kind : X8664RelocationType) (x : Result ℕ)
    → OnOk (x >>= (λ value. ok (value, m))) (Computed m kind)
same_memory m kind panic = tt
same_memory m kind (err e) = tt
same_memory m kind (ok v) = (λ l. l, λ c. refl, λ l b h. h)

module _ (fix : Bool) (m : MemoryModel) (address : ℕ) (plan : DynamicLoadPlan) (r : SymbolResolver)
    (tls : Option TlsContext) (entry : RelocationEntry) where
  copy_symbol-Computed : OnOk (copy_symbol fix m address r entry) (Computed m copy)
  unfolding copy_symbol
  copy_symbol-Computed =
      OnOk-bind
        (ok_or (resolve_with_name r entry.symbol entry.symbol_name)
          (other "未解析动态符号：{} ({})" (entry.symbol ∷ [])))
        (λ x.
          copy_source m x (max entry.symbol_size 1)
          >>= (λ src. write fix m address src >>= (λ m'. ok (head_word src, m'))))
        (Computed m copy)
        (λ symbol e.
          OnOk-bind (copy_source m symbol (max entry.symbol_size 1))
            (λ src. write fix m address src >>= (λ m'. ok (head_word src, m'))) (Computed m copy)
            (λ src e'.
              OnOk-bind (write fix m address src) (λ m'. ok (head_word src, m')) (Computed m copy)
                (λ m' w. (
                  λ l. write-IsLoading fix m address src l w,
                  λ c. cc,
                  λ l b h.
                      let (now, after, size, cells) =
                        read-write fix m address src l.valid w b 8 h.0 h.1 in
                      (now, after),
                ))))

  same :
      (kind : X8664RelocationType)
      → OnOk
          (slot_value m address plan r tls entry kind >>= (λ value. ok (value, m)))
          (Computed m kind)
  same kind = same_memory m kind (slot_value m address plan r tls entry kind)

  value-Computed :
      (kind : X8664RelocationType)
      → OnOk (value_and_memory fix m address plan r tls entry kind) (Computed m kind)
  unfolding value_and_memory
  value-Computed copy = copy_symbol-Computed
  value-Computed none_type = same none_type
  value-Computed type64 = same type64
  value-Computed relative = same relative
  value-Computed glob_dat = same glob_dat
  value-Computed jump_slot = same jump_slot
  value-Computed dtp_mod64 = same dtp_mod64
  value-Computed dtp_off64 = same dtp_off64
  value-Computed tp_off64 = same tp_off64
  value-Computed i_relative = same i_relative
  value-Computed (unknown n) = same (unknown n)

  -- What one round does: the memory it computes the value in, and the write of the slot.
  pub record Filled (a : AppliedRelocation × MemoryModel) : Type 0 where
    pub between : MemoryModel
    pub loading : IsLoading m → IsLoading between
    pub untouched : is_copy entry.relocation_type ≡ false → between ≡ m
    pub readable : IsLoading m → (b : ℕ) → Readable m b → Readable between b
    pub stored : write fix between address (to_le 8 a.0.value) ≡ ok a.1
    pub place : a.0.address ≡ address

  pub fill_slot-Filled : OnOk (fill_slot fix m address plan r tls entry) Filled
  unfolding fill_slot
  fill_slot-Filled =
      OnOk-chain (value_and_memory fix m address plan r tls entry entry.relocation_type) _ _ _
        (value-Computed entry.relocation_type)
        (λ vm c. OnOk-bind (write fix vm.1 address (to_le 8 vm.0)) _ Filled (λ m' w. record {
          between = vm.1;
          loading = c.0;
          untouched = c.1;
          readable = c.2;
          stored = w;
          place = refl;
        }))

  pub fill_slot-IsLoading :
      {a : AppliedRelocation × MemoryModel}
      → IsLoading m
      → fill_slot fix m address plan r tls entry ≡ ok a
      → IsLoading (a.1)
  fill_slot-IsLoading l e =
      let f = OnOk-apply Filled fill_slot-Filled e in
      write-IsLoading fix f.between address _ (f.loading l) f.stored

module _ (fix : Bool) (plan : DynamicLoadPlan) (r : SymbolResolver) (tls : Option TlsContext) where
  -- Applying relocations keeps a memory valid and its writes uncorrected, whatever the entries.
  pub apply-IsLoading :
      (m : MemoryModel) (entries : List RelocationEntry)
      → IsLoading m
      → OnOk (apply_with_tls fix m plan r tls entries) (λ a. IsLoading (a.1))
  unfolding apply_with_tls
  apply-IsLoading m [] l = l
  apply-IsLoading m (entry ∷ entries) l =
      OnOk-bind (ok_or (checked_add entry.offset plan.load_bias) _) _ (λ a. IsLoading (a.1))
        (λ address e. elim (Bool-cases (is_none entry.relocation_type)) [
          | inl n ↦ rw n (apply-IsLoading m entries l)
          | inr n ↦ rw n (
              OnOk-bind (fill_slot fix m address plan r tls entry) _ (λ a. IsLoading (a.1))
                (λ one f.
                  OnOk-map _ (λ a. IsLoading (a.1)) _ (apply_with_tls fix one.1 plan r tls entries)
                    (λ a h. h)
                    (apply-IsLoading one.1 entries
                      (fill_slot-IsLoading fix m address plan r tls entry l f))))
        ])

module _ (fix : Bool) (m : MemoryModel) (address : ℕ) (plan : DynamicLoadPlan) (r : SymbolResolver)
    (tls : Option TlsContext) (entry : RelocationEntry) {a : AppliedRelocation × MemoryModel}
    (l : IsLoading m) (e : fill_slot fix m address plan r tls entry ≡ ok a) where
  -- The slot holds the recorded value.
  pub fill_slot_self : Readable m address → read a.1 address 8 ≡ ok (to_le 8 a.0.value)
  fill_slot_self old =
      let f = OnOk-apply _ (fill_slot-Filled fix m address plan r tls entry) e in
      let size = length-to_le 8 a.0.value in
      let bytes = uncorrected fix f.between address (f.loading l) (to_le 8 a.0.value) in
      let now = f.readable l address old in
      let before : read f.between address (length (to_le 8 a.0.value)) ≡ ok now.0 = rw size now.1 in
      let after =
        read-write_self fix f.between address (to_le 8 a.0.value) (f.loading l).valid f.stored now.0
          bytes before in
      rw size at after

-- The range of `len` bytes at `b` and the slot of 8 bytes at `a` share no byte, where the memory
-- really keeps them.
abbrev pub Clear : ℕ → ℕ → ℕ → Type 0
Clear b len a = (redirect b + len ≤ redirect a) ⊎ (redirect a + 8 ≤ redirect b)

module _ (fix : Bool) (m : MemoryModel) (address : ℕ) (plan : DynamicLoadPlan) (r : SymbolResolver)
    (tls : Option TlsContext) (entry : RelocationEntry) {a : AppliedRelocation × MemoryModel}
    (l : IsLoading m) (plain : is_copy entry.relocation_type ≡ false)
    (e : fill_slot fix m address plan r tls entry ≡ ok a) where
  written : write fix m address (to_le 8 a.0.value) ≡ ok a.1
  written =
      let f = OnOk-apply _ (fill_slot-Filled fix m address plan r tls entry) e in
      let s = f.stored in let between = f.untouched plain in rw between at s

  pub fill_slot_away :
      (b len : ℕ) (old : List ℕ)
      → Clear b len address
      → read m b len ≡ ok old
      → read a.1 b len ≡ ok old
  fill_slot_away b len old c before =
      let size = length-to_le 8 a.0.value in
      let bytes = uncorrected fix m address l (to_le 8 a.0.value) in
      let away : (redirect b + len ≤ redirect address)
          ⊎ (redirect address
                + length
                    (corrected fix m.ns_loaded_write_fix (redirect address) (to_le 8 a.0.value))
              ≤ redirect b) =
        rw (bytes, size) c in
      read-write_ne fix m address (to_le 8 a.0.value) l.valid written b len old away before
