-- ===== src/Elf/Relocation/Frame.antt =====
-- The memory behind a run of relocations: crates/daoti-core/src/elf/relocation.rs,
-- `apply_x86_64_relocations_with_tls`.
use yl.Prelude.{
  ℕ, ◌+◌, ◌≡◌, inl, inr, Bool, false, Option, List, [], ◌∷◌, arith, Bool-cases, OnOk, OnOk-apply,
  OnOk-map, OnOk-bind, OnOk-zip, All, Pairwise, ok, ok_or, other, checked_add,
}
use yl.Prelude.Bytes.{to_le}
use yl.Memory.{MemoryModel, read}
use yl.Elf.Dynamic.{RelocationEntry, DynamicLoadPlan}
use yl.Elf.Relocation.{TlsContext, SymbolResolver}
use yl.Elf.Relocation.Apply.{AppliedRelocation, apply_with_tls, fill_slot, is_none}
use yl.Elf.Relocation.Slots.{
  IsLoading, is_copy, Readable, Clear, fill_slot-IsLoading, fill_slot_away, fill_slot_self,
  fill_slot-Filled,
}

module _ (fix : Bool) (plan : DynamicLoadPlan) (r : SymbolResolver) (tls : Option TlsContext) where
  -- The address that an entry relocates.
  abbrev pub slot_of : RelocationEntry → ℕ
  slot_of entry = entry.offset + plan.load_bias

  checked_slot :
      (entry : RelocationEntry) {x : ℕ}
      → ok_or (checked_add entry.offset plan.load_bias) (other "重定位目标地址溢出" []) ≡ ok x
      → x ≡ slot_of entry
  checked_slot entry e = ground arith

  -- Applying relocations other than COPY with success, to a valid memory whose writes are not corrected, leaves
  -- every range that could be read as it was, if it shares no byte with a relocated slot.
  pub apply_away :
      (m : MemoryModel) (entries : List RelocationEntry) (b len : ℕ) (old : List ℕ)
      → IsLoading m
      → All (λ entry. is_copy entry.relocation_type ≡ false) entries
      → All (λ entry. Clear b len (slot_of entry)) entries
      → read m b len ≡ ok old
      → OnOk (apply_with_tls fix m plan r tls entries) (λ a. read a.1 b len ≡ ok old)
  unfolding apply_with_tls
  apply_away m [] b len old l p c before = before
  apply_away m (entry ∷ entries) b len old l p c before =
      OnOk-bind (ok_or (checked_add entry.offset plan.load_bias) _) _ (λ a. read a.1 b len ≡ ok old)
        (λ address e. elim (Bool-cases (is_none entry.relocation_type)) [
          | inl n ↦ rw n (apply_away m entries b len old l p.1 c.1 before)
          | inr n ↦ rw n (
              OnOk-bind (fill_slot fix m address plan r tls entry) _ (λ a. read a.1 b len ≡ ok old)
                (λ one f.
                  OnOk-map _ (λ a. read a.1 b len ≡ ok old) _
                    (apply_with_tls fix one.1 plan r tls entries) (λ a h. h)
                    (apply_away one.1 entries b len old
                      (fill_slot-IsLoading fix m address plan r tls entry l f) p.1 c.1
                      (fill_slot_away fix m address plan r tls entry l p.0 f b len old
                        (rw (checked_slot entry e) c.0) before))))
        ])

  -- What is kept of the slots of later entries when one slot is written.
  still-Readable :
      (m : MemoryModel) (entry : RelocationEntry) (entries : List RelocationEntry) {address : ℕ}
      {a : AppliedRelocation × MemoryModel}
      → IsLoading m
      → is_copy entry.relocation_type ≡ false
      → address ≡ slot_of entry
      → fill_slot fix m address plan r tls entry ≡ ok a
      → All (λ next. Clear (slot_of entry) 8 (slot_of next)) entries
      → All (λ next. Readable m (slot_of next)) entries
      → All (λ next. Readable a.1 (slot_of next)) entries
  still-Readable m entry [] l p s f c h = tt
  still-Readable m entry (next ∷ entries) {address} {a} l p s f c h =
      let clear : Clear (slot_of next) 8 address =
        rw s (elim c.0 [ inl x ↦ inr x | inr x ↦ inl x ]) in
      (
        (
          h.0.0,
          fill_slot_away fix m address plan r tls entry l p f (slot_of next) 8 h.0.0 clear h.0.1,
        ),
        still-Readable m entry entries l p s f c.1 h.1,
      )

  -- What a run of relocations promises of its records.
  abbrev pub Stored : List AppliedRelocation × MemoryModel → Type 0
  Stored a = All (λ x. read a.1 x.address 8 ≡ ok (to_le 8 x.value)) a.0

  -- After relocations other than COPY that succeed, to a valid memory whose writes are not
  -- corrected and to slots that share no byte and could be read, every relocated slot holds the
  -- value that was recorded for it.
  pub apply-Stored :
      (m : MemoryModel) (entries : List RelocationEntry)
      → IsLoading m
      → All (λ entry. is_copy entry.relocation_type ≡ false) entries
      → Pairwise (λ entry next. Clear (slot_of entry) 8 (slot_of next)) entries
      → All (λ entry. Readable m (slot_of entry)) entries
      → OnOk (apply_with_tls fix m plan r tls entries) Stored
  unfolding apply_with_tls
  apply-Stored m [] l p c h = tt
  apply-Stored m (entry ∷ entries) l p c h =
      OnOk-bind (ok_or (checked_add entry.offset plan.load_bias) _) _ Stored (λ address e.
        let s = checked_slot entry e in
        elim (Bool-cases (is_none entry.relocation_type)) [
          | inl n ↦ rw n (apply-Stored m entries l p.1 c.1 h.1)
          | inr n ↦ rw n (
              OnOk-bind (fill_slot fix m address plan r tls entry) _ Stored (λ one f.
                let next = fill_slot-IsLoading fix m address plan r tls entry l f in
                let here : Readable m address = rw s h.0 in
                let self = fill_slot_self fix m address plan r tls entry l f here in
                let place =
                  (OnOk-apply _ (fill_slot-Filled fix m address plan r tls entry) f).place in
                let mine : All (λ later. Clear address 8 (slot_of later)) entries = rw s c.0 in
                let keep = apply_away one.1 entries address 8 _ next p.1 mine self in
                OnOk-map _ Stored _ (apply_with_tls fix one.1 plan r tls entries)
                  (λ a q. (rw place q.0, q.1))
                  (OnOk-zip _ _ (apply_with_tls fix one.1 plan r tls entries) keep (
                    apply-Stored one.1 entries next p.1 c.1
                      (still-Readable m entry entries l p.0 s f c.0 h.1)))))
        ])
