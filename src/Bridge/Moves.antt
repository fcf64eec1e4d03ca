-- ===== src/Bridge/Moves.antt =====
-- The parts of crates/daoti-core/src/elf/syscall_bridge.rs that change only the memory, as runs of
-- the memory's operations.
use yl.Prelude.{
  ℕ, zero, suc, ◌+◌, ◌*◌, ◌/◌, Bool, false, Option, none, some, List, [], ◌∷◌, ltb, leb, length,
  ◌%◌, u64_mod, checked_add, saturating_add, ◌||◌, ◌&&◌, not, ◌==◌, Result, ok, err, panic, ◌>>=◌,
  require, ok_or, add_u64, OnOk, OnOk-intro, OnOk-chain, OnOk-bind, OnOk-if, OnOk-weaken,
}
use yl.Prelude.Bytes.{to_le}
use yl.Memory.{
  MemoryModel, MemPerm, read, write, add_region, mprotect, mmap_anonymous_private_topdown,
}
use yl.Memory.Steps.{Reach, here, next, Reach-trans, added, protected, stored, mapped_high}
use yl.Elf.Parse.{word}
use yl.Bridge.Bits.{align_up}
use yl.Bridge.Files.{bytes_between}
use yl.Elf.{ElfSegment, is_load}
use yl.Bridge.{Host, ElfTlsImage, NativeSyscallBridge}
use yl.Bridge.Tls.{
  zero_page, ensure_page, wrapping_sub, ensure_slots, place_image, place_locale, place_guards,
}
use yl.Bridge.Relocs.{
  LoadedObject, Segments, no_tables, program_headers, scan_dynamic, reloc_value, vaddr_to_offset,
}
use yl.Bridge.Relocs.Apply.{
  write_value, apply_entry, apply_entries, apply_table, apply_tables, apply_elf_runtime_relocations,
}
use yl.Bridge.Maps.{copy_segment, copy_segments, load_plain, protect_plain, is_rw}

-- The result is reached from `m`.
abbrev pub Moves : MemoryModel → Result MemoryModel → Type 0
Moves m r = OnOk r (Reach m)

pub write-Moves :
    (fix : Bool) (m : MemoryModel) (addr : ℕ) (bytes : List ℕ) → Moves m (write fix m addr bytes)
write-Moves fix m addr bytes =
    OnOk-intro (write fix m addr bytes) (Reach m) (λ m' e. next here (stored fix addr bytes e))

pub mprotect-Moves :
    (m : MemoryModel) (addr len : ℕ) (perm : MemPerm) → Moves m (mprotect m addr len perm)
mprotect-Moves m addr len perm =
    OnOk-intro (mprotect m addr len perm) (Reach m) (λ m' e. next here (protected addr len perm e))

pub mmap-Moves :
    (m : MemoryModel) (len : ℕ) (perm : MemPerm)
    → OnOk (mmap_anonymous_private_topdown m len perm) (λ r. Reach m r.1)
mmap-Moves m len perm =
    OnOk-intro (mmap_anonymous_private_topdown m len perm) (λ r. Reach m r.1)
      (λ r e. next here (mapped_high r.0 len perm e))

-- One part after another.
pub Moves->>= :
    (m : MemoryModel) (r : Result MemoryModel) (f : MemoryModel → Result MemoryModel)
    → Moves m r
    → ((m' : MemoryModel) → Moves m' (f m'))
    → Moves m (r >>= f)
Moves->>= m r f p k =
    OnOk-chain r f (Reach m) (Reach m) p
      (λ m' q. OnOk-weaken (Reach m') (Reach m) (f m') (λ n s. Reach-trans q s) (k m'))

ensure_page-Moves : (m : MemoryModel) (page : ℕ) → Moves m (ensure_page m page)
unfolding ensure_page
ensure_page-Moves m page = at (read m page 8)
  where
    at :
        (seen : Result (List ℕ))
        → Moves m
            (elim seen [ panic ↦ panic | ok bytes ↦ ok m | err e ↦ add_region m (zero_page page) ])
    at panic = tt
    at (ok bytes) = here
    at (err e) =
        OnOk-intro (add_region m (zero_page page)) (Reach m)
          (λ m' e'. next here (added (zero_page page) e'))

pub ensure_slots-Moves : (fs : ℕ) (m : MemoryModel) → Moves m (ensure_slots fs m)
unfolding ensure_slots
ensure_slots-Moves fs m = OnOk-bind (add_u64 fs 0x4000) _ (Reach m) (λ low e.
    Moves->>= m (ensure_page m (low / 4096 * 4096)) _ (ensure_page-Moves m _)
      (λ m'. OnOk-bind (add_u64 fs 0x5000) _ (Reach m') (λ high e'. ensure_page-Moves m' _)))

pub place_image-Moves :
    (host : Host) (fs : ℕ) (tls : Option ElfTlsImage) (m : MemoryModel)
    → Moves m (place_image host fs tls m)
unfolding place_image
place_image-Moves host fs none m = here
place_image-Moves host fs (some tls) m =
    OnOk-bind (align_up tls.memsz tls.align) _ (Reach m) (λ off e.
      let page = wrapping_sub fs off / 4096 * 4096 in
      Moves->>= m (ensure_page m page) _ (ensure_page-Moves m page) (λ m'. write-Moves _ m' _ _))

pub place_locale-Moves :
    (host : Host) (fs : ℕ) (locale : Option ℕ) (m : MemoryModel)
    → Moves m (place_locale host fs locale m)
unfolding place_locale
place_locale-Moves host fs none m = here
place_locale-Moves host fs (some locale) m = write-Moves _ m _ _

pub place_guards-Moves :
    (host : Host) (fs : ℕ) (b : NativeSyscallBridge) (m : MemoryModel)
    → Moves m (place_guards host fs b m)
unfolding place_guards
place_guards-Moves host fs b m = OnOk-bind (add_u64 fs 0x30) _ (Reach m) (λ p e.
    Moves->>= m _ _ (write-Moves _ m p _) (λ m₁.
      OnOk-bind (add_u64 fs 0x28) _ (Reach m₁)
        (λ s e'. Moves->>= m₁ _ _ (write-Moves _ m₁ s _) (λ m₂. write-Moves _ m₂ fs _))))

-- The same for a result that carries something else, `m'` being its first part.
abbrev pub Ends : {A : Type 0} → MemoryModel → MemoryModel × A → Type 0
Ends m p = Reach m p.0

abbrev pub FirstMoves : {A : Type 0} → MemoryModel → Result (MemoryModel × A) → Type 0
FirstMoves m r = OnOk r (Ends m)

write_value-Moves :
    (fix : Bool) (m : MemoryModel) (curbrk : Bool) (target : ℕ) (is_slot : Bool) (value : ℕ)
    → FirstMoves m (write_value fix m curbrk target is_slot value)
unfolding write_value
write_value-Moves fix m curbrk target is_slot value =
    at (write fix m target (to_le 8 value)) (write-Moves fix m target (to_le 8 value))
  where
    at :
        (done : Result MemoryModel)
        → Moves m done
        → FirstMoves m (elim done [
          | panic ↦ panic
          | err e ↦ ok (m, curbrk)
          | ok m' ↦ ok (m', curbrk || (is_slot && not (value == 0)))
        ])
    at panic r = tt
    at (err e) r = here
    at (ok m') r = r

apply_entry-Moves :
    (fix : Bool) (o : LoadedObject) (entry_off : ℕ) (m : MemoryModel) (curbrk : Bool)
    → FirstMoves m (apply_entry fix o entry_off m curbrk)
unfolding apply_entry
apply_entry-Moves fix o entry_off m curbrk =
    OnOk-bind (word 8 o.bytes entry_off) _ (Ends m) (λ r_offset e.
      OnOk-bind (word 8 o.bytes (entry_off + 8)) _ (Ends m) (λ r_info e'.
        OnOk-bind (word 8 o.bytes (entry_off + 16)) _ (Ends m) (λ r_addend e''.
          let r_type = r_info % 4294967296 in
          OnOk-bind (reloc_value o r_type (r_info / 4294967296) r_addend) _ (Ends m) (λ value e'''.
            at value ((o.addr + r_offset) % u64_mod) (r_offset == 0x219e60 && r_type == 6)))))
  where
    at :
        (value : Option ℕ) (target : ℕ) (is_slot : Bool)
        → FirstMoves m (elim value [
          | none ↦ ok (m, curbrk)
          | some v ↦ write_value fix m curbrk target is_slot v
        ])
    at none target is_slot = here
    at (some v) target is_slot = write_value-Moves fix m curbrk target is_slot v

FirstMoves->>= :
    {A B : Type 0} (m : MemoryModel) (r : Result (MemoryModel × A))
    (f : MemoryModel × A → Result (MemoryModel × B))
    → FirstMoves m r
    → ((p : MemoryModel × A) → FirstMoves p.0 (f p))
    → FirstMoves m (r >>= f)
FirstMoves->>= m r f first k = OnOk-chain r f (Ends m) (Ends m) first (λ p q.
    OnOk-weaken (λ n. Reach p.0 n.0) (λ n. Reach m n.0) (f p) (λ n s. Reach-trans q s) (k p))

apply_entries-Moves :
    (fix : Bool) (o : LoadedObject) (base_vaddr k : ℕ) (m : MemoryModel) (curbrk : Bool) (count : ℕ)
    → FirstMoves m (apply_entries fix o base_vaddr k m curbrk count)
unfolding apply_entries
apply_entries-Moves fix o base_vaddr k m curbrk zero = here
apply_entries-Moves fix o base_vaddr k m curbrk (suc count) =
    OnOk-bind (add_u64 base_vaddr (k * 24)) _ (Ends m) (λ address e.
      OnOk-bind (vaddr_to_offset o.segments.loads address 24) _ (Ends m) (λ found e'.
        FirstMoves->>= m _ _ (at found)
          (λ p. apply_entries-Moves fix o base_vaddr (suc k) p.0 p.1 count)))
  where
    at :
        (found : Option ℕ)
        → FirstMoves m (elim found [
          | none ↦ ok (m, curbrk)
          | some entry_off ↦ apply_entry fix o entry_off m curbrk
        ])
    at none = here
    at (some entry_off) = apply_entry-Moves fix o entry_off m curbrk

apply_table-Moves :
    (fix : Bool) (o : LoadedObject) (table : Option (ℕ × ℕ)) (m : MemoryModel) (curbrk : Bool)
    → FirstMoves m (apply_table fix o table m curbrk)
unfolding apply_table
apply_table-Moves fix o none m curbrk = here
apply_table-Moves fix o (some table) m curbrk = apply_entries-Moves fix o table.0 0 m curbrk _

apply_tables-Moves :
    (fix : Bool) (o : LoadedObject) (m : MemoryModel) → Moves m (apply_tables fix o m)
unfolding apply_tables
apply_tables-Moves fix o m =
    OnOk-chain (apply_table fix o o.tables.rela m false) _ (Ends m) (Reach m)
      (apply_table-Moves fix o o.tables.rela m false)
      (λ p q.
        OnOk-weaken (Reach p.0) (Reach m) _ (λ n s. Reach-trans q s)
          (OnOk-chain (apply_table fix o o.tables.jmprel p.0 p.1) _ (λ r. Reach p.0 r.0) (Reach p.0)
            (apply_table-Moves fix o o.tables.jmprel p.0 p.1)
            (λ r s.
              OnOk-weaken (Reach r.0) (Reach p.0) _ (λ n t. Reach-trans s t)
                (OnOk-if r.1 _ _ (Reach r.0)
                  (OnOk-bind (add_u64 o.addr 0x228e4e) _ (Reach r.0)
                    (λ flag e. write-Moves fix r.0 flag _))
                  here))))

pub apply_elf_runtime_relocations-Moves :
    (fix : Bool) (m : MemoryModel) (bytes : List ℕ) (addr : ℕ)
    → FirstMoves m (apply_elf_runtime_relocations fix m bytes addr)
unfolding apply_elf_runtime_relocations
apply_elf_runtime_relocations-Moves fix m bytes addr =
    OnOk-bind (program_headers bytes) _ (Ends m) (λ segments e. at segments segments.dynamic)
  where
    at :
        (segments : Segments) (dynamic : Option (ℕ × ℕ))
        → FirstMoves m (elim dynamic [
          | none ↦ ok (m, none)
          | some (dyn_off, dyn_filesz) ↦ do
            tables ← scan_dynamic bytes dyn_off no_tables (dyn_filesz / 16)
            m' ←
                apply_tables fix
                  (record { bytes = bytes; addr = addr; segments = segments; tables = tables })
                  m
            ok (m', segments.tls)
        ])
    at segments none = here
    at segments (some table) =
        OnOk-bind (scan_dynamic bytes table.0 no_tables (table.1 / 16)) _ (Ends m) (λ tables e.
          let o : LoadedObject = record {
            bytes = bytes;
            addr = addr;
            segments = segments;
            tables = tables;
          } in
          OnOk-chain (apply_tables fix o m) _ (Reach m) (Ends m) (apply_tables-Moves fix o m)
            (λ m' r. r))

copy_segment-Moves :
    (fix : Bool) (bytes : List ℕ) (addr mapped_len : ℕ) (s : ElfSegment) (m : MemoryModel)
    → Moves m (copy_segment fix bytes addr mapped_len s m)
unfolding copy_segment
copy_segment-Moves fix bytes addr mapped_len s m =
    OnOk-bind (ok_or (checked_add s.offset s.filesz) _) _ (Reach m) (λ segment_end e.
      OnOk-bind (require (leb segment_end (length bytes)) _) _ (Reach m) (λ t e'.
        OnOk-bind (ok_or (checked_add addr s.vaddr) _) _ (Reach m) (λ target f.
          OnOk-bind
            (require (leb (saturating_add target s.filesz) (saturating_add addr mapped_len)) _) _
            (Reach m)
            (λ t' f'.
              OnOk-bind (bytes_between bytes s.offset segment_end) _ (Reach m)
                (λ chunk g. write-Moves fix m target chunk)))))

pub copy_segments-Moves :
    (fix : Bool) (bytes : List ℕ) (addr mapped_len : ℕ) (ss : List ElfSegment) (m : MemoryModel)
    → Moves m (copy_segments fix bytes addr mapped_len ss m)
unfolding copy_segments
copy_segments-Moves fix bytes addr mapped_len [] m = here
copy_segments-Moves fix bytes addr mapped_len (s ∷ ss) m =
    Moves->>= m _ _
      (OnOk-if (is_load s) _ (ok m) (Reach m) (copy_segment-Moves fix bytes addr mapped_len s m)
        here)
      (λ m'. copy_segments-Moves fix bytes addr mapped_len ss m')

pub load_plain-Moves :
    (fix : Bool) (bytes : List ℕ) (addr offset copy_end : ℕ) (m : MemoryModel)
    → Moves m (load_plain fix bytes addr offset copy_end m)
unfolding load_plain
load_plain-Moves fix bytes addr offset copy_end m =
    OnOk-if (ltb offset copy_end) _ _ (Reach m)
      (OnOk-bind (bytes_between bytes offset copy_end) _ (Reach m)
        (λ chunk e. write-Moves fix m addr chunk))
      here

pub protect_plain-Moves :
    (prot addr len : ℕ) (m : MemoryModel) → Moves m (protect_plain prot addr len m)
unfolding protect_plain
protect_plain-Moves prot addr len m =
    OnOk-if (is_rw prot) _ _ (Reach m) here (
      OnOk-bind (ok_or (checked_add len 4095) _) _ (Reach m)
        (λ padded e. mprotect-Moves m addr _ _))
