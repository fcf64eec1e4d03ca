-- ===== src/Bridge/Copies.antt =====
-- What a mapping of a file by `mmap` of crates/daoti-core/src/elf/syscall_bridge.rs shows, for a file that
-- is not an ELF file.
use yl.Prelude.{
  ℕ, zero, suc, ◌+◌, ◌-◌, ◌%◌, ◌≤◌, ◌≡◌, refl, ap, ◌∙◌, inl, inr, arith, min, true, false, Option,
  some, List, [], ◌∷◌, ltb, leb, Bool-cases, if◌then◌else◌, length, take, drop, length-take, get_or,
  u64_mod, ok, ◌>>=◌, require, le→leb, ltb→lt, ltb→ge, OnOk, OnOk-bind, OnOk-chain, OnOk-intro,
}
use yl.Prelude.Int.{ℤ, signed64}
use yl.Memory.{
  MemPerm, rw_perm, MemoryModel, write, mprotect, mmap_anonymous_private_topdown, redirect,
}
use yl.Memory.Access.{view-write}
use yl.Memory.Mapping.{view-mprotect, repermed}
use yl.Memory.Mmap.{Fresh, rounded, mmap_topdown-Fresh}
use yl.Memory.Steps.{mmap_topdown-IsValid}
use yl.Memory.Topdown.{IsFree}
use yl.Memory.Valid as Regions
use yl.Memory.View.{Cell, view, in_range, patched}
use yl.Bridge.{Host, RuntimeSyscallEvent, OpenFile, NativeSyscallBridge, as_i32}
use yl.Bridge.Bits.{perm_of, has}
use yl.Bridge.Files.{get_file, bytes_between}
use yl.Bridge.Maps.{
  is_mapped_elf, load_plain, is_rw, protect_plain, fill_mapping, mmap_file, anonymous_fd, sys_mmap,
}
use yl.Bridge.Dispatch.{handle_middle, handle_with_memory}
use yl.Memory.Held.{corrected-eq}

-- `m'` is `m` with `size` cells at `base` that hold `bytes`, and zeros behind them.
abbrev pub Placed : MemoryModel → ℕ → ℕ → MemPerm → List ℕ → MemoryModel → Type 0
Placed m base size perm bytes m' =
    (a : ℕ)
    → view m'.regions a ≡ (
        if in_range base size a
        then some (record { perm = perm; byte = get_or bytes (a - base) 0 })
        else view m.regions a)

get_or-beyond : (bytes : List ℕ) (i : ℕ) → length bytes ≤ i → get_or bytes i 0 ≡ 0
get_or-beyond [] i l = refl
get_or-beyond (b ∷ bytes) zero l = absurd (omega arith)
get_or-beyond (b ∷ bytes) (suc i) l = get_or-beyond bytes i (omega arith)

-- The redirected addresses are not aligned to pages.
redirect-aligned : (addr : ℕ) → addr % 4096 ≡ 0 → redirect addr ≡ addr
unfolding redirect
redirect-aligned addr e = ground arith

patched-cells :
    (base size : ℕ) (bytes : List ℕ) (a : ℕ) (o : Option Cell)
    → length bytes ≤ size
    → patched base bytes a
        (if in_range base size a then some (record { perm = rw_perm; byte = 0 }) else o)
      ≡ (if in_range base size a
          then some (record { perm = rw_perm; byte = get_or bytes (a - base) 0 })
          else o)
patched-cells base size bytes a o l =
    ground (arith, λ (h : length bytes ≤ a - base). get_or-beyond bytes (a - base) h)

module _ (m m₁ : MemoryModel) (base size : ℕ) (valid : Regions.IsValid m₁)
    (zeros : Placed m base size rw_perm [] m₁) (aligned : base % 4096 ≡ 0) where
  store-Placed :
      (bytes : List ℕ)
      → length bytes ≤ size
      → OnOk
          (write false m₁ base bytes)
          (λ m₂. Placed m base size rw_perm bytes m₂ × Regions.IsValid m₂)
  store-Placed bytes l = OnOk-intro (write false m₁ base bytes) _ (λ m₂ e. (
    λ a.
        view-write false m₁ base bytes valid e a
        ∙ ap (λ new. patched (redirect base) new a (view m₁.regions a))
            (corrected-eq m₁.ns_loaded_write_fix (redirect base) bytes)
        ∙ ap (λ place. patched place bytes a (view m₁.regions a)) (redirect-aligned base aligned)
        ∙ ap (patched base bytes a) (zeros a)
        ∙ patched-cells base size bytes a (view m.regions a) l,
    Regions.write-IsValid false m₁ base bytes valid e,
  ))

  load_plain-Placed :
      (file : List ℕ) (offset copy_end : ℕ)
      → copy_end ≤ length file
      → copy_end - offset ≤ size
      → OnOk (load_plain false file base offset copy_end m₁) (λ m₂.
        Placed m base size rw_perm (take (copy_end - offset) (drop offset file)) m₂
        × Regions.IsValid m₂)
  unfolding load_plain bytes_between
  load_plain-Placed file offset copy_end inside fits =
      let chunk = take (copy_end - offset) (drop offset file) in
      elim (Bool-cases (ltb offset copy_end)) [
        | inl e ↦
            let low : leb offset copy_end ≡ true = le→leb _ _ (omega (arith, ltb→lt _ _ e)) in
            rw (e, low, le→leb _ _ inside)
              (store-Placed chunk
                (omega (arith, length-take (copy_end - offset) (drop offset file), fits)))
        | inr e ↦
            let nothing : copy_end - offset ≡ 0 = omega (arith, ltb→ge _ _ e) in
            rw e (rw nothing (zeros, valid))
      ]

repermed-cells :
    (base size : ℕ) (perm : MemPerm) (bytes : List ℕ) (a : ℕ) (o : Option Cell)
    → repermed base size perm a (
        if in_range base size a
        then some (record { perm = rw_perm; byte = get_or bytes (a - base) 0 })
        else o)
      ≡ (if in_range base size a
          then some (record { perm = perm; byte = get_or bytes (a - base) 0 })
          else o)
repermed-cells base size perm bytes a o = elim (Bool-cases (in_range base size a)) [
  | inl e ↦ rw e refl
  | inr e ↦ rw e refl
]

is_rw-perm : (prot : ℕ) → is_rw prot ≡ true → perm_of prot ≡ rw_perm
is_rw-perm prot e =
    let r : has prot 1 ≡ true = ground arith in
    let w : has prot 2 ≡ true = ground arith in
    let x : has prot 4 ≡ false = ground arith in rw (r, w, x) refl

protect_plain-Placed :
    (m m₂ : MemoryModel) (base len prot : ℕ) (bytes : List ℕ)
    → Regions.IsValid m₂
    → Placed m base (rounded len) rw_perm bytes m₂
    → OnOk
        (protect_plain prot base len m₂)
        (λ m₃. Placed m base (rounded len) (perm_of prot) bytes m₃)
unfolding protect_plain
protect_plain-Placed m m₂ base len prot bytes v placed = elim (Bool-cases (is_rw prot)) [
  | inl e ↦ rw (e, is_rw-perm prot e) placed
  | inr e ↦ rw e (elim (Bool-cases (ltb (len + 4095) u64_mod)) [
    | inr far ↦ rw far tt
    | inl near ↦ rw near (
        OnOk-intro (mprotect m₂ base (rounded len) (perm_of prot)) _ (λ m₃ done a.
          view-mprotect m₂ base (rounded len) (perm_of prot) a v done
          ∙ ap (repermed base (rounded len) (perm_of prot) a) (placed a)
          ∙ repermed-cells base (rounded len) (perm_of prot) bytes a (view m.regions a)))
  ])
]

-- What a mapping of `len` bytes of a file from `offset` on did.
pub record Shown (m : MemoryModel) (file : List ℕ) (offset len prot : ℕ) (value : ℤ)
    (m' : MemoryModel) : Type 0 where
  pub base : ℕ
  pub result : value ≡ signed64 base
  pub aligned : base % 4096 ≡ 0
  pub free : IsFree m (rounded len) base
  pub cells :
      Placed m base
        (rounded len)
        (perm_of prot)
        (take (min (offset + len) (length file) - offset) (drop offset file))
        m'

mmap_file-Shown :
    (host : Host) (ev : RuntimeSyscallEvent) (b : NativeSyscallBridge) (m : MemoryModel)
    (file : OpenFile)
    → host.fix_ns_loaded ≡ false
    → Regions.IsValid m
    → get_file b.files (as_i32 ev.arg4) ≡ some file
    → is_mapped_elf file.bytes ≡ false
    → OnOk
        (mmap_file host ev b m)
        (λ r. Shown m file.bytes ev.arg5 ev.arg1 ev.arg2 r.0 r.2 × (r.1 ≡ b))
unfolding mmap_file fill_mapping
mmap_file-Shown host ev b m file fix v found plain =
    let P : ℤ × NativeSyscallBridge × MemoryModel → Type 0 =
      λ r. Shown m file.bytes ev.arg5 ev.arg1 ev.arg2 r.0 r.2 × (r.1 ≡ b) in
    rw found (elim (Bool-cases (ltb (ev.arg5 + ev.arg1) u64_mod)) [
      | inr far ↦ rw far tt
      | inl near ↦
          rw (near, plain, fix)
            (OnOk-bind (require (ltb ev.arg2 8) _) _ P (λ t e.
              OnOk-bind (mmap_anonymous_private_topdown m ev.arg1 rw_perm) _ P (λ r mapped.
                let f : Fresh m ev.arg1 rw_perm r.0 r.1 =
                  mmap_topdown-Fresh m ev.arg1 rw_perm v mapped in
                let w = mmap_topdown-IsValid m ev.arg1 rw_perm v mapped in
                let copy_end = min (ev.arg5 + ev.arg1) (length file.bytes) in
                let chunk = take (copy_end - ev.arg5) (drop ev.arg5 file.bytes) in
                OnOk-chain
                  (load_plain false file.bytes r.0 ev.arg5 copy_end r.1
                    >>= (λ m₁. protect_plain ev.arg2 r.0 ev.arg1 m₁ >>= (λ m₂. ok (b, m₂))))
                  (λ q. ok (signed64 r.0, q.0, q.1))
                  (λ q. Placed m r.0 (rounded ev.arg1) (perm_of ev.arg2) chunk q.1 × (q.0 ≡ b)) P
                  (OnOk-chain (load_plain false file.bytes r.0 ev.arg5 copy_end r.1) _
                    (λ m₁. Placed m r.0 (rounded ev.arg1) rw_perm chunk m₁ × Regions.IsValid m₁) _
                    (load_plain-Placed m r.1 r.0 (rounded ev.arg1) w f.cells f.aligned file.bytes
                      ev.arg5 copy_end (omega arith) (omega arith))
                    (λ m₁ h.
                      OnOk-chain (protect_plain ev.arg2 r.0 ev.arg1 m₁) _
                        (Placed m r.0 (rounded ev.arg1) (perm_of ev.arg2) chunk) _
                        (protect_plain-Placed m m₁ r.0 ev.arg1 ev.arg2 chunk h.1 h.0)
                        (λ m₂ placed. (placed, refl))))
                  (λ q h. (
                    record {
                      base = r.0;
                      result = refl;
                      aligned = f.aligned;
                      free = f.free;
                      cells = h.0;
                    },
                    h.1,
                  )))))
    ])

-- A `mmap` of an open file that is not an ELF file, at an offset that is a multiple of the page
-- size, that succeeds in a valid memory with the namespace correction off, returns the start of
-- whole pages that were free. They hold the file from the offset on, at most as many bytes as were
-- asked for, and zeros behind them, with the permissions that were asked for. No other cell of
-- memory changes, and neither does the bridge.
pub sys_mmap-Shown :
    (host : Host) (ev : RuntimeSyscallEvent) (b : NativeSyscallBridge) (m : MemoryModel)
    (file : OpenFile)
    → ev.nr ≡ 9
    → anonymous_fd ev ≡ false
    → ev.arg5 % 4096 ≡ 0
    → host.fix_ns_loaded ≡ false
    → Regions.IsValid m
    → get_file b.files (as_i32 ev.arg4) ≡ some file
    → is_mapped_elf file.bytes ≡ false
    → OnOk
        (handle_with_memory host ev b m)
        (λ r. Shown m file.bytes ev.arg5 ev.arg1 ev.arg2 r.0 r.2 × (r.1 ≡ b))
unfolding handle_with_memory handle_middle sys_mmap
sys_mmap-Shown host ev b m file nr named whole fix v found plain =
    rw nr (rw (named, whole) (mmap_file-Shown host ev b m file fix v found plain))
