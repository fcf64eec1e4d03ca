-- ===== src/Bridge/Transfers.antt =====
-- What `read` and `pread64` of crates/daoti-core/src/elf/syscall_bridge.rs move from a file to memory,
-- and their panics.
use yl.Prelude.{
  ℕ, ◌+◌, ◌-◌, ◌≤◌, ◌<◌, ◌≡◌, ◌≢◌, refl, sym, ap, ◌∙◌, inl, inr, arith, min, true, false, Option,
  some, List, [], ◌∷◌, ltb, leb, ◌==◌, if◌then◌else◌, Bool-cases, Option-cases, length, take, drop,
  u64_mod, All, ok, panic, saturating_add, le→leb, OnOk, OnOk-apply, OnOk-bind, OnSome,
  OnSome-apply, OnOk-intro, IsSafe, IsSafe->>=,
}
use yl.Prelude.Int.{ℤ, signed64}
use yl.Memory.{MemoryModel, write, redirect}
use yl.Memory.Steps.{read-write-IsSafe}
use yl.Memory.Held.{Holds, write-Holds, written_cells}
use yl.Memory.Valid as Regions
use yl.Memory.View.{view, patched}
use yl.Bridge.{Host, RuntimeSyscallEvent, OpenFile, NativeSyscallBridge, as_i32}
use yl.Bridge.Files.{get_file, set_offset, bytes_between, read_end, sys_read}
use yl.Bridge.Dispatch.{handle_with_memory}
use yl.Bridge.Kept.{IsValid, get_file-Open, Open}

get_file-set_offset :
    (files : List (ℕ × OpenFile)) (fd stop : ℕ) (file : OpenFile)
    → get_file files fd ≡ some file
    → get_file (set_offset files fd stop) fd ≡ some (record file { offset = stop })
unfolding get_file set_offset
get_file-set_offset [] fd stop file found = absurd (ground arith)
get_file-set_offset (f ∷ files) fd stop file found = elim (Bool-cases (f.0 == fd)) [
  | inl e ↦
      let same : f.1 ≡ file = ground arith in
      rw (e, e) (ap (λ (g : OpenFile). some (record g { offset = stop })) same)
  | inr e ↦
      let later : get_file files fd ≡ some file = ground arith in
      rw (e, e) (get_file-set_offset files fd stop file later)
]

get_file-set_offset_ne :
    (files : List (ℕ × OpenFile)) (fd stop other_fd : ℕ)
    → other_fd ≢ fd
    → get_file (set_offset files fd stop) other_fd ≡ get_file files other_fd
unfolding get_file set_offset
get_file-set_offset_ne [] fd stop other_fd ne = refl
get_file-set_offset_ne (f ∷ files) fd stop other_fd ne = elim (Bool-cases (f.0 == fd)) [
  | inl e ↦ let away : (f.0 == other_fd) ≡ false = ground arith in rw (e, away) refl
  | inr e ↦ rw e (
      ap (λ (o : Option OpenFile). if f.0 == other_fd then some f.1 else o)
        (get_file-set_offset_ne files fd stop other_fd ne))
]

-- What a read of `count` bytes from the descriptor `fd` into memory at `addr` did.
pub record Transfer (b : NativeSyscallBridge) (m : MemoryModel) (fd addr count : ℕ)
    (file : OpenFile) (value : ℤ) (b' : NativeSyscallBridge) (m' : MemoryModel) : Type 0 where
  pub size : ℕ
  pub result : value ≡ signed64 size
  pub requested : size ≤ count
  pub available : file.offset + size ≤ length file.bytes
  pub full : size < count → file.offset + size ≡ length file.bytes
  pub cells :
      (a : ℕ)
      → view m'.regions a
        ≡ patched (redirect addr) (take size (drop file.offset file.bytes)) a (view m.regions a)
  pub held : Holds m' (redirect addr) (take size (drop file.offset file.bytes))
  pub moved : get_file b'.files fd ≡ some (record file { offset = file.offset + size })
  pub others : (g : ℕ) → g ≢ fd → get_file b'.files g ≡ get_file b.files g

-- The end of a read of `count` bytes at `start` of a file of `size` bytes.
abbrev EndsWell : ℕ → ℕ → ℕ → ℕ → Type 0
EndsWell start count size stop =
    (start ≤ stop) × (stop ≤ size) × (stop - start ≤ count) × (stop - start < count → stop ≡ size)

read_end-EndsWell :
    (start count size : ℕ)
    → start ≤ size
    → size < u64_mod
    → EndsWell start count size (min (saturating_add start count) size)
read_end-EndsWell start count size inside small = elim (Bool-cases (ltb (start + count) u64_mod)) [
  | inl e ↦ rw e (omega arith, omega arith, omega arith, λ l. omega arith)
  | inr e ↦
      let far : u64_mod ≤ start + count = ground arith in
      rw e (omega arith, omega arith, omega arith, λ l. omega arith)
]

-- The parts of a call that succeeds.
record Parts (host : Host) (ev : RuntimeSyscallEvent) (b : NativeSyscallBridge) (m : MemoryModel)
    (file : OpenFile) (value : ℤ) (b' : NativeSyscallBridge) (m' : MemoryModel) : Type 0 where
  stop : ℕ
  ends : EndsWell file.offset ev.arg2 (length file.bytes) stop
  stored :
      write host.fix_ns_loaded m ev.arg1 (take (stop - file.offset) (drop file.offset file.bytes))
      ≡ ok m'
  result : value ≡ signed64 (stop - file.offset)
  bridge : b' ≡ record b { files = set_offset b.files (as_i32 ev.arg0) stop }

sys_read-Parts :
    (host : Host) (ev : RuntimeSyscallEvent) (b : NativeSyscallBridge) (m : MemoryModel)
    (file : OpenFile)
    → get_file b.files (as_i32 ev.arg0) ≡ some file
    → file.offset ≤ length file.bytes
    → length file.bytes < u64_mod
    → OnOk (sys_read false host ev b m) (λ r. Parts host ev b m file r.0 r.1 r.2)
unfolding sys_read bytes_between
sys_read-Parts host ev b m file found inside sized =
    let stop = read_end file.bytes file.offset ev.arg2 in
    let chunk = take (stop - file.offset) (drop file.offset file.bytes) in
    let ends = read_end-EndsWell file.offset ev.arg2 (length file.bytes) inside sized in
    let low : leb file.offset stop ≡ true = le→leb _ _ ends.0 in
    let high : leb stop (length file.bytes) ≡ true = le→leb _ _ ends.1 in
    rw found (
      rw (low, high)
        (OnOk-bind (write host.fix_ns_loaded m ev.arg1 chunk) _
          (λ r. Parts host ev b m file r.0 r.1 r.2)
          (λ m' e. record { stop = stop; ends = ends; stored = e; result = refl; bridge = refl })))

-- A `read` from an open file of less than 2 ^ 64 bytes that succeeds, in a valid bridge and a
-- valid memory and with the namespace correction off, returns the number of bytes it moved: as many
-- as were asked for, or all that are left. The bytes behind the offset are then in memory at the
-- place where the memory keeps the given address (the address itself, but for the three that it
-- redirects), no other byte of memory has changed, and the offset of this file alone has moved on
-- by that number.
pub sys_read-Transfer :
    (host : Host) (ev : RuntimeSyscallEvent) (b : NativeSyscallBridge) (m : MemoryModel)
    (file : OpenFile) {value : ℤ} {b' : NativeSyscallBridge} {m' : MemoryModel}
    → ev.nr ≡ 0
    → host.fix_ns_loaded ≡ false
    → IsValid b
    → Regions.IsValid m
    → length file.bytes < u64_mod
    → get_file b.files (as_i32 ev.arg0) ≡ some file
    → handle_with_memory host ev b m ≡ ok (value, b', m')
    → Transfer b m (as_i32 ev.arg0) ev.arg1 ev.arg2 file value b' m'
unfolding handle_with_memory
sys_read-Transfer host ev b m file {value} {b'} {m'} nr fix v w sized found e =
    let fd = as_i32 ev.arg0 in
    let inside =
      OnSome-apply (λ (f : OpenFile). f.offset ≤ length f.bytes)
        (get_file-Open b.files fd b.next_fd v.opened) found in
    let called : sys_read false host ev b m ≡ ok (value, b', m') = rw nr at e in
    let p =
      OnOk-apply (λ r. Parts host ev b m file r.0 r.1 r.2)
        (sys_read-Parts host ev b m file found inside sized) called in
    let size = p.stop - file.offset in
    let chunk = take size (drop file.offset file.bytes) in
    let plain : write false m ev.arg1 chunk ≡ ok m' =
      ap (λ f. write f m ev.arg1 chunk) (sym fix) ∙ p.stored in
    let advanced : file.offset + size ≡ p.stop = omega (arith, p.ends) in
    record {
      size = size;
      result = p.result;
      requested = p.ends.2;
      available = omega (arith, p.ends, advanced);
      full = λ l. advanced ∙ p.ends.3 l;
      cells = written_cells m ev.arg1 chunk w plain;
      held = write-Holds m ev.arg1 chunk w plain;
      moved =
          ap (λ (c : NativeSyscallBridge). get_file c.files fd) p.bridge
          ∙ get_file-set_offset b.files fd p.stop file found
          ∙ ap (λ n. some (record file { offset = n })) (sym advanced);
      others = λ g ne.
          ap (λ (c : NativeSyscallBridge). get_file c.files g) p.bridge
          ∙ get_file-set_offset_ne b.files fd p.stop g ne;
    }

-- A `pread64` from an open file at a position behind the end of the file panics, whatever its
-- length, its address and the memory.
pub pread64_panic :
    (host : Host) (ev : RuntimeSyscallEvent) (b : NativeSyscallBridge) (m : MemoryModel)
    (file : OpenFile)
    → ev.nr ≡ 17
    → get_file b.files (as_i32 ev.arg0) ≡ some file
    → length file.bytes < ev.arg3
    → handle_with_memory host ev b m ≡ panic
unfolding handle_with_memory sys_read bytes_between
pread64_panic host ev b m file nr found beyond =
    let short : leb ev.arg3 (read_end file.bytes ev.arg3 ev.arg2) ≡ false = ground arith in
    rw nr (rw found (rw short refl))

abbrev Fits : OpenFile → Type 0
Fits file = (file.offset ≤ length file.bytes) × (length file.bytes < u64_mod)

get_file-Fits :
    (files : List (ℕ × OpenFile)) (fd next_fd : ℕ)
    → All (Open next_fd) files
    → All (λ f. length f.1.bytes < u64_mod) files
    → OnSome (get_file files fd) Fits
unfolding get_file
get_file-Fits [] fd next_fd a l = tt
get_file-Fits (f ∷ files) fd next_fd a l = elim (Bool-cases (f.0 == fd)) [
  | inl e ↦ rw e (a.0.1, l.0)
  | inr e ↦ rw e (get_file-Fits files fd next_fd a.1 l.1)
]

-- In a valid bridge, all of whose files are shorter than 2 ^ 64 bytes, and a valid memory that ends below the very last address, a `read` never
-- panics, whatever its arguments: it moves bytes or returns an error.
pub sys_read-IsSafe :
    (host : Host) (ev : RuntimeSyscallEvent) (b : NativeSyscallBridge) (m : MemoryModel)
    → ev.nr ≡ 0
    → IsValid b
    → Regions.IsValid m
    → m.max_addr + 1 < u64_mod
    → All (λ f. length f.1.bytes < u64_mod) b.files
    → IsSafe (handle_with_memory host ev b m)
unfolding handle_with_memory sys_read bytes_between
sys_read-IsSafe host ev b m nr v w small sized =
    rw nr (elim (Option-cases (get_file b.files (as_i32 ev.arg0))) [
      | inl n ↦ rw n tt
      | inr (file, s) ↦
          let stop = read_end file.bytes file.offset ev.arg2 in
          let chunk = take (stop - file.offset) (drop file.offset file.bytes) in
          let f =
            OnSome-apply Fits (get_file-Fits b.files (as_i32 ev.arg0) b.next_fd v.opened sized) s in
          let ends = read_end-EndsWell file.offset ev.arg2 (length file.bytes) f.0 f.1 in
          rw s (
            rw (le→leb _ _ ends.0, le→leb _ _ ends.1)
              (IsSafe->>= (write host.fix_ns_loaded m ev.arg1 chunk) _
                (read-write-IsSafe host.fix_ns_loaded m ev.arg1 0 chunk w small).1
                (OnOk-intro (write host.fix_ns_loaded m ev.arg1 chunk) _ (λ m' e. tt))))
    ])
