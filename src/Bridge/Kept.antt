-- ===== src/Bridge/Kept.antt =====
-- The invariant of `NativeSyscallBridge` (crates/daoti-core/src/elf/syscall_bridge.rs), and the calls
-- on files and output against it.
use yl.Prelude.{
  ℕ, ◌≤◌, ◌<◌, ◌≡◌, ◌≢◌, inl, inr, arith, Bool, true, false, some, List, [], ◌∷◌, ◌==◌, length,
  if◌then◌else◌, Bool-cases, ap, ◌>>=◌, All, Pairwise, ok, ok_or, OnOk, OnOk-bind, OnOk-chain,
  OnSome,
}
use yl.Prelude.Int.{ℤ, pos}
use yl.Memory.{MemoryModel, write}
use yl.Memory.Steps.{Reach}
use yl.Bridge.{Host, RuntimeSyscallEvent, OpenFile, NativeSyscallBridge, as_i32}
use yl.Bridge.Files.{get_file, set_offset, bytes_between, read_end, sys_read, sys_stat}
use yl.Bridge.Moves.{write-Moves}

-- An open file's descriptor was given out, and its offset is inside the file.
abbrev pub Open : ℕ → ℕ × OpenFile → Type 0
Open next_fd f = (f.0 < next_fd) × (f.1.offset ≤ length f.1.bytes)

abbrev pub Distinct : ℕ × OpenFile → ℕ × OpenFile → Type 0
Distinct f g = f.0 ≢ g.0

pub record IsValid (b : NativeSyscallBridge) : Type 0 where
  pub heap : b.current_brk ≤ b.heap_end
  pub small : b.next_fd < 2147483648
  pub opened : All (Open b.next_fd) b.files
  pub distinct : Pairwise Distinct b.files

-- The state that a call leaves: a valid bridge, and a memory that the memory's operations reach.
abbrev pub Kept : {A : Type 0} → MemoryModel → A × NativeSyscallBridge × MemoryModel → Type 0
Kept m r = IsValid r.1 × Reach m r.2

-- The offset of a file moves, and nothing else.
set_offset-Away :
    (files : List (ℕ × OpenFile)) (fd stop : ℕ) (f : ℕ × OpenFile)
    → All (Distinct f) files
    → All (Distinct f) (set_offset files fd stop)
unfolding set_offset
set_offset-Away [] fd stop f a = tt
set_offset-Away (g ∷ files) fd stop f a = elim (Bool-cases (g.0 == fd)) [
  | inl e ↦ rw e a
  | inr e ↦ rw e (a.0, set_offset-Away files fd stop f a.1)
]

set_offset-Distinct :
    (files : List (ℕ × OpenFile)) (fd stop : ℕ)
    → Pairwise Distinct files
    → Pairwise Distinct (set_offset files fd stop)
unfolding set_offset
set_offset-Distinct [] fd stop p = tt
set_offset-Distinct (f ∷ files) fd stop p = elim (Bool-cases (f.0 == fd)) [
  | inl e ↦ rw e p
  | inr e ↦ rw e (set_offset-Away files fd stop f p.0, set_offset-Distinct files fd stop p.1)
]

set_offset-Open :
    (files : List (ℕ × OpenFile)) (fd stop next_fd : ℕ) (file : OpenFile)
    → get_file files fd ≡ some file
    → stop ≤ length file.bytes
    → All (Open next_fd) files
    → All (Open next_fd) (set_offset files fd stop)
unfolding set_offset get_file
set_offset-Open [] fd stop next_fd file found fits a = tt
set_offset-Open (f ∷ files) fd stop next_fd file found fits a = elim (Bool-cases (f.0 == fd)) [
  | inl e ↦
      let same : f.1 ≡ file = ground arith in
      let bytes : f.1.bytes ≡ file.bytes = ap (λ g. g.bytes) same in
      rw e ((a.0.0, rw bytes fits), a.1)
  | inr e ↦
      let later : get_file files fd ≡ some file = ground arith in
      rw e (a.0, set_offset-Open files fd stop next_fd file later fits a.1)
]

-- A file that is found has its offset inside.
pub get_file-Open :
    (files : List (ℕ × OpenFile)) (fd next_fd : ℕ)
    → All (Open next_fd) files
    → OnSome (get_file files fd) (λ file. file.offset ≤ length file.bytes)
unfolding get_file
get_file-Open [] fd next_fd a = tt
get_file-Open (f ∷ files) fd next_fd a = elim (Bool-cases (f.0 == fd)) [
  | inl e ↦ rw e a.0.1
  | inr e ↦ rw e (get_file-Open files fd next_fd a.1)
]

module _ (host : Host) (ev : RuntimeSyscallEvent) (b : NativeSyscallBridge) (m : MemoryModel)
    (v : IsValid b) where
  -- A call that only writes to memory.
  pub write-Kept :
      (addr : ℕ) (bytes : List ℕ) (value : ℤ)
      → OnOk (do m' ← write host.fix_ns_loaded m addr bytes; ok (value, b, m')) (Kept m)
  write-Kept addr bytes value =
      OnOk-chain (write host.fix_ns_loaded m addr bytes) _ (Reach m) (Kept m)
        (write-Moves host.fix_ns_loaded m addr bytes) (λ m' r. (v, r))

  pub sys_read-Kept : (positioned : Bool) → OnOk (sys_read positioned host ev b m) (Kept m)
  unfolding sys_read
  sys_read-Kept positioned =
      OnOk-bind (ok_or (get_file b.files (as_i32 ev.arg0)) _) _ (Kept m) (λ file found.
        let start = if positioned then ev.arg3 else file.offset in
        let stop = read_end file.bytes start ev.arg2 in
        OnOk-bind (bytes_between file.bytes start stop) _ (Kept m) (λ chunk between.
          OnOk-chain (write host.fix_ns_loaded m ev.arg1 chunk) _ (Reach m) (Kept m)
            (write-Moves host.fix_ns_loaded m ev.arg1 chunk)
            (λ m' r. (moved positioned file stop (ground arith) (omega arith), r))))
    where
      moved :
          (positioned : Bool) (file : OpenFile) (stop : ℕ)
          → get_file b.files (as_i32 ev.arg0) ≡ some file
          → stop ≤ length file.bytes
          → IsValid (record b {
            files = if positioned then b.files else set_offset b.files (as_i32 ev.arg0) stop;
          })
      moved true file stop found fits = record {
        heap = v.heap;
        small = v.small;
        opened = v.opened;
        distinct = v.distinct;
      }
      moved false file stop found fits = record {
        heap = v.heap;
        small = v.small;
        opened = set_offset-Open b.files (as_i32 ev.arg0) stop b.next_fd file found fits v.opened;
        distinct = set_offset-Distinct b.files (as_i32 ev.arg0) stop v.distinct;
      }

  pub sys_stat-Kept : (at : Bool) → OnOk (sys_stat at host ev b m) (Kept m)
  unfolding sys_stat
  sys_stat-Kept at = write-Kept _ _ (pos 0)
