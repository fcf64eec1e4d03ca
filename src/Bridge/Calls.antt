-- ===== src/Bridge/Calls.antt =====
-- The calls of crates/daoti-core/src/elf/syscall_bridge.rs one by one, against the invariants of the
-- bridge and of the memory.
use yl.Prelude.{
  ℕ, ◌+◌, ◌*◌, ◌%◌, ◌≤◌, ◌≡◌, refl, inl, inr, arith, Option, none, some, List, [], ◌++◌, ltb, ◌==◌,
  ◌&&◌, ◌||◌, not, Option-cases, Bool-cases, All-map, Result, ok, err, require, ok_or, add_u64,
  replicate, OnOk, OnOk-bind, OnOk-chain, OnOk-if, OnOk-weaken, zero, suc, take, drop, other, io,
}
use yl.Prelude.Bytes.{to_le, from_le}
use yl.Prelude.Int.{ℤ, pos, negsuc, signed64}
use yl.Memory.{MemoryModel, read, mprotect, mmap_anonymous_private_topdown}
use yl.Memory.Steps.{Reach, here, Reach-trans}
use yl.Bridge.{
  Host, RuntimeSyscallEvent, NativeSyscallBridge, as_i32, handle, handle_other, signal_of,
  signal_exit, futex_reply, arch_prctl, constant_reply,
}
use yl.Bridge.Bits.{perm_of, has}
use yl.Bridge.Paths.{path_at, resolve_guest_path, insert_file, sys_access, sys_openat}
use yl.Bridge.Output.{write_all, write_vectors, sys_write, sys_writev}
use yl.Bridge.Replies.{
  limit_of, random_bytes, sys_mprotect, sys_getrlimit, sys_prlimit64, sys_brk, sys_getrandom,
  sys_sigprocmask, sys_clock_gettime,
}
use yl.Bridge.Tls.{ensure_slots, place_image, place_locale, place_guards, sys_get_fs, sys_set_fs}
use yl.Bridge.Maps.{mmap_anonymous, anonymous_fd}
use yl.Bridge.Dispatch.{without_memory}
use yl.Bridge.Moves.{
  Moves, mprotect-Moves, mmap-Moves, ensure_slots-Moves, place_image-Moves, place_locale-Moves,
  place_guards-Moves,
}
use yl.Bridge.Kept.{IsValid, Open, Distinct, Kept, write-Kept}

insert_file-IsValid :
    (b : NativeSyscallBridge) (bytes : List ℕ) → IsValid b → OnOk (insert_file b bytes) IsValid
unfolding insert_file
insert_file-IsValid b bytes v = elim (Bool-cases (ltb (b.next_fd + 1) 2147483648)) [
  | inl e ↦ rw e (record {
    heap = v.heap;
    small = ground arith;
    opened = (
      (omega arith, omega arith),
      All-map (Open b.next_fd) (Open (b.next_fd + 1)) b.files (λ f o. (omega (arith, o.0), o.1))
          v.opened,
    );
    distinct = (
      All-map (Open b.next_fd) (Distinct (b.next_fd, record { bytes = bytes; offset = 0 })) b.files
          (λ f o same. omega (arith, o.0, same)) v.opened,
      v.distinct,
    );
  })
  | inr e ↦ rw e tt
]

-- Some fields do not matter to the invariant.
pub same_files :
    (b b' : NativeSyscallBridge)
    → b'.files ≡ b.files
    → b'.next_fd ≡ b.next_fd
    → b'.current_brk ≤ b'.heap_end
    → IsValid b
    → IsValid b'
same_files b b' files fd heap v = record {
  heap = heap;
  small = rw fd v.small;
  opened = rw (files, fd) v.opened;
  distinct = rw files v.distinct;
}

pub continue :
    {m m₁ : MemoryModel} (r : Result MemoryModel) → Reach m m₁ → Moves m₁ r → OnOk r (Reach m)
continue {m} {m₁} r before after =
    OnOk-weaken (Reach m₁) (Reach m) r (λ n s. Reach-trans before s) after

write_vectors-IsValid :
    (m : MemoryModel) (base i total : ℕ) (b : NativeSyscallBridge) (count : ℕ)
    → IsValid b
    → OnOk (write_vectors m base i total b count) (λ r. IsValid r.1)
unfolding write_vectors
write_vectors-IsValid m base i total b zero v = v
write_vectors-IsValid m base i total b (suc count) v =
    OnOk-bind (add_u64 base (i * 16)) _ (λ r. IsValid r.1)
      (λ address e.
        OnOk-bind (read m address 16) _ (λ r. IsValid r.1)
          (λ raw e'.
            let size = from_le (drop 8 raw) in
            OnOk-bind (read m (from_le (take 8 raw)) size) _ (λ r. IsValid r.1)
              (λ bytes f.
                OnOk-bind (add_u64 total size) _ (λ r. IsValid r.1)
                  (λ total' f'.
                    write_vectors-IsValid m base (suc i) total' (write_all b bytes) count
                      (same_files b (write_all b bytes) refl refl v.heap v)))))

-- The arms of `handle` change the exit code, the base of thread-local storage or the address that
-- is cleared on exit.
handle_other-IsValid :
    (ev : RuntimeSyscallEvent) (b : NativeSyscallBridge)
    → IsValid b
    → OnOk (handle_other ev b) (λ r. IsValid r.1)
unfolding handle_other arch_prctl
handle_other-IsValid ev b v =
    OnOk-if (ev.nr == 60 || ev.nr == 231) _ _ V
      (same_files b (record b { exit_code = some (as_i32 ev.arg0) }) refl refl v.heap v)
      (OnOk-if (ev.nr == 117 || ev.nr == 200 || ev.nr == 234) _ _ V
        (OnOk-bind (signal_exit (signal_of ev)) _ V
          (λ code e. same_files b (record b { exit_code = some code }) refl refl v.heap v))
        (OnOk-if (ev.nr == 16) _ _ V v (
          OnOk-if (ev.nr == 202) _ _ V (OnOk-bind (futex_reply (ev.arg1 % 128)) _ V (λ value e. v))
            (OnOk-if (ev.nr == 218) _ _ V
              (same_files b (record b { clear_child_tid = some ev.arg0 }) refl refl v.heap v)
              (OnOk-if (ev.nr == 158) _ _ V
                (OnOk-if (ev.arg0 == 0x1002) _ _ V
                  (same_files b (record b { fs_base = some ev.arg1 }) refl refl v.heap v)
                  (OnOk-if (ev.arg0 == 0x1003) (err _) (err _) V tt tt))
                tt)))))
  where
    V : ℤ × NativeSyscallBridge → Type 0
    V r = IsValid r.1

handle-IsValid :
    (ev : RuntimeSyscallEvent) (b : NativeSyscallBridge)
    → IsValid b
    → OnOk (handle ev b) (λ r. IsValid r.1)
unfolding handle
handle-IsValid ev b v = at (constant_reply ev.nr)
  where
    at :
        (value : Option ℤ)
        → OnOk
            (elim value [ some value ↦ ok (value, b) | none ↦ handle_other ev b ])
            (λ r. IsValid r.1)
    at (some value) = v
    at none = handle_other-IsValid ev b v

module _ (host : Host) (ev : RuntimeSyscallEvent) (b : NativeSyscallBridge) (m : MemoryModel)
    (v : IsValid b) where
  pub sys_access-Kept : OnOk (sys_access host ev b m) (Kept m)
  unfolding sys_access
  sys_access-Kept =
      OnOk-bind (path_at m ev.arg0 (other "access 路径不是 UTF-8" [])) _ (Kept m) (λ path e.
        elim (Option-cases (resolve_guest_path host b path)) [
          | inl n ↦ rw n (v, here)
          | inr (candidate, s) ↦ rw s (
              OnOk-if (has ev.arg1 4 && not (host.metadata candidate)) (ok (negsuc 12, b, m)) _
                (Kept m) (v, here)
                (OnOk-if (has ev.arg1 2 || has ev.arg1 1) (ok (negsuc 12, b, m)) (ok (pos 0, b, m))
                  (Kept m) (v, here) (v, here)))
        ])

  pub sys_openat-Kept : OnOk (sys_openat host ev b m) (Kept m)
  unfolding sys_openat
  sys_openat-Kept = OnOk-bind (require (as_i32 ev.arg0 == 4294967196) _) _ (Kept m) (λ t e.
      OnOk-bind (path_at m ev.arg1 (other "openat 路径不是 UTF-8" [])) _ (Kept m) (λ path e'.
        elim (Option-cases (resolve_guest_path host b path)) [
          | inl n ↦ rw n (v, here)
          | inr (candidate, s) ↦ rw s (
              OnOk-bind (ok_or (host.read_file candidate) io) _ (Kept m) (λ bytes f.
                OnOk-chain (insert_file b bytes) _ IsValid (Kept m) (insert_file-IsValid b bytes v)
                  (λ b' w. (w, here))))
        ]))

  pub sys_mprotect-Kept : OnOk (sys_mprotect ev b m) (Kept m)
  unfolding sys_mprotect
  sys_mprotect-Kept =
      OnOk-if (ev.arg1 == 0) (ok (pos 0, b, m)) _ (Kept m) (v, here)
        (OnOk-bind (require (ltb ev.arg2 8) _) _ (Kept m) (λ t e.
          OnOk-chain (mprotect m ev.arg0 ev.arg1 (perm_of ev.arg2)) _ (Reach m) (Kept m)
            (mprotect-Moves m ev.arg0 ev.arg1 (perm_of ev.arg2)) (λ m' r. (v, r))))

  pub sys_getrlimit-Kept : OnOk (sys_getrlimit host ev b m) (Kept m)
  unfolding sys_getrlimit
  sys_getrlimit-Kept =
      OnOk-bind (ok_or (limit_of ev.arg0) _) _ (Kept m)
        (λ cur e. write-Kept host ev b m v ev.arg1 (to_le 8 cur ++ to_le 8 cur) (pos 0))

  pub sys_prlimit64-Kept : OnOk (sys_prlimit64 host ev b m) (Kept m)
  unfolding sys_prlimit64
  sys_prlimit64-Kept =
      OnOk-if (ev.arg0 == 0 && ev.arg2 == 0) _ (ok (pos 0, b, m)) (Kept m)
        (OnOk-bind (ok_or (limit_of ev.arg1) _) _ (Kept m)
          (λ cur e. write-Kept host ev b m v ev.arg3 (to_le 8 cur ++ to_le 8 cur) (pos 0)))
        (v, here)

  pub sys_brk-Kept : OnOk (sys_brk ev b m) (Kept m)
  unfolding sys_brk
  sys_brk-Kept = elim (Bool-cases (ev.arg0 == 0)) [
    | inl e ↦ rw e (v, here)
    | inr e ↦ rw e (elim (Bool-cases (ltb b.heap_end ev.arg0)) [
      | inl far ↦ rw far (v, here)
      | inr near ↦
          rw near
            (same_files b (record b { current_brk = ev.arg0 }) refl refl (ground arith) v, here)
    ])
  ]

  pub sys_getrandom-Kept : OnOk (sys_getrandom host ev b m) (Kept m)
  unfolding sys_getrandom
  sys_getrandom-Kept =
      write-Kept host ev b m v ev.arg0 (random_bytes ev.arg0 0 ev.arg1) (signed64 ev.arg1)

  pub sys_sigprocmask-Kept : OnOk (sys_sigprocmask host ev b m) (Kept m)
  unfolding sys_sigprocmask
  sys_sigprocmask-Kept =
      OnOk-if (ev.arg2 == 0) (ok (pos 0, b, m)) _ (Kept m) (v, here)
        (write-Kept host ev b m v ev.arg2 (replicate 128 0) (pos 0))

  pub sys_clock_gettime-Kept : OnOk (sys_clock_gettime host ev b m) (Kept m)
  unfolding sys_clock_gettime
  sys_clock_gettime-Kept = OnOk-bind (ok_or host.now _) _ (Kept m) (λ now e.
      write-Kept host ev b m v ev.arg1 (to_le 8 now.0 ++ to_le 4 now.1 ++ replicate 4 0) (pos 0))

  pub sys_write-Kept : OnOk (sys_write ev b m) (Kept m)
  unfolding sys_write
  sys_write-Kept =
      OnOk-bind (require (not (not (ev.arg0 == 1) && not (ev.arg0 == 2))) _) _ (Kept m) (λ t e.
        OnOk-bind (read m ev.arg1 ev.arg2) _ (Kept m)
          (λ bytes e'. (same_files b (write_all b bytes) refl refl v.heap v, here)))

  pub sys_get_fs-Kept : OnOk (sys_get_fs host ev b m) (Kept m)
  unfolding sys_get_fs
  sys_get_fs-Kept =
      OnOk-bind (ok_or b.fs_base _) _ (Kept m)
        (λ fs e. write-Kept host ev b m v ev.arg1 (to_le 8 fs) (pos 0))

  pub sys_writev-Kept : OnOk (sys_writev ev b m) (Kept m)
  unfolding sys_writev
  sys_writev-Kept =
      OnOk-bind (require (not (not (ev.arg0 == 1) && not (ev.arg0 == 2))) _) _ (Kept m) (λ t e.
        OnOk-chain (write_vectors m ev.arg1 0 0 b ev.arg2) _ (λ r. IsValid r.1) (Kept m)
          (write_vectors-IsValid m ev.arg1 0 0 b ev.arg2 v) (λ r w. (w, here)))

  pub sys_set_fs-Kept : OnOk (sys_set_fs host ev b m) (Kept m)
  unfolding sys_set_fs
  sys_set_fs-Kept =
      let fs = ev.arg1 in
      OnOk-chain (ensure_slots fs m) _ (Reach m) (Kept m) (ensure_slots-Moves fs m) (λ m₁ r₁.
        OnOk-chain (place_image host fs b.elf_tls m₁) _ (Reach m) (Kept m)
          (continue _ r₁ (place_image-Moves host fs b.elf_tls m₁))
          (λ m₂ r₂.
            OnOk-chain (place_locale host fs b.tls_locale m₂) _ (Reach m) (Kept m)
              (continue _ r₂ (place_locale-Moves host fs b.tls_locale m₂))
              (λ m₃ r₃.
                OnOk-chain (place_guards host fs b m₃) _ (Reach m) (Kept m)
                  (continue _ r₃ (place_guards-Moves host fs b m₃))
                  (λ m₄ r₄.
                    OnOk-chain (handle ev b) _ (λ r. IsValid r.1) (Kept m) (handle-IsValid ev b v)
                      (λ r w. (w, r₄))))))

  pub without_memory-Kept : OnOk (without_memory ev b m) (Kept m)
  without_memory-Kept =
      OnOk-chain (handle ev b) _ (λ r. IsValid r.1) (Kept m) (handle-IsValid ev b v)
        (λ r w. (w, here))

  pub mmap_anonymous-Kept : OnOk (mmap_anonymous ev b m) (Kept m)
  unfolding mmap_anonymous
  mmap_anonymous-Kept =
      OnOk-bind (require (has ev.arg3 2 && (has ev.arg3 32 && (anonymous_fd ev && ev.arg5 == 0))) _)
        _ (Kept m)
        (λ t e. OnOk-bind (require (ltb ev.arg2 8) _) _ (Kept m) (λ t' e'.
          OnOk-chain (mmap_anonymous_private_topdown m ev.arg1 (perm_of ev.arg2)) _
            (λ r. Reach m r.1) (Kept m) (mmap-Moves m ev.arg1 (perm_of ev.arg2)) (λ r s. (v, s))))
