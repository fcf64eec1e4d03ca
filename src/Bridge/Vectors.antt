-- ===== src/Bridge/Vectors.antt =====
-- `writev` of crates/daoti-core/src/elf/syscall_bridge.rs against the `write` calls that it stands for.
use yl.Prelude.{
  ℕ, zero, suc, ◌+◌, ◌*◌, ◌≡◌, refl, sym, ap, ◌∙◌, inl, inr, arith, Bool, true, ◌&&◌, not, List, [],
  ◌∷◌, map, ◌==◌, length, take, drop, ok, add_u64, OnOk, OnOk-bind, OnOk-chain, OnOk-weaken,
  Bool-cases, ltb, u64_mod,
}
use yl.Prelude.Bytes.{from_le}
use yl.Prelude.Int.{signed64}
use yl.Memory.{MemoryModel, read}
use yl.Bridge.{Host, RuntimeSyscallEvent, NativeSyscallBridge}
use yl.Bridge.Output.{write_all, sys_write, write_vectors, sys_writev}
use yl.Bridge.Dispatch.{handle_late, handle_middle, handle_with_memory, run_calls}

-- The call `write(fd, address, size)`.
abbrev pub write_call : ℕ → ℕ × ℕ → RuntimeSyscallEvent
write_call fd v = record { nr = 1; arg0 = fd; arg1 = v.0; arg2 = v.1; arg3 = 0; arg4 = 0; arg5 = 0 }

-- The vectors that stand in memory from the `i`th place at `base` on: an address and a size each.
abbrev pub Listed : MemoryModel → ℕ → ℕ → List (ℕ × ℕ) → Type 0
Listed m base i [] = Unit
Listed m base i (v ∷ vs) =
    ((raw : List ℕ) × (read m (base + i * 16) 16 ≡ ok raw)
      × (from_le (take 8 raw) ≡ v.0)
      × (from_le (drop 8 raw) ≡ v.1))
    × Listed m base (suc i) vs

unfoldable pub total_of : List (ℕ × ℕ) → ℕ
total_of [] = 0
total_of (v ∷ vs) = v.1 + total_of vs

-- What a `writev` did: `count` vectors, and the calls of `write` that do the same.
pub record AsWrites (host : Host) (fd : ℕ) (m : MemoryModel) (base i count : ℕ)
    (b : NativeSyscallBridge) (total : ℕ) (b' : NativeSyscallBridge) : Type 0 where
  pub vectors : List (ℕ × ℕ)
  pub counted : length vectors ≡ count
  pub listed : Listed m base i vectors
  pub summed : total ≡ total_of vectors
  pub same :
      run_calls (map (λ v. (host, write_call fd v)) vectors) b m
      ≡ ok (map (λ (v : ℕ × ℕ). signed64 v.1) vectors, b', m)

-- Standard output or standard error.
abbrev pub is_output : ℕ → Bool
is_output fd = not (not (fd == 1) && not (fd == 2))

write_once :
    (host : Host) (fd : ℕ) (v : ℕ × ℕ) (b : NativeSyscallBridge) (m : MemoryModel) (bytes : List ℕ)
    → is_output fd ≡ true
    → read m v.0 v.1 ≡ ok bytes
    → handle_with_memory host (write_call fd v) b m ≡ ok (signed64 v.1, write_all b bytes, m)
unfolding handle_with_memory handle_middle handle_late sys_write
write_once host fd v b m bytes out r = rw (out, r) refl

added : (a b : ℕ) → OnOk (add_u64 a b) (λ c. c ≡ a + b)
added a b = elim (Bool-cases (ltb (a + b) u64_mod)) [ inl e ↦ rw e refl | inr e ↦ rw e tt ]

one_more :
    (host : Host) (fd : ℕ) (m : MemoryModel) (base i count : ℕ) (b : NativeSyscallBridge)
    (v : ℕ × ℕ) (raw bytes : List ℕ) {total : ℕ} {b' : NativeSyscallBridge}
    → is_output fd ≡ true
    → read m (base + i * 16) 16 ≡ ok raw
    → from_le (take 8 raw) ≡ v.0
    → from_le (drop 8 raw) ≡ v.1
    → read m v.0 v.1 ≡ ok bytes
    → AsWrites host fd m base (suc i) count (write_all b bytes) total b'
    → AsWrites host fd m base i (suc count) b (v.1 + total) b'
unfolding run_calls total_of
one_more host fd m base i count b v raw bytes out at place size r w = record {
  vectors = v ∷ w.vectors;
  counted = ap suc w.counted;
  listed = ((raw, at, place, size), w.listed);
  summed = ap (λ n. v.1 + n) w.summed;
  same = rw (write_once host fd v b m bytes out r) (rw w.same refl);
}

write_vectors-AsWrites :
    (host : Host) (fd : ℕ) (m : MemoryModel) (base i total count : ℕ) (b : NativeSyscallBridge)
    → is_output fd ≡ true
    → OnOk
        (write_vectors m base i total b count)
        (λ r. (n : ℕ) × (r.0 ≡ total + n) × AsWrites host fd m base i count b n r.1)
unfolding write_vectors run_calls total_of
write_vectors-AsWrites host fd m base i total zero b out = (
  0,
  omega arith,
  record { vectors = []; counted = refl; listed = tt; summed = refl; same = refl },
)
write_vectors-AsWrites host fd m base i total (suc count) b out =
    OnOk-chain (add_u64 base (i * 16)) _ (λ c. c ≡ base + i * 16) P (added base (i * 16))
      (λ address at. OnOk-bind (read m address 16) _ P (λ raw r.
        let v : ℕ × ℕ = (from_le (take 8 raw), from_le (drop 8 raw)) in
        OnOk-bind (read m v.0 v.1) _ P (λ bytes s.
          OnOk-chain (add_u64 total v.1) _ (λ c. c ≡ total + v.1) P (added total v.1)
            (λ total' t.
              OnOk-weaken
                (λ q.
                  (n : ℕ) × (q.0 ≡ total' + n)
                  × AsWrites host fd m base (suc i) count (write_all b bytes) n q.1)
                P (write_vectors m base (suc i) total' (write_all b bytes) count)
                (λ q h. (
                  v.1 + h.0,
                  omega (arith, h.1, t),
                  one_more host fd m base i count b v raw bytes out
                      (ap (λ a. read m a 16) (sym at) ∙ r) refl refl s h.2,
                ))
                (write_vectors-AsWrites host fd m base (suc i) total' count (write_all b bytes)
                  out)))))
  where
    P : ℕ × NativeSyscallBridge → Type 0
    P r = (n : ℕ) × (r.0 ≡ total + n) × AsWrites host fd m base i (suc count) b n r.1

-- A `writev` to standard output or standard error that succeeds does the same to the bridge, the
-- output included, as one `write` for each of the vectors that stand in memory at its address, in
-- their order; it returns the sum of their sizes and leaves the memory alone.
pub sys_writev-AsWrites :
    (host : Host) (ev : RuntimeSyscallEvent) (b : NativeSyscallBridge) (m : MemoryModel)
    → ev.nr ≡ 20
    → OnOk (handle_with_memory host ev b m) (λ r.
      (total : ℕ) × (r.0 ≡ signed64 total)
      × AsWrites host ev.arg0 m ev.arg1 0 ev.arg2 b total r.1
      × (r.2 ≡ m))
unfolding handle_with_memory handle_middle handle_late sys_writev
sys_writev-AsWrites host ev b m nr = rw nr (elim (Bool-cases (is_output ev.arg0)) [
  | inr e ↦ rw e tt
  | inl e ↦ rw e (
      OnOk-chain (write_vectors m ev.arg1 0 0 b ev.arg2) _
        (λ r. (n : ℕ) × (r.0 ≡ 0 + n) × AsWrites host ev.arg0 m ev.arg1 0 ev.arg2 b n r.1) _
        (write_vectors-AsWrites host ev.arg0 m ev.arg1 0 0 ev.arg2 b e)
        (λ r h. let same : r.0 ≡ h.0 = omega (arith, h.1) in (h.0, ap signed64 same, h.2, refl)))
])
