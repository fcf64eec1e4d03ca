-- ===== src/Bridge/Breaks.antt =====
-- The program break of crates/daoti-core/src/elf/syscall_bridge.rs over several `brk` calls.
use yl.Prelude.{
  ℕ, ◌≡◌, refl, inl, inr, arith, List, [], ◌∷◌, map, All, leb, ltb, ◌&&◌, ◌==◌, if◌then◌else◌,
  Bool-cases, ok,
}
use yl.Prelude.Int.{signed64}
use yl.Memory.{MemoryModel}
use yl.Bridge.{Host, RuntimeSyscallEvent, NativeSyscallBridge}
use yl.Bridge.Replies.{sys_brk}
use yl.Bridge.Dispatch.{handle_late, handle_middle, handle_with_memory, run_calls}

-- The break after a request: the requested address, if it is one inside the heap.
abbrev pub break_after : ℕ → ℕ → ℕ → ℕ
break_after heap_end old address = if ltb 0 address && leb address heap_end then address else old

-- The breaks after each of several requests.
unfoldable pub breaks : ℕ → ℕ → List ℕ → List ℕ
breaks heap_end old [] = []
breaks heap_end old (address ∷ more) =
    let now = break_after heap_end old address in now ∷ breaks heap_end now more

-- The last of them, or the break of before.
unfoldable pub last_break : ℕ → ℕ → List ℕ → ℕ
last_break heap_end old [] = old
last_break heap_end old (address ∷ more) =
    last_break heap_end (break_after heap_end old address) more

brk_once :
    (host : Host) (ev : RuntimeSyscallEvent) (b : NativeSyscallBridge) (m : MemoryModel)
    → ev.nr ≡ 12
    → handle_with_memory host ev b m
      ≡ ok (
        signed64 (break_after b.heap_end b.current_brk ev.arg0),
        record b { current_brk = break_after b.heap_end b.current_brk ev.arg0 },
        m,
      )
unfolding handle_with_memory handle_middle handle_late sys_brk
brk_once host ev b m nr = rw nr (elim (Bool-cases (ev.arg0 == 0)) [
  | inl e ↦ ground arith
  | inr e ↦ elim (Bool-cases (ltb b.heap_end ev.arg0)) [
    | inl far ↦ ground arith
    | inr near ↦ ground arith
  ]
])

-- The addresses that the calls ask for.
abbrev pub requested : List (Host × RuntimeSyscallEvent) → List ℕ
requested calls = map (λ call. call.1.arg0) calls

-- Any run of `brk` calls, whatever stands in their other arguments, succeeds, leaves the memory and
-- the rest of the bridge alone, and each call returns the break that holds after it: the requested
-- address, where it is not 0 and at most the end of the heap, and otherwise the break of before.
pub run_calls-breaks :
    (calls : List (Host × RuntimeSyscallEvent)) (b : NativeSyscallBridge) (m : MemoryModel)
    → All (λ call. call.1.nr ≡ 12) calls
    → run_calls calls b m
      ≡ ok (
        map signed64 (breaks b.heap_end b.current_brk (requested calls)),
        record b { current_brk = last_break b.heap_end b.current_brk (requested calls) },
        m,
      )
unfolding run_calls breaks last_break
run_calls-breaks [] b m nrs = refl
run_calls-breaks (call ∷ more) b m nrs =
    let now = break_after b.heap_end b.current_brk call.1.arg0 in
    let once = brk_once call.0 call.1 b m nrs.0 in
    rw once (rw (run_calls-breaks more (record b { current_brk = now }) m nrs.1) refl)
