-- ===== src/Bridge/Unknown.antt =====
-- The calls that crates/daoti-core/src/elf/syscall_bridge.rs does not know.
use yl.Prelude.{
  ℕ, ◌≡◌, refl, arith, Bool, true, false, none, List, [], ◌∷◌, ◌==◌, any, err, unavailable,
}
use yl.Memory.{MemoryModel}
use yl.Bridge.{Host, RuntimeSyscallEvent, NativeSyscallBridge, handle, handle_other, constant_reply}
use yl.Bridge.Dispatch.{handle_late, handle_middle, handle_with_memory}

-- The numbers of the calls that are handled.
abbrev pub known_calls : List ℕ
known_calls =
    0 ∷ 1 ∷ 3 ∷ 5 ∷ 9 ∷ 10 ∷ 12 ∷ 13 ∷ 14 ∷ 16 ∷ 17 ∷ 20 ∷ 21 ∷ 28 ∷ 39 ∷ 60 ∷ 89 ∷ 117 ∷ 158 ∷ 163
    ∷ 186 ∷ 200 ∷ 202 ∷ 203 ∷ 204 ∷ 218 ∷ 228 ∷ 231 ∷ 234 ∷ 257 ∷ 262 ∷ 273 ∷ 274 ∷ 302 ∷ 318 ∷ 334
    ∷ []

abbrev pub is_known : ℕ → Bool
is_known nr = any (λ k. nr == k) known_calls

-- A number that is not in the list is none of its members.
not_among :
    (ks : List ℕ) (nr k : ℕ)
    → any (λ j. nr == j) ks ≡ false
    → any (λ j. j == k) ks ≡ true
    → (nr == k) ≡ false
not_among [] nr k e h = absurd (ground arith)
not_among (j ∷ ks) nr k e h = ground (arith, not_among ks nr k)

module _ (ev : RuntimeSyscallEvent) (e : is_known ev.nr ≡ false) where
  no : (k : ℕ) → any (λ j. j == k) known_calls ≡ true → (ev.nr == k) ≡ false
  no k = not_among known_calls ev.nr k e

  constant_reply-unknown : constant_reply ev.nr ≡ none
  unfolding constant_reply
  constant_reply-unknown =
      rw
        (
          no 10 refl,
          no 28 refl,
          no 228 refl,
          no 203 refl,
          no 13 refl,
          no 14 refl,
          no 273 refl,
          no 274 refl,
          no 302 refl,
          no 21 refl,
          no 89 refl,
          no 204 refl,
          no 186 refl,
          no 39 refl,
          no 334 refl,
        )
        refl

  handle_other-unknown :
      (b : NativeSyscallBridge)
      → handle_other ev b ≡ err (unavailable "未支持的 Linux syscall：{}" (ev.nr ∷ []))
  unfolding handle_other
  handle_other-unknown b =
      rw
        (
          no 60 refl,
          no 231 refl,
          no 117 refl,
          no 200 refl,
          no 234 refl,
          no 16 refl,
          no 202 refl,
          no 218 refl,
          no 158 refl,
        )
        refl

  handle-unknown :
      (b : NativeSyscallBridge)
      → handle ev b ≡ err (unavailable "未支持的 Linux syscall：{}" (ev.nr ∷ []))
  unfolding handle
  handle-unknown b = rw (constant_reply-unknown, handle) (handle_other-unknown b)

-- A call with any other number than the handled ones is an error that names the number, whatever its
-- arguments and the state.
pub handle_with_memory-unknown :
    (host : Host) (ev : RuntimeSyscallEvent) (b : NativeSyscallBridge) (m : MemoryModel)
    → is_known ev.nr ≡ false
    → handle_with_memory host ev b m ≡ err (unavailable "未支持的 Linux syscall：{}" (ev.nr ∷ []))
unfolding handle_with_memory handle_middle handle_late
handle_with_memory-unknown host ev b m e =
    rw
      (
        no ev e 21 refl,
        no ev e 257 refl,
        no ev e 3 refl,
        no ev e 0 refl,
        no ev e 17 refl,
        no ev e 5 refl,
        no ev e 262 refl,
        no ev e 10 refl,
        no ev e 158 refl,
        no ev e 202 refl,
        no ev e 9 refl,
        no ev e 163 refl,
        no ev e 302 refl,
        no ev e 12 refl,
        no ev e 318 refl,
        no ev e 14 refl,
        no ev e 228 refl,
        no ev e 20 refl,
        no ev e 1 refl,
      )
      (rw (handle-unknown ev e b) refl)
