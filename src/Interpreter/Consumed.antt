-- ===== src/Interpreter/Consumed.antt =====
-- How many bytes `resolve_dst` of crates/daoti-core/src/elf/runtime.rs takes from an instruction.
use yl.Prelude.{
  String, ℕ, ◌+◌, ◌%◌, ◌≤◌, ◌<◌, ◌≡◌, refl, inl, inr, arith, Bool, false, not, ◌&&◌, Option, some,
  List, ltb, leb, ◌==◌, if◌then◌else◌, Bool-cases, length, get_or, u64_mod, add_u64, OnOk,
  OnOk-bind, OnOk-chain, OnOk-if, OnSome,
}
use yl.Interpreter.{reg, has, extended}
use yl.Interpreter.Operand.{
  Cpu, seg_addr, disp32, disp8, sib_base, sib_index, sib_disp, index_value, sib_addr, sib_target,
  resolve_sib, base_disp, resolve_dst,
}

-- The bytes of a displacement; `wide` says whether the mode 0 has one.
abbrev disp_size : ℕ → Bool → ℕ
disp_size mod_ wide =
    if mod_ == 0
    then (if wide then 4 else 0)
    else (if mod_ == 0x40 then 1 else (if mod_ == 0x80 then 4 else 0))

-- The bytes behind the ModR/M byte that belong to the operand; `sib` is the first of them.
abbrev pub operand_size : ℕ → ℕ → ℕ → ℕ
operand_size mod_ rm sib =
    if mod_ == 0xc0
    then 0
    else (if rm == 4 then 1 + disp_size mod_ (sib_base sib == 5) else disp_size mod_ (rm == 5))

-- The end of the operand: `size` bytes behind `p`, and inside the instruction.
abbrev Ends : List ℕ → ℕ → ℕ → ℕ → Type 0
Ends bytes p size stop = (stop ≡ p + size) × (p ≤ length bytes → stop ≤ length bytes)

disp32-Ends :
    (truncated : String) (bytes : List ℕ) (p : ℕ)
    → OnOk (disp32 truncated bytes p) (λ r. Ends bytes p 4 r.1)
unfolding disp32
disp32-Ends truncated bytes p = elim (Bool-cases (leb (p + 4) (length bytes))) [
  | inr e ↦ rw e tt
  | inl e ↦ let fits : p + 4 ≤ length bytes = ground arith in rw e (refl, λ l. fits)
]

disp8-Ends : (bytes : List ℕ) (p : ℕ) → OnOk (disp8 bytes p) (λ r. Ends bytes p 1 r.1)
unfolding disp8
disp8-Ends bytes p = elim (Bool-cases (ltb p (length bytes))) [
  | inr e ↦ rw e tt
  | inl e ↦ let fits : p < length bytes = ground arith in rw e (refl, λ l. omega arith)
]

base_disp-Ends :
    (mod_ : ℕ) (bytes : List ℕ) (p : ℕ)
    → OnOk (base_disp mod_ bytes p) (λ r. Ends bytes p (disp_size mod_ false) r.1)
unfolding base_disp
base_disp-Ends mod_ bytes p = elim (Bool-cases (mod_ == 0)) [
  | inl e ↦ rw e (omega arith, λ l. l)
  | inr e ↦ rw e (elim (Bool-cases (mod_ == 0x40)) [
    | inl f ↦ rw f (disp8-Ends bytes p)
    | inr f ↦ rw f (elim (Bool-cases (mod_ == 0x80)) [
      | inl g ↦ rw g (disp32-Ends _ bytes p)
      | inr g ↦ rw g tt
    ])
  ])
]

sib_disp-Ends :
    (mod_ sib : ℕ) (bytes : List ℕ) (p : ℕ)
    → OnOk (sib_disp mod_ sib bytes p) (λ r. Ends bytes p (disp_size mod_ (sib_base sib == 5)) r.1)
unfolding sib_disp
sib_disp-Ends mod_ sib bytes p = elim (Bool-cases (mod_ == 0)) [
  | inl e ↦ rw e (elim (Bool-cases (sib_base sib == 5)) [
    | inl f ↦ rw f (disp32-Ends _ bytes p)
    | inr f ↦ rw f (omega arith, λ l. l)
  ])
  | inr e ↦ rw e (elim (Bool-cases (mod_ == 0x40)) [
    | inl f ↦ rw f (disp8-Ends bytes p)
    | inr f ↦ rw f (elim (Bool-cases (mod_ == 0x80)) [
      | inl g ↦ rw g (disp32-Ends _ bytes p)
      | inr g ↦ rw g tt
    ])
  ])
]

seg_addr_lt : (c : Cpu) (x : ℕ) → seg_addr c (x % u64_mod) < u64_mod
seg_addr_lt c x = elim (Bool-cases c.fs_override) [
  | inl e ↦ rw e (omega arith)
  | inr e ↦ rw e (omega arith)
]

-- What a resolved operand satisfies.
abbrev pub Taken : List ℕ → ℕ → ℕ → ℕ × Option ℕ × ℕ → Type 0
Taken bytes p size r =
    (r.2 ≡ p + size) × (p ≤ length bytes → r.2 ≤ length bytes) × OnSome r.1 (λ addr. addr < u64_mod)

sib_addr_lt :
    (c : Cpu) (sib rex disp : ℕ)
    → OnOk (sib_addr c sib rex disp) (λ addr. (x : ℕ) × (addr ≡ x % u64_mod))
unfolding sib_addr
sib_addr_lt c sib rex disp =
    OnOk-bind (index_value c sib rex (sib_index sib == 4 && not (has rex 2))) _ _ (λ index e.
      OnOk-bind (reg c.general (extended (sib_base sib) (has rex 1))) _ _
        (λ base e'. ((base + index) % u64_mod + disp, refl)))

sib_target_lt :
    (c : Cpu) (mod_ sib rex disp : ℕ)
    → OnOk (sib_target c mod_ sib rex disp) (λ addr. (x : ℕ) × (addr ≡ x % u64_mod))
unfolding sib_target
sib_target_lt c mod_ sib rex disp =
    OnOk-if (mod_ == 0 && sib_base sib == 5) _ (sib_addr c sib rex disp) _
      (OnOk-bind (index_value c sib rex (sib_index sib == 4)) _ _ (λ index g. (index + disp, refl)))
      (sib_addr_lt c sib rex disp)

resolve_sib-Taken :
    (c : Cpu) (mod_ rex : ℕ) (bytes : List ℕ) (p : ℕ)
    → OnOk
        (resolve_sib c mod_ rex bytes p)
        (Taken bytes p (1 + disp_size mod_ (sib_base (get_or bytes p 0) == 5)))
unfolding resolve_sib
resolve_sib-Taken c mod_ rex bytes p = elim (Bool-cases (ltb p (length bytes))) [
  | inr e ↦ rw e tt
  | inl e ↦
      let sib = get_or bytes p 0 in
      let size = disp_size mod_ (sib_base sib == 5) in
      let inside : p < length bytes = ground arith in
      let P : ℕ × Option ℕ × ℕ → Type 0 = Taken bytes p (1 + size) in
      let finish : (r : ℕ × ℕ)
          → Ends bytes (p + 1) size r.1
          → (addr : ℕ) → ((x : ℕ) × (addr ≡ x % u64_mod))
          → P (0, some (seg_addr c addr), r.1) =
        λ r d addr x. (omega (arith, d.0), λ l. d.1 (omega arith), rw (x.1) (seg_addr_lt c x.0)) in
      rw e (
        OnOk-chain (sib_disp mod_ sib bytes (p + 1)) _ (λ r. Ends bytes (p + 1) size r.1) P
          (sib_disp-Ends mod_ sib bytes (p + 1))
          (λ r d.
            OnOk-chain (sib_target c mod_ sib rex r.0) _ (λ addr. (x : ℕ) × (addr ≡ x % u64_mod)) P
              (sib_target_lt c mod_ sib rex r.0) (λ addr x. finish r d addr x)))
]

-- An operand that is resolved takes exactly the bytes that its mode, its register field and its SIB
-- byte call for, all of them inside the instruction, and an address that it gives is a 64-bit word.
pub resolve_dst-Taken :
    (c : Cpu) (mod_ rm rex : ℕ) (bytes : List ℕ) (p : ℕ)
    → OnOk
        (resolve_dst c mod_ rm rex bytes p)
        (Taken bytes p (operand_size mod_ rm (get_or bytes p 0)))
unfolding resolve_dst
resolve_dst-Taken c mod_ rm rex bytes p = elim (Bool-cases (mod_ == 0xc0)) [
  | inl e ↦ rw e (omega arith, λ l. l, tt)
  | inr e ↦ elim (Bool-cases (mod_ == 0 && rm == 5)) [
    | inl f ↦
        let still : mod_ ≡ 0 = ground arith in
        let pc : rm ≡ 5 = ground arith in
        rw still (
          rw pc (
            OnOk-chain (disp32 _ bytes p) _ (λ r. Ends bytes p 4 r.1) (Taken bytes p 4)
              (disp32-Ends _ bytes p)
              (λ r d.
                OnOk-bind (add_u64 c.general.rip r.1) _ (Taken bytes p 4)
                  (λ next g. (d.0, d.1, seg_addr_lt c (next + r.0))))))
    | inr f ↦ elim (Bool-cases (rm == 4)) [
      | inl g ↦ rw (e, f, g) (resolve_sib-Taken c mod_ rex bytes p)
      | inr g ↦
          let size : disp_size mod_ (rm == 5) ≡ disp_size mod_ false = ground arith in
          rw (e, f, g)
            (rw size (
              OnOk-bind (reg c.general (extended rm (has rex 1))) _ _ (λ base h.
                OnOk-chain (base_disp mod_ bytes p) _ (λ r. Ends bytes p (disp_size mod_ false) r.1)
                  _ (base_disp-Ends mod_ bytes p) (λ r d. (d.0, d.1, seg_addr_lt c (base + r.0))))))
    ]
  ]
]
