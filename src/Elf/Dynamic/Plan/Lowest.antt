-- ===== src/Elf/Dynamic/Plan/Lowest.antt =====
-- The lowest loadable header that `plan_dynamic_load` of crates/daoti-core/src/elf/mod.rs finds.
use yl.Prelude.{
  ℕ, zero, suc, ◌+◌, ◌*◌, ◌≤◌, ◌<◌, ◌≡◌, ◌⊎◌, refl, inl, inr, arith, true, false, not, DaotiError,
  ◌-◌, List, leb, ◌==◌, Bool-cases, length, min, ok, require, ok_or, checked_add, u64_mod, OnOk,
  OnOk-bind, OnOk-chain, OnOk-weaken, OnOk-apply, sym, ◌∙◌, ap,
}
use yl.Elf.Parse.{word}
use yl.Elf.Dynamic.Plan.{Headers, read_interpreter, read_program_header, read_program_headers}

-- A loadable program header at `off`, for memory at `vaddr`.
abbrev pub LoadAt : List ℕ → ℕ → ℕ → Type 0
LoadAt bytes off vaddr = (word 4 bytes off ≡ ok 1) × (word 8 bytes (off + 16) ≡ ok vaddr)

-- `lowest` is the lowest address of a loadable header in the table of a 64-bit file.
pub record Lowest (bytes : List ℕ) (lowest : ℕ) : Type 0 where
  pub phoff : ℕ
  pub phnum : ℕ
  pub offset_field : word 8 bytes 32 ≡ ok phoff
  pub count_field : word 2 bytes 56 ≡ ok phnum
  pub below : (i vaddr : ℕ) → i < phnum → LoadAt bytes (phoff + i * 56) vaddr → lowest ≤ vaddr
  pub index : ℕ
  pub inside : index < phnum
  pub reached : LoadAt bytes (phoff + index * 56) lowest

-- What one header does to the lowest address.
record Step (bytes : List ℕ) (off : ℕ) (h h' : Headers) : Type 0 where
  falls : h'.lowest ≤ h.lowest
  below : (vaddr : ℕ) → LoadAt bytes off vaddr → h'.lowest ≤ vaddr
  origin : (h'.lowest ≡ h.lowest) ⊎ LoadAt bytes off h'.lowest

-- A header that is not loadable.
other-Step :
    (bytes : List ℕ) (off tag : ℕ) (h h' : Headers)
    → word 4 bytes off ≡ ok tag
    → (tag == 1) ≡ false
    → h'.lowest ≡ h.lowest
    → Step bytes off h h'
other-Step bytes off tag h h' e ne same = record {
  falls = omega (arith, same);
  below = (λ vaddr load. absurd (ground (arith, load.0, e, ne)));
  origin = inl same;
}

load-Step :
    (bytes : List ℕ) (off tag vaddr : ℕ) (h h' : Headers)
    → word 4 bytes off ≡ ok tag
    → word 8 bytes (off + 16) ≡ ok vaddr
    → (tag == 1) ≡ true
    → h'.lowest ≡ min h.lowest vaddr
    → Step bytes off h h'
load-Step bytes off tag vaddr h h' et ev e least =
    let one : tag ≡ 1 = ground arith in
    let tagged : word 4 bytes off ≡ ok 1 = et ∙ ap (λ (n : ℕ). ok n) one in
    record {
      falls = omega (arith, least);
      below = (λ other_vaddr load.
          let same : vaddr ≡ other_vaddr = ground (arith, ev, load.1) in
          omega (arith, least, same));
      origin = elim (Bool-cases (leb h.lowest vaddr)) [
        | inl l ↦ let low : h.lowest ≤ vaddr = ground arith in inl (omega (arith, least, low))
        | inr l ↦
            let low : h'.lowest ≡ vaddr = ground (arith, least) in
            inr (tagged, ev ∙ ap (λ (n : ℕ). ok n) (sym low))
      ];
    }

read_program_header-Step :
    (bytes : List ℕ) (off : ℕ) (h : Headers)
    → OnOk (read_program_header bytes off h) (Step bytes off h)
unfolding read_program_header
read_program_header-Step bytes off h =
    let P = Step bytes off h in
    OnOk-bind (word 4 bytes off) _ P (λ tag et. OnOk-bind (word 8 bytes (off + 8)) _ P (λ offset e₁.
      OnOk-bind (word 8 bytes (off + 16)) _ P (λ vaddr ev.
        OnOk-bind (word 8 bytes (off + 32)) _ P (λ filesz e₃.
          OnOk-bind (word 8 bytes (off + 40)) _ P (λ memsz e₄.
            OnOk-bind (word 8 bytes (off + 48)) _ P (λ align e₅. elim (Bool-cases (tag == 1)) [
              | inl e ↦ rw e (load-Step bytes off tag vaddr h _ et ev e refl)
              | inr e ↦ rw e (elim (Bool-cases (tag == 7)) [
                | inl f ↦ rw f (other-Step bytes off tag h _ et e refl)
                | inr f ↦ rw f (elim (Bool-cases (tag == 2)) [
                  | inl g ↦ rw g (other-Step bytes off tag h _ et e refl)
                  | inr g ↦ rw g (elim (Bool-cases (tag == 3)) [
                    | inl k ↦ rw k (
                        OnOk-bind (read_interpreter bytes offset filesz) _ P
                          (λ name e₆. other-Step bytes off tag h _ et e refl))
                    | inr k ↦ rw k (other-Step bytes off tag h h et e refl)
                  ])
                ])
              ])
            ]))))))

moved :
    (bytes : List ℕ) {off off' vaddr vaddr' : ℕ}
    → off ≡ off'
    → vaddr ≡ vaddr'
    → LoadAt bytes off vaddr
    → LoadAt bytes off' vaddr'
moved bytes p q load = rw (sym p, sym q) load

-- What `left` headers from the `index`th on do to the lowest address.
record Loop (bytes : List ℕ) (phoff index left : ℕ) (h h' : Headers) : Type 0 where
  falls : h'.lowest ≤ h.lowest
  below :
      (i vaddr : ℕ) → i < left → LoadAt bytes (phoff + (index + i) * 56) vaddr → h'.lowest ≤ vaddr
  origin :
      (h'.lowest ≡ h.lowest)
      ⊎ ((i : ℕ) × (i < left) × LoadAt bytes (phoff + (index + i) * 56) h'.lowest)

Loop-suc :
    (bytes : List ℕ) (phoff index left off : ℕ) (h h₁ h' : Headers)
    → off ≡ phoff + index * 56
    → Step bytes off h h₁
    → Loop bytes phoff (suc index) left h₁ h'
    → Loop bytes phoff index (suc left) h h'
Loop-suc bytes phoff index left off h h₁ h' at s l = record {
  falls = omega (arith, s.falls, l.falls);
  below = below;
  origin = elim l.origin [
    | inl same ↦ elim s.origin [
      | inl same' ↦ inl (same ∙ same')
      | inr load ↦ inr (0, omega arith, moved bytes (omega (arith, at)) (sym same) load)
    ]
    | inr (i, less, load) ↦ inr (suc i, omega arith, moved bytes (omega arith) refl load)
  ];
}
  where
    below :
        (i vaddr : ℕ)
        → i < suc left
        → LoadAt bytes (phoff + (index + i) * 56) vaddr
        → h'.lowest ≤ vaddr
    below zero vaddr less load =
        let first = s.below vaddr (moved bytes (omega (arith, at)) refl load) in
        omega (arith, first, l.falls)
    below (suc i) vaddr less load =
        l.below i vaddr (omega (arith, less)) (moved bytes (omega arith) refl load)

read_program_headers-Loop :
    (bytes : List ℕ) (phoff index : ℕ) (h : Headers) (left : ℕ)
    → OnOk (read_program_headers bytes phoff index h left) (Loop bytes phoff index left h)
unfolding read_program_headers
read_program_headers-Loop bytes phoff index h zero = record {
  falls = omega arith;
  below = (λ i vaddr less. absurd (omega (arith, less)));
  origin = inl refl;
}
read_program_headers-Loop bytes phoff index h (suc left) =
    let P = Loop bytes phoff index (suc left) h in
    OnOk-bind (ok_or (checked_add phoff (index * 56)) _) _ P (λ off e₁.
      OnOk-bind (ok_or (checked_add off 56) _) _ P (λ stop e₂.
        OnOk-bind (require (leb stop (length bytes)) _) _ P (λ t e₃.
          OnOk-chain (read_program_header bytes off h) _ (Step bytes off h) P
            (read_program_header-Step bytes off h)
            (λ h₁ s.
              OnOk-weaken (Loop bytes phoff (suc index) left h₁) P
                (read_program_headers bytes phoff (suc index) h₁ left)
                (λ h' l. Loop-suc bytes phoff index left off h h₁ h' (ground (arith, e₁)) s l)
                (read_program_headers-Loop bytes phoff (suc index) h₁ left)))))

-- The loop over the table of a file, from the largest word on.
pub Loop-Lowest :
    (bytes : List ℕ) (phoff phnum : ℕ) (start : Headers) {h : Headers}
    → word 8 bytes 32 ≡ ok phoff
    → word 2 bytes 56 ≡ ok phnum
    → read_program_headers bytes phoff 0 start phnum ≡ ok h
    → (h.lowest == start.lowest) ≡ false
    → Lowest bytes h.lowest
Loop-Lowest bytes phoff phnum start {h} e₁ e₂ run found =
    let l =
      OnOk-apply (Loop bytes phoff 0 phnum start)
        (read_program_headers-Loop bytes phoff 0 start phnum) run in
    elim l.origin [
      | inl same ↦ absurd (ground arith)
      | inr (i, less, load) ↦ record {
        phoff = phoff;
        phnum = phnum;
        offset_field = e₁;
        count_field = e₂;
        below = (λ k vaddr lt load'. l.below k vaddr lt (moved bytes (omega arith) refl load'));
        index = i;
        inside = less;
        reached = moved bytes (omega arith) refl load;
      }
    ]

-- The test behind the loop: some header was loadable.
pub found :
    (h : Headers) (e : DaotiError) (t : Unit {0})
    → require (not (h.lowest == u64_mod - 1)) e ≡ ok t
    → (h.lowest == u64_mod - 1) ≡ false
found h e t passed = ground arith
