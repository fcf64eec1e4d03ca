-- ===== src/Elf/Dynamic/Plan/Needed.antt =====
-- The library names that `plan_dynamic_load` of crates/daoti-core/src/elf/mod.rs collects.
use yl.Prelude.{
  ℕ, ◌≡◌, inl, inr, arith, false, List, [], ◌∷◌, ◌++◌, Bool-cases, Option-cases, any, All,
  All-append, Pairwise, OnOk, OnOk-bind,
}
use yl.Elf.{ElfSegment}
use yl.Elf.Dynamic.{ElfDynamicEntry}
use yl.Elf.Relocation.{same_name}
use yl.Elf.Dynamic.Plan.{is_tag, value_for, read_dynamic_string, read_needed, needed_names}

-- Two names of a list are different.
abbrev pub Differ : List ℕ → List ℕ → Type 0
Differ a b = same_name a b ≡ false

none_same :
    (name : List ℕ) (items : List (List ℕ))
    → any (λ item. same_name item name) items ≡ false
    → All (λ item. All (Differ item) (name ∷ [])) items
none_same name [] e = tt
none_same name (item ∷ items) e =
    let here : same_name item name ≡ false = ground arith in
    let rest : any (λ item. same_name item name) items ≡ false = ground arith in
    ((here, tt), none_same name items rest)

Differ-snoc :
    (items : List (List ℕ)) (name : List ℕ)
    → All (λ item. All (Differ item) (name ∷ [])) items
    → Pairwise Differ items
    → Pairwise Differ (items ++ name ∷ [])
Differ-snoc [] name a p = (tt, tt)
Differ-snoc (item ∷ items) name a p =
    (All-append (Differ item) items (name ∷ []) p.0 a.0, Differ-snoc items name a.1 p.1)

read_needed-Differ :
    (bytes : List ℕ) (segments : List ElfSegment) (strtab : ℕ) (needed : List (List ℕ))
    (es : List ElfDynamicEntry)
    → Pairwise Differ needed
    → OnOk (read_needed bytes segments strtab needed es) (Pairwise Differ)
unfolding read_needed
read_needed-Differ bytes segments strtab needed [] p = p
read_needed-Differ bytes segments strtab needed (e ∷ es) p = elim (Bool-cases (is_tag 1 e)) [
  | inr n ↦ rw (n, read_needed) (read_needed-Differ bytes segments strtab needed es p)
  | inl y ↦
      rw (y, read_needed)
        (OnOk-bind (read_dynamic_string bytes segments strtab e.value) _ (Pairwise Differ)
          (λ name d. elim (Bool-cases (any (λ item. same_name item name) needed)) [
            | inl known ↦ rw known (read_needed-Differ bytes segments strtab needed es p)
            | inr fresh ↦ rw fresh (
                read_needed-Differ bytes segments strtab (needed ++ name ∷ []) es
                  (Differ-snoc needed name (none_same name needed fresh) p))
          ]))
]

pub needed_names-Differ :
    (bytes : List ℕ) (segments : List ElfSegment) (es : List ElfDynamicEntry)
    → OnOk (needed_names bytes segments es) (Pairwise Differ)
unfolding needed_names
needed_names-Differ bytes segments es = elim (Option-cases (value_for es 5)) [
  | inl n ↦ rw (n, needed_names) tt
  | inr (strtab, e) ↦ rw (e, needed_names) (read_needed-Differ bytes segments strtab [] es tt)
]
