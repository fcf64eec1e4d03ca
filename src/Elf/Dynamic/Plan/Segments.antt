-- ===== src/Elf/Dynamic/Plan/Segments.antt =====
-- What a plan of `plan_dynamic_load` in crates/daoti-core/src/elf/mod.rs promises.
use yl.Prelude.{
  ℕ, ◌+◌, ◌-◌, ◌*◌, ◌/◌, ◌%◌, ◌≤◌, ◌<◌, ◌≡◌, refl, sym, ap, ◌∙◌, inl, inr, arith, not, List, [],
  ◌∷◌, ltb, leb, ◌==◌, Bool-cases, length, Pairwise, ok, require, ok_or, checked_add, u64_mod, OnOk,
  OnOk-bind, OnOk-chain, OnOk-weaken,
}
use yl.Elf.{ElfSegment, is_load}
use yl.Elf.Parse.{ElfInfo, word, parse_elf_from_bytes}
use yl.Elf.Layout.{align_up, load_segments}
use yl.Elf.Dynamic.{DynamicLoadSegment, ElfDynamicEntry, DynamicLoadPlan}
use yl.Elf.Dynamic.Plan.Needed.{Differ, needed_names-Differ}
use yl.Elf.Dynamic.Plan.Lowest.{Lowest, Loop-Lowest, found}
use yl.Elf.Dynamic.Plan.{
  Headers, read_program_headers, plan_segment, plan_load_segments, read_entries, plan_jmprel,
  plan_table, needed_names, is_plannable, finish_plan, plan_at, plan_dynamic_load,
}

-- A segment's mapping at a load bias: the smallest run of whole pages around its memory.
pub record Placed (load_bias : ℕ) (s : ElfSegment) (d : DynamicLoadSegment) : Type 0 where
  pub same :
      (d.vaddr ≡ s.vaddr)
      × (d.file_offset ≡ s.offset)
      × (d.file_size ≡ s.filesz)
      × (d.memory_size ≡ s.memsz)
      × (d.flags ≡ s.flags)
  pub whole_pages : (d.mapped_start % 4096 ≡ 0) × (d.mapped_end % 4096 ≡ 0)
  pub starts :
      (d.mapped_start ≤ s.vaddr + load_bias) × (s.vaddr + load_bias < d.mapped_start + 4096)
  pub ends :
      (s.vaddr + load_bias + s.memsz ≤ d.mapped_end)
      × (d.mapped_end < s.vaddr + load_bias + s.memsz + 4096)
  pub fits : d.mapped_end < u64_mod

abbrev pub AllPlaced : ℕ → List ElfSegment → List DynamicLoadSegment → Type 0
AllPlaced load_bias [] [] = Unit
AllPlaced load_bias [] (d ∷ ds) = ⊥
AllPlaced load_bias (s ∷ ss) [] = ⊥
AllPlaced load_bias (s ∷ ss) (d ∷ ds) = Placed load_bias s d × AllPlaced load_bias ss ds

aligned_up :
    (x : ℕ)
    → OnOk
        (align_up x 4096)
        (λ y. (y % 4096 ≡ 0) × (x ≤ y) × (y < x + 4096) × (x < u64_mod → y < u64_mod))
aligned_up x = elim (Bool-cases (x % 4096 == 0)) [
  | inl e ↦
      let whole : x % 4096 ≡ 0 = ground arith in rw e (whole, omega arith, omega arith, λ l. l)
  | inr e ↦ rw e (elim (Bool-cases (ltb (x + (4096 - x % 4096)) u64_mod)) [
    | inl f ↦
        let fits : x + (4096 - x % 4096) < u64_mod = ground arith in
        let some_rest : 0 < x % 4096 = ground arith in
        rw f (omega arith, omega arith, omega (arith, some_rest), λ l. fits)
    | inr f ↦ rw f tt
  ])
]

plan_segment-Placed :
    (load_bias : ℕ) (s : ElfSegment) → OnOk (plan_segment load_bias s) (Placed load_bias s)
unfolding plan_segment
plan_segment-Placed load_bias s = elim (Bool-cases (ltb (s.vaddr + load_bias) u64_mod)) [
  | inr e ↦ rw e tt
  | inl e ↦
      let start = s.vaddr + load_bias in
      rw e (elim (Bool-cases (ltb (start + s.memsz) u64_mod)) [
        | inr f ↦ rw f tt
        | inl f ↦
            let below : start + s.memsz < u64_mod = ground arith in
            rw f (
              OnOk-chain (align_up (start + s.memsz) 4096) _
                (λ y.
                  (y % 4096 ≡ 0)
                  × (start + s.memsz ≤ y)
                  × (y < start + s.memsz + 4096)
                  × (start + s.memsz < u64_mod → y < u64_mod))
                (Placed load_bias s) (aligned_up (start + s.memsz))
                (λ y u. record {
                  same = (refl, refl, refl, refl, refl);
                  whole_pages = (omega arith, u.0);
                  starts = (omega arith, omega arith);
                  ends = (u.1, u.2);
                  fits = u.3 below;
                }))
      ])
]

plan_load_segments-AllPlaced :
    (load_bias : ℕ) (ss : List ElfSegment)
    → OnOk (plan_load_segments load_bias ss) (AllPlaced load_bias (load_segments ss))
unfolding plan_load_segments load_segments
plan_load_segments-AllPlaced load_bias [] = tt
plan_load_segments-AllPlaced load_bias (s ∷ ss) = elim (Bool-cases (is_load s)) [
  | inr e ↦ rw e (plan_load_segments-AllPlaced load_bias ss)
  | inl e ↦ rw e (
      OnOk-chain (plan_segment load_bias s) _ (Placed load_bias s) _
        (plan_segment-Placed load_bias s)
        (λ d placed.
          OnOk-chain (plan_load_segments load_bias ss) _ (AllPlaced load_bias (load_segments ss)) _
            (plan_load_segments-AllPlaced load_bias ss) (λ ds all. (placed, all))))
]

-- What a plan says of the file of these bytes, for a preferred base.
pub record Planned (bytes : List ℕ) (info : ElfInfo) (base : ℕ) (plan : DynamicLoadPlan)
    : Type 0 where
  pub lowest : ℕ
  pub least : Lowest bytes lowest
  pub biased : plan.load_bias + lowest / 4096 * 4096 ≡ base
  pub entered : plan.relocated_entry ≡ info.entry + plan.load_bias
  pub entry_fits : plan.relocated_entry < u64_mod
  pub segments : AllPlaced plan.load_bias (load_segments info.segments) plan.load_segments
  pub distinct : Pairwise Differ plan.needed

finish_plan-Planned :
    (bytes : List ℕ) (info : ElfInfo) (h : Headers) (load_bias relocated_entry : ℕ)
    (ds : List DynamicLoadSegment) (es : List ElfDynamicEntry)
    → OnOk (finish_plan bytes info h load_bias relocated_entry ds es) (λ plan.
      (plan.load_bias ≡ load_bias)
      × (plan.relocated_entry ≡ relocated_entry)
      × (plan.load_segments ≡ ds)
      × Pairwise Differ plan.needed)
unfolding finish_plan
finish_plan-Planned bytes info h load_bias relocated_entry ds es =
    let P : DynamicLoadPlan → Type 0 = λ plan.
      (plan.load_bias ≡ load_bias)
      × (plan.relocated_entry ≡ relocated_entry)
      × (plan.load_segments ≡ ds)
      × Pairwise Differ plan.needed in
    OnOk-bind (plan_jmprel es) _ P (λ jmprel e₁.
      OnOk-bind (plan_table es 7 8 9 24 _ _) _ P (λ rela e₂.
        OnOk-bind (plan_table es 17 18 19 16 _ _) _ P (λ rel e₃.
          OnOk-bind (plan_table es 36 35 37 8 _ _) _ P (λ relr e₄.
            OnOk-chain (needed_names bytes info.segments es) _ (Pairwise Differ) P
              (needed_names-Differ bytes info.segments es) (λ needed d. (refl, refl, refl, d))))))

plan_at-Planned :
    (bytes : List ℕ) (base : ℕ) (info : ElfInfo) (h : Headers) (offset size : ℕ)
    → Lowest bytes h.lowest
    → OnOk (plan_at bytes info h offset size base) (Planned bytes info base)
unfolding plan_at
plan_at-Planned bytes base info h offset size least =
    let P = Planned bytes info base in
    let page = h.lowest / 4096 * 4096 in
    elim (Bool-cases (leb page base)) [
      | inr e ↦ rw e tt
      | inl e ↦
          let low : page ≤ base = ground arith in
          let bias = base - page in
          rw e (elim (Bool-cases (ltb (info.entry + bias) u64_mod)) [
            | inr f ↦ rw f tt
            | inl f ↦
                let fits : info.entry + bias < u64_mod = ground arith in
                rw f (
                  OnOk-chain (plan_load_segments bias info.segments) _
                    (AllPlaced bias (load_segments info.segments)) P
                    (plan_load_segments-AllPlaced bias info.segments)
                    (λ ds all. OnOk-bind (read_entries bytes offset (size / 16)) _ P (λ es e₁.
                      OnOk-weaken
                        (λ plan.
                          (plan.load_bias ≡ bias)
                          × (plan.relocated_entry ≡ info.entry + bias)
                          × (plan.load_segments ≡ ds)
                          × Pairwise Differ plan.needed)
                        P (finish_plan bytes info h bias (info.entry + bias) ds es)
                        (λ plan q. record {
                          lowest = h.lowest;
                          least = least;
                          biased = omega (arith, q.0, low);
                          entered = q.1 ∙ ap (λ x. info.entry + x) (sym q.0);
                          entry_fits = omega (arith, q.1, fits);
                          segments = rw (q.0, q.2) all;
                          distinct = q.3;
                        })
                        (finish_plan-Planned bytes info h bias (info.entry + bias) ds es))))
          ])
    ]

-- A plan for a file that parses has a load bias that puts the page of the lowest address among the
-- loadable headers of its table at the preferred base; the entry moves by the bias without overflow; each loadable segment of the
-- file, in its order, has the smallest run of whole pages around its memory at that bias; and no
-- library name is needed twice.
pub plan_dynamic_load-Planned :
    (bytes : List ℕ) (base : ℕ) (info : ElfInfo)
    → parse_elf_from_bytes bytes ≡ ok info
    → OnOk (plan_dynamic_load bytes base) (Planned bytes info base)
unfolding plan_dynamic_load
plan_dynamic_load-Planned bytes base info parsed =
    let P = Planned bytes info base in
    rw parsed (
      OnOk-bind (require (is_plannable info) _) _ P (λ t₁ e₁.
        OnOk-bind (word 8 bytes 32) _ P (λ phoff e₂. OnOk-bind (word 2 bytes 56) _ P (λ phnum e₃.
          OnOk-bind (read_program_headers bytes phoff 0 _ phnum) _ P (λ h e₄.
            OnOk-bind (require (not (h.lowest == u64_mod - 1)) _) _ P (λ t₅ e₅.
              OnOk-bind (ok_or h.dynamic _) _ P (λ d e₆.
                OnOk-bind (require (d.1 % 16 == 0) _) _ P (λ t₇ e₇.
                  OnOk-bind (ok_or (checked_add d.0 d.1) _) _ P (λ stop e₈.
                    OnOk-bind (require (leb stop (length bytes)) _) _ P (λ t₉ e₉.
                      plan_at-Planned bytes base info h d.0 d.1
                        (Loop-Lowest bytes phoff phnum _ e₂ e₃ e₄ (found h _ t₅ e₅))))))))))))
