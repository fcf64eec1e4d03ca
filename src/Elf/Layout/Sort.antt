-- ===== src/Elf/Layout/Sort.antt =====
-- The order of the loadable segments, crates/daoti-core/src/elf/layout.rs: what the sort by
-- `vaddr` keeps, and what it gives on segments that share no address.
use yl.Prelude.{
  length, ◌≡◌, refl, ap, ◌∙◌, suc, ◌+◌, ◌≤◌, ◌<◌, ◌⊎◌, inl, inr, List, [], ◌∷◌, leb, arith, All,
  All-map, Pairwise, Bool-cases,
}
use yl.Elf.{ElfSegment}
use yl.Elf.Layout.{insert_by_vaddr, sort_by_vaddr}
use mathlib.Core.List.{Perm}
use mathlib.Core.List.Perm

-- The memory of one segment ends before the other's starts.
abbrev pub Before : ElfSegment → ElfSegment → Type 0
Before s t = s.vaddr + s.memsz ≤ t.vaddr

-- The segments share no address, in whichever order they lie.
abbrev pub Separate : ElfSegment → ElfSegment → Type 0
Separate s t = Before s t ⊎ Before t s

insert-Perm : (s : ElfSegment) (ts : List ElfSegment) → Perm (insert_by_vaddr s ts) (s ∷ ts)
unfolding insert_by_vaddr
insert-Perm s [] = Perm.refl (s ∷ [])
insert-Perm s (t ∷ ts) = elim (Bool-cases (leb s.vaddr t.vaddr)) [
  | inl e ↦ rw e (Perm.refl (s ∷ t ∷ ts))
  | inr e ↦ rw e (Perm.trans (Perm.cons t (insert-Perm s ts)) (Perm.swap s t ts))
]

pub sort-Perm : (ss : List ElfSegment) → Perm (sort_by_vaddr ss) ss
unfolding sort_by_vaddr
sort-Perm [] = Perm.refl []
sort-Perm (s ∷ ss) = Perm.trans (insert-Perm s (sort_by_vaddr ss)) (Perm.cons s (sort-Perm ss))

length-insert :
    (s : ElfSegment) (ts : List ElfSegment) → length (insert_by_vaddr s ts) ≡ suc (length ts)
unfolding insert_by_vaddr
length-insert s [] = refl
length-insert s (t ∷ ts) = elim (Bool-cases (leb s.vaddr t.vaddr)) [
  | inl e ↦ rw e refl
  | inr e ↦ rw e (ap suc (length-insert s ts))
]

module _ (P : ElfSegment → Type 0) where
  insert-All :
      (s : ElfSegment) (ts : List ElfSegment) → P s → All P ts → All P (insert_by_vaddr s ts)
  unfolding insert_by_vaddr
  insert-All s [] p ps = (p, tt)
  insert-All s (t ∷ ts) p ps = elim (Bool-cases (leb s.vaddr t.vaddr)) [
    | inl e ↦ rw e (p, ps)
    | inr e ↦ rw e (ps.0, insert-All s ts p ps.1)
  ]

  pub sort-All : (ss : List ElfSegment) → All P ss → All P (sort_by_vaddr ss)
  unfolding sort_by_vaddr
  sort-All [] ps = tt
  sort-All (s ∷ ss) ps = insert-All s (sort_by_vaddr ss) ps.0 (sort-All ss ps.1)

pub length-sort : (ss : List ElfSegment) → length (sort_by_vaddr ss) ≡ length ss
unfolding sort_by_vaddr
length-sort [] = refl
length-sort (s ∷ ss) = length-insert s (sort_by_vaddr ss) ∙ ap suc (length-sort ss)

insert-Before :
    (s : ElfSegment) (ts : List ElfSegment)
    → 0 < s.memsz
    → All (λ t. 0 < t.memsz) ts
    → All (Separate s) ts
    → Pairwise Before ts
    → Pairwise Before (insert_by_vaddr s ts)
unfolding insert_by_vaddr
insert-Before s [] n ns sep p = (tt, tt)
insert-Before s (t ∷ ts) n ns sep p = elim (Bool-cases (leb s.vaddr t.vaddr)) [
  | inl e ↦
      let first : Before s t = ground (arith, sep.0, ns.0, e) in
      rw e ((first, All-map _ (Before s) ts (λ u h. omega (arith, h, first)) p.0), p)
  | inr e ↦
      let first : Before t s = ground (arith, sep.0, n, e) in
      rw e (insert-All (Before t) s ts first p.0, insert-Before s ts n ns.1 sep.1 p.1)
]

-- Segments that hold memory and share no address are put in the order of their places.
pub sort-Before :
    (ss : List ElfSegment)
    → All (λ s. 0 < s.memsz) ss
    → Pairwise Separate ss
    → Pairwise Before (sort_by_vaddr ss)
unfolding sort_by_vaddr
sort-Before [] ns sep = tt
sort-Before (s ∷ ss) ns sep =
    insert-Before s (sort_by_vaddr ss) ns.0 (sort-All _ ss ns.1) (sort-All (Separate s) ss sep.0)
      (sort-Before ss ns.1 sep.1)
