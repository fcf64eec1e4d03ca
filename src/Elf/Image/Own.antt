-- ===== src/Elf/Image/Own.antt =====
-- An image that `ElfLoader::new` and `build_image` of crates/daoti-core/src/elf/mod.rs make of a
-- file: its segments against the loadable program headers.
use yl.Prelude.{
  ℕ, ◌+◌, ◌%◌, ◌≤◌, ◌<◌, ◌≡◌, refl, sym, ap, ◌∙◌, arith, max, Option, none, some, List, [], ◌∷◌,
  ◌==◌, length, find, get_or, All, ok, OnOk-apply, OnOk-bind, u64_mod,
}
use yl.Elf.{ElfSegment}
use yl.Elf.Parse.{ElfInfo}
use yl.Elf.Layout.{SegmentMapping, load_segments, plan_segments, sort_by_vaddr}
use yl.Elf.Layout.Plan.{Laid, plan_segments-sorted}
use yl.Elf.Layout.Sort.{sort-All}
use yl.Elf.Image.{ElfLoader, SandboxedSegment, SandboxImage, new, build_image}
use yl.Elf.Image.Contents.{content, AllImaged, build_image-AllImaged}

-- The first header of the table at the address of this one is this one.
abbrev pub IsFirst : List ElfSegment → ElfSegment → Type 0
IsFirst segments s = find (λ t. t.vaddr == s.vaddr) segments ≡ some s

-- A segment of the image that holds this loadable segment of the file.
pub record Own (file : List ℕ) (s : ElfSegment) (g : SandboxedSegment) : Type 0 where
  pub page : g.offset_in_sandbox % 4096 ≡ 0
  pub starts : (g.offset_in_sandbox ≤ s.vaddr) × (s.vaddr < g.offset_in_sandbox + 4096)
  pub address : g.vaddr ≡ s.vaddr
  pub same_flags : g.flags ≡ s.flags
  pub size : length g.bytes ≡ max s.filesz s.memsz
  pub contents : (i : ℕ) → get_or g.bytes i 0 ≡ content file s i

abbrev pub AllOwn : List ℕ → List ElfSegment → List SandboxedSegment → Type 0
AllOwn file [] [] = Unit
AllOwn file [] (g ∷ gs) = ⊥
AllOwn file (s ∷ ss) [] = ⊥
AllOwn file (s ∷ ss) (g ∷ gs) = Own file s g × AllOwn file ss gs

some_inj : {a b : ElfSegment} {o : Option ElfSegment} → o ≡ some a → o ≡ some b → a ≡ b
some_inj {a} p q = ap (from a) (sym p ∙ q)
  where
    from : ElfSegment → Option ElfSegment → ElfSegment
    from c none = c
    from c (some x) = x

Laid-AllOwn :
    (file : List ℕ) (segments : List ElfSegment) (prev : Option ℕ) (ss : List ElfSegment)
    (ms : List SegmentMapping) (gs : List SandboxedSegment)
    → All (IsFirst segments) ss
    → Laid prev ss ms
    → AllImaged file segments ms gs
    → AllOwn file ss gs
Laid-AllOwn file segments prev [] [] [] f l i = tt
Laid-AllOwn file segments prev [] [] (g ∷ gs) f l i = absurd i
Laid-AllOwn file segments prev [] (m ∷ ms) gs f l i = absurd l
Laid-AllOwn file segments prev (s ∷ ss) [] gs f l i = absurd l
Laid-AllOwn file segments prev (s ∷ ss) (m ∷ ms) [] f l i = absurd i
Laid-AllOwn file segments prev (s ∷ ss) (m ∷ ms) (g ∷ gs) f l i =
    let p = l.1 in
    let one = i.0 in
    let looked : find (λ t. t.vaddr == s.vaddr) segments ≡ some one.source =
      ap (λ a. find (λ (t : ElfSegment). t.vaddr == a) segments) (sym p.same_vaddr) ∙ one.found in
    let same : one.source ≡ s = some_inj looked f.0 in
    (
      record {
        page = ap (λ x. x % 4096) one.place ∙ p.aligned;
        starts = (omega (arith, one.place, p.starts), omega (arith, one.place, p.near));
        address = one.address ∙ p.same_vaddr;
        same_flags = one.same_flags ∙ p.same_flags;
        size = one.size ∙ ap (λ (t : ElfSegment). max t.filesz t.memsz) same;
        contents = (λ k. one.contents k ∙ ap (λ t. content file t k) same);
      },
      Laid-AllOwn file segments (some (s.vaddr + s.memsz)) ss ms gs f.1 l.3 i.1,
    )

-- For a file of fewer than 2 ^ 64 bytes whose first header at the address of each loadable header
-- is that header, an image that is built has one segment for each loadable header, by ascending
-- address and on the page of its address, with its flags and the size of the larger of its file and
-- memory part; at each offset it has the byte of the file inside the file part, 0 past the end of
-- the file, and 0 behind the file part.
pub build_image-AllOwn :
    (info : ElfInfo) (file : List ℕ) {l : ElfLoader} {image : SandboxImage}
    → length file < u64_mod
    → All (IsFirst info.segments) (load_segments info.segments)
    → new info ≡ ok l
    → build_image l file ≡ ok image
    → AllOwn file (sort_by_vaddr (load_segments info.segments)) image.segments
      × (image.entry ≡ info.entry)
build_image-AllOwn info file {l} {image} small first made built =
    let loads = sort_by_vaddr (load_segments info.segments) in
    let P : ElfLoader → Type 0 =
      λ k. (k.info ≡ info) × (plan_segments info.segments ≡ ok k.layout) in
    let made' =
      OnOk-apply P (OnOk-bind (plan_segments info.segments) _ P (λ layout e. (refl, e))) made in
    let laid = (plan_segments-sorted info.segments made'.1).laid in
    let imaged = build_image-AllImaged l file small built in
    let all : AllImaged file info.segments l.layout.mappings image.segments =
      let a = imaged.2 in let same = made'.0 in rw same at a in
    (
      Laid-AllOwn file info.segments none loads l.layout.mappings image.segments
          (sort-All (IsFirst info.segments) (load_segments info.segments) first) laid all,
      imaged.0 ∙ ap (λ (x : ElfInfo). x.entry) made'.0,
    )
