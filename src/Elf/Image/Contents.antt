-- ===== src/Elf/Image/Contents.antt =====
-- What stands at every place of an image: crates/daoti-core/src/elf/mod.rs, `build_image`.
use yl.Prelude.{
  leb→le, Option-cases, ltb→lt, ltb→ge, ℕ, zero, suc, ◌+◌, ◌-◌, ◌≤◌, ◌<◌, ◌≡◌, refl, sym, ◌∙◌, min,
  max, true, some, List, [], ◌∷◌, ◌++◌, ltb, leb, ◌==◌, if◌then◌else◌, length, length-append,
  length-take, length-drop, length-replicate, take, drop, get_or, get_or-take, get_or-drop,
  get_or-replicate, replicate, find, ok, saturating_add, u64_mod, arith, Bool-cases, inl, inr, OnOk,
  OnOk-apply, OnOk-chain,
}
use yl.Elf.{ElfSegment}
use yl.Elf.Layout.{SegmentMapping}
use yl.Elf.Image.{
  ElfLoader, SandboxedSegment, SandboxImage, padded, segment_bytes, build_segment, build_segments,
  build_image,
}

get_or_beyond : (xs : List ℕ) (i : ℕ) → length xs ≤ i → get_or xs i 0 ≡ zero
get_or_beyond [] i h = refl
get_or_beyond (x ∷ xs) zero h = ground arith
get_or_beyond (x ∷ xs) (suc i) h = get_or_beyond xs i (omega (arith, h))

-- A list followed by zeros reads as the list.
get_or-padded : (xs : List ℕ) (n i : ℕ) → get_or (xs ++ replicate n 0) i 0 ≡ get_or xs i 0
get_or-padded [] n i = get_or-replicate n i 0
get_or-padded (x ∷ xs) n zero = refl
get_or-padded (x ∷ xs) n (suc i) = get_or-padded xs n i

-- The bytes of a segment in memory: its part of the file, then zeros.
abbrev pub content : List ℕ → ElfSegment → ℕ → ℕ
content file s i = if ltb i s.filesz then get_or file (s.offset + i) 0 else 0

padded-size :
    (s : ElfSegment) (copied : List ℕ)
    → length copied ≤ s.filesz
    → length (padded s copied) ≡ max s.filesz s.memsz
padded-size s copied h =
    let fill = length-append copied (replicate (s.filesz - length copied) 0) in
    let filled = length-replicate {A = ℕ} (s.filesz - length copied) 0 in
    let extra = length-replicate {A = ℕ} (s.memsz - s.filesz) 0 in
    let more =
      length-append (copied ++ replicate (s.filesz - length copied) 0)
        (replicate (s.memsz - s.filesz) 0) in
    let more' = length-append copied (replicate (s.memsz - s.filesz) 0) in
    elim (Bool-cases (ltb (length copied) s.filesz)) [
      | inl e ↦ rw e (elim (Bool-cases (ltb s.filesz s.memsz)) [
        | inl f ↦ rw f (ground (arith, fill, filled, extra, more, h, e, f))
        | inr f ↦ rw f (ground (arith, fill, filled, h, e, f))
      ])
      | inr e ↦ rw e (elim (Bool-cases (ltb s.filesz s.memsz)) [
        | inl f ↦ rw f (ground (arith, extra, more', h, e, f))
        | inr f ↦ rw f (ground (arith, h, e, f))
      ])
    ]

padded-content :
    (s : ElfSegment) (copied : List ℕ) (i : ℕ) → get_or (padded s copied) i 0 ≡ get_or copied i 0
padded-content s copied i =
    let fill = get_or-padded copied (s.filesz - length copied) i in
    let more =
      get_or-padded (copied ++ replicate (s.filesz - length copied) 0) (s.memsz - s.filesz) i in
    elim (Bool-cases (ltb (length copied) s.filesz)) [
      | inl e ↦ rw e (elim (Bool-cases (ltb s.filesz s.memsz)) [
        | inl f ↦ rw f (more ∙ fill)
        | inr f ↦ rw f fill
      ])
      | inr e ↦ rw e (elim (Bool-cases (ltb s.filesz s.memsz)) [
        | inl f ↦ rw f (get_or-padded copied (s.memsz - s.filesz) i)
        | inr f ↦ rw f refl
      ])
    ]

module _ (file : List ℕ) (s : ElfSegment) (small : length file < u64_mod)
    (starts : s.offset ≤ length file) where
  abbrev copy_size : ℕ
  copy_size = min (saturating_add s.offset s.filesz) (length file) - s.offset

  copy_size-min : copy_size ≡ min s.filesz (length file - s.offset)
  copy_size-min = ground arith

  length-copied :
      length (take copy_size (drop s.offset file)) ≡ min s.filesz (length file - s.offset)
  length-copied =
      length-take copy_size (drop s.offset file)
      ∙ omega (arith, length-drop s.offset file, copy_size-min)

  get_or-copied : (i : ℕ) → get_or (take copy_size (drop s.offset file)) i 0 ≡ content file s i
  get_or-copied i = elim (Bool-cases (ltb i copy_size)) [
    | inl e ↦
        let inside : i < copy_size = ltb→lt i copy_size e in
        let in_part : ltb i s.filesz ≡ true = ground (arith, inside, copy_size-min) in
        get_or-take copy_size (drop s.offset file) i 0 inside
        ∙ get_or-drop s.offset file i 0
        ∙ rw in_part refl
    | inr e ↦
        let outside : copy_size ≤ i = ltb→ge i copy_size e in
        let zero_here =
          get_or_beyond (take copy_size (drop s.offset file)) i
            (omega (arith, outside, length-copied, copy_size-min)) in
        zero_here ∙ sym (content_zero i outside)
  ]
    where
      content_zero : (i : ℕ) → copy_size ≤ i → content file s i ≡ zero
      content_zero i outside = elim (Bool-cases (ltb i s.filesz)) [
        | inl e ↦ rw e (
            get_or_beyond file (s.offset + i)
              (omega (arith, outside, copy_size-min, ltb→lt i s.filesz e)))
        | inr e ↦ rw e refl
      ]

  segment_bytes-size : length (segment_bytes file s) ≡ max s.filesz s.memsz
  unfolding segment_bytes
  segment_bytes-size =
      padded-size s (take copy_size (drop s.offset file)) (omega (arith, length-copied))

  segment_bytes-content : (i : ℕ) → get_or (segment_bytes file s) i 0 ≡ content file s i
  unfolding segment_bytes
  segment_bytes-content i =
      padded-content s (take copy_size (drop s.offset file)) i ∙ get_or-copied i

-- A segment of the image and the mapping it comes from: the first segment of the file at the
-- mapping's address gives its size and its contents.
pub record Imaged (file : List ℕ) (segments : List ElfSegment) (m : SegmentMapping)
    (g : SandboxedSegment) : Type 0 where
  pub source : ElfSegment
  pub found : find (λ s. s.vaddr == m.vaddr) segments ≡ some source
  pub place : g.offset_in_sandbox ≡ m.offset_in_sandbox
  pub address : g.vaddr ≡ m.vaddr
  pub same_flags : g.flags ≡ m.flags
  pub size : length g.bytes ≡ max source.filesz source.memsz
  pub contents : (i : ℕ) → get_or g.bytes i 0 ≡ content file source i

-- The segments of the image, one for each mapping and in their order.
abbrev pub AllImaged :
    List ℕ → List ElfSegment → List SegmentMapping → List SandboxedSegment → Type 0
AllImaged file segments [] [] = Unit
AllImaged file segments [] (g ∷ gs) = ⊥
AllImaged file segments (m ∷ ms) [] = ⊥
AllImaged file segments (m ∷ ms) (g ∷ gs) = Imaged file segments m g × AllImaged file segments ms gs

module _ (file : List ℕ) (segments : List ElfSegment) (small : length file < u64_mod) where
  build_segment-Imaged :
      (m : SegmentMapping) → OnOk (build_segment file segments m) (Imaged file segments m)
  unfolding build_segment
  build_segment-Imaged m = elim (Option-cases (find (λ s. s.vaddr == m.vaddr) segments)) [
    | inl e ↦ rw e tt
    | inr (source, e) ↦ rw e (elim (Bool-cases (leb source.offset (length file))) [
      | inr f ↦ rw f tt
      | inl f ↦
          let starts = leb→le source.offset (length file) f in
          rw f (record {
            source = source;
            found = e;
            place = refl;
            address = refl;
            same_flags = refl;
            size = segment_bytes-size file source small starts;
            contents = segment_bytes-content file source small starts;
          })
    ])
  ]

  build_segments-AllImaged :
      (ms : List SegmentMapping)
      → OnOk (build_segments file segments ms) (AllImaged file segments ms)
  unfolding build_segments
  build_segments-AllImaged [] = tt
  build_segments-AllImaged (m ∷ ms) =
      OnOk-chain (build_segment file segments m) _ (Imaged file segments m) _
        (build_segment-Imaged m)
        (λ g i.
          OnOk-chain (build_segments file segments ms) _ (AllImaged file segments ms) _
            (build_segments-AllImaged ms) (λ gs is. (i, is)))

-- An image that is built from a file of fewer than 2 ^ 64 bytes has one segment for each mapping, in
-- their order and at their places, from the first header of any type at the mapping's address: with
-- the size of the larger of that header's file and memory part; at each offset it has the byte of
-- the file inside the file part, 0 past the end of the file, and 0 behind the file part.
pub build_image-AllImaged :
    (l : ElfLoader) (file : List ℕ) {image : SandboxImage}
    → length file < u64_mod
    → build_image l file ≡ ok image
    → (image.entry ≡ l.info.entry)
      × (image.base ≡ l.layout.base)
      × AllImaged file l.info.segments l.layout.mappings image.segments
unfolding build_image
build_image-AllImaged l file small e =
    OnOk-apply
      (λ image.
        (image.entry ≡ l.info.entry)
        × (image.base ≡ l.layout.base)
        × AllImaged file l.info.segments l.layout.mappings image.segments)
      (OnOk-chain (build_segments file l.info.segments l.layout.mappings) _
        (AllImaged file l.info.segments l.layout.mappings) _
        (build_segments-AllImaged file l.info.segments small l.layout.mappings)
        (λ gs is. (refl, refl, is)))
      e
