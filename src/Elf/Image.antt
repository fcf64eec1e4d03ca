-- ===== src/Elf/Image.antt =====
-- The sandbox image of crates/daoti-core/src/elf/mod.rs, `ElfLoader::new` and
-- `ElfLoader::build_image`: the bytes of every mapped segment, with zeros behind its file part.
pub mod Contents
pub mod Own
mod Tests
use yl.Prelude.{
  ℕ, ◌+◌, ◌-◌, ◌≤◌, min, Bool, List, [], ◌∷◌, ◌++◌, ltb, leb, ◌==◌, if◌then◌else◌, length, take,
  drop, replicate, find, Result, ok, err, ◌>>=◌, ◌>>◌, require, ok_or, saturating_add, other,
}
use yl.Elf.{ElfSegment}
use yl.Elf.Parse.{ElfInfo}
use yl.Elf.Layout.{SegmentMapping, MemoryLayout, plan_segments}

pub record ElfLoader : Type 0 where
  pub info : ElfInfo
  pub layout : MemoryLayout

pub record SandboxedSegment : Type 0 where
  pub offset_in_sandbox : ℕ
  pub vaddr : ℕ
  pub flags : ℕ
  pub bytes : List ℕ

pub record SandboxImage : Type 0 where
  pub entry : ℕ
  pub base : ℕ
  pub segments : List SandboxedSegment

abbrev pub new : ElfInfo → Result ElfLoader
new info = plan_segments info.segments >>= (λ layout. ok (record { info = info; layout = layout }))

-- `resize`, where the bytes are fewer, and `extend`, where the memory part is larger.
abbrev pub padded : ElfSegment → List ℕ → List ℕ
padded s copied =
    let filled =
      if ltb (length copied) s.filesz
      then copied ++ replicate (s.filesz - length copied) 0
      else copied in
    if ltb s.filesz s.memsz then filled ++ replicate (s.memsz - s.filesz) 0 else filled

-- The bytes of a segment: its part of the file, as far as the file goes, and zeros.
unfoldable pub segment_bytes : List ℕ → ElfSegment → List ℕ
segment_bytes file s =
    let copy_end = min (saturating_add s.offset s.filesz) (length file) in
    padded s (take (copy_end - s.offset) (drop s.offset file))

-- One round of the loop: the first segment of the mapping's address is its source.
unfoldable pub build_segment : List ℕ → List ElfSegment → SegmentMapping → Result SandboxedSegment
unfolding segment_bytes
build_segment file segments m = do
  source ←
      ok_or (find (λ s. s.vaddr == m.vaddr) segments) (other "找不到段 vaddr=0x{:x}" (m.vaddr ∷ []))
  require (leb source.offset (length file)) (other "段起点超出文件边界 vaddr=0x{:x}" (source.vaddr ∷ []))
  ok (record {
    offset_in_sandbox = m.offset_in_sandbox;
    vaddr = m.vaddr;
    flags = m.flags;
    bytes = segment_bytes file source;
  })

unfoldable pub build_segments :
    List ℕ → List ElfSegment → List SegmentMapping → Result (List SandboxedSegment)
unfolding build_segment
build_segments file segments [] = ok []
build_segments file segments (m ∷ ms) = do
  one ← build_segment file segments m
  rest ← build_segments file segments ms
  ok (one ∷ rest)

unfoldable pub build_image : ElfLoader → List ℕ → Result SandboxImage
unfolding build_segments
build_image l file = do
  segments ← build_segments file l.info.segments l.layout.mappings
  ok (record { entry = l.info.entry; base = l.layout.base; segments = segments })

-- Named on an `unfolding` line, it opens the whole component, for tests.
unfoldable pub image_code : Unit {0}
unfolding segment_bytes build_segment build_segments build_image replicate
image_code = tt
