-- ===== src/Memory.antt =====
-- The interpreter's memory, crates/daoti-core/src/elf/runtime.rs: `MemPerm`, `MemoryRegion` and
-- `MemoryModel`. Addresses and lengths are 64-bit words, kept as numbers. The trace output that
-- environment variables switch on is left out; the one variable that changes what is written
-- (DAOTI_FIX_NS_LOADED_WRITE) is the argument `fix` of `write`.
pub mod Regions
pub mod Same
pub mod Valid
pub mod View
pub mod Access
pub mod Held
pub mod Mapping
pub mod Topdown
pub mod Mmap
pub mod Steps
mod Tests
use yl.Prelude.{
  ℕ, zero, suc, ◌+◌, ◌-◌, ◌*◌, ◌/◌, ◌%◌, ◌≤◌, ◌<◌, String, Bool, true, false, not, ◌&&◌, ◌||◌,
  Option, none, some, List, [], ◌∷◌, ◌++◌, ltb, leb, ◌==◌, if◌then◌else◌, u64_mod, length, take,
  drop, replicate, any, find, Result, ok, err, panic, ◌>>=◌, ◌>>◌, require, ok_or, checked_add,
  saturating_add, other,
}
use yl.Prelude.Bytes.{to_le}
use mathlib.Core.Option

pub record MemPerm : Type 0 where
  pub read : Bool
  pub write : Bool
  pub execute : Bool

abbrev pub rw_perm : MemPerm
rw_perm = record { read = true; write = true; execute = false }

pub record MemoryRegion : Type 0 where
  pub base : ℕ
  pub perm : MemPerm
  pub bytes : List ℕ

-- `end()`; the sum is exact for the regions of a model, which end below its `max_addr`.
abbrev pub region_end : MemoryRegion → ℕ
region_end r = r.base + length r.bytes

pub record MemoryModel : Type 0 where
  pub min_addr : ℕ
  pub max_addr : ℕ
  pub regions : List MemoryRegion
  pub trace_writable_pt_load : List (ℕ × ℕ)
  pub ns_loaded_write_fix : Option (ℕ × ℕ)
  pub namespace_root_addr : Option ℕ

unfoldable pub new : ℕ → ℕ → Result MemoryModel
new min_addr max_addr =
    if leb min_addr max_addr
    then ok (record {
      min_addr = min_addr;
      max_addr = max_addr;
      regions = [];
      trace_writable_pt_load = [];
      ns_loaded_write_fix = none;
      namespace_root_addr = none;
    })
    else panic

-- `self.regions.sort_by_key(|r| r.base)`, which is stable.
unfoldable pub insert_by_base : MemoryRegion → List MemoryRegion → List MemoryRegion
insert_by_base r [] = r ∷ []
insert_by_base r (s ∷ rs) = if leb r.base s.base then r ∷ s ∷ rs else s ∷ insert_by_base r rs

unfoldable pub sort_by_base : List MemoryRegion → List MemoryRegion
unfolding insert_by_base
sort_by_base [] = []
sort_by_base (r ∷ rs) = insert_by_base r (sort_by_base rs)

-- `region.base < existing.end() && existing.base < region.end()`
abbrev pub overlaps : ℕ → ℕ → MemoryRegion → Bool
overlaps start stop s = ltb start (region_end s) && ltb s.base stop

unfoldable pub add_region : MemoryModel → MemoryRegion → Result MemoryModel
add_region m r =
    if ltb r.base m.min_addr
    then err (other "内存段越界" [])
    else (if leb u64_mod (region_end r)
        then panic
        else (if ltb m.max_addr (region_end r)
            then err (other "内存段越界" [])
            else (if any (overlaps r.base (region_end r)) m.regions
                then err (other "内存段重叠" [])
                else ok (record m { regions = sort_by_base (m.regions ++ r ∷ []) }))))

-- `addr >= region.base && end <= region.end()`
abbrev pub contains : ℕ → ℕ → MemoryRegion → Bool
contains addr stop r = leb r.base addr && leb stop (region_end r)

-- The regions that `mprotect` puts in the place of the one it splits.
unfoldable pub split_region : ℕ → ℕ → MemPerm → MemoryRegion → List MemoryRegion
split_region addr stop perm r =
    let from = addr - r.base in
    let to = stop - r.base in
    (if ltb 0 from then record r { bytes = take from r.bytes } ∷ [] else [])
    ++ record { base = addr; perm = perm; bytes = take (to - from) (drop from r.bytes) }
      ∷ (if ltb to (length r.bytes)
          then record r { base = stop; bytes = drop to r.bytes } ∷ []
          else [])

-- `position`, `remove` and `splice` at the first region that holds the range.
unfoldable pub protect_first : ℕ → ℕ → MemPerm → List MemoryRegion → Option (List MemoryRegion)
unfolding split_region
protect_first addr stop perm [] = none
protect_first addr stop perm (r ∷ rs) =
    let rest = Option.map (λ rs'. r ∷ rs') (protect_first addr stop perm rs) in
    if contains addr stop r then some (split_region addr stop perm r ++ rs) else rest

unfoldable pub mprotect : MemoryModel → ℕ → ℕ → MemPerm → Result MemoryModel
mprotect m addr len perm =
    if len == 0 || not (addr % 4096 == 0) then err (other "mprotect 地址或长度无效" []) else do
      stop ← ok_or (checked_add addr len) (other "mprotect 范围溢出" [])
      rs ← ok_or (protect_first addr stop perm m.regions) (other "地址不可访问：0x{addr:x}" (addr ∷ []))
      ok (record m { regions = rs })

-- `vec![0; size]` at `base`.
abbrev pub zeroed : ℕ → MemPerm → ℕ → MemoryRegion
zeroed base perm size = record { base = base; perm = perm; bytes = replicate size 0 }

-- `len.checked_add(4095)?  / 4096 * 4096`
abbrev pub page_size_of : ℕ → Result ℕ
page_size_of len = do
  padded ← ok_or (checked_add len 4095) (other "mmap 长度溢出" [])
  ok (padded / 4096 * 4096)

-- `x.div_ceil(4096) * 4096`
abbrev pub page_ceil : ℕ → Result ℕ
page_ceil x = let v = (x + 4095) / 4096 * 4096 in if ltb v u64_mod then ok v else panic

-- The loop of `mmap_anonymous_private`: the first gap, from low addresses up.
unfoldable pub first_gap : MemoryModel → ℕ → ℕ → List MemoryRegion → Result ℕ
first_gap m size base [] =
    if ltb (base + size) u64_mod && leb (base + size) m.max_addr
    then ok base
    else err (other "mmap 地址空间不足" [])
first_gap m size base (r ∷ rs) =
    let rest = page_ceil (region_end r) >>= (λ b. first_gap m size b rs) in
    if ltb (base + size) u64_mod && leb (base + size) r.base then ok base else rest

unfoldable pub mmap_anonymous_private : MemoryModel → ℕ → MemPerm → Result (ℕ × MemoryModel)
mmap_anonymous_private m len perm = if len == 0 then err (other "mmap 长度不能为 0" []) else do
  size ← page_size_of len
  start ← page_ceil m.min_addr
  base ← first_gap m size start m.regions
  m' ← add_region m (zeroed base perm size)
  ok (base, m')

-- One round of the loop of `mmap_anonymous_private_topdown`; `lower` is the rest of the search.
unfoldable pub topdown_step :
    MemoryModel → ℕ → MemPerm → ℕ → Result (ℕ × MemoryModel) → Result (ℕ × MemoryModel)
topdown_step m size perm base lower =
    if ltb base m.min_addr
    then err (other "mmap 地址空间不足（topdown）" [])
    else (if any (overlaps base (saturating_add base size)) m.regions
        then lower
        else do m' ← add_region m (zeroed base perm size); ok (base, m'))

-- `base` is page-aligned throughout, so the loop counts pages: `base` is `page * 4096`, and the
-- test `base < 4096` is `page == 0`.
unfoldable pub topdown_from : MemoryModel → ℕ → MemPerm → ℕ → Result (ℕ × MemoryModel)
unfolding topdown_step
topdown_from m size perm zero = topdown_step m size perm 0 (err (other "mmap 地址空间不足（topdown）" []))
topdown_from m size perm (suc page) =
    let lower = topdown_from m size perm page in topdown_step m size perm (suc page * 4096) lower

-- The search starts at `max_addr.saturating_sub(size) & !0xFFF`.
unfoldable pub mmap_anonymous_private_topdown : MemoryModel → ℕ → MemPerm → Result (ℕ × MemoryModel)
mmap_anonymous_private_topdown m len perm =
    if len == 0
    then err (other "mmap 长度不能为 0" [])
    else do size ← page_size_of len; topdown_from m size perm ((m.max_addr - size) / 4096)

unfoldable pub probe_read : MemoryModel → ℕ → ℕ → Bool
probe_read m addr len =
    any (λ r. contains addr (saturating_add addr len) r && r.perm.read) m.regions

abbrev pub find_region : List MemoryRegion → ℕ → ℕ → Option MemoryRegion
find_region rs addr len = find (contains addr (saturating_add addr len)) rs

-- The three link fields of `_dl_rtld_map` live elsewhere.
unfoldable pub redirect : ℕ → ℕ
redirect addr =
    if addr == 0x2400018
    then 0x2433038
    else (if addr == 0x2400020 then 0x2433040 else (if addr == 0x2400028 then 0x2433048 else addr))

-- `&bytes[start..start + len]`
abbrev pub slice : List ℕ → ℕ → ℕ → Result (List ℕ)
slice bytes start len =
    if leb (start + len) (length bytes) then ok (take len (drop start bytes)) else panic

-- What `read` does behind the redirection.
unfoldable pub read_at : List MemoryRegion → ℕ → ℕ → Result (List ℕ)
read_at rs addr len = do
  region ← ok_or (find_region rs addr len) (other "地址不可访问：0x{addr:x}" (addr ∷ []))
  require region.perm.read (other "地址不可读：0x{addr:x}" (addr ∷ []))
  slice region.bytes (addr - region.base) len

unfoldable pub read : MemoryModel → ℕ → ℕ → Result (List ℕ)
read m addr len = read_at m.regions (redirect addr) len

-- `region.bytes[start..end].copy_from_slice(&data)`, where the region may be written.
unfoldable pub store_in : MemoryRegion → ℕ → List ℕ → Result MemoryRegion
store_in r addr new_bytes =
    let start = addr - r.base in
    if r.perm.write
    then (if leb (start + length new_bytes) (length r.bytes)
        then ok (record r {
          bytes = take start r.bytes ++ (new_bytes ++ drop (start + length new_bytes) r.bytes);
        })
        else panic)
    else err (other "地址不可写：0x{addr:x}" (addr ∷ []))

-- The write to the first region that holds the range.
unfoldable pub write_at : List MemoryRegion → ℕ → ℕ → List ℕ → Result (List MemoryRegion)
write_at [] addr stop new_bytes = err (other "地址不可访问：0x{addr:x}" (addr ∷ []))
write_at (r ∷ rs) addr stop new_bytes =
    let rest = write_at rs addr stop new_bytes >>= (λ rs'. ok (r ∷ rs')) in
    if contains addr stop r then store_in r addr new_bytes >>= (λ r'. ok (r' ∷ rs)) else rest

-- The correction of a write to the head of the namespace list.
unfoldable pub corrected : Bool → Option (ℕ × ℕ) → ℕ → List ℕ → List ℕ
corrected fix none addr new_bytes = new_bytes
corrected fix (some (ns_loaded, main_map)) addr new_bytes =
    if fix && (leb 8 (length new_bytes) && addr == ns_loaded)
    then to_le 8 main_map ++ drop 8 new_bytes
    else new_bytes

unfoldable pub write : Bool → MemoryModel → ℕ → List ℕ → Result MemoryModel
unfolding corrected
write fix m addr new_bytes = do
  let a = redirect addr
  let fixed = corrected fix m.ns_loaded_write_fix a new_bytes
  rs ← write_at m.regions a (saturating_add a (length fixed)) fixed
  ok (record m { regions = rs })

unfoldable pub is_executable : MemoryModel → ℕ → Bool
is_executable m addr =
    any (λ r. leb r.base addr && (ltb addr (region_end r) && r.perm.execute)) m.regions

-- Named on an `unfolding` line, it opens the whole component, for tests.
unfoldable pub memory_code : Unit {0}
unfolding new sort_by_base insert_by_base add_region split_region protect_first mprotect first_gap
    mmap_anonymous_private topdown_step topdown_from mmap_anonymous_private_topdown probe_read
    redirect read_at read store_in write_at corrected write is_executable to_le replicate
memory_code = tt
