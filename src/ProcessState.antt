-- ===== src/ProcessState.antt =====
-- The state of an intercepted process, crates/daoti-core/src/interceptor/state.rs: `FdEntry`,
-- `MmapEntry` and `ProcessState`. A hash map is an association list without repeated keys; a
-- descriptor is a 32-bit word, the pattern of an `i32`.
pub mod Tables
pub mod Refines
mod Tests
use yl.Prelude.{
  ℕ, zero, suc, String, Bool, Option, none, some, List, [], ◌∷◌, ◌++◌, ◌==◌, if◌then◌else◌, length,
}
use text.Mathlib.Text as Text

pub record FdEntry : Type 0 where
  pub fd : ℕ
  pub path : String
  pub mode : String

pub record MmapEntry : Type 0 where
  pub addr : ℕ
  pub len : ℕ
  pub prot : String
  pub flags : String

module _ {K V : Type 0} (same : K → K → Bool) where
  -- `map.get(key)`
  unfoldable pub get : List (K × V) → K → Option V
  get [] key = none
  get (kv ∷ map) key = let rest = get map key in if same kv.0 key then some kv.1 else rest

  -- `map.remove(key)`, the map that is left.
  unfoldable pub remove : List (K × V) → K → List (K × V)
  remove [] key = []
  remove (kv ∷ map) key = let rest = remove map key in if same kv.0 key then rest else kv ∷ rest

  -- `map.insert(key, value)`
  unfoldable pub insert : List (K × V) → K → V → List (K × V)
  unfolding remove
  insert map key value = (key, value) ∷ remove map key

pub record ProcessState : Type 0 where
  pub fds : List (ℕ × FdEntry)
  pub mmaps : List MmapEntry
  pub cwd : String
  pub env : List (String × String)
  pub brk : ℕ

abbrev pub new : ProcessState
new = record { fds = []; mmaps = []; cwd = ""; env = []; brk = 0 }

abbrev pub open_fd : ProcessState → FdEntry → ProcessState
open_fd s entry = record s { fds = insert ◌==◌ s.fds entry.fd entry }

abbrev pub get_fd : ProcessState → ℕ → Option FdEntry
get_fd s fd = get ◌==◌ s.fds fd

abbrev pub close_fd : ProcessState → ℕ → Option FdEntry × ProcessState
close_fd s fd = (get_fd s fd, record s { fds = remove ◌==◌ s.fds fd })

abbrev pub fd_count : ProcessState → ℕ
fd_count s = length s.fds

-- `retain(|m| m.addr != addr)`
unfoldable pub retain_others : List MmapEntry → ℕ → List MmapEntry
retain_others [] addr = []
retain_others (m ∷ ms) addr =
    let rest = retain_others ms addr in if m.addr == addr then rest else m ∷ rest

unfoldable pub add_mmap : ProcessState → MmapEntry → ProcessState
unfolding retain_others
add_mmap s entry = record s { mmaps = retain_others s.mmaps entry.addr ++ entry ∷ [] }

-- `position` and `remove`: the first mapping at the address, and the others.
unfoldable pub take_first : List MmapEntry → ℕ → Option MmapEntry × List MmapEntry
take_first [] addr = (none, [])
take_first (m ∷ ms) addr =
    let rest = take_first ms addr in if m.addr == addr then (some m, ms) else (rest.0, m ∷ rest.1)

unfoldable pub remove_mmap : ProcessState → ℕ → Option MmapEntry × ProcessState
unfolding take_first
remove_mmap s addr = let found = take_first s.mmaps addr in (found.0, record s { mmaps = found.1 })

abbrev pub mmap_count : ProcessState → ℕ
mmap_count s = length s.mmaps

abbrev pub set_cwd : ProcessState → String → ProcessState
set_cwd s cwd = record s { cwd = cwd }

abbrev pub set_brk : ProcessState → ℕ → ProcessState
set_brk s brk = record s { brk = brk }

abbrev pub set_env : ProcessState → String → String → ProcessState
set_env s key value = record s { env = insert Text.◌==◌ s.env key value }

abbrev pub get_env : ProcessState → String → Option String
get_env s key = get Text.◌==◌ s.env key

abbrev pub env_count : ProcessState → ℕ
env_count s = length s.env
