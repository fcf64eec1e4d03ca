-- ===== src/ProcessState/Tests.antt =====
-- A run of `ProcessState` (crates/daoti-core/src/interceptor/state.rs).
use yl.Prelude.{◌≡◌, refl, none, some, List, [], ◌∷◌}
use yl.ProcessState.{
  FdEntry, MmapEntry, new, remove_mmap, get_fd, env_count, get, remove, insert, add_mmap,
  take_first, retain_others,
}
use yl.ProcessState.Refines.{
  Action, opened, closed, mapped, unmapped, moved, grown, exported, play, account_all, empty, Shows,
  play-refines,
}

abbrev hosts : FdEntry
hosts = record { fd = 3; path = "/etc/hosts"; mode = "read" }

abbrev wide : MmapEntry
wide = record { addr = 4096; len = 8192; prot = "r-x"; flags = "private" }

abbrev narrow : MmapEntry
narrow = record { addr = 4096; len = 4096; prot = "rw-"; flags = "private" }

abbrev calls : List Action
calls =
    opened hosts
    ∷ mapped wide
    ∷ mapped narrow
    ∷ exported "HOME" "/root"
    ∷ exported "HOME" "/home"
    ∷ moved "/tmp"
    ∷ grown 8192
    ∷ []

replaced : (remove_mmap (play new calls) 4096).0 ≡ some narrow
unfolding remove_mmap add_mmap take_first retain_others
replaced = refl

closed_once : get_fd (play (play new calls) (closed 3 ∷ unmapped 4096 ∷ [])) 3 ≡ none
unfolding get remove insert add_mmap remove_mmap take_first retain_others
closed_once = refl

one_variable : env_count (play new calls) ≡ 1
unfolding insert remove add_mmap
one_variable = refl

play-refines_example : Shows (play new calls) (account_all empty calls)
play-refines_example = play-refines calls
