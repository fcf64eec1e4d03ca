-- ===== src/ProcessState/Refines.antt =====
-- What `ProcessState` (crates/daoti-core/src/interceptor/state.rs) promises: three finite maps and
-- two registers, here functions of the key that forget the order and the table.
use yl.Prelude.{ℕ, ◌≡◌, refl, ◌∙◌, Option, none, some, List, [], ◌∷◌, ◌==◌, String, ==_iff}
use yl.ProcessState.{
  FdEntry, MmapEntry, ProcessState, new, get, open_fd, get_fd, close_fd, retain_others, add_mmap,
  take_first, remove_mmap, set_cwd, set_brk, set_env, get_env,
}
use yl.ProcessState.Tables.{
  updated, Keys, Keys-insert, Keys-remove, get-remove, get-insert, Distinct, found-take,
  Distinct-take, Distinct-snoc, Distinct-retain, added_once, found-add,
}
use text.Mathlib.Text as Text
use text.Mathlib.TextEquality.{eq_iff}

-- A call that changes the state.
pub data Action : Type 0 where
  opened : FdEntry → Action
  closed : ℕ → Action
  mapped : MmapEntry → Action
  unmapped : ℕ → Action
  moved : String → Action
  grown : ℕ → Action
  exported : String → String → Action

abbrev pub act : ProcessState → Action → ProcessState
act s (opened entry) = open_fd s entry
act s (closed fd) = (close_fd s fd).1
act s (mapped entry) = add_mmap s entry
act s (unmapped addr) = (remove_mmap s addr).1
act s (moved cwd) = set_cwd s cwd
act s (grown brk) = set_brk s brk
act s (exported key value) = set_env s key value

abbrev pub play : ProcessState → List Action → ProcessState
play s [] = s
play s (a ∷ rest) = play (act s a) rest

pub record Account : Type 0 where
  pub descriptor : ℕ → Option FdEntry
  pub mapping : ℕ → Option MmapEntry
  pub variable : String → Option String
  pub folder : String
  pub limit : ℕ

abbrev pub empty : Account
empty = record {
  descriptor = (λ fd. none);
  mapping = (λ addr. none);
  variable = (λ key. none);
  folder = "";
  limit = 0;
}

abbrev pub account : Account → Action → Account
account a (opened entry) = record a { descriptor = updated ◌==◌ a.descriptor entry.fd (some entry) }
account a (closed fd) = record a { descriptor = updated ◌==◌ a.descriptor fd none }
account a (mapped entry) = record a { mapping = updated ◌==◌ a.mapping entry.addr (some entry) }
account a (unmapped addr) = record a { mapping = updated ◌==◌ a.mapping addr none }
account a (moved cwd) = record a { folder = cwd }
account a (grown brk) = record a { limit = brk }
account a (exported key value) = record a {
  variable = updated Text.◌==◌ a.variable key (some value);
}

abbrev pub account_all : Account → List Action → Account
account_all a [] = a
account_all a (x ∷ rest) = account_all (account a x) rest

-- The state answers each question as the account does, and no key stands twice in a table.
pub record Shows (s : ProcessState) (a : Account) : Type 0 where
  pub descriptors : (fd : ℕ) → get_fd s fd ≡ a.descriptor fd
  pub mappings : (addr : ℕ) → (remove_mmap s addr).0 ≡ a.mapping addr
  pub variables : (key : String) → get_env s key ≡ a.variable key
  pub folders : s.cwd ≡ a.folder
  pub limits : s.brk ≡ a.limit
  pub distinct : Distinct s.mmaps
  pub open_once : Keys ◌==◌ s.fds
  pub set_once : Keys Text.◌==◌ s.env

act-Shows :
    (s : ProcessState) (a : Account) (x : Action) → Shows s a → Shows (act s x) (account a x)
unfolding add_mmap remove_mmap
act-Shows s a (opened entry) h = record {
  descriptors = (λ fd. get-insert ◌==◌ ==_iff s.fds entry.fd fd entry ∙ rw (h.descriptors fd) refl);
  mappings = h.mappings;
  variables = h.variables;
  folders = h.folders;
  limits = h.limits;
  distinct = h.distinct;
  open_once = Keys-insert ◌==◌ ==_iff s.fds entry.fd entry h.open_once;
  set_once = h.set_once;
}
act-Shows s a (closed fd) h = record {
  descriptors = (λ other. get-remove ◌==◌ ==_iff s.fds fd other ∙ rw (h.descriptors other) refl);
  mappings = h.mappings;
  variables = h.variables;
  folders = h.folders;
  limits = h.limits;
  distinct = h.distinct;
  open_once = Keys-remove ◌==◌ ==_iff s.fds fd h.open_once;
  set_once = h.set_once;
}
act-Shows s a (mapped entry) h = record {
  descriptors = h.descriptors;
  mappings = (λ other. found-add s.mmaps entry other ∙ rw (h.mappings other) refl);
  variables = h.variables;
  folders = h.folders;
  limits = h.limits;
  distinct =
      Distinct-snoc (retain_others s.mmaps entry.addr) entry (added_once s.mmaps entry)
        (Distinct-retain s.mmaps entry.addr h.distinct);
  open_once = h.open_once;
  set_once = h.set_once;
}
act-Shows s a (unmapped addr) h = record {
  descriptors = h.descriptors;
  mappings = (λ other. found-take s.mmaps addr other h.distinct ∙ rw (h.mappings other) refl);
  variables = h.variables;
  folders = h.folders;
  limits = h.limits;
  distinct = Distinct-take s.mmaps addr h.distinct;
  open_once = h.open_once;
  set_once = h.set_once;
}
act-Shows s a (moved cwd) h = record {
  descriptors = h.descriptors;
  mappings = h.mappings;
  variables = h.variables;
  folders = refl;
  limits = h.limits;
  distinct = h.distinct;
  open_once = h.open_once;
  set_once = h.set_once;
}
act-Shows s a (grown brk) h = record {
  descriptors = h.descriptors;
  mappings = h.mappings;
  variables = h.variables;
  folders = h.folders;
  limits = refl;
  distinct = h.distinct;
  open_once = h.open_once;
  set_once = h.set_once;
}
act-Shows s a (exported key value) h = record {
  descriptors = h.descriptors;
  mappings = h.mappings;
  variables =
      (λ other. get-insert Text.◌==◌ eq_iff s.env key other value ∙ rw (h.variables other) refl);
  folders = h.folders;
  limits = h.limits;
  distinct = h.distinct;
  open_once = h.open_once;
  set_once = Keys-insert Text.◌==◌ eq_iff s.env key value h.set_once;
}

play-Shows :
    (s : ProcessState) (a : Account) (xs : List Action)
    → Shows s a
    → Shows (play s xs) (account_all a xs)
play-Shows s a [] h = h
play-Shows s a (x ∷ xs) h = play-Shows (act s x) (account a x) xs (act-Shows s a x h)

new-Shows : Shows new empty
unfolding remove_mmap take_first get Distinct Keys
new-Shows = record {
  descriptors = (λ fd. refl);
  mappings = (λ addr. refl);
  variables = (λ key. refl);
  folders = refl;
  limits = refl;
  distinct = tt;
  open_once = tt;
  set_once = tt;
}

-- After any calls on a new state, the table of descriptors, the table of mappings and the
-- environment answer each key as functions do that every call updates at its one key, the
-- folder and the break are the last ones set, no two mappings start at one address, and no
-- descriptor and no variable stands twice in its table.
pub play-refines : (xs : List Action) → Shows (play new xs) (account_all empty xs)
play-refines xs = play-Shows new empty xs new-Shows
