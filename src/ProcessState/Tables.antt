-- ===== src/ProcessState/Tables.antt =====
-- Lookups in the tables of `ProcessState` (crates/daoti-core/src/interceptor/state.rs) after an
-- insertion and after a removal.
use yl.Prelude.{
  ℕ, ◌≡◌, refl, sym, ap, ◌∙◌, ◌↔◌, inl, inr, Bool, true, false, Option, none, some, List, [], ◌∷◌,
  ◌++◌, ◌==◌, if◌then◌else◌, arith, Bool-cases, ==_iff,
}
use yl.ProcessState.{MmapEntry, get, remove, insert, retain_others, take_first}

-- A function changed at one key.
module _ {K V : Type 0} (same : K → K → Bool) where
  abbrev pub updated : (K → Option V) → K → Option V → K → Option V
  updated f key value other = if same key other then value else f other

  -- No key stands twice in the table.
  unfoldable pub Keys : List (K × V) → Type 0
  Keys [] = Unit
  Keys (kv ∷ map) = (get same map kv.0 ≡ none) × Keys map

if_same {ℓ} : {A : Type ℓ} (b : Bool) (x : A) → if◌then◌else◌ b x x ≡ x
if_same true x = refl
if_same false x = refl

module _ {K V : Type 0} (same : K → K → Bool) (iff : (k j : K) → (same k j ≡ true) ↔ (k ≡ j)) where
  pub get-remove :
      (map : List (K × V)) (key other : K)
      → get same (remove same map key) other ≡ updated same (get same map) key none other
  unfolding get remove
  get-remove [] key other = elim (Bool-cases (same key other)) [
    | inl e ↦ rw e refl
    | inr e ↦ rw e refl
  ]
  get-remove (kv ∷ map) key other =
      let ih = get-remove map key other in
      elim (Bool-cases (same kv.0 key)) [
        | inl e ↦
            let eq : same kv.0 other ≡ same key other =
              ap (λ k. same k other) ((iff kv.0 key).0 e) in
            rw e (elim (Bool-cases (same key other)) [
              | inl d ↦ ih ∙ rw d refl
              | inr d ↦ ih ∙ rw (d, eq ∙ d) refl
            ])
        | inr e ↦ rw e (elim (Bool-cases (same key other)) [
          | inl d ↦
              let eq : same kv.0 key ≡ same kv.0 other = ap (same kv.0) ((iff key other).0 d) in
              rw (sym eq ∙ e, d) (ih ∙ rw d refl)
          | inr d ↦ rw ih (rw d refl)
        ])
      ]

  pub get-insert :
      (map : List (K × V)) (key other : K) (value : V)
      → get same (insert same map key value) other
        ≡ updated same (get same map) key (some value) other
  unfolding get insert
  get-insert map key other value = elim (Bool-cases (same key other)) [
    | inl e ↦ rw e refl
    | inr e ↦ rw e (get-remove map key other ∙ rw e refl)
  ]

  gone_twice :
      (map : List (K × V)) (key other : K)
      → get same map other ≡ none
      → get same (remove same map key) other ≡ none
  gone_twice map key other h = get-remove map key other ∙ rw h (if_same (same key other) none)

  pub Keys-remove : (map : List (K × V)) (key : K) → Keys same map → Keys same (remove same map key)
  unfolding Keys remove
  Keys-remove [] key h = tt
  Keys-remove (kv ∷ map) key h = elim (Bool-cases (same kv.0 key)) [
    | inl e ↦ rw e (Keys-remove map key h.1)
    | inr e ↦ rw e (gone_twice map key kv.0 h.0, Keys-remove map key h.1)
  ]

  pub Keys-insert :
      (map : List (K × V)) (key : K) (value : V)
      → Keys same map
      → Keys same (insert same map key value)
  unfolding Keys insert
  Keys-insert map key value h =
      let once : get same (remove same map key) key ≡ none =
        get-remove map key key ∙ rw ((iff key key).1 refl) refl in
      (once, Keys-remove map key h)

found-retain :
    (ms : List MmapEntry) (addr other : ℕ)
    → (take_first (retain_others ms addr) other).0
      ≡ (if addr == other then none else (take_first ms other).0)
unfolding take_first retain_others
found-retain [] addr other = ground arith
found-retain (m ∷ ms) addr other = let ih = found-retain ms addr other in ground arith

-- No two mappings of the table start at one address.
unfoldable pub Distinct : List MmapEntry → Type 0
Distinct [] = Unit
Distinct (m ∷ ms) = ((take_first ms m.addr).0 ≡ none) × Distinct ms

pub Distinct-retain :
    (ms : List MmapEntry) (addr : ℕ) → Distinct ms → Distinct (retain_others ms addr)
unfolding Distinct retain_others
Distinct-retain [] addr d = tt
Distinct-retain (m ∷ ms) addr d =
    let ih = Distinct-retain ms addr d.1 in
    let head : (take_first (retain_others ms addr) m.addr).0 ≡ none =
      found-retain ms addr m.addr ∙ rw d.0 (if_same (addr == m.addr) none) in
    elim (Bool-cases (m.addr == addr)) [ inl e ↦ rw e ih | inr e ↦ rw e (head, ih) ]

found-append :
    (ms : List MmapEntry) (m : MmapEntry) (other : ℕ)
    → (take_first ms m.addr).0 ≡ none
    → (take_first (ms ++ m ∷ []) other).0
      ≡ (if m.addr == other then some m else (take_first ms other).0)
unfolding take_first
found-append [] m other h = ground arith
found-append (x ∷ ms) m other h = let ih = found-append ms m other in ground arith

pub found-take :
    (ms : List MmapEntry) (addr other : ℕ)
    → Distinct ms
    → (take_first (take_first ms addr).1 other).0
      ≡ (if addr == other then none else (take_first ms other).0)
unfolding take_first Distinct
found-take [] addr other d = ground arith
found-take (m ∷ ms) addr other d =
    let ih = found-take ms addr other d.1 in
    let h : (take_first ms m.addr).0 ≡ none = d.0 in ground arith

pub Distinct-snoc :
    (ms : List MmapEntry) (m : MmapEntry)
    → (take_first ms m.addr).0 ≡ none
    → Distinct ms
    → Distinct (ms ++ m ∷ [])
unfolding Distinct take_first
Distinct-snoc [] m h d = (refl, tt)
Distinct-snoc (x ∷ ms) m h d =
    let h' : (take_first ms m.addr).0 ≡ none = ground arith in
    let apart : (m.addr == x.addr) ≡ false = ground arith in
    (found-append ms m x.addr h' ∙ rw apart d.0, Distinct-snoc ms m h' d.1)

pub Distinct-take : (ms : List MmapEntry) (addr : ℕ) → Distinct ms → Distinct (take_first ms addr).1
unfolding Distinct take_first
Distinct-take [] addr d = tt
Distinct-take (m ∷ ms) addr d =
    let ih = Distinct-take ms addr d.1 in
    let head : (take_first (take_first ms addr).1 m.addr).0 ≡ none =
      found-take ms addr m.addr d.1 ∙ rw d.0 (if_same (addr == m.addr) none) in
    elim (Bool-cases (m.addr == addr)) [ inl e ↦ rw e d.1 | inr e ↦ rw e (head, ih) ]

pub added_once :
    (ms : List MmapEntry) (m : MmapEntry) → (take_first (retain_others ms m.addr) m.addr).0 ≡ none
added_once ms m = found-retain ms m.addr m.addr ∙ rw ((==_iff m.addr m.addr).1 refl) refl

pub found-add :
    (ms : List MmapEntry) (m : MmapEntry) (other : ℕ)
    → (take_first (retain_others ms m.addr ++ m ∷ []) other).0
      ≡ (if m.addr == other then some m else (take_first ms other).0)
found-add ms m other =
    found-append (retain_others ms m.addr) m other (added_once ms m)
    ∙ rw (found-retain ms m.addr other)
        (elim (Bool-cases (m.addr == other)) [ inl e ↦ rw e refl | inr e ↦ rw e refl ])
