-- ===== src/Elf/Relocation/Maps.antt =====
-- Which symbol wins in the maps of crates/daoti-core/src/elf/relocation.rs, over several objects.
use yl.Prelude.{
  ℕ, suc, ◌≡◌, refl, sym, ap, ◌∙◌, Bool, true, false, ◌&&◌, Option, none, some, List, [], ◌∷◌, ◌++◌,
  arith, Bool-cases, inl, inr, if◌then◌else◌, OnOk, OnOk-apply, OnOk-bind, OnOk-weaken, ok,
}
use yl.Elf.Dynamic.{DynamicLoadPlan}
use yl.Elf.Dynamic.Symbols.{LoadedDynamicSymbol, read_loaded_dynamic_symbols}
use yl.Elf.Relocation.{
  is_some, Name, same_name, get, or_insert, or_else, CrossObjectSymbolResolver, as_resolver,
  insert_all, insert_owner, insert_name, from_objects_with, from_objects,
}

pub same_name_refl : (n : Name) → same_name n n ≡ true
unfolding same_name
same_name_refl [] = refl
same_name_refl (x ∷ xs) = ground (arith, same_name_refl xs)

pub same_name-eq : (m n : Name) → same_name m n ≡ true → m ≡ n
unfolding same_name
same_name-eq [] [] e = refl
same_name-eq [] (y ∷ ys) e = ground arith
same_name-eq (x ∷ xs) [] e = ground arith
same_name-eq (x ∷ xs) (y ∷ ys) e = elim (Bool-cases (same_name xs ys)) [
  | inl t ↦ let tail = same_name-eq xs ys t in ground (arith, tail)
  | inr f ↦ ground (arith, f)
]

or_else-none : {A : Type 0} (o : Option A) → or_else o none ≡ o
or_else-none none = refl
or_else-none (some a) = refl

pub or_else_assoc :
    {A : Type 0} (o p q : Option A) → or_else (or_else o p) q ≡ or_else o (or_else p q)
or_else_assoc none p q = refl
or_else_assoc (some a) p q = refl

or_else-if :
    {A : Type 0} (b : Bool) (a : A) (o : Option A)
    → or_else (if b then some a else none) o ≡ (if b then some a else o)
or_else-if true a o = refl
or_else-if false a o = refl

module _ {V : Type 0} where
  -- `or_insert` keeps a value that is there, and else adds the new one.
  pub get-or_insert :
      (map : List (Name × V)) (key : Name) (value : V) (name : Name)
      → get same_name (or_insert same_name map key value) name
        ≡ or_else (get same_name map name) (if same_name key name then some value else none)
  unfolding get or_insert
  get-or_insert [] key value name = elim (Bool-cases (same_name key name)) [
    | inl e ↦ rw e refl
    | inr e ↦ rw e refl
  ]
  get-or_insert (kv ∷ map) key value name =
      let rest = get-or_insert map key value name in
      elim (Bool-cases (same_name kv.0 key)) [
        | inl e ↦
            let key_of = same_name-eq kv.0 key e in
            elim (Bool-cases (same_name kv.0 name)) [
              | inl f ↦ rw (e, f) refl
              | inr f ↦
                  let g : same_name key name ≡ false = rw key_of at f in
                  rw (e, f, g) (sym (or_else-none (get same_name map name)))
            ]
        | inr e ↦ elim (Bool-cases (same_name kv.0 name)) [
          | inl f ↦ rw (e, f) refl
          | inr f ↦ rw (e, f) rest
        ]
      ]

-- The address of the first defined symbol of a name.
abbrev pub first_address : List LoadedDynamicSymbol → Name → Option ℕ
first_address [] name = none
first_address (s ∷ ss) name =
    if s.defined && same_name s.name name then some s.loaded_address else first_address ss name

first_address-append :
    (ss ts : List LoadedDynamicSymbol) (name : Name)
    → first_address (ss ++ ts) name ≡ or_else (first_address ss name) (first_address ts name)
first_address-append [] ts name = refl
first_address-append (s ∷ ss) ts name =
    let rest = first_address-append ss ts name in
    elim (Bool-cases (s.defined && same_name s.name name)) [ inl e ↦ rw e refl | inr e ↦ rw e rest ]

insert_owner-names :
    (r : CrossObjectSymbolResolver) (name : Name) (id : Option ℕ)
    → (insert_owner r name id).names ≡ r.names
insert_owner-names r name none = refl
insert_owner-names r name (some id) = refl

insert_all-names :
    (r : CrossObjectSymbolResolver) (id : Option ℕ) (ss : List LoadedDynamicSymbol) (name : Name)
    → get same_name (insert_all r id ss).names name
      ≡ or_else (get same_name r.names name) (first_address ss name)
unfolding insert_all
insert_all-names r id [] name = sym (or_else-none (get same_name r.names name))
insert_all-names r id (s ∷ ss) name =
    let added = insert_owner (insert_name r s.name s.loaded_address) s.name id in
    elim (Bool-cases s.defined) [
      | inl d ↦
          let rest = insert_all-names added id ss name in
          let names : added.names ≡ or_insert same_name r.names s.name s.loaded_address =
            insert_owner-names (insert_name r s.name s.loaded_address) s.name id in
          let one = get-or_insert r.names s.name s.loaded_address name in
          let table = get same_name r.names name in
          let here = if same_name s.name name then some s.loaded_address else none in
          let later = first_address ss name in
          rw d (
            rest
            ∙ ap (λ ns. or_else (get same_name ns name) later) names
            ∙ ap (λ o. or_else o later) one
            ∙ or_else_assoc table here later
            ∙ ap (λ o. or_else table o) (or_else-if (same_name s.name name) s.loaded_address later))
      | inr d ↦ rw d (insert_all-names r id ss name)
    ]

-- The symbols of all objects, in the order in which the objects are loaded.
abbrev pub Symbols : List (List ℕ × DynamicLoadPlan) → List LoadedDynamicSymbol → Type 0
Symbols [] all = all ≡ []
Symbols (object ∷ objects) all =
    (ss : List LoadedDynamicSymbol) × (rest : List LoadedDynamicSymbol)
    × (read_loaded_dynamic_symbols object.0 object.1 ≡ ok ss)
    × Symbols objects rest
    × (all ≡ ss ++ rest)

abbrev Resolves :
    CrossObjectSymbolResolver → List (List ℕ × DynamicLoadPlan) → CrossObjectSymbolResolver → Type 0
Resolves start objects r =
    (all : List LoadedDynamicSymbol) × Symbols objects all
    × ((name : Name)
        → get same_name r.names name
          ≡ or_else (get same_name start.names name) (first_address all name))

from_objects_with-Resolves :
    (start : CrossObjectSymbolResolver) (next_module : ℕ)
    (objects : List (List ℕ × DynamicLoadPlan))
    → OnOk (from_objects_with start next_module objects) (Resolves start objects)
unfolding from_objects_with
from_objects_with-Resolves start next_module [] =
    ([], refl, λ name. sym (or_else-none (get same_name start.names name)))
from_objects_with-Resolves start next_module (object ∷ objects) =
    OnOk-bind (read_loaded_dynamic_symbols object.0 object.1) _ (Resolves start (object ∷ objects))
      (λ ss e.
        OnOk-weaken _ (Resolves start (object ∷ objects)) _
          (λ r h.
            let (rest, symbols, found) = h in
            (
              ss ++ rest,
              (ss, rest, e, symbols, refl),
              λ name.
                  let table = get same_name start.names name in
                  found name
                  ∙ ap (λ o. or_else o (first_address rest name)) (insert_all-names start _ ss name)
                  ∙ or_else_assoc table (first_address ss name) (first_address rest name)
                  ∙ ap (λ o. or_else table o) (sym (first_address-append ss rest name)),
            ))
          (from_objects_with-Resolves
            (insert_all start (if is_some object.1.tls then some next_module else none) ss)
            (if is_some object.1.tls then suc next_module else next_module) objects))

-- A resolver built from loaded objects gives each name the address of its first definition, in the
-- order of the objects and of their symbols, and no address to a name that none defines.
pub resolve_name-first_address :
    (objects : List (List ℕ × DynamicLoadPlan)) {r : CrossObjectSymbolResolver}
    → from_objects objects ≡ ok r
    → (all : List LoadedDynamicSymbol) × Symbols objects all
      × ((name : Name) → (as_resolver r).resolve_name name ≡ first_address all name)
unfolding from_objects get
resolve_name-first_address objects e =
    let start : CrossObjectSymbolResolver = record { symbols = []; names = []; owners = [] } in
    let (all, symbols, found) =
      OnOk-apply (Resolves start objects) (from_objects_with-Resolves start 1 objects) e in
    (all, symbols, λ name. found name)
