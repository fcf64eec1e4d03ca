-- ===== src/Elf/Dynamic/Chains.antt =====
-- The walks of GNU hash chains, crates/daoti-core/src/elf/mod.rs, `read_loaded_dynamic_symbols`, and
-- the fuel of the loop that models them.
use yl.Prelude.{
  ℕ, zero, suc, ◌+◌, ◌-◌, ◌*◌, ◌%◌, ◌≤◌, ◌<◌, ◌≡◌, refl, max, inl, inr, Bool, true, false,
  unavailable, io, unfinished, err, panic, String, List, [], arith, ltb, leb, ◌==◌, if◌then◌else◌,
  Bool-cases, ltb→ge, u64_mod, length, Result, ok, ◌>>=◌, ok_or, checked_add, other,
}
use yl.Elf.Dynamic.Symbols.{read_u32, gnu_chain, gnu_buckets, gnu_count}
use yl.Elf.Parse.{word}

-- The call does not run out of fuel.
abbrev pub Finished {ℓ} : {A : Type ℓ} → Result A → Type 0
Finished (ok a) = Unit
Finished panic = Unit
Finished (err (other text numbers)) = Unit
Finished (err (unavailable text numbers)) = Unit
Finished (err io) = Unit
Finished (err unfinished) = ⊥

Finished->>= {ℓ κ} :
    {X : Type ℓ} {Y : Type κ} (m : Result X) (f : X → Result Y)
    → Finished m
    → ((x : X) → Finished (f x))
    → Finished (m >>= f)
Finished->>= (ok x) f h g = g x
Finished->>= panic f h g = tt
Finished->>= (err (other text numbers)) f h g = tt
Finished->>= (err (unavailable text numbers)) f h g = tt
Finished->>= (err io) f h g = tt
Finished->>= (err unfinished) f h g = absurd h

Finished-if {ℓ} :
    {A : Type ℓ} (b : Bool) (m m' : Result A)
    → Finished m
    → Finished m'
    → Finished (if b then m else m')
Finished-if true m m' h h' = h
Finished-if false m m' h h' = h'

checked-then {ℓ} :
    {Y : Type ℓ} (a b : ℕ) (text : String) (f : ℕ → Result Y)
    → ((x : ℕ) → Finished (f x))
    → Finished (ok_or (checked_add a b) (other text []) >>= f)
checked-then a b text f h = elim (Bool-cases (ltb (a + b) u64_mod)) [
  | inl e ↦ rw e (h (a + b))
  | inr e ↦ rw e tt
]

read_u32-Finished : (bytes : List ℕ) (offset : ℕ) → Finished (read_u32 bytes offset)
unfolding read_u32 word
read_u32-Finished bytes offset = checked-then offset 4 _ _ (λ stop.
    elim (Bool-cases (leb stop (length bytes))) [
      | inr e ↦ rw e tt
      | inl e ↦ rw e (elim (Bool-cases (leb (offset + 4) (length bytes))) [
        | inl f ↦ rw f tt
        | inr f ↦ rw f tt
      ])
    ])

-- A place from which nothing can be read ends the walk, with whatever would follow.
read_u32-outside :
    (bytes : List ℕ) (offset : ℕ) (k k' : ℕ → Result ℕ)
    → length bytes < offset + 4
    → (read_u32 bytes offset >>= k) ≡ (read_u32 bytes offset >>= k')
unfolding read_u32
read_u32-outside bytes offset k k' h = elim (Bool-cases (ltb (offset + 4) u64_mod)) [
  | inr e ↦ rw e refl
  | inl e ↦
      let outside : leb (offset + 4) (length bytes) ≡ false = ground (arith, h) in
      rw (e, outside) refl
]

module _ (bytes : List ℕ) (chains symoffset : ℕ) where
  -- The place of the current link.
  abbrev pub link : ℕ → ℕ
  link current = chains + (current - symoffset) * 4

  -- One round, with what follows it.
  abbrev step : ℕ → ℕ → Result ℕ → Result ℕ
  step current count rest = do
    offset ←
        ok_or (checked_add chains ((current - symoffset) * 4)) (other "DT_GNU_HASH chain 偏移溢出" [])
    chain ← read_u32 bytes offset
    if chain % 2 == 1 then ok (max count (suc current)) else rest

  step_outside :
      (current count : ℕ) (rest rest' : Result ℕ)
      → length bytes < link current + 4
      → step current count rest ≡ step current count rest'
  step_outside current count rest rest' h = elim (Bool-cases (ltb (link current) u64_mod)) [
    | inr e ↦ rw e refl
    | inl e ↦ rw e (read_u32-outside bytes (link current) _ _ h)
  ]

  step-Finished :
      (current count : ℕ) (rest : Result ℕ) → Finished rest → Finished (step current count rest)
  step-Finished current count rest h =
      checked-then chains ((current - symoffset) * 4) _ _ (λ offset.
        Finished->>= (read_u32 bytes offset) _ (read_u32-Finished bytes offset)
          (λ chain. Finished-if (chain % 2 == 1) _ _ tt h))

  -- Fuel that reaches past the end of the file is enough.
  gnu_chain_ends :
      (current count fuel : ℕ)
      → symoffset ≤ current
      → length bytes < link current + 4 * suc fuel
      → Finished (gnu_chain bytes chains symoffset current count (suc fuel))
  unfolding gnu_chain
  gnu_chain_ends current count zero o h =
      rw (step_outside current count (err unfinished) (ok 0) (omega (arith, h)))
        (step-Finished current count (ok 0) tt)
  gnu_chain_ends current count (suc fuel) o h = step-Finished current count _ (
      gnu_chain_ends (suc current) (max count (suc current)) fuel (omega (arith, o))
        (omega (arith, h, o)))

gnu_buckets-Finished :
    (bytes : List ℕ) (buckets_file buckets symoffset count bucket left : ℕ)
    → Finished (gnu_buckets bytes buckets_file buckets symoffset count bucket left)
unfolding gnu_buckets
gnu_buckets-Finished bytes buckets_file buckets symoffset count bucket zero = tt
gnu_buckets-Finished bytes buckets_file buckets symoffset count bucket (suc left) =
    checked-then buckets_file (bucket * 4) _ _ (λ offset.
      Finished->>= (read_u32 bytes offset) _ (read_u32-Finished bytes offset) (λ index.
        Finished->>= _ _ (walk index) (λ count'.
          gnu_buckets-Finished bytes buckets_file buckets symoffset count' (suc bucket) left)))
  where
    walk :
        (index : ℕ)
        → Finished (
            if ltb index symoffset then ok count else do
              chains ←
                  ok_or (checked_add buckets_file (buckets * 4)) (other "DT_GNU_HASH chain 偏移溢出" [])
              gnu_chain bytes chains symoffset index count (suc (length bytes)))
    walk index = elim (Bool-cases (ltb index symoffset)) [
      | inl e ↦ rw e tt
      | inr e ↦ rw e (
          checked-then buckets_file (buckets * 4) _ _ (λ chains.
            gnu_chain_ends bytes chains symoffset index count (length bytes)
              (ltb→ge index symoffset e) (omega arith)))
    ]

-- For any bytes and any place of the table, counting the symbols of a DT_GNU_HASH table ends: no
-- walk along a chain runs out of its fuel, one more than the number of bytes of the file.
pub gnu_count-Finished : (bytes : List ℕ) (file : ℕ) → Finished (gnu_count bytes file)
unfolding gnu_count
gnu_count-Finished bytes file =
    Finished->>= (read_u32 bytes file) _ (read_u32-Finished bytes file) (λ buckets.
      Finished->>= (read_u32 bytes (file + 4)) _ (read_u32-Finished bytes (file + 4)) (λ symoffset.
        Finished->>= (read_u32 bytes (file + 8)) _ (read_u32-Finished bytes (file + 8))
          (λ bloom_size. checked-then file (16 + bloom_size * 8) _ _ (λ buckets_file.
            gnu_buckets-Finished bytes buckets_file buckets symoffset symoffset 0 buckets))))
