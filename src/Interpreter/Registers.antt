-- ===== src/Interpreter/Registers.antt =====
-- Reading and writing a register of crates/daoti-core/src/elf/runtime.rs by its number.
use yl.Prelude.{
  ℕ, zero, suc, ◌≤◌, ◌<◌, ◌≡◌, ◌≢◌, refl, sym, ap, ◌∙◌, arith, true, false, Option, none, some,
  List, [], ◌∷◌, ltb, get_or, get_elem?, length, list_ext, ok, panic,
}
use yl.Interpreter.{GeneralRegisters, numbered, with_numbered, set_at, pick, reg, reg_mut}

length-set_at : (xs : List ℕ) (n value : ℕ) → length (set_at xs n value) ≡ length xs
unfolding set_at
length-set_at [] n value = refl
length-set_at (x ∷ xs) zero value = refl
length-set_at (x ∷ xs) (suc n) value = ap suc (length-set_at xs n value)

get_elem?-set_at :
    (xs : List ℕ) (n value : ℕ) → n < length xs → get_elem? (set_at xs n value) n ≡ some value
unfolding set_at
get_elem?-set_at [] n value l = absurd (omega arith)
get_elem?-set_at (x ∷ xs) zero value l = refl
get_elem?-set_at (x ∷ xs) (suc n) value l = get_elem?-set_at xs n value (omega arith)

get_elem?-set_at_ne :
    (xs : List ℕ) (n k value : ℕ) → k ≢ n → get_elem? (set_at xs n value) k ≡ get_elem? xs k
unfolding set_at
get_elem?-set_at_ne [] n k value ne = refl
get_elem?-set_at_ne (x ∷ xs) zero zero value ne = absurd (ne refl)
get_elem?-set_at_ne (x ∷ xs) zero (suc k) value ne = refl
get_elem?-set_at_ne (x ∷ xs) (suc n) zero value ne = refl
get_elem?-set_at_ne (x ∷ xs) (suc n) (suc k) value ne =
    get_elem?-set_at_ne xs n k value (λ e. ne (ap suc e))

-- A statement about every number below the length of a list, from one for each place.
Places : (ℕ → Type 0) → List ℕ → Type 0
Places P [] = Unit
Places P (x ∷ xs) = P 0 × Places (λ i. P (suc i)) xs

from_places : (P : ℕ → Type 0) (xs : List ℕ) → Places P xs → (i : ℕ) → i < length xs → P i
unfolding Places
from_places P [] p i l = absurd (omega arith)
from_places P (x ∷ xs) p zero l = p.0
from_places P (x ∷ xs) p (suc i) l = from_places (λ j. P (suc j)) xs p.1 i (omega arith)

numbered-with_numbered :
    (g : GeneralRegisters) (xs : List ℕ) → length xs ≡ 16 → numbered (with_numbered g xs) ≡ xs
unfolding with_numbered Places
numbered-with_numbered g xs e = list_ext 0 (numbered (with_numbered g xs)) xs (sym e) (
    from_places (λ i. get_or (numbered (with_numbered g xs)) i 0 ≡ get_or xs i 0) (numbered g)
      (
        refl,
        (
          refl,
          (
            refl,
            (
              refl,
              (
                refl,
                (
                  refl,
                  (
                    refl,
                    (refl, (refl, (refl, (refl, (refl, (refl, (refl, (refl, (refl, tt))))))))),
                  ),
                ),
              ),
            ),
          ),
        ),
      ))

get_elem?-some : (xs : List ℕ) (n : ℕ) → n < length xs → (x : ℕ) × (get_elem? xs n ≡ some x)
get_elem?-some [] n l = absurd (omega arith)
get_elem?-some (x ∷ xs) zero l = (x, refl)
get_elem?-some (x ∷ xs) (suc n) l = get_elem?-some xs n (omega arith)

pub reg-IsOk : (g : GeneralRegisters) (n : ℕ) → n < 16 → (value : ℕ) × (reg g n ≡ ok value)
unfolding reg
reg-IsOk g n l =
    let (x, e) = get_elem?-some (numbered g) n l in
    (x, ap (λ (o : Option ℕ). elim o [ none ↦ panic | some y ↦ ok y ]) e)

pub record Set (g : GeneralRegisters) (n value : ℕ) (g' : GeneralRegisters) : Type 0 where
  pub here : reg g' n ≡ ok value
  pub others : (k : ℕ) → k ≢ n → reg g' k ≡ reg g k
  pub rip : g'.rip ≡ g.rip
  pub rflags : g'.rflags ≡ g.rflags

-- Writing a register by its number succeeds for the numbers 0 to 15 and panics for any other; the
-- register then has the written value, and the other registers, the instruction pointer and the
-- flags are as before.
pub reg_mut-Set :
    (g : GeneralRegisters) (n value : ℕ)
    → (n < 16 → (g' : GeneralRegisters) × (reg_mut g n value ≡ ok g') × Set g n value g')
      × (16 ≤ n → reg_mut g n value ≡ panic)
unfolding reg_mut reg with_numbered
reg_mut-Set g n value =
    let xs = set_at (numbered g) n value in
    let same : numbered (with_numbered g xs) ≡ xs =
      numbered-with_numbered g xs (length-set_at (numbered g) n value) in
    (
      λ l.
          let inside : ltb n 16 ≡ true = ground arith in
          (
            with_numbered g xs,
            rw inside refl,
            record {
              here = ap (λ ys. pick ys n) same ∙ rw (get_elem?-set_at (numbered g) n value l) refl;
              others = λ k ne.
                  ap (λ ys. pick ys k) same
                  ∙ ap (λ (o : Option ℕ). elim o [ none ↦ panic | some x ↦ ok x ])
                      (get_elem?-set_at_ne (numbered g) n k value ne);
              rip = refl;
              rflags = refl;
            },
          ),
      λ l. let outside : ltb n 16 ≡ false = ground arith in rw outside refl,
    )
