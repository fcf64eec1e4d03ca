-- ===== src/Prelude/Outcome.antt =====
-- `Result<T, DaotiError>` of crates/daoti-common/src/error.rs, with a third outcome for a Rust
-- panic: an overflowing `+`, `-` or `*`, or an index out of range. A formatted message is kept
-- as its text and the numbers put into it.
use Prim.Native.Nat.{ℕ, ◌+◌, ◌-◌}
use Prim.Native.String.{String}
use mathlib.Core.Path.{◌≡◌, refl}
use mathlib.Core.Bool.{Bool, true, false}
use mathlib.Core.Option
use mathlib.Core.Option.{Option, none, some}
use mathlib.Core.List.{List}
use yl.Prelude.Tests.{ltb, leb, if◌then◌else◌, u64_mod}

-- The variants that the modelled code builds. `unfinished` is none of the program's: it is what a
-- loop of the model gives that runs out of fuel.
pub data DaotiError : Type 0 where
  other : String → List ℕ → DaotiError
  unavailable : String → List ℕ → DaotiError
  io : DaotiError
  unfinished : DaotiError

pub data Result {ℓ} (A : Type ℓ) : Type ℓ where
  panic : Result A
  err : DaotiError → Result A
  ok : A → Result A

-- The `?` operator: the first error or panic ends the function.
infixl 5 ◌>>=◌ ◌>>◌
abbrev pub ◌>>=◌ {ℓ κ} : {X : Type ℓ} {Y : Type κ} → Result X → (X → Result Y) → Result Y
panic >>= next = panic
err e >>= next = err e
ok x >>= next = next x

abbrev pub ◌>>◌ {ℓ} : {Y : Type ℓ} → Result (Unit {0}) → Result Y → Result Y
first >> second = first >>= (λ _. second)

-- `if !test { return Err(e) }`
abbrev pub require : Bool → DaotiError → Result (Unit {0})
require true e = ok tt
require false e = err e

-- `.ok_or_else(|| e)?`
abbrev pub ok_or {ℓ} : {A : Type ℓ} → Option A → DaotiError → Result A
ok_or none e = err e
ok_or (some a) e = ok a

-- `checked_add` and `checked_sub` on 64-bit words.
abbrev pub checked_add : ℕ → ℕ → Option ℕ
checked_add a b = if ltb (a + b) u64_mod then some (a + b) else none

abbrev pub checked_sub : ℕ → ℕ → Option ℕ
checked_sub a b = if leb b a then some (a - b) else none

-- `saturating_add` on 64-bit words.
abbrev pub saturating_add : ℕ → ℕ → ℕ
saturating_add a b = if ltb (a + b) u64_mod then a + b else u64_mod - 1

-- A plain `+` on 64-bit words, with overflow checks.
abbrev pub add_u64 : ℕ → ℕ → Result ℕ
add_u64 a b = if ltb (a + b) u64_mod then ok (a + b) else panic

-- A plain `-` on 64-bit words, with overflow checks.
abbrev pub sub_u64 : ℕ → ℕ → Result ℕ
sub_u64 a b = if leb b a then ok (a - b) else panic

abbrev pub IsOk {ℓ} : {A : Type ℓ} → Result A → Type 0
IsOk (ok a) = Unit
IsOk (err e) = ⊥
IsOk panic = ⊥

abbrev pub IsSafe {ℓ} : {A : Type ℓ} → Result A → Type 0
IsSafe (ok a) = Unit
IsSafe (err e) = Unit
IsSafe panic = ⊥

-- What holds of the value, if there is one.
abbrev pub OnSome {ℓ κ} : {A : Type ℓ} → Option A → (A → Type κ) → Type κ
OnSome none P = Unit
OnSome (some a) P = P a

abbrev pub OnOk {ℓ κ} : {A : Type ℓ} → Result A → (A → Type κ) → Type κ
OnOk (ok a) P = P a
OnOk (err e) P = Unit
OnOk panic P = Unit

pub OnSome-apply {ℓ κ} :
    {A : Type ℓ} {o : Option A} {a : A} (P : A → Type κ) → OnSome o P → o ≡ some a → P a
OnSome-apply P h e = rw e at h

pub OnSome-map {ℓ κ μ ν} :
    {A : Type ℓ} {B : Type κ} (P : A → Type μ) (Q : B → Type ν) (f : A → B) (o : Option A)
    → ((a : A) → P a → Q (f a))
    → OnSome o P
    → OnSome (Option.map f o) Q
OnSome-map P Q f none g h = tt
OnSome-map P Q f (some a) g h = g a h

pub OnSome-× {ℓ κ μ} :
    {A : Type ℓ} (P : A → Type κ) (Q : A → Type μ) (o : Option A)
    → OnSome o P
    → OnSome o Q
    → OnSome o (λ a. P a × Q a)
OnSome-× P Q none p q = tt
OnSome-× P Q (some a) p q = (p, q)

pub OnOk-apply {ℓ κ} :
    {A : Type ℓ} {m : Result A} {a : A} (P : A → Type κ) → OnOk m P → m ≡ ok a → P a
OnOk-apply P h e = rw e at h

pub OnOk->>= {ℓ κ μ} :
    {X : Type ℓ} {Y : Type κ} (m : Result X) (f : X → Result Y) (P : Y → Type μ)
    → OnOk m (λ a. OnOk (f a) P)
    → OnOk (m >>= f) P
OnOk->>= (ok a) f P h = h
OnOk->>= (err e) f P h = tt
OnOk->>= panic f P h = tt

pub OnOk-map {ℓ κ μ ν} :
    {A : Type ℓ} {B : Type κ} (P : A → Type μ) (Q : B → Type ν) (f : A → B) (m : Result A)
    → ((a : A) → P a → Q (f a))
    → OnOk m P
    → OnOk (m >>= (λ a. ok (f a))) Q
OnOk-map P Q f (ok a) g h = g a h
OnOk-map P Q f (err e) g h = tt
OnOk-map P Q f panic g h = tt

pub OnOk-intro {ℓ κ} :
    {A : Type ℓ} (m : Result A) (P : A → Type κ) → ((a : A) → m ≡ ok a → P a) → OnOk m P
OnOk-intro (ok a) P h = h a refl
OnOk-intro (err e) P h = tt
OnOk-intro panic P h = tt

pub OnSome-weaken {ℓ κ μ} :
    {A : Type ℓ} (P : A → Type κ) (Q : A → Type μ) (o : Option A)
    → ((a : A) → P a → Q a)
    → OnSome o P
    → OnSome o Q
OnSome-weaken P Q none g h = tt
OnSome-weaken P Q (some a) g h = g a h

pub OnOk-weaken {ℓ κ μ} :
    {A : Type ℓ} (P : A → Type κ) (Q : A → Type μ) (m : Result A)
    → ((a : A) → P a → Q a)
    → OnOk m P
    → OnOk m Q
OnOk-weaken P Q (ok a) g h = g a h
OnOk-weaken P Q (err e) g h = tt
OnOk-weaken P Q panic g h = tt

pub IsSafe->>= {ℓ κ} :
    {X : Type ℓ} {Y : Type κ} (m : Result X) (f : X → Result Y)
    → IsSafe m
    → OnOk m (λ a. IsSafe (f a))
    → IsSafe (m >>= f)
IsSafe->>= (ok a) f s h = h
IsSafe->>= (err e) f s h = tt
IsSafe->>= panic f s h = s

pub IsSafe-map {ℓ κ} :
    {A : Type ℓ} {B : Type κ} (m : Result A) (f : A → B) → IsSafe m → IsSafe (m >>= (λ a. ok (f a)))
IsSafe-map (ok a) f s = tt
IsSafe-map (err e) f s = tt
IsSafe-map panic f s = s

-- A property of a chain, from one of its first part.
pub OnOk-chain {ℓ κ μ ν} :
    {X : Type ℓ} {Y : Type κ} (m : Result X) (f : X → Result Y) (Q : X → Type μ) (P : Y → Type ν)
    → OnOk m Q
    → ((x : X) → Q x → OnOk (f x) P)
    → OnOk (m >>= f) P
OnOk-chain panic f Q P q k = tt
OnOk-chain (err e) f Q P q k = tt
OnOk-chain (ok x) f Q P q k = k x q

pub IsOk->>= {ℓ κ} :
    {X : Type ℓ} {Y : Type κ} (m : Result X) (f : X → Result Y)
    → IsOk m
    → ((x : X) → m ≡ ok x → IsOk (f x))
    → IsOk (m >>= f)
IsOk->>= panic f s k = s
IsOk->>= (err e) f s k = s
IsOk->>= (ok x) f s k = k x refl

pub IsOk-map {ℓ κ} :
    {X : Type ℓ} {Y : Type κ} (m : Result X) (f : X → Y) → IsOk m → IsOk (m >>= (λ x. ok (f x)))
IsOk-map panic f s = s
IsOk-map (err e) f s = s
IsOk-map (ok x) f s = tt

-- A property of a chain, for every value of its first part.
pub OnOk-bind {ℓ κ μ} :
    {X : Type ℓ} {Y : Type κ} (m : Result X) (f : X → Result Y) (P : Y → Type μ)
    → ((x : X) → m ≡ ok x → OnOk (f x) P)
    → OnOk (m >>= f) P
OnOk-bind panic f P k = tt
OnOk-bind (err e) f P k = tt
OnOk-bind (ok x) f P k = k x refl

pub OnOk-zip {ℓ κ μ} :
    {A : Type ℓ} (P : A → Type κ) (Q : A → Type μ) (m : Result A)
    → OnOk m P
    → OnOk m Q
    → OnOk m (λ a. P a × Q a)
OnOk-zip P Q panic p q = tt
OnOk-zip P Q (err e) p q = tt
OnOk-zip P Q (ok a) p q = (p, q)

pub IsOk-IsSafe {ℓ} : {A : Type ℓ} (m : Result A) → IsOk m → IsSafe m
IsOk-IsSafe panic s = s
IsOk-IsSafe (err e) s = tt
IsOk-IsSafe (ok a) s = tt

pub OnOk-if {ℓ κ} :
    {A : Type ℓ} (b : Bool) (x y : Result A) (P : A → Type κ)
    → OnOk x P
    → OnOk y P
    → OnOk (if b then x else y) P
OnOk-if true x y P p q = p
OnOk-if false x y P p q = q
