-- ===== src/Prelude/Bytes.antt =====
-- Little-endian words as lists of bytes: `to_le_bytes` and `from_le_bytes`.
use Prim.Native.Nat.{ℕ, zero, suc, ◌+◌, ◌*◌, ◌/◌, ◌%◌, ◌^◌, ◌<◌}
use mathlib.Core.Path.{◌≡◌, refl, ap}
use mathlib.Core.List.{List, [], ◌∷◌}
use native.Mathlib.Nat.{pow-suc}
use native.Mathlib.Omega.{arith}
use yl.Prelude.Lists.{length, All}
use yl.Prelude.Tests.{u64_mod}

-- The `n` low bytes of `x`, the lowest first.
unfoldable pub to_le : ℕ → ℕ → List ℕ
to_le zero x = []
to_le (suc n) x = x % 256 ∷ to_le n (x / 256)

unfoldable pub from_le : List ℕ → ℕ
from_le [] = 0
from_le (b ∷ bs) = b + 256 * from_le bs

abbrev pub IsBytes : List ℕ → Type 0
IsBytes = All (λ b. b < 256)

pub length-to_le : (n x : ℕ) → length (to_le n x) ≡ n
unfolding to_le
length-to_le zero x = refl
length-to_le (suc n) x = ap suc (length-to_le n (x / 256))

pub to_le-IsBytes : (n x : ℕ) → IsBytes (to_le n x)
unfolding to_le
to_le-IsBytes zero x = tt
to_le-IsBytes (suc n) x = (omega arith, to_le-IsBytes n (x / 256))

pub from_le-to_le : (n x : ℕ) → x < 256 ^ n → from_le (to_le n x) ≡ x
unfolding to_le from_le
from_le-to_le zero x h = omega arith
from_le-to_le (suc n) x h =
    let small : x < 256 ^ n * 256 = rw pow-suc at h in
    omega (arith, from_le-to_le n (x / 256) (omega arith))

pub from_le-lt : (bs : List ℕ) → IsBytes bs → from_le bs < 256 ^ length bs
unfolding from_le
from_le-lt [] h = omega arith
from_le-lt (b ∷ bs) h = rw pow-suc (omega (arith, from_le-lt bs h.1))

-- A 64-bit word survives the trip through its eight bytes.
pub from_le-to_le_u64 : (x : ℕ) → x < u64_mod → from_le (to_le 8 x) ≡ x
from_le-to_le_u64 x h = from_le-to_le 8 x h
