-- ===== src/Prelude/Bits.antt =====
-- Facts about bit operations on bytes, by evaluation over all values.
use Prim.Native.Nat.{ℕ, zero, suc, ◌+◌, ◌*◌, ◌<◌, ◌≤◌, bit_or}
use mathlib.Core.Path.{◌≡◌, refl}
use mathlib.Core.Bool.{Bool, true, false}
use native.Mathlib.Omega.{arith}
use cant.Prelude.Tests.{◌==◌, ==_iff, if◌then◌else◌}

-- A test of all numbers from the given one down.
up_to : (ℕ → Bool) → ℕ → Bool
up_to p zero = p 0
up_to p (suc top) = let lower = up_to p top in if p (suc top) then lower else false

up_to_lem : (p : ℕ → Bool) (top i : ℕ) → i ≤ top → up_to p top ≡ true → p i ≡ true
unfolding up_to
up_to_lem p zero zero le all_of = all_of
up_to_lem p zero (suc i) le all_of = absurd (omega arith)
up_to_lem p (suc top) i le all_of = ground (arith, up_to_lem p top i)

zeroes_join : up_to (λ i. bit_or 0 i == i) 15 ≡ true
unfolding up_to
zeroes_join = refl

firsts_join : up_to (λ i. bit_or 16 i == 16 + i) 15 ≡ true
unfolding up_to
firsts_join = refl

seconds_join : up_to (λ i. bit_or 32 i == 32 + i) 15 ≡ true
unfolding up_to
seconds_join = refl

bytes_join : up_to (λ h. up_to (λ l. bit_or (h * 256) l == h * 256 + l) 255) 15 ≡ true
unfolding up_to
bytes_join = refl

-- Twelve bits from a nibble and a byte.
pub bit_or-join : (h l : ℕ) → h < 16 → l < 256 → bit_or (h * 256) l ≡ h * 256 + l
bit_or-join h l p q =
    let row = up_to_lem _ 15 h (omega arith) bytes_join in
    (==_iff _ _).0 (up_to_lem _ 255 l (omega arith) row)

-- A low nibble joined to a frame type in the high nibble.
pub bit_or-zero_nibble : (x : ℕ) → x < 16 → bit_or 0 x ≡ x
bit_or-zero_nibble x h = (==_iff _ _).0 (up_to_lem _ 15 x (omega arith) zeroes_join)

pub bit_or-first_nibble : (x : ℕ) → x < 16 → bit_or 16 x ≡ 16 + x
bit_or-first_nibble x h = (==_iff _ _).0 (up_to_lem _ 15 x (omega arith) firsts_join)

pub bit_or-second_nibble : (x : ℕ) → x < 16 → bit_or 32 x ≡ 32 + x
bit_or-second_nibble x h = (==_iff _ _).0 (up_to_lem _ 15 x (omega arith) seconds_join)
