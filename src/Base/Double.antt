-- ===== src/Base/Double.antt =====
-- The numbers of JavaScript that are not negative: fractions that are rounded to 53 binary digits, the
-- nearest one, and the even one of two that are as near. They are taken to be neither too large nor too
-- small for a double, so that nothing overflows or loses digits.
pub mod Error
use Prim.Native.Nat.{ℕ, zero, suc, ◌+◌, ◌*◌, ◌/◌, ◌%◌, ◌^◌}
use mathlib.Core.Bool.{true, false}
use unouns_monorepo.Base.Tests.{ltb, leb, ◌==◌, if◌then◌else◌}

-- the numerator and the denominator
abbrev pub Double : Type 0
Double = ℕ × ℕ

unfoldable pub round_even : ℕ → ℕ → ℕ
round_even n d =
    let q = n / d in
    let twice = 2 * (n % d) in if ltb twice d then q else if ltb d twice then suc q else q + q % 2

-- a number below 2 ^ 52, doubled up to it, as often as a double can
unfoldable pub grow : ℕ → ℕ → ℕ → ℕ → Double
unfolding round_even
grow zero n d p = (round_even n d, p)
grow (suc fuel) n d p = elim (ltb n (2 ^ 52 * d)) [
  | true ↦ grow fuel (2 * n) d (2 * p)
  | false ↦ (round_even n d, p)
]

-- a number above that, halved down below 2 ^ 53
unfoldable pub shrink : ℕ → ℕ → ℕ → ℕ → Double
unfolding round_even
shrink zero n d s = (round_even n d * s, 1)
shrink (suc fuel) n d s = elim (ltb n (2 ^ 53 * d)) [
  | true ↦ (round_even n d * s, 1)
  | false ↦ shrink fuel n (2 * d) (2 * s)
]

unfoldable pub rounded : ℕ → ℕ → Double
unfolding grow shrink
rounded n d = elim (n == 0) [
  | true ↦ (0, 1)
  | false ↦ elim (ltb n (2 ^ 52 * d)) [ true ↦ grow 1074 n d 1 | false ↦ shrink 1024 n d 1 ]
]

-- a whole number up to 2 ^ 53
abbrev pub whole : ℕ → Double
whole n = (n, 1)

infixl 70 ◌*ᵈ◌ ◌/ᵈ◌
infixl 65 ◌+ᵈ◌
unfoldable pub ◌*ᵈ◌ : Double → Double → Double
unfolding rounded
(a, b) *ᵈ (c, d) = rounded (a * c) (b * d)

unfoldable pub ◌/ᵈ◌ : Double → Double → Double
unfolding rounded
(a, b) /ᵈ (c, d) = rounded (a * d) (b * c)

unfoldable pub ◌+ᵈ◌ : Double → Double → Double
unfolding rounded
(a, b) +ᵈ (c, d) = rounded (a * d + c * b) (b * d)

unfoldable pub min_double : Double → Double → Double
min_double (a, b) (c, d) = if ltb (c * b) (a * d) then (c, d) else (a, b)

-- `Math.floor`
unfoldable pub floor : Double → ℕ
floor (a, b) = a / b
