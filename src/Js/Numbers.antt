-- ===== src/Js/Numbers.antt =====
-- Numbers: the IEEE specials, and the finite doubles as exact fractions.
use quota_shift.Prelude.{ℕ, suc, ◌+◌, ◌*◌, ◌/◌, ◌≡◌, Bool, true, false, arith, leb, if◌then◌else◌}

-- `ratio negative n d` is n / (d + 1) with its sign. Every finite double is such a fraction, and the
-- operations below are exact on doubles.
pub data Number : Type 0 where
  nan : Number
  infinite : Bool → Number
  ratio : Bool → ℕ → ℕ → Number

abbrev pub of_nat : ℕ → Number
of_nat n = ratio false n 0

-- `Number.isFinite(x)`
unfoldable pub is_finite : Number → Bool
is_finite (ratio _ _ _) = true
is_finite _ = false

-- `x >= k` for a natural number k
unfoldable pub at_least : Number → ℕ → Bool
at_least (ratio false n d) k = leb (k * suc d) n
at_least (ratio true n d) k = leb (k + n) 0
at_least (infinite negative) k = if negative then false else true
at_least nan k = false

-- `Math.max(0, Math.round(x))` of a finite number; `Math.round` takes ties up. At a number that
-- passed `x >= 1` it is `Math.round(x)`.
unfoldable pub round_nat : Number → ℕ
round_nat (ratio false n d) = (2 * n + suc d) / (2 * suc d)
round_nat _ = 0

pub at_least-of_nat : (n k : ℕ) → at_least (of_nat n) k ≡ leb k n
unfolding at_least
at_least-of_nat n k = ground arith

pub round_nat-of_nat : (n : ℕ) → round_nat (of_nat n) ≡ n
unfolding round_nat
round_nat-of_nat n = omega arith
