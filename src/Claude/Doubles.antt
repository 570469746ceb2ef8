-- ===== src/Claude/Doubles.antt =====
-- The doubles other than NaN, as the guardrails and the adaptive polling of src/utils/claude/guardrails
-- calculate with them: an interface of operations, and the laws of their order.
use quota_shift.Prelude.{ℕ, ◌≤◌, ◌≡◌, Bool, true, false}

pub record Doubles {ℓ} (D : Type ℓ) : Type ℓ where
  pub of_nat : ℕ → D
  -- `0.15`
  pub backoff : D
  -- `Number.POSITIVE_INFINITY`
  pub infinity : D
  pub is_finite : D → Bool
  -- `x >= y`
  pub at_least : D → D → Bool
  pub max : D → D → D
  pub min : D → D → D
  pub add : D → D → D
  pub sub : D → D → D
  pub mul : D → D → D
  pub div : D → D → D
  pub ceil : D → D
  pub round : D → D

-- What IEEE 754 and ECMAScript say of these operations, as far as the theorems rely on it.
pub record IsOrdered {ℓ} {D : Type ℓ} (d : Doubles D) : Type ℓ where
  pub at_least_refl : (x : D) → d.at_least x x ≡ true
  pub at_least_trans :
      (x y z : D) → d.at_least x y ≡ true → d.at_least y z ≡ true → d.at_least x z ≡ true
  pub at_least_total : (x y : D) → d.at_least x y ≡ false → d.at_least y x ≡ true
  -- Positive whole numbers are equal to what is neither above nor below them.
  pub at_least_antisym :
      (x : D) (n : ℕ)
      → 1 ≤ n
      → d.at_least x (d.of_nat n) ≡ true
      → d.at_least (d.of_nat n) x ≡ true
      → x ≡ d.of_nat n
  pub of_nat_mono : (m n : ℕ) → m ≤ n → d.at_least (d.of_nat n) (d.of_nat m) ≡ true
  pub of_nat_finite : (n : ℕ) → d.is_finite (d.of_nat n) ≡ true
  pub max_left : (x y : D) → d.at_least (d.max x y) x ≡ true
  pub max_right : (x y : D) → d.at_least (d.max x y) y ≡ true
  pub max_least :
      (x y z : D) → d.at_least z x ≡ true → d.at_least z y ≡ true → d.at_least z (d.max x y) ≡ true
  pub min_left : (x y : D) → d.at_least x (d.min x y) ≡ true
  pub min_right : (x y : D) → d.at_least y (d.min x y) ≡ true
  pub min_greatest :
      (x y z : D) → d.at_least x z ≡ true → d.at_least y z ≡ true → d.at_least (d.min x y) z ≡ true
  pub infinity_above : (x : D) → d.at_least d.infinity x ≡ true
  -- A difference with a whole number is not above its first operand.
  pub sub_below : (x : D) (n : ℕ) → d.at_least x (d.sub x (d.of_nat n)) ≡ true
  -- Growth by the backoff is not below one.
  pub backoff_above :
      (x : D)
      → d.at_least x (d.of_nat 1) ≡ true
      → d.at_least (d.add (d.of_nat 1) (d.mul x d.backoff)) (d.of_nat 1) ≡ true
  pub mul_one : (n : ℕ) → d.mul (d.of_nat n) (d.of_nat 1) ≡ d.of_nat n
  pub round_whole : (n : ℕ) → d.round (d.of_nat n) ≡ d.of_nat n
  -- A positive whole number grows by a factor that is not below one, and rounding keeps it so.
  pub round_mul_above :
      (n : ℕ) (x : D)
      → 1 ≤ n
      → d.at_least x (d.of_nat 1) ≡ true
      → d.at_least (d.round (d.mul (d.of_nat n) x)) (d.of_nat n) ≡ true
