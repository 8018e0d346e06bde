-- ===== src/Enforcer/Float.antt =====
-- The floating-point numbers that scores are made of: `float64` and Go's `math.Log`, as an interface.
-- The order is that of numbers; no score is a NaN, since every argument of the logarithm is positive.
use dira.Prelude.{ℕ, ◌≡◌, ◌↔◌, Bool, true, false}

pub record Float : Type 1 where
  pub F : Type 0
  pub zero_f : F
  pub one_f : F
  pub of_nat : ℕ → F
  -- a decimal constant, as its digits and a power of ten: `decimal 38 100` is 0.38
  pub decimal : ℕ → ℕ → F
  pub add : F → F → F
  pub mul : F → F → F
  pub div : F → F → F
  pub log : F → F
  pub lt : F → F → Bool
  pub eq : F → F → Bool

-- What IEEE 754 documents of `<` on numbers.
pub record IsOrdered (fl : Float) : Type 0 where
  pub irreflexive : (a : fl.F) → fl.lt a a ≡ false
  pub asymmetric : (a b : fl.F) → fl.lt a b ≡ true → fl.lt b a ≡ false
  pub negative_transitive :
      (a b c : fl.F) → fl.lt a b ≡ false → fl.lt b c ≡ false → fl.lt a c ≡ false
  pub eq_decides : (a b : fl.F) → (fl.eq a b ≡ true) ↔ ((fl.lt a b ≡ false) × (fl.lt b a ≡ false))
