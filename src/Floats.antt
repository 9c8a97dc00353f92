-- ===== src/Floats.antt =====
-- float64: a value is its 64-bit pattern, so that 0 is the number 0.0, and the operations of the
-- hardware and of package math are parameters.
use netbula.Base.{ℕ, String, ◌≡◌, Bool, true, false}
use netbula.Base.Int.{ℤ}

pub record Floats : Type 0 where
  -- The value of a decimal literal of the source.
  pub literal : String → ℕ
  pub add : ℕ → ℕ → ℕ
  pub sub : ℕ → ℕ → ℕ
  pub mul : ℕ → ℕ → ℕ
  pub div : ℕ → ℕ → ℕ
  pub pow : ℕ → ℕ → ℕ
  pub lt : ℕ → ℕ → Bool
  pub is_nan : ℕ → Bool
  -- The conversions `float64(x)` and `int(f)`.
  pub of_int : ℤ → ℕ
  pub to_int : ℕ → ℤ

-- IEEE comparison is a strict weak order on the values that are numbers.
pub record IsOrdered (F : Floats) : Type 0 where
  pub lt_irrefl : (a : ℕ) → F.lt a a ≡ false
  pub lt_asymm : (a b : ℕ) → F.lt a b ≡ true → F.lt b a ≡ false
  pub lt_neg_trans :
      (a b c : ℕ) → F.is_nan b ≡ false → F.lt a b ≡ false → F.lt b c ≡ false → F.lt a c ≡ false
  pub lt_tenth : F.lt (F.literal "0.1") (F.literal "1.0") ≡ true
