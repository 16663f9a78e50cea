-- ===== src/Double.antt =====
-- What the code does with a `double`: arithmetic, comparisons, the conversions from and to int64_t,
-- and decimal literals. The arithmetic of the machine is a parameter of the model. The laws are those
-- of IEEE 754 that the theorems need; they hold for every value, NaN and the infinities included.
use btrader.Prelude.{ℕ, Bool, true, false, ◌≡◌}
use btrader.Prelude.Int.{ℤ, pos}

pub record Double {ℓ} (D : Type ℓ) : Type ℓ where
  pub zero : D
  pub add : D → D → D
  pub sub : D → D → D
  pub mul : D → D → D
  pub div : D → D → D
  pub lt : D → D → Bool
  pub le : D → D → Bool
  pub eq : D → D → Bool
  -- static_cast<int64_t> and the conversion back
  pub trunc : D → ℤ
  pub of_int : ℤ → D
  -- n / 10 ^ k, as a literal
  pub literal : ℕ → ℕ → D

-- `x < 0` fails. NaN passes.
abbrev pub NotNegative {ℓ} : {D : Type ℓ} ⦃d : Double D⦄ → D → Type 0
NotNegative ⦃d⦄ x = d.lt x d.zero ≡ false

pub record IsIeee {ℓ} (D : Type ℓ) ⦃d : Double D⦄ : Type ℓ where
  pub add_not_negative : (x y : D) → NotNegative x → NotNegative y → NotNegative (d.add x y)
  -- a number below another is also below or equal
  pub le_of_lt : (x y : D) → d.lt x y ≡ true → d.le x y ≡ true
  -- two numbers are not each below the other
  pub lt_asymmetric : (x y : D) → d.lt x y ≡ true → d.lt y x ≡ false
  pub lt_transitive : (x y z : D) → d.lt x y ≡ true → d.lt y z ≡ true → d.lt x z ≡ true
  -- the difference with 0
  pub sub_zero : (x : D) → d.sub x (d.of_int (pos 0)) ≡ x

-- The operations that the strategies use beside those: unary minus and std::abs.
pub record Signed {ℓ} (D : Type ℓ) : Type ℓ where
  pub neg : D → D
  pub abs : D → D
