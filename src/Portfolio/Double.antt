-- ===== src/Portfolio/Double.antt =====
-- All that portfolio/, risk/ and exchange/src/execution_sim.cpp do with a `double`, as a parameter:
-- nothing is said about rounding.
use velox_quant.Base.{
  arith, Bool, true, false, ◌≡◌, ℤ, pos, ◌+ℤ◌, ◌-ℤ◌, ltb_ℤ, sub_ℕ, pos_part, neg_part, ◌+◌, ◌*◌,
  ◌/◌,
}
use velox_quant.MarketData.Types.{Price}

pub record Double {ℓ} (W : Type ℓ) : Type ℓ where
  pub nought : W
  pub plus : W → W → W
  pub minus : W → W → W
  pub times : W → W → W
  pub over : W → W → W
  pub abs : W → W
  pub less : W → W → Bool
  -- `static_cast<double>` of an integer
  pub of_integer : ℤ → W
  -- the constant `1e-8`
  pub price_unit : W

-- `md::from_price`
abbrev pub from_price {ℓ} : {W : Type ℓ} ⦃d : Double W⦄ → Price → W
from_price ⦃d⦄ p = d.times (d.of_integer p) d.price_unit

-- `-x`
abbrev pub negated {ℓ} : {W : Type ℓ} ⦃d : Double W⦄ → W → W
negated ⦃d⦄ x = d.minus d.nought x

-- `<` orders the values: NaN, which is neither less nor greater, keeps both laws.
pub record IsOrdered {ℓ} (W : Type ℓ) ⦃d : Double W⦄ : Type ℓ where
  pub less_irrefl : (x : W) → d.less x x ≡ false
  pub less_asym : (x y : W) → d.less x y ≡ true → d.less y x ≡ false

-- The laws can be met: whole units, with a price unit of one and the division of the magnitude.
abbrev pub times_ℤ : ℤ → ℤ → ℤ
times_ℤ a b =
    sub_ℕ (pos_part a * pos_part b + neg_part a * neg_part b)
      (pos_part a * neg_part b + neg_part a * pos_part b)

abbrev pub over_ℤ : ℤ → ℤ → ℤ
over_ℤ a b = sub_ℕ (pos_part a / (pos_part b + neg_part b)) (neg_part a / (pos_part b + neg_part b))

instance abbrev pub whole_double : Double ℤ
whole_double = record {
  nought = pos 0;
  plus = ◌+ℤ◌;
  minus = ◌-ℤ◌;
  times = times_ℤ;
  over = over_ℤ;
  abs = λ a. pos (pos_part a + neg_part a);
  less = ltb_ℤ;
  of_integer = λ a. a;
  price_unit = pos 1;
}

pub Whole-IsOrdered : IsOrdered ℤ
unfolding ltb_ℤ
Whole-IsOrdered = ground arith
