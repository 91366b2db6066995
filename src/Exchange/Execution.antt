-- ===== src/Exchange/Execution.antt =====
-- ExecutionSimulator of exchange/include/exchange/execution_sim.hpp and
-- exchange/src/execution_sim.cpp: slippage and commission of a fill.
pub mod Walk
mod Tests
use velox_quant.Base.{
  ℕ, ◌+◌, ◌*◌, ◌-◌, ◌==◌, ◌/◌, min, Bool, true, false, if◌then◌else◌, ◌||◌, List, [], ◌∷◌, ℤ, pos,
  ◌+ℤ◌, ◌-ℤ◌, eqb_ℤ,
}
use velox_quant.MarketData.Types.{Price, Quantity, Side}
use velox_quant.MarketData.Portal.Bars.{times_size, over_size}
use velox_quant.Exchange.Types.{Fill, PriceLevel, side_is_buy}
use velox_quant.Portfolio.Double.{Double, from_price}

-- What else this component does with a `double`; `to_integer` is the cast, which cuts off.
pub record Rates {ℓ} (W : Type ℓ) : Type ℓ where
  pub to_integer : W → ℤ
  pub square_root : W → W
  pub at_most : W → W → Bool
  pub ten_thousand : W
  pub hundred_million : W
  pub half : W

pub data SlippageModel : Type 0 where
  none fixed linear sqrt_impact book_walk : SlippageModel

pub data CommissionModel : Type 0 where
  none per_share per_trade bps : CommissionModel

pub record ExecutionSimConfig {ℓ} (W : Type ℓ) : Type ℓ where
  pub slippage_model : SlippageModel
  pub fixed_slippage_bps : W
  pub linear_impact_bps : W
  pub sigma : W
  pub adv_qty : W
  pub commission_model : CommissionModel
  pub per_share_rate : W
  pub per_trade_flat : W
  pub bps_rate : W

-- The walk over the levels: what is left to fill and the sum of price times quantity.
unfoldable pub walk_levels : List PriceLevel → Quantity → ℤ → Quantity × ℤ
walk_levels [] remaining pv = (remaining, pv)
walk_levels (lvl ∷ more) remaining pv =
    let taken = min remaining lvl.total_qty in
    let rest = walk_levels more (remaining - taken) (pv +ℤ times_size lvl.price taken) in
    if remaining == 0 then (remaining, pv) else rest

-- `depth.back()`, of a level and those after it
unfoldable pub last_level : PriceLevel → List PriceLevel → PriceLevel
last_level lvl [] = lvl
last_level lvl (next ∷ more) = last_level next more

-- The rest of the quantity trades at the last level, as if it went on.
unfoldable pub walk_total : PriceLevel → List PriceLevel → Quantity → ℤ
walk_total lvl more qty =
    let walked = walk_levels (lvl ∷ more) qty (pos 0) in
    if walked.0 == 0
    then walked.1
    else walked.1 +ℤ times_size (last_level lvl more).price (walked.0)

unfoldable pub signed_slippage : Side → Price → Price → Price
signed_slippage side vwap arrival = if side_is_buy side then vwap -ℤ arrival else arrival -ℤ vwap

unfoldable pub book_walk_slippage : Side → Quantity → Price → List PriceLevel → Price
book_walk_slippage side qty arrival [] = pos 0
book_walk_slippage side qty arrival (lvl ∷ more) =
    if eqb_ℤ arrival (pos 0) || qty == 0
    then pos 0
    else signed_slippage side (over_size (walk_total lvl more qty) qty) arrival

module _ {ℓ} {W : Type ℓ} ⦃d : Double W⦄ ⦃r : Rates W⦄ where
  -- `md::to_price`
  abbrev pub to_price : W → Price
  to_price x = r.to_integer (d.plus (d.times x r.hundred_million) r.half)

  -- A part of a price in ten thousandths.
  unfoldable pub bps_of : Price → W → Price
  bps_of price rate = r.to_integer (d.over (d.times (d.of_integer price) rate) r.ten_thousand)

  unfoldable pub fixed_slippage : ExecutionSimConfig W → Price → Price
  fixed_slippage cfg arrival =
      if eqb_ℤ arrival (pos 0) then pos 0 else bps_of arrival cfg.fixed_slippage_bps

  abbrev pub participation : ExecutionSimConfig W → Quantity → W
  participation cfg qty = d.over (d.of_integer (pos qty)) cfg.adv_qty

  unfoldable pub linear_slippage : ExecutionSimConfig W → Quantity → Price → Price
  linear_slippage cfg qty arrival =
      if eqb_ℤ arrival (pos 0) || r.at_most cfg.adv_qty d.nought
      then pos 0
      else bps_of arrival (d.times cfg.linear_impact_bps (participation cfg qty))

  unfoldable pub sqrt_impact_slippage : ExecutionSimConfig W → Quantity → Price → Price
  sqrt_impact_slippage cfg qty arrival =
      if eqb_ℤ arrival (pos 0) || r.at_most cfg.adv_qty d.nought || r.at_most cfg.sigma d.nought
      then pos 0
      else r.to_integer (
          d.times (d.of_integer arrival)
            (d.times cfg.sigma (r.square_root (participation cfg qty))))

  unfoldable pub compute_slippage :
      ExecutionSimConfig W → Side → Quantity → Price → List PriceLevel → Price
  compute_slippage cfg side qty arrival depth = elim cfg.slippage_model [
    | SlippageModel.none ↦ pos 0
    | SlippageModel.fixed ↦ fixed_slippage cfg arrival
    | SlippageModel.linear ↦ linear_slippage cfg qty arrival
    | SlippageModel.sqrt_impact ↦ sqrt_impact_slippage cfg qty arrival
    | SlippageModel.book_walk ↦ book_walk_slippage side qty arrival depth
  ]

  -- Without a book, the walk falls back to the linear model.
  unfoldable pub model_slippage : ExecutionSimConfig W → Quantity → Price → Price
  model_slippage cfg qty arrival = elim cfg.slippage_model [
    | SlippageModel.none ↦ pos 0
    | SlippageModel.fixed ↦ fixed_slippage cfg arrival
    | SlippageModel.linear ↦ linear_slippage cfg qty arrival
    | SlippageModel.sqrt_impact ↦ sqrt_impact_slippage cfg qty arrival
    | SlippageModel.book_walk ↦ linear_slippage cfg qty arrival
  ]

  unfoldable pub compute_commission : ExecutionSimConfig W → Quantity → Price → Price
  compute_commission cfg qty price = elim cfg.commission_model [
    | CommissionModel.none ↦ pos 0
    | CommissionModel.per_share ↦ times_size (to_price cfg.per_share_rate) qty
    | CommissionModel.per_trade ↦ to_price cfg.per_trade_flat
    | CommissionModel.bps ↦ to_price (
        d.over (d.times (d.times (from_price price) (d.of_integer (pos qty))) cfg.bps_rate)
          r.ten_thousand)
  ]

  unfoldable pub annotate : ExecutionSimConfig W → Price → List PriceLevel → Fill → Fill
  annotate cfg arrival depth f = record f {
    slippage = compute_slippage cfg f.side f.fill_qty arrival depth;
    commission = compute_commission cfg f.fill_qty f.fill_price;
  }
