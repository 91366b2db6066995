-- ===== src/Risk/Checks.antt =====
-- What RiskEngine::check_order of risk/src/risk_engine.cpp lets pass, and what a fill of an order
-- that passed does to the portfolio.
use velox_quant.Base.{◌≡◌, ◌↔◌, arith, pos, ◌≤ℤ◌, ltb_ℤ→ge}
use velox_quant.Exchange.Types.{Order, Fill}
use velox_quant.Portfolio.Double.{Double}
use velox_quant.Portfolio.Position.{Position, abs_ℤ}
use velox_quant.Portfolio.Position
use velox_quant.Portfolio.Account.{Portfolio, PriceMap}
use velox_quant.Portfolio.Account
use velox_quant.Risk.{
  RiskEngine, RiskCheckResult, pass, and_then, check_order, check_kill_switch, check_order_qty,
  check_order_notional, check_position_limit, check_exposure, check_daily_loss, check_drawdown,
  post_fill_qty,
}

and_then_iff : (r s : RiskCheckResult) → (and_then r s ≡ pass) ↔ (r ≡ pass) × (s ≡ pass)
and_then_iff r s = ground arith

-- A fill of an order by its whole quantity.
pub record FillsOrder (o : Order) (f : Fill) : Type 0 where
  pub same_symbol : f.symbol_id ≡ o.symbol_id
  pub same_side : f.side ≡ o.side
  pub same_qty : f.fill_qty ≡ o.qty

module _ {ℓ} {W : Type ℓ} ⦃d : Double W⦄ where
  -- An order passes exactly if it passes each of the seven checks.
  pub check_order_iff :
      (e : RiskEngine W) (o : Order) (p : Portfolio W) (prices : PriceMap W)
      → (check_order e o p prices ≡ pass)
        ↔ (check_kill_switch e ≡ pass)
          × (check_order_qty e o ≡ pass)
          × (check_order_notional e o prices ≡ pass)
          × (check_position_limit e o p ≡ pass)
          × (check_exposure e o p prices ≡ pass)
          × (check_daily_loss e ≡ pass)
          × (check_drawdown e ≡ pass)
  unfolding check_order
  check_order_iff e o p prices = grind (arith, and_then_iff)

  -- What passes the check of the position limit would end within it.
  pub check_position_limit-Within :
      (e : RiskEngine W) (o : Order) (p : Portfolio W)
      → check_position_limit e o p ≡ pass
      → pos (abs_ℤ (post_fill_qty o p)) ≤ℤ e.limits.max_position_qty
  unfolding check_position_limit
  check_position_limit-Within e o p h =
      ltb_ℤ→ge e.limits.max_position_qty (pos (abs_ℤ (post_fill_qty o p))) (ground arith)
