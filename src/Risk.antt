-- ===== src/Risk.antt =====
-- risk/include/risk/risk_limits.hpp and risk_engine.hpp, and risk/src/risk_engine.cpp: the checks
-- of an order before it is sent, and the state that a fill updates. The text of a refusal is left
-- out: `RiskCheckResult` names the check that refused.
pub mod Checks
pub mod Events
pub mod Watermark
mod Tests
use velox_quant.Base.{
  ℕ, ltb, Bool, true, false, if◌then◌else◌, List, [], ◌∷◌, ◌++◌, Option, none, some, lookup, ℤ, pos,
  ◌+ℤ◌, ◌-ℤ◌, ltb_ℤ,
}
use velox_quant.MarketData.Types.{Timestamp}
use velox_quant.Exchange.Types.{Order, is_buy}
use velox_quant.Portfolio.Double.{Double, from_price, negated}
use velox_quant.Portfolio.Position.{Position, abs_ℤ}
use velox_quant.Portfolio.Account.{Portfolio, PriceMap, position, nav}
use velox_quant.Portfolio.Account

pub record RiskLimits {ℓ} (W : Type ℓ) : Type ℓ where
  pub max_position_qty : ℤ
  pub max_gross_exposure : W
  pub max_net_exposure : W
  pub max_order_qty : ℕ
  pub max_order_notional : W
  pub max_drawdown_pct : W
  pub max_daily_loss : W
  pub daily_loss_reset_hrs : W
  pub var_limit_95 : W
  pub kill_switch_enabled : Bool

-- A refusal by each check, `check_exposure` by its two tests.
pub data RiskCheckResult : Type 0 where
  pass : RiskCheckResult
  kill_switch order_qty order_notional position_limit gross net daily_loss drawdown :
      RiskCheckResult

pub data BreachType : Type 0 where
  position_limit gross_exposure net_exposure drawdown_limit daily_loss_limit : BreachType
  var_limit kill_switch order_qty_limit order_notional : BreachType

pub record BreachEvent {ℓ} (W : Type ℓ) : Type ℓ where
  pub type : BreachType
  pub timestamp : Timestamp
  pub current_value : W
  pub limit_value : W

-- `breaches` are the calls of the breach callback, in their order.
pub record RiskEngine {ℓ} (W : Type ℓ) : Type ℓ where
  pub limits : RiskLimits W
  pub breaches : List (BreachEvent W)
  pub daily_pnl : W
  pub prev_nav : W
  pub hwm : W
  pub drawdown : W
  pub session_start_ts : Timestamp

-- `if (auto r = ...; !r.ok) return r;`
abbrev pub and_then : RiskCheckResult → RiskCheckResult → RiskCheckResult
and_then RiskCheckResult.pass later = later
and_then refusal later = refusal

module _ {ℓ} {W : Type ℓ} ⦃d : Double W⦄ where
  abbrev pub new_engine : RiskLimits W → RiskEngine W
  new_engine limits = record {
    limits = limits;
    breaches = [];
    daily_pnl = d.nought;
    prev_nav = d.nought;
    hwm = d.nought;
    drawdown = d.nought;
    session_start_ts = pos 0;
  }

  unfoldable pub fire_breach : BreachEvent W → RiskEngine W → RiskEngine W
  fire_breach ev e = record e { breaches = e.breaches ++ ev ∷ [] }

  unfoldable pub check_kill_switch : RiskEngine W → RiskCheckResult
  check_kill_switch e =
      if e.limits.kill_switch_enabled then RiskCheckResult.kill_switch else RiskCheckResult.pass

  unfoldable pub check_order_qty : RiskEngine W → Order → RiskCheckResult
  check_order_qty e o =
      if ltb e.limits.max_order_qty o.qty then RiskCheckResult.order_qty else RiskCheckResult.pass

  -- The price that values an order: its limit, or else the price in the map, if there is one.
  unfoldable pub order_price : Order → PriceMap W → Option W
  order_price o prices =
      if ltb_ℤ (pos 0) o.limit_price
      then some (from_price o.limit_price)
      else lookup o.symbol_id prices

  unfoldable pub check_order_notional : RiskEngine W → Order → PriceMap W → RiskCheckResult
  check_order_notional e o prices = elim (order_price o prices) [
    | none ↦ RiskCheckResult.pass
    | some price ↦
        if d.less e.limits.max_order_notional (d.times price (d.of_integer (pos o.qty)))
        then RiskCheckResult.order_notional
        else RiskCheckResult.pass
  ]

  -- `pos ? pos->qty() : 0`
  unfoldable pub existing_qty : Option (Position W) → ℤ
  existing_qty none = pos 0
  existing_qty (some p) = p.qty

  unfoldable pub post_fill_qty : Order → Portfolio W → ℤ
  post_fill_qty o p =
      let held = existing_qty (position o.symbol_id p) in
      if is_buy o then held +ℤ pos o.qty else held -ℤ pos o.qty

  unfoldable pub check_position_limit : RiskEngine W → Order → Portfolio W → RiskCheckResult
  check_position_limit e o p =
      if ltb_ℤ e.limits.max_position_qty (pos (abs_ℤ (post_fill_qty o p)))
      then RiskCheckResult.position_limit
      else RiskCheckResult.pass

  unfoldable pub estimated_notional : Order → PriceMap W → W
  estimated_notional o prices = elim (order_price o prices) [
    | none ↦ d.nought
    | some price ↦ d.times price (d.of_integer (pos o.qty))
  ]

  unfoldable pub check_exposure : RiskEngine W → Order → Portfolio W → PriceMap W → RiskCheckResult
  check_exposure e o p prices =
      let notional = estimated_notional o prices in
      let post_gross = d.plus (Account.gross_exposure prices p) notional in
      let signed = if is_buy o then notional else negated notional in
      let post_net = d.plus (Account.net_exposure prices p) signed in
      if d.less e.limits.max_gross_exposure post_gross
      then RiskCheckResult.gross
      else if d.less e.limits.max_net_exposure (d.abs post_net)
      then RiskCheckResult.net
      else RiskCheckResult.pass

  unfoldable pub check_daily_loss : RiskEngine W → RiskCheckResult
  check_daily_loss e =
      if d.less e.daily_pnl (negated e.limits.max_daily_loss)
      then RiskCheckResult.daily_loss
      else RiskCheckResult.pass

  unfoldable pub check_drawdown : RiskEngine W → RiskCheckResult
  check_drawdown e =
      if d.less e.limits.max_drawdown_pct e.drawdown
      then RiskCheckResult.drawdown
      else RiskCheckResult.pass

  -- `RiskEngine::check_order`
  unfoldable pub check_order : RiskEngine W → Order → Portfolio W → PriceMap W → RiskCheckResult
  check_order e o p prices = and_then (check_kill_switch e) (
      and_then (check_order_qty e o) (
        and_then (check_order_notional e o prices) (
          and_then (check_position_limit e o p) (
            and_then (check_exposure e o p prices)
              (and_then (check_daily_loss e) (check_drawdown e))))))

  abbrev pub engage_kill_switch : RiskEngine W → RiskEngine W
  engage_kill_switch e = record e { limits = record e.limits { kill_switch_enabled = true } }

  abbrev pub set_limits : RiskLimits W → RiskEngine W → RiskEngine W
  set_limits limits e = record e { limits = limits }

  abbrev pub reset_daily_pnl : Timestamp → RiskEngine W → RiskEngine W
  reset_daily_pnl ts e = record e { daily_pnl = d.nought; session_start_ts = ts }

  abbrev pub set_hwm : W → RiskEngine W → RiskEngine W
  set_hwm nav e = record e { hwm = nav }

  unfoldable pub breach_drawdown : Timestamp → RiskEngine W → RiskEngine W
  breach_drawdown now e =
      if d.less e.limits.max_drawdown_pct e.drawdown
      then fire_breach
          (record {
            type = BreachType.drawdown_limit;
            timestamp = now;
            current_value = e.drawdown;
            limit_value = e.limits.max_drawdown_pct;
          })
          e
      else e

  -- The drawdown from the high-water mark, and its breach.
  unfoldable pub update_drawdown : W → Timestamp → RiskEngine W → RiskEngine W
  update_drawdown nav now e =
      if d.less d.nought e.hwm
      then breach_drawdown now (record e { drawdown = d.over (d.minus e.hwm nav) e.hwm })
      else e

  unfoldable pub raise_hwm : W → RiskEngine W → RiskEngine W
  raise_hwm nav e = if d.less e.hwm nav then record e { hwm = nav } else e

  -- The profit of the day; nothing is added before the first value is known.
  unfoldable pub update_daily_pnl : W → RiskEngine W → RiskEngine W
  update_daily_pnl nav e = record e {
    daily_pnl =
        if d.less d.nought e.prev_nav
        then d.plus e.daily_pnl (d.minus nav e.prev_nav)
        else e.daily_pnl;
    prev_nav = nav;
  }

  unfoldable pub breach_daily_loss : Timestamp → RiskEngine W → RiskEngine W
  breach_daily_loss now e =
      if d.less e.daily_pnl (negated e.limits.max_daily_loss)
      then fire_breach
          (record {
            type = BreachType.daily_loss_limit;
            timestamp = now;
            current_value = e.daily_pnl;
            limit_value = negated e.limits.max_daily_loss;
          })
          e
      else e

  -- `RiskEngine::on_fill`, which does not read the fill
  unfoldable pub on_fill : Portfolio W → PriceMap W → Timestamp → RiskEngine W → RiskEngine W
  on_fill p prices now e =
      let value = nav prices p in
      breach_daily_loss now (update_daily_pnl value (update_drawdown value now (raise_hwm value e)))
