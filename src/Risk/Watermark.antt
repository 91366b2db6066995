-- ===== src/Risk/Watermark.antt =====
-- What RiskEngine::on_fill of risk/src/risk_engine.cpp does to the high-water mark, the drawdown and
-- the breaches.
use velox_quant.Base.{◌≡◌, ◌≢◌, ◌⊎◌, inl, inr, true, false, Bool-cases, arith, List, [], ◌∷◌}
use velox_quant.MarketData.Types.{Timestamp}
use velox_quant.Exchange.Types.{Order}
use velox_quant.Portfolio.Double.{Double, IsOrdered, negated}
use velox_quant.Portfolio.Account.{Portfolio, PriceMap, nav}
use velox_quant.Risk.{
  RiskEngine, BreachEvent, BreachType, on_fill, raise_hwm, update_drawdown, update_daily_pnl,
  breach_daily_loss, fire_breach, breach_drawdown, RiskCheckResult, pass, check_order,
}

module _ {ℓ} {W : Type ℓ} ⦃d : Double W⦄ where
  -- After a fill the high-water mark is the larger of the old mark and the value of the portfolio:
  -- it is below neither.
  pub on_fill-hwm :
      ⦃laws : IsOrdered W⦄ (p : Portfolio W) (prices : PriceMap W) (now : Timestamp)
      (e : RiskEngine W)
      → (d.less (on_fill p prices now e).hwm e.hwm ≡ false)
        × (d.less (on_fill p prices now e).hwm (nav prices p) ≡ false)
  unfolding on_fill breach_daily_loss update_daily_pnl update_drawdown breach_drawdown raise_hwm
      fire_breach
  on_fill-hwm ⦃laws⦄ p prices now e = elim (Bool-cases (d.less e.hwm (nav prices p))) [
    | inl up ↦ ground (arith, laws.less_irrefl (nav prices p), laws.less_asym e.hwm (nav prices p))
    | inr level ↦ ground (arith, laws.less_irrefl e.hwm)
  ]

  -- A call of the callback, if the engine now refuses every order, and none, if it would pass a check.
  abbrev pub Alarms : RiskEngine W → RiskCheckResult → BreachEvent W → List (BreachEvent W) → Type ℓ
  Alarms f check event events =
      ((events ≡ event ∷ [])
        × ((o : Order) (p : Portfolio W) (prices : PriceMap W) → check_order f o p prices ≢ pass))
      ⊎ ((events ≡ []) × (check ≡ pass))

  abbrev pub drawdown_breach : Timestamp → RiskEngine W → BreachEvent W
  drawdown_breach now f = record {
    type = BreachType.drawdown_limit;
    timestamp = now;
    current_value = f.drawdown;
    limit_value = f.limits.max_drawdown_pct;
  }

  abbrev pub loss_breach : Timestamp → RiskEngine W → BreachEvent W
  loss_breach now f = record {
    type = BreachType.daily_loss_limit;
    timestamp = now;
    current_value = f.daily_pnl;
    limit_value = negated f.limits.max_daily_loss;
  }

  -- The state after a fill: the mark is the larger of the old mark and the value of the portfolio, the
  -- drawdown is measured from it, the day has gained what the value has since the last fill.
  pub record Marked (value : W) (e f : RiskEngine W) : Type ℓ where
    pub limits_ok : f.limits ≡ e.limits
    pub hwm_ok :
        ((d.less e.hwm value ≡ true) × (f.hwm ≡ value))
        ⊎ ((d.less e.hwm value ≡ false) × (f.hwm ≡ e.hwm))
    pub drawdown_ok : f.drawdown ≡ d.over (d.minus f.hwm value) f.hwm
    pub daily_ok :
        ((d.less d.nought e.prev_nav ≡ true)
          × (f.daily_pnl ≡ d.plus e.daily_pnl (d.minus value e.prev_nav)))
        ⊎ ((d.less d.nought e.prev_nav ≡ false) × (f.daily_pnl ≡ e.daily_pnl))
    pub prev_ok : f.prev_nav ≡ value
