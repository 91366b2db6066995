-- ===== src/Risk/Events.antt =====
-- The breaches that RiskEngine::on_fill of risk/src/risk_engine.cpp reports, stage by stage.
use velox_quant.Base.{
  ◌≡◌, ◌++◌, inl, inr, true, if◌then◌else◌, Bool-cases, arith, refl, ap, ◌∙◌, List, [], ◌∷◌,
  append-nil, sym, subst,
}
use velox_quant.MarketData.Types.{Timestamp}
use velox_quant.Portfolio.Double.{Double, negated}
use velox_quant.Portfolio.Account.{Portfolio, PriceMap, nav}
use velox_quant.Risk.{
  RiskEngine, BreachEvent, BreachType, on_fill, raise_hwm, update_drawdown, update_daily_pnl,
  breach_daily_loss, fire_breach, breach_drawdown,
}

module _ {ℓ} {W : Type ℓ} ⦃d : Double W⦄ where
  abbrev pub drawdown_events : Timestamp → RiskEngine W → List (BreachEvent W)
  drawdown_events now e =
      if d.less e.limits.max_drawdown_pct e.drawdown
      then record {
        type = BreachType.drawdown_limit;
        timestamp = now;
        current_value = e.drawdown;
        limit_value = e.limits.max_drawdown_pct;
      }
        ∷ []
      else []

  abbrev pub loss_events : Timestamp → RiskEngine W → List (BreachEvent W)
  loss_events now e =
      if d.less e.daily_pnl (negated e.limits.max_daily_loss)
      then record {
        type = BreachType.daily_loss_limit;
        timestamp = now;
        current_value = e.daily_pnl;
        limit_value = negated e.limits.max_daily_loss;
      }
        ∷ []
      else []

module _ {ℓ} {W : Type ℓ} ⦃d : Double W⦄ where
  breaches-breach_drawdown :
      (now : Timestamp) (e : RiskEngine W)
      → (breach_drawdown now e).breaches ≡ e.breaches ++ drawdown_events now e
  unfolding breach_drawdown fire_breach
  breaches-breach_drawdown now e = elim (Bool-cases (d.less e.limits.max_drawdown_pct e.drawdown)) [
    | inl over ↦ rw over refl
    | inr within ↦ rw within (sym (append-nil e.breaches))
  ]

  breaches-breach_daily_loss :
      (now : Timestamp) (e : RiskEngine W)
      → (breach_daily_loss now e).breaches ≡ e.breaches ++ loss_events now e
  unfolding breach_daily_loss fire_breach
  breaches-breach_daily_loss now e =
      elim (Bool-cases (d.less e.daily_pnl (negated e.limits.max_daily_loss))) [
        | inl over ↦ rw over refl
        | inr within ↦ rw within (sym (append-nil e.breaches))
      ]

  state-breach_drawdown :
      (now : Timestamp) (e : RiskEngine W)
      → ((breach_drawdown now e).limits ≡ e.limits)
        × ((breach_drawdown now e).drawdown ≡ e.drawdown)
        × ((breach_drawdown now e).hwm ≡ e.hwm)
  unfolding breach_drawdown fire_breach
  state-breach_drawdown now e = ground arith

  state-breach_daily_loss :
      (now : Timestamp) (e : RiskEngine W)
      → ((breach_daily_loss now e).limits ≡ e.limits)
        × ((breach_daily_loss now e).drawdown ≡ e.drawdown)
        × ((breach_daily_loss now e).hwm ≡ e.hwm)
        × ((breach_daily_loss now e).daily_pnl ≡ e.daily_pnl)
  unfolding breach_daily_loss fire_breach
  state-breach_daily_loss now e = ground arith

  drawdown_events_cong :
      (now : Timestamp) (e e' : RiskEngine W)
      → e.limits ≡ e'.limits
      → e.drawdown ≡ e'.drawdown
      → drawdown_events now e ≡ drawdown_events now e'
  drawdown_events_cong now e e' l m = rw (l, m) refl

  loss_events_cong :
      (now : Timestamp) (e e' : RiskEngine W)
      → e.limits ≡ e'.limits
      → e.daily_pnl ≡ e'.daily_pnl
      → loss_events now e ≡ loss_events now e'
  loss_events_cong now e e' l m = rw (l, m) refl

  breaches-update_drawdown :
      (v : W) (now : Timestamp) (e : RiskEngine W)
      → d.less d.nought e.hwm ≡ true
      → (update_drawdown v now e).breaches
        ≡ e.breaches ++ drawdown_events now (update_drawdown v now e)
  unfolding update_drawdown
  breaches-update_drawdown v now e h =
      let m = record e { drawdown = d.over (d.minus e.hwm v) e.hwm } in
      let same = state-breach_drawdown now m in
      rw h (
        breaches-breach_drawdown now m
        ∙ ap (λ t. e.breaches ++ t)
            (drawdown_events_cong now m (breach_drawdown now m) (sym same.0) (sym same.1)))

  hwm-update_drawdown :
      (v : W) (now : Timestamp) (e : RiskEngine W) → (update_drawdown v now e).hwm ≡ e.hwm
  unfolding update_drawdown breach_drawdown fire_breach
  hwm-update_drawdown v now e = ground arith

  breaches-raise_hwm : (v : W) (e : RiskEngine W) → (raise_hwm v e).breaches ≡ e.breaches
  unfolding raise_hwm
  breaches-raise_hwm v e = ground arith

  -- The breaches of the last two stages, from an engine that has its new drawdown.
  breaches-later :
      (v : W) (now : Timestamp) (y : RiskEngine W)
      → (breach_daily_loss now (update_daily_pnl v y)).breaches
        ≡ y.breaches ++ loss_events now (breach_daily_loss now (update_daily_pnl v y))
  unfolding update_daily_pnl
  breaches-later v now y =
      let z = update_daily_pnl v y in
      let same = state-breach_daily_loss now z in
      breaches-breach_daily_loss now z
      ∙ ap (λ t. y.breaches ++ t)
          (loss_events_cong now z (breach_daily_loss now z) (sym same.0) (sym same.3))

  state-later :
      (v : W) (now : Timestamp) (y : RiskEngine W)
      → ((breach_daily_loss now (update_daily_pnl v y)).limits ≡ y.limits)
        × ((breach_daily_loss now (update_daily_pnl v y)).drawdown ≡ y.drawdown)
        × ((breach_daily_loss now (update_daily_pnl v y)).hwm ≡ y.hwm)
  unfolding update_daily_pnl breach_daily_loss fire_breach
  state-later v now y = ground arith

  pub on_fill-events :
      (p : Portfolio W) (prices : PriceMap W) (now : Timestamp) (e : RiskEngine W)
      → d.less d.nought (on_fill p prices now e).hwm ≡ true
      → (on_fill p prices now e).breaches
        ≡ (e.breaches ++ drawdown_events now (on_fill p prices now e))
          ++ loss_events now (on_fill p prices now e)
  unfolding on_fill
  on_fill-events p prices now e h =
      let v = nav prices p in
      let x = raise_hwm v e in
      let y = update_drawdown v now x in
      let f = breach_daily_loss now (update_daily_pnl v y) in
      let same = state-later v now y in
      let hwm : f.hwm ≡ x.hwm = same.2 ∙ hwm-update_drawdown v now x in
      let up : d.less d.nought x.hwm ≡ true = subst (λ t. d.less d.nought t ≡ true) hwm h in
      breaches-later v now y
      ∙ ap (λ t. t ++ loss_events now f)
          (breaches-update_drawdown v now x up
            ∙ ap (λ t. t ++ drawdown_events now y) (breaches-raise_hwm v e)
            ∙ ap (λ t. e.breaches ++ t) (drawdown_events_cong now y f (sym same.0) (sym same.1)))
