-- ===== src/Risk/Tests.antt =====
-- A risk engine in whole units.
use velox_quant.Base.{false, ℤ, pos, []}
use velox_quant.Exchange.Types.{Order, Fill, default_order, default_fill}
use velox_quant.Portfolio.Double.{whole_double}
use velox_quant.Portfolio.Account.{Portfolio, PriceMap, new_portfolio}
use velox_quant.Portfolio.Account
use velox_quant.Risk.{RiskEngine, RiskLimits, new_engine, on_fill, set_hwm}

abbrev hundred_limits : RiskLimits ℤ
hundred_limits = record {
  max_position_qty = pos 100;
  max_gross_exposure = pos 100000;
  max_net_exposure = pos 100000;
  max_order_qty = 50;
  max_order_notional = pos 10000;
  max_drawdown_pct = pos 0;
  max_daily_loss = pos 500;
  daily_loss_reset_hrs = pos 24;
  var_limit_95 = pos 1000;
  kill_switch_enabled = false;
}

abbrev hundred_engine : RiskEngine ℤ
hundred_engine = new_engine hundred_limits

abbrev flat_account : Portfolio ℤ
flat_account = new_portfolio (pos 1000)

abbrev no_prices : PriceMap ℤ
no_prices = []

abbrev buy_thirty : Order
buy_thirty = record default_order { id = 1; symbol_id = 4; limit_price = pos 7; qty = 30 }

abbrev fill_thirty : Fill
fill_thirty = record default_fill { order_id = 1; symbol_id = 4; fill_price = pos 7; fill_qty = 30 }

abbrev after_fill : RiskEngine ℤ
after_fill = on_fill flat_account no_prices (pos 1) (set_hwm (pos 5000) hundred_engine)
