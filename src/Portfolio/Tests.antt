-- ===== src/Portfolio/Tests.antt =====
-- Positions and a portfolio in whole units.
use velox_quant.Base.{◌≡◌, ◌↔◌, ◌*◌, refl, ℤ, pos, negsuc, [], ◌∷◌, ◌+ℤ◌, ◌-ℤ◌, ltb_ℤ, eqb_ℤ}
use velox_quant.MarketData.Types.{sell}
use velox_quant.Exchange.Types.{Fill, default_fill, side_is_buy}
use velox_quant.Portfolio.Double.{whole_double}
use velox_quant.Portfolio.Position.{
  Position, abs_ℤ, signed_qty, is_opening, is_closing, new_position,
}
use velox_quant.Portfolio.Position
use velox_quant.Portfolio.Position.Quantity.{on_fill-qty_closing}
use velox_quant.Portfolio.Account.{Portfolio, new_portfolio}
use velox_quant.Portfolio.Account.Ledger.{LedgerOk, sum_fills, IsKeyed}

abbrev buy_ten : Fill
buy_ten = record default_fill { symbol_id = 1; fill_price = pos 3; fill_qty = 10 }

abbrev sell_four : Fill
sell_four = record default_fill { symbol_id = 1; side = sell; fill_price = pos 5; fill_qty = 4 }

abbrev sell_ten : Fill
sell_ten = record default_fill { symbol_id = 1; side = sell; fill_price = pos 5; fill_qty = 10 }

abbrev long_ten : Position ℤ
long_ten = record (new_position 1) { qty = pos 10; avg_cost = pos 3; fill_count = 1 }

abbrev one_long : Portfolio ℤ
one_long = record (new_portfolio (pos 100)) { positions = (1, long_ten) ∷ []; fill_count = 1 }

one_long-LedgerOk : LedgerOk one_long
unfolding sum_fills IsKeyed
one_long-LedgerOk = record { keyed = (refl, tt); counted = refl }

-- The sale of 4 from 10 leaves 8, and the sale of all 10 leaves a short position of 10.
sells_four : (Position.on_fill sell_four long_ten).qty ≡ pos 8
unfolding Position.on_fill Position.apply_fill Position.open_or_add Position.open_remainder
    Position.reduce Position.reduced_qty signed_qty is_opening is_closing ltb_ℤ eqb_ℤ ◌+ℤ◌ ◌-ℤ◌
    side_is_buy
sells_four = refl

sells_ten : (Position.on_fill sell_ten long_ten).qty ≡ negsuc 9
unfolding Position.on_fill Position.apply_fill Position.open_or_add Position.open_remainder
    Position.reduce Position.reduced_qty signed_qty is_opening is_closing ltb_ℤ eqb_ℤ ◌+ℤ◌ ◌-ℤ◌
    side_is_buy
sells_ten = refl

on_fill-qty_closing_example :
    ((Position.on_fill sell_four long_ten).qty ≡ long_ten.qty +ℤ signed_qty sell_four)
    ↔ (abs_ℤ long_ten.qty ≡ 2 * abs_ℤ (signed_qty sell_four))
unfolding signed_qty is_closing ltb_ℤ ◌-ℤ◌ side_is_buy
on_fill-qty_closing_example = on_fill-qty_closing sell_four long_ten refl
