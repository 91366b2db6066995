-- ===== src/Exchange/Execution/Tests.antt =====
-- A purchase of 15 that walks over two levels of 10.
use velox_quant.Base.{[], ◌∷◌, pos, ◌-ℤ◌, ◌≤ℤ◌, refl, arith}
use velox_quant.MarketData.Types.{buy, sell}
use velox_quant.Exchange.Types.{PriceLevel}
use velox_quant.Exchange.Execution.{book_walk_slippage}
use velox_quant.Exchange.Execution.Walk.{book_walk-Between}

abbrev first_ask : PriceLevel
first_ask = record { price = pos 100; total_qty = 10; order_count = 1 }

abbrev next_ask : PriceLevel
next_ask = record { price = pos 102; total_qty = 10; order_count = 1 }

book_walk-Between_example :
    ((pos 100 -ℤ pos 100 ≤ℤ book_walk_slippage buy 15 (pos 100) (first_ask ∷ next_ask ∷ []))
      × (book_walk_slippage buy 15 (pos 100) (first_ask ∷ next_ask ∷ []) ≤ℤ pos 102 -ℤ pos 100))
    × (pos 100 -ℤ pos 102 ≤ℤ book_walk_slippage sell 15 (pos 100) (first_ask ∷ next_ask ∷ []))
    × (book_walk_slippage sell 15 (pos 100) (first_ask ∷ next_ask ∷ []) ≤ℤ pos 100 -ℤ pos 100)
book_walk-Between_example =
    book_walk-Between 100 102 15 100 first_ask (next_ask ∷ [])
      ((100, refl, omega arith, omega arith), ((102, refl, omega arith, omega arith), tt))
      (omega arith) (omega arith) (omega arith)
