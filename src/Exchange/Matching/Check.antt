-- ===== src/Exchange/Matching/Check.antt =====
-- The dry run of `sweep_contra` counts what an execution would trade.
use velox_quant.Base.{
  ℕ, ◌+◌, ◌-◌, ◌<◌, ◌^◌, ◌≤◌, ◌≡◌, ◌∙◌, Bool, not, List, [], ◌∷◌, Assoc, arith, min, add64,
}
use velox_quant.MarketData.Types.{Price}
use velox_quant.Exchange.Types.{Order, OrderId, is_buy, leaves_qty}
use velox_quant.Exchange.Book.{OrderBook}
use velox_quant.Exchange.Book.Levels.{BookSide}
use velox_quant.Exchange.Book.Invariant.{QueueOk, SideOk, BookOk}
use velox_quant.Exchange.Matching.Sweep.{check_queue, check_levels, sweep_check, contra_side}
use velox_quant.Exchange.Matching.Available.{queue_leaves, available, contra_SideOk}

check_queue_lem :
    (os : Assoc Order) (bid : Bool) (p : Price) (q : List OrderId) (have need : ℕ)
    → QueueOk os bid p q
    → have + need < 2 ^ 64
    → check_queue os q (have, need)
      ≡ (have + min need (queue_leaves os q), need - min need (queue_leaves os q))
unfolding check_queue queue_leaves
check_queue_lem os bid p [] have need h small = ground arith
check_queue_lem os bid p (id ∷ q) have need (r, _, t) small =
    let n = min need (leaves_qty r.order) in
    rw r.found
      (ground (arith, check_queue_lem os bid p q (add64 have n) (need - n) t (omega arith)))

check_levels_lem :
    (buying : Bool) (limit : Price) (os : Assoc Order) (bid : Bool) (l : BookSide) (have need : ℕ)
    → SideOk os bid l
    → have + need < 2 ^ 64
    → (check_levels buying limit os l (have, need)).0
      ≡ have + min need (available buying limit os l)
unfolding check_levels available
check_levels_lem buying limit os bid [] have need h small = omega arith
check_levels_lem buying limit os bid ((p, q) ∷ rest) have need (_, h, _, t) small =
    rw (check_queue_lem os bid p q have need h small) (
      ground (
        arith,
        check_levels_lem buying limit os bid rest (have + min need (queue_leaves os q))
            (need - min need (queue_leaves os q)) t (omega arith),
      ))

-- Over a well-formed book the dry run returns the smaller of what the order wants and what rests
-- within the limit.
pub sweep_check_lem :
    (order : Order) (limit : Price) (b : OrderBook)
    → BookOk b
    → order.filled_qty ≤ order.qty
    → order.qty < 2 ^ 64
    → sweep_check order limit b
      ≡ min
          (order.qty - order.filled_qty)
          (available (is_buy order) limit b.orders (contra_side (is_buy order) b))
unfolding sweep_check
sweep_check_lem order limit b v within small =
    let exact : leaves_qty order ≡ order.qty - order.filled_qty = omega arith in
    rw (exact, sweep_check)
      (check_levels_lem (is_buy order) limit b.orders (not (is_buy order))
          (contra_side (is_buy order) b) 0 (order.qty - order.filled_qty)
          (contra_SideOk (is_buy order) b v) (omega arith)
        ∙ omega arith)
