-- ===== src/Exchange/Matching/Orders.antt =====
-- What each type of order comes to: fill-or-kill, immediate-or-cancel, market and limit.
use velox_quant.Base.{
  ℕ, ◌-◌, ◌<◌, ◌^◌, ◌≤◌, ◌≡◌, refl, sym, ◌∙◌, none, lookup, arith, Bool-cases, inl, inr, ◌⊎◌, min,
  ltb, ltb→lt,
}
use velox_quant.MarketData.Types.{Price, Quantity, Timestamp}
use velox_quant.Exchange.Types.{Order, OrderId, OrderType, OrderStatus, RejectReason, is_buy}
use velox_quant.Exchange.Book.{OrderBook}
use velox_quant.Exchange.Book.Invariant.{BookOk}
use velox_quant.Exchange.Matching.Sweep.{
  Engine, ok, SweepState, contra_side, emit_report, sweep_check,
}
use velox_quant.Exchange.Matching.{match_fok, killed}
use velox_quant.Exchange.Matching.Available.{available}
use velox_quant.Exchange.Matching.Loop.{Swept, sweep_contra-Swept}
use velox_quant.Exchange.Matching.Check.{sweep_check_lem}

-- The shares of the contra side that an order may trade with.
abbrev pub reachable : Order → Price → OrderBook → ℕ
reachable order limit b = available (is_buy order) limit b.orders (contra_side (is_buy order) b)

-- A new order, as the router hands it over.
pub record IsNew (order : Order) (e : Engine) : Type 0 where
  pub book : BookOk e.book
  pub untouched : order.filled_qty ≡ 0
  pub some_qty : 0 < order.qty
  pub small : order.qty < 2 ^ 64

abbrev pub Killed : Order → Engine → Order × Engine → Type 0
Killed order e r =
    (r.0.status ≡ OrderStatus.rejected)
    × (r.0.reject_reason ≡ RejectReason.insufficient_liquidity)
    × (r.0.filled_qty ≡ 0)
    × (r.1.book ≡ e.book)

abbrev pub Completed : Order → Engine → Order × Engine → Type 0
Completed order e r =
    (r.0.status ≡ OrderStatus.filled)
    × (r.0.filled_qty ≡ order.qty)
    × BookOk r.1.book
    × ((k : OrderId) → lookup k e.book.orders ≡ none → lookup k r.1.book.orders ≡ none)

is_buy_type : (order : Order) (t : OrderType) → is_buy (record order { type = t }) ≡ is_buy order
unfolding is_buy
is_buy_type order t = refl

-- A sweep that fills a new order leaves it with that status.
pub Swept-status :
    (limit : Price) (order : Order) (e : Engine) (s : SweepState)
    → Swept limit order e s
    → order.filled_qty < s.order.filled_qty
    → s.order.filled_qty ≡ s.order.qty
    → s.order.status ≡ OrderStatus.filled
Swept-status limit order e s w more full = ground (arith, w.status)

-- Fill or kill: an order is killed, and the book left alone, exactly if less than its quantity
-- rests within its limit; otherwise it is filled in full,
-- the book stays well formed, and no id comes into it.
pub match_fok-all_or_nothing :
    (commission : Quantity → Price → Price) (order : Order) (now : Timestamp) (e : Engine)
    → IsNew order e
    → (r : Order × Engine) × (match_fok commission order now e ≡ ok r)
      × (((reachable order order.limit_price e.book < order.qty) × Killed order e r)
          ⊎ ((order.qty ≤ reachable order order.limit_price e.book) × Completed order e r))
unfolding match_fok killed emit_report is_buy
match_fok-all_or_nothing commission order now e n =
    elim (Bool-cases (ltb (sweep_check order order.limit_price e.book) order.qty)) [
      | inl short ↦ (
        (killed order, emit_report (killed order) e),
        rw (short, match_fok) refl,
        inl (omega (arith, ltb→lt _ _ short, total), (refl, refl, n.untouched, refl)),
      )
      | inr enough ↦
          let (s, es, w) =
            sweep_contra-Swept commission (record order { type = OrderType.limit }) now
              order.limit_price e n.book (omega (arith, n.untouched)) n.small in
          let plenty : order.qty ≤ reachable order order.limit_price e.book =
            ground (arith, total, n.untouched) in
          let full : s.order.filled_qty ≡ order.qty =
            omega (arith, w.total, w.done, n.untouched, plenty) in
          (
            (
              record (s.order) { type = OrderType.fok },
              emit_report (record (s.order) { type = OrderType.fok }) s.engine,
            ),
            rw (enough, match_fok) (rw es refl),
            inr (
              plenty,
              (
                Swept-status order.limit_price (record order { type = OrderType.limit }) e s w
                    (omega (arith, full, n.untouched, n.some_qty)) (full ∙ sym w.qty),
                full,
                w.ok.book,
                w.unknown,
              ),
            ),
          )
    ]
  where
    total :
        sweep_check order order.limit_price e.book
        ≡ min (order.qty - order.filled_qty) (reachable order order.limit_price e.book)
    total =
        sweep_check_lem order order.limit_price e.book n.book (omega (arith, n.untouched)) n.small
