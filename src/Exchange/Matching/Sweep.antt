-- ===== src/Exchange/Matching/Sweep.antt =====
-- The state of the matching engine, the reports it makes, and `sweep_contra` of
-- exchange/src/matching_engine.cpp. The two loops of the source, one for each side, are one here,
-- with the side as an argument.
use velox_quant.Base.{
  ℕ, zero, suc, ◌+◌, ◌-◌, min, Bool, true, false, Option, none, some, List, [], ◌∷◌, length, ltb,
  leb, ◌==◌, ◌&&◌, if◌then◌else◌, Assoc, lookup, insert, pos, ltb_ℤ, eqb_ℤ, add64,
}
use velox_quant.MarketData.Types.{Price, Quantity, Timestamp}
use velox_quant.Exchange.Types.{
  Order, OrderId, OrderStatus, Fill, FillId, ExecutionReport, default_fill, leaves_qty, is_buy,
}
use velox_quant.Exchange.Book.{OrderBook}
use velox_quant.Exchange.Book
use velox_quant.Exchange.Book.Levels.{BookSide, best_price, orders_at}

pub data Event : Type 0 where
  filled : Fill → Event
  reported : ExecutionReport → Event

pub record Engine : Type 0 where
  pub book : OrderBook
  pub next_fill_id : FillId
  pub fills_generated : ℕ
  pub orders_processed : ℕ
  pub stop_orders : Assoc (List OrderId)
  pub log : List Event

-- `no_fuel`: the loop was cut off. `dangling`: the code uses an object that it has destroyed.
pub data Fault : Type 0 where
  no_fuel dangling : Fault

pub data Result {ℓ} (A : Type ℓ) : Type ℓ where
  ok : A → Result A
  err : Fault → Result A

infixl 5 ◌>>=◌
abbrev pub ◌>>=◌ {ℓ κ} : {A : Type ℓ} {B : Type κ} → Result A → (A → Result B) → Result B
ok a >>= f = f a
err e >>= f = err e

unfoldable pub emit_report : Order → Engine → Engine
emit_report order e = record e {
  log = reported (record { order = order; last_fill = default_fill; has_fill = false }) ∷ e.log;
}

-- `Filled` once the executions reach the quantity.
abbrev pub fill_status : Quantity → Quantity → OrderStatus
fill_status done qty = if leb qty done then OrderStatus.filled else OrderStatus.partially_filled

record_fill : FillId → Order → Price → Quantity → Price → Timestamp → Bool → Fill
record_fill id o price n fee now taker = record default_fill {
  id = id;
  order_id = o.id;
  symbol_id = o.symbol_id;
  side = o.side;
  fill_price = price;
  fill_qty = n;
  commission = fee;
  timestamp = now;
  is_aggressive = taker;
}

unfoldable pub hit : Order → Quantity → Timestamp → Order
hit o n now =
    let done = add64 o.filled_qty n in
    record o { filled_qty = done; last_fill_ts = now; status = fill_status done o.qty }

-- `reduce_qty` updates `filled_qty` of the resting order later.
unfoldable pub rest_hit : Order → Quantity → Timestamp → Order
rest_hit o n now = record o {
  last_fill_ts = now;
  status = fill_status (add64 o.filled_qty n) o.qty;
}

pub record SweepState : Type 0 where
  pub order : Order
  pub engine : Engine
  pub filled_total : Quantity

-- `contra_side true` is what a buy order meets.
unfoldable pub contra_side : Bool → OrderBook → BookSide
contra_side true b = b.asks
contra_side false b = b.bids

unfoldable pub set_contra : Bool → BookSide → OrderBook → OrderBook
set_contra true l b = record b { asks = l }
set_contra false l b = record b { bids = l }

-- The price is worse than a limit (a limit of 0 or less is none).
unfoldable pub beyond : Bool → Price → Price → Bool
beyond true limit p = ltb_ℤ (pos 0) limit && ltb_ℤ limit p
beyond false limit p = ltb_ℤ (pos 0) limit && ltb_ℤ p limit

-- A write through `orders_at_mut`: the level stays, also where it is emptied.
unfoldable pub set_queue : Price → List OrderId → BookSide → BookSide
set_queue p q [] = []
set_queue p q ((r, old) ∷ rest) = if eqb_ℤ p r then (r, q) ∷ rest else (r, old) ∷ set_queue p q rest

unfoldable pub count_ids : BookSide → ℕ
count_ids [] = 0
count_ids ((_, q) ∷ rest) = length q + count_ids rest

-- Dry run over one queue: the shares found and those still needed.
unfoldable pub check_queue : Assoc Order → List OrderId → ℕ × ℕ → ℕ × ℕ
check_queue orders [] (have, need) = (have, need)
check_queue orders (oid ∷ q) (have, need) =
    let rest = check_queue orders q (elim (lookup oid orders) [
      | none ↦ (have, need)
      | some o ↦ (add64 have (min need (leaves_qty o)), need - min need (leaves_qty o))
    ]) in
    if need == 0 then (have, need) else rest

unfoldable pub check_levels : Bool → Price → Assoc Order → BookSide → ℕ × ℕ → ℕ × ℕ
check_levels buying limit orders [] (have, need) = (have, need)
check_levels buying limit orders ((p, q) ∷ rest) (have, need) =
    let more = check_levels buying limit orders rest (check_queue orders q (have, need)) in
    if need == 0 then (have, need) else if beyond buying limit p then (have, need) else more

-- `sweep_contra(order, now, price_limit, true)`.
unfoldable pub sweep_check : Order → Price → OrderBook → Quantity
sweep_check order limit b =
    (check_levels (is_buy order) limit b.orders (contra_side (is_buy order) b)
      (0, leaves_qty order)).0

module _ (commission : Quantity → Price → Price) where
  -- One match: the fill and the report of the aggressor, then those of the resting order.
  unfoldable pub emit_fill : Order → Order → Price → Quantity → Timestamp → Engine → Order × Engine
  unfolding record_fill
  emit_fill aggressor resting price n now e =
      let agg_fill = record_fill e.next_fill_id aggressor price n (commission n price) now true in
      let rest_fill =
        record_fill (add64 e.next_fill_id 1) resting price n (commission n price) now false in
      let aggressor' = hit aggressor n now in
      let resting' = rest_hit resting n now in
      (
        aggressor',
        record e {
          next_fill_id = add64 (add64 e.next_fill_id 1) 1;
          fills_generated = add64 e.fills_generated 1;
          log =
              reported (record { order = resting'; last_fill = rest_fill; has_fill = true })
              ∷ filled rest_fill
              ∷ reported (record { order = aggressor'; last_fill = agg_fill; has_fill = true })
              ∷ filled agg_fill
              ∷ e.log;
        },
      )

  -- The order at the front of the best level: a stale id is popped, a resting order is matched.
  unfoldable pub take_order :
      Timestamp → Price → OrderId → List OrderId → SweepState → Option Order → SweepState
  take_order now p oid q s none =
      let e = s.engine in
      let buying = is_buy s.order in
      record s {
        engine = record e {
          book = set_contra buying (set_queue p q (contra_side buying e.book)) e.book;
        };
      }
  take_order now p oid q s (some resting) =
      let n = min (leaves_qty s.order) (leaves_qty resting) in
      let (order', e) = emit_fill s.order resting p n now s.engine in
      let b = e.book in
      let b' : OrderBook = record b { orders = insert oid (rest_hit resting n now) b.orders } in
      record {
        order = order';
        engine = record e { book = Book.reduce_qty oid n b' };
        filled_total = add64 s.filled_total n;
      }

  unfoldable pub take_queue :
      Timestamp → Price → SweepState → Option (List OrderId) → Option SweepState
  take_queue now p s none = none
  take_queue now p s (some []) = none
  take_queue now p s (some (oid ∷ q)) =
      some (take_order now p oid q s (Book.find oid s.engine.book))

  unfoldable pub take_level : Timestamp → Price → SweepState → Option Price → Option SweepState
  take_level now limit s none = none
  take_level now limit s (some p) =
      if beyond (is_buy s.order) limit p
      then none
      else take_queue now p s (orders_at p (contra_side (is_buy s.order) s.engine.book))

  -- One round of the `while` loop; `none` is its exit.
  unfoldable pub sweep_step : Timestamp → Price → SweepState → Option SweepState
  sweep_step now limit s =
      if ltb 0 (leaves_qty s.order)
      then take_level now limit s (best_price (contra_side (is_buy s.order) s.engine.book))
      else none

  unfoldable pub sweep_loop : ℕ → Timestamp → Price → SweepState → Result SweepState
  sweep_loop zero now limit s = err no_fuel
  sweep_loop (suc fuel) now limit s = elim (sweep_step now limit s) [
    | none ↦ ok s
    | some s' ↦ sweep_loop fuel now limit s'
  ]

  -- `sweep_contra(order, now, price_limit, false)`. Each round takes one id out of the contra side
  -- or completes the order.
  unfoldable pub sweep_contra : Order → Timestamp → Price → Engine → Result SweepState
  sweep_contra order now limit e =
      sweep_loop (count_ids (contra_side (is_buy order) e.book) + 2) now limit
        (record { order = order; engine = e; filled_total = 0 })
