-- ===== src/Exchange/Matching/Limit.antt =====
-- Limit orders: what does not trade rests in the book, which stays uncrossed.
use velox_quant.Base.{
  Bool, List, [], ◌∷◌, ◌++◌, eqb_ℤ, eqb_ℤ_refl, ◌<◌, ◌^◌, ◌≡◌, ◌≢◌, refl, ◌∙◌, true, false, not,
  none, some, Bool-cases, inl, inr, ◌⊎◌, ltb, ltb→lt, min, arith, lookup, insert, lookup-insert,
  if◌then◌else◌,
}
use velox_quant.MarketData.Types.{Price, Quantity, Timestamp, Side, buy, sell, unknown}
use velox_quant.Exchange.Types.{Order, OrderId, OrderStatus, is_buy, is_done, leaves_qty}
use velox_quant.Exchange.Book
use velox_quant.Exchange.Book.{OrderBook, add_on, side_of}
use velox_quant.Exchange.Book.Levels.{BookSide, before, add_order, orders_at}
use velox_quant.Exchange.Book.Invariant.{BookOk}
use velox_quant.Exchange.Book.Frame.{insert-AgreeOff, NotIn-unknown}
use velox_quant.Exchange.Book.Preserve.{IsAddable, add-BookOk}
use velox_quant.Exchange.Matching.Sweep.{Engine, ok, SweepState, emit_report, contra_side}
use velox_quant.Exchange.Matching.{match_limit, settle}
use velox_quant.Exchange.Matching.Step.{is_buy_side}
use velox_quant.Exchange.Matching.Available.{available, available-frame, contra_SideOk}
use velox_quant.Exchange.Matching.Loop.{Swept, sweep_contra-Swept}
use velox_quant.Exchange.Matching.Orders.{IsNew, reachable, Swept-status}

-- The id is the last one in the queue of a price.
abbrev pub LastAt : Price → OrderId → BookSide → Type 0
LastAt p id levels = (ahead : List OrderId) × (orders_at p levels ≡ some (ahead ++ id ∷ []))

LastAt-add_order :
    (bid : Bool) (p : Price) (id : OrderId) (levels : BookSide)
    → LastAt p id (add_order bid p id levels)
unfolding orders_at add_order
LastAt-add_order bid p id [] = ([], rw (eqb_ℤ_refl p) refl)
LastAt-add_order bid p id ((r, q) ∷ rest) = elim (Bool-cases (eqb_ℤ p r)) [
  | inl e ↦ (q, rw e (rw e refl))
  | inr e ↦ elim (Bool-cases (before bid p r)) [
    | inl k ↦ ([], rw (e, k) (rw (eqb_ℤ_refl p) refl))
    | inr k ↦ let (ahead, at) = LastAt-add_order bid p id rest in (ahead, rw (e, k) (rw (e) at))
  ]
]

LastAt-add :
    (s : Side) (o : Order) (b : OrderBook) → LastAt o.limit_price o.id (side_of s (add_on s o b).1)
unfolding add_on side_of
LastAt-add buy o b = LastAt-add_order true o.limit_price o.id b.bids
LastAt-add sell o b = LastAt-add_order false o.limit_price o.id b.asks
LastAt-add unknown o b = LastAt-add_order false o.limit_price o.id b.asks

tagged-add :
    (s : Side) (o : Order) (b : OrderBook) → lookup o.id (add_on s o b).1.order_side ≡ some o.side
unfolding add_on
tagged-add buy o b = ground (arith, lookup-insert o.id o.id o.side b.order_side)
tagged-add sell o b = ground (arith, lookup-insert o.id o.id o.side b.order_side)
tagged-add unknown o b = ground (arith, lookup-insert o.id o.id o.side b.order_side)

-- The outcome of a limit order that may rest.
pub record IsLimit (order : Order) (e : Engine) (r : Order × Engine) : Type 0 where
  pub book : BookOk r.1.book
  pub traded : r.0.filled_qty ≡ min order.qty (reachable order order.limit_price e.book)
  pub outcome :
      ((r.0.filled_qty ≡ order.qty) × (r.0.status ≡ OrderStatus.filled))
      ⊎ ((r.0.filled_qty < order.qty)
          × (lookup order.id r.1.book.orders ≡ some (r.0))
          × (lookup order.id r.1.book.order_side ≡ some order.side)
          × LastAt order.limit_price order.id (side_of order.side r.1.book)
          × (reachable order order.limit_price r.1.book ≡ 0))
  pub others :
      (k : OrderId) → k ≢ order.id → lookup k e.book.orders ≡ none → lookup k r.1.book.orders ≡ none

-- Adding an order leaves the side that it trades against as it is.
contra-add :
    (s : Side) (o : Order) (b : OrderBook)
    → o.side ≡ s
    → contra_side (is_buy o) (add_on s o b).1 ≡ contra_side (is_buy o) b
unfolding add_on contra_side is_buy
contra-add buy o b e = rw e refl
contra-add sell o b e = rw e refl
contra-add unknown o b e = rw e refl

added :
    (s : Side) (o : Order) (b : OrderBook)
    → (add_on s o b).1.orders ≡ insert o.id (add_on s o b).0 b.orders
unfolding add_on
added buy o b = refl
added sell o b = refl
added unknown o b = refl

added-same :
    (s : Side) (o : Order) (b : OrderBook)
    → ((add_on s o b).0.filled_qty ≡ o.filled_qty) × ((add_on s o b).0.status ≡ o.status)
unfolding add_on
added-same buy o b = (refl, refl)
added-same sell o b = (refl, refl)
added-same unknown o b = (refl, refl)

reachable-add :
    (o : Order) (limit : Price) (b : OrderBook)
    → BookOk b
    → lookup o.id b.orders ≡ none
    → available (is_buy o) limit (Book.add o b).1.orders (contra_side (is_buy o) (Book.add o b).1)
      ≡ available (is_buy o) limit b.orders (contra_side (is_buy o) b)
unfolding Book.add
reachable-add o limit b v fresh =
    rw (contra-add o.side o b refl, added o.side o b)
      (available-frame (is_buy o) limit o.id b.orders _ (contra_side (is_buy o) b)
        (insert-AgreeOff o.id (add_on o.side o b).0 b.orders)
        (NotIn-unknown o.id b.orders (not (is_buy o)) (contra_side (is_buy o) b) fresh
          (contra_SideOk (is_buy o) b v)))

add-filled_qty : (o : Order) (b : OrderBook) → (Book.add o b).0.filled_qty ≡ o.filled_qty
unfolding Book.add
add-filled_qty o b = (added-same o.side o b).0

add-found :
    (o : Order) (b : OrderBook) → lookup o.id (Book.add o b).1.orders ≡ some (Book.add o b).0
unfolding Book.add
add-found o b =
    rw (added o.side o b) (ground (arith, lookup-insert o.id o.id (add_on o.side o b).0 b.orders))

pub add-others :
    (o : Order) (b : OrderBook) (k : OrderId)
    → k ≢ o.id
    → lookup k b.orders ≡ none
    → lookup k (Book.add o b).1.orders ≡ none
unfolding Book.add
add-others o b k ne h =
    rw (added o.side o b) (insert-AgreeOff o.id (add_on o.side o b).0 b.orders k ne ∙ h)

resting_result : SweepState → Order × Engine
resting_result s =
    let e = s.engine in
    let (o, b) = Book.add s.order e.book in
    (o, if is_done o then record e { book = b } else emit_report o (record e { book = b }))

filled_result : SweepState → Order × Engine
filled_result s = (s.order, if is_done s.order then s.engine else emit_report s.order s.engine)

module _ (order : Order) (e : Engine) (s : SweepState) (n : IsNew order e)
    (fresh : lookup order.id e.book.orders ≡ none) (w : Swept order.limit_price order e s) where
  filled-IsLimit : s.order.filled_qty ≡ s.order.qty → IsLimit order e (filled_result s)
  unfolding filled_result emit_report
  filled-IsLimit full = record {
    book = elim (Bool-cases (is_done s.order)) [ inl d ↦ rw d w.ok.book | inr d ↦ rw d w.ok.book ];
    traded = omega (arith, w.total, w.done, n.untouched);
    outcome = inl (
      full ∙ w.qty,
      Swept-status order.limit_price order e s w
          (omega (arith, full, w.qty, n.untouched, n.some_qty)) full,
    );
    others = λ k ne h. elim (Bool-cases (is_done s.order)) [
      | inl d ↦ rw d (w.unknown k h)
      | inr d ↦ rw d (w.unknown k h)
    ];
  }

  rests-book : (resting_result s).1.book ≡ (Book.add s.order s.engine.book).1
  unfolding resting_result emit_report
  rests-book = elim (Bool-cases (is_done (Book.add s.order s.engine.book).0)) [
    | inl d ↦ rw d refl
    | inr d ↦ rw d refl
  ]

  fresh_now : lookup s.order.id s.engine.book.orders ≡ none
  fresh_now = rw w.id (w.unknown order.id fresh)

  dry : s.order.filled_qty < s.order.qty → reachable order order.limit_price s.engine.book ≡ 0
  dry part = elim w.exhausted [ inl full ↦ absurd (omega arith) | inr none_left ↦ none_left ]

  rested-IsLimit : s.order.filled_qty < s.order.qty → IsLimit order e (resting_result s)
  unfolding resting_result Book.add
  rested-IsLimit part =
      let small : s.order.qty < 2 ^ 64 = rw w.qty n.small in
      let can : IsAddable s.order s.engine.book = record {
        fresh = fresh_now;
        small = small;
        left = part;
      } in
      let kept = add-filled_qty s.order s.engine.book in
      let same = is_buy_side s.order order w.side in
      record {
        book = rw rests-book (add-BookOk s.order s.engine.book can w.ok.book);
        traded = omega (arith, kept, w.total, w.done, n.untouched);
        outcome = inr (
          omega (arith, kept, w.qty),
          rw (rests-book, ← w.id) (add-found s.order s.engine.book),
          rw (rests-book, ← w.id, ← w.side) (tagged-add s.order.side s.order s.engine.book),
          rw (rests-book, ← w.id, ← w.side, ← w.price)
              (LastAt-add s.order.side s.order s.engine.book),
          rw (rests-book, ← same)
              (reachable-add s.order order.limit_price s.engine.book w.ok.book fresh_now
                ∙ rw same (dry part)),
        );
        others = λ k ne h.
            rw (rests-book)
              (add-others s.order s.engine.book k (λ same_id. ne (same_id ∙ w.id)) (w.unknown k h));
      }

-- A limit order with a new id trades with all that rests within its limit, up to its quantity. If
-- shares are left it rests in the book, known with its side and last in the queue of its price on
-- that side, and then nothing on the other side is within its limit.
pub match_limit-IsLimit :
    (commission : Quantity → Price → Price) (order : Order) (now : Timestamp) (e : Engine)
    → IsNew order e
    → lookup order.id e.book.orders ≡ none
    → (r : Order × Engine) × (match_limit commission order now true e ≡ ok r) × IsLimit order e r
unfolding match_limit settle resting_result filled_result
match_limit-IsLimit commission order now e n fresh =
    let (s, es, w) =
      sweep_contra-Swept commission order now order.limit_price e n.book
        (omega (arith, n.untouched)) n.small in
    elim (Bool-cases (ltb 0 (leaves_qty s.order))) [
      | inl more ↦ (
        resting_result s,
        rw (es, match_limit) (rw more refl),
        rested-IsLimit order e s n fresh w
            (omega (arith, ltb→lt _ _ more, w.ok.within, w.ok.small)),
      )
      | inr none_left ↦ (
        filled_result s,
        rw (es, match_limit) (rw none_left refl),
        filled-IsLimit order e s n fresh w (ground (arith, w.ok.within, w.ok.small)),
      )
    ]
