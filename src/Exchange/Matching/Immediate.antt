-- ===== src/Exchange/Matching/Immediate.antt =====
-- Market and immediate-or-cancel orders: what cannot trade at once is cancelled, and nothing rests.
use velox_quant.Base.{
  ◌<◌, ◌≡◌, refl, ◌∙◌, true, false, none, Bool-cases, inl, inr, ◌⊎◌, ltb, ltb→lt, lt→ltb,
  if◌then◌else◌, pos, min, arith, lookup,
}
use velox_quant.MarketData.Types.{Price, Quantity, Timestamp}
use velox_quant.Exchange.Types.{Order, OrderId, OrderType, OrderStatus, is_buy, is_done, leaves_qty}
use velox_quant.Exchange.Book.Invariant.{BookOk}
use velox_quant.Exchange.Matching.Sweep.{Engine, ok, SweepState, emit_report, sweep_contra}
use velox_quant.Exchange.Matching.{match_ioc, match_market, match_limit, settle, cancel_residual}
use velox_quant.Exchange.Matching.Loop.{Swept, sweep_contra-Swept}
use velox_quant.Exchange.Matching.Orders.{IsNew, reachable, Swept-status}

-- The outcome of an order that does not rest.
pub record IsImmediate (limit : Price) (order : Order) (e : Engine) (r : Order × Engine)
    : Type 0 where
  pub book : BookOk r.1.book
  pub traded : r.0.filled_qty ≡ min order.qty (reachable order limit e.book)
  pub outcome :
      ((r.0.filled_qty ≡ order.qty) × (r.0.status ≡ OrderStatus.filled))
      ⊎ ((r.0.filled_qty < order.qty) × (r.0.status ≡ OrderStatus.cancelled))
  pub rests_nothing :
      (k : OrderId) → lookup k e.book.orders ≡ none → lookup k r.1.book.orders ≡ none

cancel_residual-cancelled :
    (o : Order) (now : Timestamp)
    → o.filled_qty < o.qty
    → (cancel_residual o now).status ≡ OrderStatus.cancelled
unfolding cancel_residual
cancel_residual-cancelled o now h = ground arith

cancel_residual-filled_qty :
    (o : Order) (now : Timestamp) → (cancel_residual o now).filled_qty ≡ o.filled_qty
unfolding cancel_residual
cancel_residual-filled_qty o now = ground arith

-- The order after a sweep, with what is left of it cancelled.
pub closed : SweepState → Timestamp → Order
closed s now = if ltb 0 (leaves_qty s.order) then cancel_residual s.order now else s.order

closed-IsImmediate :
    (limit : Price) (order : Order) (now : Timestamp) (e e' : Engine) (s : SweepState)
    → IsNew order e
    → Swept limit order e s
    → e'.book ≡ s.engine.book
    → IsImmediate limit order e (closed s now, e')
unfolding closed
closed-IsImmediate limit order now e e' s n w same = record {
  book = rw same w.ok.book;
  traded = ground (arith, w.total, w.done, n.untouched, cancel_residual-filled_qty s.order now);
  outcome = elim (Bool-cases (ltb s.order.filled_qty s.order.qty)) [
    | inl part ↦ rw (show_leaves part) (
        inr (
          omega (arith, ltb→lt _ _ part, w.qty, cancel_residual-filled_qty s.order now),
          cancel_residual-cancelled s.order now (ltb→lt _ _ part),
        ))
    | inr all ↦
        let full : s.order.filled_qty ≡ s.order.qty = ground (arith, w.ok.within) in
        rw (hide_leaves full) (
          inl (
            full ∙ w.qty,
            Swept-status limit order e s w (omega (arith, full, w.qty, n.untouched, n.some_qty))
                full,
          ))
  ];
  rests_nothing = λ k h. rw same (w.unknown k h);
}
  where
    show_leaves : ltb s.order.filled_qty s.order.qty ≡ true → ltb 0 (leaves_qty s.order) ≡ true
    show_leaves part = lt→ltb _ _ (omega (arith, ltb→lt _ _ part, w.ok.small))

    hide_leaves : s.order.filled_qty ≡ s.order.qty → ltb 0 (leaves_qty s.order) ≡ false
    hide_leaves full = ground (arith, w.ok.small)

-- A market order trades with all that rests on the other side, up to its quantity, and the rest is
-- cancelled.
pub match_market-IsImmediate :
    (commission : Quantity → Price → Price) (order : Order) (now : Timestamp) (e : Engine)
    → IsNew order e
    → (r : Order × Engine) × (match_market commission order now e ≡ ok r)
      × IsImmediate (pos 0) order e r
unfolding match_market emit_report closed
match_market-IsImmediate commission order now e n =
    let (s, es, w) =
      sweep_contra-Swept commission order now (pos 0) e n.book (omega (arith, n.untouched))
        n.small in
    (
      (closed s now, emit_report (closed s now) s.engine),
      rw (es, match_market) refl,
      closed-IsImmediate (pos 0) order now e (emit_report (closed s now) s.engine) s n w refl,
    )

reported_unless_done : SweepState → Timestamp → Engine
reported_unless_done s now =
    if is_done (closed s now) then s.engine else emit_report (closed s now) s.engine

reported_unless_done-book :
    (s : SweepState) (now : Timestamp) → (reported_unless_done s now).book ≡ s.engine.book
unfolding reported_unless_done emit_report
reported_unless_done-book s now = elim (Bool-cases (is_done (closed s now))) [
  | inl e ↦ rw e refl
  | inr e ↦ rw e refl
]

limit-closed :
    (commission : Quantity → Price → Price) (order : Order) (now : Timestamp) (e : Engine)
    (s : SweepState)
    → sweep_contra commission order now order.limit_price e ≡ ok s
    → match_limit commission order now false e ≡ ok (closed s now, reported_unless_done s now)
unfolding match_limit settle closed reported_unless_done
limit-closed commission order now e s es = elim (Bool-cases (ltb 0 (leaves_qty s.order))) [
  | inl more ↦ rw (es, match_limit) (rw more refl)
  | inr none_left ↦ rw (es, match_limit) (rw none_left refl)
]

limit-IsNew :
    (order : Order) (e : Engine) → IsNew order e → IsNew (record order { type = OrderType.limit }) e
limit-IsNew order e n = record {
  book = n.book;
  untouched = n.untouched;
  some_qty = n.some_qty;
  small = n.small;
}

-- An immediate-or-cancel order trades with all that rests within its limit, up to its quantity,
-- and the rest is cancelled.
pub match_ioc-IsImmediate :
    (commission : Quantity → Price → Price) (order : Order) (now : Timestamp) (e : Engine)
    → IsNew order e
    → (r : Order × Engine) × (match_ioc commission order now e ≡ ok r)
      × IsImmediate order.limit_price order e r
unfolding match_ioc is_buy
match_ioc-IsImmediate commission order now e n =
    let (s, es, w) =
      sweep_contra-Swept commission (record order { type = OrderType.limit }) now order.limit_price
        e n.book (omega (arith, n.untouched)) n.small in
    let c : Order = closed s now in
    let ioc : Order = record c { type = OrderType.ioc } in
    let i =
      closed-IsImmediate order.limit_price (record order { type = OrderType.limit }) now e
        (reported_unless_done s now) s (limit-IsNew order e n) w
        (reported_unless_done-book s now) in
    (
      (ioc, reported_unless_done s now),
      rw (limit-closed commission (record order { type = OrderType.limit }) now e s es, match_ioc)
          refl,
      record {
        book = i.book;
        traded = i.traded;
        outcome = i.outcome;
        rests_nothing = i.rests_nothing;
      },
    )
