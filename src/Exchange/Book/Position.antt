-- ===== src/Exchange/Book/Position.antt =====
-- The queue position that `add` reports is the one that `queue_position` then finds.
use velox_quant.Base.{
  ℕ, ◌≡◌, refl, ◌∙◌, Bool, true, false, Option, none, some, List, [], ◌∷◌, ◌++◌, Assoc, lookup,
  arith, Bool-cases, inl, inr, ◌==◌, eqb_ℤ, eqb_ℤ_refl, add64,
}
use velox_quant.MarketData.Types.{Price, Side, buy, sell, unknown}
use velox_quant.Exchange.Types.{Order, OrderId, leaves_qty}
use velox_quant.Exchange.Book.{
  OrderBook, add, add_on, queue_position, shares_ahead, side_of, ahead_of, shares_of, shares_in,
}
use velox_quant.Exchange.Book.Levels.{BookSide, before, add_order, orders_at}
use velox_quant.Exchange.Book.Invariant.{Absent, NotIn, SideOk, BookOk, After}
use velox_quant.Exchange.Book.Laws.{add_on-entries}
use velox_quant.Exchange.Book.Add.{After-trans}
use velox_quant.Exchange.Book.Frame.{AgreeOff, insert-AgreeOff, NotIn-unknown, before-ne}

-- The id at the end of a queue is behind all that stood there.
ahead-snoc :
    (id : OrderId) (os os' : Assoc Order) (acc : ℕ) (q : List OrderId)
    → AgreeOff id os os'
    → Absent id q
    → ahead_of os' id acc (q ++ id ∷ []) ≡ shares_of os acc q
unfolding ahead_of shares_of
ahead-snoc id os os' acc [] same a = ground arith
ahead-snoc id os os' acc (x ∷ q) same a =
    let other : (x == id) ≡ false = ground arith in
    rw (other, same x a.0)
      (ahead-snoc id os os' (elim (lookup x os) [ none ↦ acc | some o ↦ add64 acc (leaves_qty o) ])
        q same a.1)

ahead_at : Assoc Order → OrderId → Option (List OrderId) → ℕ
ahead_at os id none = 0
ahead_at os id (some q) = ahead_of os id 0 q

orders_at-After : (bid : Bool) (p : Price) (l : BookSide) → After bid p l → orders_at p l ≡ none
unfolding orders_at
orders_at-After bid p [] a = refl
orders_at-After bid p ((r, q) ∷ l) a = rw (before-ne bid p r a.0) (orders_at-After bid p l a.1)

orders_at-add :
    (id : OrderId) (os os' : Assoc Order) (bid : Bool) (p : Price) (l : BookSide)
    → AgreeOff id os os'
    → NotIn id l
    → SideOk os bid l
    → ahead_at os' id (orders_at p (add_order bid p id l)) ≡ shares_in os (orders_at p l)
unfolding ahead_at orders_at add_order shares_in shares_of
orders_at-add id os os' bid p [] same n v = rw (eqb_ℤ_refl p) (ahead-snoc id os os' 0 [] same tt)
orders_at-add id os os' bid p ((r, q) ∷ rest) same n (ne, h, a, t) = elim (Bool-cases (eqb_ℤ p r)) [
  | inl e ↦ rw e (rw e (ahead-snoc id os os' 0 q same n.0))
  | inr e ↦ elim (Bool-cases (before bid p r)) [
    | inl k ↦
        rw (e, k)
          (rw (eqb_ℤ_refl p, orders_at-After bid p rest (After-trans bid p r rest k a))
            (ahead-snoc id os os' 0 [] same tt))
    | inr k ↦ rw (e, k) (rw e (orders_at-add id os os' bid p rest same n.1 t))
  ]
]

position_on :
    (s : Side) (o : Order) (b : OrderBook)
    → lookup o.id b.orders ≡ none
    → BookOk b
    → ahead_at (add_on s o b).1.orders o.id (orders_at o.limit_price (side_of s (add_on s o b).1))
      ≡ (add_on s o b).0.queue_pos
unfolding add_on side_of
position_on buy o b fresh v =
    orders_at-add o.id b.orders _ true o.limit_price b.bids (insert-AgreeOff o.id _ b.orders)
      (NotIn-unknown o.id b.orders true b.bids fresh v.bids) v.bids
position_on sell o b fresh v =
    orders_at-add o.id b.orders _ false o.limit_price b.asks (insert-AgreeOff o.id _ b.orders)
      (NotIn-unknown o.id b.orders false b.asks fresh v.asks) v.asks
position_on unknown o b fresh v =
    orders_at-add o.id b.orders _ false o.limit_price b.asks (insert-AgreeOff o.id _ b.orders)
      (NotIn-unknown o.id b.orders false b.asks fresh v.asks) v.asks

shares_ahead_lem :
    (l : BookSide) (os : Assoc Order) (p : Price) (id : OrderId)
    → shares_ahead l os p id ≡ ahead_at os id (orders_at p l)
unfolding shares_ahead ahead_at
shares_ahead_lem l os p id = ground arith

-- The queue position that `add` stores for an order with a new id is the one that
-- `queue_position` reports for it in the book that results.
pub queue_position-add :
    (o : Order) (b : OrderBook)
    → lookup o.id b.orders ≡ none
    → BookOk b
    → queue_position o.id (add o b).1 ≡ (add o b).0.queue_pos
unfolding queue_position add
queue_position-add o b fresh v =
    let (side, order, price) = add_on-entries o.side o b in
    rw (side, order, price, queue_position)
      (shares_ahead_lem _ _ o.limit_price o.id ∙ position_on o.side o b fresh v)
