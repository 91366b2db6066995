-- ===== src/Exchange/Book/Preserve.antt =====
-- `add`, `cancel` and `reduce_qty` keep the book well formed.
use velox_quant.Base.{
  ◌≡◌, ◌≢◌, ℕ, ◌<◌, ◌^◌, refl, sym, ◌∙◌, ap, Bool, true, false, none, some, Assoc, lookup, insert,
  erase, lookup-insert, lookup-erase, ◌==◌, arith, Bool-cases, Option-cases, inl, inr, leb, min,
  add64,
}
use velox_quant.MarketData.Types.{Price, Quantity, Side, buy, sell, unknown}
use velox_quant.Exchange.Types.{Order, OrderId, is_buy}
use velox_quant.Exchange.Book.{OrderBook, add, add_on, cancel, reduce_qty, executed, remove_from}
use velox_quant.Exchange.Book.Levels.{BookSide, remove_order, add_order}
use velox_quant.Exchange.Book.Invariant.{IsResting, SideOk, BookOk}
use velox_quant.Exchange.Book.Frame.{
  SideOk-map, SideOk-frame, AgreeOff, insert-AgreeOff, NotIn-unknown, NotIn-other,
}
use velox_quant.Exchange.Book.Remove.{remove-SideOk, remove-NotIn}
use velox_quant.Exchange.Book.Add.{add-SideOk}

tag_insert :
    (b : OrderBook) (id : OrderId) (s : Side) (o : Order)
    → BookOk b
    → o.side ≡ s
    → (x : OrderId) (t : Side) (u : Order) → lookup x (insert id s b.order_side) ≡ some t
    → lookup x (insert id o b.orders) ≡ some u
    → u.side ≡ t
tag_insert b id s o v e x t u h k =
    ground (arith, lookup-insert id x s b.order_side, lookup-insert id x o b.orders, v.tagged x t u)

-- What a caller of `add` ensures: a fresh id, and shares left.
pub record IsAddable (order : Order) (b : OrderBook) : Type 0 where
  pub fresh : lookup order.id b.orders ≡ none
  pub small : order.qty < 2 ^ 64
  pub left : order.filled_qty < order.qty

-- The stored copy differs from the caller's order in its queue position.
abbrev stored : ℕ → Order → Order
stored n o = record o { queue_pos = n }

module _ (b : OrderBook) (o : Order) (n : ℕ) (ok : IsAddable o b) where
  new_side :
      (bid : Bool) (l : BookSide)
      → is_buy o ≡ bid
      → SideOk b.orders bid l
      → SideOk (insert o.id (stored n o) b.orders) bid (add_order bid o.limit_price o.id l)
  unfolding is_buy
  new_side bid l e h =
      add-SideOk (insert o.id (stored n o) b.orders) bid o.limit_price o.id l
        (record {
          order = stored n o;
          found = ground (arith, lookup-insert o.id o.id (stored n o) b.orders);
          price = refl;
          side = e;
          small = ok.small;
          left = ok.left;
        })
        (NotIn-unknown o.id b.orders bid l ok.fresh h) (old_side bid l h)
    where
      old_side :
          (bid : Bool) (l : BookSide)
          → SideOk b.orders bid l
          → SideOk (insert o.id (stored n o) b.orders) bid l
      old_side bid l h =
          SideOk-frame o.id b.orders _ bid (insert-AgreeOff o.id (stored n o) b.orders) l
            (NotIn-unknown o.id b.orders bid l ok.fresh h) h

  kept_side :
      (bid : Bool) (l : BookSide)
      → SideOk b.orders bid l
      → SideOk (insert o.id (stored n o) b.orders) bid l
  kept_side bid l h =
      SideOk-frame o.id b.orders _ bid (insert-AgreeOff o.id (stored n o) b.orders) l
        (NotIn-unknown o.id b.orders bid l ok.fresh h) h

add_on-BookOk :
    (s : Side) (o : Order) (b : OrderBook)
    → o.side ≡ s
    → IsAddable o b
    → BookOk b
    → BookOk (add_on s o b).1
unfolding add_on is_buy
add_on-BookOk buy o b e ok v = record {
  bids = new_side b o _ ok true b.bids (rw e refl) v.bids;
  asks = kept_side b o _ ok false b.asks v.asks;
  tagged = tag_insert b o.id o.side _ v refl;
}
add_on-BookOk sell o b e ok v = record {
  bids = kept_side b o _ ok true b.bids v.bids;
  asks = new_side b o _ ok false b.asks (rw e refl) v.asks;
  tagged = tag_insert b o.id o.side _ v refl;
}
add_on-BookOk unknown o b e ok v = record {
  bids = kept_side b o _ ok true b.bids v.bids;
  asks = new_side b o _ ok false b.asks (rw e refl) v.asks;
  tagged = tag_insert b o.id o.side _ v refl;
}

-- `add` keeps the book well formed, if the id is new and shares are left.
pub add-BookOk : (o : Order) (b : OrderBook) → IsAddable o b → BookOk b → BookOk (add o b).1
unfolding add
add-BookOk o b ok v = add_on-BookOk o.side o b refl ok v

-- The id of a resting order is taken out of its side, and the table may then change at it.
module _ (b : OrderBook) (id : OrderId) (o : Order) (os' : Assoc Order)
    (found : lookup id b.orders ≡ some o) (same : AgreeOff id b.orders os') where
  removed_side :
      (bid : Bool) (l : BookSide)
      → SideOk b.orders bid l
      → SideOk os' bid (remove_order o.limit_price id l).1
  removed_side bid l h =
      SideOk-frame id b.orders os' bid same _ (remove-NotIn b.orders bid o id l found h)
        (remove-SideOk b.orders bid o.limit_price id l h)

  other_side :
      (bid : Bool) (l : BookSide) → is_buy o ≢ bid → SideOk b.orders bid l → SideOk os' bid l
  other_side bid l ne h =
      SideOk-frame id b.orders os' bid same l (NotIn-other id o b.orders bid l found ne h) h

  removed_bids :
      (s : Side) → o.side ≡ s → BookOk b → SideOk os' true (remove_from s o.limit_price id b).bids
  unfolding remove_from is_buy
  removed_bids buy e v = removed_side true b.bids v.bids
  removed_bids sell e v = other_side true b.bids (rw e (λ k. cc)) v.bids
  removed_bids unknown e v = other_side true b.bids (rw e (λ k. cc)) v.bids

  removed_asks :
      (s : Side) → o.side ≡ s → BookOk b → SideOk os' false (remove_from s o.limit_price id b).asks
  unfolding remove_from is_buy
  removed_asks buy e v = other_side false b.asks (rw e (λ k. cc)) v.asks
  removed_asks sell e v = removed_side false b.asks v.asks
  removed_asks unknown e v = removed_side false b.asks v.asks

-- An id without a side tag constrains nothing.
tag_gone :
    (b : OrderBook) (id : OrderId) (os' : Assoc Order)
    → AgreeOff id b.orders os'
    → BookOk b
    → (x : OrderId) (t : Side) (u : Order) → lookup x (erase id b.order_side) ≡ some t
    → lookup x os' ≡ some u
    → u.side ≡ t
tag_gone b id os' same v x t u h k = elim (Bool-cases (id == x)) [
  | inl e ↦ let gone : none ≡ some t = sym (rw (lookup-erase id x b.order_side, e) refl) ∙ h in cc
  | inr e ↦
      v.tagged x t u (sym (rw (lookup-erase id x b.order_side, e) refl) ∙ h)
        (sym (same x (ground arith)) ∙ k)
]

erase-AgreeOff : (id : OrderId) (os : Assoc Order) → AgreeOff id os (erase id os)
erase-AgreeOff id os x ne = ground (arith, lookup-erase id x os)

cancelled-BookOk :
    (id : OrderId) (b : OrderBook) (s : Side) (o : Order)
    → lookup id b.order_side ≡ some s
    → lookup id b.orders ≡ some o
    → BookOk b
    → BookOk (record (remove_from s o.limit_price id b) {
      order_side = erase id b.order_side;
      orders = erase id b.orders;
    })
cancelled-BookOk id b s o k e v = record {
  bids = removed_bids b id o _ e (erase-AgreeOff id b.orders) s (v.tagged id s o k e) v;
  asks = removed_asks b id o _ e (erase-AgreeOff id b.orders) s (v.tagged id s o k e) v;
  tagged = tag_gone b id _ (erase-AgreeOff id b.orders) v;
}

-- `cancel` keeps the book well formed.
pub cancel-BookOk : (id : OrderId) (b : OrderBook) → BookOk b → BookOk (cancel id b).1
unfolding cancel
cancel-BookOk id b v = elim (Option-cases (lookup id b.order_side)) [
  | inl none_side ↦ rw (none_side, cancel) v
  | inr (s, k) ↦ elim (Option-cases (lookup id b.orders)) [
    | inl no_order ↦ rw (k, no_order, cancel) v
    | inr (o, e) ↦ rw (k, e, cancel) (cancelled-BookOk id b s o k e v)
  ]
]

-- An order that changes and still has shares left goes on resting at its place.
IsResting-update :
    (os : Assoc Order) (id : OrderId) (o o' : Order) (bid : Bool)
    → lookup id os ≡ some o
    → is_buy o' ≡ is_buy o
    → o'.limit_price ≡ o.limit_price
    → o'.qty ≡ o.qty
    → o'.filled_qty < o'.qty
    → (p : Price) (x : OrderId) → IsResting os bid p x
    → IsResting (insert id o' os) bid p x
IsResting-update os id o o' bid e es ep eq left p x h = elim (Bool-cases (id == x)) [
  | inl same ↦
      let here : some o ≡ some h.order = sym e ∙ ap (λ k. lookup k os) (ground arith) ∙ h.found in
      let eo : o ≡ h.order = cc in
      record {
        order = o';
        found = rw (lookup-insert id x o' os, same) refl;
        price = ep ∙ ap (λ (k : Order). k.limit_price) eo ∙ h.price;
        side = es ∙ ap is_buy eo ∙ h.side;
        small = rw (eq, ap (λ (k : Order). k.qty) eo) h.small;
        left = left;
      }
  | inr differs ↦ record {
    order = h.order;
    found = rw (lookup-insert id x o' os, differs) h.found;
    price = h.price;
    side = h.side;
    small = h.small;
    left = h.left;
  }
]

-- A resting order that changes and still has shares left keeps the book well formed.
pub update-BookOk :
    (id : OrderId) (o o' : Order) (b : OrderBook)
    → lookup id b.orders ≡ some o
    → o'.side ≡ o.side
    → is_buy o' ≡ is_buy o
    → o'.limit_price ≡ o.limit_price
    → o'.qty ≡ o.qty
    → o'.filled_qty < o'.qty
    → BookOk b
    → BookOk (record b { orders = insert id o' b.orders })
update-BookOk id o o' b e es eb ep eq left v = record {
  bids =
      SideOk-map b.orders _ true (IsResting-update b.orders id o o' true e eb ep eq left) b.bids
        v.bids;
  asks =
      SideOk-map b.orders _ false (IsResting-update b.orders id o o' false e eb ep eq left) b.asks
        v.asks;
  tagged =
      λ x t u h g. ground (arith, lookup-insert id x o' b.orders, v.tagged x t u, v.tagged x t o);
}

-- `reduce_qty` keeps the book well formed.
pub reduce_qty-BookOk :
    (id : OrderId) (n : Quantity) (b : OrderBook) → BookOk b → BookOk (reduce_qty id n b)
unfolding reduce_qty executed is_buy
reduce_qty-BookOk id n b v = elim (Option-cases (lookup id b.orders)) [
  | inl missing ↦ rw (missing, reduce_qty) v
  | inr (o, e) ↦ elim (Bool-cases (leb o.qty (min (add64 o.filled_qty n) o.qty))) [
    | inl full ↦
        rw (e, full, reduce_qty)
          (record {
            bids = removed_bids b id o _ e (insert-AgreeOff id _ b.orders) o.side refl v;
            asks = removed_asks b id o _ e (insert-AgreeOff id _ b.orders) o.side refl v;
            tagged = tag_gone b id _ (insert-AgreeOff id _ b.orders) v;
          })
    | inr part ↦
        rw (e, part, reduce_qty) (update-BookOk id o _ b e refl refl refl refl (ground arith) v)
  ]
]
