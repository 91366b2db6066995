-- ===== src/Exchange/Book/Gone.antt =====
-- After a cancel or a full execution an order is out of the book.
use velox_quant.Base.{
  ◌+◌, ◌<◌, ◌≤◌, ◌^◌, ◌≡◌, refl, true, false, none, some, lookup, insert, erase, lookup-insert,
  lookup-erase, arith, Option-cases, inl, inr, add64, min, leb, ap, ◌∙◌,
}
use velox_quant.MarketData.Types.{Quantity}
use velox_quant.Exchange.Types.{Order, OrderId, OrderStatus}
use velox_quant.Exchange.Book.{OrderBook, cancel, reduce_qty, executed, find}
use velox_quant.Exchange.Book.Invariant.{BookOk, NotIn}
use velox_quant.Exchange.Book.Frame.{NotIn-unknown}
use velox_quant.Exchange.Book.Preserve.{cancel-BookOk}

erased_self :
    (id : OrderId) (b : OrderBook)
    → (lookup id (erase id b.order_side) ≡ none) × (lookup id (erase id b.orders) ≡ none)
erased_self id b =
    (ground (arith, lookup-erase id id b.order_side), ground (arith, lookup-erase id id b.orders))

cancel-no_side :
    (id : OrderId) (b : OrderBook) → lookup id b.order_side ≡ none → cancel id b ≡ (false, b)
unfolding cancel
cancel-no_side id b e = rw (e, cancel) refl

cancel-erased :
    (id : OrderId) (b : OrderBook)
    → (cancel id b).0 ≡ true
    → (lookup id (cancel id b).1.orders ≡ none) × (lookup id (cancel id b).1.order_side ≡ none)
unfolding cancel
cancel-erased id b h = elim (Option-cases (lookup id b.order_side)) [
  | inl e ↦ absurd (let no : false ≡ true = rw (e, cancel) at h in cc)
  | inr (s, e) ↦ elim (Option-cases (lookup id b.orders)) [
    | inl k ↦ absurd (let no : false ≡ true = rw (e, k, cancel) at h in cc)
    | inr (o, k) ↦ rw (e, k, cancel) ((erased_self id b).1, (erased_self id b).0)
  ]
]

-- A cancel that succeeds on a well-formed book takes the order out of the table and of both sides,
-- and a second cancel fails and changes nothing.
pub cancel_twice :
    (id : OrderId) (b : OrderBook)
    → BookOk b
    → (cancel id b).0 ≡ true
    → let b' = (cancel id b).1 in
      (find id b' ≡ none) × NotIn id b'.bids × NotIn id b'.asks × (cancel id b' ≡ (false, b'))
unfolding find
cancel_twice id b v h =
    let (gone, untagged) = cancel-erased id b h in
    let v' = cancel-BookOk id b v in
    (
      gone,
      NotIn-unknown id _ true _ gone v'.bids,
      NotIn-unknown id _ false _ gone v'.asks,
      cancel-no_side id _ untagged,
    )

-- An execution that completes a resting order marks it filled, leaves it in the table with its
-- quantity, and a cancel of it then fails and changes nothing.
pub cancel-reduce_qty :
    (id : OrderId) (n : Quantity) (b : OrderBook) (o : Order)
    → lookup id b.orders ≡ some o
    → o.filled_qty + n < 2 ^ 64
    → o.qty ≤ o.filled_qty + n
    → let b' = reduce_qty id n b in
      (find id b' ≡ some (record o { filled_qty = o.qty; status = OrderStatus.filled }))
      × (cancel id b' ≡ (false, b'))
unfolding reduce_qty executed find
cancel-reduce_qty id n b o e small full =
    let all : min (add64 o.filled_qty n) o.qty ≡ o.qty = omega arith in
    let test : leb o.qty (min (add64 o.filled_qty n) o.qty) ≡ true = ground arith in
    (
      rw (e, test, reduce_qty)
          (lookup_self id _ b
            ∙ ap (λ k. some (record o { filled_qty = k; status = OrderStatus.filled })) all),
      cancel-no_side id (reduce_qty id n b) (rw (e, test, reduce_qty) (erased_self id b).0),
    )
  where
    lookup_self :
        (i : OrderId) (u : Order) (b : OrderBook) → lookup i (insert i u b.orders) ≡ some u
    lookup_self i u b = ground (arith, lookup-insert i i u b.orders)
