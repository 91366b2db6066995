-- ===== src/Exchange/Matching/Hit.antt =====
-- What one match does to the book: the front order of the contra side, met for `n` shares.
use velox_quant.Base.{
  ℕ, ◌+◌, ◌-◌, ◌<◌, ◌≤◌, ◌≡◌, refl, sym, ◌∙◌, ap, Bool, true, false, not, none, some, List, ◌∷◌,
  Assoc, lookup, insert, lookup-insert, arith, Bool-cases, inl, inr, ◌⊎◌, ◌==◌, leb, min, add64,
}
use velox_quant.MarketData.Types.{Price, Timestamp, Side}
use velox_quant.Exchange.Types.{Order, OrderId, is_buy}
use velox_quant.Exchange.Book.{OrderBook, remove_from, reduce_qty, executed}
use velox_quant.Exchange.Book.Levels.{BookSide, keep_level}
use velox_quant.Exchange.Book.Invariant.{BookOk}
use velox_quant.Exchange.Book.Frame.{AgreeOff, insert-AgreeOff}
use velox_quant.Exchange.Book.Preserve.{update-BookOk, reduce_qty-BookOk}
use velox_quant.Exchange.Matching.Sweep.{beyond, contra_side, count_ids, rest_hit}
use velox_quant.Exchange.Matching.Available.{
  available, Front, available-update, available-remove, remove_front, count-keep, contra_remove,
}

-- The book after `emit_fill` has marked the resting order and `reduce_qty` has run.
abbrev pub hit_book : OrderId → Order → ℕ → Timestamp → OrderBook → OrderBook
hit_book id o n now b =
    reduce_qty id n (record b { orders = insert id (rest_hit o n now) b.orders })

pub record IsHit (buying : Bool) (limit : Price) (b b' : OrderBook) (n shares : ℕ) : Type 0 where
  pub ok : BookOk b'
  pub sum :
      available buying limit b'.orders (contra_side buying b') + n
      ≡ available buying limit b.orders (contra_side buying b)
  pub count :
      (n < shares) ⊎ (count_ids (contra_side buying b') + 1 ≡ count_ids (contra_side buying b))
  pub unknown : (k : OrderId) → lookup k b.orders ≡ none → lookup k b'.orders ≡ none

contra_tables :
    (buying : Bool) (b : OrderBook) (os : Assoc Order) (ss : Assoc Side)
    → contra_side buying (record b { orders = os; order_side = ss }) ≡ contra_side buying b
unfolding contra_side
contra_tables true b os ss = refl
contra_tables false b os ss = refl

twice-AgreeOff :
    (id : OrderId) (o u : Order) (os : Assoc Order) → AgreeOff id os (insert id u (insert id o os))
twice-AgreeOff id o u os x ne =
    insert-AgreeOff id u (insert id o os) x ne ∙ insert-AgreeOff id o os x ne

lookup_self : (id : OrderId) (o : Order) (os : Assoc Order) → lookup id (insert id o os) ≡ some o
lookup_self id o os = ground (arith, lookup-insert id id o os)

insert-unknown :
    (id : OrderId) (o u : Order) (os : Assoc Order)
    → lookup id os ≡ some o
    → (k : OrderId) → lookup k os ≡ none
    → lookup k (insert id u os) ≡ none
insert-unknown id o u os e k h = elim (Bool-cases (id == k)) [
  | inl same ↦ let clash : some o ≡ none = sym e ∙ ap (λ x. lookup x os) (ground arith) ∙ h in cc
  | inr other ↦ rw (lookup-insert id k u os, other) h
]

module _ (buying : Bool) (limit : Price) (b : OrderBook) (p : Price) (id : OrderId)
    (q : List OrderId) (rest : BookSide) (o : Order)
    (shape : contra_side buying b ≡ (p, id ∷ q) ∷ rest)
    (f : Front b.orders (not buying) p id q rest o) (near : beyond buying limit p ≡ false)
    (ok : BookOk b) (n : ℕ) (now : Timestamp) (fits : o.filled_qty + n ≤ o.qty) where
  marked-BookOk : BookOk (record b { orders = insert id (rest_hit o n now) b.orders })
  unfolding rest_hit is_buy
  marked-BookOk = update-BookOk id o (rest_hit o n now) b f.found refl refl refl refl f.left ok

  marked : lookup id (insert id (rest_hit o n now) b.orders) ≡ some (rest_hit o n now)
  marked = lookup_self id (rest_hit o n now) b.orders

  unknown_marked :
      (u : Order) (k : OrderId)
      → lookup k b.orders ≡ none
      → lookup k (insert id u (insert id (rest_hit o n now) b.orders)) ≡ none
  unknown_marked u k h =
      insert-unknown id (rest_hit o n now) u _ marked k
        (insert-unknown id o (rest_hit o n now) b.orders f.found k h)

  abbrev marked_book : OrderBook
  marked_book = record b { orders = insert id (rest_hit o n now) b.orders }

  marked_levels : contra_side buying marked_book ≡ (p, id ∷ q) ∷ rest
  marked_levels = contra_tables buying b _ b.order_side ∙ shape

  -- The front order leaves the book.
  gone_levels :
      contra_side buying (remove_from o.side o.limit_price id marked_book) ≡ (keep_level p q rest).1
  gone_levels =
      contra_remove buying o.side o o.limit_price id marked_book refl f.side
      ∙ rw (marked_levels, f.price) (remove_front p id q rest)

  abbrev gone_book : Order → Assoc Side → OrderBook
  gone_book u ss = record (remove_from o.side o.limit_price id marked_book) {
    orders = insert id u marked_book.orders;
    order_side = ss;
  }

  gone_sides :
      (u : Order) (ss : Assoc Side) → contra_side buying (gone_book u ss) ≡ (keep_level p q rest).1
  gone_sides u ss =
      contra_tables buying (remove_from o.side o.limit_price id marked_book) _ ss ∙ gone_levels

  gone :
      (u : Order) (ss : Assoc Side)
      → n ≡ o.qty - o.filled_qty
      → BookOk (gone_book u ss)
      → IsHit buying limit b (gone_book u ss) n (o.qty - o.filled_qty)
  unfolding count_ids
  gone u ss full good = record {
    ok = good;
    sum =
        rw (gone_sides u ss, shape)
          (omega (
            arith,
            available-remove buying limit b.orders (insert id u marked_book.orders) (not buying) p
                id q rest o f near (twice-AgreeOff id (rest_hit o n now) u b.orders),
          ));
    count = inr (rw (gone_sides u ss, shape, count-keep p q rest) (omega arith));
    unknown = unknown_marked u;
  }

  -- The front order stays, with `n` shares less.
  abbrev part_book : Order → OrderBook
  part_book u = record marked_book { orders = insert id u marked_book.orders }

  part :
      (u : Order)
      → n < o.qty - o.filled_qty
      → u.qty ≡ o.qty
      → u.filled_qty ≡ o.filled_qty + n
      → BookOk (part_book u)
      → IsHit buying limit b (part_book u) n (o.qty - o.filled_qty)
  part u less eq ef good = record {
    ok = good;
    sum =
        let sides : contra_side buying (part_book u) ≡ (p, id ∷ q) ∷ rest =
          contra_tables buying b _ b.order_side ∙ shape in
        rw (sides, shape)
          (omega (
            arith,
            available-update buying limit b.orders (insert id u marked_book.orders) (not buying) p
                id q rest o u f near (twice-AgreeOff id (rest_hit o n now) u b.orders)
                (lookup_self id u marked_book.orders),
          ));
    count = inl less;
    unknown = unknown_marked u;
  }

  -- One match keeps the book well formed, takes `n` off the reachable shares, and removes the
  -- front id if its order is filled.
  pub take_order-IsHit : IsHit buying limit b (hit_book id o n now b) n (o.qty - o.filled_qty)
  unfolding reduce_qty executed rest_hit
  take_order-IsHit =
      let good = reduce_qty-BookOk id n marked_book marked-BookOk in
      let exact : min (add64 o.filled_qty n) o.qty ≡ o.filled_qty + n = omega (arith, f.small) in
      elim (Bool-cases (leb o.qty (min (add64 o.filled_qty n) o.qty))) [
        | inl full ↦
            let good' = rw (marked, full, reduce_qty) at good in
            rw (marked, full, reduce_qty) (gone _ _ (ground (arith, exact)) good')
        | inr less ↦
            let good' = rw (marked, less, reduce_qty) at good in
            rw (marked, less, reduce_qty) (part _ (ground (arith, exact)) refl exact good')
      ]
