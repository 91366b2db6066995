-- ===== src/Exchange/Matching/Available.antt =====
-- The liquidity that a sweep can reach, as a plain sum: the shares left in the levels that the limit
-- allows.
use velox_quant.Base.{
  ℕ, ◌+◌, ◌-◌, ◌<◌, ◌^◌, ◌≡◌, refl, Bool, true, false, not, none, some, List, [], ◌∷◌, length,
  Assoc, lookup, if◌then◌else◌, arith, eqb_ℤ_refl,
}
use velox_quant.MarketData.Types.{Price, Side, buy, sell, unknown}
use velox_quant.Exchange.Types.{Order, OrderId, is_buy}
use velox_quant.Exchange.Book.{OrderBook, remove_from}
use velox_quant.Exchange.Book.Levels.{BookSide, remove_order, erase_id, keep_level}
use velox_quant.Exchange.Book.Invariant.{BookOk, Absent, SideOk, NotIn}
use velox_quant.Exchange.Book.Frame.{AgreeOff, NotIn-After}
use velox_quant.Exchange.Matching.Sweep.{beyond, contra_side, count_ids}

unfoldable pub queue_leaves : Assoc Order → List OrderId → ℕ
queue_leaves os [] = 0
queue_leaves os (id ∷ q) =
    elim (lookup id os) [ none ↦ 0 | some o ↦ o.qty - o.filled_qty ] + queue_leaves os q

module _ (buying : Bool) (limit : Price) where
  unfoldable pub available : Assoc Order → BookSide → ℕ
  available os [] = 0
  available os ((p, q) ∷ rest) =
      let more = available os rest in if beyond buying limit p then 0 else queue_leaves os q + more

queue_leaves-frame :
    (id : OrderId) (os os' : Assoc Order) (q : List OrderId)
    → AgreeOff id os os'
    → Absent id q
    → queue_leaves os' q ≡ queue_leaves os q
unfolding queue_leaves
queue_leaves-frame id os os' [] same n = refl
queue_leaves-frame id os os' (x ∷ q) same n =
    rw (same x n.0, queue_leaves-frame id os os' q same n.1)

pub available-frame :
    (buying : Bool) (limit : Price) (id : OrderId) (os os' : Assoc Order) (l : BookSide)
    → AgreeOff id os os'
    → NotIn id l
    → available buying limit os' l ≡ available buying limit os l
unfolding available
available-frame buying limit id os os' [] same n = refl
available-frame buying limit id os os' ((p, q) ∷ rest) same n =
    rw (
      queue_leaves-frame id os os' q same n.0,
      available-frame buying limit id os os' rest same n.1,
    )

-- The front of the book, and what stands behind it.
pub record Front (os : Assoc Order) (bid : Bool) (p : Price) (id : OrderId) (q : List OrderId)
    (rest : BookSide) (o : Order) : Type 0 where
  pub found : lookup id os ≡ some o
  pub price : o.limit_price ≡ p
  pub side : is_buy o ≡ bid
  pub small : o.qty < 2 ^ 64
  pub left : o.filled_qty < o.qty
  pub alone : Absent id q
  pub behind : NotIn id rest

pub front :
    (os : Assoc Order) (bid : Bool) (p : Price) (id : OrderId) (q : List OrderId) (rest : BookSide)
    → SideOk os bid ((p, id ∷ q) ∷ rest)
    → (o : Order) × Front os bid p id q rest o
front os bid p id q rest (_, (h, a, _), after, t) = (
  h.order,
  record {
    found = h.found;
    price = h.price;
    side = h.side;
    small = h.small;
    left = h.left;
    alone = a;
    behind = NotIn-After id h.order os bid rest h.found (rw h.price after) t;
  },
)

-- A change of the front order changes the sum by its shares.
pub available-update :
    (buying : Bool) (limit : Price) (os os' : Assoc Order) (bid : Bool) (p : Price) (id : OrderId)
    (q : List OrderId) (rest : BookSide) (o o' : Order)
    → Front os bid p id q rest o
    → beyond buying limit p ≡ false
    → AgreeOff id os os'
    → lookup id os' ≡ some o'
    → available buying limit os' ((p, id ∷ q) ∷ rest) + (o.qty - o.filled_qty)
      ≡ available buying limit os ((p, id ∷ q) ∷ rest) + (o'.qty - o'.filled_qty)
unfolding available queue_leaves
available-update buying limit os os' bid p id q rest o o' f e same e' =
    rw
      (
        e,
        e',
        f.found,
        queue_leaves-frame id os os' q same f.alone,
        available-frame buying limit id os os' rest same f.behind,
      )
      (omega arith)

-- The side without its front id.
pub remove_front :
    (p : Price) (id : OrderId) (q : List OrderId) (rest : BookSide)
    → (remove_order p id ((p, id ∷ q) ∷ rest)).1 ≡ (keep_level p q rest).1
unfolding remove_order erase_id
remove_front p id q rest = rw (eqb_ℤ_refl p) (ground arith)

pub available-keep :
    (buying : Bool) (limit : Price) (os : Assoc Order) (p : Price) (q : List OrderId)
    (rest : BookSide)
    → beyond buying limit p ≡ false
    → available buying limit os (keep_level p q rest).1
      ≡ queue_leaves os q + available buying limit os rest
unfolding available keep_level queue_leaves
available-keep buying limit os p [] rest e = omega arith
available-keep buying limit os p (x ∷ q) rest e = rw e

-- Without its front order the sum is less by its shares.
pub available-remove :
    (buying : Bool) (limit : Price) (os os' : Assoc Order) (bid : Bool) (p : Price) (id : OrderId)
    (q : List OrderId) (rest : BookSide) (o : Order)
    → Front os bid p id q rest o
    → beyond buying limit p ≡ false
    → AgreeOff id os os'
    → available buying limit os' (keep_level p q rest).1 + (o.qty - o.filled_qty)
      ≡ available buying limit os ((p, id ∷ q) ∷ rest)
unfolding available queue_leaves
available-remove buying limit os os' bid p id q rest o f e same =
    rw
      (
        available-keep buying limit os' p q rest e,
        e,
        f.found,
        queue_leaves-frame id os os' q same f.alone,
        available-frame buying limit id os os' rest same f.behind,
      )
      (omega arith)

pub count-keep :
    (p : Price) (q : List OrderId) (rest : BookSide)
    → count_ids (keep_level p q rest).1 ≡ length q + count_ids rest
unfolding count_ids keep_level
count-keep p [] rest = omega arith
count-keep p (x ∷ q) rest = refl

-- A resting order of the contra side is removed from the contra side.
pub contra_remove :
    (buying : Bool) (s : Side) (o : Order) (p : Price) (id : OrderId) (b : OrderBook)
    → o.side ≡ s
    → is_buy o ≡ not buying
    → contra_side buying (remove_from s p id b) ≡ (remove_order p id (contra_side buying b)).1
unfolding contra_side remove_from is_buy
contra_remove true buy o p id b e h = ground arith
contra_remove true sell o p id b e h = refl
contra_remove true unknown o p id b e h = refl
contra_remove false buy o p id b e h = refl
contra_remove false sell o p id b e h = ground arith
contra_remove false unknown o p id b e h = ground arith

-- The contra side of a well-formed book.
pub contra_SideOk :
    (buying : Bool) (b : OrderBook) → BookOk b → SideOk b.orders (not buying) (contra_side buying b)
unfolding contra_side
contra_SideOk true b v = v.asks
contra_SideOk false b v = v.bids
