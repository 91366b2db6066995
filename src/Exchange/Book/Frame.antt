-- ===== src/Exchange/Book/Frame.antt =====
-- What the order table must keep for a side of the book to stay well formed.
use velox_quant.Base.{
  ◌≡◌, ◌≢◌, ◌∙◌, ap, Bool, true, false, some, none, some, List, [], ◌∷◌, Assoc, lookup, insert,
  lookup-insert, arith, eqb_ℤ, eqb_ℤ_refl, ltb_ℤ→ne, eqb_ℤ_sym,
}
use velox_quant.MarketData.Types.{Price}
use velox_quant.Exchange.Types.{Order, OrderId, is_buy}
use velox_quant.Exchange.Book.Levels.{BookSide, before}
use velox_quant.Exchange.Book.Invariant.{IsResting, Absent, QueueOk, After, SideOk, NotIn}

pub before-ne : (bid : Bool) (p r : Price) → before bid p r ≡ true → eqb_ℤ p r ≡ false
unfolding before
before-ne true p r h = eqb_ℤ_sym p r ∙ ltb_ℤ→ne r p h
before-ne false p r h = ltb_ℤ→ne p r h

-- Every resting id of a queue may be carried over to another table.
QueueOk-map :
    (os os' : Assoc Order) (bid : Bool) (p : Price)
    → ((x : OrderId) → IsResting os bid p x → IsResting os' bid p x)
    → (q : List OrderId) → QueueOk os bid p q
    → QueueOk os' bid p q
QueueOk-map os os' bid p f [] h = h
QueueOk-map os os' bid p f (x ∷ q) (h, a, r) = (f x h, a, QueueOk-map os os' bid p f q r)

pub SideOk-map :
    (os os' : Assoc Order) (bid : Bool)
    → ((p : Price) (x : OrderId) → IsResting os bid p x → IsResting os' bid p x)
    → (l : BookSide) → SideOk os bid l
    → SideOk os' bid l
SideOk-map os os' bid f [] h = h
SideOk-map os os' bid f ((p, q) ∷ rest) (ne, h, a, r) =
    (ne, QueueOk-map os os' bid p (f p) q h, a, SideOk-map os os' bid f rest r)

-- The tables agree off one id.
abbrev pub AgreeOff : OrderId → Assoc Order → Assoc Order → Type 0
AgreeOff id os os' = (x : OrderId) → x ≢ id → lookup x os' ≡ lookup x os

IsResting-off :
    (id : OrderId) (os os' : Assoc Order) (bid : Bool) (p : Price) (x : OrderId)
    → AgreeOff id os os'
    → x ≢ id
    → IsResting os bid p x
    → IsResting os' bid p x
IsResting-off id os os' bid p x same ne h = record {
  order = h.order;
  found = same x ne ∙ h.found;
  price = h.price;
  side = h.side;
  small = h.small;
  left = h.left;
}

QueueOk-frame :
    (id : OrderId) (os os' : Assoc Order) (bid : Bool) (p : Price)
    → AgreeOff id os os'
    → (q : List OrderId) → Absent id q
    → QueueOk os bid p q
    → QueueOk os' bid p q
QueueOk-frame id os os' bid p same [] n h = h
QueueOk-frame id os os' bid p same (x ∷ q) n (h, a, r) =
    (IsResting-off id os os' bid p x same n.0 h, a, QueueOk-frame id os os' bid p same q n.1 r)

-- A side that does not name an id does not see a change at it.
pub SideOk-frame :
    (id : OrderId) (os os' : Assoc Order) (bid : Bool)
    → AgreeOff id os os'
    → (l : BookSide) → NotIn id l
    → SideOk os bid l
    → SideOk os' bid l
SideOk-frame id os os' bid same [] n h = h
SideOk-frame id os os' bid same ((p, q) ∷ rest) n (ne, h, a, r) =
    (ne, QueueOk-frame id os os' bid p same q n.0 h, a, SideOk-frame id os os' bid same rest n.1 r)

pub insert-AgreeOff :
    (id : OrderId) (o : Order) (os : Assoc Order) → AgreeOff id os (insert id o os)
insert-AgreeOff id o os x ne = ground (arith, lookup-insert id x o os)

-- What an id resting at a price and side tells of another queue.
Absent-unless :
    (id : OrderId) (os : Assoc Order) (bid : Bool) (p : Price)
    → ((x : OrderId) → IsResting os bid p x → x ≢ id)
    → (q : List OrderId) → QueueOk os bid p q
    → Absent id q
Absent-unless id os bid p f [] h = h
Absent-unless id os bid p f (x ∷ q) (h, _, r) = (f x h, Absent-unless id os bid p f q r)

pub NotIn-unless :
    (id : OrderId) (os : Assoc Order) (bid : Bool)
    → ((p : Price) (x : OrderId) → IsResting os bid p x → x ≢ id)
    → (l : BookSide) → SideOk os bid l
    → NotIn id l
NotIn-unless id os bid f [] h = h
NotIn-unless id os bid f ((p, q) ∷ rest) (_, h, _, r) =
    (Absent-unless id os bid p (f p) q h, NotIn-unless id os bid f rest r)

-- An id that stands for no order, or for one of the other side, is in no queue.
pub NotIn-unknown :
    (id : OrderId) (os : Assoc Order) (bid : Bool) (l : BookSide)
    → lookup id os ≡ none
    → SideOk os bid l
    → NotIn id l
NotIn-unknown id os bid l e h =
    NotIn-unless id os bid (λ p x r same. cc (r.found, ap (λ k. lookup k os) same)) l h

pub NotIn-other :
    (id : OrderId) (o : Order) (os : Assoc Order) (bid : Bool) (l : BookSide)
    → lookup id os ≡ some o
    → is_buy o ≢ bid
    → SideOk os bid l
    → NotIn id l
NotIn-other id o os bid l e other h =
    NotIn-unless id os bid (λ p x r same. other (cc (r.found, r.side, ap (λ k. lookup k os) same)))
      l h

-- An id of one price is in no queue of another price.
pub Absent-price :
    (id : OrderId) (o : Order) (os : Assoc Order) (bid : Bool) (p : Price) (q : List OrderId)
    → lookup id os ≡ some o
    → eqb_ℤ o.limit_price p ≡ false
    → QueueOk os bid p q
    → Absent id q
Absent-price id o os bid p q e ne h = Absent-unless id os bid p differs q h
  where
    differs : (x : OrderId) → IsResting os bid p x → x ≢ id
    differs x r same =
        let e' : o.limit_price ≡ p = cc (r.found, r.price, ap (λ k. lookup k os) same) in
        cc (ap (λ k. eqb_ℤ k p) e', eqb_ℤ_refl p)

pub NotIn-After :
    (id : OrderId) (o : Order) (os : Assoc Order) (bid : Bool) (l : BookSide)
    → lookup id os ≡ some o
    → After bid o.limit_price l
    → SideOk os bid l
    → NotIn id l
NotIn-After id o os bid [] e a h = h
NotIn-After id o os bid ((r, q) ∷ rest) e a (_, h, _, t) = (
  Absent-price id o os bid r q e (before-ne bid o.limit_price r a.0) h,
  NotIn-After id o os bid rest e a.1 t,
)
