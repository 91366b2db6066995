-- ===== src/Exchange/Book/Remove.antt =====
-- `remove_order` keeps a side well formed, and `add_order` too.
use velox_quant.Base.{
  ◌≡◌, sym, Bool, true, some, List, [], ◌∷◌, Assoc, lookup, ◌==◌, arith, eqb_ℤ, eqb_ℤ→eq,
  Bool-cases, inl, inr,
}
use velox_quant.MarketData.Types.{Price}
use velox_quant.Exchange.Types.{Order, OrderId}
use velox_quant.Exchange.Book.Levels.{BookSide, before, remove_order, erase_id, keep_level}
use velox_quant.Exchange.Book.Invariant.{Absent, QueueOk, After, SideOk, NotIn}
use velox_quant.Exchange.Book.Frame.{Absent-price, NotIn-After}

Absent-erase : (x id : OrderId) (q : List OrderId) → Absent x q → Absent x (erase_id id q)
unfolding erase_id
Absent-erase x id [] h = h
Absent-erase x id (y ∷ q) h = ground (arith, Absent-erase x id q h.1)

QueueOk-erase :
    (os : Assoc Order) (bid : Bool) (p : Price) (id : OrderId) (q : List OrderId)
    → QueueOk os bid p q
    → QueueOk os bid p (erase_id id q)
unfolding erase_id
QueueOk-erase os bid p id [] h = h
QueueOk-erase os bid p id (y ∷ q) (h, a, r) = elim (Bool-cases (y == id)) [
  | inl e ↦ rw e r
  | inr e ↦ rw e (h, Absent-erase y id q a, QueueOk-erase os bid p id q r)
]

-- The first occurrence was the only one.
Absent-erased :
    (os : Assoc Order) (bid : Bool) (p : Price) (id : OrderId) (q : List OrderId)
    → QueueOk os bid p q
    → Absent id (erase_id id q)
unfolding erase_id
Absent-erased os bid p id [] h = h
Absent-erased os bid p id (y ∷ q) (h, a, r) = elim (Bool-cases (y == id)) [
  | inl e ↦ rw e (let same : y ≡ id = ground arith in rw same at a)
  | inr e ↦ rw e (ground arith, Absent-erased os bid p id q r)
]

keep_level-After :
    (bid : Bool) (p r : Price) (q : List OrderId) (rest : BookSide)
    → before bid p r ≡ true
    → After bid p rest
    → After bid p (keep_level r q rest).1
unfolding keep_level
keep_level-After bid p r [] rest b a = a
keep_level-After bid p r (x ∷ q) rest b a = (b, a)

keep_level-SideOk :
    (os : Assoc Order) (bid : Bool) (r : Price) (q : List OrderId) (rest : BookSide)
    → QueueOk os bid r q
    → After bid r rest
    → SideOk os bid rest
    → SideOk os bid (keep_level r q rest).1
unfolding keep_level
keep_level-SideOk os bid r [] rest h a t = t
keep_level-SideOk os bid r (x ∷ q) rest h a t = ((λ e. cc), h, a, t)

keep_level-NotIn :
    (id : OrderId) (r : Price) (q : List OrderId) (rest : BookSide)
    → Absent id q
    → NotIn id rest
    → NotIn id (keep_level r q rest).1
unfolding keep_level
keep_level-NotIn id r [] rest a t = t
keep_level-NotIn id r (x ∷ q) rest a t = (a, t)

remove-After :
    (bid : Bool) (r p : Price) (id : OrderId) (l : BookSide)
    → After bid r l
    → After bid r (remove_order p id l).1
unfolding remove_order
remove-After bid r p id [] a = a
remove-After bid r p id ((s, q) ∷ rest) a = elim (Bool-cases (eqb_ℤ p s)) [
  | inl e ↦ rw e (keep_level-After bid r s (erase_id id q) rest a.0 a.1)
  | inr e ↦ rw e (a.0, remove-After bid r p id rest a.1)
]

pub remove-SideOk :
    (os : Assoc Order) (bid : Bool) (p : Price) (id : OrderId) (l : BookSide)
    → SideOk os bid l
    → SideOk os bid (remove_order p id l).1
unfolding remove_order
remove-SideOk os bid p id [] h = h
remove-SideOk os bid p id ((r, q) ∷ rest) (ne, h, a, t) = elim (Bool-cases (eqb_ℤ p r)) [
  | inl e ↦
      rw e (keep_level-SideOk os bid r (erase_id id q) rest (QueueOk-erase os bid r id q h) a t)
  | inr e ↦ rw e (ne, h, remove-After bid r p id rest a, remove-SideOk os bid p id rest t)
]

-- An id that rests at a price is in no queue once it is removed from that price.
pub remove-NotIn :
    (os : Assoc Order) (bid : Bool) (o : Order) (id : OrderId) (l : BookSide)
    → lookup id os ≡ some o
    → SideOk os bid l
    → NotIn id (remove_order o.limit_price id l).1
unfolding remove_order
remove-NotIn os bid o id [] e h = h
remove-NotIn os bid o id ((r, q) ∷ rest) e (ne, h, a, t) =
    elim (Bool-cases (eqb_ℤ o.limit_price r)) [
      | inl k ↦
          let same : r ≡ o.limit_price = sym (eqb_ℤ→eq o.limit_price r k) in
          rw k (
            keep_level-NotIn id r (erase_id id q) rest (Absent-erased os bid r id q h)
              (NotIn-After id o os bid rest e (rw same at a) t))
      | inr k ↦ rw k (Absent-price id o os bid r q e k h, remove-NotIn os bid o id rest e t)
    ]
