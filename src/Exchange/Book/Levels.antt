-- ===== src/Exchange/Book/Levels.antt =====
-- `BookSide` of exchange/include/exchange/order_book.hpp: a sorted map from prices to FIFO queues.
use velox_quant.Base.{
  Bool, true, false, Option, none, some, List, [], ◌∷◌, ◌++◌, ◌==◌, if◌then◌else◌, ltb_ℤ, eqb_ℤ,
}
use velox_quant.MarketData.Types.{Price}
use velox_quant.Exchange.Types.{OrderId}

abbrev pub BookSide : Type 0
BookSide = List (Price × List OrderId)

-- The comparator: higher prices first among the bids, lower prices first among the asks.
unfoldable pub before : Bool → Price → Price → Bool
before true p r = ltb_ℤ r p
before false p r = ltb_ℤ p r

-- `levels[p].push_back(id)`
unfoldable pub add_order : Bool → Price → OrderId → BookSide → BookSide
add_order bid p id [] = (p, id ∷ []) ∷ []
add_order bid p id ((r, q) ∷ rest) =
    if eqb_ℤ p r
    then (r, q ++ id ∷ []) ∷ rest
    else (if before bid p r then (p, id ∷ []) ∷ (r, q) ∷ rest else (r, q) ∷ add_order bid p id rest)

-- The first occurrence of an id goes out of a queue.
unfoldable pub erase_id : OrderId → List OrderId → List OrderId
erase_id id [] = []
erase_id id (x ∷ q) = if x == id then q else x ∷ erase_id id q

-- An emptied level is erased, and the flag says so.
unfoldable pub keep_level : Price → List OrderId → BookSide → Bool × BookSide
keep_level r [] rest = (true, rest)
keep_level r (x ∷ q) rest = (false, (r, x ∷ q) ∷ rest)

unfoldable pub remove_order : Price → OrderId → BookSide → Bool × BookSide
remove_order p id [] = (false, [])
remove_order p id ((r, q) ∷ rest) =
    let (erased, rest') = remove_order p id rest in
    if eqb_ℤ p r then keep_level r (erase_id id q) rest else (erased, (r, q) ∷ rest')

unfoldable pub best_price : BookSide → Option Price
best_price [] = none
best_price ((p, _) ∷ _) = some p

unfoldable pub orders_at : Price → BookSide → Option (List OrderId)
orders_at p [] = none
orders_at p ((r, q) ∷ rest) = if eqb_ℤ p r then some q else orders_at p rest
