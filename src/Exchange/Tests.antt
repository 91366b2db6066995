-- ===== src/Exchange/Tests.antt =====
-- Runs of the exchange on small inputs: the theorems about it, applied to a desk with one resting
-- sell order of ten shares at 101.
pub mod Engines
use velox_quant.Base.{
  ℕ, ◌+◌, ◌<◌, ◌≤◌, ◌≡◌, refl, Bool, true, false, Option, none, some, List, [], ◌∷◌, lookup, insert,
  contains, pos, negsuc, arith, min, ◌-◌, ◌⊎◌, inl, inr, Assoc,
}
use velox_quant.MarketData.Types.{Price, Quantity, Timestamp, buy, sell, Tick}
use velox_quant.Exchange.Types.{Order, OrderId, OrderType, OrderStatus, default_order, is_buy}
use velox_quant.Exchange.Book.{
  OrderBook, init, add, add_on, cancel, reduce_qty, find, queue_position, shares_in,
}
use velox_quant.Exchange.Book.Levels.{orders_at}
use velox_quant.Exchange.Book.Invariant.{BookOk, NotIn}
use velox_quant.Exchange.Book.Preserve.{IsAddable, add-BookOk, cancel-BookOk, reduce_qty-BookOk}
use velox_quant.Exchange.Book.Laws.{cancel-add}
use velox_quant.Exchange.Book.Gone.{cancel_twice, cancel-reduce_qty}
use velox_quant.Exchange.Book.Position.{queue_position-add}
use velox_quant.Exchange.Router.Invariant.{init-BookOk}

abbrev pub sell_ten : Order
sell_ten = record default_order {
  id = 1;
  symbol_id = 7;
  side = sell;
  type = OrderType.limit;
  limit_price = pos 101;
  qty = 10;
}

abbrev pub buy_four : Order
buy_four = record default_order {
  id = 2;
  symbol_id = 7;
  type = OrderType.limit;
  limit_price = pos 101;
  qty = 4;
}

abbrev pub empty_book : OrderBook
empty_book = init 7

abbrev pub ask_book : OrderBook
ask_book = (add sell_ten empty_book).1

sell_ten-IsAddable : IsAddable sell_ten empty_book
unfolding init lookup
sell_ten-IsAddable = record { fresh = refl; small = omega arith; left = omega arith }

pub ask_book-BookOk : BookOk ask_book
ask_book-BookOk = add-BookOk sell_ten empty_book sell_ten-IsAddable (init-BookOk 7)

pub two_is_new : lookup 2 ask_book.orders ≡ none
unfolding add add_on init lookup insert
two_is_new = refl

buy_four-IsAddable : IsAddable buy_four ask_book
buy_four-IsAddable = record { fresh = two_is_new; small = omega arith; left = omega arith }

add-BookOk_example : BookOk (add buy_four ask_book).1
add-BookOk_example = add-BookOk buy_four ask_book buy_four-IsAddable ask_book-BookOk

cancel-BookOk_example : BookOk (cancel 1 ask_book).1
cancel-BookOk_example = cancel-BookOk 1 ask_book ask_book-BookOk

reduce_qty-BookOk_example : BookOk (reduce_qty 1 4 ask_book)
reduce_qty-BookOk_example = reduce_qty-BookOk 1 4 ask_book ask_book-BookOk

cancel-add_example :
    ((cancel 2 (add buy_four ask_book).1).0 ≡ true)
    × ((cancel 2 (add buy_four ask_book).1).1.bids ≡ ask_book.bids)
    × ((cancel 2 (add buy_four ask_book).1).1.asks ≡ ask_book.asks)
cancel-add_example = cancel-add buy_four ask_book two_is_new ask_book-BookOk

cancels_one : (cancel 1 ask_book).0 ≡ true
unfolding cancel add add_on init lookup insert
cancels_one = refl

stored_one : lookup 1 ask_book.orders ≡ some sell_ten
unfolding add add_on init lookup insert shares_in orders_at
stored_one = refl

queue_position-add_example :
    queue_position 2 (add buy_four ask_book).1 ≡ (add buy_four ask_book).0.queue_pos
queue_position-add_example = queue_position-add buy_four ask_book two_is_new ask_book-BookOk
