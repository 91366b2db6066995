-- ===== src/Exchange/Tests/Engines.antt =====
-- The engine and the router on the desk of one resting sell order.
use velox_quant.Base.{
  ◌-◌, ◌<◌, ◌≤◌, ◌≡◌, refl, true, none, some, [], ◌∷◌, lookup, insert, pos, arith, min, ◌⊎◌, ltb_ℤ,
  eqb_ℤ,
}
use velox_quant.MarketData.Types.{Price, Quantity, Timestamp, sell, Tick}
use velox_quant.Exchange.Types.{Order, OrderId, OrderType, default_order, is_buy, is_sell}
use velox_quant.Exchange.Book.{add, add_on, init, shares_in, find}
use velox_quant.Exchange.Book.Levels.{orders_at, add_order}
use velox_quant.Exchange.Matching.Sweep.{
  Engine, ok, err, dangling, SweepState, sweep_check, sweep_contra, contra_side,
}
use velox_quant.Exchange.Matching.{
  match_fok, match_limit, match_ioc, process, on_tick, register_stop, triggered, touched, last_of,
}
use velox_quant.Exchange.Matching.Available.{available}
use velox_quant.Exchange.Matching.Orders.{
  IsNew, Killed, Completed, reachable, match_fok-all_or_nothing,
}
use velox_quant.Exchange.Matching.Limit.{IsLimit, match_limit-IsLimit}
use velox_quant.Exchange.Matching.Immediate.{IsImmediate, match_ioc-IsImmediate}
use velox_quant.Exchange.Matching.Check.{sweep_check_lem}
use velox_quant.Exchange.Matching.Loop.{Swept, sweep_contra-Swept}
use velox_quant.Exchange.Matching.Process.{IsProcessed, process-IsProcessed, on_tick-dangling}
use velox_quant.Exchange.Router.{Router, fresh_router, submit}
use velox_quant.Exchange.Router.Invariant.{
  RouterOk, Knows, put_context, IsFreshOrder, Accepted, Refused, submit-RouterOk, init-BookOk,
}
use velox_quant.Exchange.Tests.{buy_four, empty_book, ask_book, ask_book-BookOk, two_is_new}

abbrev fee : Quantity → Price → Price
fee n p = pos n

abbrev now : Timestamp
now = pos 1000

abbrev desk : Engine
desk = record {
  book = ask_book;
  next_fill_id = 1;
  fills_generated = 0;
  orders_processed = 0;
  stop_orders = [];
  log = [];
}

buy_four-IsNew : IsNew buy_four desk
buy_four-IsNew = record {
  book = ask_book-BookOk;
  untouched = refl;
  some_qty = omega arith;
  small = omega arith;
}

match_fok-all_or_nothing_example :
    (r : Order × Engine) × (match_fok fee buy_four now desk ≡ ok r)
    × (((reachable buy_four (pos 101) ask_book < 4) × Killed buy_four desk r)
        ⊎ ((4 ≤ reachable buy_four (pos 101) ask_book) × Completed buy_four desk r))
match_fok-all_or_nothing_example = match_fok-all_or_nothing fee buy_four now desk buy_four-IsNew

match_limit-IsLimit_example :
    (r : Order × Engine) × (match_limit fee buy_four now true desk ≡ ok r) × IsLimit buy_four desk r
match_limit-IsLimit_example = match_limit-IsLimit fee buy_four now desk buy_four-IsNew two_is_new

match_ioc-IsImmediate_example :
    (r : Order × Engine) × (match_ioc fee buy_four now desk ≡ ok r)
    × IsImmediate (pos 101) buy_four desk r
match_ioc-IsImmediate_example = match_ioc-IsImmediate fee buy_four now desk buy_four-IsNew

process-IsProcessed_example :
    (r : Order × Engine) × (process fee buy_four now desk ≡ ok r) × IsProcessed buy_four desk r
process-IsProcessed_example = process-IsProcessed fee buy_four now desk buy_four-IsNew two_is_new

sweep_contra-Swept_example :
    (s : SweepState) × (sweep_contra fee buy_four now (pos 101) desk ≡ ok s)
    × Swept (pos 101) buy_four desk s
sweep_contra-Swept_example =
    sweep_contra-Swept fee buy_four now (pos 101) desk ask_book-BookOk (omega arith) (omega arith)

sweep_check_lem_example :
    sweep_check buy_four (pos 101) ask_book
    ≡ min (4 - 0) (
        available
          (is_buy buy_four)
          (pos 101)
          ask_book.orders
          (contra_side (is_buy buy_four) ask_book))
sweep_check_lem_example =
    sweep_check_lem buy_four (pos 101) ask_book ask_book-BookOk (omega arith) (omega arith)

abbrev sell_stop : Order
sell_stop = record default_order {
  id = 3;
  symbol_id = 7;
  side = sell;
  type = OrderType.stop;
  stop_price = pos 90;
  qty = 5;
}

abbrev stop_desk : Engine
stop_desk = register_stop sell_stop desk

abbrev low_tick : Tick
low_tick = record {
  recv_ts = now;
  exch_ts = now;
  symbol_id = 7;
  bid_price = pos 84;
  ask_price = pos 86;
  last_price = pos 85;
  bid_size = 1;
  ask_size = 1;
  last_size = 1;
  seq_no = 1;
}

stop_listed : lookup 7 stop_desk.stop_orders ≡ some (3 ∷ [])
unfolding register_stop lookup insert
stop_listed = refl

stop_is_hit : triggered (last_of low_tick) stop_desk.book (3 ∷ []) ≡ 3 ∷ []
unfolding triggered last_of touched find register_stop add add_on lookup insert init is_buy is_sell
    ltb_ℤ
stop_is_hit = refl

abbrev resting_stop : Order
resting_stop = record sell_stop { limit_price = pos 90 }

stop_found : lookup 3 stop_desk.book.orders ≡ some resting_stop
unfolding register_stop add add_on init lookup insert shares_in orders_at add_order eqb_ℤ
stop_found = refl

stop_tagged : lookup 3 stop_desk.book.order_side ≡ some sell
unfolding register_stop add add_on init lookup insert
stop_tagged = refl

on_tick-dangling_example : on_tick fee low_tick now stop_desk ≡ err dangling
on_tick-dangling_example =
    on_tick-dangling fee low_tick now stop_desk (3 ∷ []) 3 [] resting_stop sell stop_listed
      stop_is_hit stop_found stop_tagged

abbrev empty_desk : Engine
empty_desk = record desk { book = empty_book }

abbrev listed_router : Router
listed_router = record fresh_router { symbols = insert 7 empty_desk [] }

fresh_router-RouterOk : RouterOk fresh_router
unfolding lookup
fresh_router-RouterOk = record {
  contexts = λ s e h. absurd (let no : none ≡ some e = h in cc);
  positive = omega arith;
}

listed_router-RouterOk : RouterOk listed_router
unfolding lookup init
listed_router-RouterOk = record {
  contexts =
      put_context [] (Knows listed_router) 7 empty_desk (init-BookOk 7, no_order)
        (λ s e h. absurd (let no : none ≡ some e = h in cc));
  positive = omega arith;
}
  where
    no_order : (k : OrderId) → 1 ≤ k → lookup k empty_desk.book.orders ≡ none
    no_order k _ = refl

buy_four-IsFreshOrder : IsFreshOrder buy_four
buy_four-IsFreshOrder = record { untouched = refl; small = omega arith }

submit-RouterOk_example :
    (out : OrderId × Order × Router) × (submit fee buy_four now listed_router ≡ ok out)
    × RouterOk out.2
    × (Accepted buy_four listed_router out ⊎ Refused buy_four listed_router out)
submit-RouterOk_example =
    submit-RouterOk fee buy_four now listed_router listed_router-RouterOk buy_four-IsFreshOrder
      (omega arith)
