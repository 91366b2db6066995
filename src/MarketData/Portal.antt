-- ===== src/MarketData/Portal.antt =====
-- DataPortal of market_data/include/market_data/data_portal.hpp and market_data/src/data_portal.cpp:
-- the stores by symbol, the clock, the queries at the clock and the subscriptions. A ticker is a
-- number here, equal where the strings are; a store is the list of its ticks.
pub mod Bars
pub mod Registry
pub mod History
pub mod Lookahead
mod Tests
use velox_quant.Base.{
  ℕ, ◌+◌, ◌-◌, ◌%◌, ◌^◌, ltb, leb, ◌==◌, Bool, true, false, ◌&&◌, if◌then◌else◌, Option, none, some,
  List, [], ◌∷◌, ◌++◌, map, take, drop, Assoc, lookup, insert, contains, ℤ, pos, ◌+ℤ◌, ◌-ℤ◌, ltb_ℤ,
  half_ℤ,
}
use velox_quant.MarketData.Types.{Timestamp, Price, SymbolId, Tick}
use velox_quant.MarketData.Store.{lower_bound, last_at_or_before}

abbrev pub Ticker : Type 0
Ticker = ℕ

pub record SymbolData : Type 0 where
  pub ticker : Ticker
  pub store : List Tick

pub record PortalSub : Type 0 where
  pub symbol_id : SymbolId
  pub portal_handle : ℕ

pub record DataPortal : Type 0 where
  pub current_ts : Timestamp
  pub next_id : SymbolId
  pub by_id : Assoc SymbolData
  pub ticker_map : Assoc SymbolId
  pub next_handle : ℕ
  pub subscriptions : List PortalSub

abbrev pub new_portal : DataPortal
new_portal = record {
  current_ts = pos 0;
  next_id = 0;
  by_id = [];
  ticker_map = [];
  next_handle = 0;
  subscriptions = [];
}

-- `tick.recv_ts`
abbrev pub recv_ts : Tick → Timestamp
recv_ts t = t.recv_ts

-- `m.emplace(key, val)`: an entry that is there stays.
unfoldable pub emplace {ℓ} : {V : Type ℓ} → ℕ → V → Assoc V → Assoc V
emplace key val m = if contains key m then m else insert key val m

unfoldable pub add_store : SymbolId → Ticker → List Tick → DataPortal → DataPortal
add_store id ticker store p = record p {
  ticker_map = insert ticker id p.ticker_map;
  by_id = emplace id (record { ticker = ticker; store = store }) p.by_id;
}

-- `register_store` with the next id, a `uint32_t`; `none` is the exception.
unfoldable pub register_auto : Ticker → List Tick → DataPortal → Option (SymbolId × DataPortal)
register_auto ticker store p =
    if contains ticker p.ticker_map
    then none
    else some (
      p.next_id,
      add_store p.next_id ticker store (record p { next_id = (p.next_id + 1) % 2 ^ 32 }),
    )

-- `register_store` with an id of the caller's
unfoldable pub register_id : SymbolId → Ticker → List Tick → DataPortal → Option DataPortal
register_id id ticker store p =
    if contains id p.by_id
    then none
    else if contains ticker p.ticker_map
    then none
    else some (record (add_store id ticker store p) {
      next_id = if leb p.next_id id then (id + 1) % 2 ^ 32 else p.next_id;
    })

unfoldable pub advance_to : Timestamp → DataPortal → DataPortal
advance_to ts p = if ltb_ℤ p.current_ts ts then record p { current_ts = ts } else p

unfoldable pub current_tick : SymbolId → DataPortal → Option Tick
current_tick id p = elim (lookup id p.by_id) [
  | none ↦ none
  | some held ↦ last_at_or_before recv_ts held.store p.current_ts
]

unfoldable pub lookup_id : Ticker → DataPortal → Option SymbolId
lookup_id ticker p = lookup ticker p.ticker_map

unfoldable pub current_tick_of : Ticker → DataPortal → Option Tick
current_tick_of ticker p = elim (lookup_id ticker p) [ none ↦ none | some id ↦ current_tick id p ]

-- `current_price` before its conversion to a `double`: the mid price, or else the last one.
unfoldable pub tick_price : Tick → Price
tick_price t =
    if ltb_ℤ (pos 0) t.bid_price && ltb_ℤ (pos 0) t.ask_price
    then half_ℤ (t.bid_price +ℤ t.ask_price)
    else t.last_price

unfoldable pub current_price : SymbolId → DataPortal → Option Price
current_price id p = elim (current_tick id p) [ none ↦ none | some t ↦ some (tick_price t) ]

-- The records between two iterators; `none` is a range that ends before it starts.
unfoldable pub between {ℓ} : {A : Type ℓ} → List A → Option ℕ → Option ℕ → Option (List A)
between xs none last = none
between xs (some i) none = none
between xs (some i) (some j) = if leb i j then some (take (j - i) (drop i xs)) else none

unfoldable pub history : SymbolId → Timestamp → DataPortal → Option (List Tick)
history id lookback p = elim (lookup id p.by_id) [
  | none ↦ some []
  | some held ↦
      between held.store (lower_bound recv_ts held.store (p.current_ts -ℤ lookback))
        (lower_bound recv_ts held.store (p.current_ts +ℤ pos 1))
]

unfoldable pub subscribe : SymbolId → DataPortal → Option (ℕ × DataPortal)
subscribe id p =
    if contains id p.by_id
    then some (
      p.next_handle,
      record p {
        next_handle = p.next_handle + 1;
        subscriptions =
            p.subscriptions ++ record { symbol_id = id; portal_handle = p.next_handle } ∷ [];
      },
    )
    else none

unfoldable pub subscribe_ticker : Ticker → DataPortal → Option (ℕ × DataPortal)
subscribe_ticker ticker p = elim (lookup_id ticker p) [ none ↦ none | some id ↦ subscribe id p ]

unfoldable pub without_handle : ℕ → List PortalSub → List PortalSub
without_handle h [] = []
without_handle h (s ∷ more) =
    let kept = without_handle h more in if s.portal_handle == h then kept else s ∷ kept

unfoldable pub unsubscribe : ℕ → DataPortal → DataPortal
unsubscribe h p = record p { subscriptions = without_handle h p.subscriptions }

unfoldable pub lookup_ticker : SymbolId → DataPortal → Option Ticker
lookup_ticker id p = elim (lookup id p.by_id) [ none ↦ none | some held ↦ some held.ticker ]

unfoldable pub all_symbols : DataPortal → List SymbolId
all_symbols p = map (λ e. e.0) p.by_id
