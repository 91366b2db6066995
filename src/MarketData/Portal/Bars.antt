-- ===== src/MarketData/Portal/Bars.antt =====
-- The bars of DataPortal in market_data/src/data_portal.cpp: bar_duration_ns, build_bars and
-- history_bars. `none` is undefined behaviour, a division by a bar that has no length or a look back
-- that overflows, or the exception of `reserve`.
pub mod Range
use velox_quant.Base.{
  ℕ, ◌+◌, ◌-◌, ◌^◌, leb, ◌&&◌, ◌||◌, add64, ◌*◌, ◌/◌, ltb, ◌==◌, Bool, true, false, if◌then◌else◌,
  Option, none, some, List, [], ◌∷◌, ◌++◌, length, ℤ, pos, ◌+ℤ◌, ◌-ℤ◌, ltb_ℤ, sub_ℕ, pos_part,
  neg_part,
}
use velox_quant.MarketData.Types.{Timestamp, Price, SymbolId, Tick, Bar}
use velox_quant.MarketData.Portal.{DataPortal, history}

-- The unit of a bar; bars by ticks or by volume have the length of seconds.
pub data BarType : Type 0 where
  second minute hour day tick volume : BarType

pub record BarFrequency : Type 0 where
  pub type : BarType
  pub count : ℕ

abbrev pub seconds : BarType → ℕ
seconds BarType.second = 1
seconds BarType.minute = 60
seconds BarType.hour = 3600
seconds BarType.day = 86400
seconds BarType.tick = 1
seconds BarType.volume = 1

unfoldable pub bar_duration_ns : BarFrequency → ℕ
bar_duration_ns freq = freq.count * (seconds freq.type * 1000000000)

-- `(ts / dur) * dur`, which rounds towards zero
unfoldable pub aligned : Timestamp → ℕ → Timestamp
aligned ts dur = sub_ℕ (pos_part ts / dur * dur) (neg_part ts / dur * dur)

-- `px * static_cast<int64_t>(q)`: the cast of an unsigned number from 2 ^ 63 on is negative.
abbrev pub times_size : Price → ℕ → ℤ
times_size px q =
    if ltb q (2 ^ 63)
    then sub_ℕ (pos_part px * q) (neg_part px * q)
    else sub_ℕ (neg_part px * (2 ^ 64 - q)) (pos_part px * (2 ^ 64 - q))

-- `sum_pv / static_cast<int64_t>(vol)`
abbrev pub over_size : ℤ → ℕ → Price
over_size sum q =
    if ltb q (2 ^ 63)
    then sub_ℕ (pos_part sum / q) (neg_part sum / q)
    else sub_ℕ (neg_part sum / (2 ^ 64 - q)) (pos_part sum / (2 ^ 64 - q))

abbrev pub max_price : Price → Price → Price
max_price a b = if ltb_ℤ a b then b else a

abbrev pub min_price : Price → Price → Price
min_price a b = if ltb_ℤ b a then b else a

-- The local variables of build_bars; `cur` is the bar in progress if there is one.
pub record Building : Type 0 where
  pub bars : List Bar
  pub cur : Option Bar
  pub bar_open : Timestamp
  pub sum_pv : ℤ
  pub vol : ℕ

-- `if (bars.size() > n_bars) bars.erase(bars.begin())`
unfoldable pub keep_recent : ℕ → List Bar → List Bar
keep_recent n [] = []
keep_recent n (first ∷ more) = if ltb n (length (first ∷ more)) then more else first ∷ more

unfoldable pub closed_bar : Bar → ℤ → ℕ → Bar
closed_bar cur sum_pv vol = record cur {
  vwap = if ltb 0 vol then over_size sum_pv vol else cur.close;
  volume = vol;
}

unfoldable pub finalise_bar : ℕ → Building → Option Bar → Building
finalise_bar n s none = s
finalise_bar n s (some cur) = record s {
  bars = keep_recent n (s.bars ++ closed_bar cur s.sum_pv s.vol ∷ []);
  cur = none;
  sum_pv = pos 0;
  vol = 0;
}

unfoldable pub finalise : ℕ → Building → Building
finalise n s = finalise_bar n s s.cur

unfoldable pub tick_px : Tick → Price
tick_px t = if ltb_ℤ (pos 0) t.last_price then t.last_price else t.bid_price

unfoldable pub first_bar : Timestamp → ℕ → Tick → Bar
first_bar bar_open dur t = record {
  recv_ts = bar_open +ℤ pos dur -ℤ pos 1;
  open_ts = bar_open;
  close_ts = bar_open +ℤ pos dur -ℤ pos 1;
  symbol_id = t.symbol_id;
  opening = tick_px t;
  high = tick_px t;
  low = tick_px t;
  close = tick_px t;
  vwap = pos 0;
  volume = 0;
  trade_count = 1;
}

unfoldable pub extended_bar : Bar → Tick → Bar
extended_bar b t = record b {
  high = max_price b.high (tick_px t);
  low = min_price b.low (tick_px t);
  close = tick_px t;
  trade_count = b.trade_count + 1;
}

unfoldable pub bar_with : Option Bar → Timestamp → ℕ → Tick → Bar
bar_with none bar_open dur t = first_bar bar_open dur t
bar_with (some b) bar_open dur t = extended_bar b t

-- The tick goes into the bar in progress, or starts one.
unfoldable pub add_tick : ℕ → Tick → Building → Building
add_tick dur t s = record s {
  cur = some (bar_with s.cur s.bar_open dur t);
  sum_pv = if ltb 0 t.last_size then s.sum_pv +ℤ times_size (tick_px t) t.last_size else s.sum_pv;
  vol = if ltb 0 t.last_size then add64 s.vol t.last_size else s.vol;
}

-- A tick from the end of the bar on closes the bar and moves to its own.
unfoldable pub move_window : ℕ → ℕ → Tick → Building → Building
move_window n dur t s =
    if ltb_ℤ t.recv_ts (s.bar_open +ℤ pos dur)
    then s
    else record (finalise n s) { bar_open = aligned t.recv_ts dur }

unfoldable pub add_ticks : Timestamp → ℕ → ℕ → List Tick → Building → Building
add_ticks now n dur [] s = s
add_ticks now n dur (t ∷ more) s =
    let rest = add_ticks now n dur more (add_tick dur t (move_window n dur t s)) in
    if ltb_ℤ now t.recv_ts then s else rest

unfoldable pub bars_from : Timestamp → ℕ → ℕ → Tick → List Tick → List Bar
bars_from now n dur first ticks =
    (finalise n (
      add_ticks now n dur ticks (record {
        bars = [];
        cur = none;
        bar_open = aligned first.recv_ts dur;
        sum_pv = pos 0;
        vol = 0;
      }))).bars

-- What `reserve` refuses: more bars than an array of 128 bytes each may have.
abbrev pub max_bars : ℕ
max_bars = (2 ^ 63 - 1) / 128

unfoldable pub build_bars : Timestamp → List Tick → BarFrequency → ℕ → Option (List Bar)
build_bars now [] freq n = some []
build_bars now (first ∷ more) freq n =
    if bar_duration_ns freq == 0 || ltb max_bars n
    then none
    else some (bars_from now n (bar_duration_ns freq) first (first ∷ more))

-- `static_cast<int64_t>(n_bars + 1) * bar_duration_ns(freq)`
abbrev pub look_back : BarFrequency → ℕ → Timestamp
look_back freq n = times_size (pos (bar_duration_ns freq)) (add64 n 1)

abbrev pub fits_int64 : ℤ → Bool
fits_int64 v = ltb (pos_part v) (2 ^ 63) && leb (neg_part v) (2 ^ 63)

unfoldable pub history_bars : SymbolId → BarFrequency → ℕ → DataPortal → Option (List Bar)
history_bars id freq n p =
    let lookback = look_back freq n in
    elim (fits_int64 lookback) [
      | false ↦ none
      | true ↦ elim (history id lookback p) [
        | none ↦ none
        | some ticks ↦ build_bars p.current_ts ticks freq n
      ]
    ]
