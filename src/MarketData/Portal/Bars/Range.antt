-- ===== src/MarketData/Portal/Bars/Range.antt =====
-- What build_bars of market_data/src/data_portal.cpp keeps of every bar, and how many it keeps.
use velox_quant.Base.{
  ◌||◌, ℕ, ◌+◌, ◌≤◌, ◌<◌, ◌≡◌, ltb, ◌==◌, true, false, Bool-cases, inl, inr, Option, none, some,
  List, [], ◌∷◌, ◌++◌, length, length-append, All, All-append, ℤ, pos, ◌≤ℤ◌, ◌+ℤ◌, ltb_ℤ, arith,
  refl,
}
use velox_quant.MarketData.Types.{Timestamp, Tick, Bar}
use velox_quant.MarketData.Portal.Bars.{
  Building, BarFrequency, keep_recent, closed_bar, finalise_bar, finalise, aligned, first_bar,
  extended_bar, bar_with, add_tick, move_window, add_ticks, bars_from, build_bars, bar_duration_ns,
  max_bars,
}

-- The prices of a bar lie between its low and its high, and it has a trade.
pub record BarOk (b : Bar) : Type 0 where
  pub low_open : b.low ≤ℤ b.opening
  pub open_high : b.opening ≤ℤ b.high
  pub low_close : b.low ≤ℤ b.close
  pub close_high : b.close ≤ℤ b.high
  pub traded : 0 < b.trade_count

abbrev pub CurrentOk : Option Bar → Type 0
CurrentOk none = Unit
CurrentOk (some b) = BarOk b

record BuildingOk (n : ℕ) (s : Building) : Type 0 where
  bounded : length s.bars ≤ n
  bars_ok : All BarOk s.bars
  current_ok : CurrentOk s.cur

first_bar-BarOk : (start : Timestamp) (dur : ℕ) (t : Tick) → BarOk (first_bar start dur t)
unfolding first_bar
first_bar-BarOk start dur t = ground arith

extended_bar-BarOk : (b : Bar) (t : Tick) → BarOk b → BarOk (extended_bar b t)
unfolding extended_bar ltb_ℤ
extended_bar-BarOk b t ok = record {
  low_open = ground (arith, ok.low_open);
  open_high = ground (arith, ok.open_high);
  low_close = ground arith;
  close_high = ground arith;
  traded = omega arith;
}

bar_with-BarOk :
    (cur : Option Bar) (start : Timestamp) (dur : ℕ) (t : Tick)
    → CurrentOk cur
    → BarOk (bar_with cur start dur t)
unfolding bar_with
bar_with-BarOk none start dur t ok = first_bar-BarOk start dur t
bar_with-BarOk (some b) start dur t ok = extended_bar-BarOk b t ok

length-keep_recent :
    (n : ℕ) (bars : List Bar) → length bars ≤ n + 1 → length (keep_recent n bars) ≤ n
unfolding keep_recent
length-keep_recent n [] h = omega arith
length-keep_recent n (b ∷ more) h = ground arith

All-keep_recent : (n : ℕ) (bars : List Bar) → All BarOk bars → All BarOk (keep_recent n bars)
unfolding keep_recent
All-keep_recent n [] h = tt
All-keep_recent n (b ∷ more) h = elim (Bool-cases (ltb n (length (b ∷ more)))) [
  | inl full ↦ rw full h.1
  | inr room ↦ rw room h
]

closed_bar-BarOk : (b : Bar) (sum : ℤ) (vol : ℕ) → BarOk b → BarOk (closed_bar b sum vol)
unfolding closed_bar
closed_bar-BarOk b sum vol ok = record {
  low_open = ok.low_open;
  open_high = ok.open_high;
  low_close = ok.low_close;
  close_high = ok.close_high;
  traded = ok.traded;
}

finalise_bar-BuildingOk :
    (n : ℕ) (s : Building) (cur : Option Bar)
    → BuildingOk n s
    → CurrentOk cur
    → BuildingOk n (finalise_bar n s cur)
unfolding finalise_bar
finalise_bar-BuildingOk n s none ok now = ok
finalise_bar-BuildingOk n s (some b) ok now =
    let closed = closed_bar b s.sum_pv s.vol in
    record {
      bounded =
          length-keep_recent n (s.bars ++ closed ∷ [])
            (omega (arith, length-append s.bars (closed ∷ []), ok.bounded));
      bars_ok = All-keep_recent n (s.bars ++ closed ∷ []) (
          All-append BarOk s.bars (closed ∷ []) ok.bars_ok
            (closed_bar-BarOk b s.sum_pv s.vol now, tt));
      current_ok = tt;
    }

finalise-BuildingOk : (n : ℕ) (s : Building) → BuildingOk n s → BuildingOk n (finalise n s)
unfolding finalise
finalise-BuildingOk n s ok = finalise_bar-BuildingOk n s s.cur ok ok.current_ok

move_window-BuildingOk :
    (n dur : ℕ) (t : Tick) (s : Building) → BuildingOk n s → BuildingOk n (move_window n dur t s)
unfolding move_window
move_window-BuildingOk n dur t s ok = elim (Bool-cases (ltb_ℤ t.recv_ts (s.bar_open +ℤ pos dur))) [
  | inl inside ↦ rw inside ok
  | inr later ↦
      let closed = finalise-BuildingOk n s ok in
      rw later (record {
        bounded = closed.bounded;
        bars_ok = closed.bars_ok;
        current_ok = closed.current_ok;
      })
]

add_tick-BuildingOk :
    (n dur : ℕ) (t : Tick) (s : Building) → BuildingOk n s → BuildingOk n (add_tick dur t s)
unfolding add_tick
add_tick-BuildingOk n dur t s ok = record {
  bounded = ok.bounded;
  bars_ok = ok.bars_ok;
  current_ok = bar_with-BarOk s.cur s.bar_open dur t ok.current_ok;
}

add_ticks-BuildingOk :
    (now : Timestamp) (n dur : ℕ) (ticks : List Tick) (s : Building)
    → BuildingOk n s
    → BuildingOk n (add_ticks now n dur ticks s)
unfolding add_ticks
add_ticks-BuildingOk now n dur [] s ok = ok
add_ticks-BuildingOk now n dur (t ∷ more) s ok = elim (Bool-cases (ltb_ℤ now t.recv_ts)) [
  | inl future ↦ rw future ok
  | inr known ↦ rw known (
      add_ticks-BuildingOk now n dur more (add_tick dur t (move_window n dur t s))
        (add_tick-BuildingOk n dur t (move_window n dur t s) (move_window-BuildingOk n dur t s ok)))
]

-- Bars of a length are built, if not too many are asked for, at most as many as are asked for, and each has a trade and its opening
-- and closing price between its low and its high.
pub build_bars-BarOk :
    (now : Timestamp) (ticks : List Tick) (freq : BarFrequency) (n : ℕ)
    → 0 < bar_duration_ns freq
    → n ≤ max_bars
    → (bars : List Bar) × (build_bars now ticks freq n ≡ some bars)
      × (length bars ≤ n)
      × All BarOk bars
unfolding build_bars bars_from
build_bars-BarOk now [] freq n long few = ([], refl, omega arith, tt)
build_bars-BarOk now (first ∷ more) freq n long few =
    let dur = bar_duration_ns freq in
    let lasting : ((dur == 0) || ltb max_bars n) ≡ false = ground arith in
    let start : Building = record {
      bars = [];
      cur = none;
      bar_open = aligned first.recv_ts dur;
      sum_pv = pos 0;
      vol = 0;
    } in
    let built = finalise-BuildingOk n _ (
      add_ticks-BuildingOk now n dur (first ∷ more) start
        (record { bounded = omega arith; bars_ok = tt; current_ok = tt })) in
    (bars_from now n dur first (first ∷ more), rw lasting refl, built.bounded, built.bars_ok)

-- What comes after the first tick that is later than the clock is not read.
pub add_ticks-ahead :
    (now : Timestamp) (n dur : ℕ) (ticks : List Tick) (t : Tick) (more : List Tick) (s : Building)
    → ltb_ℤ now t.recv_ts ≡ true
    → add_ticks now n dur (ticks ++ t ∷ more) s ≡ add_ticks now n dur ticks s
unfolding add_ticks
add_ticks-ahead now n dur [] t more s late = rw late refl
add_ticks-ahead now n dur (x ∷ ticks) t more s late =
    rw (add_ticks-ahead now n dur ticks t more (add_tick dur x (move_window n dur x s)) late) refl
