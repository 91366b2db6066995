-- ===== src/MarketData/Portal/Tests.antt =====
-- A portal with one store of three ticks, at the time of the second.
use velox_quant.Base.{
  ℕ, ◌≡◌, ◌≤◌, refl, none, some, List, [], ◌∷◌, length, All, lookup, pos, ltb_ℤ, ◌-ℤ◌, arith,
}
use velox_quant.MarketData.Types.{Tick, Bar}
use velox_quant.MarketData.Store.Bounds.{Sorted, Sorted-cons}
use velox_quant.MarketData.Portal.{
  DataPortal, SymbolData, new_portal, recv_ts, history, register_auto, lookup_id, lookup_ticker,
}
use velox_quant.MarketData.Portal.Registry.{RegistryOk, Registers, register_auto-RegistryOk}
use velox_quant.MarketData.Portal.History.{filter, in_window, history-window}
use velox_quant.MarketData.Portal.Lookahead.{history_bars-NoLookahead}
use velox_quant.MarketData.Portal.Bars.{BarFrequency, BarType, history_bars, bar_duration_ns}
use velox_quant.MarketData.Portal.Bars.Range.{BarOk}

abbrev tick_of : ℕ → ℕ → Tick
tick_of n price = record {
  recv_ts = pos n;
  exch_ts = pos n;
  symbol_id = 0;
  bid_price = pos price;
  ask_price = pos price;
  last_price = pos price;
  bid_size = 5;
  ask_size = 5;
  last_size = 1;
  seq_no = n;
}

abbrev store_with : ℕ → List Tick
store_with last = tick_of 10 7 ∷ tick_of 20 9 ∷ tick_of 30 last ∷ []

store_with-Sorted : (last : ℕ) → Sorted recv_ts (store_with last)
store_with-Sorted last =
    Sorted-cons recv_ts (tick_of 10 7) (tick_of 20 9 ∷ tick_of 30 last ∷ [])
      (omega arith, (omega arith, tt))
      (Sorted-cons recv_ts (tick_of 20 9) (tick_of 30 last ∷ []) (omega arith, tt)
        (Sorted-cons recv_ts (tick_of 30 last) [] tt
          (λ i j a b h at bt. absurd (let none_there : none ≡ some a = at in cc))))

abbrev held_with : ℕ → SymbolData
held_with last = record { ticker = 42; store = store_with last }

abbrev portal_with : ℕ → DataPortal
portal_with last = record new_portal {
  current_ts = pos 20;
  next_id = 1;
  by_id = (0, held_with last) ∷ [];
  ticker_map = (42, 0) ∷ [];
}

history-window_example :
    history 0 (pos 15) (portal_with 50)
    ≡ some (filter (in_window (pos 20 -ℤ pos 15) (pos 20)) (store_with 50))
unfolding lookup
history-window_example =
    history-window 0 (pos 15) (portal_with 50) (held_with 50) refl (store_with-Sorted 50)
      (omega arith)

abbrev each_second : BarFrequency
each_second = record { type = BarType.second; count = 1 }

history_bars-NoLookahead_example :
    (bars : List Bar) × (history_bars 0 each_second 3 (portal_with 50) ≡ some bars)
    × (history_bars 0 each_second 3 (portal_with 60) ≡ some bars)
    × (length bars ≤ 3)
    × All BarOk bars
unfolding lookup filter ltb_ℤ bar_duration_ns
history_bars-NoLookahead_example =
    history_bars-NoLookahead 0 each_second 3 (portal_with 50) (portal_with 60) (held_with 50)
      (held_with 60) refl refl (store_with-Sorted 50) (store_with-Sorted 60) (omega arith)
      (omega arith) refl refl

new_portal-RegistryOk : RegistryOk new_portal
unfolding lookup lookup_id lookup_ticker
new_portal-RegistryOk = record {
  by_ticker = λ t i found. absurd (let none_there : none ≡ some i = found in cc);
  by_number = λ i t found. absurd (let none_there : none ≡ some t = found in cc);
  below_next = λ i held found. absurd (let none_there : none ≡ some held = found in cc);
}

register_auto-RegistryOk_example :
    Registers 42 (store_with 50) new_portal (register_auto 42 (store_with 50) new_portal)
register_auto-RegistryOk_example =
    register_auto-RegistryOk 42 (store_with 50) new_portal new_portal-RegistryOk (omega arith)
