-- ===== src/MarketData/Tests.antt =====
-- Runs of the store's search and of the replay on three ticks.
use velox_quant.Base.{
  ℕ, ◌≤◌, ◌<◌, ◌≡◌, refl, sym, ◌∙◌, subst, true, false, none, some, List, [], ◌∷◌, ◌≤ℤ◌, ◌<ℤ◌,
  arith, ◌⊎◌, inl, pos, ltb_ℤ,
}
use velox_quant.MarketData.Types.{Tick, Timestamp}
use velox_quant.MarketData.Store.{lower_bound, search, narrow, last_at_or_before}
use velox_quant.MarketData.Store.Bounds.{
  Sorted, Splits, Latest, Sorted-cons, lower_bound-Splits, last_at_or_before-Latest,
}
use velox_quant.MarketData.Replay.{
  ReplayEngine, tick_ts, new_engine, placed, step, seek, none_left, out_of_range, gave,
}
use velox_quant.MarketData.Replay.Window.{
  ReplayOk, Gives, step-InWindow, step-empty_window, seek-ReplayOk,
}

abbrev tick_at : ℕ → Tick
tick_at n = record {
  recv_ts = pos n;
  exch_ts = pos n;
  symbol_id = 7;
  bid_price = pos 99;
  ask_price = pos 101;
  last_price = pos 100;
  bid_size = 5;
  ask_size = 5;
  last_size = 1;
  seq_no = n;
}

abbrev ticks : List Tick
ticks = tick_at 10 ∷ tick_at 20 ∷ tick_at 30 ∷ []

ticks-Sorted : Sorted tick_ts ticks
ticks-Sorted =
    Sorted-cons tick_ts (tick_at 10) (tick_at 20 ∷ tick_at 30 ∷ []) (omega arith, (omega arith, tt))
      (Sorted-cons tick_ts (tick_at 20) (tick_at 30 ∷ []) (omega arith, tt)
        (Sorted-cons tick_ts (tick_at 30) [] tt
          (λ i j a b h at bt. absurd (let no : none ≡ some a = at in cc))))

lower_bound-Splits_example :
    (i : ℕ) × (lower_bound tick_ts ticks (pos 15) ≡ some i)
    × (i ≤ 3)
    × Splits tick_ts ticks (pos 15) i i
lower_bound-Splits_example = lower_bound-Splits tick_ts ticks (pos 15) ticks-Sorted

last_at_or_before-Latest_example :
    Latest tick_ts ticks (pos 25) (last_at_or_before tick_ts ticks (pos 25))
last_at_or_before-Latest_example = last_at_or_before-Latest tick_ts ticks (pos 25) ticks-Sorted

Splits-at :
    (ts : Timestamp) (i : ℕ) → lower_bound tick_ts ticks ts ≡ some i → Splits tick_ts ticks ts i i
Splits-at ts i h =
    let (k, eq, _, out) = lower_bound-Splits tick_ts ticks ts ticks-Sorted in
    let same : k ≡ i = (let is : some k ≡ some i = sym eq ∙ h in cc) in
    subst (λ n. Splits tick_ts ticks ts n n) same out

low_end : lower_bound tick_ts ticks (pos 15) ≡ some 1
unfolding lower_bound search narrow ltb_ℤ
low_end = refl

high_end : lower_bound tick_ts ticks (pos 25) ≡ some 2
unfolding lower_bound search narrow ltb_ℤ
high_end = refl

-- A window that holds the second tick.
abbrev raw : ReplayEngine
raw = new_engine ticks (pos 15) (pos 25) true

abbrev second_only : ReplayEngine
second_only = placed raw 1 2

second_only-ReplayOk : ReplayOk second_only
unfolding placed
second_only-ReplayOk = record {
  sorted = ticks-Sorted;
  begins = Splits-at (pos 15) 1 low_end;
  ends = Splits-at (pos 25) 2 high_end;
  inside = omega arith;
  low = omega arith;
  high = omega arith;
}

step-InWindow_example :
    ((step second_only ≡ none_left)
      × (second_only.cursor ≡ second_only.end_idx)
      × (second_only.loops ≡ false))
    ⊎ Gives second_only (step second_only)
unfolding placed
step-InWindow_example = step-InWindow second_only second_only-ReplayOk (inl some_tick)
  where
    some_tick : 1 < 2
    some_tick = omega arith

-- A window between the second tick and the third.
abbrev gap : ReplayEngine
gap = placed (new_engine ticks (pos 22) (pos 25) true) 2 2

gap_end : lower_bound tick_ts ticks (pos 22) ≡ some 2
unfolding lower_bound search narrow ltb_ℤ
gap_end = refl

gap-ReplayOk : ReplayOk gap
unfolding placed
gap-ReplayOk = record {
  sorted = ticks-Sorted;
  begins = Splits-at (pos 22) 2 gap_end;
  ends = Splits-at (pos 25) 2 high_end;
  inside = omega arith;
  low = omega arith;
  high = omega arith;
}

step-empty_window_example :
    (step gap ≡ out_of_range)
    ⊎ ((t : Tick) × (r' : ReplayEngine) × (step gap ≡ gave t r') × (pos 25 ≤ℤ t.recv_ts))
unfolding placed
step-empty_window_example = step-empty_window gap gap-ReplayOk refl refl

seek-ReplayOk_example :
    (((pos 18 <ℤ pos 15) ⊎ (pos 25 ≤ℤ pos 18)) × (seek (pos 18) second_only ≡ none))
    ⊎ ((r' : ReplayEngine) × (seek (pos 18) second_only ≡ some r')
        × ReplayOk r'
        × (pos 15 ≤ℤ pos 18)
        × (pos 18 <ℤ pos 25)
        × (r'.current_ts ≡ pos 18)
        × Splits tick_ts ticks (pos 18) r'.cursor r'.cursor)
unfolding placed
seek-ReplayOk_example = seek-ReplayOk (pos 18) second_only second_only-ReplayOk
