-- ===== src/MarketData/Replay.antt =====
-- HistoricalReplayEngine of market_data/include/market_data/replay_engine.hpp and
-- market_data/src/replay_engine.cpp, driven by its manual interface. The calls of the subscribers
-- are the `log`, newest first. The pace of the background thread is not modelled.
pub mod Window
use velox_quant.Base.{
  true, false, ℕ, zero, suc, ◌+◌, ◌-◌, ◌==◌, Bool, if◌then◌else◌, ltb, Option, none, some, List, [],
  ◌∷◌, ◌++◌, length, get_elem?, ltb_ℤ, pos, ◌-ℤ◌, ◌||◌, not, add64,
}
use velox_quant.MarketData.Types.{Tick, Timestamp}
use velox_quant.MarketData.Store.{search}

pub data ReplayStatus : Type 0 where
  running finished paused : ReplayStatus

pub record ReplayEngine : Type 0 where
  pub view : List Tick
  pub start_ts : Timestamp
  pub end_ts : Timestamp
  pub loops : Bool
  pub cursor : ℕ
  pub begin_idx : ℕ
  pub end_idx : ℕ
  pub current_ts : Timestamp
  pub is_paused : Bool
  pub subs : List ℕ
  pub next_handle : ℕ
  pub log : List (ℕ × Tick)

abbrev pub tick_ts : Tick → Timestamp
tick_ts t = t.recv_ts

-- `std::lower_bound` over the ticks from index `first` to index `last`.
unfoldable pub std_lower_bound : List Tick → ℕ → ℕ → Timestamp → Option ℕ
std_lower_bound view first last ts = search tick_ts (last - first + 1) view ts first (last - first)

unfoldable pub placed : ReplayEngine → ℕ → ℕ → ReplayEngine
placed r first last = record r {
  begin_idx = first;
  end_idx = last;
  cursor = first;
  current_ts = r.start_ts;
}

unfoldable pub init_indices : ReplayEngine → Option ReplayEngine
init_indices r = elim (std_lower_bound r.view 0 (length r.view) r.start_ts) [
  | none ↦ none
  | some first ↦ elim (std_lower_bound r.view 0 (length r.view) r.end_ts) [
    | none ↦ none
    | some last ↦ some (placed r first last)
  ]
]

-- An engine over a view, before `init_indices`.
abbrev pub new_engine : List Tick → Timestamp → Timestamp → Bool → ReplayEngine
new_engine view start_ts end_ts loops = record {
  view = view;
  start_ts = start_ts;
  end_ts = end_ts;
  loops = loops;
  cursor = 0;
  begin_idx = 0;
  end_idx = 0;
  current_ts = pos 0;
  is_paused = false;
  subs = [];
  next_handle = 0;
  log = [];
}

unfoldable pub subscribe : ReplayEngine → ℕ × ReplayEngine
subscribe r = (
  r.next_handle,
  record r { next_handle = add64 r.next_handle 1; subs = r.subs ++ r.next_handle ∷ [] },
)

unfoldable pub drop_handle : ℕ → List ℕ → List ℕ
drop_handle h [] = []
drop_handle h (s ∷ subs) = let rest = drop_handle h subs in if s == h then rest else s ∷ rest

unfoldable pub unsubscribe : ℕ → ReplayEngine → ReplayEngine
unsubscribe h r = record r { subs = drop_handle h r.subs }

-- Each subscriber is called in the order of subscription.
unfoldable pub calls : List ℕ → Tick → List (ℕ × Tick) → List (ℕ × Tick)
calls [] t log = log
calls (s ∷ subs) t log = calls subs t ((s, t) ∷ log)

unfoldable pub fire_callbacks : Tick → ReplayEngine → ReplayEngine
fire_callbacks t r = record r { log = calls r.subs t r.log }

unfoldable pub at_end : ReplayEngine → Bool
at_end r = not (ltb r.cursor r.end_idx)

unfoldable pub rewind : ReplayEngine → ReplayEngine
rewind r = record r { cursor = r.begin_idx; current_ts = r.start_ts }

unfoldable pub replay : Tick → ReplayEngine → ReplayEngine
replay t r = fire_callbacks t (record r { cursor = r.cursor + 1; current_ts = t.recv_ts })

-- `none_left` is `nullopt`; `out_of_range` is a read of `view_` beyond its end.
pub data Stepped : Type 0 where
  none_left out_of_range : Stepped
  gave : Tick → ReplayEngine → Stepped

unfoldable pub read_tick : ReplayEngine → Option Tick → Stepped
read_tick r none = out_of_range
read_tick r (some t) = gave t (replay t r)

unfoldable pub take_tick : ReplayEngine → Stepped
take_tick r = read_tick r (get_elem? r.view r.cursor)

unfoldable pub step : ReplayEngine → Stepped
step r = if at_end r then (if r.loops then take_tick (rewind r) else none_left) else take_tick r

-- `target_ts` is clamped already. `none` is a read beyond the view, or a loop that is cut off.
unfoldable pub step_while : ℕ → Timestamp → ReplayEngine → Option ReplayEngine
step_while zero target r = none
step_while (suc fuel) target r = elim (at_end r) [
  | true ↦ some r
  | false ↦ elim (get_elem? r.view r.cursor) [
    | none ↦ none
    | some t ↦
        (let more = step_while fuel target (replay t r) in
          if ltb_ℤ target t.recv_ts then some r else more)
  ]
]

abbrev pub clamp : Timestamp → ReplayEngine → Timestamp
clamp target r = if ltb_ℤ (r.end_ts -ℤ pos 1) target then r.end_ts -ℤ pos 1 else target

-- Each round moves the cursor towards the end of the window.
unfoldable pub step_to : Timestamp → ReplayEngine → Option ReplayEngine
step_to target r = step_while (r.end_idx - r.cursor + 1) (clamp target r) r

-- `none` is the exception of a time outside the window.
unfoldable pub seek : Timestamp → ReplayEngine → Option ReplayEngine
seek ts r =
    if ltb_ℤ ts r.start_ts || not (ltb_ℤ ts r.end_ts)
    then none
    else (elim (std_lower_bound r.view r.begin_idx r.end_idx ts) [
      | none ↦ none
      | some i ↦ some (record r { cursor = i; current_ts = ts })
    ])

unfoldable pub status : ReplayEngine → ReplayStatus
status r = if r.is_paused then paused else if at_end r then finished else running

unfoldable pub set_loop : Bool → ReplayEngine → ReplayEngine
set_loop loops r = record r { loops = loops }

unfoldable pub pause : ReplayEngine → ReplayEngine
pause r = record r { is_paused = true }

-- Without the clock of the background thread.
unfoldable pub resume : ReplayEngine → ReplayEngine
resume r = record r { is_paused = false }
