-- ===== src/MarketData/Replay/Window.antt =====
-- The replay stays in its window, and finds the places in it.
use velox_quant.Base.{
  ℕ, ◌+◌, ◌-◌, ◌<◌, ◌≤◌, ◌≡◌, refl, sym, subst, ◌∙◌, Bool, true, false, none, some, List, length,
  get_elem?, ltb, if◌then◌else◌, ◌≤ℤ◌, ◌<ℤ◌, ltb_ℤ, ltb_ℤ→lt, ltb_ℤ→ge, arith, Bool-cases,
  Option-cases, inl, inr, ◌⊎◌,
}
use velox_quant.MarketData.Types.{Tick, Timestamp}
use velox_quant.MarketData.Store.Bounds.{
  Sorted, Splits, search-Splits, get_elem?-inside, get_elem?-bound,
}
use velox_quant.MarketData.Replay.{
  ReplayEngine, tick_ts, std_lower_bound, placed, init_indices, at_end, rewind, replay, Stepped,
  none_left, out_of_range, gave, read_tick, take_tick, step, seek, fire_callbacks,
}

-- The window is [start_ts, end_ts), and the cursor is in it or at its end.
pub record ReplayOk (r : ReplayEngine) : Type 0 where
  pub sorted : Sorted tick_ts r.view
  pub begins : Splits tick_ts r.view r.start_ts r.begin_idx r.begin_idx
  pub ends : Splits tick_ts r.view r.end_ts r.end_idx r.end_idx
  pub inside : r.end_idx ≤ length r.view
  pub low : r.begin_idx ≤ r.cursor
  pub high : r.cursor ≤ r.end_idx

-- The tick is in the window.
abbrev pub InWindow : ReplayEngine → Tick → Type 0
InWindow r t = (r.start_ts ≤ℤ t.recv_ts) × (t.recv_ts <ℤ r.end_ts)

std_lower_bound-Splits :
    (view : List Tick) (first last : ℕ) (ts : Timestamp)
    → Sorted tick_ts view
    → first ≤ last
    → last ≤ length view
    → Splits tick_ts view ts first last
    → (i : ℕ) × (std_lower_bound view first last ts ≡ some i)
      × (first ≤ i)
      × (i ≤ last)
      × Splits tick_ts view ts i i
unfolding std_lower_bound
std_lower_bound-Splits view first last ts sorted order fits s =
    let whole : first + (last - first) ≡ last = omega arith in
    let (i, eq, low, high, out) =
      search-Splits tick_ts (last - first + 1) view ts first (last - first) sorted (omega arith)
        (omega arith)
        (record { before = s.before; after = λ j a h at. s.after j a (omega (arith, h)) at }) in
    (i, eq, low, omega (arith, high), out)

nothing_split : (view : List Tick) (ts : Timestamp) → Splits tick_ts view ts 0 (length view)
nothing_split view ts = record {
  before = λ j a h at. absurd (omega arith);
  after = λ j a h at. absurd (omega (arith, get_elem?-bound view j a at));
}

-- On ticks in the order of their time and a window that does not end before it starts,
-- `init_indices` ends with the cursor at the first tick of the window.
pub init_indices-ReplayOk :
    (r : ReplayEngine)
    → Sorted tick_ts r.view
    → r.start_ts ≤ℤ r.end_ts
    → (r' : ReplayEngine) × (init_indices r ≡ some r') × (r'.cursor ≡ r'.begin_idx) × ReplayOk r'
unfolding init_indices placed
init_indices-ReplayOk r sorted order =
    let (b, eq_b, _, high_b, s) =
      std_lower_bound-Splits r.view 0 (length r.view) r.start_ts sorted (omega arith) (omega arith)
        (nothing_split r.view r.start_ts) in
    let (e, eq_e, _, high_e, t) =
      std_lower_bound-Splits r.view 0 (length r.view) r.end_ts sorted (omega arith) (omega arith)
        (nothing_split r.view r.end_ts) in
    (
      placed r b e,
      rw (eq_b, init_indices) (rw eq_e refl),
      refl,
      record {
        sorted = sorted;
        begins = s;
        ends = t;
        inside = high_e;
        low = omega arith;
        high = elim (Bool-cases (ltb e b)) [
          | inr fine ↦ ground arith
          | inl crossed ↦
              let less : e < b = ground arith in
              let (a, at) = get_elem?-inside r.view e (omega (arith, less, high_b)) in
              absurd (omega (arith, order, s.before e a less at, t.after e a (omega arith) at))
        ];
      },
    )

replay-ReplayOk :
    (r : ReplayEngine) (t : Tick) → ReplayOk r → r.cursor < r.end_idx → ReplayOk (replay t r)
unfolding replay fire_callbacks
replay-ReplayOk r t v more = record {
  sorted = v.sorted;
  begins = v.begins;
  ends = v.ends;
  inside = v.inside;
  low = omega (arith, v.low);
  high = omega arith;
}

abbrev pub Gives : ReplayEngine → Stepped → Type 0
Gives r out =
    (t : Tick) × (r' : ReplayEngine) × (out ≡ gave t r')
    × InWindow r t
    × (r'.current_ts ≡ t.recv_ts)
    × ReplayOk r'

take_tick-Gives : (r : ReplayEngine) → ReplayOk r → r.cursor < r.end_idx → Gives r (take_tick r)
unfolding take_tick read_tick replay fire_callbacks
take_tick-Gives r v more =
    let (t, at) = get_elem?-inside r.view r.cursor (omega (arith, v.inside)) in
    (
      t,
      replay t r,
      rw at refl,
      (v.begins.after r.cursor t v.low at, v.ends.before r.cursor t more at),
      refl,
      replay-ReplayOk r t v more,
    )

rewind-ReplayOk : (r : ReplayEngine) → ReplayOk r → ReplayOk (rewind r)
unfolding rewind
rewind-ReplayOk r v = record {
  sorted = v.sorted;
  begins = v.begins;
  ends = v.ends;
  inside = v.inside;
  low = omega arith;
  high = omega (arith, v.low, v.high);
}

if_true : {A : Type 0} (b : Bool) (x y : A) → b ≡ true → (if b then x else y) ≡ x
if_true b x y e = rw e refl

-- A step gives a tick of the window and stays well formed, or ends: that only at the end of the
-- window, without looping. (For an engine that does not loop, or whose window has a tick.)
pub step-InWindow :
    (r : ReplayEngine)
    → ReplayOk r
    → (r.begin_idx < r.end_idx) ⊎ (r.loops ≡ false)
    → ((step r ≡ none_left) × (r.cursor ≡ r.end_idx) × (r.loops ≡ false)) ⊎ Gives r (step r)
unfolding step at_end rewind
step-InWindow r v some_tick = elim (Bool-cases (ltb r.cursor r.end_idx)) [
  | inl more ↦ inr (rw more (take_tick-Gives r v (ground arith)))
  | inr ended ↦ elim (Bool-cases r.loops) [
    | inr once ↦ inl (rw ended (rw once refl), ground (arith, v.high), once)
    | inl again ↦ elim some_tick [
      | inl room ↦
          let is : step r ≡ take_tick (rewind r) =
            rw ended (if_true r.loops (take_tick (rewind r)) none_left again) in
          inr (subst (Gives r) (sym is) (take_tick-Gives (rewind r) (rewind-ReplayOk r v) room))
      | inr once ↦ absurd (let no : true ≡ false = sym again ∙ once in cc)
    ]
  ]
]

-- On a window without ticks, a step of a looping engine never ends: it reads beyond the view, or
-- gives a tick that is not before the end of the window.
pub step-empty_window :
    (r : ReplayEngine)
    → ReplayOk r
    → r.begin_idx ≡ r.end_idx
    → r.loops ≡ true
    → (step r ≡ out_of_range)
      ⊎ ((t : Tick) × (r' : ReplayEngine) × (step r ≡ gave t r') × (r.end_ts ≤ℤ t.recv_ts))
unfolding step at_end rewind take_tick read_tick
step-empty_window r v no_tick again =
    let ended : ltb r.cursor r.end_idx ≡ false = ground (arith, v.low, v.high) in
    elim (Option-cases (get_elem? r.view r.begin_idx)) [
      | inl beyond ↦ inl (rw ended (rw again (rw beyond refl)))
      | inr (t, at) ↦ inr (
        t,
        replay t (rewind r),
        rw ended (rw again (rw at refl)),
        v.ends.after r.begin_idx t (omega arith) at,
      )
    ]

-- `seek` to a time in the window puts the cursor at the first tick of the view that is not before
-- the time; to a time outside of the window it fails.
pub seek-ReplayOk :
    (ts : Timestamp) (r : ReplayEngine)
    → ReplayOk r
    → (((ts <ℤ r.start_ts) ⊎ (r.end_ts ≤ℤ ts)) × (seek ts r ≡ none))
      ⊎ ((r' : ReplayEngine) × (seek ts r ≡ some r')
          × ReplayOk r'
          × (r.start_ts ≤ℤ ts)
          × (ts <ℤ r.end_ts)
          × (r'.current_ts ≡ ts)
          × Splits tick_ts r.view ts r'.cursor r'.cursor)
unfolding seek
seek-ReplayOk ts r v = elim (Bool-cases (ltb_ℤ ts r.start_ts)) [
  | inl early ↦ inl (inl (ltb_ℤ→lt ts r.start_ts early), rw early refl)
  | inr started ↦ elim (Bool-cases (ltb_ℤ ts r.end_ts)) [
    | inr late ↦ inl (inr (ltb_ℤ→ge ts r.end_ts late), rw started (rw late refl))
    | inl within ↦
        let from : r.start_ts ≤ℤ ts = ltb_ℤ→ge ts r.start_ts started in
        let upto : ts <ℤ r.end_ts = ltb_ℤ→lt ts r.end_ts within in
        let (i, eq, low, high, out) =
          std_lower_bound-Splits r.view r.begin_idx r.end_idx ts v.sorted
            (omega (arith, v.low, v.high)) v.inside
            (record {
              before = λ j a h at. omega (arith, from, v.begins.before j a h at);
              after = λ j a h at. omega (arith, upto, v.ends.after j a h at);
            }) in
        inr (
          record r { cursor = i; current_ts = ts },
          rw (started) (rw within (rw eq refl)),
          record {
            sorted = v.sorted;
            begins = v.begins;
            ends = v.ends;
            inside = v.inside;
            low = low;
            high = high;
          },
          from,
          upto,
          refl,
          out,
        )
  ]
]
