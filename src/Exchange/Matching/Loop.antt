-- ===== src/Exchange/Matching/Loop.antt =====
-- The sweep as a whole: it ends, and trades exactly what the limit lets it reach.
use velox_quant.Base.{
  ℕ, zero, suc, ◌+◌, ◌-◌, ◌<◌, ◌^◌, ◌≤◌, ◌≡◌, refl, ◌∙◌, Option, none, some, lookup, arith, inl,
  inr, ◌⊎◌, min, All,
}
use velox_quant.MarketData.Types.{Price, Quantity, Timestamp}
use velox_quant.Exchange.Types.{Order, OrderId, is_buy}
use velox_quant.Exchange.Book.Invariant.{BookOk}
use velox_quant.Exchange.Matching.Sweep.{
  Engine, SweepState, Result, ok, contra_side, count_ids, sweep_step, sweep_loop, sweep_contra,
  fill_status,
}
use velox_quant.Exchange.Matching.Available.{available}
use velox_quant.Exchange.Matching.Step.{
  SweepOk, Progress, Round, stops, goes, Shorter, contra, wanted, due, EventOk, is_buy_side,
  sweep_step-Round,
}

Progress-refl : (limit : Price) (s : SweepState) → SweepOk s → Progress limit s s
Progress-refl limit s v = record {
  ok = v;
  side = refl;
  id = refl;
  qty = refl;
  price = refl;
  total = refl;
  done = refl;
  status = inl (refl, refl);
  unknown = λ k h. h;
  fills = λ h. h;
}

Progress-trans :
    (limit : Price) (s t u : SweepState)
    → Progress limit s t
    → Progress limit t u
    → Progress limit s u
Progress-trans limit s t u a b = record {
  ok = b.ok;
  side = b.side ∙ a.side;
  id = b.id ∙ a.id;
  qty = b.qty ∙ a.qty;
  price = b.price ∙ a.price;
  total = b.total ∙ a.total;
  done = b.done ∙ a.done;
  status = elim b.status [
    | inr hit ↦ inr hit
    | inl (f, st) ↦ elim a.status [
      | inl (g, su) ↦ inl (f ∙ g, st ∙ su)
      | inr hit ↦ inr (rw (f, b.qty) (st ∙ hit))
    ]
  ];
  unknown = λ k h. b.unknown k (a.unknown k h);
  fills = λ h.
      rw (is_buy_side t.order s.order a.side) at
        (b.fills (rw (is_buy_side t.order s.order a.side) (a.fills h)));
}

-- The fuel is enough for a state: one round per id of the contra side, and one to stop.
abbrev Enough : ℕ → SweepState → Type 0
Enough fuel s = (count_ids (contra s) < fuel) ⊎ ((wanted s ≡ 0) × (0 < fuel))

still-Enough : (fuel : ℕ) (s t : SweepState) → Enough (suc fuel) s → Shorter s t → Enough fuel t
still-Enough fuel s t m (more, met, inl full) = inr (full, omega arith)
still-Enough fuel s t m (more, met, inr fewer) = inl (omega arith)

abbrev Ends : Price → SweepState → Result SweepState → Type 0
Ends limit s r = (s' : SweepState) × (r ≡ ok s') × Progress limit s s' × (due limit s' ≡ 0)

module _ (commission : Quantity → Price → Price) (now : Timestamp) (limit : Price) where
  Round-Ends :
      (fuel : ℕ) (s : SweepState) (r : Option SweepState)
      → SweepOk s
      → Enough (suc fuel) s
      → ((s' : SweepState)
          → SweepOk s'
          → Enough fuel s'
          → Ends limit s' (sweep_loop commission fuel now limit s'))
      → sweep_step commission now limit s ≡ r
      → Round limit s r
      → Ends limit s (sweep_loop commission (suc fuel) now limit s)
  unfolding sweep_loop
  Round-Ends fuel s none v m ih e (stops d) = (s, rw (e, sweep_loop), Progress-refl limit s v, d)
  Round-Ends fuel s (some t) v m ih e (goes g short) =
      let (u, eu, gu, du) = ih t g.ok (still-Enough fuel s t m short) in
      (u, rw (e, sweep_loop) eu, Progress-trans limit s t u g gu, du)

  sweep_loop-Ends :
      (fuel : ℕ) (s : SweepState)
      → SweepOk s
      → Enough fuel s
      → Ends limit s (sweep_loop commission fuel now limit s)
  sweep_loop-Ends zero s v m = absurd (omega arith)
  sweep_loop-Ends (suc fuel) s v m =
      Round-Ends fuel s _ v m (sweep_loop-Ends fuel) refl
        (sweep_step-Round commission now limit s v)

min-zero : (a b : ℕ) → min a b ≡ 0 → (a ≡ 0) ⊎ (b ≡ 0)
min-zero a b h = ground arith

spent :
    (limit : Price) (s : SweepState)
    → SweepOk s
    → due limit s ≡ 0
    → (s.order.filled_qty ≡ s.order.qty)
      ⊎ (available (is_buy s.order) limit s.engine.book.orders (contra s) ≡ 0)
spent limit s v d =
    elim (min-zero (wanted s) (available (is_buy s.order) limit s.engine.book.orders (contra s))
      d) [ inl full ↦ inl (omega (arith, v.within)) | inr dry ↦ inr dry ]

-- What a sweep of `order` over the book of `e` has done.
pub record Swept (limit : Price) (order : Order) (e : Engine) (s : SweepState) : Type 0 where
  pub ok : SweepOk s
  pub side : s.order.side ≡ order.side
  pub id : s.order.id ≡ order.id
  pub qty : s.order.qty ≡ order.qty
  pub price : s.order.limit_price ≡ order.limit_price
  pub total :
      s.filled_total
      ≡ min
          (order.qty - order.filled_qty)
          (available (is_buy order) limit e.book.orders (contra_side (is_buy order) e.book))
  pub done : s.order.filled_qty ≡ order.filled_qty + s.filled_total
  pub exhausted :
      (s.order.filled_qty ≡ s.order.qty)
      ⊎ (available
            (is_buy order)
            limit
            s.engine.book.orders
            (contra_side (is_buy order) s.engine.book)
          ≡ 0)
  pub status :
      ((s.order.filled_qty ≡ order.filled_qty) × (s.order.status ≡ order.status))
      ⊎ (s.order.status ≡ fill_status s.order.filled_qty s.order.qty)
  pub unknown : (k : OrderId) → lookup k e.book.orders ≡ none → lookup k s.engine.book.orders ≡ none
  pub fills :
      All (EventOk (is_buy order) limit) e.log → All (EventOk (is_buy order) limit) s.engine.log

-- A sweep over a well-formed book ends. It fills the order by the smaller of what it wants and
-- what rests within the limit, keeps the book well formed, leaves the order filled or nothing
-- within the limit, gives the order's id to no one, and makes no fill at a worse price.
pub sweep_contra-Swept :
    (commission : Quantity → Price → Price) (order : Order) (now : Timestamp) (limit : Price)
    (e : Engine)
    → BookOk e.book
    → order.filled_qty ≤ order.qty
    → order.qty < 2 ^ 64
    → (s : SweepState) × (sweep_contra commission order now limit e ≡ ok s) × Swept limit order e s
unfolding sweep_contra
sweep_contra-Swept commission order now limit e v within small =
    let start : SweepState = record { order = order; engine = e; filled_total = 0 } in
    let begin : SweepOk start = record {
      book = v;
      within = within;
      small = small;
      total = omega arith;
    } in
    let (s, es, g, d) =
      sweep_loop-Ends commission now limit (count_ids (contra start) + 2) start begin
        (inl (omega arith)) in
    (
      s,
      es,
      record {
        ok = g.ok;
        side = g.side;
        id = g.id;
        qty = g.qty;
        price = g.price;
        total = omega (arith, g.total, d);
        done = omega (arith, g.total, g.done, d);
        exhausted = rw (is_buy_side s.order order g.side) at (spent limit s g.ok d);
        status = g.status;
        unknown = g.unknown;
        fills = g.fills;
      },
    )
