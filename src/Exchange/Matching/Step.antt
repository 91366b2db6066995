-- ===== src/Exchange/Matching/Step.antt =====
-- One round of the sweep: it ends, with nothing left to trade, or trades with the front order.
use velox_quant.Base.{
  ◌≤ℤ◌, ltb_ℤ, pos, true, ℕ, ◌+◌, ◌-◌, ◌<◌, ◌^◌, ◌≤◌, ◌≡◌, refl, ap, Bool, false, not, Option, none,
  some, List, [], ◌∷◌, lookup, arith, Bool-cases, inl, inr, ◌⊎◌, ltb, ltb→lt, min, All, eqb_ℤ_refl,
}
use velox_quant.MarketData.Types.{Price, Quantity, Timestamp, Side}
use velox_quant.Exchange.Types.{Order, OrderId, is_buy, leaves_qty}
use velox_quant.Exchange.Book
use velox_quant.Exchange.Book.{OrderBook}
use velox_quant.Exchange.Book.Levels.{BookSide, best_price, orders_at}
use velox_quant.Exchange.Book.Invariant.{BookOk, SideOk}
use velox_quant.Exchange.Matching.Sweep.{
  Event, filled, reported, SweepState, beyond, contra_side, count_ids, hit, fill_status, emit_fill,
  take_order, take_queue, take_level, sweep_step,
}
use velox_quant.Exchange.Matching.Available.{available, Front, front, contra_SideOk}
use velox_quant.Exchange.Matching.Hit.{hit_book, IsHit, take_order-IsHit}

-- What a sweep needs of its state.
pub record SweepOk (s : SweepState) : Type 0 where
  pub book : BookOk s.engine.book
  pub within : s.order.filled_qty ≤ s.order.qty
  pub small : s.order.qty < 2 ^ 64
  pub total : s.filled_total ≤ s.order.filled_qty

abbrev pub contra : SweepState → BookSide
contra s = contra_side (is_buy s.order) s.engine.book

-- The shares that the order still wants, and those that it will get.
abbrev pub wanted : SweepState → ℕ
wanted s = s.order.qty - s.order.filled_qty

abbrev pub due : Price → SweepState → ℕ
due limit s = min (wanted s) (available (is_buy s.order) limit s.engine.book.orders (contra s))

-- A price no worse than the limit; a limit of 0 or less is none.
abbrev pub NoWorse : Bool → Price → Price → Type 0
NoWorse true limit p = (limit ≤ℤ pos 0) ⊎ (p ≤ℤ limit)
NoWorse false limit p = (limit ≤ℤ pos 0) ⊎ (limit ≤ℤ p)

beyond-NoWorse :
    (buying : Bool) (limit p : Price) → beyond buying limit p ≡ false → NoWorse buying limit p
unfolding beyond ltb_ℤ
beyond-NoWorse true limit p h = elim (Bool-cases (ltb_ℤ (pos 0) limit)) [
  | inl some_limit ↦ inr (ground arith)
  | inr no_limit ↦ inl (ground arith)
]
beyond-NoWorse false limit p h = elim (Bool-cases (ltb_ℤ (pos 0) limit)) [
  | inl some_limit ↦ inr (ground arith)
  | inr no_limit ↦ inl (ground arith)
]

-- A fill is not at a price worse than the limit.
abbrev pub EventOk : Bool → Price → Event → Type 0
EventOk buying limit (filled f) = NoWorse buying limit f.fill_price
EventOk buying limit (reported r) = Unit {0}

-- What any number of rounds keeps, and how far they got.
pub record Progress (limit : Price) (s s' : SweepState) : Type 0 where
  pub ok : SweepOk s'
  pub side : s'.order.side ≡ s.order.side
  pub id : s'.order.id ≡ s.order.id
  pub qty : s'.order.qty ≡ s.order.qty
  pub price : s'.order.limit_price ≡ s.order.limit_price
  pub total : s'.filled_total + due limit s' ≡ s.filled_total + due limit s
  pub done : s'.order.filled_qty + due limit s' ≡ s.order.filled_qty + due limit s
  pub status :
      ((s'.order.filled_qty ≡ s.order.filled_qty) × (s'.order.status ≡ s.order.status))
      ⊎ (s'.order.status ≡ fill_status s'.order.filled_qty s'.order.qty)
  pub unknown :
      (k : OrderId) → lookup k s.engine.book.orders ≡ none → lookup k s'.engine.book.orders ≡ none
  pub fills :
      All (EventOk (is_buy s.order) limit) s.engine.log
      → All (EventOk (is_buy s.order) limit) s'.engine.log

-- The order was not done and met an id; now it is done, or the contra side has an id less.
abbrev pub Shorter : SweepState → SweepState → Type 0
Shorter s s' =
    (0 < wanted s)
    × (0 < count_ids (contra s))
    × ((wanted s' ≡ 0) ⊎ (count_ids (contra s') + 1 ≡ count_ids (contra s)))

-- A round ends the sweep with nothing left to get, or makes progress.
pub data Round (limit : Price) (s : SweepState) : Option SweepState → Type 0 where
  stops : due limit s ≡ 0 → Round limit s none
  goes : {s' : SweepState} → Progress limit s s' → Shorter s s' → Round limit s (some s')

pub is_buy_side : (o u : Order) → o.side ≡ u.side → is_buy o ≡ is_buy u
unfolding is_buy
is_buy_side o u e = ap (λ (k : Side). is_buy (record o { side = k })) e

leaves-exact : (s : SweepState) → SweepOk s → leaves_qty s.order ≡ wanted s
leaves-exact s v = omega (arith, v.within, v.small)

module _ (commission : Quantity → Price → Price) (now : Timestamp) (limit : Price) where
  -- The match with the front order.
  matched :
      (s : SweepState) (p : Price) (id : OrderId) (q : List OrderId) (rest : BookSide) (o : Order)
      → SweepOk s
      → contra s ≡ (p, id ∷ q) ∷ rest
      → Front s.engine.book.orders (not (is_buy s.order)) p id q rest o
      → beyond (is_buy s.order) limit p ≡ false
      → 0 < wanted s
      → Round limit s (some (take_order commission now p id q s (some o)))
  unfolding take_order emit_fill hit is_buy count_ids
  matched s p id q rest o v shape f near more =
      let n = min (leaves_qty s.order) (leaves_qty o) in
      let size : n ≡ min (wanted s) (o.qty - o.filled_qty) =
        omega (arith, leaves-exact s v, f.left, f.small) in
      let h : IsHit (is_buy s.order) limit s.engine.book (hit_book id o n now s.engine.book) n
          (o.qty - o.filled_qty) =
        take_order-IsHit (is_buy s.order) limit s.engine.book p id q rest o shape f near v.book n
          now (omega (arith, size, f.left)) in
      goes
        (record {
          ok = record {
            book = h.ok;
            within = omega (arith, size, v.within, v.small);
            small = v.small;
            total = omega (arith, size, v.within, v.small, v.total);
          };
          side = refl;
          id = refl;
          qty = refl;
          price = refl;
          total = omega (arith, size, v.within, v.small, v.total, h.sum);
          done = omega (arith, size, v.within, v.small, v.total, h.sum);
          status = inr refl;
          unknown = h.unknown;
          fills = λ old.
              let fair = beyond-NoWorse (is_buy s.order) limit _ near in
              (tt, (fair, (tt, (fair, old))));
        })
        (
          more,
          rw shape (omega arith),
          elim h.count [
            | inl less ↦ inl (omega (arith, less, size, v.within, v.small))
            | inr fewer ↦ inr fewer
          ],
        )

  trade_queue :
      (s : SweepState) (p : Price) (id : OrderId) (q : List OrderId) (rest : BookSide)
      → contra s ≡ (p, id ∷ q) ∷ rest
      → take_queue commission now p s (orders_at p (contra s))
        ≡ some (take_order commission now p id q s (lookup id s.engine.book.orders))
  unfolding take_queue orders_at Book.find
  trade_queue s p id q rest e = rw (e, eqb_ℤ_refl p)

  -- The contra side decides what a round does.
  Round-at :
      (s : SweepState) (l : BookSide)
      → SweepOk s
      → contra s ≡ l
      → SideOk s.engine.book.orders (not (is_buy s.order)) l
      → 0 < wanted s
      → Round limit s (take_level commission now limit s (best_price l))
  unfolding best_price take_level available
  Round-at s [] v e h more = stops (rw e (omega arith))
  Round-at s ((p, []) ∷ rest) v e h more = absurd (h.0 refl)
  Round-at s ((p, id ∷ q) ∷ rest) v e h more = elim (Bool-cases (beyond (is_buy s.order) limit p)) [
    | inl far ↦ rw (far, take_level) (stops (rw (e, far) (omega arith)))
    | inr near ↦
        let (o, f) = front s.engine.book.orders (not (is_buy s.order)) p id q rest h in
        rw (near, take_level)
          (rw (trade_queue s p id q rest e) (rw f.found (matched s p id q rest o v e f near more)))
  ]

  pub sweep_step-Round :
      (s : SweepState) → SweepOk s → Round limit s (sweep_step commission now limit s)
  unfolding sweep_step
  sweep_step-Round s v = elim (Bool-cases (ltb 0 (leaves_qty s.order))) [
    | inl more ↦
        rw (more, sweep_step)
          (Round-at s (contra s) v refl (contra_SideOk (is_buy s.order) s.engine.book v.book)
            (omega (arith, leaves-exact s v, ltb→lt 0 (leaves_qty s.order) more)))
    | inr none_left ↦ rw (none_left, sweep_step) (stops (ground (arith, leaves-exact s v)))
  ]
