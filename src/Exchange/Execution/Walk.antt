-- ===== src/Exchange/Execution/Walk.antt =====
-- The walk over the book in exchange/src/execution_sim.cpp pays no less than the worst of its levels
-- allows: the average price lies between the best and the worst price.
use velox_quant.Base.{
  subst, ◌||◌, ℕ, ◌+◌, ◌*◌, ◌-◌, ◌≤◌, ◌<◌, ◌/◌, ◌==◌, ◌≡◌, refl, min, false, true, ltb, ◌^◌,
  Bool-cases, inl, inr, List, [], ◌∷◌, All, ℤ, pos, ◌+ℤ◌, ◌-ℤ◌, ◌≤ℤ◌, eqb_ℤ, arith,
}
use native.Mathlib.Nat.{zero-div, mul-le-mul_left, le-div_iff_mul-le, div-lt_iff_lt-mul}
use velox_quant.MarketData.Types.{buy, sell}
use velox_quant.MarketData.Portal.Bars.{times_size, over_size}
use velox_quant.Exchange.Types.{PriceLevel, side_is_buy}
use velox_quant.Exchange.Execution.{
  walk_levels, last_level, walk_total, book_walk_slippage, signed_slippage,
}

-- The prices of the levels lie between two positive prices.
abbrev pub Between : ℕ → ℕ → List PriceLevel → Type 0
Between low high levels = All (λ l. (n : ℕ) × (l.price ≡ pos n) × (low ≤ n) × (n ≤ high)) levels

-- What is summed up so far lies between the bounds for the quantity filled so far.
abbrev Bounded : ℕ → ℕ → ℕ → ℤ → Type 0
Bounded low high filled pv = (v : ℕ) × (pv ≡ pos v) × (low * filled ≤ v) × (v ≤ high * filled)

grown :
    (low high filled v n taken : ℕ)
    → low ≤ n
    → n ≤ high
    → low * filled ≤ v
    → v ≤ high * filled
    → (low * (filled + taken) ≤ v + n * taken) × (v + n * taken ≤ high * (filled + taken))
grown low high filled v n taken a b c e =
    let below : low * taken ≤ n * taken = grind (arith, mul-le-mul_left taken a) in
    let above : n * taken ≤ high * taken = grind (arith, mul-le-mul_left taken b) in
    (grind arith, grind arith)

Bounded-add :
    (low high filled taken : ℕ) (price pv : ℤ)
    → taken < 2 ^ 63
    → Bounded low high filled pv
    → (n : ℕ) × (price ≡ pos n) × (low ≤ n) × (n ≤ high)
    → Bounded low high (filled + taken) (pv +ℤ times_size price taken)
unfolding ◌+ℤ◌
Bounded-add low high filled taken price pv few (v, e, a, b) (n, k, f, g) =
    let both = grown low high filled v n taken f g a b in
    let small : ltb taken (2 ^ 63) ≡ true = ground arith in
    (v + n * taken, rw (e, k) (rw small (ground arith)), both.0, both.1)

walk_levels-Bounded :
    (low high filled remaining : ℕ) (levels : List PriceLevel) (pv : ℤ)
    → remaining < 2 ^ 63
    → Between low high levels
    → Bounded low high filled pv
    → ((walk_levels levels remaining pv).0 ≤ remaining)
      × Bounded low high
          (filled + (remaining - (walk_levels levels remaining pv).0))
          (walk_levels levels remaining pv).1
unfolding walk_levels
walk_levels-Bounded low high filled remaining [] pv few ok b =
    (omega arith, subst (λ f. Bounded low high f pv) (omega arith) b)
walk_levels-Bounded low high filled remaining (lvl ∷ more) pv few ok b =
    let taken = min remaining lvl.total_qty in
    let added = Bounded-add low high filled taken lvl.price pv (omega arith) b ok.0 in
    let rest =
      walk_levels-Bounded low high (filled + taken) (remaining - taken) more
        (pv +ℤ times_size lvl.price taken) (omega arith) ok.1 added in
    elim (Bool-cases (remaining == 0)) [
      | inl done ↦ rw done (omega arith, subst (λ f. Bounded low high f pv) (omega arith) b)
      | inr going ↦ rw going (
        omega (arith, rest.0),
        subst
            (λ f.
              Bounded low high f
                (walk_levels more (remaining - taken) (pv +ℤ times_size lvl.price taken)).1)
            (omega (arith, rest.0)) rest.1,
      )
    ]

last_level-Between :
    (low high : ℕ) (lvl : PriceLevel) (more : List PriceLevel)
    → Between low high (lvl ∷ more)
    → (n : ℕ) × ((last_level lvl more).price ≡ pos n) × (low ≤ n) × (n ≤ high)
unfolding last_level
last_level-Between low high lvl [] ok = ok.0
last_level-Between low high lvl (next ∷ more) ok = last_level-Between low high next more ok.1

walk_total-Bounded :
    (low high qty : ℕ) (lvl : PriceLevel) (more : List PriceLevel)
    → qty < 2 ^ 63
    → Between low high (lvl ∷ more)
    → Bounded low high qty (walk_total lvl more qty)
unfolding walk_total
walk_total-Bounded low high qty lvl more few ok =
    let walked = walk_levels (lvl ∷ more) qty (pos 0) in
    let (left, b) =
      walk_levels-Bounded low high 0 qty (lvl ∷ more) (pos 0) few ok
        (0, refl, omega arith, omega arith) in
    elim (Bool-cases (walked.0 == 0)) [
      | inl all ↦ rw all (subst (λ f. Bounded low high f walked.1) (ground arith) b)
      | inr some_left ↦ rw some_left (
          subst
            (λ f.
              Bounded low high f (walked.1 +ℤ times_size (last_level lvl more).price (walked.0)))
            (omega (arith, left))
            (Bounded-add low high (0 + (qty - walked.0)) (walked.0) (last_level lvl more).price
              walked.1 (omega (arith, left)) b (last_level-Between low high lvl more ok)))
    ]

over_size-Bounded :
    (low high qty : ℕ) (pv : ℤ)
    → 0 < qty
    → qty < 2 ^ 63
    → Bounded low high qty pv
    → (n : ℕ) × (over_size pv qty ≡ pos n) × (low ≤ n) × (n ≤ high)
over_size-Bounded low high qty pv some_qty few (v, e, a, b) =
    let under : low ≤ v / qty = (le-div_iff_mul-le some_qty).1 a in
    let above : v / qty < high + 1 = (div-lt_iff_lt-mul some_qty).1 (grind arith) in
    let small : ltb qty (2 ^ 63) ≡ true = ground arith in
    (v / qty, rw (e, small) (ground (arith, zero-div qty)), under, omega (arith, above))

-- A walk of a quantity below 2 ^ 63, which the code casts to a signed number, over levels whose prices
-- lie between two positive prices costs a buyer at least the lower price less the arrival price and at
-- most the higher less it, and a seller the other way round: a buyer who arrives at the lowest price,
-- or a seller who arrives at the highest, never gains.
pub book_walk-Between :
    (low high qty arrival : ℕ) (lvl : PriceLevel) (more : List PriceLevel)
    → Between low high (lvl ∷ more)
    → 0 < qty
    → qty < 2 ^ 63
    → 0 < arrival
    → ((pos low -ℤ pos arrival ≤ℤ book_walk_slippage buy qty (pos arrival) (lvl ∷ more))
        × (book_walk_slippage buy qty (pos arrival) (lvl ∷ more) ≤ℤ pos high -ℤ pos arrival))
      × (pos arrival -ℤ pos high ≤ℤ book_walk_slippage sell qty (pos arrival) (lvl ∷ more))
      × (book_walk_slippage sell qty (pos arrival) (lvl ∷ more) ≤ℤ pos arrival -ℤ pos low)
unfolding book_walk_slippage signed_slippage side_is_buy ◌-ℤ◌ eqb_ℤ
book_walk-Between low high qty arrival lvl more ok some_qty few priced =
    let (n, e, under, above) =
      over_size-Bounded low high qty (walk_total lvl more qty) some_qty few
        (walk_total-Bounded low high qty lvl more few ok) in
    let traded : (eqb_ℤ (pos arrival) (pos 0) || qty == 0) ≡ false = ground arith in
    rw traded (rw e (ground arith))
