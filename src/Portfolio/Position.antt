-- ===== src/Portfolio/Position.antt =====
-- portfolio/include/portfolio/position.hpp and portfolio/src/position.cpp: the position of one
-- symbol. Quantities are signed 64-bit in the source; here the results are the exact integers.
pub mod Quantity
use velox_quant.Base.{
  ℕ, ◌+◌, ◌==◌, min, Bool, true, false, if◌then◌else◌, not, ◌&&◌, ◌||◌, ℤ, pos, ◌+ℤ◌, ◌-ℤ◌, ltb_ℤ,
  eqb_ℤ, pos_part, neg_part,
}
use velox_quant.MarketData.Types.{SymbolId, Price}
use velox_quant.Exchange.Types.{Fill, side_is_buy}
use velox_quant.Portfolio.Double.{Double, from_price}

pub record Position {ℓ} (W : Type ℓ) : Type ℓ where
  pub symbol_id : SymbolId
  pub qty : ℤ
  pub avg_cost : W
  pub realized_pnl : W
  pub fill_count : ℕ

-- `std::abs` of an integer
abbrev pub abs_ℤ : ℤ → ℕ
abs_ℤ a = pos_part a + neg_part a

-- `(side == Buy) ? qty : -qty`
unfoldable pub signed_qty : Fill → ℤ
signed_qty f = if side_is_buy f.side then pos f.fill_qty else pos 0 -ℤ pos f.fill_qty

-- A step from a position in the same direction, or from none.
unfoldable pub is_opening : ℤ → ℤ → Bool
is_opening qty delta =
    eqb_ℤ qty (pos 0)
    || (ltb_ℤ (pos 0) qty && ltb_ℤ (pos 0) delta)
    || (ltb_ℤ qty (pos 0) && ltb_ℤ delta (pos 0))

unfoldable pub is_closing : ℤ → ℤ → Bool
is_closing qty delta =
    (ltb_ℤ (pos 0) qty && ltb_ℤ delta (pos 0)) || (ltb_ℤ qty (pos 0) && ltb_ℤ (pos 0) delta)

-- A position after `close` shares of it are gone.
unfoldable pub reduced_qty : ℤ → ℕ → ℤ
reduced_qty qty close = if ltb_ℤ (pos 0) qty then qty -ℤ pos close else qty +ℤ pos close

module _ {ℓ} {W : Type ℓ} ⦃d : Double W⦄ where
  abbrev pub new_position : SymbolId → Position W
  new_position sym = record {
    symbol_id = sym;
    qty = pos 0;
    avg_cost = d.nought;
    realized_pnl = d.nought;
    fill_count = 0;
  }

  -- The weighted average of the old cost and the price of the fill.
  unfoldable pub average_cost : W → ℤ → W → ℤ → W
  average_cost cost qty price delta =
      d.over
        (d.plus (d.times cost (d.of_integer (pos (abs_ℤ qty))))
          (d.times price (d.of_integer (pos (abs_ℤ delta)))))
        (d.of_integer (pos (abs_ℤ (qty +ℤ delta))))

  unfoldable pub open_or_add : W → ℤ → Position W → Position W
  open_or_add price delta p =
      if eqb_ℤ p.qty (pos 0)
      then record p { avg_cost = price; qty = delta }
      else record p { avg_cost = average_cost p.avg_cost p.qty price delta; qty = p.qty +ℤ delta }

  -- The gain of a share that leaves the position at a price.
  unfoldable pub pnl_per_share : W → Position W → W
  pnl_per_share price p =
      if ltb_ℤ (pos 0) p.qty then d.minus price p.avg_cost else d.minus p.avg_cost price

  unfoldable pub reduce : W → ℕ → Position W → Position W
  reduce price close p = record p {
    realized_pnl =
        d.plus p.realized_pnl (d.times (pnl_per_share price p) (d.of_integer (pos close)));
    qty = reduced_qty p.qty close;
    avg_cost = if eqb_ℤ (reduced_qty p.qty close) (pos 0) then d.nought else p.avg_cost;
  }

  -- What follows `reduce`: the remainder is taken from the quantity that is reduced already.
  unfoldable pub open_remainder : W → ℤ → Position W → Position W
  open_remainder price delta p =
      if eqb_ℤ (delta +ℤ p.qty) (pos 0) then p else open_or_add price (delta +ℤ p.qty) p

  unfoldable pub apply_fill : W → ℤ → Position W → Position W
  apply_fill price delta p =
      if is_opening p.qty delta
      then open_or_add price delta p
      else if is_closing p.qty delta
      then open_remainder price delta (reduce price (min (abs_ℤ delta) (abs_ℤ p.qty)) p)
      else p

  -- `Position::on_fill`
  unfoldable pub on_fill : Fill → Position W → Position W
  on_fill f p =
      apply_fill (from_price f.fill_price) (signed_qty f)
        (record p { fill_count = p.fill_count + 1 })

  -- `Position::unrealized_pnl`
  unfoldable pub unrealized_pnl : W → Position W → W
  unrealized_pnl price p =
      if eqb_ℤ p.qty (pos 0)
      then d.nought
      else d.times (pnl_per_share price p) (d.of_integer (pos (abs_ℤ p.qty)))

  -- `Position::gross_exposure`
  unfoldable pub gross_exposure : W → Position W → W
  gross_exposure price p = d.times (d.abs (d.of_integer p.qty)) price
