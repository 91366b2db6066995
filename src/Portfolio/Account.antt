-- ===== src/Portfolio/Account.antt =====
-- portfolio/include/portfolio/portfolio.hpp and portfolio/src/portfolio.cpp: the positions by
-- symbol, the cash and the equity curve. A map's walk is in the order of its entries.
pub mod Ledger
use velox_quant.Base.{
  ℕ, ◌+◌, true, false, List, [], ◌∷◌, ◌++◌, Option, none, some, Assoc, lookup, insert,
  if◌then◌else◌, eqb_ℤ, pos,
}
use velox_quant.MarketData.Types.{SymbolId, Timestamp}
use velox_quant.Exchange.Types.{Fill, side_is_buy}
use velox_quant.Portfolio.Double.{Double, from_price}
use velox_quant.Portfolio.Position.{Position, new_position}
use velox_quant.Portfolio.Position

pub record EquityPoint {ℓ} (W : Type ℓ) : Type ℓ where
  pub timestamp : Timestamp
  pub nav : W

abbrev pub PriceMap {ℓ} : Type ℓ → Type ℓ
PriceMap W = Assoc W

pub record Portfolio {ℓ} (W : Type ℓ) : Type ℓ where
  pub initial_cash : W
  pub cash : W
  pub positions : Assoc (Position W)
  pub equity_curve : List (EquityPoint W)
  pub fill_count : ℕ

module _ {ℓ} {W : Type ℓ} ⦃d : Double W⦄ where
  abbrev pub new_portfolio : W → Portfolio W
  new_portfolio cash = record {
    initial_cash = cash;
    cash = cash;
    positions = [];
    equity_curve = [];
    fill_count = 0;
  }

  -- `try_emplace`: the position that is held, or a new one.
  unfoldable pub held_or_new : SymbolId → Option (Position W) → Position W
  held_or_new sym none = new_position sym
  held_or_new sym (some p) = p

  unfoldable pub cash_after : Fill → W → W
  cash_after f cash =
      let notional = d.times (from_price f.fill_price) (d.of_integer (pos f.fill_qty)) in
      let commission = from_price f.commission in
      if side_is_buy f.side
      then d.minus cash (d.plus notional commission)
      else d.plus cash (d.minus notional commission)

  -- `Portfolio::on_fill`
  unfoldable pub on_fill : Fill → Portfolio W → Portfolio W
  on_fill f p = record p {
    fill_count = p.fill_count + 1;
    positions =
        insert f.symbol_id
          (Position.on_fill f (held_or_new f.symbol_id (lookup f.symbol_id p.positions)))
          p.positions;
    cash = cash_after f p.cash;
  }

  -- A sum over the positions that have a price; `skip_flat` leaves out those without shares.
  unfoldable pub sum_priced : (W → Position W → W) → PriceMap W → W → Assoc (Position W) → W
  sum_priced worth prices total [] = total
  sum_priced worth prices total ((sym, p) ∷ more) = elim (lookup sym prices) [
    | none ↦ sum_priced worth prices total more
    | some price ↦ sum_priced worth prices (d.plus total (worth price p)) more
  ]

  unfoldable pub sum_open : (W → Position W → W) → PriceMap W → W → Assoc (Position W) → W
  sum_open worth prices total [] = total
  sum_open worth prices total ((sym, p) ∷ more) = elim (eqb_ℤ p.qty (pos 0)) [
    | true ↦ sum_open worth prices total more
    | false ↦ elim (lookup sym prices) [
      | none ↦ sum_open worth prices total more
      | some price ↦ sum_open worth prices (d.plus total (worth price p)) more
    ]
  ]

  -- `static_cast<double>(pos.qty()) * price`
  abbrev pub signed_worth : W → Position W → W
  signed_worth price p = d.times (d.of_integer p.qty) price

  -- `Portfolio::nav`
  unfoldable pub nav : PriceMap W → Portfolio W → W
  nav prices p = sum_open signed_worth prices p.cash p.positions

  unfoldable pub sum_realized : Assoc (Position W) → W → W
  sum_realized [] total = total
  sum_realized ((sym, p) ∷ more) total = sum_realized more (d.plus total p.realized_pnl)

  unfoldable pub realized_pnl : Portfolio W → W
  realized_pnl p = sum_realized p.positions d.nought

  unfoldable pub unrealized_pnl : PriceMap W → Portfolio W → W
  unrealized_pnl prices p = sum_priced Position.unrealized_pnl prices d.nought p.positions

  unfoldable pub total_pnl : PriceMap W → Portfolio W → W
  total_pnl prices p = d.plus (realized_pnl p) (unrealized_pnl prices p)

  unfoldable pub gross_exposure : PriceMap W → Portfolio W → W
  gross_exposure prices p = sum_open Position.gross_exposure prices d.nought p.positions

  unfoldable pub net_exposure : PriceMap W → Portfolio W → W
  net_exposure prices p = sum_open signed_worth prices d.nought p.positions

  unfoldable pub position : SymbolId → Portfolio W → Option (Position W)
  position sym p = lookup sym p.positions

  unfoldable pub snapshot_equity : Timestamp → PriceMap W → Portfolio W → Portfolio W
  snapshot_equity ts prices p = record p {
    equity_curve = p.equity_curve ++ record { timestamp = ts; nav = nav prices p } ∷ [];
  }

  unfoldable pub total_return : PriceMap W → Portfolio W → W
  total_return prices p = d.over (d.minus (nav prices p) p.initial_cash) p.initial_cash
