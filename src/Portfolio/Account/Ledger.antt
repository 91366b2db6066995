-- ===== src/Portfolio/Account/Ledger.antt =====
-- The ledger of Portfolio::on_fill in portfolio/src/portfolio.cpp: every entry of the map is the
-- position of its key, and the positions count the fills that the portfolio counts.
use velox_quant.Base.{
  ℕ, ◌+◌, ◌==◌, ◌≡◌, [], ◌∷◌, Option, none, some, Option-cases, Assoc, lookup, insert, All,
  if◌then◌else◌, arith, refl, lookup-insert, Bool-cases, inl, inr, ==_iff, ◌∙◌,
}
use velox_quant.MarketData.Types.{SymbolId}
use velox_quant.Exchange.Types.{Fill}
use velox_quant.Portfolio.Double.{Double}
use velox_quant.Portfolio.Position.{Position, new_position}
use velox_quant.Portfolio.Position
use velox_quant.Portfolio.Account.{Portfolio, held_or_new, on_fill, position}

module _ {ℓ} {W : Type ℓ} where
  unfoldable pub sum_fills : Assoc (Position W) → ℕ
  sum_fills [] = 0
  sum_fills ((sym, p) ∷ more) = p.fill_count + sum_fills more

  unfoldable pub IsKeyed : Assoc (Position W) → Type 0
  IsKeyed positions = All (λ e. e.1.symbol_id ≡ e.0) positions

  fills_of : Option (Position W) → ℕ
  fills_of none = 0
  fills_of (some p) = p.fill_count

  sum_fills-insert :
      (key : ℕ) (v : Position W) (m : Assoc (Position W))
      → sum_fills (insert key v m) + fills_of (lookup key m) ≡ sum_fills m + v.fill_count
  unfolding insert lookup sum_fills fills_of
  sum_fills-insert key v [] = omega arith
  sum_fills-insert key v ((s, p) ∷ m) = ground (arith, sum_fills-insert key v m)

  IsKeyed-insert :
      (key : ℕ) (v : Position W) (m : Assoc (Position W))
      → v.symbol_id ≡ key
      → IsKeyed m
      → IsKeyed (insert key v m)
  unfolding insert IsKeyed
  IsKeyed-insert key v [] e h = (e, tt)
  IsKeyed-insert key v ((s, p) ∷ m) e h = elim (Bool-cases (s == key)) [
    | inl same ↦ rw same (e, h.1)
    | inr other ↦ rw other (h.0, IsKeyed-insert key v m e h.1)
  ]

  pub record LedgerOk (p : Portfolio W) : Type ℓ where
    pub keyed : IsKeyed p.positions
    pub counted : sum_fills p.positions ≡ p.fill_count

module _ {ℓ} {W : Type ℓ} ⦃d : Double W⦄ where
  fill_count-on_fill :
      (f : Fill) (p : Position W) → (Position.on_fill f p).fill_count ≡ p.fill_count + 1
  unfolding Position.on_fill Position.apply_fill Position.open_or_add Position.open_remainder
      Position.reduce
  fill_count-on_fill f p = ground arith

  symbol_id-on_fill : (f : Fill) (p : Position W) → (Position.on_fill f p).symbol_id ≡ p.symbol_id
  unfolding Position.on_fill Position.apply_fill Position.open_or_add Position.open_remainder
      Position.reduce
  symbol_id-on_fill f p = ground arith

  fill_count-held :
      (f : Fill) (m : Assoc (Position W))
      → (held_or_new f.symbol_id (lookup f.symbol_id m)).fill_count
        ≡ fills_of (lookup f.symbol_id m)
  unfolding held_or_new fills_of
  fill_count-held f m = elim (Option-cases (lookup f.symbol_id m)) [
    | inl e ↦ rw e refl
    | inr (p, e) ↦ rw e refl
  ]

  symbol_id-held :
      (f : Fill) (m : Assoc (Position W))
      → IsKeyed m
      → (held_or_new f.symbol_id (lookup f.symbol_id m)).symbol_id ≡ f.symbol_id
  unfolding lookup held_or_new IsKeyed
  symbol_id-held f [] h = refl
  symbol_id-held f ((s, p) ∷ m) h = elim (Bool-cases (s == f.symbol_id)) [
    | inl e ↦ rw e (h.0 ∙ (==_iff s f.symbol_id).0 e)
    | inr e ↦ rw e (symbol_id-held f m h.1)
  ]

  -- A fill keeps every entry under the symbol of its position, and the fills of the positions add
  -- up to the fills of the portfolio.
  pub on_fill-LedgerOk : (f : Fill) (p : Portfolio W) → LedgerOk p → LedgerOk (on_fill f p)
  unfolding on_fill
  on_fill-LedgerOk f p ok =
      let held = held_or_new f.symbol_id (lookup f.symbol_id p.positions) in
      record {
        keyed =
            IsKeyed-insert f.symbol_id (Position.on_fill f held) p.positions
              (symbol_id-on_fill f held ∙ symbol_id-held f p.positions ok.keyed) ok.keyed;
        counted = omega (
          arith,
          sum_fills-insert f.symbol_id (Position.on_fill f held) p.positions,
          fill_count-on_fill f held,
          fill_count-held f p.positions,
          ok.counted,
        );
      }

  -- A fill changes the position of its own symbol by `Position::on_fill`, from a new position if
  -- none is held, and no other.
  pub position-on_fill :
      (f : Fill) (p : Portfolio W) (sym : SymbolId)
      → position sym (on_fill f p) ≡ (
          if f.symbol_id == sym
          then some (Position.on_fill f (held_or_new f.symbol_id (position f.symbol_id p)))
          else position sym p)
  unfolding position on_fill
  position-on_fill f p sym = lookup-insert f.symbol_id sym _ p.positions
