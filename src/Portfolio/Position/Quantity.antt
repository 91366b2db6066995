-- ===== src/Portfolio/Position/Quantity.antt =====
-- The quantity that Position::on_fill of portfolio/src/position.cpp ends with.
use velox_quant.Base.{
  ℕ, zero, suc, negsuc, ◌+◌, ◌*◌, leb, min, ◌≡◌, ◌↔◌, inl, inr, true, false, Bool-cases, ℤ, pos,
  ◌+ℤ◌, ◌-ℤ◌, sub_ℕ, ltb_ℤ, eqb_ℤ, if◌then◌else◌, arith,
}
use velox_quant.Exchange.Types.{Fill}
use velox_quant.Portfolio.Double.{Double}
use velox_quant.Portfolio.Position.{
  Position, abs_ℤ, signed_qty, is_opening, is_closing, open_or_add, open_remainder, reduce,
  reduced_qty, apply_fill, on_fill,
}

opening_not_closing : (q e : ℤ) → is_closing q e ≡ true → is_opening q e ≡ false
unfolding is_opening is_closing ltb_ℤ eqb_ℤ
opening_not_closing q e h = ground arith

-- The quantity after a closing fill, as it is computed.
abbrev pub closed_qty : ℤ → ℤ → ℤ
closed_qty q e =
    let left = reduced_qty q (min (abs_ℤ e) (abs_ℤ q)) in
    if eqb_ℤ (e +ℤ left) (pos 0)
    then left
    else if eqb_ℤ left (pos 0)
    then e +ℤ left
    else left +ℤ (e +ℤ left)

-- A sale from `suc p` shares of `suc f`, and a purchase that covers as many.
closed_long :
    (p f : ℕ)
    → closed_qty (pos (suc p)) (negsuc f)
      ≡ (if leb p f then negsuc f else sub_ℕ (2 * suc p) (3 * suc f))
unfolding reduced_qty ltb_ℤ eqb_ℤ ◌+ℤ◌ ◌-ℤ◌
closed_long p f = elim (Bool-cases (leb p f)) [ inl all ↦ ground arith | inr part ↦ ground arith ]

closed_short :
    (p f : ℕ)
    → closed_qty (negsuc p) (pos (suc f))
      ≡ (if leb p f then pos (suc f) else sub_ℕ (3 * suc f) (2 * suc p))
unfolding reduced_qty ltb_ℤ eqb_ℤ ◌+ℤ◌ ◌-ℤ◌
closed_short p f = elim (Bool-cases (leb p f)) [ inl all ↦ ground arith | inr part ↦ ground arith ]

closed_iff : (q e : ℤ) → is_closing q e ≡ true → (closed_qty q e ≡ q +ℤ e) ↔ (abs_ℤ q ≡ 2 * abs_ℤ e)
unfolding is_closing ltb_ℤ ◌+ℤ◌
closed_iff (pos zero) e h = ground arith
closed_iff (negsuc p) (negsuc f) h = ground arith
closed_iff (negsuc p) (pos zero) h = ground arith
closed_iff (pos (suc p)) (pos f) h = ground arith
closed_iff (pos (suc p)) (negsuc f) h = rw (closed_long p f) (ground arith)
closed_iff (negsuc p) (pos (suc f)) h = rw (closed_short p f) (ground arith)

module _ {ℓ} {W : Type ℓ} ⦃d : Double W⦄ where
  qty-open_or_add :
      (price : W) (e : ℤ) (p : Position W)
      → (open_or_add price e p).qty ≡ (if eqb_ℤ p.qty (pos 0) then e else p.qty +ℤ e)
  unfolding open_or_add
  qty-open_or_add price e p = ground arith

  qty-apply_fill_closing :
      (price : W) (e : ℤ) (p : Position W)
      → is_closing p.qty e ≡ true
      → (apply_fill price e p).qty ≡ closed_qty p.qty e
  unfolding apply_fill open_remainder reduce open_or_add
  qty-apply_fill_closing price e p h = rw (h, opening_not_closing p.qty e h) (ground arith)

  -- A fill in the direction of the position, or from a flat one, changes the quantity by what it
  -- is filled for.
  pub on_fill-qty_opening :
      (f : Fill) (p : Position W)
      → is_opening p.qty (signed_qty f) ≡ true
      → (on_fill f p).qty ≡ p.qty +ℤ signed_qty f
  unfolding on_fill apply_fill open_or_add eqb_ℤ ◌+ℤ◌
  on_fill-qty_opening f p h = rw h (ground arith)

  -- A fill against the position leaves the quantity that the two add up to exactly when the
  -- position is twice the fill: a partial close of another size and a full close do not.
  pub on_fill-qty_closing :
      (f : Fill) (p : Position W)
      → is_closing p.qty (signed_qty f) ≡ true
      → ((on_fill f p).qty ≡ p.qty +ℤ signed_qty f) ↔ (abs_ℤ p.qty ≡ 2 * abs_ℤ (signed_qty f))
  unfolding on_fill
  on_fill-qty_closing f p h =
      rw (qty-apply_fill_closing _ (signed_qty f) (record p { fill_count = p.fill_count + 1 }) h)
        (closed_iff p.qty (signed_qty f) h)
