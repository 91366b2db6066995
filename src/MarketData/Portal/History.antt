-- ===== src/MarketData/Portal/History.antt =====
-- Portal
-- What DataPortal::history gives: the ticks of the window, none of them after the clock.
use velox_quant.Base.{
  ℕ, zero, suc, ◌+◌, ◌-◌, ◌≤◌, ◌<◌, ◌≡◌, refl, ap, Bool, true, false, not, ◌&&◌, if◌then◌else◌,
  some, List, [], ◌∷◌, length, get_elem?, take, drop, All, Bool-cases, inl, inr, arith, pos, ◌+ℤ◌,
  ◌-ℤ◌, ◌≤ℤ◌, ◌<ℤ◌, ltb_ℤ, leb, lookup,
}
use velox_quant.MarketData.Types.{Timestamp, SymbolId, Tick}
use velox_quant.MarketData.Store.Bounds.{get_elem?-inside, Sorted, Splits, lower_bound-Splits}
use velox_quant.MarketData.Portal.{DataPortal, SymbolData, recv_ts, between, history}

module _ {ℓ} {A : Type ℓ} where
  -- The elements that a test holds of, in their order.
  unfoldable pub filter : (A → Bool) → List A → List A
  filter keep [] = []
  filter keep (x ∷ xs) = let rest = filter keep xs in if keep x then x ∷ rest else rest

  take_nil : (n : ℕ) → take {A = A} n [] ≡ []
  take_nil zero = refl
  take_nil (suc n) = refl

  drop_nil : (n : ℕ) → drop {A = A} n [] ≡ []
  drop_nil zero = refl
  drop_nil (suc n) = refl

  -- A test that holds exactly at `n` indices from `i` on keeps that segment.
  filter-segment :
      (keep : A → Bool) (xs : List A) (i n : ℕ)
      → ((k : ℕ) (a : A) → k < i → get_elem? xs k ≡ some a → keep a ≡ false)
      → ((k : ℕ) (a : A) → i ≤ k → k < i + n → get_elem? xs k ≡ some a → keep a ≡ true)
      → ((k : ℕ) (a : A) → i + n ≤ k → get_elem? xs k ≡ some a → keep a ≡ false)
      → take n (drop i xs) ≡ filter keep xs
  unfolding filter
  filter-segment keep [] i n before inside after = rw (drop_nil i) (take_nil n)
  filter-segment keep (x ∷ xs) zero zero before inside after =
      let out : keep x ≡ false = after 0 x (omega arith) refl in
      let rest =
        filter-segment keep xs zero zero (λ k a low. absurd (omega arith))
          (λ k a low high. absurd (omega arith)) (λ k a low at. after (suc k) a (omega arith) at) in
      rw out rest
  filter-segment keep (x ∷ xs) zero (suc n) before inside after =
      let kept : keep x ≡ true = inside 0 x (omega arith) (omega arith) refl in
      let rest =
        filter-segment keep xs zero n (λ k a low. absurd (omega arith))
          (λ k a low high at. inside (suc k) a (omega arith) (omega arith) at)
          (λ k a low at. after (suc k) a (omega arith) at) in
      rw kept (ap (◌∷◌ x) rest)
  filter-segment keep (x ∷ xs) (suc i) n before inside after =
      let out : keep x ≡ false = before 0 x (omega arith) refl in
      let rest =
        filter-segment keep xs i n (λ k a high at. before (suc k) a (omega arith) at)
          (λ k a low high at. inside (suc k) a (omega arith) (omega arith) at)
          (λ k a low at. after (suc k) a (omega arith) at) in
      rw out rest

  pub All-filter : (keep : A → Bool) (xs : List A) → All (λ a. keep a ≡ true) (filter keep xs)
  unfolding filter
  All-filter keep [] = tt
  All-filter keep (x ∷ xs) = elim (Bool-cases (keep x)) [
    | inl kept ↦ rw kept (kept, All-filter keep xs)
    | inr out ↦ rw out (All-filter keep xs)
  ]

-- The test of the window of a history: not before its start, and not after the clock.
abbrev pub in_window : Timestamp → Timestamp → Tick → Bool
in_window from now t = not (ltb_ℤ t.recv_ts from) && not (ltb_ℤ now t.recv_ts)

window_false_before :
    (from now : Timestamp) (t : Tick) → t.recv_ts <ℤ from → in_window from now t ≡ false
unfolding ltb_ℤ
window_false_before from now t h = ground arith

window_false_after :
    (from now : Timestamp) (t : Tick) → now +ℤ pos 1 ≤ℤ t.recv_ts → in_window from now t ≡ false
unfolding ltb_ℤ ◌+ℤ◌
window_false_after from now t h = ground arith

window_true :
    (from now : Timestamp) (t : Tick)
    → from ≤ℤ t.recv_ts
    → t.recv_ts <ℤ now +ℤ pos 1
    → in_window from now t ≡ true
unfolding ltb_ℤ ◌+ℤ◌
window_true from now t h k = ground arith

window_ahead : (now back : Timestamp) → pos 0 ≤ℤ back → now -ℤ back ≤ℤ now +ℤ pos 1
unfolding ◌+ℤ◌ ◌-ℤ◌
window_ahead now back h = ground arith

-- Two boundaries of the same ticks are in the order of their times.
boundaries_in_order :
    (xs : List Tick) (from to : Timestamp) (i j : ℕ)
    → from ≤ℤ to
    → i ≤ length xs
    → Splits recv_ts xs from i i
    → Splits recv_ts xs to j j
    → i ≤ j
boundaries_in_order xs from to i j le high s t = elim (Bool-cases (leb i j)) [
  | inl fine ↦ ground arith
  | inr wrong ↦
      let (a, at) = get_elem?-inside xs j (ground arith) in
      absurd (omega (arith, s.before j a (ground arith) at, t.after j a (omega arith) at))
]

-- On a store in the order of its times and a look back that is not negative, history is the ticks
-- of the store that lie between the start of the window and the clock, both included: it reads
-- nothing after the clock.
pub history-window :
    (id : SymbolId) (lookback : Timestamp) (p : DataPortal) (held : SymbolData)
    → lookup id p.by_id ≡ some held
    → Sorted recv_ts held.store
    → pos 0 ≤ℤ lookback
    → history id lookback p
      ≡ some (filter (in_window (p.current_ts -ℤ lookback) p.current_ts) held.store)
unfolding history between
history-window id lookback p held found sorted ahead =
    let from = p.current_ts -ℤ lookback in
    let to = p.current_ts +ℤ pos 1 in
    let (i, eq_i, high_i, s) = lower_bound-Splits recv_ts held.store from sorted in
    let (j, eq_j, high_j, t) = lower_bound-Splits recv_ts held.store to sorted in
    let le =
      boundaries_in_order held.store from to i j (window_ahead p.current_ts lookback ahead) high_i s
        t in
    let test : leb i j ≡ true = ground arith in
    let segment =
      filter-segment (in_window from p.current_ts) held.store i (j - i)
        (λ k a low at. window_false_before from p.current_ts a (s.before k a low at))
        (λ k a low high at.
          window_true from p.current_ts a (s.after k a low at) (t.before k a (omega arith) at))
        (λ k a low at. window_false_after from p.current_ts a (t.after k a (omega arith) at)) in
    rw (found, history) (rw (eq_i, between) (rw (eq_j, between) (rw test (ap some segment))))
