-- ===== src/MarketData/Portal/Lookahead.antt =====
-- No answer of DataPortal about the past depends on a tick after the clock.
use velox_quant.Base.{
  ℕ, zero, suc, sub_ℕ, ltb, true, ◌^◌, add64, add64_exact, ◌+◌, ◌*◌, ◌≡◌, ◌<◌, ◌≤◌, ◌∙◌, ap, sym,
  refl, Bool, not, ◌&&◌, Bool-cases, inl, inr, some, List, [], ◌∷◌, length, All, lookup, pos, ◌-ℤ◌,
  ◌≤ℤ◌, ltb_ℤ, arith,
}
use velox_quant.MarketData.Types.{Timestamp, SymbolId, Tick, Bar}
use velox_quant.MarketData.Store.Bounds.{Sorted}
use velox_quant.MarketData.Portal.{DataPortal, SymbolData, recv_ts, history}
use velox_quant.MarketData.Portal.History.{filter, in_window, history-window}
use velox_quant.MarketData.Portal.Bars.{
  BarFrequency, BarType, seconds, history_bars, build_bars, bar_duration_ns, look_back, fits_int64,
  max_bars,
}
use velox_quant.MarketData.Portal.Bars.Range.{BarOk, build_bars-BarOk}

filter-filter :
    {A : Type 0} (f g : A → Bool) (xs : List A)
    → filter (λ a. f a && g a) xs ≡ filter f (filter g xs)
unfolding filter
filter-filter f g [] = refl
filter-filter f g (x ∷ xs) = elim (Bool-cases (g x)) [
  | inl y ↦ elim (Bool-cases (f x)) [
    | inl z ↦ rw (y, z) (ap (◌∷◌ x) (filter-filter f g xs))
    | inr z ↦ rw (y, z) (filter-filter f g xs)
  ]
  | inr out ↦ elim (Bool-cases (f x)) [
    | inl z ↦ rw (out, z) (filter-filter f g xs)
    | inr z ↦ rw (out, z) (filter-filter f g xs)
  ]
]

-- The ticks of a store that are known at a time.
abbrev pub known : Timestamp → List Tick → List Tick
known now ticks = filter (λ t. not (ltb_ℤ now t.recv_ts)) ticks

-- Two portals at the same time have the same history of a symbol, if the ticks of their stores that
-- are known at that time are the same, the stores are in the order of their times, and the look back
-- is not negative.
pub history-NoLookahead :
    (id : SymbolId) (lookback : Timestamp) (p q : DataPortal) (held other : SymbolData)
    → lookup id p.by_id ≡ some held
    → lookup id q.by_id ≡ some other
    → Sorted recv_ts held.store
    → Sorted recv_ts other.store
    → pos 0 ≤ℤ lookback
    → p.current_ts ≡ q.current_ts
    → known p.current_ts held.store ≡ known q.current_ts other.store
    → history id lookback p ≡ history id lookback q
history-NoLookahead id lookback p q held other in_p in_q sorted_p sorted_q ahead clock same =
    history-window id lookback p held in_p sorted_p ahead
    ∙ ap some (windows_agree p.current_ts q.current_ts lookback held.store other.store clock same)
    ∙ sym (history-window id lookback q other in_q sorted_q ahead)
  where
    windows_agree :
        (now then_ back : Timestamp) (xs ys : List Tick)
        → now ≡ then_
        → known now xs ≡ known then_ ys
        → filter (in_window (now -ℤ back) now) xs ≡ filter (in_window (then_ -ℤ back) then_) ys
    windows_agree now then_ back xs ys e k =
        filter-filter (λ t. not (ltb_ℤ t.recv_ts (now -ℤ back))) (λ t. not (ltb_ℤ now t.recv_ts)) xs
        ∙ ap (filter (λ t. not (ltb_ℤ t.recv_ts (now -ℤ back)))) k
        ∙ ap (λ n. filter (λ t. not (ltb_ℤ t.recv_ts (n -ℤ back))) (known then_ ys)) e
        ∙ sym (
            filter-filter (λ t. not (ltb_ℤ t.recv_ts (then_ -ℤ back)))
              (λ t. not (ltb_ℤ then_ t.recv_ts)) ys)

long_count :
    (count : ℕ) (t : BarType)
    → 0 < count * (seconds t * 1000000000)
    → 1000000000 ≤ count * (seconds t * 1000000000)
long_count count BarType.second h = omega arith
long_count count BarType.minute h = omega arith
long_count count BarType.hour h = omega arith
long_count count BarType.day h = omega arith
long_count count BarType.tick h = omega arith
long_count count BarType.volume h = omega arith

sub_ℕ-zero : (a b : ℕ) → b ≡ 0 → sub_ℕ a b ≡ pos a
sub_ℕ-zero a b e = ground arith

scaled : (a b c : ℕ) → c ≤ b → a * c ≤ a * b
scaled zero b c h = omega arith
scaled (suc a) b c h = omega (arith, scaled a b c h)

-- A bar is a second long at least.
second_long : (freq : BarFrequency) → 0 < bar_duration_ns freq → 1000000000 ≤ bar_duration_ns freq
unfolding bar_duration_ns
second_long freq long = long_count freq.count freq.type long

look_back_exact :
    (freq : BarFrequency) (n : ℕ)
    → 0 < bar_duration_ns freq
    → (n + 1) * bar_duration_ns freq < 2 ^ 63
    → (look_back freq n ≡ pos ((n + 1) * bar_duration_ns freq)) × (n ≤ max_bars)
look_back_exact freq n long near =
    let dur = bar_duration_ns freq in
    let grown : (n + 1) * 1000000000 ≤ (n + 1) * dur =
      scaled (n + 1) dur 1000000000 (second_long freq long) in
    let exact : add64 n 1 ≡ n + 1 = add64_exact n 1 (omega arith) in
    let small : ltb (n + 1) (2 ^ 63) ≡ true = ground arith in
    let turned : dur * (n + 1) ≡ (n + 1) * dur = grind arith in
    (
      rw exact (rw (small, turned) (sub_ℕ-zero ((n + 1) * dur) (0 * (n + 1)) (omega arith))),
      omega arith,
    )

-- Two portals at the same time build the same bars of a symbol, if the ticks of their stores
-- that are known at that time are the same, the stores are in the order of their times, the bars
-- have a length, and the look back over one bar more than asked for fits into 63 bits; there are at
-- most as many bars as asked for, and each has a trade and its opening and closing price between its
-- low and its high.
pub history_bars-NoLookahead :
    (id : SymbolId) (freq : BarFrequency) (n : ℕ) (p q : DataPortal) (held other : SymbolData)
    → lookup id p.by_id ≡ some held
    → lookup id q.by_id ≡ some other
    → Sorted recv_ts held.store
    → Sorted recv_ts other.store
    → 0 < bar_duration_ns freq
    → (n + 1) * bar_duration_ns freq < 2 ^ 63
    → p.current_ts ≡ q.current_ts
    → known p.current_ts held.store ≡ known q.current_ts other.store
    → (bars : List Bar) × (history_bars id freq n p ≡ some bars)
      × (history_bars id freq n q ≡ some bars)
      × (length bars ≤ n)
      × All BarOk bars
unfolding history_bars
history_bars-NoLookahead id freq n p q held other in_p in_q sorted_p sorted_q long near clock same =
    let back = look_back freq n in
    let (exact, few) = look_back_exact freq n long near in
    let ahead : pos 0 ≤ℤ back = rw exact (omega arith) in
    let fits : fits_int64 back ≡ true = rw exact (ground arith) in
    let ticks = filter (in_window (q.current_ts -ℤ back) q.current_ts) other.store in
    let in_second : history id back q ≡ some ticks =
      history-window id back q other in_q sorted_q ahead in
    let in_first : history id back p ≡ some ticks =
      history-NoLookahead id back p q held other in_p in_q sorted_p sorted_q ahead clock same
      ∙ in_second in
    let (bars, built, bounded, ok) = build_bars-BarOk q.current_ts ticks freq n long few in
    (
      bars,
      rw (fits, history_bars)
          (rw (in_first, history_bars) (ap (λ now. build_bars now ticks freq n) clock ∙ built)),
      rw (fits, history_bars) (rw (in_second, history_bars) built),
      bounded,
      ok,
    )
