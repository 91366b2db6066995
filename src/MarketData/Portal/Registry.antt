-- ===== src/MarketData/Portal/Registry.antt =====
-- The registry of DataPortal: tickers and ids name the same stores.
use velox_quant.Base.{
  subst, ℕ, ◌+◌, ◌%◌, ◌^◌, ◌<◌, ◌≤◌, ◌≡◌, ◌≢◌, ◌==◌, true, false, Option, none, some, List, lookup,
  insert, contains, if◌then◌else◌, lookup-insert, contains-lookup, contains→lookup, arith, refl,
  leb, Bool-cases, inl, inr, ==_iff, sym, ◌∙◌,
}
use velox_quant.MarketData.Types.{SymbolId, Tick}
use velox_quant.MarketData.Portal.{
  DataPortal, SymbolData, Ticker, add_store, emplace, register_auto, register_id, lookup_id,
  lookup_ticker,
}

-- Each id has the ticker that has the id, each ticker an id that has it, and ids are given in order.
pub record RegistryOk (p : DataPortal) : Type 0 where
  pub by_ticker :
      (ticker : Ticker) (id : SymbolId)
      → lookup_id ticker p ≡ some id
      → lookup_ticker id p ≡ some ticker
  pub by_number :
      (id : SymbolId) (ticker : Ticker)
      → lookup_ticker id p ≡ some ticker
      → lookup_id ticker p ≡ some id
  pub below_next :
      (id : SymbolId) (held : SymbolData) → lookup id p.by_id ≡ some held → id < p.next_id

-- What a registration of a ticker gives: a refusal if it is there, and else its store under the next
-- id, with every other store and ticker, the clock and the subscriptions as they were.
abbrev pub Registers : Ticker → List Tick → DataPortal → Option (SymbolId × DataPortal) → Type 0
Registers ticker store p none = (id : SymbolId) × (lookup_id ticker p ≡ some id)
Registers ticker store p (some out) =
    RegistryOk out.1
    × (out.0 ≡ p.next_id)
    × (lookup_id ticker p ≡ none)
    × (lookup (out.0) p.by_id ≡ none)
    × (lookup_id ticker out.1 ≡ some (out.0))
    × (lookup (out.0) out.1.by_id ≡ some (record { ticker = ticker; store = store }))
    × ((t : Ticker) → t ≢ ticker → lookup_id t out.1 ≡ lookup_id t p)
    × ((k : SymbolId) → k ≢ out.0 → lookup k out.1.by_id ≡ lookup k p.by_id)
    × (out.1.current_ts ≡ p.current_ts)
    × (out.1.subscriptions ≡ p.subscriptions)

absent : {V : Type 0} (k : ℕ) (m : List (ℕ × V)) → contains k m ≡ false → lookup k m ≡ none
absent k m h = ground (arith, contains-lookup k m)

-- What the two lookups find once a store is added under an id and a ticker that are new.
lookup_id-add_store :
    (id : SymbolId) (ticker other : Ticker) (store : List Tick) (p : DataPortal)
    → lookup_id other (add_store id ticker store p)
      ≡ (if ticker == other then some id else lookup_id other p)
unfolding lookup_id add_store
lookup_id-add_store id ticker other store p = lookup-insert ticker other id p.ticker_map

lookup_ticker-add_store :
    (id other : SymbolId) (ticker : Ticker) (store : List Tick) (p : DataPortal)
    → contains id p.by_id ≡ false
    → lookup_ticker other (add_store id ticker store p)
      ≡ (if id == other then some ticker else lookup_ticker other p)
unfolding lookup_ticker add_store emplace
lookup_ticker-add_store id other ticker store p new =
    rw new
      (ground (arith, lookup-insert id other (record { ticker = ticker; store = store }) p.by_id))

-- A store added under an id and a ticker that are new keeps the registry, if the next id is past it.
add_store-Registry :
    (id : SymbolId) (ticker : Ticker) (store : List Tick) (p : DataPortal) (next : ℕ)
    → RegistryOk p
    → contains id p.by_id ≡ false
    → contains ticker p.ticker_map ≡ false
    → id < next
    → p.next_id ≤ next
    → RegistryOk (record (add_store id ticker store p) { next_id = next })
unfolding lookup_id lookup_ticker add_store emplace
add_store-Registry id ticker store p next ok new_id new_ticker above grows = record {
  by_ticker = λ t i found. added_by_ticker t i found;
  by_number = λ i t found. added_by_number i t found;
  below_next = λ i held found. added_below i held found;
}
  where
    entry : SymbolData
    entry = record { ticker = ticker; store = store }

    ticker_of :
        (i : SymbolId)
        → lookup_ticker i (add_store id ticker store p)
          ≡ (if id == i then some ticker else lookup_ticker i p)
    ticker_of i = lookup_ticker-add_store id i ticker store p new_id

    no_id : lookup_ticker id p ≡ none
    no_id = rw (absent id p.by_id new_id, lookup_ticker) refl

    no_ticker : lookup_id ticker p ≡ none
    no_ticker = absent ticker p.ticker_map new_ticker

    added_by_ticker :
        (t : Ticker) (i : SymbolId)
        → lookup t (insert ticker id p.ticker_map) ≡ some i
        → lookup_ticker i (add_store id ticker store p) ≡ some t
    added_by_ticker t i found =
        ground (arith, lookup-insert ticker t id p.ticker_map, ticker_of i, ok.by_ticker t i, no_id)

    added_by_number :
        (i : SymbolId) (t : Ticker)
        → lookup_ticker i (add_store id ticker store p) ≡ some t
        → lookup t (insert ticker id p.ticker_map) ≡ some i
    added_by_number i t found =
        ground
          (arith, lookup-insert ticker t id p.ticker_map, ticker_of i, ok.by_number i t, no_ticker)

    added_below :
        (i : SymbolId) (held : SymbolData)
        → lookup i (emplace id entry p.by_id) ≡ some held
        → i < next
    added_below i held found =
        let at : lookup i (insert id entry p.by_id) ≡ some held =
          subst (λ b. lookup i (if b then p.by_id else insert id entry p.by_id) ≡ some held) new_id
            found in
        ground (arith, lookup-insert id i entry p.by_id, ok.below_next i held)

next_above :
    (id next : ℕ)
    → id + 1 < 2 ^ 32
    → (id < (if leb next id then (id + 1) % 2 ^ 32 else next))
      × (next ≤ (if leb next id then (id + 1) % 2 ^ 32 else next))
next_above id next room =
    let wraps : (id + 1) % 2 ^ 32 ≡ id + 1 = omega arith in rw wraps (ground arith)

no_ticker_of :
    (id : SymbolId) (p : DataPortal) → contains id p.by_id ≡ false → lookup_ticker id p ≡ none
unfolding lookup_ticker
no_ticker_of id p new = rw (absent id p.by_id new, lookup_ticker) refl

added_ticker :
    (id : SymbolId) (ticker : Ticker) (store : List Tick) (p : DataPortal)
    → contains id p.by_id ≡ false
    → lookup_ticker id (add_store id ticker store p) ≡ some ticker
added_ticker id ticker store p new =
    let self : (id == id) ≡ true = (==_iff id id).1 refl in
    lookup_ticker-add_store id id ticker store p new ∙ rw self refl

next_id_free : (p : DataPortal) → RegistryOk p → contains p.next_id p.by_id ≡ false
next_id_free p ok = elim (Bool-cases (contains p.next_id p.by_id)) [
  | inl taken ↦
      let (held, at) = contains→lookup p.next_id p.by_id taken in
      absurd (omega (arith, ok.below_next p.next_id held at))
  | inr free ↦ free
]

-- What stands under each id once a store is added under an id that is new.
stored :
    (id other : SymbolId) (ticker : Ticker) (store : List Tick) (p : DataPortal)
    → contains id p.by_id ≡ false
    → lookup other (add_store id ticker store p).by_id ≡ (
        if id == other
        then some (record { ticker = ticker; store = store })
        else lookup other p.by_id)
unfolding add_store emplace
stored id other ticker store p new =
    rw new (lookup-insert id other (record { ticker = ticker; store = store }) p.by_id)

-- As long as the ids do not reach the largest number of their type, a ticker is refused exactly if it
-- is registered already, and a new one gets the next id, which no store has, and its store under it;
-- every other store and ticker, the clock and the subscriptions stay, and the registry is kept.
pub register_auto-RegistryOk :
    (ticker : Ticker) (store : List Tick) (p : DataPortal)
    → RegistryOk p
    → p.next_id + 1 < 2 ^ 32
    → Registers ticker store p (register_auto ticker store p)
unfolding register_auto add_store lookup_id lookup_ticker
register_auto-RegistryOk ticker store p ok room = elim (Bool-cases (contains ticker p.ticker_map)) [
  | inl there ↦ rw there (contains→lookup ticker p.ticker_map there)
  | inr new ↦
      let free = next_id_free p ok in
      let wraps : (p.next_id + 1) % 2 ^ 32 ≡ p.next_id + 1 = omega arith in
      rw new (
        subst (λ n. RegistryOk (record (add_store p.next_id ticker store p) { next_id = n }))
            (sym wraps)
            (add_store-Registry p.next_id ticker store p (p.next_id + 1) ok free new (omega arith)
              (omega arith)),
        refl,
        absent ticker p.ticker_map new,
        absent p.next_id p.by_id free,
        ground (arith, lookup-insert ticker ticker p.next_id p.ticker_map),
        ground (arith, stored p.next_id p.next_id ticker store p free),
        λ t other. ground (arith, lookup-insert ticker t p.next_id p.ticker_map),
        λ k other. ground (arith, stored p.next_id k ticker store p free),
        refl,
        refl,
      )
]

-- Registering a new ticker under an id of the caller's that is new, and not the largest of its type,
-- succeeds, keeps the registry and gives the id that ticker.
pub register_id-RegistryOk :
    (id : SymbolId) (ticker : Ticker) (store : List Tick) (p : DataPortal)
    → RegistryOk p
    → id + 1 < 2 ^ 32
    → contains id p.by_id ≡ false
    → contains ticker p.ticker_map ≡ false
    → (p' : DataPortal) × (register_id id ticker store p ≡ some p')
      × RegistryOk p'
      × (lookup_ticker id p' ≡ some ticker)
unfolding register_id add_store lookup_ticker
register_id-RegistryOk id ticker store p ok room new_id new_ticker =
    let next = if leb p.next_id id then (id + 1) % 2 ^ 32 else p.next_id in
    let bound : (id < next) × (p.next_id ≤ next) = next_above id p.next_id room in
    (
      record (add_store id ticker store p) { next_id = next },
      rw (new_id, register_id) (rw new_ticker refl),
      add_store-Registry id ticker store p next ok new_id new_ticker bound.0 bound.1,
      added_ticker id ticker store p new_id,
    )
