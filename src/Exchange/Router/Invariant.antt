-- ===== src/Exchange/Router/Invariant.antt =====
-- The router's invariant: every book is well formed, and no book knows an id that is still to come.
use velox_quant.Base.{
  ◌+◌, ◌<◌, ◌≤◌, ◌^◌, ◌≡◌, refl, sym, ◌∙◌, true, false, none, some, [], Assoc, subst, lookup,
  insert, contains, contains→lookup, contains-lookup, lookup-insert, arith, Bool-cases, inl, inr,
  ◌⊎◌, ◌==◌,
}
use velox_quant.MarketData.Types.{Price, Quantity, Timestamp, SymbolId}
use velox_quant.Exchange.Types.{Order, OrderId, OrderStatus, invalid_order_id}
use velox_quant.Exchange.Book.{init}
use velox_quant.Exchange.Book.Invariant.{BookOk}
use velox_quant.Exchange.Matching.Sweep.{Engine, ok}
use velox_quant.Exchange.Matching.Process.{process-IsProcessed}
use velox_quant.Exchange.Router.{
  Router, submit, validate, stamp, collect, reject, report, register_symbol, has_symbol,
  fresh_engine,
}

abbrev pub Knows : Router → Engine → Type 0
Knows r e = BookOk e.book × ((k : OrderId) → r.next_order_id ≤ k → lookup k e.book.orders ≡ none)

pub record RouterOk (r : Router) : Type 0 where
  pub contexts : (symbol : SymbolId) (e : Engine) → lookup symbol r.symbols ≡ some e → Knows r e
  pub positive : 0 < r.next_order_id

-- What the caller of `submit` hands over: an order with no execution yet.
pub record IsFreshOrder (o : Order) : Type 0 where
  pub untouched : o.filled_qty ≡ 0
  pub small : o.qty < 2 ^ 64

validate-valid :
    (o : Order) (r : Router)
    → validate o r ≡ true
    → (0 < o.qty) × (contains o.symbol_id r.symbols ≡ true)
unfolding validate
validate-valid o r h = ground arith

pub put_context :
    (m : Assoc Engine) (P : Engine → Type 0) (symbol : SymbolId) (e' : Engine)
    → P e'
    → ((s : SymbolId) (e : Engine) → lookup s m ≡ some e → P e)
    → (s : SymbolId) (e : Engine) → lookup s (insert symbol e' m) ≡ some e
    → P e
put_context m P symbol e' h old s e found = elim (Bool-cases (symbol == s)) [
  | inl same ↦
      let is : some e' ≡ some e = sym (rw (lookup-insert symbol s e' m, same) refl) ∙ found in
      let same_e : e' ≡ e = cc in subst P same_e h
  | inr other ↦ old s e (sym (rw (lookup-insert symbol s e' m, other) refl) ∙ found)
]

pub init-BookOk : (symbol : SymbolId) → BookOk (init symbol)
unfolding init lookup
init-BookOk symbol = record {
  bids = tt;
  asks = tt;
  tagged = λ id s o h. absurd (let no : none ≡ some s = h in cc);
}

-- Registering a new symbol adds an empty well-formed book, and the router stays well formed;
-- registering a known one fails.
pub register_symbol-RouterOk :
    (symbol : SymbolId) (r : Router)
    → RouterOk r
    → ((contains symbol r.symbols ≡ true) × (register_symbol symbol r ≡ none))
      ⊎ ((r' : Router) × (register_symbol symbol r ≡ some r')
          × (has_symbol symbol r' ≡ true)
          × RouterOk r')
unfolding register_symbol fresh_engine has_symbol init lookup
register_symbol-RouterOk symbol r v = elim (Bool-cases (contains symbol r.symbols)) [
  | inl known ↦ inl (known, rw known refl)
  | inr new_one ↦ inr (
    record r { symbols = insert symbol (fresh_engine symbol) r.symbols },
    rw new_one refl,
    ground (
      arith,
      contains-lookup symbol (insert symbol (fresh_engine symbol) r.symbols),
      lookup-insert symbol symbol (fresh_engine symbol) r.symbols,
    ),
    record {
      contexts =
          put_context r.symbols (Knows r) symbol (fresh_engine symbol)
            (init-BookOk symbol, λ k above. refl) v.contexts;
      positive = v.positive;
    },
  )
]

abbrev pub Accepted : Order → Router → OrderId × Order × Router → Type 0
Accepted o r out =
    (validate o r ≡ true) × (out.0 ≡ r.next_order_id) × (out.2.next_order_id ≡ r.next_order_id + 1)

abbrev pub Refused : Order → Router → OrderId × Order × Router → Type 0
Refused o r out =
    (validate o r ≡ false)
    × (out.0 ≡ invalid_order_id)
    × (out.1.status ≡ OrderStatus.rejected)
    × (out.2.symbols ≡ r.symbols)
    × (out.2.next_order_id ≡ r.next_order_id)
    × (out.2.orders_submitted ≡ r.orders_submitted)

module _ (commission : Quantity → Price → Price) (o : Order) (now : Timestamp) (r : Router)
    (v : RouterOk r) (n : IsFreshOrder o) (room : r.next_order_id + 1 < 2 ^ 64) where
  accepted :
      (e : Engine)
      → lookup o.symbol_id r.symbols ≡ some e
      → validate o r ≡ true
      → (out : OrderId × Order × Router) × (submit commission o now r ≡ ok out)
        × RouterOk out.2
        × Accepted o r out
  unfolding submit stamp collect
  accepted e found valid =
      let k = v.contexts o.symbol_id e found in
      let o' : Order = (stamp o now r).0 in
      let (q, eq, p) =
        process-IsProcessed commission o' now (record e { log = [] })
          (record {
            book = k.0;
            untouched = n.untouched;
            some_qty = (validate-valid o r valid).0;
            small = n.small;
          })
          (k.1 r.next_order_id (omega arith)) in
      (
        (r.next_order_id, q.0, collect o.symbol_id (q.1) (stamp o now r).1),
        rw (valid, submit) (rw found (rw eq refl)),
        record {
          contexts =
              put_context r.symbols (Knows (collect o.symbol_id (q.1) (stamp o now r).1))
                o.symbol_id (record q.1 { log = [] })
                (p.book, λ k' above. p.others k' (omega arith) (k.1 k' (omega arith)))
                (λ s e2 at.
                  let old = v.contexts s e2 at in (old.0, λ k' above. old.1 k' (omega arith)));
          positive = omega arith;
        },
        (valid, refl, omega arith),
      )

  -- In a router whose books are well formed and know no id still to come, `submit` of an order without
  -- executions (`filled_qty` is 0), whose quantity fits into 64 bits, and while ids remain (the next id
  -- and one more is below 2 ^ 64), raises no fault: if it passes `validate` it gets the next id and the
  -- router stays such; if not it comes back rejected under the invalid id, and no book, id or count
  -- changes.
  pub submit-RouterOk :
      (out : OrderId × Order × Router) × (submit commission o now r ≡ ok out)
      × RouterOk out.2
      × (Accepted o r out ⊎ Refused o r out)
  unfolding submit reject report
  submit-RouterOk = elim (Bool-cases (validate o r)) [
    | inl valid ↦
        let (e, found) = contains→lookup o.symbol_id r.symbols (validate-valid o r valid).1 in
        let (out, eq, good, facts) = accepted e found valid in (out, eq, good, inl facts)
    | inr refused ↦ (
      (invalid_order_id, reject o r, report (reject o r) r),
      rw refused refl,
      record { contexts = v.contexts; positive = v.positive },
      inr (refused, refl, refl, refl, refl, refl),
    )
  ]
