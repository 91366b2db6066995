-- ===== src/EventCore/Mpsc/Linked.antt =====
-- The linked nodes of MPSCQueue: every value that was enqueued and not yet taken has its node, and a
-- node without a successor waits for the one link that a thread still owes it.
use velox_quant.Base.{
  ℕ, zero, suc, ◌+◌, ◌≤◌, ◌<◌, ◌==◌, ltb, ◌≡◌, ◌≢◌, refl, sym, subst, ◌∙◌, ◌⊎◌, inl, inr,
  if◌then◌else◌, Bool-cases, Option, none, some, List, [], ◌∷◌, ◌++◌, length, length-append,
  get_elem?, All, All-append, lookup, lookup-insert, arith,
}
use velox_quant.EventCore.Mpsc.{Address, Node, MpscQueue, new_queue, exchange}

-- How many links are owed to a node.
unfoldable pub owed : Address → List (Address × Address) → ℕ
owed a [] = 0
owed a ((prev, node) ∷ more) = (if prev == a then 1 else 0) + owed a more

pub owed-append :
    (a : Address) (xs ys : List (Address × Address)) → owed a (xs ++ ys) ≡ owed a xs + owed a ys
unfolding owed
owed-append a [] ys = omega arith
owed-append a ((prev, node) ∷ xs) ys = omega (arith, owed-append a xs ys)

-- The successor of a node is linked, or owed, or the node is the last one.
unfoldable pub Linked : ℕ → List (Address × Address) → Address → Option Address → Type 0
Linked count pending a none = owed a pending ≡ (if ltb a count then 1 else 0)
Linked count pending a (some next) = (next ≡ suc a) × (a < count) × (owed a pending ≡ 0)

get_elem?-append {ℓ} :
    {A : Type ℓ} (xs : List A) (v : A) (i : ℕ)
    → i < length xs
    → get_elem? (xs ++ v ∷ []) i ≡ get_elem? xs i
get_elem?-append [] v i h = absurd (omega arith)
get_elem?-append (x ∷ xs) v zero h = refl
get_elem?-append (x ∷ xs) v (suc i) h = get_elem?-append xs v i (omega arith)

get_elem?-last {ℓ} :
    {A : Type ℓ} (xs : List A) (v : A) → get_elem? (xs ++ v ∷ []) (length xs) ≡ some v
get_elem?-last [] v = refl
get_elem?-last (x ∷ xs) v = get_elem?-last xs v

-- The link that an exchange adds.
owed-one :
    (head node a : Address)
    → ((head ≡ a) × (owed a ((head, node) ∷ []) ≡ 1))
      ⊎ ((head ≢ a) × (owed a ((head, node) ∷ []) ≡ 0))
unfolding owed
owed-one head node a = ground arith

-- The exchange owes a link to the last node, and to no other.
Linked-append :
    (count count' : ℕ) (pending : List (Address × Address)) (head node a : Address)
    (next : Option Address)
    → head ≡ count
    → count' ≡ count + 1
    → Linked count pending a next
    → (count ≤ a → owed a pending ≡ 0)
    → Linked count' (pending ++ (head, node) ∷ []) a next
unfolding Linked
Linked-append count count' pending head node a none last more h out =
    ground (arith, owed-append a pending ((head, node) ∷ []), owed-one head node a)
Linked-append count count' pending head node a (some next) last more h out = (
  h.0,
  omega (arith, h.1),
  ground (arith, owed-append a pending ((head, node) ∷ []), owed-one head node a, h.1, h.2),
)

Linked-new :
    (count count' : ℕ) (pending : List (Address × Address)) (head node a : Address)
    → head ≡ count
    → count' ≡ count + 1
    → a ≡ suc count
    → owed a pending ≡ 0
    → Linked count' (pending ++ (head, node) ∷ []) a none
unfolding Linked
Linked-new count count' pending head node a last more new out =
    ground (arith, owed-append a pending ((head, node) ∷ []), owed-one head node a)

module _ {ℓ} {A : Type ℓ} where
  -- The node of the value enqueued before address `a`; the node at the tail has none to give.
  unfoldable pub Carries : List A → Address → Option A → Type ℓ
  Carries sent zero value = Unit
  Carries sent (suc a) value = value ≡ get_elem? sent a

  -- `sent` are the values whose exchange is done, in its order, and `taken` of them are dequeued.
  pub record MpscOk (sent : List A) (taken : ℕ) (q : MpscQueue A) : Type ℓ where
    pub fresh_ok : q.fresh ≡ length sent + 1
    pub head_ok : q.head ≡ length sent
    pub tail_ok : q.tail ≡ taken
    pub taken_ok : taken ≤ length sent
    pub live :
        (a : Address)
        → taken ≤ a
        → a ≤ length sent
        → (n : Node A) × (lookup a q.heap ≡ some n)
          × Carries sent a n.value
          × Linked (length sent) q.pending a n.after
    pub before : (a : Address) → a < taken → owed a q.pending ≡ 0
    pub beyond : (a : Address) → length sent ≤ a → owed a q.pending ≡ 0
    pub in_order : All (λ e. e.1 ≡ suc e.0) q.pending

  pub new_queue-MpscOk : MpscOk [] 0 new_queue
  unfolding owed Linked Carries lookup
  new_queue-MpscOk = record {
    fresh_ok = refl;
    head_ok = refl;
    tail_ok = refl;
    taken_ok = omega arith;
    live = λ a low high. first_live a high;
    before = λ a h. refl;
    beyond = λ a h. refl;
    in_order = tt;
  }
    where
      first_live :
          (a : Address)
          → a ≤ 0
          → (n : Node A) × (lookup a (new_queue).heap ≡ some n)
            × Carries [] a n.value
            × Linked 0 [] a n.after
      first_live zero h = (record { value = none; after = none }, refl, tt, refl)
      first_live (suc a) h = absurd (omega arith)

  -- A value that is carried stays so when another is enqueued.
  Carries-append :
      (sent : List A) (v : A) (a : Address) (value : Option A)
      → a ≤ length sent
      → Carries sent a value
      → Carries (sent ++ v ∷ []) a value
  unfolding Carries
  Carries-append sent v zero value h c = tt
  Carries-append sent v (suc a) value h c = c ∙ sym (get_elem?-append sent v a (omega arith))

  newest : (sent : List A) (v : A) → Carries (sent ++ v ∷ []) (suc (length sent)) (some v)
  unfolding Carries
  newest sent v = sym (get_elem?-last sent v)

  pub exchange-MpscOk :
      (sent : List A) (taken : ℕ) (v : A) (q : MpscQueue A)
      → MpscOk sent taken q
      → MpscOk (sent ++ v ∷ []) taken (exchange v q)
  unfolding exchange owed
  exchange-MpscOk sent taken v q ok =
      let grown : length (sent ++ v ∷ []) ≡ length sent + 1 = length-append sent (v ∷ []) in
      record {
        fresh_ok = omega (arith, ok.fresh_ok, grown);
        head_ok = omega (arith, ok.fresh_ok, grown);
        tail_ok = ok.tail_ok;
        taken_ok = omega (arith, ok.taken_ok, grown);
        live = λ a low high. elim (Bool-cases (q.fresh == a)) [
          | inl new ↦
              let at : a ≡ suc (length sent) = ground (arith, ok.fresh_ok) in
              let none_owed : owed a q.pending ≡ 0 = ok.beyond a (omega arith) in
              (
                record { value = some v; after = none },
                lookup-insert q.fresh a (record { value = some v; after = none }) q.heap
                    ∙ rw new refl,
                subst (λ b. Carries (sent ++ v ∷ []) b (some v)) (sym at) (newest sent v),
                Linked-new (length sent) (length (sent ++ v ∷ [])) q.pending q.head q.fresh a
                    ok.head_ok grown at none_owed,
              )
          | inr old ↦
              let (n, at, carries, linked) = ok.live a low (ground (arith, ok.fresh_ok, grown)) in
              (
                n,
                lookup-insert q.fresh a (record { value = some v; after = none }) q.heap
                    ∙ rw old at,
                Carries-append sent v a n.value (ground (arith, ok.fresh_ok, grown)) carries,
                Linked-append (length sent) (length (sent ++ v ∷ [])) q.pending q.head q.fresh a
                    n.after ok.head_ok grown linked (ok.beyond a),
              )
        ];
        before = λ a h. omega (
          arith,
          owed-append a q.pending ((q.head, q.fresh) ∷ []),
          ok.before a h,
          ok.head_ok,
          ok.taken_ok,
          owed-one q.head q.fresh a,
        );
        beyond = λ a h. omega (
          arith,
          owed-append a q.pending ((q.head, q.fresh) ∷ []),
          ok.beyond a (omega (arith, grown)),
          ok.head_ok,
          grown,
          owed-one q.head q.fresh a,
        );
        in_order =
            All-append (λ e. e.1 ≡ suc e.0) q.pending ((q.head, q.fresh) ∷ []) ok.in_order
              (omega (arith, ok.fresh_ok, ok.head_ok), tt);
      }
