-- ===== src/EventCore/Mpsc/Drain.antt =====
-- Every value of MPSCQueue can be taken once the threads that owe a link have run.
use velox_quant.Base.{
  ℕ, zero, suc, ◌+◌, ◌-◌, ◌≤◌, ◌<◌, ◌==◌, ltb, ◌≡◌, refl, ap, subst, inl, inr, Bool-cases, Option,
  none, some, List, [], ◌∷◌, ◌++◌, length, arith, ==_iff,
}
use velox_quant.EventCore.Mpsc.{Address, MpscQueue, Taken, got, dequeue, Step, links, takes}
use velox_quant.EventCore.Mpsc.Linked.{owed, Linked, MpscOk}
use velox_quant.EventCore.Mpsc.Order.{Gives, waits, gives, owed_self, link-MpscOk, dequeue-Gives}
use velox_quant.EventCore.Mpsc.Reach.{Reaches, enqueued, took, reached-MpscOk}

-- An owed link stands somewhere among the pending ones.
owed_link :
    (a : Address) (pending : List (Address × Address))
    → 0 < owed a pending
    → (left : List (Address × Address)) × (right : List (Address × Address)) × (node : Address)
      × (pending ≡ left ++ (a, node) ∷ right)
unfolding owed
owed_link a [] h = absurd (omega arith)
owed_link a ((prev, node) ∷ more) h = elim (Bool-cases (prev == a)) [
  | inl here ↦ ([], more, node, ap (λ b. (b, node) ∷ more) ((==_iff prev a).0 here))
  | inr there ↦
      let (left, right, found, e) = owed_link a more (ground arith) in
      ((prev, node) ∷ left, right, found, ap (λ t. (prev, node) ∷ t) e)
]

owed_once :
    (count : ℕ) (pending : List (Address × Address)) (a : Address) (next : Option Address)
    → Linked count pending a next
    → owed a pending ≤ 1
unfolding Linked
owed_once count pending a none h = ground arith
owed_once count pending a (some next) h = omega (arith, h.2)

module _ {ℓ} {A : Type ℓ} where
  -- Steps that enqueue nothing, and how many values they take.
  pub data Settles : ℕ → MpscQueue A → MpscQueue A → Type ℓ where
    settled : (q : MpscQueue A) → Settles 0 q q
    linking :
        (n : ℕ) (q r q' : MpscQueue A) (s : Step q r)
        → enqueued s ≡ []
        → took s ≡ 0
        → Settles n r q'
        → Settles n q q'
    taking :
        (n : ℕ) (q r q' : MpscQueue A) (s : Step q r)
        → enqueued s ≡ []
        → took s ≡ 1
        → Settles n r q'
        → Settles (suc n) q q'

  -- A queue with values left whose next value is linked, a take and what it leads to.
  take_linked :
      (sent : List A) (taken : ℕ) (q : MpscQueue A) (t : Taken A)
      → dequeue q ≡ t
      → Gives sent taken q t
      → taken < length sent
      → owed taken q.pending ≡ 0
      → (v : Option A) × (q' : MpscQueue A) × (dequeue q ≡ got v q') × MpscOk sent (suc taken) q'
  take_linked sent taken q t e (waits (inl none_left)) some_left linked = absurd (omega arith)
  take_linked sent taken q t e (waits (inr owes)) some_left linked = absurd (omega arith)
  take_linked sent taken q t e (gives v q' same less owes ok) some_left linked = (v, q', e, ok)

  -- The link that is owed to the tail, if one is, then leaves the next value linked.
  link_tail :
      (sent : List A) (taken : ℕ) (q : MpscQueue A)
      → MpscOk sent taken q
      → 0 < owed taken q.pending
      → (r : MpscQueue A) × (s : Step q r) × (enqueued s ≡ [])
        × (took s ≡ 0)
        × MpscOk sent taken r
        × (owed taken r.pending ≡ 0)
  unfolding enqueued took
  link_tail sent taken q ok owes =
      let (left, right, node, e) = owed_link taken q.pending owes in
      let (heap, stored, kept) = link-MpscOk sent taken q left right taken node ok e in
      let (n, _, _, linked) = ok.live taken (omega arith) ok.taken_ok in
      let once = owed_once (length sent) q.pending taken n.after linked in
      (
        record q { heap = heap; pending = left ++ right },
        links q left right taken node heap e stored,
        refl,
        refl,
        kept,
        omega (arith, once, ap (owed taken) e, owed_self taken node left right),
      )

  -- From any state, at most one link leads to one whose next value is linked.
  ready :
      (sent : List A) (taken : ℕ) (q : MpscQueue A)
      → MpscOk sent taken q
      → (r : MpscQueue A) × MpscOk sent taken r
        × (owed taken r.pending ≡ 0)
        × ((n : ℕ) (q' : MpscQueue A) → Settles n r q' → Settles n q q')
  ready sent taken q ok = elim (Bool-cases (ltb 0 (owed taken q.pending))) [
    | inl owes ↦
        let (r, s, adds, none_taken, kept, linked) = link_tail sent taken q ok (ground arith) in
        (r, kept, linked, λ n q' rest. linking n q r q' s adds none_taken rest)
    | inr linked ↦ (q, ok, ground arith, λ n q' rest. rest)
  ]

  drain_all :
      (left_over : ℕ) (sent : List A) (taken : ℕ) (q : MpscQueue A)
      → MpscOk sent taken q
      → taken + left_over ≡ length sent
      → (q' : MpscQueue A) × Settles left_over q q' × MpscOk sent (length sent) q'
  unfolding enqueued took
  drain_all zero sent taken q ok e = (q, settled q, subst (λ n. MpscOk sent n q) (omega arith) ok)
  drain_all (suc more) sent taken q ok e =
      let (r, kept, linked, before) = ready sent taken q ok in
      let (v, next, took_it, ok') =
        take_linked sent taken r (dequeue r) refl (dequeue-Gives sent taken r kept) (omega arith)
          linked in
      let (q', rest, out) = drain_all more sent (suc taken) next ok' (omega arith) in
      (
        q',
        before (suc more) q' (taking more r next q' (takes r next v took_it) refl refl rest),
        out,
      )

  -- From every state of a run, links and takes alone lead to a queue from which all the values whose
  -- exchange is done have been taken, one take for each that was left.
  pub run-Settles :
      (sent : List A) (taken : ℕ) (q : MpscQueue A)
      → Reaches sent taken q
      → (q' : MpscQueue A) × Settles (length sent - taken) q q' × MpscOk sent (length sent) q'
  run-Settles sent taken q r =
      let ok = reached-MpscOk sent taken q r in
      drain_all (length sent - taken) sent taken q ok (omega (arith, ok.taken_ok))
