-- ===== src/EventCore/Mpsc/Reach.antt =====
-- The runs of MPSCQueue: any order of the steps of its producers and its consumer.
use velox_quant.Base.{
  All, append_assoc, ℕ, ◌+◌, ◌≡◌, refl, sym, subst, ◌∙◌, Option, some, List, [], ◌∷◌, ◌++◌,
  append-nil, Assoc, lookup, arith,
}
use velox_quant.EventCore.Mpsc.{
  Address, Node, MpscQueue, Taken, nothing, got, new_queue, exchange, store_next, dequeue, Step,
  exchanges, links, takes,
}
use velox_quant.EventCore.Mpsc.Linked.{MpscOk, exchange-MpscOk, new_queue-MpscOk}
use velox_quant.EventCore.Mpsc.Order.{Gives, waits, gives, link-MpscOk, dequeue-Gives}

-- What holds of an entry wherever a list is split holds of all.
All-split {κ} :
    {B : Type 0} (P : B → Type κ) (done more : List B)
    → ((left right : List B) (b : B) → done ++ more ≡ left ++ b ∷ right → P b)
    → All P more
All-split P done [] h = tt
All-split P done (b ∷ more) h = (
  h done more b refl,
  All-split P (done ++ b ∷ []) more
      (λ left right c e. h left right c (sym (append_assoc done (b ∷ []) more) ∙ e)),
)

module _ {ℓ} {A : Type ℓ} where
  -- The value that a step enqueues, and how many it takes.
  unfoldable pub enqueued : {q q' : MpscQueue A} → Step q q' → List A
  enqueued (exchanges q v) = v ∷ []
  enqueued _ = []

  unfoldable pub took : {q q' : MpscQueue A} → Step q q' → ℕ
  took (takes q q' v h) = 1
  took _ = 0

  -- A run from the new queue, with the values in the order of their exchanges and how many are taken.
  pub data Reaches : List A → ℕ → MpscQueue A → Type ℓ where
    starts : Reaches [] 0 new_queue
    then_ :
        (sent : List A) (taken : ℕ) (q q' : MpscQueue A)
        → Reaches sent taken q
        → (s : Step q q') → Reaches (sent ++ enqueued s) (taken + took s) q'

  -- What a dequeue gives is what it gives.
  take-MpscOk_of :
      (sent : List A) (taken : ℕ) (q q' : MpscQueue A) (v : Option A) (t : Taken A)
      → Gives sent taken q t
      → t ≡ got v q'
      → MpscOk sent (taken + 1) q'
  take-MpscOk_of sent taken q q' v t (waits h) e = absurd (let never : nothing ≡ got v q' = e in cc)
  take-MpscOk_of sent taken q q' v t (gives w r same less owes ok) e =
      let is : r ≡ q' = (let whole : got w r ≡ got v q' = e in cc) in
      let next : MpscOk sent (taken + 1) r = subst (λ n. MpscOk sent n r) (omega arith) ok in
      subst (MpscOk sent (taken + 1)) is next

  step-MpscOk :
      (sent : List A) (taken : ℕ) (q q' : MpscQueue A) (s : Step q q')
      → MpscOk sent taken q
      → MpscOk (sent ++ enqueued s) (taken + took s) q'
  unfolding enqueued took
  step-MpscOk sent taken _ _ (exchanges q v) ok =
      subst (λ n. MpscOk (sent ++ v ∷ []) n (exchange v q)) (omega arith)
        (exchange-MpscOk sent taken v q ok)
  step-MpscOk sent taken _ _ (links q left right prev node heap e stored) ok =
      let (heap', stored', linked) = link-MpscOk sent taken q left right prev node ok e in
      let same : heap' ≡ heap = (let whole : some heap' ≡ some heap = sym stored' ∙ stored in cc) in
      let kept : MpscOk sent taken (record q { heap = heap; pending = left ++ right }) =
        subst (λ h. MpscOk sent taken (record q { heap = h; pending = left ++ right })) same
          linked in
      subst (λ l. MpscOk l (taken + 0) (record q { heap = heap; pending = left ++ right }))
        (sym (append-nil sent))
        (subst (λ n. MpscOk sent n (record q { heap = heap; pending = left ++ right }))
          (omega arith) kept)
  step-MpscOk sent taken _ _ (takes q q' v h) ok =
      subst (λ l. MpscOk l (taken + 1) q') (sym (append-nil sent))
        (take-MpscOk_of sent taken q q' v (dequeue q) (dequeue-Gives sent taken q ok) h)

  pub reached-MpscOk :
      (sent : List A) (taken : ℕ) (q : MpscQueue A) → Reaches sent taken q → MpscOk sent taken q
  reached-MpscOk _ _ _ starts = new_queue-MpscOk
  reached-MpscOk _ _ _ (then_ sent taken q q' r s) =
      step-MpscOk sent taken q q' s (reached-MpscOk sent taken q r)

  -- The link of a pending entry finds the node that it is written to.
  abbrev pub Linkable : MpscQueue A → Address × Address → Type ℓ
  Linkable q e =
      (heap : Assoc (Node A)) × (store_next (e.0) (e.1) (lookup (e.0) q.heap) q.heap ≡ some heap)

  -- In every run of producers and one consumer, a dequeue reads no node that is gone: it gives the
  -- next value in the order of the exchanges, and gives nothing only if no value is left or a thread
  -- has still to link the next one; no link is written to a node that is gone.
  pub run-InOrder :
      (sent : List A) (taken : ℕ) (q : MpscQueue A)
      → Reaches sent taken q
      → Gives sent taken q (dequeue q) × All (Linkable q) q.pending
  run-InOrder sent taken q r =
      let ok = reached-MpscOk sent taken q r in
      (
        dequeue-Gives sent taken q ok,
        All-split (Linkable q) [] q.pending (λ left right e split.
            let (heap, stored, _) = link-MpscOk sent taken q left right (e.0) (e.1) ok split in
            (heap, stored)),
      )
