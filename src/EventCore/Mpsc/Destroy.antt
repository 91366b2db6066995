-- ===== src/EventCore/Mpsc/Destroy.antt =====
-- The destructor of MPSCQueue, after the threads that enqueue are done.
use velox_quant.Base.{
  ℕ, zero, suc, ◌+◌, ◌≤◌, ◌<◌, ◌==◌, ◌≡◌, ◌∙◌, refl, ap, ◌⊎◌, subst, Option, none, some, List, [],
  length, Bool-cases, inl, inr, Assoc, lookup, erase, lookup-erase, arith,
}
use velox_quant.EventCore.Mpsc.{Address, Node, MpscQueue, free_from, destroy}
use velox_quant.EventCore.Mpsc.Linked.{owed, Linked, MpscOk}

-- With no link owed, a node without a successor is the last, and any other leads to the next address.
chain_end :
    (count a : ℕ) (next : Option Address)
    → a ≤ count
    → Linked count [] a next
    → ((next ≡ none) × (a ≡ count)) ⊎ ((next ≡ some (suc a)) × (a < count))
unfolding Linked owed
chain_end count a none low linked = inl (refl, ground (arith, linked))
chain_end count a (some next) low linked = inr (ap some linked.0, linked.1)

module _ {ℓ} {A : Type ℓ} where
  -- What the loop leaves of the nodes from an address on: none, and those before it as they were.
  Freed : List A → Address → Assoc (Node A) → Option (Assoc (Node A)) → Type ℓ
  Freed sent a heap done =
      (rest : Assoc (Node A)) × (done ≡ some rest)
      × ((b : Address) → b < a → lookup b rest ≡ lookup b heap)
      × ((b : Address) → a ≤ b → b ≤ length sent → lookup b rest ≡ none)

  -- The first node is gone, and the rest of the loop frees the others.
  Freed-erase :
      (sent : List A) (a : Address) (heap : Assoc (Node A)) (left_over : Option (Assoc (Node A)))
      → Freed sent (suc a) (erase a heap) left_over
      → Freed sent a heap left_over
  unfolding Freed
  Freed-erase sent a heap left_over (rest, e, kept, gone) = (
    rest,
    e,
    λ b low. kept b (omega (arith, low)) ∙ ground (arith, lookup-erase a b heap),
    λ b low high. elim (Bool-cases (a == b)) [
      | inl here ↦ kept b (ground arith) ∙ ground (arith, lookup-erase a b heap)
      | inr there ↦ gone b (ground arith) high
    ],
  )

  end_of_chain :
      (sent : List A) (a fuel : ℕ) (heap : Assoc (Node A))
      → length sent ≤ a
      → 0 < fuel
      → Freed sent (suc a) heap (free_from fuel none heap)
  unfolding Freed free_from
  end_of_chain sent a zero heap end some_left = absurd (omega arith)
  end_of_chain sent a (suc fuel) heap end some_left =
      (heap, refl, λ b low. refl, λ b low high. absurd (omega arith))

  -- The loop reads no node that is gone, ends, and leaves none of the nodes from its first one on.
  free_chain :
      (sent : List A) (taken : ℕ) (q : MpscQueue A)
      → MpscOk sent taken q
      → q.pending ≡ []
      → (fuel a : ℕ) (heap : Assoc (Node A)) → taken ≤ a
      → a ≤ length sent
      → length sent + 2 ≤ fuel + a
      → ((b : Address) → a ≤ b → lookup b heap ≡ lookup b q.heap)
      → Freed sent a heap (free_from fuel (some a) heap)
  unfolding free_from
  free_chain sent taken q ok done zero a heap low high enough same = absurd (omega arith)
  free_chain sent taken q ok done (suc fuel) a heap low high enough same =
      let (n, at, carries, linked) = ok.live a low high in
      let found : lookup a heap ≡ some n = same a (omega arith) ∙ at in
      let last =
        chain_end (length sent) a n.after high
          (subst (λ p. Linked (length sent) p a n.after) done linked) in
      let freed : Freed sent (suc a) (erase a heap) (free_from fuel n.after (erase a heap)) =
        elim last [
          | inl (none_left, end) ↦
              rw none_left
                (end_of_chain sent a fuel (erase a heap) (omega (arith, end)) (omega (arith, end)))
          | inr (next, more) ↦ rw next (
              free_chain sent taken q ok done fuel (suc a) (erase a heap) (omega arith)
                (omega arith) (omega arith)
                (λ b above. ground (arith, lookup-erase a b heap, same b (omega arith))))
        ] in
      rw (found, free_from) (Freed-erase sent a heap (free_from fuel n.after (erase a heap)) freed)

  -- After a run whose threads are done and owe no link, the destructor reads no node that is gone, its
  -- fuel is enough, and none of the nodes that were left is still on the heap.
  destroy-Freed :
      (sent : List A) (taken : ℕ) (q : MpscQueue A)
      → MpscOk sent taken q
      → q.pending ≡ []
      → Freed sent taken q.heap (destroy q)
  unfolding destroy
  destroy-Freed sent taken q ok done = rw ok.tail_ok (
      free_chain sent taken q ok done (q.fresh + 1) taken q.heap (omega arith) ok.taken_ok
        (omega (arith, ok.fresh_ok)) (λ b above. refl))
