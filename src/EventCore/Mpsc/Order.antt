-- ===== src/EventCore/Mpsc/Order.antt =====
-- MPSCQueue gives the values in the order of their exchanges, and never touches a node that is gone,
-- however the threads take turns.
use velox_quant.Base.{
  ℕ, suc, ◌+◌, ◌≤◌, ◌<◌, ◌==◌, ltb, ◌≡◌, refl, sym, ap, subst, ◌∙◌, ◌⊎◌, inl, inr, true, false,
  if◌then◌else◌, Bool-cases, Option, none, some, Option-cases, List, [], ◌∷◌, ◌++◌, length,
  get_elem?, All, Assoc, lookup, insert, erase, lookup-insert, lookup-erase, arith, ==_iff,
}
use velox_quant.EventCore.Mpsc.{
  Address, Node, MpscQueue, Taken, nothing, got, store_next, take_next, take_after, dequeue,
}
use velox_quant.EventCore.Mpsc.Linked.{owed, owed-append, Linked, Carries, MpscOk}

owed-middle :
    (a prev node : Address) (left right : List (Address × Address))
    → owed a (left ++ (prev, node) ∷ right) ≡ (if prev == a then 1 else 0) + owed a (left ++ right)
unfolding owed
owed-middle a prev node left right =
    omega (arith, owed-append a left ((prev, node) ∷ right), owed-append a left right)

pub owed_self :
    (prev node : Address) (left right : List (Address × Address))
    → owed prev (left ++ (prev, node) ∷ right) ≡ 1 + owed prev (left ++ right)
owed_self prev node left right = ground (arith, owed-middle prev prev node left right)

All-left {κ} :
    {B : Type 0} (P : B → Type κ) (left right : List B) (b : B)
    → All P (left ++ b ∷ right)
    → P b × All P (left ++ right)
All-left P [] right b h = h
All-left P (x ∷ left) right b h = let rest = All-left P left right b h.1 in (rest.0, (h.0, rest.1))

-- The link of a node settles what is owed to it, and nothing else.
Linked-other :
    (count : ℕ) (left right : List (Address × Address)) (prev node a : Address)
    (next : Option Address)
    → (prev == a) ≡ false
    → Linked count (left ++ (prev, node) ∷ right) a next
    → Linked count (left ++ right) a next
unfolding Linked
Linked-other count left right prev node a none other h =
    ground (arith, owed-middle a prev node left right)
Linked-other count left right prev node a (some next) other h =
    (h.0, h.1, ground (arith, owed-middle a prev node left right, h.2))

Linked-settled :
    (count : ℕ) (left right : List (Address × Address)) (prev node : Address)
    (next : Option Address)
    → node ≡ suc prev
    → Linked count (left ++ (prev, node) ∷ right) prev next
    → Linked count (left ++ right) prev (some node)
unfolding Linked
Linked-settled count left right prev node none e h =
    let self : (prev == prev) ≡ true = (==_iff prev prev).1 refl in
    (
      e,
      ground (arith, owed-middle prev prev node left right),
      ground (arith, owed-middle prev prev node left right),
    )
Linked-settled count left right prev node (some next) e h =
    let self : (prev == prev) ≡ true = (==_iff prev prev).1 refl in
    absurd (ground (arith, h.2, owed-middle prev prev node left right))

module _ {ℓ} {A : Type ℓ} where
  -- A thread that still has to link finds the node of the previous head, and its link keeps the queue.
  pub link-MpscOk :
      (sent : List A) (taken : ℕ) (q : MpscQueue A) (left right : List (Address × Address))
      (prev node : Address)
      → MpscOk sent taken q
      → q.pending ≡ left ++ (prev, node) ∷ right
      → (heap : Assoc (Node A)) × (store_next prev node (lookup prev q.heap) q.heap ≡ some heap)
        × MpscOk sent taken (record q { heap = heap; pending = left ++ right })
  unfolding store_next
  link-MpscOk sent taken q left right prev node ok e =
      let owes : owed prev q.pending ≡ 1 + owed prev (left ++ right) =
        ap (owed prev) e ∙ owed_self prev node left right in
      let alive : taken ≤ prev = elim (Bool-cases (ltb prev taken)) [
        | inl gone ↦ absurd (omega (arith, ok.before prev (ground arith), owes))
        | inr fine ↦ ground arith
      ] in
      let below : prev < length sent = elim (Bool-cases (ltb prev (length sent))) [
        | inl fine ↦ ground arith
        | inr past ↦ absurd (omega (arith, ok.beyond prev (ground arith), owes))
      ] in
      let (n, at, carries, linked) = ok.live prev alive (omega arith) in
      let heap = insert prev (record n { after = some node }) q.heap in
      let order =
        All-left (λ p. p.1 ≡ suc p.0) left right (prev, node)
          (subst (All (λ p. p.1 ≡ suc p.0)) e ok.in_order) in
      (
        heap,
        rw (at, store_next) refl,
        record {
          fresh_ok = ok.fresh_ok;
          head_ok = ok.head_ok;
          tail_ok = ok.tail_ok;
          taken_ok = ok.taken_ok;
          live = λ a low high. elim (Bool-cases (prev == a)) [
            | inl here ↦
                let same : prev ≡ a = (==_iff prev a).0 here in
                subst
                  (λ b.
                    (m : Node A) × (lookup b heap ≡ some m)
                    × Carries sent b m.value
                    × Linked (length sent) (left ++ right) b m.after)
                  same
                  (
                    record n { after = some node },
                    lookup-insert prev prev (record n { after = some node }) q.heap
                        ∙ rw ((==_iff prev prev).1 refl) refl,
                    carries,
                    Linked-settled (length sent) left right prev node n.after order.0
                        (subst (λ p. Linked (length sent) p prev n.after) e linked),
                  )
            | inr there ↦
                let (m, found, carries_m, linked_m) = ok.live a low high in
                (
                  m,
                  lookup-insert prev a (record n { after = some node }) q.heap ∙ rw there found,
                  carries_m,
                  Linked-other (length sent) left right prev node a m.after there
                      (subst (λ p. Linked (length sent) p a m.after) e linked_m),
                )
          ];
          before = λ a h.
              omega (arith, ok.before a h, ap (owed a) e, owed-middle a prev node left right);
          beyond = λ a h.
              omega (arith, ok.beyond a h, ap (owed a) e, owed-middle a prev node left right);
          in_order = order.1;
        },
      )

  -- What a dequeue gives on a queue: nothing, and then no value is left or a thread has still to link
  -- the next one; or the next value in the order of the exchanges.
  pub data Gives (sent : List A) (taken : ℕ) (q : MpscQueue A) : Taken A → Type ℓ where
    waits : (taken ≡ length sent) ⊎ (0 < owed taken q.pending) → Gives sent taken q nothing
    gives :
        (v : Option A) (q' : MpscQueue A)
        → v ≡ get_elem? sent taken
        → taken < length sent
        → q'.pending ≡ q.pending
        → MpscOk sent (suc taken) q'
        → Gives sent taken q (got v q')

  -- The queue after the node at its tail is gone.
  take-MpscOk :
      (sent : List A) (taken : ℕ) (q : MpscQueue A)
      → MpscOk sent taken q
      → taken < length sent
      → owed taken q.pending ≡ 0
      → MpscOk sent (suc taken) (record q { heap = erase q.tail q.heap; tail = suc taken })
  take-MpscOk sent taken q ok some_left settled = record {
    fresh_ok = ok.fresh_ok;
    head_ok = ok.head_ok;
    tail_ok = refl;
    taken_ok = omega arith;
    live = λ a low high.
        let (m, found, carries, linked) = ok.live a (omega arith) high in
        let kept : (q.tail == a) ≡ false = ground (arith, ok.tail_ok) in
        (m, lookup-erase q.tail a q.heap ∙ rw kept found, carries, linked);
    before = λ a h. elim (Bool-cases (a == taken)) [
      | inl here ↦ subst (λ b. owed b q.pending ≡ 0) (sym ((==_iff a taken).0 here)) settled
      | inr there ↦ ok.before a (ground arith)
    ];
    beyond = ok.beyond;
    in_order = ok.in_order;
  }

  pub dequeue-Gives :
      (sent : List A) (taken : ℕ) (q : MpscQueue A)
      → MpscOk sent taken q
      → Gives sent taken q (dequeue q)
  unfolding dequeue take_after take_next Linked Carries
  dequeue-Gives sent taken q ok =
      let (n, at, _, linked) = ok.live taken (omega arith) ok.taken_ok in
      let found : lookup q.tail q.heap ≡ some n =
        subst (λ a. lookup a q.heap ≡ some n) (sym ok.tail_ok) at in
      elim (Option-cases n.after) [
        | inl last ↦
            let is : dequeue q ≡ nothing = rw (found, dequeue) (rw (last, take_after) refl) in
            subst (Gives sent taken q) (sym is) (
              waits (
                waiting sent taken q ok (subst (Linked (length sent) q.pending taken) last linked)))
        | inr (next, follows) ↦
            let (after, some_left, settled) =
              linked_to sent taken q next
                (subst (Linked (length sent) q.pending taken) follows linked) in
            let (m, at_next, carries, _) = ok.live (suc taken) (omega arith) (omega arith) in
            let there : lookup next q.heap ≡ some m =
              subst (λ a. lookup a q.heap ≡ some m) (sym after) at_next in
            let is : dequeue q
                ≡ got m.value (record q { heap = erase q.tail q.heap; tail = next }) =
              rw (found, dequeue) (rw (follows, take_after) (rw (there, take_next) refl)) in
            subst (Gives sent taken q) (sym is) (
              gives m.value _ carries some_left refl (
                subst
                  (λ a. MpscOk sent (suc taken) (record q { heap = erase q.tail q.heap; tail = a }))
                  (sym after) (take-MpscOk sent taken q ok some_left settled)))
      ]
    where
      waiting :
          (sent : List A) (taken : ℕ) (q : MpscQueue A)
          → MpscOk sent taken q
          → Linked (length sent) q.pending taken none
          → (taken ≡ length sent) ⊎ (0 < owed taken q.pending)
      waiting sent taken q ok h = ground (arith, ok.taken_ok)

      linked_to :
          (sent : List A) (taken : ℕ) (q : MpscQueue A) (next : Address)
          → Linked (length sent) q.pending taken (some next)
          → (next ≡ suc taken) × (taken < length sent) × (owed taken q.pending ≡ 0)
      linked_to sent taken q next h = h
