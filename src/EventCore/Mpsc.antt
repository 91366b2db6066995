-- ===== src/EventCore/Mpsc.antt =====
-- MPSCQueue of event_driven_core/include/event_driven_core/lock_free_queue.hpp, with its heap of
-- nodes. `enqueue` is two steps, between which other threads run: the exchange of the head, and the
-- link from the previous head to the new node. A thread between the two stands in `pending`.
pub mod Linked
pub mod Order
pub mod Reach
pub mod Drain
mod Destroy
mod Tests
use velox_quant.Base.{
  ℕ, zero, suc, ◌+◌, Bool, true, false, Option, none, some, List, [], ◌∷◌, ◌++◌, Assoc, lookup,
  insert, erase, ◌≡◌,
}

abbrev pub Address : Type 0
Address = ℕ

-- The node that the constructor allocates has no value of its own.
pub record Node {ℓ} (A : Type ℓ) : Type ℓ where
  pub value : Option A
  pub after : Option Address

-- `fresh` is the next address that `new` gives out.
pub record MpscQueue {ℓ} (A : Type ℓ) : Type ℓ where
  pub heap : Assoc (Node A)
  pub fresh : Address
  pub head : Address
  pub tail : Address
  pub pending : List (Address × Address)

-- What `dequeue` does: it reads a node that is gone (`lost`), finds nothing linked, or gets a value.
pub data Taken {ℓ} (A : Type ℓ) : Type ℓ where
  lost nothing : Taken A
  got : Option A → MpscQueue A → Taken A

-- `next == nullptr`
abbrev pub is_none : Option Address → Bool
is_none none = true
is_none (some next) = false

module _ {ℓ} {A : Type ℓ} where
  abbrev pub new_queue : MpscQueue A
  new_queue = record {
    heap = (0, record { value = none; after = none }) ∷ [];
    fresh = 1;
    head = 0;
    tail = 0;
    pending = [];
  }

  -- The first half of `enqueue`: the new node, and the exchange of the head.
  unfoldable pub exchange : A → MpscQueue A → MpscQueue A
  exchange value q = record q {
    heap = insert q.fresh (record { value = some value; after = none }) q.heap;
    fresh = q.fresh + 1;
    head = q.fresh;
    pending = q.pending ++ (q.head, q.fresh) ∷ [];
  }

  -- `prev_head->next.store(new_node)`; `none` is a write to a node that is gone.
  unfoldable pub store_next :
      Address → Address → Option (Node A) → Assoc (Node A) → Option (Assoc (Node A))
  store_next prev node none heap = none
  store_next prev node (some n) heap = some (insert prev (record n { after = some node }) heap)

  unfoldable pub take_next : MpscQueue A → Address → Option (Node A) → Taken A
  take_next q next none = lost
  take_next q next (some n) = got n.value (record q { heap = erase q.tail q.heap; tail = next })

  unfoldable pub take_after : MpscQueue A → Option (Node A) → Taken A
  take_after q none = lost
  take_after q (some t) = elim t.after [
    | none ↦ nothing
    | some next ↦ take_next q next (lookup next q.heap)
  ]

  -- `dequeue`, which one consumer alone calls
  unfoldable pub dequeue : MpscQueue A → Taken A
  dequeue q = take_after q (lookup q.tail q.heap)

  -- `empty`; `none` is a read of a node that is gone.
  unfoldable pub empty : MpscQueue A → Option Bool
  empty q = elim (lookup q.tail q.heap) [ none ↦ none | some t ↦ some (is_none t.after) ]

  -- The loop of the destructor, which frees the nodes from one on; `none` is a read of a node that is
  -- gone, or the end of the fuel.
  unfoldable pub free_from : ℕ → Option Address → Assoc (Node A) → Option (Assoc (Node A))
  free_from zero next heap = none
  free_from (suc fuel) none heap = some heap
  free_from (suc fuel) (some next) heap = elim (lookup next heap) [
    | none ↦ none
    | some n ↦ free_from fuel n.after (erase next heap)
  ]

  -- The destructor, which no other thread runs beside. The fuel is the number of nodes that `new` ever
  -- gave out, and one for the end of the chain.
  unfoldable pub destroy : MpscQueue A → Option (Assoc (Node A))
  destroy q = free_from (q.fresh + 1) (some q.tail) q.heap

  -- The steps of the producers and of the consumer, in any order.
  pub data Step : MpscQueue A → MpscQueue A → Type ℓ where
    exchanges : (q : MpscQueue A) (value : A) → Step q (exchange value q)
    links :
        (q : MpscQueue A) (left right : List (Address × Address)) (prev node : Address)
        (heap : Assoc (Node A))
        → q.pending ≡ left ++ (prev, node) ∷ right
        → store_next prev node (lookup prev q.heap) q.heap ≡ some heap
        → Step q (record q { heap = heap; pending = left ++ right })
    takes : (q q' : MpscQueue A) (value : Option A) → dequeue q ≡ got value q' → Step q q'
