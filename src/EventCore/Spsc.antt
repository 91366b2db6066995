-- ===== src/EventCore/Spsc.antt =====
-- SPSCQueue of event_driven_core/include/event_driven_core/lock_free_queue.hpp. One producer and one
-- consumer each see the other's position only through an atomic; the operations here are taken one
-- after the other.
pub mod Refine
use Prim.Native.Nat.{bit_and}
use velox_quant.Base.{
  ℕ, ◌+◌, ◌-◌, Bool, true, false, if◌then◌else◌, ◌==◌, ◌||◌, not, Option, none, some, List,
  get_elem?, set, replicate, length, sub64,
}

pub record Slot {ℓ} (A : Type ℓ) : Type ℓ where
  pub value : A
  pub ready : Bool

pub record SpscQueue {ℓ} (A : Type ℓ) : Type ℓ where
  pub slots : List (Slot A)
  pub capacity : ℕ
  pub write_pos : ℕ
  pub read_pos : ℕ

module _ {ℓ} {A : Type ℓ} where
  -- `blank` is what `Slot[]` holds at first.
  abbrev pub fresh : A → ℕ → SpscQueue A
  fresh blank capacity = record {
    slots = replicate capacity (record { value = blank; ready = false });
    capacity = capacity;
    write_pos = 0;
    read_pos = 0;
  }

  -- `none` is the exception.
  unfoldable pub make : A → ℕ → Option (SpscQueue A)
  make blank capacity =
      if capacity == 0 || not (bit_and capacity (capacity - 1) == 0)
      then none
      else some (fresh blank capacity)

  -- `(pos + 1) & (capacity_ - 1)`
  abbrev pub next : SpscQueue A → ℕ → ℕ
  next q at = bit_and (at + 1) (q.capacity - 1)

  unfoldable pub enqueue : A → SpscQueue A → Bool × SpscQueue A
  enqueue value q = if next q q.write_pos == q.read_pos then (false, q) else (
    true,
    record q {
      slots = set q.slots q.write_pos (record { value = value; ready = true });
      write_pos = next q q.write_pos;
    },
  )

  -- The slot at the read position; a position is always in range.
  unfoldable pub take_slot : Option (Slot A) → SpscQueue A → Option A × SpscQueue A
  take_slot none q = (none, q)
  take_slot (some slot) q =
      if slot.ready
      then (
        some slot.value,
        record q {
          slots = set q.slots q.read_pos (record slot { ready = false });
          read_pos = next q q.read_pos;
        },
      )
      else (none, q)

  unfoldable pub dequeue : SpscQueue A → Option A × SpscQueue A
  dequeue q =
      if q.read_pos == q.write_pos then (none, q) else take_slot (get_elem? q.slots q.read_pos) q

  unfoldable pub size : SpscQueue A → ℕ
  size q = bit_and (sub64 q.write_pos q.read_pos) (q.capacity - 1)

  unfoldable pub empty : SpscQueue A → Bool
  empty q = q.write_pos == q.read_pos
