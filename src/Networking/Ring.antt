-- ===== src/Networking/Ring.antt =====
-- SpscRingBuffer of networking/include/networking/tcp_feed.hpp and networking/src/tcp_feed.cpp, one
-- operation after the other. The counters are `size_t`, 64 bits wide, and wrap.
pub mod Cells
pub mod Counters
pub mod Copies
pub mod Fifo
mod Tests
use velox_quant.Base.{
  ℕ, zero, suc, ◌+◌, ◌-◌, ◌*◌, ◌==◌, ltb, leb, min, Bool, true, false, if◌then◌else◌, Option, none,
  some, List, [], ◌∷◌, ◌++◌, length, take, drop, set, replicate, add64, sub64,
}
use Prim.Native.Nat.{bit_and}

pub record RingBuffer {ℓ} (B : Type ℓ) : Type ℓ where
  pub data_ : List B
  pub mask : ℕ
  pub head : ℕ
  pub tail : ℕ

-- `while (sz < capacity) sz <<= 1`
unfoldable pub rounded : ℕ → ℕ → ℕ → ℕ
rounded zero capacity size = size
rounded (suc fuel) capacity size =
    let doubled = rounded fuel capacity (size * 2) in if ltb size capacity then doubled else size

module _ {ℓ} {B : Type ℓ} where
  -- `memcpy` into an array from an index on
  unfoldable pub copy_in : List B → ℕ → List B → List B
  copy_in cells at [] = cells
  copy_in cells at (b ∷ more) = copy_in (set cells at b) (at + 1) more

  -- `memcpy` out of an array from an index on
  unfoldable pub copy_out : List B → ℕ → ℕ → List B
  copy_out cells at n = take n (drop at cells)

  unfoldable pub available_read : RingBuffer B → ℕ
  available_read r = sub64 r.head r.tail

  unfoldable pub available_write : RingBuffer B → ℕ
  available_write r = sub64 (length r.data_) (available_read r)

  unfoldable pub is_empty : RingBuffer B → Bool
  is_empty r = available_read r == 0

  -- The copy of the bytes that are written, in one part or around the end in two.
  unfoldable pub write_around : List B → ℕ → List B → List B
  write_around cells at bytes =
      let wrap = length cells - at in
      if leb (length bytes) wrap
      then copy_in cells at bytes
      else copy_in (copy_in cells at (take wrap bytes)) 0 (drop wrap bytes)

  unfoldable pub try_write : List B → RingBuffer B → ℕ × RingBuffer B
  try_write bytes r =
      let n = min (length bytes) (available_write r) in
      if n == 0 then (0, r) else (
        n,
        record r {
          data_ = write_around r.data_ (bit_and r.head r.mask) (take n bytes);
          head = add64 r.head n;
        },
      )

  unfoldable pub read_around : List B → ℕ → ℕ → List B
  read_around cells at n =
      let wrap = length cells - at in
      if leb n wrap
      then copy_out cells at n
      else copy_out cells at wrap ++ copy_out cells 0 (n - wrap)

  -- The bytes read into a buffer of a size
  unfoldable pub try_read : ℕ → RingBuffer B → List B × RingBuffer B
  try_read size r =
      let n = min size (available_read r) in
      if n == 0
      then ([], r)
      else (read_around r.data_ (bit_and r.tail r.mask) n, record r { tail = add64 r.tail n })

  -- The constructor: the capacity rounded up to a power of two.
  unfoldable pub new_ring : B → ℕ → RingBuffer B
  new_ring blank capacity =
      let size = rounded capacity capacity 1 in
      record { data_ = replicate size blank; mask = size - 1; head = 0; tail = 0 }
