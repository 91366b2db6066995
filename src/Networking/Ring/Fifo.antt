-- ===== src/Networking/Ring/Fifo.antt =====
-- SpscRingBuffer is a queue of bytes: what is written is read in its order, and a write takes what fits.
use velox_quant.Base.{
  ℕ, ◌+◌, ◌-◌, ◌*◌, ◌^◌, ◌≤◌, ◌<◌, ◌==◌, min, ltb, ◌≡◌, refl, sym, ap, ◌∙◌, subst, Bool-cases, inl,
  inr, List, ◌++◌, append-nil, length, length-append, length-drop, get_elem?, take, drop, add64,
  u64_mod, arith,
}
use Prim.Native.Nat.{bit_and}
use native.Mathlib.Nat.{pow-le-pow_right}
use velox_quant.Networking.Ring.{
  RingBuffer, available_read, available_write, write_around, read_around, try_write, try_read,
}
use velox_quant.Networking.Ring.Cells.{
  slot, length-take, get_elem?-take, get_elem?-drop, write_around-new, write_around-old,
  length-write_around,
}
use velox_quant.Networking.Ring.Copies.{
  get_front, get_back, same_elements, length-read_around, get_elem?-read_around,
}
use velox_quant.Networking.Ring.Counters.{
  add64-slot, bit_and-place, slot-inside, slot-later, slot-earlier,
}

-- The ring holds some bytes: the counters are their number apart, and the cells from the place of the
-- tail on are the bytes.
pub record Holds {ℓ} {B : Type ℓ} (r : RingBuffer B) (xs : List B) : Type ℓ where
  pub bits : ℕ
  pub lap : ℕ
  pub start : ℕ
  pub narrow : bits ≤ 63
  pub sized : length r.data_ ≡ 2 ^ bits
  pub masked : r.mask ≡ 2 ^ bits - 1
  pub inside : start < 2 ^ bits
  pub tail_at : r.tail ≡ lap * 2 ^ bits + start
  pub tail_small : r.tail < u64_mod
  pub head_at : r.head ≡ add64 r.tail (length xs)
  pub fits : length xs ≤ 2 ^ bits
  pub cells : (i : ℕ) → i < length xs → get_elem? r.data_ (slot (2 ^ bits) start i) ≡ get_elem? xs i

module _ {ℓ} {B : Type ℓ} where
  bound : (r : RingBuffer B) (xs : List B) (h : Holds r xs) → 2 ^ h.bits ≤ 2 ^ 63
  bound r xs h = pow-le-pow_right (omega arith) h.narrow

  available_read-Holds :
      (r : RingBuffer B) (xs : List B) → Holds r xs → available_read r ≡ length xs
  unfolding available_read
  available_read-Holds r xs h = omega (arith, h.head_at, h.tail_small, h.fits, bound r xs h)

  available_write-Holds :
      (r : RingBuffer B) (xs : List B) (h : Holds r xs) → available_write r ≡ 2 ^ h.bits - length xs
  unfolding available_write
  available_write-Holds r xs h =
      omega (arith, available_read-Holds r xs h, h.sized, h.fits, bound r xs h)

  -- The counter of the writer stands behind the bytes that are held.
  head_place :
      (r : RingBuffer B) (xs : List B) (h : Holds r xs)
      → bit_and r.head r.mask ≡ slot (2 ^ h.bits) h.start (length xs)
  head_place r xs h =
      let (lap', at) =
        add64-slot h.bits h.lap h.start (length xs) h.narrow h.inside h.fits
          (omega (arith, h.tail_at, h.tail_small)) in
      let head : r.head ≡ lap' * 2 ^ h.bits + slot (2 ^ h.bits) h.start (length xs) =
        h.head_at ∙ ap (λ t. add64 t (length xs)) h.tail_at ∙ at in
      ap (bit_and r.head) h.masked
      ∙ bit_and-place h.bits lap' (slot (2 ^ h.bits) h.start (length xs)) r.head
          (slot-inside (2 ^ h.bits) h.start (length xs) h.inside h.fits) head

  tail_place : (r : RingBuffer B) (xs : List B) (h : Holds r xs) → bit_and r.tail r.mask ≡ h.start
  tail_place r xs h =
      ap (bit_and r.tail) h.masked ∙ bit_and-place h.bits h.lap h.start r.tail h.inside h.tail_at

  -- The ring after a write of bytes that there is room for.
  written :
      (r : RingBuffer B) (xs ys : List B) (h : Holds r xs)
      → length xs + length ys ≤ 2 ^ h.bits
      → Holds
          (record r {
            data_ = write_around r.data_ (bit_and r.head r.mask) ys;
            head = add64 r.head (length ys);
          })
          (xs ++ ys)
  written r xs ys h room =
      let c = 2 ^ h.bits in
      let at = bit_and r.head r.mask in
      let placed = head_place r xs h in
      let both = length-append xs ys in
      let below : at < length r.data_ =
        subst (λ n. n < length r.data_) (sym placed)
          (subst (λ n. slot c h.start (length xs) < n) (sym h.sized)
            (slot-inside c h.start (length xs) h.inside h.fits)) in
      record {
        bits = h.bits;
        lap = h.lap;
        start = h.start;
        narrow = h.narrow;
        sized = length-write_around r.data_ ys at ∙ h.sized;
        masked = h.masked;
        inside = h.inside;
        tail_at = h.tail_at;
        tail_small = h.tail_small;
        head_at = omega (arith, h.head_at, both);
        fits = omega (arith, both);
        cells = λ i low. elim (Bool-cases (ltb i (length xs))) [
          | inl old ↦
              let k = i + c - length xs in
              let where_ : slot c h.start i ≡ slot (length r.data_) at k =
                slot-earlier c h.start (length xs) i h.inside (ground arith) h.fits
                ∙ ap (λ a. slot c a k) (sym placed)
                ∙ ap (λ m. slot m at k) (sym h.sized) in
              ap (get_elem? (write_around r.data_ at ys)) where_
              ∙ write_around-old r.data_ ys at k below (ground (arith, h.fits))
                  (ground (arith, h.fits, h.sized))
              ∙ ap (get_elem? r.data_) (sym where_)
              ∙ h.cells i (ground arith)
              ∙ sym (get_front xs ys i (ground arith))
          | inr new ↦
              let k = i - length xs in
              let where_ : slot c h.start i ≡ slot (length r.data_) at k =
                slot-later c h.start (length xs) i h.inside (ground arith) (ground (arith, both))
                ∙ ap (λ a. slot c a k) (sym placed)
                ∙ ap (λ m. slot m at k) (sym h.sized) in
              ap (get_elem? (write_around r.data_ at ys)) where_
              ∙ write_around-new r.data_ ys at k below (omega (arith, h.sized))
                  (ground (arith, both))
              ∙ sym (get_back xs ys i (ground arith))
        ];
      }

  -- The ring after its first bytes are read.
  taken_off :
      (r : RingBuffer B) (xs : List B) (n : ℕ) (h : Holds r xs)
      → n ≤ length xs
      → Holds (record r { tail = add64 r.tail n }) (drop n xs)
  taken_off r xs n h some_left =
      let c = 2 ^ h.bits in
      let (lap', at) =
        add64-slot h.bits h.lap h.start n h.narrow h.inside (omega (arith, h.fits))
          (omega (arith, h.tail_at, h.tail_small)) in
      let left_over = length-drop n xs in
      record {
        bits = h.bits;
        lap = lap';
        start = slot c h.start n;
        narrow = h.narrow;
        sized = h.sized;
        masked = h.masked;
        inside = slot-inside c h.start n h.inside (omega (arith, h.fits));
        tail_at = ap (λ t. add64 t n) h.tail_at ∙ at;
        tail_small = omega arith;
        head_at = omega (arith, h.head_at, left_over, h.tail_small);
        fits = omega (arith, left_over, h.fits);
        cells = λ i low.
            let further : slot c h.start (n + i) ≡ slot c (slot c h.start n) i =
              slot-later c h.start n (n + i) h.inside (omega arith)
                (omega (arith, left_over, h.fits))
              ∙ ap (slot c (slot c h.start n)) (omega arith) in
            ap (get_elem? r.data_) (sym further)
            ∙ h.cells (n + i) (omega (arith, left_over))
            ∙ sym (get_elem?-drop xs n i);
      }

  -- The bytes that a read copies.
  copied_out :
      (r : RingBuffer B) (xs : List B) (n : ℕ) (h : Holds r xs)
      → n ≤ length xs
      → read_around r.data_ (bit_and r.tail r.mask) n ≡ take n xs
  copied_out r xs n h some_left =
      let placed = tail_place r xs h in
      let at_start : h.start < length r.data_ = omega (arith, h.inside, h.sized) in
      let small : n ≤ length r.data_ = omega (arith, h.fits, h.sized) in
      let count = length-take xs n some_left in
      ap (λ a. read_around r.data_ a n) placed
      ∙ same_elements (read_around r.data_ h.start n) (take n xs)
          (length-read_around r.data_ h.start n at_start small ∙ sym count)
          (λ i low.
            get_elem?-read_around r.data_ h.start n i at_start small (omega (arith, count))
            ∙ ap (λ m. get_elem? r.data_ (slot m h.start i)) h.sized
            ∙ h.cells i (omega (arith, count))
            ∙ sym (get_elem?-take xs n i (omega (arith, count))))

  -- On a ring that holds some bytes, try_write takes as many of the bytes as there is room for: they
  -- are then the last of those that it holds.
  pub try_write-Holds :
      (bytes : List B) (r : RingBuffer B) (xs : List B) (h : Holds r xs)
      → ((try_write bytes r).0 ≡ min (length bytes) (2 ^ h.bits - length xs))
        × Holds (try_write bytes r).1 (xs ++ take (try_write bytes r).0 bytes)
  unfolding try_write
  try_write-Holds bytes r xs h =
      let n = min (length bytes) (available_write r) in
      let room = available_write-Holds r xs h in
      elim (Bool-cases (n == 0)) [
        | inl full ↦ rw full (ground (arith, room), subst (Holds r) (sym (append-nil xs)) h)
        | inr free ↦ rw free (
          omega (arith, room),
          subst
              (λ m.
                Holds
                  (record r {
                    data_ = write_around r.data_ (bit_and r.head r.mask) (take n bytes);
                    head = add64 r.head m;
                  })
                  (xs ++ take n bytes))
              (length-take bytes n (omega arith))
              (written r xs (take n bytes) h
                (omega (arith, length-take bytes n (omega arith), room, h.fits))),
        )
      ]

  -- On a ring that holds some bytes, try_read gives the first of them, as many as fit into the buffer,
  -- and the ring holds the others.
  pub try_read-Holds :
      (size : ℕ) (r : RingBuffer B) (xs : List B)
      → Holds r xs
      → ((try_read size r).0 ≡ take (min size (length xs)) xs)
        × Holds (try_read size r).1 (drop (min size (length xs)) xs)
  unfolding try_read
  try_read-Holds size r xs h =
      let n = min size (length xs) in
      let counted : min size (available_read r) ≡ n = ap (min size) (available_read-Holds r xs h) in
      rw counted (elim (Bool-cases (n == 0)) [
        | inl empty ↦ let zero_left : n ≡ 0 = ground arith in rw empty (rw zero_left (refl, h))
        | inr some_left ↦
            rw some_left (copied_out r xs n h (omega arith), taken_off r xs n h (omega arith))
      ])

  -- The bytes held and those that a write takes.
  abbrev pub held_after : List B → RingBuffer B → List B → List B
  held_after bytes r xs = xs ++ take ((try_write bytes r).0) bytes

  -- On a ring that holds some bytes, try_write takes as many bytes as there is room for, and a
  -- try_read after it gives the first of the held and the taken bytes, as many as fit into its buffer;
  -- the ring then holds the others.
  pub try_write-try_read :
      (bytes : List B) (size : ℕ) (r : RingBuffer B) (xs : List B) (h : Holds r xs)
      → ((try_write bytes r).0 ≡ min (length bytes) (2 ^ h.bits - length xs))
        × ((try_read size (try_write bytes r).1).0
            ≡ take (min size (length (held_after bytes r xs))) (held_after bytes r xs))
        × Holds
            (try_read size (try_write bytes r).1).1
            (drop (min size (length (held_after bytes r xs))) (held_after bytes r xs))
  try_write-try_read bytes size r xs h =
      let wrote = try_write-Holds bytes r xs h in
      let got =
        try_read-Holds size (try_write bytes r).1 (xs ++ take ((try_write bytes r).0) bytes)
          wrote.1 in
      (wrote.0, got.0, got.1)
