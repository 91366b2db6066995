-- ===== src/Networking/Ring/Tests.antt =====
-- A ring of four bytes.
use velox_quant.Base.{ℕ, ◌≡◌, ◌-◌, ◌^◌, min, length, take, drop, refl, List, [], ◌∷◌, arith}
use velox_quant.Networking.Ring.{RingBuffer, new_ring, rounded, try_write, try_read}
use velox_quant.Networking.Ring.Fifo.{Holds, held_after, try_write-try_read}

abbrev four_bytes : RingBuffer ℕ
four_bytes = record { data_ = 0 ∷ 0 ∷ 0 ∷ 0 ∷ []; mask = 3; head = 0; tail = 0 }

-- The constructor rounds 3 up to 4.
four_bytes-new : new_ring 0 3 ≡ four_bytes
unfolding new_ring rounded
four_bytes-new = refl

abbrev four_bytes-Holds : Holds four_bytes []
four_bytes-Holds = record {
  bits = 2;
  lap = 0;
  start = 0;
  narrow = omega arith;
  sized = refl;
  masked = refl;
  inside = omega arith;
  tail_at = refl;
  tail_small = omega arith;
  head_at = refl;
  fits = omega arith;
  cells = λ i low. absurd (omega arith);
}

abbrev sent_bytes : List ℕ
sent_bytes = 5 ∷ 6 ∷ 7 ∷ []

try_write-try_read_example :
    ((try_write sent_bytes four_bytes).0 ≡ min 3 (2 ^ 2 - 0))
    × ((try_read 2 (try_write sent_bytes four_bytes).1).0
        ≡ take
            (min 2 (length (held_after sent_bytes four_bytes [])))
            (held_after sent_bytes four_bytes []))
    × Holds (try_read 2 (try_write sent_bytes four_bytes).1).1 (
        drop
          (min 2 (length (held_after sent_bytes four_bytes [])))
          (held_after sent_bytes four_bytes []))
try_write-try_read_example = try_write-try_read sent_bytes 2 four_bytes [] four_bytes-Holds
