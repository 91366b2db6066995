-- ===== src/Networking/Ring/Cells.antt =====
-- The cells of SpscRingBuffer after a write, and what a read takes from them.
use velox_quant.Base.{
  ℕ, zero, suc, ◌+◌, ◌-◌, ◌≤◌, ◌<◌, ◌==◌, ltb, leb, ◌≡◌, refl, sym, ap, ◌∙◌, true, false,
  if◌then◌else◌, Bool-cases, inl, inr, some, List, [], ◌∷◌, length, length-set, length-drop,
  get_elem?, take, drop, set, arith,
}
use velox_quant.Networking.Ring.{copy_in, write_around}

-- The cell of the i-th slot from a start, around the end.
abbrev pub slot : ℕ → ℕ → ℕ → ℕ
slot size start i = if ltb (start + i) size then start + i else start + i - size

the_same : (at : ℕ) → at + 0 ≡ at
the_same at = omega arith

one_on : (at k : ℕ) → at + suc k ≡ at + 1 + k
one_on at k = omega arith

from_zero : (k : ℕ) → k ≡ 0 + k
from_zero k = omega arith

suc_on : (n i : ℕ) → suc n + i ≡ suc (n + i)
suc_on n i = omega arith

module _ {ℓ} {B : Type ℓ} where
  get_elem?-set :
      (xs : List B) (i j : ℕ) (v : B)
      → i < length xs
      → get_elem? (set xs i v) j ≡ (if i == j then some v else get_elem? xs j)
  get_elem?-set [] i j v h = absurd (omega arith)
  get_elem?-set (x ∷ xs) zero zero v h = refl
  get_elem?-set (x ∷ xs) zero (suc j) v h = ground arith
  get_elem?-set (x ∷ xs) (suc i) zero v h = ground arith
  get_elem?-set (x ∷ xs) (suc i) (suc j) v h = ground (arith, get_elem?-set xs i j v)

  pub length-copy_in :
      (cells : List B) (at : ℕ) (bytes : List B) → length (copy_in cells at bytes) ≡ length cells
  unfolding copy_in
  length-copy_in cells at [] = refl
  length-copy_in cells at (b ∷ more) =
      length-copy_in (set cells at b) (at + 1) more ∙ length-set cells at b

  -- A copy changes the cells from its index on, as many as there are bytes, and no other.
  kept_before :
      (cells : List B) (at : ℕ) (bytes : List B) (j : ℕ)
      → at + length bytes ≤ length cells
      → j < at
      → get_elem? (copy_in cells at bytes) j ≡ get_elem? cells j
  unfolding copy_in
  kept_before cells at [] j fits low = refl
  kept_before cells at (b ∷ more) j fits low =
      let others : (at == j) ≡ false = ground arith in
      kept_before (set cells at b) (at + 1) more j (omega (arith, length-set cells at b))
        (omega arith)
      ∙ get_elem?-set cells at j b (omega arith)
      ∙ rw others refl

  kept_after :
      (cells : List B) (at : ℕ) (bytes : List B) (j : ℕ)
      → at + length bytes ≤ length cells
      → at + length bytes ≤ j
      → get_elem? (copy_in cells at bytes) j ≡ get_elem? cells j
  unfolding copy_in
  kept_after cells at [] j fits high = refl
  kept_after cells at (b ∷ more) j fits high =
      let others : (at == j) ≡ false = ground arith in
      kept_after (set cells at b) (at + 1) more j (omega (arith, length-set cells at b))
        (omega arith)
      ∙ get_elem?-set cells at j b (omega arith)
      ∙ rw others refl

  copied :
      (cells : List B) (at : ℕ) (bytes : List B) (k : ℕ)
      → at + length bytes ≤ length cells
      → k < length bytes
      → get_elem? (copy_in cells at bytes) (at + k) ≡ get_elem? bytes k
  unfolding copy_in
  copied cells at [] k fits low = absurd (omega arith)
  copied cells at (b ∷ more) zero fits low =
      let here : (at == at) ≡ true = ground arith in
      ap (get_elem? (copy_in (set cells at b) (at + 1) more)) (the_same at)
      ∙ kept_before (set cells at b) (at + 1) more at (omega (arith, length-set cells at b))
          (omega arith)
      ∙ get_elem?-set cells at at b (omega arith)
      ∙ rw here refl
  copied cells at (b ∷ more) (suc k) fits low =
      ap (get_elem? (copy_in (set cells at b) (at + 1) more)) (one_on at k)
      ∙ copied (set cells at b) (at + 1) more k (omega (arith, length-set cells at b)) (omega arith)

  pub get_elem?-take : (xs : List B) (n i : ℕ) → i < n → get_elem? (take n xs) i ≡ get_elem? xs i
  get_elem?-take xs zero i h = absurd (omega arith)
  get_elem?-take [] (suc n) i h = refl
  get_elem?-take (x ∷ xs) (suc n) zero h = refl
  get_elem?-take (x ∷ xs) (suc n) (suc i) h = get_elem?-take xs n i (omega arith)

  pub get_elem?-drop : (xs : List B) (n i : ℕ) → get_elem? (drop n xs) i ≡ get_elem? xs (n + i)
  get_elem?-drop xs zero i = ap (get_elem? xs) (omega arith)
  get_elem?-drop [] (suc n) i = refl
  get_elem?-drop (x ∷ xs) (suc n) i =
      get_elem?-drop xs n i ∙ sym (ap (get_elem? (x ∷ xs)) (suc_on n i))

  pub length-take : (xs : List B) (n : ℕ) → n ≤ length xs → length (take n xs) ≡ n
  length-take xs zero h = refl
  length-take [] (suc n) h = absurd (omega arith)
  length-take (x ∷ xs) (suc n) h = ap suc (length-take xs n (omega arith))

  -- A write around the end puts its bytes into the slots from its index on.
  pub write_around-new :
      (cells bytes : List B) (at i : ℕ)
      → at < length cells
      → length bytes ≤ length cells
      → i < length bytes
      → get_elem? (write_around cells at bytes) (slot (length cells) at i) ≡ get_elem? bytes i
  unfolding write_around
  write_around-new cells bytes at i inside fits low =
      let wrap = length cells - at in
      let front = take wrap bytes in
      let back = drop wrap bytes in
      elim (Bool-cases (leb (length bytes) wrap)) [
        | inl one ↦
            let straight : ltb (at + i) (length cells) ≡ true = ground arith in
            rw one (rw straight (copied cells at bytes i (ground arith) low))
        | inr two ↦
            let front_length : length front ≡ wrap = length-take bytes wrap (ground arith) in
            let back_length : length back ≡ length bytes - wrap = length-drop wrap bytes in
            let same = length-copy_in cells at front in
            elim (Bool-cases (ltb (at + i) (length cells))) [
              | inl straight ↦ rw two (
                  rw straight (
                    kept_after (copy_in cells at front) 0 back (at + i) (ground arith)
                      (ground arith)
                    ∙ copied cells at front i (omega (arith, front_length)) (ground arith)
                    ∙ get_elem?-take bytes wrap i (ground arith)))
              | inr around ↦
                  let k = at + i - length cells in
                  rw two (
                    rw around (
                      ap (get_elem? (copy_in (copy_in cells at front) 0 back)) (from_zero k)
                      ∙ copied (copy_in cells at front) 0 back k (ground arith) (ground arith)
                      ∙ get_elem?-drop bytes wrap k
                      ∙ ap (get_elem? bytes) (ground arith)))
            ]
      ]

  pub write_around-old :
      (cells bytes : List B) (at i : ℕ)
      → at < length cells
      → length bytes ≤ i
      → i < length cells
      → get_elem? (write_around cells at bytes) (slot (length cells) at i)
        ≡ get_elem? cells (slot (length cells) at i)
  unfolding write_around
  write_around-old cells bytes at i inside low high =
      let wrap = length cells - at in
      let front = take wrap bytes in
      let back = drop wrap bytes in
      elim (Bool-cases (leb (length bytes) wrap)) [
        | inl one ↦ elim (Bool-cases (ltb (at + i) (length cells))) [
          | inl straight ↦
              rw one (rw straight (kept_after cells at bytes (at + i) (ground arith) (omega arith)))
          | inr around ↦ rw one (
              rw around
                (kept_before cells at bytes (at + i - length cells) (ground arith) (ground arith)))
        ]
        | inr two ↦
            let front_length : length front ≡ wrap = length-take bytes wrap (ground arith) in
            let back_length : length back ≡ length bytes - wrap = length-drop wrap bytes in
            let same = length-copy_in cells at front in
            let around : ltb (at + i) (length cells) ≡ false = ground arith in
            rw two (
              rw around (
                kept_after (copy_in cells at front) 0 back (at + i - length cells) (ground arith)
                  (ground arith)
                ∙ kept_before cells at front (at + i - length cells) (omega (arith, front_length))
                    (ground arith)))
      ]

  pub length-write_around :
      (cells bytes : List B) (at : ℕ) → length (write_around cells at bytes) ≡ length cells
  unfolding write_around
  length-write_around cells bytes at =
      let wrap = length cells - at in
      elim (Bool-cases (leb (length bytes) wrap)) [
        | inl one ↦ rw one (length-copy_in cells at bytes)
        | inr two ↦ rw two (
            length-copy_in (copy_in cells at (take wrap bytes)) 0 (drop wrap bytes)
            ∙ length-copy_in cells at (take wrap bytes))
      ]
