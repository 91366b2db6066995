-- ===== src/Networking/Ring/Copies.antt =====
-- What SpscRingBuffer reads from its cells, and lists put together.
use velox_quant.Base.{
  ℕ, zero, suc, ◌+◌, ◌-◌, ◌≤◌, ◌<◌, ltb, leb, ◌≡◌, refl, ap, ◌∙◌, true, Bool-cases, inl, inr, some,
  List, [], ◌∷◌, ◌++◌, length, length-append, length-drop, get_elem?, take, drop, arith,
}
use velox_quant.Networking.Ring.{copy_out, read_around}
use velox_quant.Networking.Ring.Cells.{slot, length-take, get_elem?-take, get_elem?-drop}

pub get_front {ℓ} :
    {B : Type ℓ} (xs ys : List B) (i : ℕ) → i < length xs → get_elem? (xs ++ ys) i ≡ get_elem? xs i
get_front [] ys i h = absurd (omega arith)
get_front (x ∷ xs) ys zero h = refl
get_front (x ∷ xs) ys (suc i) h = get_front xs ys i (omega arith)

pub get_back {ℓ} :
    {B : Type ℓ} (xs ys : List B) (i : ℕ)
    → length xs ≤ i
    → get_elem? (xs ++ ys) i ≡ get_elem? ys (i - length xs)
get_back [] ys i h = ap (get_elem? ys) (omega arith)
get_back (x ∷ xs) ys zero h = absurd (omega arith)
get_back (x ∷ xs) ys (suc i) h = get_back xs ys i (omega arith) ∙ ap (get_elem? ys) (omega arith)

module _ {ℓ} {B : Type ℓ} where
  -- Lists with the same elements are the same.
  pub same_elements :
      (xs ys : List B)
      → length xs ≡ length ys
      → ((i : ℕ) → i < length ys → get_elem? xs i ≡ get_elem? ys i)
      → xs ≡ ys
  same_elements [] [] e h = refl
  same_elements [] (y ∷ ys) e h = absurd (omega arith)
  same_elements (x ∷ xs) [] e h = absurd (omega arith)
  same_elements (x ∷ xs) (y ∷ ys) e h =
      let first : x ≡ y = (let whole : some x ≡ some y = h 0 (omega arith) in cc) in
      let rest = same_elements xs ys (omega (arith, e)) (λ i low. h (suc i) (omega arith)) in
      ap (λ t. t ∷ xs) first ∙ ap (◌∷◌ y) rest

  -- A read around the end gives the cells of its slots.
  pub length-read_around :
      (cells : List B) (at n : ℕ)
      → at < length cells
      → n ≤ length cells
      → length (read_around cells at n) ≡ n
  unfolding read_around copy_out
  length-read_around cells at n inside small =
      let wrap = length cells - at in
      let rear = length-drop at cells in
      elim (Bool-cases (leb n wrap)) [
        | inl one ↦ rw one (length-take (drop at cells) n (ground (arith, rear)))
        | inr two ↦ rw two (
            ground (
              arith,
              length-append (take wrap (drop at cells)) (take (n - wrap) cells),
              length-take (drop at cells) wrap (omega (arith, rear)),
              length-take cells (n - wrap) (ground arith),
            ))
      ]

  pub get_elem?-read_around :
      (cells : List B) (at n i : ℕ)
      → at < length cells
      → n ≤ length cells
      → i < n
      → get_elem? (read_around cells at n) i ≡ get_elem? cells (slot (length cells) at i)
  unfolding read_around copy_out
  get_elem?-read_around cells at n i inside small low =
      let wrap = length cells - at in
      let rear = length-drop at cells in
      elim (Bool-cases (leb n wrap)) [
        | inl one ↦
            let straight : ltb (at + i) (length cells) ≡ true = ground arith in
            rw one
              (rw straight (get_elem?-take (drop at cells) n i low ∙ get_elem?-drop cells at i))
        | inr two ↦
            let front = take wrap (drop at cells) in
            let back = take (n - wrap) cells in
            let front_length : length front ≡ wrap =
              length-take (drop at cells) wrap (omega (arith, rear)) in
            elim (Bool-cases (ltb (at + i) (length cells))) [
              | inl straight ↦ rw two (
                  rw straight (
                    get_front front back i (ground (arith, front_length))
                    ∙ get_elem?-take (drop at cells) wrap i (ground arith)
                    ∙ get_elem?-drop cells at i))
              | inr around ↦ rw two (
                  rw around (
                    get_back front back i (ground (arith, front_length))
                    ∙ get_elem?-take cells (n - wrap) (i - length front)
                        (ground (arith, front_length))
                    ∙ ap (get_elem? cells) (ground (arith, front_length))))
            ]
      ]
