-- ===== src/MarketData/Store/Bounds.antt =====
-- The binary search finds the boundary between the records before a time and those from it on.
use velox_quant.Base.{
  ℕ, zero, suc, ◌+◌, ◌-◌, ◌/◌, ◌≤◌, ◌<◌, ◌≡◌, refl, sym, subst, false, ◌==◌, Option, none, some,
  List, [], ◌∷◌, length, All, get_elem?, ◌≤ℤ◌, ◌<ℤ◌, ltb_ℤ, ltb_ℤ→lt, ltb_ℤ→ge, arith, Bool-cases,
  inl, inr, pos, ◌+ℤ◌,
}
use velox_quant.MarketData.Types.{Timestamp}
use velox_quant.MarketData.Store.{narrow, search, lower_bound, record_before, last_at_or_before}

module _ {ℓ} {A : Type ℓ} where
  pub get_elem?-inside : (xs : List A) (i : ℕ) → i < length xs → (a : A) × (get_elem? xs i ≡ some a)
  get_elem?-inside [] i h = absurd (omega arith)
  get_elem?-inside (x ∷ xs) zero h = (x, refl)
  get_elem?-inside (x ∷ xs) (suc i) h = get_elem?-inside xs i (omega arith)

  pub get_elem?-bound : (xs : List A) (i : ℕ) (a : A) → get_elem? xs i ≡ some a → i < length xs
  get_elem?-bound [] i a h = absurd (let no : none ≡ some a = h in cc)
  get_elem?-bound (x ∷ xs) zero a h = omega arith
  get_elem?-bound (x ∷ xs) (suc i) a h = omega (arith, get_elem?-bound xs i a h)

module _ {ℓ} {A : Type ℓ} (recv_ts : A → Timestamp) where
  -- The records are in the order of their time.
  abbrev pub Sorted : List A → Type ℓ
  Sorted xs =
      (i j : ℕ) (a b : A)
      → i ≤ j
      → get_elem? xs i ≡ some a
      → get_elem? xs j ≡ some b
      → recv_ts a ≤ℤ recv_ts b

  -- All before `first` are before the time, and all from `last` on are not.
  pub record Splits (xs : List A) (ts : Timestamp) (first last : ℕ) : Type ℓ where
    pub before : (j : ℕ) (a : A) → j < first → get_elem? xs j ≡ some a → recv_ts a <ℤ ts
    pub after : (j : ℕ) (a : A) → last ≤ j → get_elem? xs j ≡ some a → ts ≤ℤ recv_ts a

  pub search-Splits :
      (fuel : ℕ) (xs : List A) (ts : Timestamp) (first count : ℕ)
      → Sorted xs
      → first + count ≤ length xs
      → count < fuel
      → Splits xs ts first (first + count)
      → (i : ℕ) × (search recv_ts fuel xs ts first count ≡ some i)
        × (first ≤ i)
        × (i ≤ first + count)
        × Splits xs ts i i
  unfolding search narrow
  search-Splits zero xs ts first count sorted fits more s = absurd (omega arith)
  search-Splits (suc fuel) xs ts first zero sorted fits more s = (
    first,
    refl,
    omega arith,
    omega arith,
    record { before = s.before; after = λ j a h found. s.after j a (omega arith) found },
  )
  search-Splits (suc fuel) xs ts first (suc count) sorted fits more s =
      let half = suc count / 2 in
      let counting : (suc count == 0) ≡ false = ground arith in
      let (mid, found) = get_elem?-inside xs (first + half) (omega arith) in
      elim (Bool-cases (ltb_ℤ (recv_ts mid) ts)) [
        | inl early ↦
            let (i, eq, low, high, out) =
              search-Splits fuel xs ts (first + half + 1) (suc count - (half + 1)) sorted
                (omega arith) (omega arith)
                (record {
                  before = λ j a h at. omega (
                    arith,
                    sorted j (first + half) a mid (omega arith) at found,
                    ltb_ℤ→lt (recv_ts mid) ts early,
                  );
                  after = λ j a h at. s.after j a (omega arith) at;
                }) in
            (i, rw (counting, search) (rw found (rw early eq)), omega arith, omega arith, out)
        | inr late ↦
            let (i, eq, low, high, out) =
              search-Splits fuel xs ts first half sorted (omega arith) (omega arith) (record {
                before = s.before;
                after = λ j a h at. omega (
                  arith,
                  sorted (first + half) j mid a (omega arith) found at,
                  ltb_ℤ→ge (recv_ts mid) ts late,
                );
              }) in
            (i, rw (counting, search) (rw found (rw late eq)), omega arith, omega arith, out)
      ]

  -- On records in the order of their time, the search ends with the index that has the records
  -- before the time below it, and all others from it on.
  pub lower_bound-Splits :
      (xs : List A) (ts : Timestamp)
      → Sorted xs
      → (i : ℕ) × (lower_bound recv_ts xs ts ≡ some i) × (i ≤ length xs) × Splits xs ts i i
  unfolding lower_bound
  lower_bound-Splits xs ts sorted =
      let (i, eq, _, high, out) =
        search-Splits (length xs + 1) xs ts 0 (length xs) sorted (omega arith) (omega arith)
          (record {
            before = λ j a h at. absurd (omega arith);
            after = λ j a h at. absurd (omega (arith, get_elem?-bound xs j a at));
          }) in
      (i, eq, omega (arith, high), out)

  -- What `last_at_or_before` gives: nothing, if every record is later than the time; or a record
  -- that is not later, behind which all are.
  abbrev pub Latest : List A → Timestamp → Option A → Type ℓ
  Latest xs ts none = (j : ℕ) (a : A) → get_elem? xs j ≡ some a → ts <ℤ recv_ts a
  Latest xs ts (some r) =
      (i : ℕ) × (get_elem? xs i ≡ some r)
      × (recv_ts r ≤ℤ ts)
      × ((j : ℕ) (a : A) → i < j → get_elem? xs j ≡ some a → ts <ℤ recv_ts a)

  -- On records in the order of their time, `last_at_or_before` gives the last record that is not
  -- later than the time, and nothing only if all are later.
  pub last_at_or_before-Latest :
      (xs : List A) (ts : Timestamp) → Sorted xs → Latest xs ts (last_at_or_before recv_ts xs ts)
  unfolding last_at_or_before record_before ◌+ℤ◌
  last_at_or_before-Latest xs ts sorted =
      let (i, eq, high, s) = lower_bound-Splits xs (ts +ℤ pos 1) sorted in
      let is : last_at_or_before recv_ts xs ts ≡ record_before recv_ts xs i =
        rw (eq, last_at_or_before) refl in
      subst (Latest xs ts) (sym is) (latest i high s)
    where
      latest :
          (i : ℕ)
          → i ≤ length xs
          → Splits xs (ts +ℤ pos 1) i i
          → Latest xs ts (record_before recv_ts xs i)
      latest zero high s = λ j a at. ground (arith, s.after j a (omega arith) at)
      latest (suc i) high s =
          let (r, at) = get_elem?-inside xs i (omega arith) in
          let same = sym at in
          subst (Latest xs ts) same (
            i,
            at,
            ground (arith, s.before i r (omega arith) at),
            λ j a h found. ground (arith, s.after j a (omega arith) found),
          )

  All-get_elem? :
      (P : A → Type 0) (xs : List A) (i : ℕ) (a : A) → All P xs → get_elem? xs i ≡ some a → P a
  All-get_elem? P [] i a h at = absurd (let no : none ≡ some a = at in cc)
  All-get_elem? P (x ∷ xs) zero a h at =
      let same : x ≡ a = (let is : some x ≡ some a = at in cc) in subst P same h.0
  All-get_elem? P (x ∷ xs) (suc i) a h at = All-get_elem? P xs i a h.1 at

  -- A record before others that are in order.
  pub Sorted-cons :
      (x : A) (xs : List A) → All (λ a. recv_ts x ≤ℤ recv_ts a) xs → Sorted xs → Sorted (x ∷ xs)
  Sorted-cons x xs h s zero zero a b le at bt =
      let first : x ≡ a = (let is : some x ≡ some a = at in cc) in
      let second : x ≡ b = (let is : some x ≡ some b = bt in cc) in
      subst (λ u. recv_ts u ≤ℤ recv_ts b) first
        (subst (λ u. recv_ts x ≤ℤ recv_ts u) second (omega arith))
  Sorted-cons x xs h s zero (suc j) a b le at bt =
      let first : x ≡ a = (let is : some x ≡ some a = at in cc) in
      subst (λ u. recv_ts u ≤ℤ recv_ts b) first
        (All-get_elem? (λ u. recv_ts x ≤ℤ recv_ts u) xs j b h bt)
  Sorted-cons x xs h s (suc i) zero a b le at bt = absurd (omega arith)
  Sorted-cons x xs h s (suc i) (suc j) a b le at bt = s i j a b (omega arith) at bt
