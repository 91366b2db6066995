-- ===== src/EventCore/Spsc/Refine.antt =====
-- The ring is a bounded queue: the items from the read position on, less than the capacity of them.
use Prim.Native.Nat.{bit_and}
use velox_quant.Base.{
  ℕ, zero, suc, ◌+◌, ◌-◌, ◌*◌, ◌^◌, ◌≤◌, ◌<◌, ◌≡◌, ◌≢◌, refl, sym, ◌∙◌, ap, true, false,
  if◌then◌else◌, ◌==◌, ltb, none, some, List, [], ◌∷◌, ◌++◌, length, length-append, length-set,
  get_elem?, set, replicate, sub64, arith, Bool-cases, inl, inr, ◌⊎◌,
}
use velox_quant.Base.Mask.{bit_and-mask, power_positive, power-power, bit_and-above}
use velox_quant.EventCore.Spsc.{
  SpscQueue, fresh, make, next, enqueue, dequeue, take_slot, size, empty,
}

-- A position past the end starts over.
abbrev pub wrap : ℕ → ℕ → ℕ
wrap cap x = if ltb x cap then x else x - cap

factor_positive : (m c : ℕ) → 2 ^ 64 ≡ m * c → 0 < m
factor_positive zero c e = absurd (omega arith)
factor_positive (suc m) c e = omega arith

mask-wrap : (k x : ℕ) → x < 2 ^ k + 2 ^ k → bit_and x (2 ^ k - 1) ≡ wrap (2 ^ k) x
mask-wrap k x h = elim (Bool-cases (ltb x (2 ^ k))) [
  | inl low ↦ ground (arith, bit_and-mask k 0 x)
  | inr high ↦ ground (arith, bit_and-mask k 1 (x - 2 ^ k))
]

module _ {ℓ} {A : Type ℓ} where
  get_elem?-set_self :
      (xs : List A) (i : ℕ) (v : A) → i < length xs → get_elem? (set xs i v) i ≡ some v
  get_elem?-set_self [] i v h = absurd (omega arith)
  get_elem?-set_self (x ∷ xs) zero v h = refl
  get_elem?-set_self (x ∷ xs) (suc i) v h = get_elem?-set_self xs i v (omega arith)

  get_elem?-set_other :
      (xs : List A) (i j : ℕ) (v : A) → i ≢ j → get_elem? (set xs i v) j ≡ get_elem? xs j
  get_elem?-set_other [] i j v h = refl
  get_elem?-set_other (x ∷ xs) zero zero v h = absurd (h refl)
  get_elem?-set_other (x ∷ xs) zero (suc j) v h = refl
  get_elem?-set_other (x ∷ xs) (suc i) zero v h = refl
  get_elem?-set_other (x ∷ xs) (suc i) (suc j) v h = get_elem?-set_other xs i j v (omega arith)

  get_elem?-last : (xs : List A) (v : A) → get_elem? (xs ++ v ∷ []) (length xs) ≡ some v
  get_elem?-last [] v = refl
  get_elem?-last (x ∷ xs) v = get_elem?-last xs v

  get_elem?-before :
      (xs ys : List A) (i : ℕ) → i < length xs → get_elem? (xs ++ ys) i ≡ get_elem? xs i
  get_elem?-before [] ys i h = absurd (omega arith)
  get_elem?-before (x ∷ xs) ys zero h = refl
  get_elem?-before (x ∷ xs) ys (suc i) h = get_elem?-before xs ys i (omega arith)

  length-replicate : (n : ℕ) (a : A) → length (replicate n a) ≡ n
  length-replicate zero a = refl
  length-replicate (suc n) a = ap suc (length-replicate n a)

module _ {ℓ} {A : Type ℓ} where
  -- The queue `q` holds `items`, the next to leave first.
  pub record Holds (q : SpscQueue A) (items : List A) : Type ℓ where
    pub exponent : ℕ
    pub power : q.capacity ≡ 2 ^ exponent
    pub whole : length q.slots ≡ q.capacity
    pub fits : length items < q.capacity
    pub reader : q.read_pos < q.capacity
    pub writer : q.write_pos ≡ wrap q.capacity (q.read_pos + length items)
    pub each :
        (i : ℕ) (a : A)
        → get_elem? items i ≡ some a
        → get_elem? q.slots (wrap q.capacity (q.read_pos + i))
          ≡ some (record { value = a; ready = true })

  next-wrap :
      (q : SpscQueue A) (items : List A) (x : ℕ)
      → Holds q items
      → x < q.capacity
      → next q x ≡ wrap q.capacity (x + 1)
  next-wrap q items x v h =
      let p : x + 1 < 2 ^ v.exponent + 2 ^ v.exponent = omega (arith, v.power, v.reader) in
      rw v.power (mask-wrap v.exponent (x + 1) p)

  next_write :
      (q : SpscQueue A) (items : List A)
      → Holds q items
      → next q q.write_pos ≡ wrap q.capacity (q.read_pos + length items + 1)
  next_write q items v =
      next-wrap q items q.write_pos v (ground (arith, v.writer, v.reader, v.fits))
      ∙ ground (arith, v.writer, v.reader, v.fits)

  get_elem?-some : (xs : List A) (i : ℕ) (a : A) → get_elem? xs i ≡ some a → i < length xs
  get_elem?-some [] i a h = absurd (let no : none ≡ some a = h in cc)
  get_elem?-some (x ∷ xs) zero a h = omega arith
  get_elem?-some (x ∷ xs) (suc i) a h = omega (arith, get_elem?-some xs i a h)

  -- The queue after a successful `enqueue`.
  pub enqueued :
      (value : A) (q : SpscQueue A) (items : List A)
      → Holds q items
      → length items + 1 < q.capacity
      → Holds
          (record q {
            slots = set q.slots q.write_pos (record { value = value; ready = true });
            write_pos = next q q.write_pos;
          })
          (items ++ value ∷ [])
  enqueued value q items v space = record {
    exponent = v.exponent;
    power = v.power;
    whole = length-set q.slots q.write_pos _ ∙ v.whole;
    fits = omega (arith, length-append items (value ∷ []));
    reader = v.reader;
    writer =
        next_write q items v
        ∙ ap (wrap q.capacity) (omega (arith, length-append items (value ∷ [])));
    each = λ i a found. elim (Bool-cases (ltb i (length items))) [
      | inl old ↦
          let before : i < length items = ground arith in
          let apart : q.write_pos ≢ wrap q.capacity (q.read_pos + i) =
            ground (arith, v.writer, v.reader, v.fits) in
          get_elem?-set_other q.slots q.write_pos _ _ apart
          ∙ v.each i a (sym (get_elem?-before items (value ∷ []) i before) ∙ found)
      | inr new_one ↦
          let last : i ≡ length items = ground (
            arith,
            get_elem?-some (items ++ value ∷ []) i a found,
            length-append items (value ∷ []),
          ) in
          let here : wrap q.capacity (q.read_pos + i) ≡ q.write_pos = rw last (sym v.writer) in
          let is : some value ≡ some a =
            sym (get_elem?-last items value) ∙ sym (rw last refl) ∙ found in
          let same : value ≡ a = cc in
          rw here (
            get_elem?-set_self q.slots q.write_pos _
              (ground (arith, v.writer, v.reader, v.fits, v.whole))
            ∙ ap (λ x. some (record { value = x; ready = true })) same)
    ];
  }

  -- Enqueueing succeeds exactly while less than `capacity - 1` items are held; then the item is the
  -- last of them. At `capacity - 1` items it fails and changes nothing.
  pub enqueue-Holds :
      (value : A) (q : SpscQueue A) (items : List A)
      → Holds q items
      → ((length items + 1 < q.capacity)
          × ((enqueue value q).0 ≡ true)
          × Holds (enqueue value q).1 (items ++ value ∷ []))
        ⊎ ((length items + 1 ≡ q.capacity) × (enqueue value q ≡ (false, q)))
  unfolding enqueue
  enqueue-Holds value q items v = elim (Bool-cases (ltb (length items + 1) q.capacity)) [
    | inr full ↦
        let same : (next q q.write_pos == q.read_pos) ≡ true =
          ground (arith, next_write q items v, v.reader, v.fits) in
        inr (ground (arith, v.fits), rw same refl)
    | inl space ↦
        let other : (next q q.write_pos == q.read_pos) ≡ false =
          ground (arith, next_write q items v, v.reader, v.fits) in
        inl (ground arith, rw other refl, rw other (enqueued value q items v (ground arith)))
  ]

  -- The queue after a successful `dequeue`.
  dequeued :
      (a : A) (q : SpscQueue A) (items : List A)
      → Holds q (a ∷ items)
      → Holds
          (record q {
            slots = set q.slots q.read_pos (record { value = a; ready = false });
            read_pos = next q q.read_pos;
          })
          items
  dequeued a q items v =
      let along : next q q.read_pos ≡ wrap q.capacity (q.read_pos + 1) =
        next-wrap q (a ∷ items) q.read_pos v v.reader in
      record {
        exponent = v.exponent;
        power = v.power;
        whole = length-set q.slots q.read_pos _ ∙ v.whole;
        fits = omega (arith, v.fits);
        reader = ground (arith, along, v.reader);
        writer = v.writer ∙ ground (arith, along, v.reader, v.fits);
        each = λ i x found.
            let inside = get_elem?-some items i x found in
            let moved : wrap q.capacity (next q q.read_pos + i)
                ≡ wrap q.capacity (q.read_pos + suc i) =
              ground (arith, along, v.reader, v.fits, inside) in
            let apart : q.read_pos ≢ wrap q.capacity (q.read_pos + suc i) =
              ground (arith, v.reader, v.fits, inside) in
            rw moved (get_elem?-set_other q.slots q.read_pos _ _ apart ∙ v.each (suc i) x found);
      }

  -- Dequeueing gives the first item and keeps the rest; of no items it gives nothing, and changes
  -- nothing.
  pub dequeue-Holds :
      (q : SpscQueue A) (items : List A)
      → Holds q items
      → ((items ≡ []) × (dequeue q ≡ (none, q)))
        ⊎ ((a : A) × (rest : List A) × (items ≡ a ∷ rest)
            × ((dequeue q).0 ≡ some a)
            × Holds (dequeue q).1 rest)
  unfolding dequeue take_slot
  dequeue-Holds q [] v =
      let same : (q.read_pos == q.write_pos) ≡ true = ground (arith, v.writer, v.reader) in
      inl (refl, rw same refl)
  dequeue-Holds q (a ∷ rest) v =
      let other : (q.read_pos == q.write_pos) ≡ false =
        ground (arith, v.writer, v.reader, v.fits) in
      let at : wrap q.capacity (q.read_pos + 0) ≡ q.read_pos = ground (arith, v.reader) in
      let front : get_elem? q.slots q.read_pos ≡ some (record { value = a; ready = true }) =
        rw at at (v.each 0 a refl) in
      inr (a, rest, refl, rw other (rw front refl), rw other (rw front (dequeued a q rest v)))

  pub fresh-Holds : (blank : A) (k : ℕ) → Holds (fresh blank (2 ^ k)) []
  fresh-Holds blank k = record {
    exponent = k;
    power = refl;
    whole = length-replicate (2 ^ k) _;
    fits = power_positive k;
    reader = power_positive k;
    writer = ground (arith, power_positive k);
    each = λ i a h. absurd (let no : none ≡ some a = h in cc);
  }

  -- The constructor accepts every power of two, and the queue is then empty.
  pub make-Holds :
      (blank : A) (k : ℕ)
      → (q : SpscQueue A) × (make blank (2 ^ k) ≡ some q) × (q.capacity ≡ 2 ^ k) × Holds q []
  unfolding make
  make-Holds blank k =
      let not_zero : (2 ^ k == 0) ≡ false = ground (arith, power_positive k) in
      let power_of_two : (bit_and (2 ^ k) (2 ^ k - 1) == 0) ≡ true =
        ground (arith, power_positive k, bit_and-mask k 1 0) in
      (fresh blank (2 ^ k), rw not_zero (rw power_of_two refl), refl, fresh-Holds blank k)

  size_mask :
      (q : SpscQueue A) (items : List A) (v : Holds q items)
      → q.capacity ≤ 2 ^ 64
      → bit_and (sub64 q.write_pos q.read_pos) (2 ^ v.exponent - 1) ≡ length items
  size_mask q items v h = elim (Bool-cases (ltb (q.read_pos + length items) q.capacity)) [
    | inl straight ↦
        let it : sub64 q.write_pos q.read_pos ≡ 0 * 2 ^ v.exponent + length items =
          ground (arith, v.writer, v.fits, v.reader) in
        rw it (bit_and-mask v.exponent 0 (length items) (omega (arith, v.fits, v.power)))
    | inr around ↦
        let (m, e) = power-power 64 v.exponent (omega (arith, v.power)) in
        let it : sub64 q.write_pos q.read_pos ≡ m * 2 ^ v.exponent - 2 ^ v.exponent + length items =
          ground (arith, v.writer, v.fits, v.reader, v.power, e) in
        rw it (
          bit_and-above v.exponent m (length items) (omega (arith, v.fits, v.power))
            (factor_positive m _ e))
  ]

  -- For a capacity of at most 2^64, the size is the number of items held, also where the write position has wrapped below the read
  -- position.
  pub size-Holds :
      (q : SpscQueue A) (items : List A)
      → Holds q items
      → q.capacity ≤ 2 ^ 64
      → (size q ≡ length items) × (empty q ≡ (length items == 0))
  unfolding size empty
  size-Holds q items v h =
      (rw v.power (size_mask q items v h), ground (arith, v.writer, v.reader, v.fits))
