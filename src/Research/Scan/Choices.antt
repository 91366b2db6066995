-- ===== src/Research/Scan/Choices.antt =====
-- The odometer of research/src/parameter_scan.cpp runs through the choices of one value from each range.
use velox_quant.Base.{
  ℕ, zero, suc, ◌<◌, ◌≤◌, ◌≡◌, ltb, refl, ap, sym, ◌∙◌, Bool, true, if◌then◌else◌, Bool-cases, inl,
  inr, List, [], ◌∷◌, ◌++◌, length, get_or, map, drop, arith, subst,
}
use velox_quant.Research.Scan.{increment, values_at}

module _ {ℓ} {V : Type ℓ} where
  -- Each of the first values before each choice of the others.
  unfoldable pub before_each : List V → List (List V) → List (List V)
  before_each [] choices = []
  before_each (v ∷ vs) choices = map (λ c. v ∷ c) choices ++ before_each vs choices

  -- The choices of one value from each range, in the order of the ranges.
  unfoldable pub product : List (List V) → List (List V)
  product [] = [] ∷ []
  product (r ∷ more) = before_each r (product more)

  -- The choices from a reading of the odometer on.
  pub rest : V → List (List V) → List ℕ → List (List V)
  rest junk [] idx = [] ∷ []
  rest junk (r ∷ more) [] = []
  rest junk (r ∷ more) (i ∷ idx) =
      map (λ c. get_or r i junk ∷ c) (rest junk more idx)
      ++ before_each (drop (suc i) r) (product more)

  -- A reading has an index into each range.
  unfoldable pub Reads : List (List V) → List ℕ → Type 0
  Reads [] [] = Unit
  Reads [] (i ∷ idx) = ⊥
  Reads (r ∷ more) [] = ⊥
  Reads (r ∷ more) (i ∷ idx) = (i < length r) × Reads more idx

  unfoldable pub zeros : List (List V) → List ℕ
  zeros [] = []
  zeros (r ∷ more) = 0 ∷ zeros more

  pub rest-zeros :
      (junk : V) (ranges : List (List V))
      → Reads ranges (zeros ranges)
      → rest junk ranges (zeros ranges) ≡ product ranges
  unfolding rest zeros product before_each Reads
  rest-zeros junk [] h = refl
  rest-zeros junk ([] ∷ more) h = absurd (omega (arith, h.0))
  rest-zeros junk ((v ∷ vs) ∷ more) h =
      ap (λ c. map (λ t. v ∷ t) c ++ before_each vs (product more)) (rest-zeros junk more h.1)

  drop-next :
      (r : List V) (i : ℕ) (junk : V) → i < length r → drop i r ≡ get_or r i junk ∷ drop (suc i) r
  drop-next [] i junk h = absurd (omega arith)
  drop-next (x ∷ xs) zero junk h = refl
  drop-next (x ∷ xs) (suc i) junk h = drop-next xs i junk (omega arith)

  -- A carry leaves the first dimension exactly when all indices start again.
  carry-zeros :
      (ranges : List (List V)) (idx : List ℕ)
      → Reads ranges idx
      → (increment ranges idx).1 ≡ true
      → (increment ranges idx).0 ≡ zeros ranges
  unfolding increment zeros Reads
  carry-zeros [] [] h c = refl
  carry-zeros [] (i ∷ idx) h c = absurd h
  carry-zeros (r ∷ more) [] h c = absurd h
  carry-zeros (r ∷ more) (i ∷ idx) h c = ground (arith, carry-zeros more idx h.1)

  -- The next reading, if there is one, is a reading again.
  pub Reads-increment :
      (ranges : List (List V)) (idx : List ℕ)
      → Reads ranges idx
      → Reads ranges (increment ranges idx).0
  unfolding increment Reads
  Reads-increment [] [] h = tt
  Reads-increment [] (i ∷ idx) h = absurd h
  Reads-increment (r ∷ more) [] h = absurd h
  Reads-increment (r ∷ more) (i ∷ idx) h =
      let later = Reads-increment more idx h.1 in
      elim (Bool-cases (increment more idx).1) [
        | inr stays ↦ rw stays (h.0, later)
        | inl carries ↦ elim (Bool-cases (ltb (suc i) (length r))) [
          | inl within ↦ rw (carries, within) (ground arith, later)
          | inr ends ↦ rw (carries, ends) (omega (arith, h.0), later)
        ]
      ]

  drop-all : (r : List V) (i : ℕ) → length r ≤ i → drop i r ≡ []
  drop-all [] zero h = refl
  drop-all [] (suc i) h = refl
  drop-all (x ∷ xs) zero h = absurd (omega arith)
  drop-all (x ∷ xs) (suc i) h = drop-all xs i (omega arith)

  -- The choices with a later value of the first range are what is left once the others start again.
  others-next :
      (junk : V) (r : List V) (more : List (List V)) (i : ℕ) (idx : List ℕ)
      → i < length r
      → idx ≡ zeros more
      → Reads more idx
      → before_each (drop i r) (product more) ≡ rest junk (r ∷ more) (i ∷ idx)
  unfolding rest before_each
  others-next junk r more i idx inside e h =
      let first : before_each (drop i r) (product more)
          ≡ map (λ c. get_or r i junk ∷ c) (product more)
            ++ before_each (drop (suc i) r) (product more) =
        ap (λ t. before_each t (product more)) (drop-next r i junk inside) in
      let again : rest junk more idx ≡ product more =
        ap (rest junk more) e ∙ rest-zeros junk more (subst (Reads more) e h) in
      first
      ∙ sym (
          ap (λ t. map (λ c. get_or r i junk ∷ c) t ++ before_each (drop (suc i) r) (product more))
            again)

  -- What is left from a reading on is its choice, and what is left from the next one on.
  pub rest-step :
      (junk : V) (ranges : List (List V)) (idx : List ℕ)
      → Reads ranges idx
      → rest junk ranges idx
        ≡ values_at junk ranges idx
          ∷ (if (increment ranges idx).1 then [] else rest junk ranges (increment ranges idx).0)
  unfolding increment Reads rest values_at before_each
  rest-step junk [] [] h = refl
  rest-step junk [] (i ∷ idx) h = absurd h
  rest-step junk (r ∷ more) [] h = absurd h
  rest-step junk (r ∷ more) (i ∷ idx) h =
      let others = before_each (drop (suc i) r) (product more) in
      let later = rest-step junk more idx h.1 in
      let extend : List (List V) → List (List V) =
        λ cs. map (λ c. get_or r i junk ∷ c) cs ++ others in
      let after : Bool → List (List V) =
        λ b. values_at junk more idx ∷ (if b then [] else rest junk more (increment more idx).0) in
      elim (Bool-cases (increment more idx).1) [
        | inr stays ↦ rw stays (ap extend (later ∙ ap after stays))
        | inl carries ↦
            let alone : extend (rest junk more idx)
                ≡ (get_or r i junk ∷ values_at junk more idx) ∷ others =
              ap extend (later ∙ ap after carries) in
            elim (Bool-cases (ltb (suc i) (length r))) [
              | inl within ↦
                  rw (carries, within)
                    (alone
                      ∙ ap (λ t. (get_or r i junk ∷ values_at junk more idx) ∷ t)
                          (others-next junk r more (suc i) (increment more idx).0 (ground arith)
                            (carry-zeros more idx h.1 carries) (Reads-increment more idx h.1)))
              | inr ends ↦
                  rw (carries, ends)
                    (alone
                      ∙ ap (λ t. (get_or r i junk ∷ values_at junk more idx) ∷ t)
                          (ap (λ t. before_each t (product more))
                            (drop-all r (suc i) (ground arith))))
            ]
      ]
