-- ===== src/Networking/Ring/Counters.antt =====
-- Where the counters of SpscRingBuffer stand in the array, also once they have wrapped.
use velox_quant.Base.{
  ℕ, suc, ◌+◌, ◌-◌, ◌*◌, ◌^◌, ◌≤◌, ◌<◌, ltb, ◌≡◌, refl, ap, ◌∙◌, Bool-cases, inl, inr, ◌⊎◌, add64,
  u64_mod, arith,
}
use Prim.Native.Nat.{bit_and}
use native.Mathlib.Nat.{mul-le-mul_left, pow-le-pow_right}
use velox_quant.Base.Mask.{bit_and-mask, power-power}
use velox_quant.Networking.Ring.Cells.{slot}

laps : (c lap m : ℕ) → lap < m → lap * c + c ≤ m * c
laps c lap m h = let le : c * suc lap ≤ c * m = mul-le-mul_left c h in grind arith

fewer_laps : (c m lap start : ℕ) → lap * c + start < m * c → lap < m
fewer_laps c m lap start h = elim (Bool-cases (ltb lap m)) [
  | inl fine ↦ ground arith
  | inr wrong ↦ let le : c * m ≤ c * lap = mul-le-mul_left c (ground arith) in absurd (grind arith)
]

-- A counter moved on by at most one lap stands at the slot, or has wrapped to it.
moved :
    (c m lap start count : ℕ)
    → start < c
    → count ≤ c
    → lap * c + start < m * c
    → (lap' : ℕ) × (((lap * c + start + count < m * c)
          × (lap * c + start + count ≡ lap' * c + slot c start count))
        ⊎ ((lap' ≡ 0) × (lap * c + start + count ≡ m * c + slot c start count)))
moved c m lap start count inside small wide =
    let less = fewer_laps c m lap start wide in
    let room = laps c lap m less in
    elim (Bool-cases (ltb (start + count) c)) [
      | inl here ↦ (lap, inl (ground (arith, room), ground arith))
      | inr next ↦
          let turn : suc lap * c ≡ lap * c + c = grind arith in
          elim (Bool-cases (ltb (suc lap) m)) [
            | inl more ↦
                (suc lap, inl (ground (arith, laps c (suc lap) m (ground arith)), ground arith))
            | inr last ↦
                let all : m ≡ suc lap = ground arith in
                (0, inr (refl, ground (arith, ap (λ n. n * c) all)))
          ]
    ]

-- The counter after an addition, in laps of the array, and its place in the array.
pub add64-slot :
    (k lap start count : ℕ)
    → k ≤ 63
    → start < 2 ^ k
    → count ≤ 2 ^ k
    → lap * 2 ^ k + start < u64_mod
    → (lap' : ℕ) × (add64 (lap * 2 ^ k + start) count ≡ lap' * 2 ^ k + slot (2 ^ k) start count)
add64-slot k lap start count narrow inside small wide =
    let wider : k ≤ 64 = omega arith in
    let under : 2 ^ k ≤ 2 ^ 64 = pow-le-pow_right (omega arith) wider in
    let (m, whole) = power-power 64 k under in
    let smaller : 2 ^ k ≤ 2 ^ 63 = pow-le-pow_right (omega arith) narrow in
    let (lap', which) = moved (2 ^ k) m lap start count inside small (omega (arith, whole)) in
    elim which [
      | inl within ↦ (lap', omega (arith, within.0, within.1, whole))
      | inr wrapped ↦ (0, ground (arith, wrapped.1, whole, smaller))
    ]

-- The mask finds the place of a counter.
pub bit_and-place :
    (k lap start counter : ℕ)
    → start < 2 ^ k
    → counter ≡ lap * 2 ^ k + start
    → bit_and counter (2 ^ k - 1) ≡ start
bit_and-place k lap start counter inside e =
    ap (λ n. bit_and n (2 ^ k - 1)) e ∙ bit_and-mask k lap start inside

-- The slots behind a place that is itself some slots behind another.
pub slot-later :
    (c start count i : ℕ)
    → start < c
    → count ≤ i
    → i < c
    → slot c start i ≡ slot c (slot c start count) (i - count)
slot-later c start count i inside low high = ground arith

pub slot-earlier :
    (c start count i : ℕ)
    → start < c
    → i < count
    → count ≤ c
    → slot c start i ≡ slot c (slot c start count) (i + c - count)
slot-earlier c start count i inside low high = ground arith

pub slot-inside : (c start i : ℕ) → start < c → i ≤ c → slot c start i < c
slot-inside c start i inside small = ground arith
