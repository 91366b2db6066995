-- ===== src/MarketData/Store.antt =====
-- The searches of BinaryStore in market_data/src/binary_store.cpp, over the records of the mapped
-- file. `none` is a read beyond the records, or a search that is cut off.
pub mod Bounds
use velox_quant.Base.{
  true, false, ℕ, zero, suc, ◌+◌, ◌-◌, ◌/◌, ◌==◌, if◌then◌else◌, Option, none, some, List, length,
  get_elem?, ltb_ℤ, pos, ◌+ℤ◌,
}
use velox_quant.MarketData.Types.{Timestamp}

module _ {ℓ} {A : Type ℓ} (recv_ts : A → Timestamp) where
  -- The half that a round of the search keeps, as its first index and its count.
  unfoldable pub narrow : Timestamp → ℕ → ℕ → A → ℕ × ℕ
  narrow ts first count mid =
      if ltb_ℤ (recv_ts mid) ts
      then (first + count / 2 + 1, count - (count / 2 + 1))
      else (first, count / 2)

  unfoldable pub search : ℕ → List A → Timestamp → ℕ → ℕ → Option ℕ
  search zero records ts first count = none
  search (suc fuel) records ts first count = elim (count == 0) [
    | true ↦ some first
    | false ↦ elim (get_elem? records (first + count / 2)) [
      | none ↦ none
      | some mid ↦ let kept = narrow ts first count mid in search fuel records ts (kept.0) (kept.1)
    ]
  ]

  -- A round at least halves the count.
  unfoldable pub lower_bound : List A → Timestamp → Option ℕ
  lower_bound records ts = search (length records + 1) records ts 0 (length records)

  -- The record before an index, if there is one.
  unfoldable pub record_before : List A → ℕ → Option A
  record_before records zero = none
  record_before records (suc i) = get_elem? records i

  unfoldable pub last_at_or_before : List A → Timestamp → Option A
  last_at_or_before records ts = elim (lower_bound records (ts +ℤ pos 1)) [
    | none ↦ none
    | some i ↦ record_before records i
  ]
