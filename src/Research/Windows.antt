-- ===== src/Research/Windows.antt =====
-- make_windows of research/include/research/walk_forward.hpp and research/src/walk_forward.cpp.
-- A `size_t` is 64 bits wide, and wraps.
use velox_quant.Base.{
  ℕ, zero, suc, ◌+◌, ◌≤◌, ◌<◌, ◌≡◌, refl, Option, none, some, List, [], ◌∷◌, ltb, if◌then◌else◌,
  arith, ap, ◌∙◌, Bool-cases, inl, inr, add64, add64_exact, ◌^◌,
}

pub record WalkForwardConfig : Type 0 where
  pub train_bars : ℕ
  pub test_bars : ℕ
  pub step_bars : ℕ

pub record WalkForwardWindow : Type 0 where
  pub train_start : ℕ
  pub train_end : ℕ
  pub test_start : ℕ
  pub test_end : ℕ
  pub fold_idx : ℕ

unfoldable pub window_at : WalkForwardConfig → ℕ → ℕ → WalkForwardWindow
window_at cfg start fold = record {
  train_start = start;
  train_end = add64 start cfg.train_bars;
  test_start = add64 start cfg.train_bars;
  test_end = add64 (add64 start cfg.train_bars) cfg.test_bars;
  fold_idx = fold;
}

-- The loop; `none` where it is cut off, and where it never ends.
unfoldable pub windows_from : ℕ → WalkForwardConfig → ℕ → ℕ → ℕ → Option (List WalkForwardWindow)
windows_from zero cfg total start fold = none
windows_from (suc fuel) cfg total start fold =
    let rest = windows_from fuel cfg total (add64 start cfg.step_bars) (add64 fold 1) in
    if ltb total (add64 (add64 start cfg.train_bars) cfg.test_bars)
    then some []
    else elim rest [ none ↦ none | some wins ↦ some (window_at cfg start fold ∷ wins) ]

-- Every round moves the start on, if the step is positive and the start does not wrap.
unfoldable pub make_windows : WalkForwardConfig → ℕ → Option (List WalkForwardWindow)
make_windows cfg total =
    if ltb total (add64 cfg.train_bars cfg.test_bars)
    then some []
    else windows_from (total + 2) cfg total 0 0

-- The windows from a start on: each trains right before its test, ends in the data, and is one
-- step after the one before; no further window would fit.
abbrev pub Tiles : WalkForwardConfig → ℕ → ℕ → ℕ → List WalkForwardWindow → Type 0
Tiles cfg total start fold [] = total < start + cfg.train_bars + cfg.test_bars
Tiles cfg total start fold (w ∷ ws) =
    (w.train_start ≡ start)
    × (w.train_end ≡ w.train_start + cfg.train_bars)
    × (w.test_start ≡ w.train_end)
    × (w.test_end ≡ w.test_start + cfg.test_bars)
    × (w.test_end ≤ total)
    × (w.fold_idx ≡ fold)
    × Tiles cfg total (start + cfg.step_bars) (fold + 1) ws

-- The sizes are small enough that no sum of an index and them wraps.
pub record NoWrap (cfg : WalkForwardConfig) (total : ℕ) : Type 0 where
  pub window : cfg.train_bars + cfg.test_bars < 2 ^ 64
  pub last_step : total + cfg.step_bars < 2 ^ 64

-- The sums of a start from which a window fits, or that is one step after such a start.
sums_exact :
    (cfg : WalkForwardConfig) (total start : ℕ)
    → start + cfg.train_bars + cfg.test_bars < 2 ^ 64
    → (add64 start cfg.train_bars ≡ start + cfg.train_bars)
      × (add64 (add64 start cfg.train_bars) cfg.test_bars ≡ start + cfg.train_bars + cfg.test_bars)
sums_exact cfg total start small =
    let first : add64 start cfg.train_bars ≡ start + cfg.train_bars =
      add64_exact start cfg.train_bars (omega arith) in
    (first, rw first (add64_exact (start + cfg.train_bars) cfg.test_bars small))

windows_from-Tiles :
    (fuel : ℕ) (cfg : WalkForwardConfig) (total start fold : ℕ)
    → 0 < cfg.step_bars
    → NoWrap cfg total
    → start + cfg.train_bars + cfg.test_bars ≤ total + cfg.step_bars
    → fold ≤ start
    → total + 2 ≤ fuel + start
    → 0 < fuel
    → (ws : List WalkForwardWindow) × (windows_from fuel cfg total start fold ≡ some ws)
      × Tiles cfg total start fold ws
unfolding windows_from window_at
windows_from-Tiles zero cfg total start fold moves small near counts enough some_fuel =
    absurd (omega arith)
windows_from-Tiles (suc fuel) cfg total start fold moves small near counts enough some_fuel =
    let (trained, tested) = sums_exact cfg total start (omega (arith, small.last_step, near)) in
    elim (Bool-cases (ltb total (add64 (add64 start cfg.train_bars) cfg.test_bars))) [
      | inl over ↦ ([], rw over refl, ground (arith, tested))
      | inr room ↦
          let fits : start + cfg.train_bars + cfg.test_bars ≤ total = ground (arith, tested) in
          let moved : add64 start cfg.step_bars ≡ start + cfg.step_bars =
            add64_exact start cfg.step_bars (omega (arith, small.last_step)) in
          let counted : add64 fold 1 ≡ fold + 1 =
            add64_exact fold 1 (omega (arith, small.last_step)) in
          let (ws, eq, t) =
            windows_from-Tiles fuel cfg total (start + cfg.step_bars) (fold + 1) moves small
              (omega arith) (omega arith) (omega arith) (omega arith) in
          let from_next : windows_from fuel cfg total (add64 start cfg.step_bars) (add64 fold 1)
              ≡ some ws =
            ap (λ s. windows_from fuel cfg total s (add64 fold 1)) moved
            ∙ ap (windows_from fuel cfg total (start + cfg.step_bars)) counted
            ∙ eq in
          (
            window_at cfg start fold ∷ ws,
            rw room (rw from_next refl),
            (refl, trained, refl, omega (arith, tested, trained), omega (arith, tested), refl, t),
          )
    ]

-- With a positive step and sizes of which no sum wraps, `make_windows` ends, and its windows cover the
-- data from the start: each trains right before its test, ends in the data, and is one step after the
-- one before; no further window would fit.
pub make_windows-Tiles :
    (cfg : WalkForwardConfig) (total : ℕ)
    → 0 < cfg.step_bars
    → NoWrap cfg total
    → (ws : List WalkForwardWindow) × (make_windows cfg total ≡ some ws) × Tiles cfg total 0 0 ws
unfolding make_windows
make_windows-Tiles cfg total moves small =
    let whole : add64 cfg.train_bars cfg.test_bars ≡ cfg.train_bars + cfg.test_bars =
      add64_exact cfg.train_bars cfg.test_bars small.window in
    elim (Bool-cases (ltb total (add64 cfg.train_bars cfg.test_bars))) [
      | inl over ↦ ([], rw over refl, ground (arith, whole))
      | inr room ↦
          let (ws, eq, t) =
            windows_from-Tiles (total + 2) cfg total 0 0 moves small (ground (arith, whole))
              (omega arith) (omega arith) (omega arith) in
          (ws, rw room eq, t)
    ]
