-- ===== src/Reporting/Config/Texts.antt =====
-- The searches in a text that Config of reporting/src/config.cpp makes, on texts put together.
use velox_quant.Base.{
  ℕ, ◌==◌, ◌≡◌, refl, sym, ap, ◌∙◌, Bool, true, false, if◌then◌else◌, Bool-cases, inl, inr, none,
  some, [], ◌∷◌, ◌++◌, append_assoc, append-nil, arith,
}
use velox_quant.Reporting.Config.{
  Text, newline, colon, is_empty, trim_front, trim_back, trim, before, after, indent, lines_of,
}

unfoldable pub absent : ℕ → Text → Bool
absent c [] = true
absent c (d ∷ ds) = let rest = absent c ds in if d == c then false else rest

pub absent-append :
    (c : ℕ) (a b : Text) → absent c a ≡ true → absent c b ≡ true → absent c (a ++ b) ≡ true
unfolding absent
absent-append c [] b h k = k
absent-append c (d ∷ ds) b h k = ground (arith, absent-append c ds b)

pub present-append : (c : ℕ) (a b : Text) → absent c (a ++ c ∷ b) ≡ false
unfolding absent
present-append c [] b = ground arith
present-append c (d ∷ ds) b = ground (arith, present-append c ds b)

pub before-absent : (c : ℕ) (a : Text) → absent c a ≡ true → before c a ≡ a
unfolding absent before
before-absent c [] h = refl
before-absent c (d ∷ ds) h = ground (arith, before-absent c ds)

pub before-append : (c : ℕ) (a b : Text) → absent c a ≡ true → before c (a ++ c ∷ b) ≡ a
unfolding absent before
before-append c [] b h = ground arith
before-append c (d ∷ ds) b h = ground (arith, before-append c ds b)

pub after-append : (c : ℕ) (a b : Text) → absent c a ≡ true → after c (a ++ c ∷ b) ≡ some b
unfolding absent after
after-append c [] b h = ground arith
after-append c (d ∷ ds) b h = ground (arith, after-append c ds b)

-- A text with a character is what stands before its first one, that one and the rest.
pub before-after : (c : ℕ) (a b : Text) → after c a ≡ some b → before c a ++ c ∷ b ≡ a
unfolding before after
before-after c [] b h = absurd (let never : none ≡ some b = h in cc)
before-after c (d ∷ ds) b h = ground (arith, before-after c ds b)

pub lines_of-newline :
    (a b line : Text)
    → absent newline a ≡ true
    → lines_of (a ++ newline ∷ b) line ≡ (line ++ a) ∷ lines_of b []
unfolding absent lines_of
lines_of-newline [] b line h = ap (λ l. l ∷ lines_of b []) (sym (append-nil line))
lines_of-newline (d ∷ ds) b line h = elim (Bool-cases (d == newline)) [
  | inl here ↦ absurd (ground arith)
  | inr there ↦ rw there (
      lines_of-newline ds b (line ++ d ∷ []) (ground arith)
      ∙ ap (λ l. l ∷ lines_of b []) (append_assoc line (d ∷ []) ds))
]

-- A text with a colon is not blank.
present-trim_front : (s : Text) → absent colon s ≡ false → absent colon (trim_front s) ≡ false
unfolding absent trim_front
present-trim_front [] h = h
present-trim_front (c ∷ cs) h = ground (arith, present-trim_front cs)

present-trim_back : (s : Text) → absent colon s ≡ false → is_empty (trim_back s) ≡ false
unfolding absent trim_back is_empty
present-trim_back [] h = absurd (let never : true ≡ false = h in cc)
present-trim_back (c ∷ cs) h = ground (arith, present-trim_back cs)

pub present-trim : (a b : Text) → is_empty (trim (a ++ colon ∷ b)) ≡ false
unfolding trim
present-trim a b =
    present-trim_back (trim_front (a ++ colon ∷ b))
      (present-trim_front (a ++ colon ∷ b) (present-append colon a b))

pub indent-append : (a b : Text) → is_empty a ≡ false → indent a ≡ 0 → indent (a ++ b) ≡ 0
unfolding indent is_empty
indent-append [] b h k = absurd (let never : true ≡ false = h in cc)
indent-append (c ∷ cs) b h k = ground arith
