-- ===== src/Reporting/Config/Lines.antt =====
-- What Config::parse of reporting/src/config.cpp makes of the lines of a printed entry.
use velox_quant.Base.{ℕ, suc, ◌≡◌, refl, ap, ◌∙◌, true, false, [], ◌∷◌, ◌++◌, length, drop, arith}
use velox_quant.Reporting.Config.{
  Text, Parsing, newline, space, hash, colon, dot, is_empty, set, trim_front, trim_back, trim,
  before, indent, is_quoted, unquote, flat_key, enter, parse_content, parse_line,
}
use velox_quant.Reporting.Config.Texts.{
  absent, absent-append, before-absent, before-append, after-append, present-trim, indent-append,
}

-- A part of a key: no character with a meaning, no white space at its ends, and not empty.
pub record IsName (a : Text) : Type 0 where
  pub one_line : absent newline a ≡ true
  pub no_comment : absent hash a ≡ true
  pub no_colon : absent colon a ≡ true
  pub trimmed : trim a ≡ a
  pub at_start : indent a ≡ 0
  pub filled : is_empty a ≡ false

pub record IsValue (v : Text) : Type 0 where
  pub one_line : absent newline v ≡ true
  pub no_comment : absent hash v ≡ true
  pub trimmed : trim v ≡ v
  pub filled : is_empty v ≡ false
  pub unquoted : is_quoted v ≡ false

-- A line with a colon, behind as much indentation as it has.
parse_line-colon :
    (front key rest : Text) (s : Parsing)
    → absent hash (front ++ key ++ colon ∷ rest) ≡ true
    → indent (front ++ key ++ colon ∷ rest) ≡ length front
    → absent colon key ≡ true
    → parse_line (front ++ key ++ colon ∷ rest) s ≡ enter (length front) (trim key) (trim rest) s
unfolding parse_line parse_content
parse_line-colon front key rest s plain depth no_colon =
    let line = front ++ key ++ colon ∷ rest in
    let kept : before hash line ≡ line = before-absent hash line plain in
    let shown : is_empty (trim line) ≡ false = present-trim (front ++ key) rest in
    rw kept (
      rw (shown, depth)
        (rw (drop_front front key (colon ∷ rest)) (
          rw (after-append colon key rest no_colon, parse_content)
            (rw (before-append colon key rest no_colon) refl))))
  where
    drop_front : (a b c : Text) → drop (length a) (a ++ b ++ c) ≡ b ++ c
    drop_front [] b c = refl
    drop_front (x ∷ xs) b c = drop_front xs b c

trim-space : (v : Text) → trim (space ∷ v) ≡ trim v
unfolding trim trim_front
trim-space v = refl

-- The line of an entry stores its value under its key.
enter-value :
    (depth : ℕ) (key value : Text) (s : Parsing)
    → IsValue value
    → enter depth key value s
      ≡ record s { store = set (flat_key depth s.section key) value s.store }
unfolding enter unquote
enter-value depth key value s ok = rw (ok.filled, ok.unquoted) refl

-- A key of one part.
pub parse_line-plain :
    (key value : Text) (s : Parsing)
    → IsName key
    → IsValue value
    → parse_line (key ++ colon ∷ space ∷ value) s ≡ record s { store = set key value s.store }
unfolding flat_key absent
parse_line-plain key value s name ok =
    parse_line-colon [] key (space ∷ value) s
      (absent-append hash key (colon ∷ space ∷ value) name.no_comment
        (ground (arith, ok.no_comment)))
      (indent-append key (colon ∷ space ∷ value) name.filled name.at_start) name.no_colon
    ∙ rw (name.trimmed, trim-space value) (rw ok.trimmed (enter-value 0 key value s ok))

-- The two lines of a key with a section.
pub parse_line-section :
    (name : Text) (s : Parsing)
    → IsName name
    → parse_line (name ++ colon ∷ []) s ≡ record s { section = name }
unfolding enter trim trim_front trim_back is_empty absent
parse_line-section name s ok =
    parse_line-colon [] name [] s
      (absent-append hash name (colon ∷ []) ok.no_comment (ground arith))
      (indent-append name (colon ∷ []) ok.filled ok.at_start) ok.no_colon
    ∙ ap (λ k. record s { section = k }) ok.trimmed

pub parse_line-inner :
    (key value : Text) (s : Parsing)
    → IsName key
    → IsValue value
    → is_empty s.section ≡ false
    → parse_line (space ∷ space ∷ key ++ colon ∷ space ∷ value) s
      ≡ record s { store = set (s.section ++ dot ∷ key) value s.store }
unfolding flat_key absent indent
parse_line-inner key value s name ok inside =
    parse_line-colon (space ∷ space ∷ []) key (space ∷ value) s
      (absent-append hash key (colon ∷ space ∷ value) name.no_comment
        (ground (arith, ok.no_comment)))
      (ap (λ n. suc (suc n)) (indent-append key (colon ∷ space ∷ value) name.filled name.at_start))
      name.no_colon
    ∙ rw (name.trimmed, trim-space value)
        (rw ok.trimmed (enter-value 2 key value s ok ∙ rw inside refl))
