-- ===== src/Reporting/Config/RoundTrip.antt =====
-- Config::parse reads back what Config::dump of reporting/src/config.cpp writes.
use velox_quant.Base.{
  ℕ, ◌≡◌, refl, sym, ap, ◌∙◌, subst, true, Bool-cases, Option-cases, inl, inr, Option, none, some,
  [], ◌∷◌, ◌++◌, append_assoc, append-nil, All, arith,
}
use velox_quant.Reporting.Config.{
  Text, Store, Parsing, newline, space, colon, dot, is_empty, eqb_text, set, get_string, before,
  after, lines_of, parse_line, parse_lines, parse, dump_entry, dump,
}
use velox_quant.Reporting.Config.Texts.{absent, absent-append, before-after, lines_of-newline}
use velox_quant.Reporting.Config.Lines.{
  IsName, IsValue, parse_line-plain, parse_line-section, parse_line-inner,
}

abbrev pub KeyParts : Text → Option Text → Type 0
KeyParts key none = IsName key
KeyParts key (some rest) = IsName (before dot key) × IsName rest

-- An entry whose key and value are read back as they are: the key has one part, or a section and a
-- part.
unfoldable pub IsEntry : Text × Text → Type 0
IsEntry (key, value) = IsValue value × KeyParts key (after dot key)

-- The first line of an entry of two, apart from what follows.
two_lines :
    (section inner rest : Text) (x y n : ℕ) (more : Text)
    → section ++ (x ∷ y ∷ inner) ++ rest ++ (n ∷ []) ++ more
      ≡ (section ++ x ∷ []) ++ y ∷ (inner ++ rest ++ n ∷ more)
two_lines [] inner rest x y n more =
    ap (λ t. x ∷ y ∷ t) (append_assoc (inner ++ rest) (n ∷ []) more)
two_lines (c ∷ cs) inner rest x y n more = ap (λ t. c ∷ t) (two_lines cs inner rest x y n more)

parse_first :
    (line more : Text) (s s' : Parsing)
    → absent newline line ≡ true
    → parse_line line s ≡ s'
    → parse_lines (lines_of (line ++ newline ∷ more) []) s ≡ parse_lines (lines_of more []) s'
unfolding parse_lines
parse_first line more s s' one_line read =
    ap (λ l. parse_lines l s) (lines_of-newline line more [] one_line)
    ∙ ap (parse_lines (lines_of more [])) read

plain_line :
    (key value : Text)
    → IsName key
    → IsValue value
    → absent newline (key ++ colon ∷ space ∷ value) ≡ true
unfolding absent
plain_line key value name ok =
    absent-append newline key (colon ∷ space ∷ value) name.one_line (ground (arith, ok.one_line))

section_line : (name : Text) → IsName name → absent newline (name ++ colon ∷ []) ≡ true
unfolding absent
section_line name ok = absent-append newline name (colon ∷ []) ok.one_line (ground arith)

inner_line :
    (key value : Text)
    → IsName key
    → IsValue value
    → absent newline (space ∷ space ∷ key ++ colon ∷ space ∷ value) ≡ true
unfolding absent
inner_line key value name ok = ground (arith, plain_line key value name ok)

-- What an entry of the printed text does to the parser.
parse_lines-entry :
    (key value more : Text) (s : Parsing)
    → IsEntry (key, value)
    → (s' : Parsing) × (parse_lines (lines_of (dump_entry key value ++ more) []) s
        ≡ parse_lines (lines_of more []) s')
      × (s'.store ≡ set key value s.store)
unfolding IsEntry dump_entry
parse_lines-entry key value more s ok = elim (Option-cases (after dot key)) [
  | inl whole ↦
      let name : IsName key = subst (KeyParts key) whole ok.1 in
      let line = key ++ colon ∷ space ∷ value in
      let printed : dump_entry key value ≡ line ++ newline ∷ [] = rw (whole, dump_entry) refl in
      (
        record s { store = set key value s.store },
        ap (λ t. parse_lines (lines_of (t ++ more) []) s) printed
            ∙ ap (λ t. parse_lines (lines_of t []) s) (append_assoc line (newline ∷ []) more)
            ∙ parse_first line more s (record s { store = set key value s.store })
                (plain_line key value name ok.0) (parse_line-plain key value s name ok.0),
        refl,
      )
  | inr (rest, parts) ↦
      let names : IsName (before dot key) × IsName rest = subst (KeyParts key) parts ok.1 in
      let section = before dot key in
      let inner = space ∷ space ∷ rest ++ colon ∷ space ∷ value in
      let printed : dump_entry key value
          ≡ section
            ++ (colon ∷ newline ∷ space ∷ space ∷ rest)
            ++ (colon ∷ space ∷ value)
            ++ (newline ∷ []) =
        rw (parts, dump_entry) refl in
      let opened : Parsing = record s { section = section } in
      let stored : Parsing = record opened { store = set (section ++ dot ∷ rest) value s.store } in
      (
        stored,
        ap (λ t. parse_lines (lines_of (t ++ more) []) s) printed
            ∙ ap (λ t. parse_lines (lines_of t []) s)
                (two_lines section (space ∷ space ∷ rest) (colon ∷ space ∷ value) colon newline
                  newline more)
            ∙ parse_first (section ++ colon ∷ []) (inner ++ newline ∷ more) s opened
                (section_line section names.0) (parse_line-section section s names.0)
            ∙ parse_first inner more opened stored (inner_line rest value names.1 ok.0)
                (parse_line-inner rest value opened names.1 ok.0 (names.0).filled),
        ap (λ k. set k value s.store) (before-after dot key rest parts),
      )
]

-- The keys are new one after the other.
unfoldable pub Fresh : Store → Store → Type 0
Fresh done [] = Unit
Fresh done ((key, value) ∷ more) =
    (get_string key done ≡ none) × Fresh (done ++ (key, value) ∷ []) more

set-new :
    (key value : Text) (store : Store)
    → get_string key store ≡ none
    → set key value store ≡ store ++ (key, value) ∷ []
unfolding set get_string
set-new key value [] h = refl
set-new key value ((k, v) ∷ more) h = elim (Bool-cases (eqb_text k key)) [
  | inl same ↦ absurd (ground arith)
  | inr other ↦ rw other (ap (λ t. (k, v) ∷ t) (set-new key value more (ground arith)))
]

parse_lines-dump :
    (entries done : Store) (s : Parsing)
    → All IsEntry entries
    → Fresh done entries
    → s.store ≡ done
    → (parse_lines (lines_of (dump entries) []) s).store ≡ done ++ entries
unfolding dump Fresh lines_of parse_lines is_empty
parse_lines-dump [] done s ok fresh e = e ∙ sym (append-nil done)
parse_lines-dump ((key, value) ∷ more) done s ok fresh e =
    let (s', read, stored) = parse_lines-entry key value (dump more) s ok.0 in
    let added : s'.store ≡ done ++ (key, value) ∷ [] =
      stored ∙ ap (set key value) e ∙ set-new key value done fresh.0 in
    ap (λ t. t.store) read
    ∙ parse_lines-dump more (done ++ (key, value) ∷ []) s' ok.1 fresh.1 added
    ∙ append_assoc done ((key, value) ∷ []) more

-- A configuration is read back as it was printed, if its keys differ, each key is a name or a section
-- and a name, and no value is empty, quoted, more than a line, with a hash sign or with white space at
-- its ends.
pub parse-dump : (store : Store) → All IsEntry store → Fresh [] store → parse (dump store) ≡ store
unfolding parse
parse-dump store ok fresh =
    parse_lines-dump store [] (record { section = []; store = [] }) ok fresh refl
