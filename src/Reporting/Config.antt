-- ===== src/Reporting/Config.antt =====
-- Config of reporting/include/reporting/config.hpp and reporting/src/config.cpp: the parser of a part
-- of YAML, its printer, and the accessors. A text is the list of the codes of its characters.
pub mod RoundTrip
pub mod Lines
mod Tests
pub mod Texts
use velox_quant.Base.{
  ℕ, zero, suc, ◌+◌, ◌==◌, ltb, leb, length, Bool, true, false, not, ◌&&◌, ◌||◌, if◌then◌else◌,
  Option, none, some, List, [], ◌∷◌, ◌++◌, drop,
}

abbrev pub Text : Type 0
Text = List ℕ

abbrev pub newline : ℕ
newline = 10

abbrev pub space : ℕ
space = 32

abbrev pub hash : ℕ
hash = 35

abbrev pub colon : ℕ
colon = 58

abbrev pub dot : ℕ
dot = 46

abbrev pub is_white : ℕ → Bool
is_white c = (c == space) || (c == 9) || (c == 13) || (c == newline)

unfoldable pub is_empty : Text → Bool
is_empty [] = true
is_empty (c ∷ cs) = false

unfoldable pub eqb_text : Text → Text → Bool
eqb_text [] [] = true
eqb_text [] (d ∷ ds) = false
eqb_text (c ∷ cs) [] = false
eqb_text (c ∷ cs) (d ∷ ds) = (c == d) && eqb_text cs ds

-- The map of the configuration: an entry that is there is replaced in its place.
abbrev pub Store : Type 0
Store = List (Text × Text)

unfoldable pub set : Text → Text → Store → Store
set key value [] = (key, value) ∷ []
set key value ((k, v) ∷ more) =
    if eqb_text k key then (key, value) ∷ more else (k, v) ∷ set key value more

unfoldable pub get_string : Text → Store → Option Text
get_string key [] = none
get_string key ((k, v) ∷ more) =
    let later = get_string key more in if eqb_text k key then some v else later

unfoldable pub trim_front : Text → Text
trim_front [] = []
trim_front (c ∷ cs) = let rest = trim_front cs in if is_white c then rest else c ∷ cs

unfoldable pub trim_back : Text → Text
trim_back [] = []
trim_back (c ∷ cs) = let rest = trim_back cs in if is_empty rest && is_white c then [] else c ∷ rest

unfoldable pub trim : Text → Text
trim s = trim_back (trim_front s)

-- The text before the first of a character, and what follows that one if it is there.
unfoldable pub before : ℕ → Text → Text
before c [] = []
before c (d ∷ ds) = let rest = before c ds in if d == c then [] else d ∷ rest

unfoldable pub after : ℕ → Text → Option Text
after c [] = none
after c (d ∷ ds) = let rest = after c ds in if d == c then some ds else rest

-- `find_first_not_of(' ')` of a line that is not blank
unfoldable pub indent : Text → ℕ
indent [] = 0
indent (c ∷ cs) = let rest = indent cs in if c == space then suc rest else 0

-- The lines that `getline` gives; nothing behind the last newline is no line.
unfoldable pub lines_of : Text → Text → List Text
lines_of [] line = if is_empty line then [] else line ∷ []
lines_of (c ∷ cs) line =
    let next = lines_of cs [] in
    let same = lines_of cs (line ++ c ∷ []) in if c == newline then line ∷ next else same

-- `value.front()` and `value.back()`
unfoldable pub last_char : ℕ → Text → ℕ
last_char c [] = c
last_char c (d ∷ ds) = last_char d ds

unfoldable pub without_last : Text → Text
without_last [] = []
without_last (c ∷ []) = []
without_last (c ∷ d ∷ ds) = c ∷ without_last (d ∷ ds)

unfoldable pub is_quoted : Text → Bool
is_quoted [] = false
is_quoted (c ∷ []) = false
is_quoted (c ∷ d ∷ ds) =
    ((c == 34) && (last_char d ds == 34)) || ((c == 39) && (last_char d ds == 39))

unfoldable pub unquote : Text → Text
unquote value = if is_quoted value then without_last (drop 1 value) else value

-- The section that the parser is in, and what it has stored.
pub record Parsing : Type 0 where
  pub section : Text
  pub store : Store

unfoldable pub flat_key : ℕ → Text → Text → Text
flat_key depth section key =
    if ltb 0 depth && not (is_empty section) then section ++ dot ∷ key else key

-- A key with its value: without one it opens a section, at the start of the line only.
unfoldable pub enter : ℕ → Text → Text → Parsing → Parsing
enter depth key value s =
    if is_empty value
    then (if depth == 0 then record s { section = key } else s)
    else record s { store = set (flat_key depth s.section key) (unquote value) s.store }

unfoldable pub parse_content : ℕ → Text → Parsing → Parsing
parse_content depth content s = elim (after colon content) [
  | none ↦ s
  | some rest ↦ enter depth (trim (before colon content)) (trim rest) s
]

unfoldable pub parse_line : Text → Parsing → Parsing
parse_line line s =
    let kept = before hash line in
    if is_empty (trim kept) then s else parse_content (indent kept) (drop (indent kept) kept) s

unfoldable pub parse_lines : List Text → Parsing → Parsing
parse_lines [] s = s
parse_lines (line ∷ more) s = parse_lines more (parse_line line s)

unfoldable pub parse : Text → Store
parse yaml = (parse_lines (lines_of yaml []) (record { section = []; store = [] })).store

unfoldable pub dump_entry : Text → Text → Text
dump_entry key value = elim (after dot key) [
  | none ↦ key ++ colon ∷ space ∷ value ++ newline ∷ []
  | some rest ↦
      before dot key
      ++ colon ∷ newline ∷ space ∷ space ∷ rest
      ++ colon ∷ space ∷ value
      ++ newline ∷ []
]

unfoldable pub dump : Store → Text
dump [] = []
dump ((key, value) ∷ more) = dump_entry key value ++ dump more

unfoldable pub get_string_or : Text → Text → Store → Text
get_string_or key dflt s = elim (get_string key s) [ none ↦ dflt | some v ↦ v ]

-- "true", "yes", "1" and "false", "no", "0"
abbrev pub yes_words : List Text
yes_words = (116 ∷ 114 ∷ 117 ∷ 101 ∷ []) ∷ (121 ∷ 101 ∷ 115 ∷ []) ∷ (49 ∷ []) ∷ []

abbrev pub no_words : List Text
no_words = (102 ∷ 97 ∷ 108 ∷ 115 ∷ 101 ∷ []) ∷ (110 ∷ 111 ∷ []) ∷ (48 ∷ []) ∷ []

unfoldable pub is_one_of : Text → List Text → Bool
is_one_of s [] = false
is_one_of s (w ∷ ws) = eqb_text s w || is_one_of s ws

unfoldable pub get_bool : Text → Store → Option Bool
get_bool key s = elim (get_string key s) [
  | none ↦ none
  | some v ↦
      if is_one_of v yes_words then some true else if is_one_of v no_words then some false else none
]

unfoldable pub get_bool_or : Text → Bool → Store → Bool
get_bool_or key dflt s = elim (get_bool key s) [ none ↦ dflt | some b ↦ b ]

unfoldable pub has : Text → Store → Bool
has key s = elim (get_string key s) [ none ↦ false | some v ↦ true ]
