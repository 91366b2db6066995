-- ===== src/Reporting/Cli/Render.antt =====
-- A command line that is written from settings is parsed back to them.
use velox_quant.Base.{ℕ, ◌≡◌, refl, sym, subst, ◌∙◌, none, some, List, [], ◌∷◌, ◌++◌, All}
use velox_quant.Reporting.Cli.{
  CliParser, ParsedArgs, named_flag, named_option, set_flag, set_option, add_positional, add_error,
  parse_from, parse, no_args,
}
use velox_quant.Reporting.Cli.Settings.{
  Setting, flag_set, option_set, word, render, NotNamed, NamedFirst, flag_names, option_names, Fits,
  named_flag-none, named_option-first, Found, All-Found, apply_settings, flag_set, option_set, word,
}
use velox_quant.Reporting.Cli.Queries.{Answers, Answers-apply_settings, Answers-add_error}

flag_step :
    (p : CliParser) (tok lng : ℕ) (rest : List ℕ) (r : ParsedArgs)
    → named_flag tok p.flags ≡ some lng
    → parse_from p (tok ∷ rest) r ≡ parse_from p rest (set_flag lng r)
unfolding parse_from
flag_step p tok lng [] r h = rw (h, parse_from) refl
flag_step p tok lng (next ∷ more) r h = rw (h, parse_from) refl

option_step :
    (p : CliParser) (tok lng val : ℕ) (rest : List ℕ) (r : ParsedArgs)
    → named_flag tok p.flags ≡ none
    → named_option tok p.options ≡ some lng
    → parse_from p (tok ∷ val ∷ rest) r ≡ parse_from p rest (set_option lng val r)
unfolding parse_from
option_step p tok lng val rest r h k = rw (h, parse_from) (rw (k, parse_from) refl)

word_step :
    (p : CliParser) (tok : ℕ) (rest : List ℕ) (r : ParsedArgs)
    → named_flag tok p.flags ≡ none
    → named_option tok p.options ≡ none
    → parse_from p (tok ∷ rest) r ≡ parse_from p rest (add_positional tok r)
unfolding parse_from
word_step p tok [] r h k = rw (h, parse_from) (rw (k, parse_from) refl)
word_step p tok (next ∷ more) r h k = rw (h, parse_from) (rw (k, parse_from) refl)

parse_from-render :
    (p : CliParser) (settings : List Setting) (r : ParsedArgs)
    → All (Found p) settings
    → parse_from p (render settings) r ≡ apply_settings settings r
unfolding render apply_settings parse_from
parse_from-render p [] r h = refl
parse_from-render p (flag_set tok lng ∷ more) r h =
    flag_step p tok lng (render more) r h.0 ∙ parse_from-render p more (set_flag lng r) h.1
parse_from-render p (option_set tok lng val ∷ more) r h =
    option_step p tok lng val (render more) r (h.0.0) (h.0.1)
    ∙ parse_from-render p more (set_option lng val r) h.1
parse_from-render p (word tok ∷ more) r h =
    word_step p tok (render more) r (h.0.0) (h.0.1)
    ∙ parse_from-render p more (add_positional tok r) h.1

lacking :
    (p : CliParser) (settings : List Setting) (tok lng : ℕ) (r : ParsedArgs)
    → All (Found p) settings
    → named_flag tok p.flags ≡ none
    → named_option tok p.options ≡ some lng
    → parse_from p (render settings ++ tok ∷ []) r ≡ add_error tok (apply_settings settings r)
unfolding render apply_settings parse_from
lacking p [] tok lng r h plain lacks = rw (plain, parse_from) (rw (lacks, parse_from) refl)
lacking p (flag_set t l ∷ more) tok lng r h plain lacks =
    flag_step p t l (render more ++ tok ∷ []) r h.0
    ∙ lacking p more tok lng (set_flag l r) h.1 plain lacks
lacking p (option_set t l val ∷ more) tok lng r h plain lacks =
    option_step p t l val (render more ++ tok ∷ []) r (h.0.0) (h.0.1)
    ∙ lacking p more tok lng (set_option l val r) h.1 plain lacks
lacking p (word t ∷ more) tok lng r h plain lacks =
    word_step p t (render more ++ tok ∷ []) r (h.0.0) (h.0.1)
    ∙ lacking p more tok lng (add_positional t r) h.1 plain lacks

-- A command line is written from settings: flags and options by a long or a short name, of which the
-- first entry that has it counts, and words that name nothing. Its parse answers the queries by them:
-- a flag is on exactly if it is among the settings, an option has its last value, or none, the other
-- words are the positional arguments in their order, and there is no error. An option at the end
-- without its argument changes none of these answers and is the only error.
pub parse-render :
    (p : CliParser) (program : ℕ) (settings : List Setting) (tok lng : ℕ)
    → All (Fits p) settings
    → NotNamed tok (flag_names p)
    → NamedFirst tok lng (option_names p)
    → Answers settings [] (parse p (program ∷ render settings))
      × Answers settings (tok ∷ []) (parse p (program ∷ render settings ++ tok ∷ []))
unfolding parse
parse-render p program settings tok lng h plain lacks =
    let found = All-Found p settings h in
    let applied = Answers-apply_settings settings in
    let cut =
      lacking p settings tok lng no_args found (named_flag-none tok p.flags plain)
        (named_option-first tok lng p.options lacks) in
    (
      subst (Answers settings []) (sym (parse_from-render p settings no_args found)) applied,
      subst (Answers settings (tok ∷ [])) (sym cut)
          (Answers-add_error settings tok (apply_settings settings no_args) applied),
    )
