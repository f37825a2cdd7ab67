-- ===== src/GitAttr.antt =====
-- git/gitattr: the lines of .gitattributes files (attr.go), their macros (macro.go) and the attributes
-- that apply to a path (tree.go). The patterns are those of the library wildmatch, of any type `W`:
-- `new_wildmatch` makes one of a text, and `match` may be called on a nil one. Unquoting, which is
-- strconv's, is an argument too. The reading of trees from Git's objects is not modelled.
pub mod Macros
pub mod Printing
mod Tests
use git_lfs.Prelude.{
  ℕ, suc, ◌+◌, Bool, true, false, not, ◌&&◌, Option, none, some, List, [], ◌∷◌, ◌++◌, ◌⊎◌, inl, inr,
  map, Text, codes, text_comparable, ◌==◌, eqb, ltb, keep, if◌then◌else◌,
}
use git_lfs.Prelude.Dict
use git_lfs.Prelude.Dict.{Dict}
use git_lfs.Strings.{split, split_first, has_prefix, cut_prefix, trim_prefix, trim_space, drop_cr}

pub record Attr : Type 0 where
  pub k : Text
  pub v : Text
  pub unspecified : Bool

pub record Line (W : Type 0) : Type 0 where
  pub pattern : Option W
  pub macro_name : Text
  pub attrs : List Attr

abbrev pub attr_prefix : Text
attr_prefix = codes "[attr]"

unfoldable pub parse_attr : Text → Attr
unfolding has_prefix trim_prefix split_first
parse_attr s =
    if has_prefix (codes "-") s
    then record { k = trim_prefix (codes "-") s; v = codes "false"; unspecified = false }
    else if has_prefix (codes "!") s
    then record { k = trim_prefix (codes "!") s; v = []; unspecified = true }
    else elim (split_first b'=' s) [
      | some (key, value) ↦ record { k = key; v = value; unspecified = false }
      | none ↦ record { k = s; v = codes "true"; unspecified = false }
    ]

unfoldable pub is_given : Text → Bool
is_given [] = false
is_given (c ∷ s) = true

-- The loop over the attributes of a line.
unfoldable pub parse_attrs : Text → List Attr
unfolding parse_attr split is_given
parse_attrs applied = map parse_attr (keep is_given (split b' ' applied))

pub data LineError : Type 0 where
  unbalanced_quote unable_to_unquote : Text → LineError

-- One round of the loop of `ParseLines`: the line is passed over, or it is parsed.
pub data Parsed (W : Type 0) : Type 0 where
  passed : Parsed W
  parsed : Line W → Parsed W
  not_parsed : LineError → Parsed W

-- The text before the last separator and the text behind it, as `strings.LastIndex` finds it.
unfoldable pub split_last : ℕ → Text → Option (Text × Text)
split_last sep [] = none
split_last sep (c ∷ s) = elim (split_last sep s) [
  | some (before, behind) ↦ some (c ∷ before, behind)
  | none ↦ if eqb c sep then some ([], s) else none
]

-- How many lines ended in a line feed alone, and in a carriage return before it.
pub record LineEndings : Type 0 where
  pub lf_count : ℕ
  pub crlf_count : ℕ

unfoldable pub line_ending : LineEndings → Text
line_ending e =
    if ltb e.lf_count e.crlf_count then 13 ∷ 10 ∷ [] else if eqb e.lf_count 0 then [] else 10 ∷ []

unfoldable pub ends_in_cr : Text → Bool
ends_in_cr [] = false
ends_in_cr (c ∷ []) = eqb c 13
ends_in_cr (c ∷ d ∷ s) = ends_in_cr (d ∷ s)

-- `dropCR`, which counts.
unfoldable pub drop_counted : Text → LineEndings → Text × LineEndings
unfolding ends_in_cr
drop_counted line e =
    if ends_in_cr line
    then (drop_cr line, record e { crlf_count = e.crlf_count + 1 })
    else (line, record e { lf_count = e.lf_count + 1 })

-- The lines that the scanner splits a text into, behind the part of a line that was read: what is left
-- at the end is a line as it is.
unfoldable pub scan_from : Text → LineEndings → Text → List Text × LineEndings
unfolding drop_counted is_given
scan_from cur e [] = (keep is_given (cur ∷ []), e)
scan_from cur e (c ∷ s) =
    let counted = drop_counted cur e in
    let next = scan_from [] counted.1 s in
    let rest = scan_from (cur ++ c ∷ []) e s in
    if eqb c 10 then (counted.0 ∷ next.0, next.1) else rest

-- The lines are put together unless one was not parsed.
abbrev pub with_line : {W : Type 0} → Line W → List (Line W) ⊎ LineError → List (Line W) ⊎ LineError
with_line l (inl lines) = inl (l ∷ lines)
with_line l (inr err) = inr err

abbrev pub with_ending :
    {W : Type 0} → LineEndings → List (Line W) ⊎ LineError → (List (Line W) × Text) ⊎ LineError
with_ending e (inl lines) = inl (lines, line_ending e)
with_ending e (inr err) = inr err

module _ {W : Type 0} (new_wildmatch : Text → W) (unquote : Text → Option Text) where
  unfoldable pub new_line : (pattern macro_name applied : Text) → Line W
  unfolding parse_attrs is_given
  new_line pattern macro_name applied = record {
    pattern = if is_given pattern then some (new_wildmatch pattern) else none;
    macro_name = macro_name;
    attrs = parse_attrs applied;
  }

  -- A line without quotes: its first word names a macro or is the pattern.
  unfoldable pub first_word : (word applied : Text) → Line W
  unfolding new_line cut_prefix
  first_word word applied = elim (cut_prefix attr_prefix word) [
    | some macro_name ↦ new_line [] macro_name applied
    | none ↦ new_line word [] applied
  ]

  unfoldable pub plain_line : Text → Line W
  unfolding first_word split_first
  plain_line text = elim (split_first b' ' text) [
    | some (word, applied) ↦ first_word word applied
    | none ↦ first_word text []
  ]

  -- A line that starts with a quote, without it.
  unfoldable pub quoted_line : Text → Parsed W
  unfolding new_line split_last
  quoted_line rest = elim (split_last b'"' rest) [
    | none ↦ not_parsed (unbalanced_quote (b'"' ∷ rest))
    | some (inside, behind) ↦
        let quoted = b'"' ∷ inside ++ b'"' ∷ [] in
        elim (unquote quoted) [
          | none ↦ not_parsed (unable_to_unquote quoted)
          | some pattern ↦ parsed (new_line pattern [] (trim_space behind))
        ]
  ]

  unfoldable pub parse_trimmed : Text → Parsed W
  unfolding plain_line quoted_line
  parse_trimmed [] = passed
  parse_trimmed (c ∷ rest) =
      if eqb c b'#'
      then passed
      else if eqb c b'"'
      then quoted_line rest
      else parsed (plain_line (c ∷ rest))

  unfoldable pub parse_texts : List Text → List (Line W) ⊎ LineError
  unfolding parse_trimmed
  parse_texts [] = inl []
  parse_texts (text ∷ texts) =
      let rest = parse_texts texts in
      elim (parse_trimmed (trim_space text)) [
        | passed ↦ rest
        | parsed l ↦ with_line l rest
        | not_parsed e ↦ inr e
      ]

  -- `ParseLines`, on what the reader gives, with each line below the scanner's limit of 64 KiB.
  unfoldable pub parse_lines : Text → (List (Line W) × Text) ⊎ LineError
  unfolding parse_texts scan_from
  parse_lines r =
      let (texts, e) = scan_from [] (record { lf_count = 0; crlf_count = 0 }) r in
      with_ending e (parse_texts texts)

abbrev pub Macros : Type 0
Macros = Dict Text (List Attr)

abbrev unset : Text → Attr
unset key = record { k = key; v = codes "false"; unspecified = false }

abbrev pub new_macro_processor : Macros
new_macro_processor =
    (codes "binary", unset (codes "diff") ∷ unset (codes "merge") ∷ unset (codes "text") ∷ []) ∷ []

abbrev pub or_nil : Option (List Attr) → List Attr
or_nil none = []
or_nil (some attrs) = attrs

-- The attributes of a line, with what each macro that is set stands for before it.
unfoldable pub expand : Macros → List Attr → List Attr
unfolding Dict.lookup
expand macros [] = []
expand macros (attr ∷ attrs) =
    let rest = expand macros attrs in
    if attr.v == codes "true"
    then or_nil (Dict.lookup attr.k macros) ++ attr ∷ rest
    else attr ∷ rest

module _ {W : Type 0} where
  -- The result lines, and the macros that are known then.
  unfoldable pub process_lines :
      Macros → List (Line W) → (read_macros : Bool) → List (Line W) × Macros
  unfolding expand Dict.insert
  process_lines macros [] read_macros = ([], macros)
  process_lines macros (line ∷ lines) read_macros = elim line.pattern [
    | some pattern ↦
        let (result, known) = process_lines macros lines read_macros in
        (
          record { pattern = some pattern; macro_name = []; attrs = expand macros line.attrs }
              ∷ result,
          known,
        )
    | none ↦
        process_lines
          (if read_macros then Dict.insert line.macro_name line.attrs macros else macros) lines
          read_macros
  ]

mutual
  pub data Tree (W : Type 0) : Type 0 where
    tree : List (Line W) → Children W → Tree W

  -- The map of the children.
  pub data Children (W : Type 0) : Type 0 where
    no_children : Children W
    child : Text → Tree W → Children W → Children W

module _ {W : Type 0} (match : Option W → Text → Bool) where
  unfoldable pub line_attrs : List (Line W) → Text → List Attr
  line_attrs [] to = []
  line_attrs (line ∷ lines) to =
      let rest = line_attrs lines to in if match line.pattern to then line.attrs ++ rest else rest

  unfoldable mutual
    unfolding line_attrs split_first

    pub applied : Tree W → Text → List Attr
    applied (tree lines children) to =
        line_attrs lines to
        ++ elim (split_first b'/' to) [ none ↦ [] | some (car, cdr) ↦ applied_in children car cdr ]

    -- The child of that name, if there is one.
    pub applied_in : Children W → Text → Text → List Attr
    applied_in no_children car cdr = []
    applied_in (child name t children) car cdr =
        let here = applied t cdr in
        let others = applied_in children car cdr in if name == car then here else others
