-- ===== src/GitAttr/Printing.antt =====
-- Lines of .gitattributes as they are written, for the parser of git/gitattr/attr.go.
use git_lfs.Prelude.{
  ℕ, ◌≡◌, refl, ap, ◌∙◌, Bool, true, false, Option, none, some, inl, inr, Bool-cases, List, [], ◌∷◌,
  ◌++◌, append-nil, map, All, All-append, Text, codes, text_comparable, ◌==◌, same_text_iff, keep,
  eqb, arith, if◌then◌else◌,
}
use git_lfs.Strings.{split, has_prefix, cut_prefix, trim_prefix}
use git_lfs.Strings.Splitting.{
  Lacks, split_first-append, split_first-none, split-append, split_lacking,
}
use git_lfs.GitAttr.{
  Attr, Line, parsed, attr_prefix, parse_attr, parse_attrs, is_given, new_line, first_word,
  plain_line, parse_trimmed,
}

-- `k` for a set attribute, `-k` for an unset one, `!k` for one that is not specified, or `k=v`.
unfoldable pub print_attr : Attr → Text
print_attr a =
    if a.unspecified
    then b'!' ∷ a.k
    else if a.v == codes "false"
    then b'-' ∷ a.k
    else if a.v == codes "true"
    then a.k
    else a.k ++ b'=' ∷ a.v

-- The name is a word without an equals sign, which does not start like a prefix; the value is a word,
-- and empty where the attribute is not specified.
pub record IsAttr (a : Attr) : Type 0 where
  pub not_empty : is_given a.k ≡ true
  pub no_minus : has_prefix (codes "-") a.k ≡ false
  pub no_bang : has_prefix (codes "!") a.k ≡ false
  pub no_equals : Lacks b'=' a.k
  pub name_word : Lacks b' ' a.k
  pub value_word : Lacks b' ' a.v
  pub no_value : a.unspecified ≡ true → a.v ≡ []

parse_unset :
    (k : Text) → parse_attr (b'-' ∷ k) ≡ record { k = k; v = codes "false"; unspecified = false }
unfolding parse_attr has_prefix trim_prefix cut_prefix
parse_unset k = refl

parse_unspecified :
    (k : Text) → parse_attr (b'!' ∷ k) ≡ record { k = k; v = []; unspecified = true }
unfolding parse_attr has_prefix trim_prefix cut_prefix
parse_unspecified k = refl

parse_set :
    (k : Text)
    → has_prefix (codes "-") k ≡ false
    → has_prefix (codes "!") k ≡ false
    → Lacks b'=' k
    → parse_attr k ≡ record { k = k; v = codes "true"; unspecified = false }
unfolding parse_attr
parse_set k m b e =
    rw (m, if◌then◌else◌) (rw (b, if◌then◌else◌) (rw (split_first-none b'=' k e) refl))

parse_value :
    (k v : Text)
    → is_given k ≡ true
    → has_prefix (codes "-") k ≡ false
    → has_prefix (codes "!") k ≡ false
    → Lacks b'=' k
    → parse_attr (k ++ b'=' ∷ v) ≡ record { k = k; v = v; unspecified = false }
unfolding parse_attr is_given has_prefix
parse_value [] v g m b e = absurd (ground arith)
parse_value (c ∷ k) v g m b e =
    rw (m, if◌then◌else◌) (rw (b, if◌then◌else◌) (rw (split_first-append b'=' (c ∷ k) v e) refl))

parse_attr-print_attr : (a : Attr) → IsAttr a → parse_attr (print_attr a) ≡ a
unfolding print_attr
parse_attr-print_attr a w = by_value a.unspecified w.no_value
  where
    by_value :
        (u : Bool)
        → (u ≡ true → a.v ≡ [])
        → parse_attr (print_attr (record { k = a.k; v = a.v; unspecified = u }))
          ≡ record { k = a.k; v = a.v; unspecified = u }
    by_value true no_value = rw (no_value refl) (parse_unspecified a.k)
    by_value false no_value = elim (Bool-cases (a.v == codes "false")) [
      | inl y ↦ rw ((same_text_iff a.v (codes "false")).0 y) (parse_unset a.k)
      | inr n ↦ elim (Bool-cases (a.v == codes "true")) [
        | inl y ↦
            rw ((same_text_iff a.v (codes "true")).0 y)
              (parse_set a.k w.no_minus w.no_bang w.no_equals)
        | inr m ↦
            rw (n, if◌then◌else◌)
              (rw (m, if◌then◌else◌)
                (parse_value a.k a.v w.not_empty w.no_minus w.no_bang w.no_equals))
      ]
    ]

print_attr-word :
    (a : Attr) → IsAttr a → Lacks b' ' (print_attr a) × (is_given (print_attr a) ≡ true)
unfolding print_attr is_given
print_attr-word a w = elim (Bool-cases a.unspecified) [
  | inl u ↦ rw (u, if◌then◌else◌) ((ground arith, w.name_word), refl)
  | inr n ↦
      rw (n, if◌then◌else◌)
        (elim (Bool-cases (a.v == codes "false")) [
          | inl y ↦ rw (y, if◌then◌else◌) ((ground arith, w.name_word), refl)
          | inr d ↦
              rw (d, if◌then◌else◌)
                (elim (Bool-cases (a.v == codes "true")) [
                  | inl t ↦ rw (t, if◌then◌else◌) (w.name_word, w.not_empty)
                  | inr f ↦
                      rw (f, if◌then◌else◌)
                        (
                          All-append _ a.k _ w.name_word (ground arith, w.value_word),
                          given_append a.k (b'=' ∷ a.v) w.not_empty,
                        )
                ])
        ])
]
  where
    given_append : (s t : Text) → is_given s ≡ true → is_given (s ++ t) ≡ true
    given_append [] t h = absurd (ground arith)
    given_append (c ∷ s) t h = refl

-- Attributes behind a word, each after a space.
unfoldable pub print_attrs : List Attr → Text
print_attrs [] = []
print_attrs (a ∷ attrs) = b' ' ∷ print_attr a ++ print_attrs attrs

abbrev printed : List Attr → List Text
printed attrs = map print_attr attrs

split-print_attrs :
    (word : Text) (attrs : List Attr)
    → Lacks b' ' word
    → All IsAttr attrs
    → split b' ' (word ++ print_attrs attrs) ≡ word ∷ printed attrs
unfolding print_attrs
split-print_attrs word [] lacks w = rw append-nil (split_lacking b' ' word lacks)
split-print_attrs word (a ∷ attrs) lacks (v, w) =
    split-append b' ' word (print_attr a ++ print_attrs attrs) lacks
    ∙ ap (λ parts. word ∷ parts) (split-print_attrs (print_attr a) attrs (print_attr-word a v).0 w)

parse_printed :
    (attrs : List Attr) → All IsAttr attrs → map parse_attr (keep is_given (printed attrs)) ≡ attrs
unfolding keep
parse_printed [] w = refl
parse_printed (a ∷ attrs) (v, w) =
    rw ((print_attr-word a v).1, if◌then◌else◌)
      (rw (parse_attr-print_attr a v) (ap (λ rest. a ∷ rest) (parse_printed attrs w)))

-- What `SplitN` leaves of the attributes behind a word.
abbrev behind_word : List Attr → Text
behind_word [] = []
behind_word (a ∷ attrs) = print_attr a ++ print_attrs attrs

parse_attrs-behind_word :
    (attrs : List Attr) → All IsAttr attrs → parse_attrs (behind_word attrs) ≡ attrs
unfolding parse_attrs keep is_given split
parse_attrs-behind_word [] w = refl
parse_attrs-behind_word (a ∷ attrs) (v, w) =
    rw (split-print_attrs (print_attr a) attrs (print_attr-word a v).0 w)
      (parse_printed (a ∷ attrs) (v, w))

-- What a line starts with, without quotes.
pub data Head : Type 0 where
  pattern_head macro_head : Text → Head

abbrev pub print_head : Head → Text
print_head (pattern_head pattern) = pattern
print_head (macro_head macro_name) = attr_prefix ++ macro_name

abbrev pub print_line : Head → List Attr → Text
print_line head attrs = print_head head ++ print_attrs attrs

-- A word; a pattern starts neither a comment, a quoted line nor a macro.
abbrev pub IsHead : Head → Type 0
IsHead (pattern_head pattern) =
    Lacks b' ' pattern
    × (is_given pattern ≡ true)
    × (has_prefix (codes "#") pattern ≡ false)
    × (has_prefix (codes "\"") pattern ≡ false)
    × (cut_prefix attr_prefix pattern ≡ none)
IsHead (macro_head macro_name) = Lacks b' ' macro_name

module _ {W : Type 0} (new_wildmatch : Text → W) (unquote : Text → Option Text) where
  abbrev pub line_of : Head → List Attr → Line W
  line_of (pattern_head pattern) attrs = record {
    pattern = some (new_wildmatch pattern);
    macro_name = [];
    attrs = attrs;
  }
  line_of (macro_head macro_name) attrs = record {
    pattern = none;
    macro_name = macro_name;
    attrs = attrs;
  }

  first_word-line_of :
      (head : Head) (attrs : List Attr)
      → IsHead head
      → All IsAttr attrs
      → first_word new_wildmatch unquote (print_head head) (behind_word attrs) ≡ line_of head attrs
  unfolding first_word new_line is_given cut_prefix
  first_word-line_of (pattern_head pattern) attrs (word, given, comment, quote, cut) w =
      rw (cut, first_word) (rw (given, if◌then◌else◌) (rw (parse_attrs-behind_word attrs w) refl))
  first_word-line_of (macro_head macro_name) attrs word w =
      rw (parse_attrs-behind_word attrs w) refl

  plain_line-line_of :
      (head : Head) (attrs : List Attr)
      → Lacks b' ' (print_head head)
      → IsHead head
      → All IsAttr attrs
      → plain_line new_wildmatch unquote (print_line head attrs) ≡ line_of head attrs
  unfolding plain_line print_attrs
  plain_line-line_of head [] lacks h w = rw append-nil (
      rw (split_first-none b' ' (print_head head) lacks, plain_line)
        (first_word-line_of head [] h w))
  plain_line-line_of head (a ∷ attrs) lacks h w =
      rw
        (
          split_first-append b' ' (print_head head) (print_attr a ++ print_attrs attrs) lacks,
          plain_line,
        )
        (first_word-line_of head (a ∷ attrs) h w)

  parse_trimmed_plain :
      (c : ℕ) (rest : Text)
      → eqb c b'#' ≡ false
      → eqb c b'"' ≡ false
      → parse_trimmed new_wildmatch unquote (c ∷ rest)
        ≡ parsed (plain_line new_wildmatch unquote (c ∷ rest))
  unfolding parse_trimmed
  parse_trimmed_plain c rest comment quote =
      rw (comment, if◌then◌else◌) (rw (quote, if◌then◌else◌) refl)

  not_special : (d c : ℕ) (s : Text) → has_prefix (d ∷ []) (c ∷ s) ≡ false → eqb c d ≡ false
  unfolding has_prefix
  not_special d c s h = ground arith

  -- A line without space at its ends that is written as a pattern or a macro's name with attributes
  -- behind it (set, unset with a minus, not specified with an exclamation mark, or with a value) is
  -- parsed as that pattern or macro with the same attributes in the same order, if the words have
  -- no space in them, the names of the attributes are not empty, have no equals sign and start with
  -- neither mark, and the pattern is not empty and starts neither with a quote or a number sign nor
  -- with [attr].
  pub parse_trimmed-print_line :
      (head : Head) (attrs : List Attr)
      → IsHead head
      → All IsAttr attrs
      → parse_trimmed new_wildmatch unquote (print_line head attrs) ≡ parsed (line_of head attrs)
  unfolding parse_trimmed has_prefix is_given
  parse_trimmed-print_line (pattern_head []) attrs (word, given, comment, quote, cut) w =
      absurd (ground arith)
  parse_trimmed-print_line (pattern_head (c ∷ p)) attrs h w =
      let (word, given, comment, quote, cut) = h in
      parse_trimmed_plain c (p ++ print_attrs attrs) (not_special b'#' c p comment)
        (not_special b'"' c p quote)
      ∙ ap parsed (plain_line-line_of (pattern_head (c ∷ p)) attrs word h w)
  parse_trimmed-print_line (macro_head macro_name) attrs h w = ap parsed (
      plain_line-line_of (macro_head macro_name) attrs (All-append _ attr_prefix _ (ground arith) h)
        h w)
