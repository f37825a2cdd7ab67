-- ===== src/Config/Sources.antt =====
-- What `readGitConfig` of config/git_fetcher.go makes of its sources.
use mathlib.Core.Path.{subst}
use git_lfs.Prelude.{
  ◌≡◌, refl, sym, ap, ◌∙◌, Bool, true, false, not, ◌&&◌, ◌||◌, Option, none, some, inl, inr,
  Bool-cases, List, [], ◌∷◌, ◌++◌, append_assoc, append-nil, Text, codes, text_comparable, ◌==◌,
  same_text_iff, arith, if◌then◌else◌,
}
use git_lfs.Prelude.Dict
use git_lfs.Prelude.Dict.{Dict}
use git_lfs.Prelude.Dict.Laws.{lookup-insert}
use git_lfs.Strings.{split}
use git_lfs.Config.{
  ConfigurationSource, Reading, Setting, extension_prop, remote_setting, access_setting,
  other_setting, key_is_unsafe, values_of, setting_of, is_refused_remote, ignore, store,
  keep_extension, read_extension, read_setting, key_value, read_line, read_lines, read_sources,
  read_git_config, nothing_read,
}

-- Whether a source of safe keys alone may set a key: one of the safe keys, the priority of an
-- extension, a remote's key but for the keys of three parts other than `lfsurl`, or one that ends in
-- `access`.
abbrev pub permits : Text → Setting → Bool
permits key (extension_prop name prop) =
    if prop == codes "clean" || prop == codes "smudge"
    then false
    else prop == codes "priority" || not (key_is_unsafe key)
permits key (remote_setting parts) = not (is_refused_remote parts)
permits key access_setting = true
permits key other_setting = not (key_is_unsafe key)

-- The value that a line of a source gives to a key.
abbrev pub given_by_line : (only_safe : Bool) → Text → Option (Text × Text) → List Text
given_by_line only_safe key none = []
given_by_line only_safe key (some (k, val)) =
    if k == key && (not only_safe || permits k (setting_of (split b'.' k))) then val ∷ [] else []

-- The values that the sources give to a key, in order.
unfoldable pub given_by_lines : (only_safe : Bool) → Text → List Text → List Text
given_by_lines only_safe key [] = []
given_by_lines only_safe key (line ∷ lines) =
    given_by_line only_safe key (key_value line) ++ given_by_lines only_safe key lines

unfoldable pub given_by : Text → List ConfigurationSource → List Text
given_by key [] = []
given_by key (gc ∷ configs) = given_by_lines gc.only_safe_keys key gc.lines ++ given_by key configs

values_of-insert :
    (k key : Text) (vs : List Text) (vals : Dict Text (List Text))
    → values_of (Dict.insert k vs vals) key ≡ (if k == key then vs else values_of vals key)
unfolding values_of
values_of-insert k key vs vals = ap read (lookup-insert k key vs vals) ∙ choice (k == key)
  where
    read : Option (List Text) → List Text
    read none = []
    read (some vs) = vs

    choice :
        (b : Bool)
        → read (if b then some vs else Dict.lookup key vals)
          ≡ (if b then vs else values_of vals key)
    choice true = refl
    choice false = ground arith

-- Whether a value is added to those of a key.
unfoldable AddsIf : Bool → Text → Text → Dict Text (List Text) → Dict Text (List Text) → Type 0
AddsIf b key val before after =
    values_of after key ≡ values_of before key ++ (if b then val ∷ [] else [])

same_test :
    (b c : Bool) (key val : Text) (before after : Dict Text (List Text))
    → b ≡ c
    → AddsIf b key val before after
    → AddsIf c key val before after
same_test b c key val before after e h = subst (λ b. AddsIf b key val before after) e h

nothing-AddsIf : (key val : Text) (vals : Dict Text (List Text)) → AddsIf false key val vals vals
unfolding AddsIf
nothing-AddsIf key val vals = sym (append-nil _)

append-AddsIf :
    (k val : Text) (vals : Dict Text (List Text)) (key : Text)
    → AddsIf (k == key) key val vals (Dict.insert k (values_of vals k ++ val ∷ []) vals)
unfolding AddsIf
append-AddsIf k val vals key = elim (Bool-cases (k == key)) [
  | inl y ↦
      values_of-insert k key _ vals
      ∙ rw (y, if◌then◌else◌) (ap (λ i. values_of vals i ++ val ∷ []) ((same_text_iff k key).0 y))
  | inr n ↦ values_of-insert k key _ vals ∙ rw (n, if◌then◌else◌) (sym (append-nil _))
]

-- What is stored is added, if its key may be set.
store-AddsIf :
    (allowed : Bool) (k val : Text) (r : Reading) (key : Text)
    → AddsIf
        (k == key && (allowed || not (key_is_unsafe k)))
        key
        val
        r.vals
        (store allowed k val r).vals
unfolding store ignore
store-AddsIf allowed k val r key = chosen allowed (key_is_unsafe k)
  where
    chosen :
        (a u : Bool)
        → AddsIf
            (k == key && (a || not u))
            key
            val
            r.vals
            (if not a && u
              then ignore k r
              else record r { vals = Dict.insert k (values_of r.vals k ++ val ∷ []) r.vals }).vals
    chosen true u =
        same_test (k == key) _ key val _ _ (ground arith) (append-AddsIf k val r.vals key)
    chosen false false =
        same_test (k == key) _ key val _ _ (ground arith) (append-AddsIf k val r.vals key)
    chosen false true = same_test false _ key val _ _ (ground arith) (nothing-AddsIf key val r.vals)

-- The same where only the extensions and the remotes differ.
store_as-AddsIf :
    (allowed : Bool) (k val : Text) (r s : Reading) (key : Text)
    → s.vals ≡ r.vals
    → AddsIf
        (k == key && (allowed || not (key_is_unsafe k)))
        key
        val
        r.vals
        (store allowed k val s).vals
store_as-AddsIf allowed k val r s key same =
    subst
      (λ vals.
        AddsIf (k == key && (allowed || not (key_is_unsafe k))) key val vals
          (store allowed k val s).vals)
      same (store-AddsIf allowed k val s key)

read_extension-AddsIf :
    (only_safe : Bool) (k val name prop : Text) (r : Reading) (key : Text)
    → AddsIf
        (k == key && (not only_safe || permits k (extension_prop name prop)))
        key
        val
        r.vals
        (read_extension only_safe k val name prop r).vals
unfolding read_extension keep_extension ignore
read_extension-AddsIf only_safe k val name prop r key =
    chosen (prop == codes "clean") (prop == codes "smudge") (prop == codes "priority") only_safe
      (keep_extension _ r) (keep_extension _ r) (keep_extension _ r) (keep_extension _ r) refl refl
      refl refl
  where
    chosen :
        (c s p o : Bool) (rc rs rp rn : Reading)
        → rc.vals ≡ r.vals
        → rs.vals ≡ r.vals
        → rp.vals ≡ r.vals
        → rn.vals ≡ r.vals
        → AddsIf
            (k == key && (not o || (if c || s then false else p || not (key_is_unsafe k))))
            key
            val
            r.vals
            (if c
              then if o then ignore k r else store true k val rc
              else if s
              then if o then ignore k r else store true k val rs
              else if p
              then store true k val rp
              else store (not o) k val rn).vals
    chosen true s p true rc rs rp rn a b d e =
        same_test false _ key val _ _ (ground arith) (nothing-AddsIf key val r.vals)
    chosen true s p false rc rs rp rn a b d e =
        same_test _ _ key val _ _ (ground arith) (store_as-AddsIf true k val r rc key a)
    chosen false true p true rc rs rp rn a b d e =
        same_test false _ key val _ _ (ground arith) (nothing-AddsIf key val r.vals)
    chosen false true p false rc rs rp rn a b d e =
        same_test _ _ key val _ _ (ground arith) (store_as-AddsIf true k val r rs key b)
    chosen false false true o rc rs rp rn a b d e =
        same_test _ _ key val _ _ (ground arith) (store_as-AddsIf true k val r rp key d)
    chosen false false false o rc rs rp rn a b d e = store_as-AddsIf (not o) k val r rn key e

read_setting-AddsIf :
    (only_safe : Bool) (k val : Text) (setting : Setting) (r : Reading) (key : Text)
    → AddsIf
        (k == key && (not only_safe || permits k setting))
        key
        val
        r.vals
        (read_setting only_safe k val setting r).vals
unfolding read_setting ignore
read_setting-AddsIf only_safe k val (extension_prop name prop) r key =
    read_extension-AddsIf only_safe k val name prop r key
read_setting-AddsIf only_safe k val (remote_setting parts) r key =
    chosen only_safe (is_refused_remote parts) _ refl
  where
    chosen :
        (o f : Bool) (s : Reading)
        → s.vals ≡ r.vals
        → AddsIf
            (k == key && (not o || not f))
            key
            val
            r.vals
            (if o && f then ignore k r else store true k val s).vals
    chosen true true s e =
        same_test false _ key val _ _ (ground arith) (nothing-AddsIf key val r.vals)
    chosen true false s e =
        same_test _ _ key val _ _ (ground arith) (store_as-AddsIf true k val r s key e)
    chosen false f s e =
        same_test _ _ key val _ _ (ground arith) (store_as-AddsIf true k val r s key e)
read_setting-AddsIf only_safe k val access_setting r key =
    same_test _ _ key val _ _ (ground arith) (store-AddsIf true k val r key)
read_setting-AddsIf only_safe k val other_setting r key = store-AddsIf (not only_safe) k val r key

-- What the values of a key are after a line, after the lines of a source, and after all sources.
read_line_values :
    (only_safe : Bool) (r : Reading) (line key : Text)
    → values_of (read_line only_safe r line).vals key
      ≡ values_of r.vals key ++ given_by_line only_safe key (key_value line)
unfolding read_line AddsIf
read_line_values only_safe r line key = by_parts (key_value line)
  where
    by_parts :
        (kv : Option (Text × Text))
        → values_of
            (elim kv as (λ _. Reading) [
              | none ↦ r
              | some (k, val) ↦ read_setting only_safe k val (setting_of (split b'.' k)) r
            ]).vals
            key
          ≡ values_of r.vals key ++ given_by_line only_safe key kv
    by_parts none = sym (append-nil _)
    by_parts (some (k, val)) = read_setting-AddsIf only_safe k val (setting_of (split b'.' k)) r key

read_lines_values :
    (only_safe : Bool) (r : Reading) (lines : List Text) (key : Text)
    → values_of (read_lines only_safe r lines).vals key
      ≡ values_of r.vals key ++ given_by_lines only_safe key lines
unfolding read_lines given_by_lines
read_lines_values only_safe r [] key = sym (append-nil _)
read_lines_values only_safe r (line ∷ lines) key =
    read_lines_values only_safe (read_line only_safe r line) lines key
    ∙ ap (λ vs. vs ++ given_by_lines only_safe key lines) (read_line_values only_safe r line key)
    ∙ append_assoc _ (given_by_line only_safe key (key_value line)) _

read_sources_values :
    (r : Reading) (configs : List ConfigurationSource) (key : Text)
    → values_of (read_sources r configs).vals key ≡ values_of r.vals key ++ given_by key configs
unfolding read_sources given_by
read_sources_values r [] key = sym (append-nil _)
read_sources_values r (gc ∷ configs) key =
    read_sources_values (read_lines gc.only_safe_keys r gc.lines) configs key
    ∙ ap (λ vs. vs ++ given_by key configs) (read_lines_values gc.only_safe_keys r gc.lines key)
    ∙ append_assoc _ (given_by_lines gc.only_safe_keys key gc.lines) _

-- The values of a key, after all sources were read, are those that the lines of the sources give
-- it, in order, where a source of safe keys alone gives a key its value only if it is a safe key,
-- the priority of an extension, a key of a remote other than one of three parts that does not end
-- in lfsurl, or one that ends in access.
pub read_git_config-given_by :
    (configs : List ConfigurationSource) (key : Text)
    → values_of (read_git_config configs).vals key ≡ given_by key configs
unfolding read_git_config values_of Dict.lookup
read_git_config-given_by configs key = read_sources_values nothing_read configs key
