-- ===== src/Lfs/Pointer/Decoding.antt =====
-- `DecodeFrom` and what it calls. Go visits the map of extensions in an order of its own: `order`
-- is that order. `sort.Sort` is an insertion sort here: the priorities differ, so that any sort
-- gives the same list.
use git_lfs.Prelude.{
  ℕ, Bool, true, false, not, ◌&&◌, ◌||◌, Option, none, some, List, [], ◌∷◌, ◌++◌, Text, codes,
  length, elem, ltb, leb, eqb, ◌==◌, text_comparable, number_comparable, all, if◌then◌else◌,
}
use git_lfs.Prelude.Int.{ℤ, pos, negsuc}
use git_lfs.Prelude.Dict
use git_lfs.Prelude.Dict.{Dict}
use git_lfs.Strings.{
  split_first, cut_prefix, contains_text, trim_space, scan_lines, parse_int, is_digit,
}
use git_lfs.Lfs.Pointer.Errors.{
  PointerError, over_cutoff, invalid_header, missing_version, error_reading_line, extra_line,
  bad_pointer_key, read_failed, no_oid, invalid_size, invalid_version, invalid_oid_value,
  invalid_oid_type, invalid_oid, invalid_extension_value, invalid_priority, duplicate_priority,
  Decoded, decoded, refused, ◌>>=◌, standardize,
}
use git_lfs.Lfs.Pointer.{
  Pointer, PointerExtension, new_pointer, new_pointer_extension, empty_pointer, encoded, v1_aliases,
  sha256,
}

-- `matcherRE`
unfoldable pub matches_header : Text → Bool
matches_header s =
    contains_text (codes "git-media") s
    || contains_text (codes "hawser") s
    || contains_text (codes "git-lfs") s

-- 0 to 9 and a to f
unfoldable pub is_hex : ℕ → Bool
is_hex c = (leb 48 c && leb c 57) || (leb 97 c && leb c 102)

-- `oidRE`
unfoldable pub matches_oid : Text → Bool
unfolding is_hex
matches_oid s = eqb (length s) 64 && all is_hex s

-- `\w`
unfoldable pub is_word : ℕ → Bool
is_word c = (leb 48 c && leb c 57) || (leb 65 c && leb c 90) || eqb c 95 || (leb 97 c && leb c 122)

unfoldable pub numbered_name : Text → Bool
unfolding is_word
numbered_name (d ∷ dash ∷ w ∷ s) = is_digit d && eqb dash b'-' && is_word w
numbered_name _ = false

-- `extRE`
unfoldable pub matches_ext : Text → Bool
unfolding numbered_name
matches_ext key = elim (cut_prefix (codes "ext-") key) [
  | some rest ↦ numbered_name rest
  | none ↦ false
]

abbrev pub pointer_keys : List Text
pointer_keys = codes "version" ∷ codes "oid" ∷ codes "size" ∷ []

abbrev pub Maps : Type 0
Maps = Dict Text Text × Dict Text Text

-- The loop of `decodeKVData`. What is left of `pointerKeys` stands for the line number.
unfoldable pub scan : List Text → List Text → Dict Text Text → Dict Text Text → Decoded Maps
scan [] expected kvps exts = decoded (kvps, exts)
scan (text ∷ lines) expected kvps exts = elim text [
  | [] ↦ scan lines expected kvps exts
  | c ∷ s ↦ elim (split_first b' ' (c ∷ s)) [
    | none ↦ refused (error_reading_line (c ∷ s))
    | some (key, value) ↦ elim expected [
      | [] ↦ refused (extra_line (c ∷ s))
      | next ∷ later ↦ elim (key == next) [
        | true ↦ scan lines later (Dict.insert key value kvps) exts
        | false ↦ elim (matches_ext key) [
          | true ↦ scan lines (next ∷ later) kvps (Dict.insert key value exts)
          | false ↦ refused (bad_pointer_key next key)
        ]
      ]
    ]
  ]
]

unfoldable pub decode_kv_data : Text → Decoded Maps
unfolding matches_header scan
decode_kv_data s =
    if not (matches_header s)
    then refused invalid_header
    else scan (scan_lines s) pointer_keys [] []

unfoldable pub verify_version : Text → Decoded (Unit {0})
verify_version version =
    if eqb (length version) 0
    then refused missing_version
    else if elem version v1_aliases
    then decoded tt
    else refused (invalid_version version)

unfoldable pub parse_oid : Text → Decoded Text
unfolding matches_oid
parse_oid value = elim (split_first b':' value) [
  | none ↦ refused (invalid_oid_value value)
  | some (type, oid) ↦
      if not (type == sha256)
      then refused (invalid_oid_type type)
      else if not (matches_oid oid)
      then refused (invalid_oid oid)
      else decoded oid
]

unfoldable pub natural : Option ℤ → PointerError → Decoded ℕ
natural none e = refused e
natural (some (negsuc _)) e = refused e
natural (some (pos n)) e = decoded n

-- `strings.SplitN(key, "-", 3)`, where there are three parts.
unfoldable pub three_parts : Text → Option (Text × Text × Text)
three_parts key = elim (split_first b'-' key) [
  | none ↦ none
  | some (a, more) ↦ elim (split_first b'-' more) [ none ↦ none | some (b, c) ↦ some (a, b, c) ]
]

unfoldable pub named_extension : Text → Text → Text × Text × Text → Decoded PointerExtension
unfolding natural parse_oid new_pointer_extension
named_extension key value (ext, number, name) =
    if not (ext == codes "ext") then refused (invalid_extension_value value) else do
      p ← natural (parse_int number) (invalid_priority number)
      oid ← parse_oid value
      decoded (new_pointer_extension name p oid)

unfoldable pub parse_pointer_extension : Text → Text → Decoded PointerExtension
unfolding three_parts named_extension
parse_pointer_extension key value = elim (three_parts key) [
  | none ↦ refused (invalid_extension_value value)
  | some parts ↦ named_extension key value parts
]

-- The loop of `decodeKV` over the map of extensions.
unfoldable pub parse_extensions : Dict Text Text → Decoded (List PointerExtension)
parse_extensions [] = decoded []
parse_extensions ((key, value) ∷ more) = do
  ext ← parse_pointer_extension key value
  exts ← parse_extensions more
  decoded (ext ∷ exts)

-- The argument `seen` is the keys of the map `m`.
unfoldable pub validate : List ℕ → List PointerExtension → Decoded (Unit {0})
validate seen [] = decoded tt
validate seen (ext ∷ exts) =
    let rest = validate (ext.priority ∷ seen) exts in
    if elem ext.priority seen then refused (duplicate_priority ext.priority) else rest

unfoldable pub validate_pointer_extensions : List PointerExtension → Decoded (Unit {0})
unfolding validate
validate_pointer_extensions exts = validate [] exts

-- `ByPriority`
unfoldable pub insert_by_priority : PointerExtension → List PointerExtension → List PointerExtension
insert_by_priority ext [] = ext ∷ []
insert_by_priority ext (x ∷ xs) =
    let rest = insert_by_priority ext xs in
    if ltb ext.priority x.priority then ext ∷ x ∷ xs else x ∷ rest

unfoldable pub sort_by_priority : List PointerExtension → List PointerExtension
unfolding insert_by_priority
sort_by_priority [] = []
sort_by_priority (x ∷ xs) = insert_by_priority x (sort_by_priority xs)

abbrev pub value_of : Text → Dict Text Text → Text
value_of key m = elim (Dict.lookup key m) [ some value ↦ value | none ↦ [] ]

unfoldable pub standardized : Decoded Maps → Decoded Maps
unfolding standardize
standardized (decoded maps) = decoded maps
standardized (refused e) = refused (standardize e)

unfoldable pub present : Option Text → PointerError → Decoded Text
present none e = refused e
present (some value) e = decoded value

module _ (order : Dict Text Text → Dict Text Text) where
  unfoldable pub assemble : Maps → Decoded Pointer
  unfolding verify_version parse_oid present natural parse_extensions validate_pointer_extensions
      sort_by_priority new_pointer
  assemble (kvps, exts) = do
    _ ← verify_version (value_of (codes "version") kvps)
    value ← present (Dict.lookup (codes "oid") kvps) no_oid
    oid ← parse_oid value
    size ← natural (parse_int (value_of (codes "size") kvps)) invalid_size
    extensions ← parse_extensions (order exts)
    _ ← validate_pointer_extensions extensions
    decoded (new_pointer oid size (sort_by_priority extensions))

  unfoldable pub decode_kv : Text → Decoded Pointer
  unfolding standardized decode_kv_data assemble
  decode_kv s = standardized (decode_kv_data s) >>= assemble

-- What the one `Read` of a reader gives, and what the reader still holds.
pub data ReadStatus : Type 0 where
  more end_of_file failed : ReadStatus

pub record Reader : Type 0 where
  -- at most `blobSizeCutoff` bytes
  pub first : Text
  pub status : ReadStatus
  pub rest : Text

abbrev pub blob_size_cutoff : ℕ
blob_size_cutoff = 1024

-- The reader that is returned beside the result: all that it will read.
unfoldable pub contents : Reader → Text
contents r = elim r.status [ end_of_file ↦ r.first | _ ↦ r.first ++ r.rest ]

unfoldable pub mark_canonical : Text → Pointer → Pointer
mark_canonical buf p = record p { canonical = encoded p == buf }

module _ (order : Dict Text Text → Dict Text Text) where
  unfoldable pub decode_buffer : Text → Decoded Pointer
  unfolding decode_kv mark_canonical empty_pointer
  decode_buffer [] = decoded empty_pointer
  decode_buffer (c ∷ s) = do
    p ← decode_kv order (trim_space (c ∷ s))
    decoded (mark_canonical (c ∷ s) p)

  unfoldable pub decode_from : Reader → Decoded Pointer × Text
  unfolding decode_buffer contents
  decode_from r = elim r.status [
    | failed ↦ (refused read_failed, contents r)
    | _ ↦ (decode_buffer r.first, contents r)
  ]

  unfoldable pub decode_pointer : Reader → Decoded Pointer
  unfolding decode_from
  decode_pointer r = (decode_from r).0

  -- The blob's size, as the object database gives it, and its contents.
  unfoldable pub decode_pointer_from_blob : ℕ → Reader → Decoded Pointer
  unfolding decode_pointer
  decode_pointer_from_blob size r =
      if leb blob_size_cutoff size then refused over_cutoff else decode_pointer r
