-- ===== src/Lfs/Pointer.antt =====
-- lfs/pointer.go: the pointer files that stand for large objects. This file has the data and the
-- encoder; `Decoding` has the decoder.
pub mod Errors
pub mod Decoding
pub mod Valid
pub mod Lines
pub mod Scanning
pub mod Sorting
pub mod RoundTrip
pub mod Sound
pub mod Rejects
mod Tests
use git_lfs.Prelude.{ℕ, Bool, true, false, List, [], ◌∷◌, ◌++◌, Text, codes, eqb, if◌then◌else◌}
use git_lfs.Strings.{format_int}

pub record PointerExtension : Type 0 where
  pub name : Text
  -- an `int`, which the decoder refuses below 0
  pub priority : ℕ
  pub oid : Text
  pub oid_type : Text

pub record Pointer : Type 0 where
  pub version : Text
  pub oid : Text
  -- an `int64`, which the decoder refuses below 0
  pub size : ℕ
  pub oid_type : Text
  pub extensions : List PointerExtension
  pub canonical : Bool

abbrev pub latest : Text
latest = codes "https://git-lfs.github.com/spec/v1"

abbrev pub v1_aliases : List Text
v1_aliases =
    codes "http://git-media.io/v/2"
    ∷ codes "https://hawser.github.com/spec/v1"
    ∷ codes "https://git-lfs.github.com/spec/v1"
    ∷ []

-- `oidType`
abbrev pub sha256 : Text
sha256 = codes "sha256"

unfoldable pub new_pointer : Text → ℕ → List PointerExtension → Pointer
new_pointer oid size exts = record {
  version = latest;
  oid = oid;
  size = size;
  oid_type = sha256;
  extensions = exts;
  canonical = true;
}

unfoldable pub new_pointer_extension : Text → ℕ → Text → PointerExtension
new_pointer_extension name priority oid = record {
  name = name;
  priority = priority;
  oid = oid;
  oid_type = sha256;
}

-- `fs.EmptyObjectSHA256`
abbrev pub empty_object : Text
empty_object = codes "e3b0c44298fc1c149afbf4c8996fb92427ae41e4649b934ca495991b7852b855"

pub empty_pointer : Pointer
unfolding new_pointer
empty_pointer = new_pointer empty_object 0 []

abbrev pub newline : Text
newline = 10 ∷ []

-- "ext-%d-%s %s:%s"
unfoldable pub extension_line : PointerExtension → Text
extension_line ext =
    codes "ext-"
    ++ (format_int ext.priority ++ b'-' ∷ (ext.name ++ b' ' ∷ (ext.oid_type ++ b':' ∷ ext.oid)))

unfoldable pub extension_lines : List PointerExtension → Text
extension_lines [] = []
extension_lines (ext ∷ exts) = extension_line ext ++ 10 ∷ extension_lines exts

unfoldable pub encoded : Pointer → Text
encoded p =
    if eqb p.size 0
    then []
    else codes "version https://git-lfs.github.com/spec/v1"
      ++ 10
        ∷ (extension_lines p.extensions
            ++ (codes "oid "
                ++ (p.oid_type
                    ++ b':' ∷ (p.oid ++ 10 ∷ (codes "size " ++ (format_int p.size ++ newline))))))
