-- ===== src/Lfs/GitFilter/Storing.antt =====
-- What is stored by commands/command_clean.go is found again by commands/command_smudge.go.
use git_lfs.Prelude.{
  ℕ, ◌<◌, ◌≡◌, ◌⊎◌, refl, ap, ◌∙◌, Bool, true, false, not, ◌&&◌, Option, none, some, inl, inr, List,
  Text, length, text_comparable, ◌==◌, eq_refl, eqb, eqb_iff, arith, if◌then◌else◌,
}
use git_lfs.Prelude.Dict
use git_lfs.Prelude.Dict.{Dict}
use git_lfs.Prelude.Dict.Laws.{lookup-insert}
use git_lfs.Config.{Extension}
use git_lfs.Lfs.Pointer.{Pointer, encoded, empty_object}
use git_lfs.Lfs.Pointer.Errors.{decoded}
use git_lfs.Lfs.Pointer.Decoding.{Reader, decode_from}
use git_lfs.Lfs.GitFilter.{
  done, Store, object_path, object_size, object_exists, put_object, link_or_copy_from_reference,
}
use git_lfs.Lfs.GitFilter.Cleaning.{wrote, store_object}
use git_lfs.Lfs.GitFilter.Smudging.{
  read_content, read_local_file, drop_invalid, smudge, smudge_command,
}

-- The object is in the store, and it is not the empty one.
pub record IsStored (s : Store) (oid content : Text) : Type 0 where
  pub other : (oid == empty_object) ≡ false
  pub there : Dict.lookup oid s.objects ≡ some content
  pub given : 0 < length content

stored_size :
    (s : Store) (oid content : Text)
    → IsStored s oid content
    → object_size s oid ≡ some (length content)
unfolding object_size
stored_size s oid content w = rw (w.other, if◌then◌else◌) (rw w.there refl)

eqb_self : (n : ℕ) → eqb n n ≡ true
eqb_self n = ground arith

-- A reference repository is not looked at for an object that is there.
link_stored :
    (s : Store) (oid content : Text)
    → IsStored s oid content
    → (size : ℕ) → size ≡ length content
    → link_or_copy_from_reference s oid size ≡ s
unfolding link_or_copy_from_reference object_exists
link_stored s oid content w size e =
    rw (stored_size s oid content w) (ground (arith, eqb_iff (length content) size))

drop_invalid_stored :
    (s : Store) (oid content : Text)
    → IsStored s oid content
    → (size : ℕ) → size ≡ length content
    → drop_invalid s oid size ≡ s
unfolding drop_invalid
drop_invalid_stored s oid content w size e =
    rw (stored_size s oid content w, drop_invalid) (ground (arith, eqb_iff (length content) size))

pub object_path_lem : (oid : Text) → length oid ≡ 64 → object_path oid ≡ done oid
unfolding object_path
object_path_lem oid long = ground arith

module _ (sha256_hex : Text → Text) (run : List Text → Text → Option Text)
    (registered : Dict Text Extension) (file_name : Text) where
  read_stored :
      (s : Store) (p : Pointer) (content : Text)
      → IsStored s p.oid content
      → read_local_file sha256_hex run registered s p file_name
        ≡ read_content sha256_hex run registered p file_name content
  unfolding read_local_file
  read_stored s p content w = rw (w.other, if◌then◌else◌) (rw (w.there, read_local_file) refl)

  -- A stored object is smudged from the store, whether or not downloads are wanted.
  smudge_stored :
      (s : Store) (p : Pointer) (content : Text) (download : Bool)
      (downloaded : Text → ℕ → Option Text)
      → length p.oid ≡ 64
      → p.size ≡ length content
      → IsStored s p.oid content
      → smudge sha256_hex run registered s p file_name download downloaded
        ≡ (s, read_content sha256_hex run registered p file_name content)
  unfolding smudge
  smudge_stored s p content download downloaded long size w =
      rw (object_path_lem p.oid long, smudge)
        (rw (link_stored s p.oid content w p.size size) (
          rw (drop_invalid_stored s p.oid content w p.size size) (
            rw (stored_size s p.oid content w) (
              ground
                (arith, eqb_iff (length content) p.size, w.given, read_stored s p content w)))))

  pub smudge_command_stored :
      (order : Dict Text Text → Dict Text Text) (s : Store) (r : Reader) (p : Pointer)
      (content x : Text) (skip allowed : Bool) (downloaded : Text → ℕ → Option Text)
      → (decode_from order r).0 ≡ decoded p
      → length p.oid ≡ 64
      → p.size ≡ length content
      → IsStored s p.oid content
      → read_content sha256_hex run registered p file_name content ≡ done x
      → smudge_command sha256_hex run order registered s r file_name skip allowed downloaded
        ≡ (s, x, none)
  unfolding smudge_command
  smudge_command_stored order s r p content x skip allowed downloaded d long size w read =
      rw (d, smudge_command)
        (rw (link_stored s p.oid content w p.size size) (
          rw (smudge_stored s p content (not skip && allowed) downloaded long size w)
            (rw read refl)))

absent_size :
    (s : Store) (oid : Text)
    → (oid == empty_object) ≡ false
    → Dict.lookup oid s.objects ≡ none
    → object_size s oid ≡ none
unfolding object_size
absent_size s oid other absent = rw (other, if◌then◌else◌) (rw absent refl)

put_other :
    (s : Store) (oid content : Text)
    → (oid == empty_object) ≡ false
    → put_object s oid content ≡ record s { objects = Dict.insert oid content s.objects }
unfolding put_object
put_other s oid content other = rw (other, if◌then◌else◌) refl

-- Cleaning puts the content into the store, or finds it there.
pub store_object-IsStored :
    (s : Store) (p : Pointer) (content : Text)
    → (p.oid == empty_object) ≡ false
    → p.size ≡ length content
    → 0 < length content
    → (Dict.lookup p.oid s.objects ≡ none) ⊎ (Dict.lookup p.oid s.objects ≡ some content)
    → (s' : Store) × (store_object s p content ≡ wrote (encoded p) s') × IsStored s' p.oid content
unfolding store_object
store_object-IsStored s p content other size given (inl absent) = (
  record s { objects = Dict.insert p.oid content s.objects },
  rw (absent_size s p.oid other absent, store_object)
      (ap (wrote (encoded p)) (put_other s p.oid content other)),
  record {
    other = other;
    there = lookup-insert p.oid p.oid content s.objects ∙ rw (eq_refl p.oid, if◌then◌else◌) refl;
    given = given;
  },
)
store_object-IsStored s p content other size given (inr there) =
    let w : IsStored s p.oid content = record { other = other; there = there; given = given } in
    (
      s,
      rw (stored_size s p.oid content w, store_object)
          (ground (arith, eqb_iff (length content) p.size)),
      w,
    )
