-- ===== src/Tq/Batch.antt =====
-- The batches of tq/transfer_queue.go, and the transfers of tq/transfer.go that the server and the
-- adapters are given. One reading of the clock serves a whole call, and a wait is in nanoseconds,
-- without the saturation of `time.Until`.
pub mod Clamping
pub mod Conserving
use git_lfs.Prelude.{
  ℕ, ◌+◌, ◌-◌, Bool, Option, none, ltb, leb, eqb, ◌||◌, if◌then◌else◌, List, [], ◌∷◌, ◌++◌, Text,
  length, take, drop, false,
}
use git_lfs.Prelude.Int.{ℤ}
use git_lfs.Prelude.Dict.{Dict}

pub record ObjectTuple : Type 0 where
  pub name : Text
  pub path : Text
  pub oid : Text
  pub size : ℤ
  pub missing : Bool
  pub ready_time : ℕ

-- What `Rel` reads of an action: the times in nanoseconds since the zero time, and `ExpiresIn` in
-- seconds as a bit pattern.
pub record Action : Type 0 where
  pub href : Text
  pub expires_at : ℕ
  pub expires_in : ℕ
  pub created_at : ℕ

pub record ObjectError : Type 0 where
  pub code : ℕ
  pub message : Text

pub record Transfer : Type 0 where
  pub name : Text
  pub oid : Text
  pub size : ℤ
  pub authenticated : Bool
  pub actions : Dict Text Action
  -- a nil map is told from an empty one
  pub links : Option (Dict Text Action)
  pub error : Option ObjectError
  pub path : Text
  pub missing : Bool

abbrev pub Batch : Type 0
Batch = List ObjectTuple

-- The body of the loop of `Concat` over the batches `left` and `right` and the wait `min_wait`.
unfoldable pub place : ℕ → ObjectTuple → Batch × Batch × ℕ → Batch × Batch × ℕ
place now ot (left, right, min_wait) =
    let wait = ot.ready_time - now in
    if ltb ot.ready_time now
    then (left ++ ot ∷ [], right, min_wait)
    else (left, right ++ ot ∷ [], if eqb min_wait 0 || ltb wait min_wait then wait else min_wait)

unfoldable pub place_all : ℕ → Batch → Batch × Batch × ℕ → Batch × Batch × ℕ
place_all now [] acc = acc
place_all now (ot ∷ u) acc = place_all now u (place now ot acc)

unfoldable pub clamp : ℕ → Batch × Batch × ℕ → Batch × Batch × ℕ
clamp size (left, right, min_wait) =
    if leb (length left) size
    then (left, right, min_wait)
    else (take size left, right ++ drop size left, min_wait)

unfoldable pub concat : ℕ → Batch → Batch → ℕ → Batch × Batch × ℕ
unfolding place_all clamp
concat now b other size = clamp size (place_all now (b ++ other) ([], [], 0))

-- A transfer with the fields that a literal sets, and the others at their zero values.
unfoldable pub transfer : (name path oid : Text) (size : ℤ) (missing : Bool) → Transfer
transfer name path oid size missing = record {
  name = name;
  oid = oid;
  size = size;
  authenticated = false;
  actions = [];
  links = none;
  error = none;
  path = path;
  missing = missing;
}

unfoldable pub to_transfers : Batch → List Transfer
unfolding transfer
to_transfers [] = []
to_transfers (t ∷ b) = transfer [] [] t.oid t.size t.missing ∷ to_transfers b

-- `objectTuple.ToTransfer`
unfoldable pub to_transfer : ObjectTuple → Transfer
unfolding transfer
to_transfer o = transfer o.name o.path o.oid o.size o.missing
