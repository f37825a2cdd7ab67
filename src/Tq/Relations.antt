-- ===== src/Tq/Relations.antt =====
-- The actions of a transfer: `Rel` and `ActionSet.Get` of tq/transfer.go, with the expiry of
-- tools/time_tools.go. Times are in nanoseconds since the zero time, durations bit patterns.
use git_lfs.Prelude.{
  ℕ, ◌*◌, ◌%◌, ◌^◌, Bool, false, Option, none, some, ltb, eqb, if◌then◌else◌, Text, text_comparable,
}
use git_lfs.Prelude.Dict
use git_lfs.Prelude.Dict.{Dict}
use git_lfs.Tq.Batch.{Transfer, Action}
use git_lfs.Tq.Retries.{add_duration}

pub time_at_or_in : (from at in_ : ℕ) → ℕ
unfolding add_duration
time_at_or_in from at in_ = if eqb in_ 0 then at else add_duration from in_

pub is_expired_at_or_in : (now from until at in_ : ℕ) → ℕ × Bool
unfolding time_at_or_in add_duration
is_expired_at_or_in now from until at in_ =
    let expiration = time_at_or_in from at in_ in
    (expiration, if eqb expiration 0 then false else ltb expiration (add_duration now until))

abbrev pub object_expiration_to_transfer : ℕ
object_expiration_to_transfer = 5000000000

-- What `Get` and `Rel` return: neither, an action, or the error that it expires at a time.
pub data Relation : Type 0 where
  no_action : Relation
  found : Action → Relation
  expired : (rel : Text) → (at : ℕ) → Relation

pub is_expired_within : ℕ → Action → ℕ → ℕ × Bool
unfolding is_expired_at_or_in
is_expired_within now a d =
    is_expired_at_or_in now a.created_at d a.expires_at (a.expires_in * 1000000000 % 2 ^ 64)

pub get : ℕ → Dict Text Action → Text → Relation
unfolding is_expired_within
get now actions rel = elim (Dict.lookup rel actions) [
  | none ↦ no_action
  | some a ↦
      let (at, is_expired) = is_expired_within now a object_expiration_to_transfer in
      if is_expired then expired rel at else found a
]

-- The branch of `Rel` behind the actions.
or_links : ℕ → Option (Dict Text Action) → Text → Relation → Relation
unfolding get
or_links now none name no_action = no_action
or_links now (some links) name no_action = get now links name
or_links now links name (found a) = found a
or_links now links name (expired rel at) = expired rel at

unfoldable pub relation : ℕ → Transfer → Text → Relation
unfolding get or_links
relation now t name = or_links now t.links name (get now t.actions name)

-- `newTransfer`; the copies of the maps are equal to them.
unfoldable pub new_transfer : Transfer → (name path : Text) → Transfer
new_transfer tr name path = record tr { name = name; path = path; missing = false }
