-- ===== src/ScopeJournal/Checks.antt =====
-- The tests of `_validate` (manager/scope_journal.py) on a value of the right shape, and the value of
-- `_validate` itself.
pub mod Spelling
pub mod Pending
use xserver_mail_lineworks.Shared.{
  ℕ, Bool, true, false, not, ◌&&◌, ◌||◌, Option, none, some, List, [], ◌∷◌, ◌++◌, ◌==◌, nat_eq,
  list_eq, nat_beq, all, any, contains, distinct, subset, find, keys, map, if◌then◌else◌, Text,
  is_sha256, Json, obj,
}
use xserver_mail_lineworks.ScopedMigration.{sorted_ids}
use xserver_mail_lineworks.ScopeJournal.{
  Phase, prepared, active, committed, Kind, add, delete, Entry, PendingOp, ConfigPart, Saved,
  read_fields,
}

abbrev pub hashes : List Entry → List Text
hashes [] = []
hashes ((k, h) ∷ es) = h ∷ hashes es

abbrev nonempty : Text → Bool
nonempty t = not (t == [])

abbrev are_entries : List Entry → Bool
are_entries es = all nonempty (keys es) && all is_sha256 (hashes es)

abbrev is_hash? : Option Text → Bool
is_hash? none = true
is_hash? (some h) = is_sha256 h

unfoldable pub config_is_valid : Option ConfigPart → Bool
config_is_valid none = true
config_is_valid (some c) =
    subset c.desired_pinned c.desired_targets
    && is_sha256 c.config_before_sha256
    && is_sha256 c.config_expected_sha256
    && is_hash? c.config_applied_sha256

-- The lists: ids of one filter each, hashes of their form, additions among the desired hashes, and
-- retired ids among the old and the added ones.
unfoldable pub lists_are_valid : Saved → Bool
lists_are_valid s =
    are_entries s.old
    && are_entries s.unrelated
    && are_entries s.new_ids
    && distinct (keys s.old ++ (keys s.unrelated ++ keys s.new_ids))
    && all is_sha256 s.new
    && all nonempty s.retired_ids
    && distinct s.retired_ids
    && distinct s.new
    && distinct (hashes s.old)
    && subset (hashes s.new_ids) s.new
    && subset s.retired_ids (keys s.old ++ keys s.new_ids)

abbrev hash_is : Text → Option Text → Bool
hash_is h none = false
hash_is h (some g) = h == g

abbrev operation_is_valid : Saved → Kind → Text → Text → Bool
operation_is_valid s add k h = contains s.new h && (k == [] || contains (keys s.new_ids) k)
operation_is_valid s delete k h = hash_is h (find k (s.old ++ s.new_ids))

unfoldable pub pending_is_valid : Saved → Option PendingOp → Bool
pending_is_valid s none = true
pending_is_valid s (some p) = is_sha256 p.sha256 && operation_is_valid s p.kind p.id p.sha256

abbrev no_entries : List Entry → Bool
no_entries [] = true
no_entries _ = false

abbrev pub is_none : {A : Type 0} → Option A → Bool
is_none none = true
is_none (some _) = false

abbrev pub applied : Option ConfigPart → Option (Option Text)
applied none = none
applied (some c) = some c.config_applied_sha256

-- In version 2 only.
abbrev applied_is : Bool → Option (Option Text) → Bool
applied_is missing none = true
applied_is missing (some none) = missing
applied_is missing (some (some h)) = not missing

unfoldable pub phase_is_valid : Saved → Phase → Bool
phase_is_valid s prepared =
    is_none s.pending
    && no_entries s.new_ids
    && s.retired_ids == []
    && applied_is true (applied s.config)
phase_is_valid s active = true
phase_is_valid s committed =
    is_none s.pending
    && subset (keys s.old) s.retired_ids
    && sorted_ids (hashes s.new_ids) == sorted_ids s.new
    && applied_is false (applied s.config)

unfoldable pub is_consistent : Saved → Bool
is_consistent s =
    config_is_valid s.config
    && lists_are_valid s
    && pending_is_valid s s.pending
    && phase_is_valid s s.phase

abbrev keep_consistent : Option Saved → Option Saved
keep_consistent none = none
keep_consistent (some s) = if is_consistent s then some s else none

-- `_validate`; `none` is an error, a `ScopeJournalError` or a `TypeError` at a value of a wrong type.
unfoldable pub validate : Json → Option Saved
validate (obj fs) = keep_consistent (read_fields fs)
validate _ = none
