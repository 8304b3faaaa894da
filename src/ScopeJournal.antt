-- ===== src/ScopeJournal.antt =====
-- manager/scope_journal.py: the journal from which an interrupted synchronisation is resumed. This
-- file has the journal's value, how it is spelled as JSON, and how `_validate` takes it apart; a value
-- whose keys or types are wrong is `none`. A schema version that is a float is taken as wrong.
pub mod Checks
pub mod Store
pub mod Examples
use xserver_mail_lineworks.Shared.{
  ℕ, Bool, true, false, not, ◌&&◌, ◌||◌, Option, none, some, List, [], ◌∷◌, ◌==◌, nat_eq, list_eq,
  option_eq, nat_beq, if◌then◌else◌, Text, codes, is_sha256, Json, null, bool, nat, number, str,
  arr, obj, Items, nil, item, Fields, end, field, get_field, strs,
}
use xserver_mail_lineworks.EmailAddress.{canonical_email_list}
use xserver_mail_lineworks.XserverApi.Filters.{get_default}
use xserver_mail_lineworks.DeliveryRecovery.{has_keys}

pub data Phase : Type 0 where
  prepared active committed : Phase

pub data Kind : Type 0 where
  add delete : Kind

-- One filter: its id and the hash of it or of its body.
abbrev pub Entry : Type 0
Entry = Text × Text

pub record PendingOp : Type 0 where
  pub kind : Kind
  pub id : Text
  pub sha256 : Text

-- What version 2 has besides.
pub record ConfigPart : Type 0 where
  pub desired_pinned : List Text
  pub desired_targets : List Text
  pub config_before_sha256 : Text
  pub config_expected_sha256 : Text
  pub config_applied_sha256 : Option Text

pub record Saved : Type 0 where
  pub phase : Phase
  pub old : List Entry
  pub new : List Text
  pub unrelated : List Entry
  pub pending : Option PendingOp
  pub new_ids : List Entry
  pub retired_ids : List Text
  pub config : Option ConfigPart

abbrev phase_text : Phase → Text
phase_text prepared = codes "prepared"
phase_text active = codes "active"
phase_text committed = codes "committed"

abbrev kind_text : Kind → Text
kind_text add = codes "add"
kind_text delete = codes "delete"

abbrev entry_json : Entry → Json
entry_json (k, h) = obj (field (codes "id") (str k) (field (codes "sha256") (str h) end))

abbrev entries_json : List Entry → Items
entries_json [] = nil
entries_json (e ∷ es) = item (entry_json e) (entries_json es)

abbrev pending_json : Option PendingOp → Json
pending_json none = null
pending_json (some p) = obj (
    field (codes "id") (str p.id)
      (field (codes "kind") (str (kind_text p.kind)) (field (codes "sha256") (str p.sha256) end)))

abbrev applied_json : Option Text → Json
applied_json none = null
applied_json (some h) = str h

abbrev version_of : Option ConfigPart → ℕ
version_of none = 1
version_of (some c) = 2

abbrev with_config : Option ConfigPart → Fields → Fields
with_config none rest = rest
with_config (some c) rest =
    field (codes "config_applied_sha256") (applied_json c.config_applied_sha256) (
      field (codes "config_before_sha256") (str c.config_before_sha256) (
        field (codes "config_expected_sha256") (str c.config_expected_sha256) (
          field (codes "desired_pinned") (arr (strs c.desired_pinned))
            (field (codes "desired_targets") (arr (strs c.desired_targets)) rest))))

-- The value that `prepare` and `prepare_v2` build, with its keys in the order of `sort_keys`.
unfoldable pub encode : Saved → Fields
encode s = with_config s.config (
    field (codes "new") (arr (strs s.new)) (
      field (codes "new_ids") (arr (entries_json s.new_ids)) (
        field (codes "old") (arr (entries_json s.old)) (
          field (codes "pending") (pending_json s.pending) (
            field (codes "phase") (str (phase_text s.phase)) (
              field (codes "retired_ids") (arr (strs s.retired_ids)) (
                field (codes "schema_version") (nat (version_of s.config))
                  (field (codes "unrelated") (arr (entries_json s.unrelated)) end))))))))

infixl 5 ◌>>=◌
abbrev ◌>>=◌ {ℓ κ} : {A : Type ℓ} {B : Type κ} → Option A → (A → Option B) → Option B
none >>= f = none
some a >>= f = f a

unfoldable pub read_version : Json → Option ℕ
read_version (nat n) = if nat_beq n 1 || nat_beq n 2 then some n else none
read_version (bool b) = if b then some 1 else none
read_version _ = none

unfoldable pub read_phase : Json → Option Phase
read_phase (str t) =
    if t == codes "prepared"
    then some prepared
    else if t == codes "active"
    then some active
    else if t == codes "committed"
    then some committed
    else none
read_phase _ = none

unfoldable pub read_kind : Json → Option Kind
read_kind (str t) =
    if t == codes "add" then some add else if t == codes "delete" then some delete else none
read_kind _ = none

unfoldable pub read_text : Json → Option Text
read_text (str t) = some t
read_text _ = none

-- A list of strings.
unfoldable pub read_items : Items → Option (List Text)
read_items nil = some []
read_items (item v vs) = do t ← read_text v; ts ← read_items vs; some (t ∷ ts)

unfoldable pub read_texts : Json → Option (List Text)
read_texts (arr vs) = read_items vs
read_texts _ = none

abbrev entry_keys : List Text
entry_keys = codes "id" ∷ codes "sha256" ∷ []

unfoldable pub read_entry : Json → Option Entry
read_entry (obj fs) =
    if has_keys entry_keys fs
    then (do
      k ← read_text (get_default (codes "id") null fs)
      h ← read_text (get_default (codes "sha256") null fs)
      some (k, h))
    else none
read_entry _ = none

unfoldable pub read_entry_items : Items → Option (List Entry)
read_entry_items nil = some []
read_entry_items (item v vs) = do e ← read_entry v; es ← read_entry_items vs; some (e ∷ es)

unfoldable pub read_entries : Json → Option (List Entry)
read_entries (arr vs) = read_entry_items vs
read_entries _ = none

abbrev pending_keys : List Text
pending_keys = codes "kind" ∷ codes "id" ∷ codes "sha256" ∷ []

unfoldable pub read_pending : Json → Option (Option PendingOp)
read_pending null = some none
read_pending (obj fs) =
    if has_keys pending_keys fs
    then (do
      k ← read_kind (get_default (codes "kind") null fs)
      i ← read_text (get_default (codes "id") null fs)
      h ← read_text (get_default (codes "sha256") null fs)
      some (some (record { kind = k; id = i; sha256 = h })))
    else none
read_pending _ = none

unfoldable pub read_applied : Json → Option (Option Text)
read_applied null = some none
read_applied (str h) = some (some h)
read_applied _ = none

abbrev same_items : Bool → List Text → Option (List Text)
same_items same xs = if same then some xs else none

-- An address list that is its own canonical form.
unfoldable pub read_addresses : Json → Bool → Option (List Text)
read_addresses v allow_empty = do
  xs ← canonical_email_list v allow_empty true
  same_items (read_texts v == some xs) xs

unfoldable pub read_config : Fields → Option ConfigPart
read_config fs = do
  pinned ← read_addresses (get_default (codes "desired_pinned") null fs) true
  targets ← read_addresses (get_default (codes "desired_targets") null fs) false
  before ← read_text (get_default (codes "config_before_sha256") null fs)
  expected ← read_text (get_default (codes "config_expected_sha256") null fs)
  applied ← read_applied (get_default (codes "config_applied_sha256") null fs)
  some (record {
    desired_pinned = pinned;
    desired_targets = targets;
    config_before_sha256 = before;
    config_expected_sha256 = expected;
    config_applied_sha256 = applied;
  })

-- `V1_KEYS`, and what `V2_KEYS` has besides.
abbrev v1_keys : List Text
v1_keys =
    codes "schema_version"
    ∷ codes "phase"
    ∷ codes "old"
    ∷ codes "new"
    ∷ codes "unrelated"
    ∷ codes "pending"
    ∷ codes "new_ids"
    ∷ codes "retired_ids"
    ∷ []

abbrev v2_keys : List Text
v2_keys =
    codes "desired_pinned"
    ∷ codes "desired_targets"
    ∷ codes "config_before_sha256"
    ∷ codes "config_expected_sha256"
    ∷ codes "config_applied_sha256"
    ∷ v1_keys

abbrev read_version_part : ℕ → Fields → Option (Option ConfigPart)
read_version_part version fs =
    if nat_beq version 1
    then (if has_keys v1_keys fs then some none else none)
    else if has_keys v2_keys fs
    then (do c ← read_config fs; some (some c))
    else none

unfoldable pub read_fields : Fields → Option Saved
read_fields fs = do
  version ← read_version (get_default (codes "schema_version") null fs)
  config ← read_version_part version fs
  phase ← read_phase (get_default (codes "phase") null fs)
  old ← read_entries (get_default (codes "old") null fs)
  unrelated ← read_entries (get_default (codes "unrelated") null fs)
  new_ids ← read_entries (get_default (codes "new_ids") null fs)
  new ← read_texts (get_default (codes "new") null fs)
  retired ← read_texts (get_default (codes "retired_ids") null fs)
  pending ← read_pending (get_default (codes "pending") null fs)
  some (record {
    phase = phase;
    old = old;
    new = new;
    unrelated = unrelated;
    pending = pending;
    new_ids = new_ids;
    retired_ids = retired;
    config = config;
  })
