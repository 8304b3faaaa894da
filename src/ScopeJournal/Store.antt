-- ===== src/ScopeJournal/Store.antt =====
-- Reading, writing and preparing the journal (manager/scope_journal.py). What the FTPS deployer does
-- is the parameter `Ftps`, with the library's `json.dumps(…, sort_keys=True)` without and with
-- `ensure_ascii=False`, `json.loads` and SHA-256; `loads` gives the pairs of each object as they stand.
pub mod Cell
pub mod Plan
pub mod Pending
pub mod Wire
use xserver_mail_lineworks.Shared.{
  ℕ, Bool, true, false, not, ◌&&◌, ◌||◌, Option, none, some, List, [], ◌∷◌, ◌++◌, ◌==◌, nat_eq,
  list_eq, option_eq, pair_eq, leb, length, contains, select, keys, if◌then◌else◌, Text, codes,
  Json, null, str, obj, Fields, end, field, get_field,
}
use xserver_mail_lineworks.Shared.Exec.{
  Exec, Answer, value, raised, proceed, pure, raise, gets, require, ◌>>=◌, ◌>>◌,
}
use xserver_mail_lineworks.EmailAddress.{split_on}
use xserver_mail_lineworks.ScopedMigration.{Rule}
use xserver_mail_lineworks.DeliveryRecovery.{unique_objects}
use xserver_mail_lineworks.ScopeJournal.{
  Phase, prepared, active, committed, Entry, PendingOp, ConfigPart, Saved, encode,
}
use xserver_mail_lineworks.ScopeJournal.Checks.{validate, hashes}

-- `ScopeJournalError` with its three messages, `KeyError`, `TypeError`, and what the outside raises.
pub data Failure : Type 0 where
  invalid mismatch readback_failed key_error type_error outside : Failure

pub data JournalKind : Type 0 where
  target_sync filter_scope : JournalKind

abbrev last_of : List Text → Text
last_of [] = []
last_of (x ∷ []) = x
last_of (_ ∷ x ∷ xs) = last_of (x ∷ xs)

-- `__init__`
unfoldable pub kind_of : Text → Option JournalKind
unfolding split_on
kind_of path =
    let name = last_of (split_on b'/' path) in
    if name == codes "target-sync-scope.json"
    then some target_sync
    else if name == codes "filter-scope.json"
    then some filter_scope
    else none

pub record Ftps (W : Type 0) : Type 0 where
  pub read_scope_journal : JournalKind → Exec Failure W (Option Text)
  pub compare_and_swap_scope_journal : JournalKind → Option Text → Text → Exec Failure W Text
  pub write_scope_journal : JournalKind → Text → Exec Failure W Text
  pub dumps : Json → Text
  pub dumps_unicode : Json → Text
  pub loads : Text → Option Json
  pub sha256 : Text → Text

-- `expected=...` of `write`
pub data Expected : Type 0 where
  not_given : Expected
  given : Option Text → Expected

module _ {W : Type 0} (ftps : Ftps W) where
  abbrev pub catching : {A : Type 0} → Failure → Answer Failure A → Answer Failure A
  catching e (value a) = value a
  catching e (raised x) = raised e

  -- `except (…) as error: raise ScopeJournalError(…) from error`
  unfoldable pub rescue : {A : Type 0} → Failure → Exec Failure W A → Exec Failure W A
  rescue e m w = let (r, t) = m w in (catching e r, t)

  abbrev catching_rest : {A : Type 0} → Failure → Answer Failure A → Answer Failure A
  catching_rest e (value a) = value a
  catching_rest e (raised type_error) = raised type_error
  catching_rest e (raised x) = raised e

  -- The same after `except TypeError: raise`.
  unfoldable pub rescue_rest : {A : Type 0} → Failure → Exec Failure W A → Exec Failure W A
  rescue_rest e m w = let (r, t) = m w in (catching_rest e r, t)

  abbrev parsed : Option Json → Option Saved
  parsed none = none
  parsed (some v) = if unique_objects v then validate v else none

  abbrev with_body : Text → Option Saved → Exec Failure W (Option (Saved × Text))
  with_body body none = raise invalid
  with_body body (some s) = pure (some (s, body))

  unfoldable pub decode_body : Text → Option Saved
  decode_body body = if leb (length body) 65536 then parsed (ftps.loads body) else none

  abbrev read_body : Option Text → Exec Failure W (Option (Saved × Text))
  read_body none = pure none
  read_body (some body) = with_body body (decode_body body)

  unfoldable pub read_exact : JournalKind → Exec Failure W (Option (Saved × Text))
  read_exact kind = do body ← rescue invalid (ftps.read_scope_journal kind); read_body body

  unfoldable pub body_of : Saved → Text
  body_of s = ftps.dumps (obj (encode s)) ++ b'\n' ∷ []

  abbrev swap : Expected → Text → Exec Failure W Text
  swap not_given body = raise type_error
  swap (given (some [])) body = raise type_error
  swap (given expected) body =
      rescue_rest readback_failed (ftps.compare_and_swap_scope_journal target_sync expected body)

  abbrev store : JournalKind → Expected → Text → Exec Failure W Text
  store target_sync expected body = swap expected body
  store filter_scope expected body =
      rescue_rest readback_failed (ftps.write_scope_journal filter_scope body)

  abbrev need_valid : Option Saved → Exec Failure W Saved
  need_valid none = raise invalid
  need_valid (some s) = pure s

  unfoldable pub write : JournalKind → Saved → Expected → Exec Failure W Text
  write kind s expected = do
    checked ← need_valid (validate (obj (encode s)))
    let body = body_of checked
    stored ← store kind expected body
    require (leb (length body) 65536 && stored == body) readback_failed
    pure body

  -- `body` and `digest`; `none` is a `KeyError`.
  abbrev pick : Option Json → Option Json → Option Json → Option Text
  pick (some d) (some c) (some a) = some (
      ftps.dumps_unicode (
        obj
          (field (codes "domain") d (field (codes "conditions") c (field (codes "action") a end)))))
  pick _ _ _ = none

  unfoldable pub body_text : Fields → Option Text
  body_text r =
      pick (get_field (codes "domain") r) (get_field (codes "conditions") r)
        (get_field (codes "action") r)

  abbrev cons? : {A : Type 0} → Option A → Option (List A) → Option (List A)
  cons? (some x) (some xs) = some (x ∷ xs)
  cons? _ _ = none

  abbrev pub hashed : Option Text → Option Text
  hashed none = none
  hashed (some t) = some (ftps.sha256 t)

  abbrev entry_of : Text → Option Text → Option Entry
  entry_of k none = none
  entry_of k (some h) = some (k, h)

  unfoldable pub body_entries : List Rule → Option (List Entry)
  body_entries [] = some []
  body_entries ((k, r) ∷ rs) = cons? (entry_of k (hashed (body_text r))) (body_entries rs)

  unfoldable pub body_hashes : List Fields → Option (List Text)
  body_hashes [] = some []
  body_hashes (r ∷ rs) = cons? (hashed (body_text r)) (body_hashes rs)

  unfoldable pub unrelated_entries : List Text → List Rule → List Entry
  unrelated_entries old [] = []
  unrelated_entries old ((k, r) ∷ rs) =
      let rest = unrelated_entries old rs in
      if contains old k then rest else (k, ftps.sha256 (ftps.dumps_unicode (obj r))) ∷ rest

  abbrev fresh_state :
      List Rule
      → List Rule
      → Option ConfigPart
      → Option (List Entry)
      → Option (List Text)
      → Option Saved
  fresh_state all_rules old_rules config (some old) (some new) = some (record {
    phase = prepared;
    old = old;
    new = new;
    unrelated = unrelated_entries (keys old_rules) all_rules;
    pending = none;
    new_ids = [];
    retired_ids = [];
    config = config;
  })
  fresh_state _ _ _ _ _ = none

  -- The value that `prepare` and `prepare_v2` build.
  unfoldable pub planned_state :
      List Rule → List Rule → List Fields → Option ConfigPart → Option Saved
  planned_state all_rules old_rules desired config =
      fresh_state all_rules old_rules config (body_entries old_rules) (body_hashes desired)

  abbrev is_committed : Phase → Bool
  is_committed committed = true
  is_committed _ = false

  abbrev need_planned : Option Saved → Exec Failure W Saved
  need_planned none = raise key_error
  need_planned (some s) = pure s

  abbrev current_bytes : Option (Saved × Text) → Option Text
  current_bytes none = none
  current_bytes (some (s, body)) = some body

  -- The stored journal that stands in the way, if there is one.
  abbrev in_the_way : Bool → Option (Saved × Text) → Option Saved
  in_the_way replace_committed none = none
  in_the_way replace_committed (some (s, body)) =
      if replace_committed && is_committed s.phase then none else some s

  abbrev resumed : (Saved → Bool) → Saved → Exec Failure W Saved
  resumed same current = do require (same current) mismatch; pure current

  -- Writes the planned journal, or resumes the stored one if it is of the same plan.
  unfoldable pub write_or_resume :
      JournalKind
      → Saved
      → (Saved → Bool)
      → Option (Saved × Text)
      → Option Saved
      → Exec Failure W Saved
  write_or_resume kind planned same current none = do
    write kind planned (given (current_bytes current))
    pure planned
  write_or_resume kind planned same current (some s) = resumed same s

  abbrev same_lists : Saved → Saved → Bool
  same_lists s t = s.old == t.old && s.new == t.new && s.unrelated == t.unrelated

  unfoldable pub prepare :
      JournalKind → List Rule → List Rule → List Fields → Bool → Exec Failure W Saved
  prepare kind all_rules old_rules desired replace_committed = do
    planned ← need_planned (planned_state all_rules old_rules desired none)
    current ← read_exact kind
    write_or_resume kind planned (λ s. same_lists s planned) current
        (in_the_way replace_committed current)

  abbrev same_config : Option ConfigPart → ConfigPart → Bool
  same_config none d = false
  same_config (some c) d =
      c.desired_pinned == d.desired_pinned
      && c.desired_targets == d.desired_targets
      && c.config_before_sha256 == d.config_before_sha256
      && c.config_expected_sha256 == d.config_expected_sha256

  -- `config_before_sha256 if config_expected_sha256 is None else config_expected_sha256`
  abbrev or_before : Text → Option Text → Text
  or_before before none = before
  or_before before (some h) = h

  abbrev pub config_part : List Text → List Text → Text → Option Text → ConfigPart
  config_part desired_pinned desired_targets before expected = record {
    desired_pinned = desired_pinned;
    desired_targets = desired_targets;
    config_before_sha256 = before;
    config_expected_sha256 = or_before before expected;
    config_applied_sha256 = none;
  }

  unfoldable pub prepare_v2 :
      JournalKind
      → List Rule
      → List Rule
      → List Fields
      → List Text
      → List Text
      → Text
      → Option Text
      → Bool
      → Exec Failure W Saved
  prepare_v2 kind all_rules old_rules desired desired_pinned desired_targets before expected
        replace_committed =
      do
        let config = config_part desired_pinned desired_targets before expected
        planned ← need_planned (planned_state all_rules old_rules desired (some config))
        need_valid (validate (obj (encode planned)))
        current ← read_exact kind
        write_or_resume kind planned (λ s. same_lists s planned && same_config s.config config)
            current (in_the_way replace_committed current)

  abbrev pending_of : Option (Saved × Text) → Option PendingOp
  pending_of none = none
  pending_of (some (s, body)) = s.pending

  unfoldable pub pending_authorization : JournalKind → Exec Failure W (Option PendingOp)
  pending_authorization kind = do current ← read_exact kind; pure (pending_of current)
