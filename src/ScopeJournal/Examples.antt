-- ===== src/ScopeJournal/Examples.antt =====
-- A synchronisation of one filter, and the theorems at it (manager/scope_journal.py).
use xserver_mail_lineworks.Shared.{
  ◌≡◌, refl, true, false, Option, none, some, List, [], ◌∷◌, list_beq, option_beq, all, distinct,
  contains, subset, is_hex, nat_eq, list_eq, Text, codes, null, str, arr, obj, nil, Fields, end,
  field, get_field,
}
use xserver_mail_lineworks.EmailAddress.{
  canonical_email, canonical_text, count_at, is_mailbox, before_at, is_local_part, split_on,
  is_atom, after_at, is_domain_label, is_alnum, is_atext, lower, text_lt,
}
use xserver_mail_lineworks.EmailAddress.Order.{is_increasing, above}
use xserver_mail_lineworks.ScopedMigration.{Rule}
use xserver_mail_lineworks.ScopeJournal.{prepared, Saved, encode}
use xserver_mail_lineworks.ScopeJournal.Checks.{
  is_consistent, config_is_valid, lists_are_valid, pending_is_valid, phase_is_valid, validate,
}
use xserver_mail_lineworks.ScopeJournal.Checks.Spelling.{validate-encode}
use xserver_mail_lineworks.ScopeJournal.Store.{
  target_sync, filter_scope, given, kind_of, body_of, write, planned_state, prepare, prepare_v2,
  pending_authorization, config_part, body_entries, body_text, body_hashes, unrelated_entries,
}
use xserver_mail_lineworks.ScopeJournal.Store.Cell.{Written, write-Written}
use xserver_mail_lineworks.ScopeJournal.Store.Plan.{
  Authorized, prepare-Authorized, prepare_v2-Authorized,
}
use xserver_mail_lineworks.ScopeJournal.Store.Pending.{
  PendingOutcome, pending_authorization-Recorded,
}
use xserver_mail_lineworks.ScopeJournal.Store.Wire.{store_of, store_of-IsCell, store_of-IsFile}

abbrev hash : Text
hash = codes "ffeeddccbbaa99887766554433221100ffeeddccbbaa99887766554433221100"

abbrev rule : Fields
rule =
    field (codes "domain") (str (codes "a.jp"))
      (field (codes "conditions") (arr nil) (field (codes "action") null end))

abbrev old_rules : List Rule
old_rules = (codes "17", rule) ∷ []

-- Planned for one filter, and nothing done yet.
abbrev one_prepared : Saved
one_prepared = record {
  phase = prepared;
  old = (codes "17", hash) ∷ [];
  new = hash ∷ [];
  unrelated = [];
  pending = none;
  new_ids = [];
  retired_ids = [];
  config = none;
}

abbrev cell : Option Text → Option Text
cell w = w

one_is_consistent : is_consistent one_prepared ≡ true
unfolding is_consistent config_is_valid lists_are_valid pending_is_valid phase_is_valid all contains
    distinct subset is_hex list_beq
one_is_consistent = refl

kind_of_target_sync : kind_of (codes "/home/a/target-sync-scope.json") ≡ some target_sync
unfolding kind_of list_beq
kind_of_target_sync = refl

planned : planned_state (store_of hash) old_rules old_rules (rule ∷ []) none ≡ some one_prepared
unfolding planned_state store_of get_field list_beq contains body_entries body_text body_hashes
    unrelated_entries
planned = refl

-- The same with a configuration.
abbrev one_configured : Saved
one_configured = record one_prepared {
  config = some (record {
    desired_pinned = [];
    desired_targets = codes "a@a.jp" ∷ codes "b@a.jp" ∷ [];
    config_before_sha256 = hash;
    config_expected_sha256 = hash;
    config_applied_sha256 = none;
  });
}

configured-is_consistent : is_consistent one_configured ≡ true
unfolding is_consistent config_is_valid lists_are_valid pending_is_valid phase_is_valid all contains
    distinct subset is_hex list_beq
configured-is_consistent = refl

validate-encode_example : validate (obj (encode one_configured)) ≡ some one_configured
unfolding is_increasing above all canonical_email canonical_text count_at is_mailbox before_at
    is_local_part split_on is_atom after_at is_domain_label is_alnum is_atext lower text_lt list_beq
    option_beq
validate-encode_example =
    validate-encode one_configured configured-is_consistent (refl, refl, refl, refl, refl)

write-Written_example :
    Written
      (store_of hash)
      cell
      one_prepared
      none
      none
      (write (store_of hash) target_sync one_prepared (given none) none)
write-Written_example =
    write-Written (store_of hash) cell (store_of-IsCell hash) one_prepared none none

prepare-Authorized_example :
    Authorized
      (store_of hash)
      cell
      none
      false
      (planned_state (store_of hash) old_rules old_rules (rule ∷ []) none)
      none
      (prepare (store_of hash) filter_scope old_rules old_rules (rule ∷ []) false none)
prepare-Authorized_example =
    prepare-Authorized (store_of hash) cell (store_of-IsFile hash) old_rules old_rules (rule ∷ [])
      false none

abbrev target : Text
target = codes "a@a.jp"

prepare_v2-Authorized_example :
    Authorized
      (store_of hash)
      cell
      (some (config_part (store_of hash) [] (target ∷ []) hash none))
      true
      (planned_state
        (store_of hash)
        old_rules
        old_rules
        (rule ∷ [])
        (some (config_part (store_of hash) [] (target ∷ []) hash none)))
      none
      (prepare_v2
        (store_of hash)
        target_sync
        old_rules
        old_rules
        (rule ∷ [])
        []
        (target ∷ [])
        hash
        none
        true
        none)
prepare_v2-Authorized_example =
    prepare_v2-Authorized (store_of hash) cell (store_of-IsCell hash) old_rules old_rules
      (rule ∷ []) [] (target ∷ []) hash none true none

pending_authorization-Recorded_example :
    PendingOutcome (store_of hash) cell (some (body_of (store_of hash) one_prepared)) (
      pending_authorization
        (store_of hash)
        target_sync
        (some (body_of (store_of hash) one_prepared)))
pending_authorization-Recorded_example =
    pending_authorization-Recorded (store_of hash) cell (store_of-IsCell hash)
      (some (body_of (store_of hash) one_prepared))
