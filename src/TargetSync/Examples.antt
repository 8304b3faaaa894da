-- ===== src/TargetSync/Examples.antt =====
-- One mailbox with its filter, and a synchronisation that has replaced one filter, with the theorems at
-- them (manager/manage.py).
use xserver_mail_lineworks.Shared.{
  ◌≡◌, refl, true, none, some, [], ◌∷◌, list_beq, all, contains, distinct, subset, is_hex, select,
  find, nat_eq, list_eq, Text, codes, null, str, arr, Fields, field, get_field, strs,
}
use xserver_mail_lineworks.Shared.Exec.{value, ◌>>=◌}
use xserver_mail_lineworks.Shared.Posts.{need}
use xserver_mail_lineworks.EmailAddress.{
  canonical_email_list, canonical_items, canonical_email, canonical_text, count_at, is_mailbox,
  before_at, is_local_part, split_on, is_atom, after_at, is_domain_label, normalized_list,
  insert_unique, is_alnum, is_atext, items_are, lower, sort_unique, text_lt,
}
use xserver_mail_lineworks.XserverApi.Filters.{
  get_default, is_text, copies_to, single, is_managed_filter, legacy_managed, rule, address,
}
use xserver_mail_lineworks.ScopedMigration.{sorted_ids}
use xserver_mail_lineworks.ScopeJournal.{active, Saved}
use xserver_mail_lineworks.ScopeJournal.Checks.{
  is_consistent, config_is_valid, lists_are_valid, pending_is_valid, phase_is_valid,
}
use xserver_mail_lineworks.ScopeJournal.Store.{body_text}
use xserver_mail_lineworks.ScopeJournal.Store.Wire.{store_of}
use xserver_mail_lineworks.TargetSync.{
  Api, Plan, ids_of, keep, address_of, addresses, unexpected, plan_target_sync,
}
use xserver_mail_lineworks.TargetSync.Planning.{Reading, InSync, plan-InSync}
use xserver_mail_lineworks.TargetSync.Commit.{
  by_id, same_set, entries_match, scope_is_committable, verify_committable_scope, Closes,
  verify-Closes,
}

abbrev mailbox : Text
mailbox = codes "a@a.jp"

abbrev command : Text
command = codes "|/n.php"

abbrev filter : Fields
filter = field (codes "id") (str (codes "18")) (rule command mailbox)

abbrev api : Api (Unit {0})
api = record {
  discover_forwarding_sources = λ base w. (value (mailbox ∷ []), w);
  snapshot_filters = λ w. (value (filter ∷ []), w);
}

abbrev nothing_to_do : Plan
nothing_to_do = record {
  add = [];
  delete = [];
  expected = mailbox ∷ [];
  rules = filter ∷ [];
  managed = filter ∷ [];
  retire = [];
}

planned :
    plan_target_sync api command null (some (arr (strs (mailbox ∷ [])))) tt
    ≡ (value nothing_to_do, tt)
unfolding plan_target_sync need ◌>>=◌ canonical_email_list canonical_items canonical_email
    canonical_text count_at is_mailbox before_at is_local_part all split_on is_atom after_at
    is_domain_label normalized_list insert_unique is_alnum is_atext items_are lower sort_unique
    text_lt list_beq ids_of distinct contains keep is_managed_filter legacy_managed single rule
    get_default get_field is_text copies_to addresses address_of address unexpected select
planned = refl

plan-InSync_example :
    Reading api command null (some (arr (strs (mailbox ∷ [])))) tt nothing_to_do tt
    × InSync api command nothing_to_do
plan-InSync_example =
    plan-InSync api command null (some (arr (strs (mailbox ∷ [])))) tt tt nothing_to_do planned refl
      refl

abbrev hash : Text
hash = codes "ffeeddccbbaa99887766554433221100ffeeddccbbaa99887766554433221100"

abbrev replaced : Saved
replaced = record {
  phase = active;
  old = (codes "17", hash) ∷ [];
  new = hash ∷ [];
  unrelated = [];
  pending = none;
  new_ids = (codes "18", hash) ∷ [];
  retired_ids = codes "17" ∷ [];
  config = some (record {
    desired_pinned = [];
    desired_targets = mailbox ∷ [];
    config_before_sha256 = hash;
    config_expected_sha256 = hash;
    config_applied_sha256 = some hash;
  });
}

replaced-is_consistent : is_consistent replaced ≡ true
unfolding is_consistent config_is_valid lists_are_valid pending_is_valid phase_is_valid all contains
    distinct subset is_hex list_beq
replaced-is_consistent = refl

replaced-committable : verify_committable_scope (store_of hash) replaced (filter ∷ []) ≡ true
unfolding verify_committable_scope scope_is_committable by_id get_field list_beq distinct contains
    same_set subset sorted_ids entries_match find body_text rule store_of
replaced-committable = refl

verify-Closes_example : Closes (store_of hash) replaced (by_id (filter ∷ []))
verify-Closes_example =
    verify-Closes (store_of hash) replaced (filter ∷ []) replaced-committable replaced-is_consistent
      (hash, refl)
