-- ===== src/TargetSync.antt =====
-- manager/manage.py: which mailboxes are to have a filter, and what a synchronisation has to change.
-- The API is the parameter `Api`.
pub mod Planning
pub mod Commit
pub mod Examples
use xserver_mail_lineworks.Shared.{
  ℕ, Bool, true, false, not, ◌&&◌, ◌||◌, Option, none, some, List, [], ◌∷◌, ◌++◌, ◌==◌, nat_eq,
  list_eq, contains, distinct, all, select, if◌then◌else◌, Text, codes, Json, null, str, Fields,
  get_field,
}
use xserver_mail_lineworks.Shared.Exec.{
  Exec, Answer, value, raised, pure, raise, gets, require, ◌>>=◌, ◌>>◌,
}
use xserver_mail_lineworks.Shared.Posts.{need}
use xserver_mail_lineworks.EmailAddress.{
  canonical_text, canonical_email, canonical_email_list, cons?, sort_unique,
}
use xserver_mail_lineworks.XserverApi.Filters.{
  get_default, is_managed_filter, legacy_managed, address,
}

-- The `RuntimeError`s by their messages, `CanonicalEmailError`, another Python error at a rule of a
-- wrong shape, and what the API raises.
pub data Failure : Type 0 where
  base_unknown sources_unreadable sources_ambiguous : Failure
  ids_ambiguous filters_conflict addresses_invalid wrong_shape outside : Failure

pub record Api (W : Type 0) : Type 0 where
  pub discover_forwarding_sources : Text → Exec Failure W (List Text)
  pub snapshot_filters : Exec Failure W (List Fields)

pub record Plan : Type 0 where
  pub add : List Text
  pub delete : List Text
  pub expected : List Text
  pub rules : List Fields
  pub managed : List Fields
  pub retire : List Fields

unfoldable pub canonical_all : List Text → Option (List Text)
canonical_all [] = some []
canonical_all (t ∷ ts) = cons? (canonical_text t) (canonical_all ts)

-- The test of `expected_targets` on canonical addresses.
unfoldable pub is_target_list : Text → List Text → Bool
is_target_list base ts = not (ts == []) && ts == sort_unique ts && contains ts base

-- `rule.get("id")` of every rule, if all are non-empty strings.
abbrev id_of : Option Json → Option Text
id_of (some (str [])) = none
id_of (some (str t)) = some t
id_of _ = none

unfoldable pub ids_of : List Fields → Option (List Text)
ids_of [] = some []
ids_of (r ∷ rs) = cons? (id_of (get_field (codes "id") r)) (ids_of rs)

-- `[rule for rule in rules if test(rule)]`, where the test may fail
abbrev kept : Fields → Option Bool → Option (List Fields) → Option (List Fields)
kept r (some true) (some rs) = some (r ∷ rs)
kept r (some false) (some rs) = some rs
kept r _ _ = none

unfoldable pub keep : (Fields → Option Bool) → List Fields → Option (List Fields)
keep test [] = some []
keep test (r ∷ rs) = kept r (test r) (keep test rs)

abbrev text_of : Option Json → Option Text
text_of (some (str t)) = some t
text_of _ = none

-- `_address` of a filter
unfoldable pub address_of : Fields → Option Text
address_of r = text_of (address r)

unfoldable pub addresses : List Fields → Option (List Text)
addresses [] = some []
addresses (r ∷ rs) = cons? (address_of r) (addresses rs)

-- `[rule for rule in managed if _address(rule) not in expected]`, with the addresses beside
unfoldable pub unexpected : List Text → List Fields → List Text → List Fields
unexpected expected (r ∷ rs) (a ∷ more) =
    let rest = unexpected expected rs more in if contains expected a then rest else r ∷ rest
unexpected expected _ _ = []

module _ {W : Type 0} (api : Api W) (command_target : Text) where
  unfoldable pub expected_targets : Json → Exec Failure W (List Text)
  expected_targets base_address = do
    base ← need base_unknown (canonical_email base_address)
    targets ← api.discover_forwarding_sources base
    canonical ← need sources_unreadable (canonical_all targets)
    require (is_target_list base canonical) sources_ambiguous
    pure canonical

  abbrev given_or_expected : Json → Option Json → Exec Failure W (List Text)
  given_or_expected base_address none = expected_targets base_address
  given_or_expected base_address (some v) =
      need addresses_invalid (canonical_email_list v false true)

  unfoldable pub plan_target_sync : Json → Option Json → Exec Failure W Plan
  plan_target_sync base_address given = do
    expected ← given_or_expected base_address given
    rules ← api.snapshot_filters
    ids ← need ids_ambiguous (ids_of rules)
    require (distinct ids) ids_ambiguous
    managed ← need wrong_shape (keep (is_managed_filter command_target) rules)
    legacy ← need wrong_shape (keep (legacy_managed command_target) rules)
    current ← need wrong_shape (addresses managed)
    require (distinct current) filters_conflict
    old ← need wrong_shape (addresses legacy)
    pure (record {
      add = select (λ a. not (contains current a)) expected;
      delete = select (λ a. not (contains expected a)) current ++ old;
      expected = expected;
      rules = rules;
      managed = managed;
      retire = unexpected expected managed current ++ legacy;
    })
