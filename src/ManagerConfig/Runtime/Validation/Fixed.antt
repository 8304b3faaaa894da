-- ===== src/ManagerConfig/Runtime/Validation/Fixed.antt =====
-- What `_validate_runtime_config` (manager/manage.py) returns is accepted again, by the strict test too,
-- and as it is.
use xserver_mail_lineworks.Shared.{
  ◌≡◌, refl, ◌∙◌, ap, Bool, true, false, some, List, [], ◌∷◌, ==_iff, nat_eq, list_eq, list_beq,
  contains, arith, subst, Text, codes, Json, null, arr, obj, nil, Fields, get_field, strs,
}
use xserver_mail_lineworks.Shared.Exec.{value}
use xserver_mail_lineworks.EmailAddress.Lists.{canonical_email_list_fixed}
use xserver_mail_lineworks.XserverApi.Filters.{get_default}
use xserver_mail_lineworks.ManagerConfig.Runtime.{set_field}
use xserver_mail_lineworks.ManagerConfig.Runtime.Validation.{with_lists, validate_runtime_config}
use xserver_mail_lineworks.ManagerConfig.Runtime.Validation.Bounds.{
  get_field-set_field, set_field-same, Facts, facts,
}

module _ (config : Fields) (recipients targets pinned : List Text) where
  abbrev whole : Fields
  whole = with_lists config recipients targets pinned

  has_recipients : get_field (codes "error_recipients") whole ≡ some (arr (strs recipients))
  unfolding list_beq
  has_recipients =
      rw (get_field-set_field _ _ _, get_field-set_field _ _ _, get_field-set_field _ _ _) refl

  has_targets : get_field (codes "notification_targets") whole ≡ some (arr (strs targets))
  unfolding list_beq
  has_targets = rw (get_field-set_field _ _ _, get_field-set_field _ _ _) refl

  has_pinned : get_field (codes "notification_pinned_targets") whole ≡ some (arr (strs pinned))
  unfolding list_beq
  has_pinned = rw (get_field-set_field _ _ _) refl

  -- Every other key is kept.
  has_other :
      (k : Text)
      → contains
          (codes "error_recipients"
            ∷ codes "notification_targets"
            ∷ codes "notification_pinned_targets"
            ∷ [])
          k
        ≡ false
      → get_field k whole ≡ get_field k config
  unfolding contains
  has_other k h = ground (
    arith,
    get_field-set_field k (codes "notification_pinned_targets") (arr (strs pinned)) (
        set_field (codes "notification_targets") (arr (strs targets))
          (set_field (codes "error_recipients") (arr (strs recipients)) config)),
    get_field-set_field k (codes "notification_targets") (arr (strs targets))
        (set_field (codes "error_recipients") (arr (strs recipients)) config),
    get_field-set_field k (codes "error_recipients") (arr (strs recipients)) config,
    ==_iff k (codes "error_recipients"),
    ==_iff k (codes "notification_targets"),
    ==_iff k (codes "notification_pinned_targets"),
    ==_iff (codes "error_recipients") k,
    ==_iff (codes "notification_targets") k,
    ==_iff (codes "notification_pinned_targets") k,
  )

  with_lists-same : with_lists whole recipients targets pinned ≡ whole
  with_lists-same =
      rw
        (
          set_field-same (codes "error_recipients") (arr (strs recipients)) whole has_recipients,
          set_field-same (codes "notification_targets") (arr (strs targets)) whole has_targets,
          set_field-same (codes "notification_pinned_targets") (arr (strs pinned)) whole has_pinned,
        )
        refl

other :
    (config : Fields) (recipients targets pinned : List Text) (k : Text)
    → contains
        (codes "error_recipients"
          ∷ codes "notification_targets"
          ∷ codes "notification_pinned_targets"
          ∷ [])
        k
      ≡ false
    → get_field k (with_lists config recipients targets pinned) ≡ get_field k config
other config recipients targets pinned k h = has_other config recipients targets pinned k h

default-some :
    (k : Text) (default : Json) (fs : Fields) {v : Json}
    → get_field k fs ≡ some v
    → get_default k default fs ≡ v
unfolding get_default
default-some k default fs h = rw (h, get_default) refl

fixed :
    {v : Json} {strict : Bool} {r : Fields}
    → Facts v strict r
    → validate_runtime_config (obj r) true ≡ value r
unfolding validate_runtime_config contains list_beq
fixed f =
    subst (λ r. validate_runtime_config (obj r) true ≡ value r) f.is_result
      (rw
        (
          default-some _ null _ (has_recipients f.config f.recipients f.targets f.pinned),
          default-some _ (arr nil) _ (has_targets f.config f.recipients f.targets f.pinned),
          default-some _ (arr nil) _ (has_pinned f.config f.recipients f.targets f.pinned),
          canonical_email_list_fixed _ _ _ _ f.has_recipients,
          canonical_email_list_fixed _ _ _ _ f.has_targets,
          canonical_email_list_fixed _ _ _ _ f.has_pinned,
          other f.config f.recipients f.targets f.pinned (codes "log_path") refl,
          f.has_log_path,
          f.has_sizes,
          f.in_bounds,
          other f.config f.recipients f.targets f.pinned (codes "system_mail_hmac_key") refl,
          f.has_key,
          other f.config f.recipients f.targets f.pinned (codes "test_force_webhook_failure_until")
              refl,
          other f.config f.recipients f.targets f.pinned (codes "test_error_subject_token") refl,
          f.has_test,
        )
        (ap (λ c. value c) (with_lists-same f.config f.recipients f.targets f.pinned)))

-- A configuration that was accepted, strictly or not, is accepted strictly as it was returned, and
-- nothing of it changes: upgrading is idempotent.
pub validated-fixed :
    (v : Json) (strict : Bool) (r : Fields)
    → validate_runtime_config v strict ≡ value r
    → validate_runtime_config (obj r) true ≡ value r
validated-fixed v strict r h = fixed (facts v strict r h)

kept :
    {v : Json} {strict : Bool} {r : Fields} (f : Facts v strict r) (k : Text)
    → contains
        (codes "error_recipients"
          ∷ codes "notification_targets"
          ∷ codes "notification_pinned_targets"
          ∷ [])
        k
      ≡ false
    → get_field k r ≡ get_field k f.config
kept f k h =
    subst (λ r. get_field k r ≡ get_field k f.config) f.is_result
      (has_other f.config f.recipients f.targets f.pinned k h)

pub dict-config :
    {config : Fields} {strict : Bool} {r : Fields} (f : Facts (obj config) strict r)
    → f.config ≡ config
dict-config f = fields-inj f.is_dict
  where
    fields-inj : {a b : Fields} → some b ≡ some a → a ≡ b
    fields-inj h = cc

-- Keys that the program does not know, and the log path, the authentication key and the test setting,
-- are kept as they are.
pub other_keys-kept :
    (config : Fields) (strict : Bool) (r : Fields) (k : Text)
    → validate_runtime_config (obj config) strict ≡ value r
    → contains
        (codes "error_recipients"
          ∷ codes "notification_targets"
          ∷ codes "notification_pinned_targets"
          ∷ [])
        k
      ≡ false
    → get_field k r ≡ get_field k config
other_keys-kept config strict r k h o =
    let f = facts (obj config) strict r h in kept f k o ∙ ap (get_field k) (dict-config f)
