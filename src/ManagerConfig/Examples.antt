-- ===== src/ManagerConfig/Examples.antt =====
-- A webhook and a private configuration, and the theorems at them (manager/manage.py).
use xserver_mail_lineworks.Shared.{
  ◌≡◌, refl, ◌↔◌, true, inr, Option, some, [], ◌++◌, length, arith, Text, codes, null, obj, str,
  arr, item, nil, get_field, false, Fields, end, field, list_beq, contains, all, starts_with,
}
use xserver_mail_lineworks.Shared.Exec.{value}
use xserver_mail_lineworks.XserverApi.Filters.{get_default}
use xserver_mail_lineworks.EmailAddress.{
  canonical_email_list, canonical_items, canonical_email, canonical_text, count_at, is_mailbox,
  before_at, is_local_part, split_on, is_atom, after_at, is_domain_label, normalized_list,
  insert_unique, is_alnum, is_atext, items_are, lower, sort_unique, text_lt,
}
use xserver_mail_lineworks.ManagerConfig.Runtime.{
  check_sizes, join, key_is_valid, runtime_config_sizes, set_field, utf8_size, encode64,
}
use xserver_mail_lineworks.ManagerConfig.Runtime.Key.{key_is_valid-encode64}
use xserver_mail_lineworks.ManagerConfig.Runtime.Validation.{validate_runtime_config, test_is_valid}
use xserver_mail_lineworks.ManagerConfig.Runtime.Validation.Bounds.{IsBounded, validated-IsBounded}
use xserver_mail_lineworks.ManagerConfig.Runtime.Validation.Fixed.{validated-fixed}
use xserver_mail_lineworks.ManagerConfig.Ensure.{Outside, Self, ensure_runtime_config}
use xserver_mail_lineworks.ManagerConfig.Ensure.Upgrade.{Outcome, ensure-Outcome}
use xserver_mail_lineworks.ManagerConfig.Webhook.{
  Parsed, drop, endpoint, is_token, masked, plain, validate_webhook_url, mask_webhook_url,
}
use xserver_mail_lineworks.ManagerConfig.Webhook.Masking.{
  Parses, validate_webhook_url_iff, mask_hides,
}

-- Takes a URL of the endpoint apart.
urlparse : Text → Option Parsed
urlparse url = some (plain (drop (length endpoint) url))

urlparse-Parses : Parses urlparse
unfolding urlparse drop
urlparse-Parses token h = refl

abbrev url : Text
url = endpoint ++ codes "s3cret-token"

validate_webhook_url_iff_example :
    (validate_webhook_url urlparse url ≡ some url)
    ↔ ((token : Text) × (url ≡ endpoint ++ token) × (is_token token ≡ true))
validate_webhook_url_iff_example = validate_webhook_url_iff urlparse urlparse-Parses url

mask_hides_example :
    (mask_webhook_url urlparse (endpoint ++ codes "s3cret-token")
      ≡ some (endpoint ++ masked (codes "s3cret-token")))
    × (mask_webhook_url urlparse (endpoint ++ codes "another-token")
        ≡ mask_webhook_url urlparse (endpoint ++ codes "s3cret-token"))
unfolding is_token drop list_beq contains
mask_hides_example =
    mask_hides urlparse urlparse-Parses (codes "s3cret-token") (codes "another-token") refl refl
      (inr (omega arith, omega arith, refl))

abbrev address : Text
address = codes "a@a.jp"

-- Written before the lists were kept in order, with a key that the program does not know.
abbrev old_config : Fields
old_config = field (codes "log_path") (str (codes "/l")) (
    field (codes "error_recipients") (arr (item (str address) (item (str address) nil)))
      (field (codes "other") null end))

abbrev new_config : Fields
new_config = field (codes "log_path") (str (codes "/l")) (
    field (codes "error_recipients") (arr (item (str address) nil)) (
      field (codes "other") null (
        field (codes "notification_targets") (arr nil)
          (field (codes "notification_pinned_targets") (arr nil) end))))

upgraded : validate_runtime_config (obj old_config) false ≡ value new_config
unfolding validate_runtime_config canonical_email_list get_default get_field list_beq
    canonical_items canonical_email canonical_text count_at is_mailbox before_at is_local_part all
    split_on is_atom after_at is_domain_label normalized_list insert_unique is_alnum is_atext
    items_are lower sort_unique text_lt test_is_valid check_sizes join key_is_valid
    runtime_config_sizes set_field utf8_size starts_with
upgraded = refl

validated-IsBounded_example : IsBounded new_config
validated-IsBounded_example = validated-IsBounded (obj old_config) false new_config upgraded

validated-fixed_example : validate_runtime_config (obj new_config) true ≡ value new_config
validated-fixed_example = validated-fixed (obj old_config) false new_config upgraded

-- A client that has the old configuration and takes any other.
client : Outside Fields
client = record {
  read = λ c. (value (c, codes "00"), c);
  compare_and_swap = λ sha256 c w. (
    value (record { status = codes "changed"; old_sha256 = codes "00"; new_sha256 = codes "00" }),
    c,
  );
  token_bytes = λ c. (value (codes "0123456789abcdef0123456789abcdef"), c);
}

abbrev started : Self
started = record { config = end; error_recipients = [] }

ensure-Outcome_example :
    Outcome client started old_config (ensure_runtime_config client (started, old_config))
ensure-Outcome_example = ensure-Outcome client started old_config

key_is_valid-encode64_example :
    key_is_valid (some (str (encode64 (codes "0123456789abcdef0123456789abcdef")))) ≡ true
unfolding all
key_is_valid-encode64_example =
    key_is_valid-encode64 (codes "0123456789abcdef0123456789abcdef") refl refl
