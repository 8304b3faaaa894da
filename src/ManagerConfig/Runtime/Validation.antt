-- ===== src/ManagerConfig/Runtime/Validation.antt =====
-- The rest of `_validate_runtime_config` (manager/manage.py), and `ensure_runtime_config`.
pub mod Bounds
pub mod Fixed
use xserver_mail_lineworks.Shared.{
  ℕ, zero, suc, ◌+◌, ◌*◌, ◌-◌, ◌/◌, ◌%◌, Bool, true, false, not, ◌&&◌, ◌||◌, Option, none, some,
  List, [], ◌∷◌, ◌++◌, ◌==◌, nat_eq, list_eq, bool_eq, nat_beq, leb, ltb, length, all,
  if◌then◌else◌, Text, codes, starts_with, is_digit, Json, null, bool, nat, number, str, arr, obj,
  Items, nil, item, Fields, end, field, get_field, strs,
}
use xserver_mail_lineworks.Shared.Exec.{Answer, value, raised}
use xserver_mail_lineworks.EmailAddress.{canonical_email_list}
use xserver_mail_lineworks.XserverApi.Filters.{get_default}
use xserver_mail_lineworks.ManagerConfig.Webhook.{drop}
use xserver_mail_lineworks.ManagerConfig.Runtime.{
  Failure, not_updatable, addresses_invalid, log_path_unsafe, key_invalid, test_setting_invalid,
  unicode_error, ◌>>=◌, ◌>>◌, need, require, absolute, runtime_config_sizes, check_sizes, set_field,
  key_is_valid, is_url_char,
}

abbrev digit : ℕ → ℕ
digit c = c - 48

-- `dddd-dd-ddTdd:dd:dd+00:00`, where `d` is a digit of the text and all else stands as it is
unfoldable pub has_form : Text → Text → Bool
has_form [] [] = true
has_form (p ∷ pattern) (c ∷ t) =
    (if nat_beq p b'd' then is_digit c else nat_beq p c) && has_form pattern t
has_form _ _ = false

abbrev is_leap : ℕ → Bool
is_leap y = nat_beq (y % 4) 0 && (not (nat_beq (y % 100) 0) || nat_beq (y % 400) 0)

unfoldable pub days_in_month : ℕ → ℕ → ℕ
days_in_month y m =
    if nat_beq m 2
    then (if is_leap y then 29 else 28)
    else if nat_beq m 4 || nat_beq m 6 || nat_beq m 9 || nat_beq m 11
    then 30
    else 31

abbrev pub two : ℕ → ℕ → ℕ
two a b = digit a * 10 + digit b

-- A time that `datetime.fromisoformat` reads and `isoformat` writes in the same way.
abbrev date_is_valid : ℕ → ℕ → ℕ → Bool
date_is_valid y m d = leb 1 y && leb 1 m && leb m 12 && leb 1 d && leb d (days_in_month y m)

unfoldable pub digits_are_valid : Text → Bool
digits_are_valid (a ∷ b ∷ c ∷ d ∷ _ ∷ e ∷ f ∷ _ ∷ g ∷ h ∷ _ ∷ i ∷ j ∷ _ ∷ k ∷ l ∷ _ ∷ m ∷ n ∷ _) =
    date_is_valid (two a b * 100 + two c d) (two e f) (two g h)
    && leb (two i j) 23
    && leb (two k l) 59
    && leb (two m n) 59
digits_are_valid _ = false

unfoldable pub is_utc_time : Text → Bool
is_utc_time t = has_form (codes "dddd-dd-ddTdd:dd:dd+00:00") t && digits_are_valid t

-- `ERRTEST-[A-Za-z0-9_-]{24,120}`
unfoldable pub is_test_token : Text → Bool
unfolding drop starts_with all
is_test_token t =
    starts_with (codes "ERRTEST-") t
    && leb 24 (length (drop 8 t))
    && leb (length (drop 8 t)) 120
    && all is_url_char (drop 8 t)

-- `test_force_webhook_failure_until` and `test_error_subject_token`: both or neither, and not null
-- both or a time with a token.
unfoldable pub test_is_valid : Option Json → Option Json → Bool
test_is_valid none none = true
test_is_valid (some null) (some null) = true
test_is_valid (some (str until)) (some (str token)) = is_test_token token && is_utc_time until
test_is_valid _ _ = false

abbrev dict : Json → Option Fields
dict (obj fs) = some fs
dict _ = none

-- The configuration with its three lists in canonical form.
abbrev pub with_lists : Fields → List Text → List Text → List Text → Fields
with_lists config recipients targets pinned =
    set_field (codes "notification_pinned_targets") (arr (strs pinned)) (
      set_field (codes "notification_targets") (arr (strs targets))
        (set_field (codes "error_recipients") (arr (strs recipients)) config))

unfoldable pub validate_runtime_config : Json → Bool → Answer Failure Fields
validate_runtime_config v strict = do
  config ← need not_updatable (dict v)
  recipients ←
      need addresses_invalid
        (canonical_email_list (get_default (codes "error_recipients") null config) false strict)
  targets ← need addresses_invalid (
      canonical_email_list (get_default (codes "notification_targets") (arr nil) config) true
        strict)
  pinned ← need addresses_invalid (
      canonical_email_list (get_default (codes "notification_pinned_targets") (arr nil) config) true
        strict)
  let result = with_lists config recipients targets pinned
  log_path ← need log_path_unsafe (absolute (get_field (codes "log_path") config))
  sizes ← need unicode_error (runtime_config_sizes recipients log_path)
  check_sizes sizes
  require (key_is_valid (get_field (codes "system_mail_hmac_key") config)) key_invalid
  require
      (test_is_valid (get_field (codes "test_force_webhook_failure_until") config)
        (get_field (codes "test_error_subject_token") config))
      test_setting_invalid
  value result
