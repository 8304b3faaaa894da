-- ===== src/PrivateConfig/Config.antt =====
-- The private configuration and the delivery health of `PrivateConfigSsh` (manager/private_config_ssh.py).
-- A time is accepted where `strftime` fills a year up to four digits, as on macOS.
use xserver_mail_lineworks.Shared.{
  ℕ, Bool, true, false, ◌&&◌, ◌||◌, Option, none, some, List, [], ◌∷◌, ◌==◌, nat_eq, list_eq,
  option_eq, nat_beq, leb, contains, is_sha256, if◌then◌else◌, Text, codes, Json, null, nat, str,
  obj, Fields, end, field, get_field,
}
use xserver_mail_lineworks.Shared.Exec.{Exec, require, ◌>>=◌, ◌>>◌}
use xserver_mail_lineworks.Shared.Posts.{need}
use xserver_mail_lineworks.DeliveryRecovery.{has_keys, text_at}
use xserver_mail_lineworks.ManagerConfig.Ensure.{CasResult}
use xserver_mail_lineworks.ManagerConfig.Runtime.Validation.{has_form, digits_are_valid}
use xserver_mail_lineworks.PrivateConfig.{
  Failure, bad_request, unconfirmed, Transport, request, dict, is_one,
}

abbrev dict_at : Option Json → Option Fields
dict_at none = none
dict_at (some v) = dict v

abbrev is_hash : Option Text → Bool
is_hash none = false
is_hash (some t) = is_sha256 t

abbrev both : Option Fields → Option Text → Option (Fields × Text)
both (some config) (some sha256) = some (config, sha256)
both _ _ = none

unfoldable pub read_reply : Fields → Option (Fields × Text)
read_reply fs =
    if has_keys (codes "schema_version" ∷ codes "config" ∷ codes "sha256" ∷ []) fs
      && is_one (get_field (codes "schema_version") fs)
      && is_hash (text_at (codes "sha256") fs)
    then both (dict_at (get_field (codes "config") fs)) (text_at (codes "sha256") fs)
    else none

abbrev results : List Text
results = codes "changed" ∷ codes "unchanged" ∷ codes "conflict" ∷ codes "restored" ∷ []

abbrev result_of : Option Text → Option Text → Option Text → Option CasResult
result_of (some status) (some old) (some new) =
    if contains results status
    then some (record { status = status; old_sha256 = old; new_sha256 = new })
    else none
result_of _ _ _ = none

unfoldable pub swap_reply : Fields → Option CasResult
swap_reply fs =
    if has_keys
        (codes "schema_version" ∷ codes "status" ∷ codes "old_sha256" ∷ codes "new_sha256" ∷ []) fs
      && is_one (get_field (codes "schema_version") fs)
      && is_hash (text_at (codes "old_sha256") fs)
      && is_hash (text_at (codes "new_sha256") fs)
    then result_of (text_at (codes "status") fs) (text_at (codes "old_sha256") fs)
        (text_at (codes "new_sha256") fs)
    else none

-- What a reply says of the delivery's health; `pending_alert` is that of version 2.
pub record Health : Type 0 where
  pub state : Text
  pub changed_at : Option Text
  pub classification : Option Text
  pub next_observation_sequence : ℕ
  pub last_applied_sequence : ℕ
  pub pending_alert : Option (Option Text)

abbrev text_or_null : Option Json → Option (Option Text)
text_or_null (some null) = some none
text_or_null (some (str t)) = some (some t)
text_or_null _ = none

abbrev nat_of : Option Json → Option ℕ
nat_of (some (nat n)) = some n
nat_of _ = none

abbrev health_keys : List Text
health_keys =
    codes "schema_version"
    ∷ codes "state"
    ∷ codes "changed_at"
    ∷ codes "classification"
    ∷ codes "next_observation_sequence"
    ∷ codes "last_applied_sequence"
    ∷ []

abbrev of_version_2 : Option (Option Text) → Option (Option (Option Text))
of_version_2 none = none
of_version_2 (some pending) = some (some pending)

abbrev pending_of : ℕ → Fields → Option (Option (Option Text))
pending_of version fs =
    if nat_beq version 1
    then (if has_keys health_keys fs then some none else none)
    else if nat_beq version 2 && has_keys (codes "pending_alert" ∷ health_keys) fs
    then of_version_2 (text_or_null (get_field (codes "pending_alert") fs))
    else none

infixl 5 ◌>>=?◌
abbrev ◌>>=?◌ {ℓ κ} : {A : Type ℓ} {B : Type κ} → Option A → (A → Option B) → Option B
none >>=? f = none
some a >>=? f = f a

-- The shapes of the values.
unfoldable pub read_health : Fields → Option Health
read_health fs = nat_of (get_field (codes "schema_version") fs) >>=? λ version.
    pending_of version fs >>=? λ pending. text_at (codes "state") fs >>=? λ state.
    text_or_null (get_field (codes "changed_at") fs) >>=? λ changed_at.
    text_or_null (get_field (codes "classification") fs) >>=? λ classification.
    nat_of (get_field (codes "next_observation_sequence") fs) >>=? λ next.
    nat_of (get_field (codes "last_applied_sequence") fs) >>=? λ applied. some (record {
      state = state;
      changed_at = changed_at;
      classification = classification;
      next_observation_sequence = next;
      last_applied_sequence = applied;
      pending_alert = pending;
    })

abbrev failures : List Text
failures =
    codes "invalid_payload"
    ∷ codes "invalid_parameter"
    ∷ codes "missing_parameter"
    ∷ codes "invalid_webhook_url"
    ∷ codes "rate_limited"
    ∷ codes "http_error"
    ∷ codes "transport_error"
    ∷ codes "forced_test_failure"
    ∷ codes "internal_error"
    ∷ codes "system_mail_suppressed"
    ∷ codes "health_state_failure"
    ∷ codes "unknown"
    ∷ []

abbrev is_time : Text → Bool
is_time t = has_form (codes "dddd-dd-ddTdd:dd:ddZ") t && digits_are_valid t

abbrev is_failure : Option Text → Bool
is_failure none = false
is_failure (some t) = contains failures t

abbrev is_time? : Option Text → Bool
is_time? none = false
is_time? (some t) = is_time t

-- The state with the time of its change and its classification.
unfoldable pub state_is_valid : Health → Bool
state_is_valid h =
    (h.state == codes "missing"
      && h.changed_at == none
      && h.classification == none
      && nat_beq h.next_observation_sequence 0
      && nat_beq h.last_applied_sequence 0)
    || (h.state == codes "healthy"
        && is_time? h.changed_at
        && h.classification == some (codes "success"))
    || (h.state == codes "degraded" && is_time? h.changed_at && is_failure h.classification)

abbrev pending_is_valid : Text → Option (Option Text) → Bool
pending_is_valid state none = true
pending_is_valid state (some none) = true
pending_is_valid state (some (some pending)) =
    (state == codes "healthy" && pending == codes "recovery")
    || (state == codes "degraded" && pending == codes "error")

unfoldable pub is_health : Health → Bool
is_health h =
    leb h.last_applied_sequence h.next_observation_sequence
    && state_is_valid h
    && pending_is_valid h.state h.pending_alert

abbrev checked_health : Option Health → Option Health
checked_health none = none
checked_health (some h) = if is_health h then some h else none

module _ {W : Type 0} (t : Transport W) where
  unfoldable pub read : Exec Failure W (Fields × Text)
  read = do
    result ← request t (
        field (codes "operation") (str (codes "read")) (field (codes "schema_version") (nat 1) end))
    fs ← need unconfirmed (dict result)
    need unconfirmed (read_reply fs)

  unfoldable pub compare_and_swap : Text → Fields → Exec Failure W CasResult
  compare_and_swap expected_sha256 updated = do
    require (is_sha256 expected_sha256) bad_request
    result ← request t (
        field (codes "config") (obj updated) (
          field (codes "expected_sha256") (str expected_sha256) (
            field (codes "operation") (str (codes "compare_and_swap"))
              (field (codes "schema_version") (nat 1) end))))
    fs ← need unconfirmed (dict result)
    need unconfirmed (swap_reply fs)

  unfoldable pub health_summary : Exec Failure W Health
  health_summary = do
    result ← request t (
        field (codes "operation") (str (codes "health-summary"))
          (field (codes "schema_version") (nat 1) end))
    fs ← need unconfirmed (dict result)
    need unconfirmed (checked_health (read_health fs))
