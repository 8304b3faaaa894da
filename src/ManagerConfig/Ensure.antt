-- ===== src/ManagerConfig/Ensure.antt =====
-- `_read_private_config`, `_replace_private_config` and `ensure_runtime_config` of `MailManager`
-- (manager/manage.py). The private configuration client and the random bytes are the parameter
-- `Outside`, whose state is `W`; an exception of the client is `client_error`.
pub mod Upgrade
use xserver_mail_lineworks.Shared.{
  ℕ, ◌+◌, ◌≡◌, refl, sym, ◌∙◌, ap, Bool, true, false, not, ◌&&◌, ◌||◌, Option, none, some, List, [],
  ◌∷◌, ◌==◌, nat_eq, list_eq, list_beq, bool_eq, nat_beq, arith, if◌then◌else◌, Bool-cases, Text,
  codes, Json, null, bool, nat, number, str, arr, obj, Items, nil, item, Fields, end, field,
  get_field, strs, ◌⊎◌, inl, inr,
}
use xserver_mail_lineworks.Shared.Exec.{
  Exec, Answer, value, raised, proceed, pure, raise, gets, require, ◌>>=◌, ◌>>◌,
}
use xserver_mail_lineworks.DeliveryRecovery.{has_keys}
use xserver_mail_lineworks.ManagerConfig.Runtime.{Failure, set_field, encode64}
use xserver_mail_lineworks.ManagerConfig.Runtime.Validation.{validate_runtime_config}
use xserver_mail_lineworks.ManagerConfig.Runtime.Validation.Bounds.{
  IsBounded, Facts, facts, validated-IsBounded, get_field-set_field,
}
use xserver_mail_lineworks.ManagerConfig.Runtime.Validation.Fixed.{validated-fixed}

abbrev fields_count : Fields → ℕ
fields_count end = 0
fields_count (field k v fs) = 1 + fields_count fs

-- Python's `==` on JSON values; `number` is compared by its literal.
unfoldable mutual
  pub equal_json : Json → Json → Bool
  equal_json null null = true
  equal_json (bool a) (bool b) = a == b
  equal_json (bool a) (nat n) = nat_beq n (if a then 1 else 0)
  equal_json (nat n) (bool a) = nat_beq n (if a then 1 else 0)
  equal_json (nat n) (nat m) = nat_beq n m
  equal_json (number s) (number t) = s == t
  equal_json (str s) (str t) = s == t
  equal_json (arr vs) (arr ws) = equal_items vs ws
  equal_json (obj fs) (obj gs) = nat_beq (fields_count fs) (fields_count gs) && equal_fields fs gs
  equal_json _ _ = false

  equal_items : Items → Items → Bool
  equal_items nil nil = true
  equal_items (item v vs) (item w ws) = equal_json v w && equal_items vs ws
  equal_items _ _ = false

  -- Every key of the first has an equal value in the second.
  equal_fields : Fields → Fields → Bool
  equal_fields end gs = true
  equal_fields (field k v fs) gs =
      elim (get_field k gs) [ none ↦ false | some w ↦ equal_json v w ] && equal_fields fs gs

pub data Error : Type 0 where
  invalid : Failure → Error
  client_error read_failed not_confirmed conflict : Error

pub record CasResult : Type 0 where
  pub status : Text
  pub old_sha256 : Text
  pub new_sha256 : Text

pub record Outside (W : Type 0) : Type 0 where
  pub read : Exec Error W (Fields × Text)
  pub compare_and_swap : Text → Fields → Exec Error W CasResult
  -- `secrets.token_bytes(32)`
  pub token_bytes : Exec Error W Text

-- What the manager keeps.
pub record Self : Type 0 where
  pub config : Fields
  pub error_recipients : List Text

module _ {W : Type 0} (out : Outside W) where
  abbrev State : Type 0
  State = Self × W

  abbrev catching : {A : Type 0} → Error → Answer Error A → Answer Error A
  catching e (value a) = value a
  catching e (raised x) = raised e

  -- A call of the outside leaves the manager as it is.
  unfoldable pub outside : {A : Type 0} → Exec Error W A → Exec Error State A
  outside m (self, w) = let (r, w') = m w in (r, (self, w'))

  unfoldable pub read_private_config : Exec Error State (Fields × Text)
  read_private_config = outside (λ w. let (r, w') = out.read w in (catching read_failed r, w'))

  abbrev pub confirm : CasResult → Fields → Fields × Text → Bool
  confirm result updated (readback, sha256) =
      sha256 == result.new_sha256 && equal_json (obj readback) (obj updated)

  abbrev swapped : CasResult → Fields → Bool → Exec Error State Bool
  swapped result updated true = pure false
  swapped result updated false = do
    require (result.status == codes "changed" || result.status == codes "unchanged") not_confirmed
    back ← outside out.read
    require (confirm result updated back) not_confirmed
    pure true

  unfoldable pub replace_private_config : Text → Fields → Exec Error State Bool
  replace_private_config expected_sha256 updated = do
    result ← outside (out.compare_and_swap expected_sha256 updated)
    swapped result updated (result.status == codes "conflict")

  abbrev lift : {A : Type 0} → Answer Failure A → Exec Error State A
  lift (value a) = pure a
  lift (raised e) = raise (invalid e)

  abbrev pub key_name : Text
  key_name = codes "system_mail_hmac_key"

  abbrev with_key : Fields → Option Json → Exec Error State Fields
  with_key updated (some key) = pure updated
  with_key updated none = do
    bytes ← outside out.token_bytes
    pure (set_field key_name (str (encode64 bytes)) updated)

  abbrev recipients_in : Items → List Text
  recipients_in (item (str t) vs) = t ∷ recipients_in vs
  recipients_in _ = []

  -- `list(updated["error_recipients"])`
  abbrev pub recipients_of : Option Json → List Text
  recipients_of (some (arr vs)) = recipients_in vs
  recipients_of _ = []

  unfoldable pub keep : Fields → Exec Error State Bool
  keep updated (self, w) = (
    value true,
    (
      record {
        config = updated;
        error_recipients = recipients_of (get_field (codes "error_recipients") updated);
      },
      w,
    ),
  )

  abbrev unless_equal : Bool → Text → Fields → Exec Error State Bool
  unless_equal true sha256 updated = keep updated
  unless_equal false sha256 updated = do
    replaced ← replace_private_config sha256 updated
    require replaced conflict
    keep updated

  unfoldable pub ensure_runtime_config : Exec Error State Bool
  ensure_runtime_config = do
    current ← read_private_config
    canonical ← lift (validate_runtime_config (obj current.0) false)
    keyed ← with_key canonical (get_field key_name canonical)
    updated ← lift (validate_runtime_config (obj keyed) true)
    unless_equal (equal_json (obj updated) (obj current.0)) current.1 updated
