-- ===== src/LocalConfig.antt =====
-- macos/local_config.py: what the launcher takes for its local configuration. `none` is
-- `LocalConfigError`. Control characters are those of category Cc, which are two ranges; `casefold`
-- is `lower` on what may be `public_html`.
pub mod Paths
mod Examples
use xserver_mail_lineworks.Shared.{
  ℕ, Bool, true, false, not, ◌&&◌, ◌||◌, Option, none, some, List, [], ◌∷◌, ◌++◌, ◌==◌, nat_eq,
  list_eq, nat_beq, leb, length, all, any, contains, map, starts_with, is_digit, if◌then◌else◌,
  Text, codes, Json, str, obj, Fields, end, field, get_field,
}
use xserver_mail_lineworks.EmailAddress.{split_on, lower, is_domain_label}
use xserver_mail_lineworks.DeliveryRecovery.{has_keys, unique_objects, text_at}
use xserver_mail_lineworks.ManagerConfig.Webhook.{drop}

-- `s.endswith(suffix)`
unfoldable pub ends_with : Text → Text → Bool
ends_with suffix [] = suffix == []
ends_with suffix (c ∷ t) = (suffix == c ∷ t) || ends_with suffix t

-- `part in s`
unfoldable pub has_part : Text → Text → Bool
unfolding starts_with
has_part part [] = part == []
has_part part (c ∷ t) = starts_with part (c ∷ t) || has_part part t

unfoldable pub is_dns_hostname : Text → Bool
unfolding split_on
is_dns_hostname value =
    leb (length value) 253
    && not (ends_with (codes ".") value)
    && leb 2 (length (split_on b'.' value))
    && all is_domain_label (split_on b'.' value)

abbrev tail : List Text → List Text
tail [] = []
tail (x ∷ xs) = xs

-- `value.split("/")[1:]`
abbrev pub parts : Text → List Text
parts value = tail (split_on b'/' value)

abbrev pub is_plain : Text → Bool
is_plain part = not (part == [] || part == codes "." || part == codes "..")

abbrev pub is_public : Text → Bool
is_public part = map lower part == codes "public_html"

unfoldable pub validate_path : Text → Bool
validate_path value =
    starts_with (codes "/") value
    && not (has_part (codes "//") value)
    && all is_plain (parts value)
    && not (any is_public (parts value))

abbrev is_alnum : ℕ → Bool
is_alnum c = is_digit c || (leb 65 c && leb c 90) || (leb 97 c && leb c 122)

-- `_SSH_ALIAS`
unfoldable pub is_ssh_alias : Text → Bool
is_ssh_alias [] = false
is_ssh_alias (c ∷ t) =
    is_alnum c && all (λ d. is_alnum d || contains (codes "._-") d) t && leb (length t) 127

abbrev config_keys : List Text
config_keys =
    codes "servername"
    ∷ codes "command_path"
    ∷ codes "ftps_host"
    ∷ codes "config_path"
    ∷ codes "filesystem_home"
    ∷ codes "ssh_alias"
    ∷ []

abbrev is_control : ℕ → Bool
is_control c = leb c 31 || (leb 127 c && leb c 159)

abbrev is_value : Json → Bool
is_value (str t) = not (t == []) && not (any is_control t)
is_value _ = false

unfoldable pub values_are_valid : Fields → Bool
values_are_valid end = true
values_are_valid (field k v fs) = is_value v && values_are_valid fs

abbrev pub holds : (Text → Bool) → Option Text → Bool
holds test none = false
holds test (some t) = test t

abbrev is_servername : Text → Bool
is_servername t =
    is_dns_hostname t
    && (ends_with (codes ".xsrv.jp") (map lower t) || ends_with (codes ".xbiz.jp") (map lower t))

abbrev is_alias : Text → Bool
is_alias t = is_ssh_alias t && not (contains t b'*')

unfoldable pub config_is_valid : Fields → Bool
config_is_valid fs =
    has_keys config_keys fs
    && values_are_valid fs
    && holds is_servername (text_at (codes "servername") fs)
    && holds is_dns_hostname (text_at (codes "ftps_host") fs)
    && holds is_alias (text_at (codes "ssh_alias") fs)
    && holds validate_path (text_at (codes "command_path") fs)
    && holds validate_path (text_at (codes "config_path") fs)
    && holds validate_path (text_at (codes "filesystem_home") fs)

unfoldable pub validate_config : Json → Option Fields
validate_config (obj fs) = if config_is_valid fs then some fs else none
validate_config _ = none

abbrev pub unique : Json → Option Json
unique v = if unique_objects v then some v else none

abbrev pub validated : Option Json → Option Fields
validated none = none
validated (some v) = validate_config v

abbrev pub parsed : Option Json → Option Fields
parsed none = none
parsed (some v) = validated (unique v)

-- The end of `load_config_with_digest`: `raw` is the file's bytes, `loads` decodes them and gives the
-- pairs of `json.loads`.
unfoldable pub load_config : (Text → Option Json) → Text → Option Fields
load_config loads raw = if leb (length raw) 65536 then parsed (loads raw) else none

abbrev environment_names : List (Text × Text)
environment_names =
    (codes "servername", codes "XSERVER_SERVERNAME")
    ∷ (codes "command_path", codes "XSERVER_COMMAND_PATH")
    ∷ (codes "ftps_host", codes "XSERVER_FTPS_HOST")
    ∷ (codes "config_path", codes "XSERVER_CONFIG_PATH")
    ∷ (codes "filesystem_home", codes "XSERVER_HOME")
    ∷ (codes "ssh_alias", codes "XSERVER_SSH_ALIAS")
    ∷ []

abbrev pair : Text → Option Json → Option (List (Text × Json)) → Option (List (Text × Json))
pair name (some v) (some rest) = some ((name, v) ∷ rest)
pair name _ _ = none

unfoldable pub environment : List (Text × Text) → Fields → Option (List (Text × Json))
environment [] config = some []
environment ((k, name) ∷ names) config = pair name (get_field k config) (environment names config)

-- `to_environment`; `none` is a `KeyError`.
unfoldable pub to_environment : Fields → Option (List (Text × Json))
to_environment config = environment environment_names config
