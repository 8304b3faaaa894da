-- ===== src/PrivateConfig.antt =====
-- manager/private_config_ssh.py: the client of the helper that keeps the private configuration and the
-- journals on the mail server. The SSH boundary is the parameter `Transport`, with `json`, base64 and
-- SHA-256; bytes are a text, and a version that is a float is taken as wrong. An error of any kind
-- in what a reply says is `unconfirmed`.
pub mod Journal
pub mod Config
pub mod Examples
use xserver_mail_lineworks.Shared.{
  ℕ, Bool, true, false, not, ◌&&◌, ◌||◌, Option, none, some, List, [], ◌∷◌, ◌++◌, ◌==◌, nat_eq,
  list_eq, option_eq, nat_beq, leb, length, all, distinct, contains, starts_with, is_digit,
  is_sha256, if◌then◌else◌, Text, codes, Json, null, bool, nat, str, obj, Fields, end, field,
  get_field,
}
use xserver_mail_lineworks.Shared.Exec.{
  Exec, Answer, value, raised, pure, raise, require, ◌>>=◌, ◌>>◌,
}
use xserver_mail_lineworks.Shared.Posts.{need}
use xserver_mail_lineworks.EmailAddress.{split_on}
use xserver_mail_lineworks.DeliveryRecovery.{has_keys, unique_objects, text_at}
use xserver_mail_lineworks.ManagerConfig.Webhook.{drop}

-- `ValueError` at a request, `RuntimeError`, and what the boundary raises.
pub data Failure : Type 0 where
  bad_request unconfirmed outside : Failure

pub record Transport (W : Type 0) : Type 0 where
  pub run_trusted : Text → Exec Failure W Text
  pub canonical : Json → Text
  pub loads : Text → Option Json
  pub b64encode : Text → Text
  pub b64decode : Text → Option Text
  pub sha256 : Text → Text

abbrev is_letter : ℕ → Bool
is_letter c = (leb 65 c && leb c 90) || (leb 97 c && leb c 122)

abbrev is_alnum : ℕ → Bool
is_alnum c = is_digit c || is_letter c

abbrev is_name_char : ℕ → Bool
is_name_char c = is_alnum c || nat_beq c b'_' || nat_beq c b'-'

abbrev is_name : Text → Bool
is_name [] = false
is_name (c ∷ t) = is_alnum c && all is_name_char t && leb (length t) 63

-- `_HOME`
unfoldable pub is_home : Text → Bool
unfolding all starts_with drop
is_home t = starts_with (codes "/home/") t && is_name (drop 6 t)

abbrev is_lower_alnum : ℕ → Bool
is_lower_alnum c = is_digit c || (leb 97 c && leb c 122)

abbrev last_is : (ℕ → Bool) → Text → Bool
last_is test [] = false
last_is test (c ∷ []) = test c
last_is test (_ ∷ c ∷ t) = last_is test (c ∷ t)

abbrev first_is : (ℕ → Bool) → Text → Bool
first_is test [] = false
first_is test (c ∷ t) = test c

abbrev is_label : Text → Bool
is_label t =
    all (λ c. is_lower_alnum c || nat_beq c b'-') t
    && first_is is_lower_alnum t
    && last_is is_lower_alnum t
    && leb (length t) 63

-- `_HOST`
unfoldable pub is_host : Text → Bool
unfolding all split_on
is_host t =
    leb 1 (length t)
    && leb (length t) 253
    && leb 2 (length (split_on b'.' t))
    && all is_label (split_on b'.' t)

-- The checks of `__init__`
unfoldable pub is_client : Text → List Text → Bool
is_client filesystem_home expected_hosts =
    is_home filesystem_home
    && not (expected_hosts == [])
    && distinct expected_hosts
    && all is_host expected_hosts

module _ {W : Type 0} (t : Transport W) where
  abbrev unique : Option Json → Option Json
  unique none = none
  unique (some v) = if unique_objects v then some v else none

  unfoldable pub request : Fields → Exec Failure W Json
  request fs = do
    let payload = t.canonical (obj fs)
    require (leb (length payload) 262144) bad_request
    output ← t.run_trusted payload
    need unconfirmed (unique (t.loads output))

abbrev pub dict : Json → Option Fields
dict (obj fs) = some fs
dict _ = none

-- `type(v) is int and v == 1`
abbrev pub is_one : Option Json → Bool
is_one (some (nat n)) = nat_beq n 1
is_one _ = false

-- `v == 1`
abbrev pub equals_one : Option Json → Bool
equals_one (some (bool b)) = b
equals_one v = is_one v
