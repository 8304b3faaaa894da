-- ===== src/ManagerConfig/Runtime.antt =====
-- `_runtime_config_sizes` and `_validate_runtime_config` of `MailManager` (manager/manage.py): the private
-- configuration within the bounds of the system mail. What a `\d` beyond ASCII would be is refused like
-- the source does in the end, by its comparison with `isoformat`.
pub mod Validation
pub mod Key
use xserver_mail_lineworks.Shared.{
  ℕ, zero, suc, ◌+◌, ◌-◌, ◌*◌, ◌/◌, ◌%◌, max, Bool, true, false, not, ◌&&◌, ◌||◌, Option, none,
  some, List, [], ◌∷◌, ◌++◌, ◌==◌, nat_eq, list_eq, bool_eq, nat_beq, leb, ltb, length, all,
  if◌then◌else◌, Text, codes, starts_with, is_digit, Json, null, str, arr, obj, Items, nil, Fields,
  end, field, get_field, strs,
}
use xserver_mail_lineworks.Shared.Exec.{Answer, value, raised}
use xserver_mail_lineworks.EmailAddress.{canonical_email_list}
use xserver_mail_lineworks.XserverApi.Filters.{get_default}

-- The `RuntimeError`s by their messages, and the `UnicodeEncodeError` of a path with a lone surrogate.
pub data Failure : Type 0 where
  not_updatable addresses_invalid log_path_unsafe too_many_recipients recipients_too_long : Failure
  over_size_limit key_invalid test_setting_invalid unicode_error : Failure

infixl 5 ◌>>=◌ ◌>>◌
abbrev pub ◌>>=◌ : {A B : Type 0} → Answer Failure A → (A → Answer Failure B) → Answer Failure B
value a >>= f = f a
raised e >>= f = raised e

abbrev pub ◌>>◌ : {B : Type 0} → Answer Failure (Unit {0}) → Answer Failure B → Answer Failure B
m >> n = m >>= λ _. n

abbrev pub need : {A : Type 0} → Failure → Option A → Answer Failure A
need e none = raised e
need e (some a) = value a

abbrev pub require : Bool → Failure → Answer Failure (Unit {0})
require true e = value tt
require false e = raised e

-- `",".join(xs)`
unfoldable pub join : List Text → Text
join [] = []
join (x ∷ []) = x
join (x ∷ y ∷ xs) = x ++ b',' ∷ join (y ∷ xs)

abbrev plus? : ℕ → Option ℕ → Option ℕ
plus? n none = none
plus? n (some m) = some (n + m)

-- The bytes of one code point in UTF-8; a surrogate has none.
abbrev code_size : ℕ → ℕ
code_size c = if ltb c 128 then 1 else if ltb c 2048 then 2 else if ltb c 65536 then 3 else 4

-- `len(t.encode("utf-8"))`
unfoldable pub utf8_size : Text → Option ℕ
utf8_size [] = some 0
utf8_size (c ∷ t) =
    let rest = utf8_size t in if leb 55296 c && ltb c 57344 then none else plus? (code_size c) rest

pub record Sizes : Type 0 where
  pub recipient_count : ℕ
  pub to_bytes : ℕ
  pub log_path_bytes : ℕ
  pub header_line_bytes : ℕ
  pub signed_message_bytes : ℕ

abbrev sizes_of : ℕ → ℕ → ℕ → Sizes
sizes_of count to_bytes log_bytes = record {
  recipient_count = count;
  to_bytes = to_bytes;
  log_path_bytes = log_bytes;
  header_line_bytes = max 160 (length (codes "To: ") + to_bytes);
  signed_message_bytes = 8192 + to_bytes + log_bytes;
}

abbrev with_log : List Text → Option ℕ → Option Sizes
with_log recipients none = none
with_log recipients (some log_bytes) =
    some (sizes_of (length recipients) (length (join recipients)) log_bytes)

unfoldable pub runtime_config_sizes : List Text → Text → Option Sizes
runtime_config_sizes recipients log_path = with_log recipients (utf8_size log_path)

unfoldable pub check_sizes : Sizes → Answer Failure (Unit {0})
check_sizes s = do
  require (leb s.recipient_count 32) too_many_recipients
  require (leb s.to_bytes 900) recipients_too_long
  require (leb s.log_path_bytes 4096) log_path_unsafe
  require (leb s.header_line_bytes 997 && leb s.signed_message_bytes 65535) over_size_limit

-- `value[k] = v`
unfoldable pub set_field : Text → Json → Fields → Fields
set_field k v end = field k v end
set_field k v (field j w fs) =
    let rest = set_field k v fs in if k == j then field j v fs else field j w rest

abbrev absolute : Option Json → Option Text
absolute (some (str t)) = if starts_with (codes "/") t then some t else none
absolute _ = none

abbrev is_alnum : ℕ → Bool
is_alnum c = is_digit c || (leb 65 c && leb c 90) || (leb 97 c && leb c 122)

-- `[A-Za-z0-9_-]`
abbrev pub is_url_char : ℕ → Bool
is_url_char c = is_alnum c || nat_beq c b'_' || nat_beq c b'-'

-- The six bits of a character of URL-safe base64, and the character of six bits.
unfoldable pub bits_of : ℕ → ℕ
bits_of c =
    if nat_beq c b'-'
    then 62
    else if nat_beq c b'_'
    then 63
    else if is_digit c
    then c + 4
    else if leb c 90
    then c - 65
    else c - 71

unfoldable pub char_of : ℕ → ℕ
char_of n =
    if ltb n 26
    then n + 65
    else if ltb n 52
    then n + 71
    else if ltb n 62
    then n - 4
    else if nat_beq n 62
    then b'-'
    else b'_'

-- `base64.urlsafe_b64decode` of characters of the alphabet that one `=` completes
unfoldable pub decode64 : Text → Text
decode64 (a ∷ b ∷ c ∷ d ∷ t) =
    (bits_of a * 4 + bits_of b / 16)
    ∷ (bits_of b % 16 * 16 + bits_of c / 4)
    ∷ (bits_of c % 4 * 64 + bits_of d)
    ∷ decode64 t
decode64 (a ∷ b ∷ c ∷ []) =
    (bits_of a * 4 + bits_of b / 16) ∷ (bits_of b % 16 * 16 + bits_of c / 4) ∷ []
decode64 _ = []

-- `base64.urlsafe_b64encode(bytes).rstrip(b"=")`
unfoldable pub encode64 : Text → Text
encode64 (x ∷ y ∷ z ∷ t) =
    char_of (x / 4)
    ∷ char_of (x % 4 * 16 + y / 16)
    ∷ char_of (y % 16 * 4 + z / 64)
    ∷ char_of (z % 64)
    ∷ encode64 t
encode64 (x ∷ y ∷ []) = char_of (x / 4) ∷ char_of (x % 4 * 16 + y / 16) ∷ char_of (y % 16 * 4) ∷ []
encode64 (x ∷ []) = char_of (x / 4) ∷ char_of (x % 4 * 16) ∷ []
encode64 [] = []

abbrev decoded_key : Text → Text
decoded_key key = if nat_beq (length key) 43 && all is_url_char key then decode64 key else []

abbrev pub is_hmac_key : Text → Bool
is_hmac_key key =
    let decoded = decoded_key key in nat_beq (length decoded) 32 && encode64 decoded == key

-- The key may be missing or null.
unfoldable pub key_is_valid : Option Json → Bool
key_is_valid none = true
key_is_valid (some null) = true
key_is_valid (some (str key)) = is_hmac_key key
key_is_valid _ = false
