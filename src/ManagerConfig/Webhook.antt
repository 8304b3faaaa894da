-- ===== src/ManagerConfig/Webhook.antt =====
-- `validate_webhook_url` and `mask_webhook_url` (manager/manage.py). `urlparse` with the port of its
-- result is the parameter; `none` is a `ValueError` of either.
pub mod Masking
use xserver_mail_lineworks.Shared.{
  ℕ, zero, suc, ◌+◌, ◌-◌, ◌≤◌, ◌<◌, ◌≡◌, refl, sym, ◌∙◌, ap, ◌⊎◌, inl, inr, ◌↔◌, Bool, true, false,
  not, ◌&&◌, ◌||◌, Option, none, some, List, [], ◌∷◌, ◌++◌, ◌==◌, ==_iff, ==_refl, nat_eq, list_eq,
  option_eq, list_beq, and_split, Bool-cases, nat_beq, leb, length, all, contains, starts_with,
  arith, if◌then◌else◌, Text, codes, is_digit,
}

pub record Parsed : Type 0 where
  pub scheme : Text
  pub hostname : Option Text
  pub username : Option Text
  pub password : Option Text
  pub port : Option ℕ
  pub path : Text
  pub query : Text
  pub fragment : Text

-- `s.removeprefix(prefix)` where `s` starts with it
unfoldable pub drop : ℕ → Text → Text
drop zero t = t
drop (suc n) [] = []
drop (suc n) (c ∷ t) = drop n t

abbrev pub message : Text
message = codes "/message/"

abbrev pub endpoint : Text
endpoint = codes "https://webhook.worksmobile.com/message/"

-- `[A-Za-z0-9._~-]`
abbrev is_token_char : ℕ → Bool
is_token_char c =
    is_digit c || (leb 65 c && leb c 90) || (leb 97 c && leb c 122) || contains (codes "._~-") c

unfoldable pub is_token : Text → Bool
unfolding all
is_token t = not (t == []) && all is_token_char t

unfoldable pub token_of : Text → Text
unfolding drop
token_of path = if starts_with message path then drop (length message) path else []

unfoldable pub is_webhook : Text → Parsed → Bool
is_webhook url p =
    let token = token_of p.path in
    p.scheme == codes "https"
    && p.hostname == some (codes "webhook.worksmobile.com")
    && p.username == none
    && p.password == none
    && p.port == none
    && p.path == message ++ token
    && is_token token
    && p.query == []
    && p.fragment == []
    && url == endpoint ++ token

-- The text after the last `c`.
unfoldable pub after_last : ℕ → Text → Text
after_last c [] = []
after_last c (x ∷ t) =
    let rest = after_last c t in if contains t c then rest else if x == c then t else x ∷ t

abbrev star : ℕ
star = b'*'

unfoldable pub stars : ℕ → Text
stars zero = []
stars (suc n) = star ∷ stars n

-- `token[-4:]`
abbrev pub last_four : Text → Text
last_four t = drop (length t - 4) t

unfoldable pub masked : Text → Text
masked token =
    if leb (length token) 4 then stars (length token) else codes "********…" ++ last_four token

-- What `urlparse` makes of a plain URL of the endpoint.
abbrev pub plain : Text → Parsed
plain token = record {
  scheme = codes "https";
  hostname = some (codes "webhook.worksmobile.com");
  username = none;
  password = none;
  port = none;
  path = message ++ token;
  query = [];
  fragment = [];
}

module _ (urlparse : Text → Option Parsed) where
  abbrev accepted : Text → Option Parsed → Bool
  accepted url none = false
  accepted url (some p) = is_webhook url p

  -- `none` is the `RuntimeError`.
  unfoldable pub validate_webhook_url : Text → Option Text
  validate_webhook_url url = if accepted url (urlparse url) then some url else none

  abbrev mask : Option Text → Option Text
  mask none = none
  mask (some url) = some (endpoint ++ masked (after_last b'/' url))

  unfoldable pub mask_webhook_url : Text → Option Text
  mask_webhook_url url = mask (validate_webhook_url url)
