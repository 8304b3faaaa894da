-- ===== src/XserverApi/Request.antt =====
-- `_request`, and the reading and checking of address lists, of manager/xserver_api.py. The
-- transport (urllib, TLS and the server) is the parameter `Transport`; the URL that a call builds is
-- what it asks for, as a value of `Resource`.
use xserver_mail_lineworks.Shared.{
  ◌≡◌, refl, ◌⊎◌, inl, inr, ℕ, suc, Bool, true, false, ◌&&◌, Option, none, some, List, [], ◌∷◌,
  Text, codes, nat_eq, length, list_eq, all, if◌then◌else◌, is_digit, nat_beq, ◌*◌, ◌+◌, ◌-◌, Json,
  null, str, arr, obj, Items, nil, item, end, get_field,
}
use xserver_mail_lineworks.EmailAddress.{canonical_email, canonical_email_list}

pub data Error : Type 0 where
  forbidden failed invalid_response not_managed not_confirmed no_id attribute_error : Error
  rate_limited : Option ℕ → Error

pub data Result {ℓ} (A : Type ℓ) : Type ℓ where
  ok : A → Result A
  err : Error → Result A

infixl 5 ◌>>=◌ ◌>>◌
abbrev pub ◌>>=◌ {ℓ κ} : {A : Type ℓ} {B : Type κ} → Result A → (A → Result B) → Result B
ok a >>= f = f a
err e >>= f = err e

abbrev pub ◌>>◌ {ℓ κ} : {A : Type ℓ} {B : Type κ} → Result A → Result B → Result B
m >> k = m >>= λ _. k

pub Result-cases {ℓ} :
    {A : Type ℓ} (r : Result A) → ((a : A) × (r ≡ ok a)) ⊎ ((e : Error) × (r ≡ err e))
Result-cases (ok a) = inl (a, refl)
Result-cases (err e) = inr (e, refl)

-- The collections below the server's URL; a `?domain=` query is the `some` of `filters`.
pub data Resource : Type 0 where
  filters : Option Text → Resource
  filter : Text → Resource
  mail : Text → Resource
  forwarding : Text → Resource

pub data Method : Type 0 where
  get post delete : Method

-- What the transport answers: the body as JSON, an empty body, or an HTTP error with its code and
-- its `Retry-After` header.
pub data Reply : Type 0 where
  body : Json → Reply
  empty_body : Reply
  http_error : ℕ → Option Text → Reply

abbrev decimal : ℕ → Text → ℕ
decimal n [] = n
decimal n (c ∷ s) = decimal (n * 10 + (c - 48)) s

is_digits : Text → Bool
is_digits [] = false
is_digits (c ∷ s) = all is_digit (c ∷ s)

-- `int(value) if value and value.isdigit() else None`
unfoldable pub retry_after : Option Text → Option ℕ
unfolding is_digits all
retry_after none = none
retry_after (some t) = if is_digits t then some (decimal 0 t) else none

unfoldable pub read_reply : Reply → Result Json
unfolding retry_after
read_reply (body v) = ok v
read_reply empty_body = ok (obj end)
read_reply (http_error code header) =
    if nat_beq code 403
    then err forbidden
    else if nat_beq code 429
    then err (rate_limited (retry_after header))
    else err failed

-- `value.get(key)` on an object, with `null` for a missing key
unfoldable pub lookup_or_null : Text → Json → Json
lookup_or_null k (obj fs) = elim (get_field k fs) [ none ↦ null | some v ↦ v ]
lookup_or_null k _ = null

-- The same on a payload, which is no object only if the server's answer is none: then the attribute
-- is missing.
unfoldable pub payload_get : Text → Json → Result Json
payload_get k (obj fs) = ok (lookup_or_null k (obj fs))
payload_get k _ = err attribute_error

unfoldable pub canonical_address : Json → Result Text
canonical_address v = elim (canonical_email v) [ none ↦ err invalid_response | some a ↦ ok a ]

abbrev items_length : Items → ℕ
items_length nil = 0
items_length (item _ vs) = suc (items_length vs)

abbrev json_length : Json → ℕ
json_length (arr vs) = items_length vs
json_length _ = 0

-- `_validate_unique_addresses`
unfoldable pub unique_addresses : Json → Result (List Text)
unique_addresses v = elim (canonical_email_list v true false) [
  | none ↦ err invalid_response
  | some xs ↦ if nat_beq (length xs) (json_length v) then ok xs else err invalid_response
]

is_object : Json → Bool
is_object (obj _) = true
is_object _ = false

abbrev all_objects : Items → Bool
all_objects nil = true
all_objects (item v vs) = is_object v && all_objects vs

abbrev addresses_of : Items → Items
addresses_of nil = nil
addresses_of (item v vs) = item (lookup_or_null (codes "mail_address") v) (addresses_of vs)

unfoldable pub account_addresses : Json → Result (List Text)
unfolding is_object lookup_or_null
account_addresses (arr vs) =
    if all_objects vs then unique_addresses (arr (addresses_of vs)) else err invalid_response
account_addresses _ = err invalid_response

-- What the server answers to a read, at the moment of the call.
module _ (fetch : Resource → Reply) where
  unfoldable pub list_mail_accounts : Text → Result (List Text)
  list_mail_accounts domain = do
    v ← read_reply (fetch (mail domain))
    accounts ← payload_get (codes "accounts") v
    account_addresses accounts

  unfoldable pub list_forwarding_addresses : Text → Result (List Text)
  list_forwarding_addresses address = do
    a ← canonical_address (str address)
    v ← read_reply (fetch (forwarding a))
    addresses ← payload_get (codes "forwarding_addresses") v
    unique_addresses addresses
