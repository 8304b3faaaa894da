-- ===== src/ManagerConfig/Webhook/Masking.antt =====
-- Which URLs `validate_webhook_url` (manager/manage.py) accepts, and what `mask_webhook_url` shows of
-- them.
use xserver_mail_lineworks.Shared.{
  ℕ, ◌≤◌, ◌<◌, ◌≡◌, refl, sym, ◌∙◌, ap, ◌⊎◌, inl, inr, ◌↔◌, true, false, Option, none, some, [],
  ◌∷◌, ◌++◌, ==_iff, ==_refl, nat_eq, list_eq, option_eq, option_beq, list_beq, and_split,
  Bool-cases, leb, length, all, contains, starts_with, arith, Text,
}
use xserver_mail_lineworks.ManagerConfig.Webhook.{
  Parsed, drop, message, endpoint, is_token, is_token_char, token_of, is_webhook, accepted,
  validate_webhook_url, after_last, last_four, masked, mask_webhook_url, plain,
}

-- The library's parsing of a plain URL of the endpoint.
abbrev pub Parses : (Text → Option Parsed) → Type 0
Parses urlparse =
    (token : Text) → is_token token ≡ true → urlparse (endpoint ++ token) ≡ some (plain token)

is_webhook-token :
    (url : Text) (p : Parsed)
    → is_webhook url p ≡ true
    → (is_token (token_of p.path) ≡ true) × (url ≡ endpoint ++ token_of p.path)
unfolding is_webhook
is_webhook-token url p h =
    (ground arith, (==_iff url (endpoint ++ token_of p.path)).0 (ground arith))

token_of-message : (token : Text) → token_of (message ++ token) ≡ token
unfolding token_of starts_with drop
token_of-message token = refl

is_webhook-plain :
    (token : Text) → is_token token ≡ true → is_webhook (endpoint ++ token) (plain token) ≡ true
unfolding is_webhook list_beq option_beq
is_webhook-plain token h = rw (token_of-message token, ==_refl token, h) refl

no_slash : (t : Text) → all is_token_char t ≡ true → contains t b'/' ≡ false
unfolding all contains
no_slash [] h = refl
no_slash (c ∷ t) h = ground (arith, no_slash t)

token-no_slash : (t : Text) → is_token t ≡ true → contains t b'/' ≡ false
unfolding is_token
token-no_slash t h = no_slash t (and_split _ (all is_token_char t) h).1

after_last-endpoint :
    (token : Text) → is_token token ≡ true → after_last b'/' (endpoint ++ token) ≡ token
unfolding after_last contains
after_last-endpoint token h = rw (token-no_slash token h) refl

module _ (urlparse : Text → Option Parsed) where
  accepted-token :
      (url : Text) (o : Option Parsed)
      → accepted urlparse url o ≡ true
      → (token : Text) × (url ≡ endpoint ++ token) × (is_token token ≡ true)
  accepted-token url none h = absurd (cc)
  accepted-token url (some p) h = let (t, e) = is_webhook-token url p h in (token_of p.path, e, t)

  -- `validate_webhook_url` accepts a URL, and returns it, exactly if it is the endpoint with a token of
  -- one or more characters among letters, digits, `.`, `_`, `~` and `-`; where `urlparse` takes
  -- plain URLs of the endpoint apart as it does.
  pub validate_webhook_url_iff :
      Parses urlparse
      → (url : Text)
      → (validate_webhook_url urlparse url ≡ some url)
        ↔ ((token : Text) × (url ≡ endpoint ++ token) × (is_token token ≡ true))
  unfolding validate_webhook_url
  validate_webhook_url_iff parses url = (forward, backward)
    where
      forward :
          validate_webhook_url urlparse url ≡ some url
          → (token : Text) × (url ≡ endpoint ++ token) × (is_token token ≡ true)
      forward h = elim (Bool-cases (accepted urlparse url (urlparse url))) [
        | inl y ↦ accepted-token url (urlparse url) y
        | inr n ↦ absurd (cc (rw n at h))
      ]

      backward :
          ((token : Text) × (url ≡ endpoint ++ token) × (is_token token ≡ true))
          → validate_webhook_url urlparse url ≡ some url
      backward (token, e, t) = rw (e, parses token t, is_webhook-plain token t) refl

  mask-endpoint :
      Parses urlparse
      → (token : Text) → is_token token ≡ true
      → mask_webhook_url urlparse (endpoint ++ token) ≡ some (endpoint ++ masked token)
  unfolding mask_webhook_url
  mask-endpoint parses token t =
      rw
        (
          (validate_webhook_url_iff parses (endpoint ++ token)).1 (token, refl, t),
          after_last-endpoint token t,
        )
        refl

  -- What may be known of a token: its length if it is at most four, else its last four characters.
  abbrev pub SameShown : Text → Text → Type 0
  SameShown t u =
      ((length t ≤ 4) × (length u ≡ length t))
      ⊎ ((4 < length t) × (4 < length u) × (last_four t ≡ last_four u))

  same_masked : (t u : Text) → SameShown t u → masked t ≡ masked u
  unfolding masked
  same_masked t u (inl (short, e)) = rw (e, few (length t) short) refl
    where
      few : (n : ℕ) → n ≤ 4 → leb n 4 ≡ true
      few n h = ground arith
  same_masked t u (inr (a, b, e)) = rw (long t a, long u b, e) refl
    where
      long : (t : Text) → 4 < length t → leb (length t) 4 ≡ false
      long t h = ground arith

  -- The mask of an accepted URL is the endpoint with a text that depends on nothing of the token but
  -- its length, if that is at most four, and else its last four characters.
  pub mask_hides :
      Parses urlparse
      → (t u : Text) → is_token t ≡ true
      → is_token u ≡ true
      → SameShown t u
      → (mask_webhook_url urlparse (endpoint ++ t) ≡ some (endpoint ++ masked t))
        × (mask_webhook_url urlparse (endpoint ++ u) ≡ mask_webhook_url urlparse (endpoint ++ t))
  mask_hides parses t u a b s = (
    mask-endpoint parses t a,
    mask-endpoint parses u b
        ∙ ap (λ m. some (endpoint ++ m)) (sym (same_masked t u s))
        ∙ sym (mask-endpoint parses t a),
  )
