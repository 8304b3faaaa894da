-- ===== src/ManagerConfig/Runtime/Validation/Bounds.antt =====
-- What a private configuration is that `_validate_runtime_config` (manager/manage.py) accepts.
use xserver_mail_lineworks.Shared.{
  ℕ, ◌+◌, ◌≤◌, ◌≡◌, refl, sym, ap, max, Bool, true, false, not, ◌&&◌, Option, none, some, List, [],
  ◌∷◌, ◌==◌, ==_iff, nat_eq, list_eq, list_beq, all, length, leb, starts_with, inl, inr, arith,
  subst, if◌then◌else◌, Text, codes, Json, null, str, arr, nil, Fields, end, field, get_field, strs,
  Bool-cases,
}
use xserver_mail_lineworks.Shared.Exec.{Answer, value, raised}
use xserver_mail_lineworks.EmailAddress.{canonical_email_list, is_empty}
use xserver_mail_lineworks.EmailAddress.Order.{is_increasing}
use xserver_mail_lineworks.EmailAddress.Lists.{
  is_canonical, canonical_email_list_strict, canonical_email_list_fixed,
}
use xserver_mail_lineworks.XserverApi.Filters.{get_default}
use xserver_mail_lineworks.ManagerConfig.Runtime.{
  Failure, ◌>>=◌, ◌>>◌, need, require, absolute, join, utf8_size, Sizes, sizes_of, with_log,
  runtime_config_sizes, check_sizes, set_field, key_is_valid,
}
use xserver_mail_lineworks.ManagerConfig.Runtime.Validation.{
  dict, with_lists, test_is_valid, validate_runtime_config,
}

pub get_field-set_field :
    (k j : Text) (v : Json) (fs : Fields)
    → get_field k (set_field j v fs) ≡ (if j == k then some v else get_field k fs)
unfolding get_field set_field
get_field-set_field k j v end = refl
get_field-set_field k j v (field i w fs) =
    ground (arith, ==_iff j i, ==_iff i k, ==_iff j k, get_field-set_field k j v fs)

pub set_field-same :
    (k : Text) (v : Json) (fs : Fields) → get_field k fs ≡ some v → set_field k v fs ≡ fs
unfolding get_field set_field
set_field-same k v end h = cc
set_field-same k v (field j w fs) h = ground (arith, ==_iff k j, ==_iff j k, set_field-same k v fs)

bind-value :
    {A B : Type 0} (m : Answer Failure A) (f : A → Answer Failure B) {b : B}
    → (m >>= f) ≡ value b
    → (a : A) × (m ≡ value a) × (f a ≡ value b)
bind-value (value a) f h = (a, refl, h)
bind-value (raised e) f h = cc

need-value : {A : Type 0} (e : Failure) (o : Option A) {a : A} → need e o ≡ value a → o ≡ some a
need-value e none h = cc
need-value e (some b) h = cc

require-value : (b : Bool) (e : Failure) {u : Unit {0}} → require b e ≡ value u → b ≡ true
require-value true e h = refl
require-value false e h = cc

abbrev ok : Fields → Answer Failure Fields
ok r = value r

value-inj : {r s : Fields} → ok r ≡ ok s → r ≡ s
value-inj h = cc

needed :
    {A B : Type 0} (e : Failure) (o : Option A) (f : A → Answer Failure B) {b : B}
    → (need e o >>= f) ≡ value b
    → (a : A) × (o ≡ some a) × (f a ≡ value b)
needed e o f h = let (a, p, q) = bind-value (need e o) f h in (a, need-value e o p, q)

required :
    {B : Type 0} (t : Bool) (e : Failure) (m : Answer Failure B) {b : B}
    → (require t e >> m) ≡ value b
    → (t ≡ true) × (m ≡ value b)
required t e m h = let (u, p, q) = bind-value (require t e) (λ _. m) h in (require-value t e p, q)

checked-value : (s : Sizes) {u : Unit {0}} → check_sizes s ≡ value u → check_sizes s ≡ value tt
checked-value s h = h

-- What acceptance comes from.
pub record Facts (v : Json) (strict : Bool) (r : Fields) : Type 0 where
  pub config : Fields
  pub recipients : List Text
  pub targets : List Text
  pub pinned : List Text
  pub log_path : Text
  pub sizes : Sizes
  pub is_dict : dict v ≡ some config
  pub has_recipients :
      canonical_email_list (get_default (codes "error_recipients") null config) false strict
      ≡ some recipients
  pub has_targets :
      canonical_email_list (get_default (codes "notification_targets") (arr nil) config) true strict
      ≡ some targets
  pub has_pinned :
      canonical_email_list
        (get_default (codes "notification_pinned_targets") (arr nil) config)
        true
        strict
      ≡ some pinned
  pub has_log_path : absolute (get_field (codes "log_path") config) ≡ some log_path
  pub has_sizes : runtime_config_sizes recipients log_path ≡ some sizes
  pub in_bounds : check_sizes sizes ≡ value tt
  pub has_key : key_is_valid (get_field (codes "system_mail_hmac_key") config) ≡ true
  pub has_test :
      test_is_valid
        (get_field (codes "test_force_webhook_failure_until") config)
        (get_field (codes "test_error_subject_token") config)
      ≡ true
  pub is_result : with_lists config recipients targets pinned ≡ r

pub facts :
    (v : Json) (strict : Bool) (r : Fields)
    → validate_runtime_config v strict ≡ value r
    → Facts v strict r
unfolding validate_runtime_config
facts v strict r h =
    let (config, a, h1) = needed _ (dict v) _ h in
    let (recipients, b, h2) =
      needed _
        (canonical_email_list (get_default (codes "error_recipients") null config) false strict) _
        h1 in
    let (targets, c, h3) =
      needed _
        (canonical_email_list (get_default (codes "notification_targets") (arr nil) config) true
          strict)
        _ h2 in
    let (pinned, d, h4) =
      needed _
        (canonical_email_list (get_default (codes "notification_pinned_targets") (arr nil) config)
          true strict)
        _ h3 in
    let (log_path, e, h5) = needed _ (absolute (get_field (codes "log_path") config)) _ h4 in
    let (sizes, f, h6) = needed _ (runtime_config_sizes recipients log_path) _ h5 in
    let (u, g, h7) = bind-value (check_sizes sizes) _ h6 in
    let (k, h8) =
      required (key_is_valid (get_field (codes "system_mail_hmac_key") config)) _ _ h7 in
    let (t, h9) =
      required
        (test_is_valid (get_field (codes "test_force_webhook_failure_until") config)
          (get_field (codes "test_error_subject_token") config))
        _ _ h8 in
    record {
      config = config;
      recipients = recipients;
      targets = targets;
      pinned = pinned;
      log_path = log_path;
      sizes = sizes;
      is_dict = a;
      has_recipients = b;
      has_targets = c;
      has_pinned = d;
      has_log_path = e;
      has_sizes = f;
      in_bounds = g;
      has_key = k;
      has_test = t;
      is_result = value-inj h9;
    }

nil-empty : (xs : List Text) → is_empty xs ≡ false → 1 ≤ length xs
nil-empty [] h = cc
nil-empty (x ∷ xs) h = omega arith

-- The numbers within the bounds.
sizes_bounded :
    (count to_bytes n : ℕ)
    → check_sizes (sizes_of count to_bytes n) ≡ value tt
    → (count ≤ 32) × (to_bytes ≤ 900) × (n ≤ 4096) × (8192 + to_bytes + n ≤ 65535)
unfolding check_sizes
sizes_bounded count to_bytes n h =
    let (a, h1) = required (leb count 32) _ _ h in
    let (b, h2) = required (leb to_bytes 900) _ _ h1 in
    let (c, h3) = required (leb n 4096) _ _ h2 in
    let d : (leb (max 160 (4 + to_bytes)) 997 && leb (8192 + to_bytes + n) 65535) ≡ true =
      require-value _ _ h3 in
    (ground arith, ground arith, ground arith, ground arith)

text-inj : {s t : Text} → some s ≡ some t → s ≡ t
text-inj h = cc

absolute-at :
    (s : Text) {t : Text}
    → starts_with (codes "/") s ≡ true
    → absolute (some (str s)) ≡ some t
    → (some (str s) ≡ some (str t)) × (starts_with (codes "/") t ≡ true)
absolute-at s y h =
    let e = text-inj (rw y at h) in
    (ap (λ u. some (str u)) e, subst (λ u. starts_with (codes "/") u ≡ true) e y)

absolute-text :
    (o : Option Json) {t : Text}
    → absolute o ≡ some t
    → (o ≡ some (str t)) × (starts_with (codes "/") t ≡ true)
absolute-text none h = cc
absolute-text (some (str s)) h = elim (Bool-cases (starts_with (codes "/") s)) [
  | inl y ↦ absolute-at s y h
  | inr n ↦ absurd (cc (rw n at h))
]
absolute-text (some _) h = cc

-- An address list of the configuration: canonical, sorted and without repetition.
abbrev pub Listed : Fields → Text → List Text → Type 0
Listed r k xs =
    (get_field k r ≡ some (arr (strs xs)))
    × (is_increasing xs ≡ true)
    × (all is_canonical xs ≡ true)

abbrev pub IsBounded : Fields → Type 0
IsBounded r =
    (recipients : List Text) × Listed r (codes "error_recipients") recipients
    × (1 ≤ length recipients)
    × (length recipients ≤ 32)
    × (length (join recipients) ≤ 900)
    × (log_path : Text) × (get_field (codes "log_path") r ≡ some (str log_path))
    × (starts_with (codes "/") log_path ≡ true)
    × (n : ℕ) × (utf8_size log_path ≡ some n)
    × (n ≤ 4096)
    × (8192 + length (join recipients) + n ≤ 65535)

pub listed :
    (v : Json) (allow_empty strict : Bool) (xs : List Text)
    → canonical_email_list v allow_empty strict ≡ some xs
    → (is_increasing xs ≡ true)
      × (all is_canonical xs ≡ true)
      × ((not allow_empty && is_empty xs) ≡ false)
listed v allow_empty strict xs h =
    let (a, b, c, d) =
      (canonical_email_list_strict (arr (strs xs)) allow_empty xs).0
        (canonical_email_list_fixed v allow_empty strict xs h) in
    (b, c, d)

with_log-some :
    (recipients : List Text) (o : Option ℕ) {s : Sizes}
    → with_log recipients o ≡ some s
    → (n : ℕ) × (o ≡ some n) × (sizes_of (length recipients) (length (join recipients)) n ≡ s)
with_log-some recipients none h = cc
with_log-some recipients (some n) h = (n, refl, sizes-inj h)
  where
    sizes-inj : {s t : Sizes} → some s ≡ some t → s ≡ t
    sizes-inj h = cc

pub Facts-IsBounded : {v : Json} {strict : Bool} {r : Fields} → Facts v strict r → IsBounded r
unfolding runtime_config_sizes list_beq
Facts-IsBounded {v} {strict} {r} f =
    let (inc, can, full) = listed _ false strict f.recipients f.has_recipients in
    let (path, slash) = absolute-text _ f.has_log_path in
    let (n, u, e) = with_log-some f.recipients (utf8_size f.log_path) f.has_sizes in
    let (count, bytes, log, total) =
      sizes_bounded (length f.recipients) (length (join f.recipients)) n
        (subst (λ s. check_sizes s ≡ value tt) (sym e) f.in_bounds) in
    subst IsBounded f.is_result (
      f.recipients,
      (
        rw (get_field-set_field _ _ _, get_field-set_field _ _ _, get_field-set_field _ _ _) refl,
        inc,
        can,
      ),
      nil-empty f.recipients full,
      count,
      bytes,
      f.log_path,
      rw (get_field-set_field _ _ _, get_field-set_field _ _ _, get_field-set_field _ _ _) path,
      slash,
      n,
      u,
      log,
      total,
    )

-- An accepted configuration has between one and 32 error recipients, canonical, sorted and without
-- repetition, of at most 900 bytes together with their commas, and an absolute log path of at most
-- 4,096 bytes; the message that is made of both has at most 65,535 bytes.
pub validated-IsBounded :
    (v : Json) (strict : Bool) (r : Fields)
    → validate_runtime_config v strict ≡ value r
    → IsBounded r
validated-IsBounded v strict r h = Facts-IsBounded (facts v strict r h)
