-- ===== src/XserverApi/Replacement.antt =====
-- `list_filters`, `add_filter`, `delete_filter` and `replace_managed_filter` of manager/xserver_api.py.
-- The transport with the server behind it is the parameter `send`, an action on the state of
-- everything outside.
pub mod Order
mod Examples
use xserver_mail_lineworks.Shared.{
  ℕ, suc, String, Bool, true, false, not, ◌&&◌, ◌||◌, Option, none, some, List, [], ◌∷◌, ◌==◌,
  nat_eq, list_eq, nat_beq, leb, Text, codes, any, if◌then◌else◌, Json, null, bool, nat, number,
  str, arr, obj, Items, nil, item, Fields, end, field, get_field, is_digit,
}
use xserver_mail_lineworks.Shared.Exec.{
  Exec, Answer, value, raised, proceed, pure, raise, require, ◌>>=◌, ◌>>◌,
}
use xserver_mail_lineworks.XserverApi.Filters.{get_default, is_text, is_managed_filter}
use xserver_mail_lineworks.XserverApi.Request.{
  Error, not_managed, not_confirmed, no_id, attribute_error, Resource, filters, filter, Method, get,
  post, delete, Reply, Result, ok, err, read_reply,
}

-- `bool(value)`; another number is zero if it has no digit but zeros before its exponent.
abbrev mantissa : Text → Text
mantissa [] = []
mantissa (c ∷ t) =
    let rest = mantissa t in if nat_beq c b'e' || nat_beq c b'E' then [] else c ∷ rest

unfoldable pub truthy : Json → Bool
unfolding any
truthy null = false
truthy (bool b) = b
truthy (nat n) = leb 1 n
truthy (number t) = any (λ c. is_digit c && not (nat_beq c b'0')) (mantissa t)
truthy (str t) = not (t == [])
truthy (arr nil) = false
truthy (arr _) = true
truthy (obj end) = false
truthy (obj _) = true

-- The values that a `for` goes through; `none` is a value that cannot be iterated.
abbrev chars : Text → Items
chars [] = nil
chars (c ∷ t) = item (str (c ∷ [])) (chars t)

abbrev key_items : Fields → Items
key_items end = nil
key_items (field k _ fs) = item (str k) (key_items fs)

unfoldable pub iterate : Json → Option Items
iterate (arr vs) = some vs
iterate (str t) = some (chars t)
iterate (obj fs) = some (key_items fs)
iterate _ = none

abbrev or_else : Option Bool → Option Bool → Option Bool
or_else (some false) rest = rest
or_else first _ = first

-- `any(test(item) for item in values)`, where `item.get` fails on a value that is no object.
unfoldable pub any_item : (Fields → Option Bool) → Items → Option Bool
any_item test nil = some false
any_item test (item (obj r) vs) = or_else (test r) (any_item test vs)
any_item test (item _ vs) = none

unfoldable pub any_filter : (Fields → Option Bool) → Json → Option Bool
any_filter test v = elim (iterate v) [ none ↦ none | some vs ↦ any_item test vs ]

abbrev id_is : Text → Fields → Bool
id_is k r = is_text k (get_default (codes "id") null r)

abbrev and_also : Bool → Option Bool → Option Bool
and_also true x = x
and_also false x = some false

-- Python's `==` on JSON values: objects without regard to order, numbers that are not natural by
-- their literals, and `True` and `False` as 1 and 0.
abbrev nat_of : Bool → ℕ
nat_of true = 1
nat_of false = 0

abbrev is_nat : ℕ → Json → Bool
is_nat n (nat m) = nat_beq n m
is_nat n (bool b) = nat_beq n (nat_of b)
is_nat n _ = false

abbrev is_number : Text → Json → Bool
is_number t (number u) = t == u
is_number t _ = false

abbrev is_null : Json → Bool
is_null null = true
is_null _ = false

abbrev holds_at : (Json → Bool) → Option Json → Bool
holds_at p none = false
holds_at p (some v) = p v

abbrev fields_count : Fields → ℕ
fields_count end = 0
fields_count (field _ _ fs) = suc (fields_count fs)

unfoldable mutual
  pub equals : Json → Json → Bool
  equals null w = is_null w
  equals (bool b) w = is_nat (nat_of b) w
  equals (nat n) w = is_nat n w
  equals (number t) w = is_number t w
  equals (str t) w = is_text t w
  equals (arr vs) (arr ws) = items_equal vs ws
  equals (arr vs) _ = false
  equals (obj fs) (obj gs) = nat_beq (fields_count fs) (fields_count gs) && fields_within fs gs
  equals (obj fs) _ = false

  pub items_equal : Items → Items → Bool
  items_equal nil nil = true
  items_equal (item v vs) (item w ws) = equals v w && items_equal vs ws
  items_equal _ _ = false

  pub fields_within : Fields → Fields → Bool
  fields_within end gs = true
  fields_within (field k v fs) gs = holds_at (equals v) (get_field k gs) && fields_within fs gs

-- The item that the new filter's readback must show.
abbrev same_at : String → Fields → Fields → Bool
same_at k rule r = equals (get_default (codes k) null r) (get_default (codes k) null rule)

unfoldable pub shows_new : Json → Fields → Fields → Option Bool
shows_new new_id rule r = some (
    equals (get_default (codes "id") null r) new_id
    && same_at "domain" rule r
    && same_at "conditions" rule r
    && same_at "action" rule r)

unfoldable pub shows_old : Text → Text → Text → Fields → Option Bool
shows_old target old_id old_domain r =
    and_also (id_is old_id r && is_text old_domain (get_default (codes "domain") null r))
      (is_managed_filter target r)

-- `old_domain or new_rule["domain"]`
abbrev rule_domain : Fields → Text
rule_domain rule = elim (get_field (codes "domain") rule) [ some (str d) ↦ d | _ ↦ [] ]

unfoldable pub chosen_domain : Option Text → Fields → Text
chosen_domain (some (c ∷ d)) rule = c ∷ d
chosen_domain _ rule = rule_domain rule

module _ {W : Type 0} (send : Method → Resource → Option Fields → W → Reply × W) where
  abbrev M : Type 0 → Type 0
  M A = Exec Error W A

  abbrev answer : {A : Type 0} → Result A → Answer Error A
  answer (ok a) = value a
  answer (err e) = raised e

  unfoldable pub request : Method → Resource → Option Fields → M Json
  unfolding read_reply
  request m u payload w = let (r, w') = send m u payload w in (answer (read_reply r), w')

  -- `payload.get(key, default)`
  unfoldable pub need_get : Text → Json → Json → M Json
  need_get k default (obj fs) = pure (get_default k default fs)
  need_get k default _ = raise attribute_error

  unfoldable pub list_filters : Option Text → M Json
  list_filters domain = do
    v ← request get (filters domain) none
    need_get (codes "filters") (arr nil) v

  unfoldable pub add_filter : Fields → M Json
  add_filter rule = request post (filters none) (some rule)

  unfoldable pub delete_filter : Text → M Json
  delete_filter k = request delete (filter k) none

  -- A test that may fail, and must be true.
  unfoldable pub need : Option Bool → Error → M (Unit {0})
  need none e = raise attribute_error
  need (some b) e = require b e

  unfoldable pub replace_managed_filter : Text → Text → Fields → Option Text → M Json
  replace_managed_filter target old_id new_rule old_domain = do
    need (is_managed_filter target new_rule) not_managed
    let domain = chosen_domain old_domain new_rule
    old_readback ← list_filters (some domain)
    need (any_filter (shows_old target old_id domain) old_readback) not_confirmed
    result ← add_filter new_rule
    new_id ← need_get (codes "id") null result
    require (truthy new_id) no_id
    readback ← list_filters (some (rule_domain new_rule))
    need (any_filter (shows_new new_id new_rule) readback) not_confirmed
    delete_filter old_id
    pure new_id
