-- ===== src/XserverApi/Filters.antt =====
-- The filters that the manager owns: `build_command_target` and `is_managed_filter` of
-- manager/xserver_api.py, and `_rule`, `_legacy_rule`, `_legacy_managed` and `_address` of
-- manager/manage.py. `none` is a Python error (`TypeError`, `AttributeError`, `KeyError`) at a value
-- of the wrong shape.
pub mod Recognition
mod Examples
use xserver_mail_lineworks.Shared.{
  ℕ, suc, String, Bool, true, false, not, ◌&&◌, ◌||◌, Option, none, some, List, [], ◌∷◌, ◌++◌, ◌==◌,
  nat_eq, list_eq, Text, codes, nat_beq, length, all, any, contains, map, if◌then◌else◌, Json, null,
  bool, nat, number, str, arr, obj, Items, nil, item, Fields, end, field, get_field, starts_with,
}
use xserver_mail_lineworks.EmailAddress.{canonical_email, after_at, split_on, is_alnum, lower}

is_path_char : ℕ → Bool
unfolding is_alnum
is_path_char c = is_alnum c || nat_beq c b'.' || nat_beq c b'_' || nat_beq c b'/' || nat_beq c b'-'

abbrev tail_of : List Text → List Text
tail_of [] = []
tail_of (x ∷ xs) = xs

-- `casefold` on the characters that a path can have.
bad_part : Text → Bool
unfolding lower
bad_part p =
    (p == []) || (p == codes ".") || (p == codes "..") || (map lower p == codes "public_html")

-- `re.fullmatch(r"/[A-Za-z0-9._/-]+", path)`
is_absolute : Text → Bool
unfolding is_path_char all
is_absolute [] = false
is_absolute (c ∷ []) = false
is_absolute (c ∷ d ∷ s) = nat_beq c b'/' && all is_path_char (d ∷ s)

unfoldable pub build_command_target : Text → Option Text
unfolding is_absolute bad_part any split_on
build_command_target path =
    if is_absolute path && not (any bad_part (tail_of (split_on b'/' path)))
    then some (codes "| /usr/bin/php8.5 " ++ path)
    else none

-- `value.get(key, default)` on an object.
unfoldable pub get_default : Text → Json → Fields → Json
get_default k default fs = elim (get_field k fs) [ none ↦ default | some v ↦ v ]

unfoldable pub is_text : Text → Json → Bool
is_text t (str s) = s == t
is_text t _ = false

abbrev field_is : String → String → Fields → Bool
field_is k t fs = is_text (codes t) (get_default (codes k) null fs)

abbrev fields_length : Fields → ℕ
fields_length end = 0
fields_length (field _ _ fs) = suc (fields_length fs)

-- `action.get("type") == … and action.get("target") == … and action.get("method") == …`
unfoldable pub copies_to : Text → Json → Option Bool
copies_to target (obj action) = some (
    field_is "type" "mail_address" action
    && is_text target (get_default (codes "target") null action)
    && field_is "method" "copy" action)
copies_to target _ = none

-- The single condition of a rule. `data` of this type tells a list of one from the other values for
-- which Python goes on or fails.
pub data Single : Type 0 where
  one : Json → Single
  not_one wrong_shape : Single

unfoldable pub single : Json → Single
single (arr (item c nil)) = one c
single (arr _) = not_one
single (str s) = if nat_beq (length s) 1 then wrong_shape else not_one
single (obj fs) = if nat_beq (fields_length fs) 1 then wrong_shape else not_one
single _ = wrong_shape

abbrev and_then : Bool → Option Bool → Option Bool
and_then true x = x
and_then false x = some false

abbrev domain_matches : Option Text → Json → Bool
domain_matches none domain = false
domain_matches (some a) domain = is_text (after_at a) domain

-- A condition of one shape, on a canonical address in the rule's own domain, that copies mail to
-- the command.
matches_condition : String → String → Text → Fields → Json → Option Bool
matches_condition where_in how target rule (obj c) =
    and_then
      (field_is "field" where_in c
        && field_is "match_type" how c
        && domain_matches (canonical_email (get_default (codes "keyword") null c))
            (get_default (codes "domain") null rule))
      (copies_to target (get_default (codes "action") (obj end) rule))
matches_condition where_in how target rule _ = none

matches_single : String → String → Text → Fields → Single → Option Bool
matches_single where_in how target rule (one c) = matches_condition where_in how target rule c
matches_single where_in how target rule not_one = some false
matches_single where_in how target rule wrong_shape = none

unfoldable pub is_managed_filter : Text → Fields → Option Bool
unfolding matches_single matches_condition
is_managed_filter target rule =
    matches_single "header" "contain" target rule
      (single (get_default (codes "conditions") (arr nil) rule))

unfoldable pub legacy_managed : Text → Fields → Option Bool
unfolding matches_single matches_condition
legacy_managed target rule =
    matches_single "to" "match" target rule
      (single (get_default (codes "conditions") (arr nil) rule))

abbrev condition : String → String → Text → Json
condition where_in how address = obj (
    field (codes "field") (str (codes where_in))
      (field (codes "match_type") (str (codes how)) (field (codes "keyword") (str address) end)))

abbrev copy_action : Text → Json
copy_action target = obj (
    field (codes "type") (str (codes "mail_address"))
      (field (codes "target") (str target) (field (codes "method") (str (codes "copy")) end)))

abbrev rule_of : Text → Text → Json → Fields
rule_of target address c = field (codes "domain") (str (after_at address)) (
    field (codes "conditions") (arr (item c nil)) (field (codes "action") (copy_action target) end))

unfoldable pub rule : Text → Text → Fields
rule target address = rule_of target address (condition "header" "contain" address)

unfoldable pub legacy_rule : Text → Text → Fields
legacy_rule target address = rule_of target address (condition "to" "match" address)

-- `rule["conditions"][0]["keyword"]`
abbrev keyword_of : Single → Option Json
keyword_of (one (obj c)) = get_field (codes "keyword") c
keyword_of _ = none

unfoldable pub address : Fields → Option Json
address r = keyword_of (single (get_default (codes "conditions") null r))
