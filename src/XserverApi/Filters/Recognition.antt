-- ===== src/XserverApi/Filters/Recognition.antt =====
-- Which filters `is_managed_filter` (manager/xserver_api.py) and `_legacy_managed`
-- (manager/manage.py) take for the manager's own.
use xserver_mail_lineworks.Shared.{
  ◌≡◌, refl, ap, true, false, some, ==_iff, ==_refl, nat_eq, list_eq, list_beq, Text, codes, arith,
  Json, null, str, arr, obj, nil, Fields, get_field,
}
use xserver_mail_lineworks.EmailAddress.{canonical_email, after_at}
use xserver_mail_lineworks.XserverApi.Filters.{
  Single, one, single, get_default, is_text, copies_to, is_managed_filter, legacy_managed,
  matches_single, matches_condition, rule, legacy_rule, address,
}

-- The filter that the manager writes for a canonical address is recognised as managed and not as
-- legacy, the legacy form the other way round, and the address is read back from both.
pub rules_recognised :
    (target a : Text)
    → canonical_email (str a) ≡ some a
    → (is_managed_filter target (rule target a) ≡ some true)
      × (legacy_managed target (rule target a) ≡ some false)
      × (legacy_managed target (legacy_rule target a) ≡ some true)
      × (is_managed_filter target (legacy_rule target a) ≡ some false)
      × (address (rule target a) ≡ some (str a))
      × (address (legacy_rule target a) ≡ some (str a))
unfolding is_managed_filter legacy_managed rule legacy_rule address single get_default get_field
    is_text copies_to list_beq
rules_recognised target a h = rw h (
  rw (==_refl (after_at a), ==_refl target),
  refl,
  rw (==_refl (after_at a), ==_refl target),
  refl,
  refl,
  refl,
)

is_text_eq : (t : Text) (v : Json) → is_text t v ≡ true → v ≡ str t
unfolding is_text
is_text_eq t (str s) h = ap str ((==_iff s t).0 h)
is_text_eq t _ h = cc

header-not_to : (v : Json) → is_text (codes "header") v ≡ true → is_text (codes "to") v ≡ false
unfolding is_text list_beq
header-not_to v h = rw (is_text_eq (codes "header") v h)

conditions_exclusive :
    (target : Text) (r : Fields) (x : Single)
    → matches_single "header" "contain" target r x ≡ some true
    → matches_single "to" "match" target r x ≡ some false
unfolding matches_single matches_condition
conditions_exclusive target r (one (obj c)) h =
    ground (arith, header-not_to (get_default (codes "field") null c))
conditions_exclusive target r (one _) h = cc
conditions_exclusive target r _ h = cc

-- A filter that is recognised as managed is found not to be legacy, and without an error.
pub managed-not_legacy :
    (target : Text) (r : Fields)
    → is_managed_filter target r ≡ some true
    → legacy_managed target r ≡ some false
unfolding is_managed_filter legacy_managed
managed-not_legacy target r h =
    conditions_exclusive target r (single (get_default (codes "conditions") (arr nil) r)) h
