-- ===== src/EmailAddress/Lists.antt =====
-- `canonical_email_list` of manager/email_address.py.
use xserver_mail_lineworks.Shared.{
  ◌↔◌, ◌≡◌, refl, sym, ap, ◌∙◌, Bool, true, false, not, ◌&&◌, none, some, List, [], ◌∷◌, ◌==◌,
  ==_iff, ==_refl, nat_eq, list_eq, option_eq, Text, contains, all, all_at, arith, Option-cases,
  inl, inr, Json, str, arr, Items, nil, item, strs,
}
use xserver_mail_lineworks.EmailAddress.{
  canonical_email, canonical_items, sort_unique, items_are, is_empty, normalized_list,
  canonical_email_list,
}
use xserver_mail_lineworks.EmailAddress.Canonical.{canonical_email_idem}
use xserver_mail_lineworks.EmailAddress.Order.{
  is_increasing, contains-sort_unique, sort_unique-is_increasing, sort_unique_of_increasing,
  sort_unique-ext,
}

abbrev pub is_canonical : Text → Bool
is_canonical x = canonical_email (str x) == some x

canonical_items-canonical :
    (vs : Items) (xs : List Text) → canonical_items vs ≡ some xs → all is_canonical xs ≡ true
unfolding canonical_items all
canonical_items-canonical nil xs h = ground arith
canonical_items-canonical (item v vs) [] h = ground arith
canonical_items-canonical (item v vs) (x ∷ xs) h = ground (
  arith,
  canonical_email_idem v x,
  ==_iff (canonical_email (str x)) (some x),
  canonical_items-canonical vs xs,
)

all_of_contains :
    (p : Text → Bool) (xs : List Text)
    → ((a : Text) → contains xs a ≡ true → p a ≡ true)
    → all p xs ≡ true
unfolding all contains
all_of_contains p [] h = refl
all_of_contains p (x ∷ xs) h =
    ground (arith, h x, ==_refl x, all_of_contains p xs (λ a m. h a (ground arith)))

sorted-canonical :
    (xs : List Text) → all is_canonical xs ≡ true → all is_canonical (sort_unique xs) ≡ true
sorted-canonical xs h =
    all_of_contains is_canonical (sort_unique xs)
      λ a m. all_at is_canonical xs a h (sym (contains-sort_unique xs a) ∙ m)

canonical_items-strs :
    (xs : List Text) → all is_canonical xs ≡ true → canonical_items (strs xs) ≡ some xs
unfolding canonical_items all
canonical_items-strs [] h = refl
canonical_items-strs (x ∷ xs) h =
    ground (arith, ==_iff (canonical_email (str x)) (some x), canonical_items-strs xs)

items_are-strs : (xs : List Text) → items_are (strs xs) xs ≡ true
unfolding items_are
items_are-strs [] = refl
items_are-strs (x ∷ xs) = ground (arith, ==_refl x, items_are-strs xs)

strs_of_items_are : (vs : Items) (xs : List Text) → items_are vs xs ≡ true → vs ≡ strs xs
unfolding items_are
strs_of_items_are nil [] h = refl
strs_of_items_are nil (x ∷ xs) h = cc
strs_of_items_are (item (str y) vs) (x ∷ xs) h = ground (arith, ==_iff y x, strs_of_items_are vs xs)
strs_of_items_are (item _ vs) _ h = cc

-- What the list function has accepted: items with canonical forms, sorted without repetition.
accepted :
    (v : Json) (allow_empty reject_duplicates : Bool) (r : List Text)
    → canonical_email_list v allow_empty reject_duplicates ≡ some r
    → (vs : Items) × (xs : List Text) × (v ≡ arr vs)
      × (canonical_items vs ≡ some xs)
      × (r ≡ sort_unique xs)
      × ((not allow_empty && is_empty r) ≡ false)
      × (reject_duplicates ≡ true → items_are vs r ≡ true)
unfolding canonical_email_list
accepted (arr vs) ae rd r h = elim (Option-cases (canonical_items vs)) [
  | inl n ↦ absurd (unfold normalized_list in ground arith)
  | inr (xs, q) ↦
      let n : normalized_list ae rd vs (sort_unique xs) ≡ some r = rw q at h in
      (
        vs,
        xs,
        refl,
        q,
        unfold normalized_list in ground arith,
        unfold normalized_list in ground arith,
        unfold normalized_list in ground arith,
      )
]
accepted _ ae rd r h = cc

canonical_of_accepted :
    (r : List Text) (allow_empty : Bool)
    → is_increasing r ≡ true
    → all is_canonical r ≡ true
    → (not allow_empty && is_empty r) ≡ false
    → canonical_email_list (arr (strs r)) allow_empty true ≡ some r
unfolding canonical_email_list normalized_list
canonical_of_accepted r ae s c e =
    rw (canonical_items-strs r c) (rw (sort_unique_of_increasing r s, e, items_are-strs r))

-- The result of the list function is a fixed point: given back as a list of strings it is accepted
-- as canonical, under the strict test for order and repetition too, and returned as it is.
pub canonical_email_list_fixed :
    (v : Json) (allow_empty reject_duplicates : Bool) (r : List Text)
    → canonical_email_list v allow_empty reject_duplicates ≡ some r
    → canonical_email_list (arr (strs r)) allow_empty true ≡ some r
canonical_email_list_fixed v ae rd r h =
    let (vs, xs, _, q, s, e, _) = accepted v ae rd r h in
    canonical_of_accepted r ae (rw s (sort_unique-is_increasing xs))
      (rw s (sorted-canonical xs (canonical_items-canonical vs xs q))) e

-- The strict test accepts a value, and returns a list, exactly when the value is this list of strings
-- and the list is a strictly increasing list of canonical addresses, which is empty only where that is
-- allowed.
pub canonical_email_list_strict :
    (v : Json) (allow_empty : Bool) (r : List Text)
    → (canonical_email_list v allow_empty true ≡ some r) ↔ (
        (v ≡ arr (strs r))
        × (is_increasing r ≡ true)
        × (all is_canonical r ≡ true)
        × ((not allow_empty && is_empty r) ≡ false))
canonical_email_list_strict v ae r = (
  λ h.
      let (vs, xs, a, q, s, e, d) = accepted v ae true r h in
      (
        a ∙ ap arr (strs_of_items_are vs r (d refl)),
        rw s (sort_unique-is_increasing xs),
        rw s (sorted-canonical xs (canonical_items-canonical vs xs q)),
        e,
      ),
  λ (a, s, c, e). ap (λ x. canonical_email_list x ae true) a ∙ canonical_of_accepted r ae s c e,
)

-- Without the strict test the result depends on the set of canonical addresses alone: two lists
-- whose items have the same canonical forms, in any order and as often as they like, give one result,
-- and an address is in that result exactly when it is one of those forms.
pub canonical_email_list_set :
    (vs ws : Items) (xs ys : List Text) (allow_empty : Bool)
    → canonical_items vs ≡ some xs
    → canonical_items ws ≡ some ys
    → ((a : Text) → contains xs a ≡ contains ys a)
    → (canonical_email_list (arr vs) allow_empty false
        ≡ canonical_email_list (arr ws) allow_empty false)
      × ((r : List Text)
          → canonical_email_list (arr vs) allow_empty false ≡ some r
          → (a : Text) → contains r a ≡ contains xs a)
unfolding canonical_email_list normalized_list
canonical_email_list_set vs ws xs ys ae p q e = (
  rw (p, q) (rw (sort_unique-ext xs ys e)),
  λ r h a. let t : r ≡ sort_unique xs = ground (arith, p) in rw t (contains-sort_unique xs a),
)

abbrev pub append_items : Items → Items → Items
append_items nil ws = ws
append_items (item v vs) ws = item v (append_items vs ws)

canonical_items-invalid :
    (vs : Items) (v : Json) (ws : Items)
    → canonical_email v ≡ none
    → canonical_items (append_items vs (item v ws)) ≡ none
unfolding canonical_items
canonical_items-invalid nil v ws h = rw h
canonical_items-invalid (item u vs) v ws h = ground (arith, canonical_items-invalid vs v ws h)

-- One item without a canonical form refuses the whole list.
pub canonical_email_list_invalid :
    (vs : Items) (v : Json) (ws : Items) (allow_empty reject_duplicates : Bool)
    → canonical_email v ≡ none
    → canonical_email_list (arr (append_items vs (item v ws))) allow_empty reject_duplicates ≡ none
unfolding canonical_email_list
canonical_email_list_invalid vs v ws ae rd h = rw (canonical_items-invalid vs v ws h)
