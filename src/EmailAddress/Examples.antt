-- ===== src/EmailAddress/Examples.antt =====
-- Runs of manager/email_address.py, and the theorems at them.
use xserver_mail_lineworks.Shared.{
  ◌↔◌, not, ◌&&◌, ◌≡◌, refl, true, false, none, some, List, [], ◌∷◌, Text, codes, contains, all,
  list_beq, Json, null, str, arr, Items, nil, item, strs, arith, nat_eq, list_eq,
}
use xserver_mail_lineworks.EmailAddress.{
  is_empty, canonical_text, canonical_email, canonical_items, is_mailbox, is_local_part, is_atom,
  is_atext, is_domain_label, split_on, count_at, before_at, after_at, lower, text_lt, insert_unique,
  sort_unique, normalized_list, canonical_email_list, is_alnum,
}
use xserver_mail_lineworks.EmailAddress.Order.{is_increasing}
use xserver_mail_lineworks.EmailAddress.Canonical.{canonical_email_idem}
use xserver_mail_lineworks.EmailAddress.Lists.{
  is_canonical, canonical_email_list_fixed, canonical_email_list_strict, canonical_email_list_set,
}

abbrev spoken : Json
spoken = str (codes "Sales@Example.COM")

abbrev sales : Text
sales = codes "Sales@example.com"

abbrev info : Text
info = codes "info@mail.example.co"

canonical_run : canonical_email spoken ≡ some sales
unfolding canonical_email canonical_text is_mailbox is_local_part is_atom is_atext is_domain_label
    split_on count_at before_at after_at lower all is_alnum
canonical_run = refl

canonical_refusals :
    (canonical_email (str (codes "a@b")) ≡ none)
    × (canonical_email (str (codes "a..b@example.com")) ≡ none)
    × (canonical_email (str (codes "a@-x.com")) ≡ none)
    × (canonical_email null ≡ none)
unfolding canonical_email canonical_text is_mailbox is_local_part is_atom is_atext is_domain_label
    split_on count_at before_at after_at lower all is_alnum
canonical_refusals = (refl, refl, refl, refl)

canonical_email_idem_example : canonical_email (str sales) ≡ some sales
canonical_email_idem_example = canonical_email_idem spoken sales canonical_run

abbrev two : Items
two = item (str info) (item spoken (item (str info) nil))

abbrev swapped : Items
swapped = item spoken (item (str info) nil)

abbrev both : List Text
both = sales ∷ info ∷ []

canonical_list_run : canonical_email_list (arr two) false false ≡ some both
unfolding canonical_email canonical_text is_mailbox is_local_part is_atom is_atext is_domain_label
    split_on count_at before_at after_at lower all is_alnum canonical_email_list canonical_items
    sort_unique insert_unique text_lt normalized_list list_beq
canonical_list_run = refl

two_forms : canonical_items two ≡ some (info ∷ sales ∷ info ∷ [])
unfolding canonical_email canonical_text is_mailbox is_local_part is_atom is_atext is_domain_label
    split_on count_at before_at after_at lower all is_alnum canonical_items
two_forms = refl

swapped_forms : canonical_items swapped ≡ some both
unfolding canonical_email canonical_text is_mailbox is_local_part is_atom is_atext is_domain_label
    split_on count_at before_at after_at lower all is_alnum canonical_items
swapped_forms = refl

canonical_email_list_fixed_example : canonical_email_list (arr (strs both)) false true ≡ some both
canonical_email_list_fixed_example =
    canonical_email_list_fixed (arr two) false false both canonical_list_run

canonical_email_list_strict_example :
    (canonical_email_list (arr (strs both)) false true ≡ some both) ↔ (
      (arr (strs both) ≡ arr (strs both))
      × (is_increasing both ≡ true)
      × (all is_canonical both ≡ true)
      × ((not false && is_empty both) ≡ false))
canonical_email_list_strict_example = canonical_email_list_strict (arr (strs both)) false both

same_members : (a : Text) → contains (info ∷ sales ∷ info ∷ []) a ≡ contains both a
unfolding contains
same_members a = ground arith

canonical_email_list_set_example :
    (canonical_email_list (arr two) true false ≡ canonical_email_list (arr swapped) true false)
    × ((r : List Text)
        → canonical_email_list (arr two) true false ≡ some r
        → (a : Text) → contains r a ≡ contains (info ∷ sales ∷ info ∷ []) a)
canonical_email_list_set_example =
    canonical_email_list_set two swapped (info ∷ sales ∷ info ∷ []) both true two_forms
      swapped_forms same_members
