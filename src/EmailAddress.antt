-- ===== src/EmailAddress.antt =====
-- manager/email_address.py: canonical mailboxes and canonical lists of them.
pub mod Order
pub mod Canonical
pub mod Lists
mod Examples
use xserver_mail_lineworks.Shared.{
  ℕ, suc, ◌+◌, Bool, true, false, not, ◌&&◌, ◌||◌, Option, none, some, List, [], ◌∷◌, ◌++◌, map,
  ◌==◌, nat_eq, list_eq, Text, codes, leb, ltb, nat_beq, is_digit, length, all, if◌then◌else◌, Json,
  null, bool, nat, number, str, arr, obj, Items, nil, item,
}

unfoldable pub is_alnum : ℕ → Bool
is_alnum c = (leb 65 c && leb c 90) || (leb 97 c && leb c 122) || is_digit c

abbrev among : Text → ℕ → Bool
among [] c = false
among (d ∷ ds) c = nat_beq c d || among ds c

-- The class in `_LOCAL_PART`.
unfoldable pub is_atext : ℕ → Bool
unfolding is_alnum
is_atext c = is_alnum c || among (codes "!#$%&'*+/=?^_`{|}~-") c

-- `s.split(d)`: never empty.
abbrev pub cons_first : ℕ → List Text → List Text
cons_first c [] = (c ∷ []) ∷ []
cons_first c (p ∷ ps) = (c ∷ p) ∷ ps

unfoldable pub split_on : ℕ → Text → List Text
split_on d [] = [] ∷ []
split_on d (c ∷ s) = let rest = split_on d s in if nat_beq c d then [] ∷ rest else cons_first c rest

unfoldable pub is_atom : Text → Bool
unfolding is_atext all
is_atom [] = false
is_atom (c ∷ s) = is_atext c && all is_atext s

-- `_LOCAL_PART.fullmatch(s)`
unfoldable pub is_local_part : Text → Bool
is_local_part s = all is_atom (split_on b'.' s)

abbrev pub last_or : ℕ → Text → ℕ
last_or c [] = c
last_or c (d ∷ s) = last_or d s

abbrev pub is_label_char : ℕ → Bool
is_label_char c = is_alnum c || nat_beq c b'-'

-- `_DOMAIN_LABEL.fullmatch(s)`: up to 63 characters, and no hyphen at either end.
unfoldable pub is_domain_label : Text → Bool
is_domain_label [] = false
is_domain_label (c ∷ s) =
    is_alnum c && is_alnum (last_or c s) && all is_label_char s && leb (length (c ∷ s)) 63

-- `value.count("@")`
unfoldable pub count_at : Text → ℕ
count_at [] = 0
count_at (c ∷ s) = if nat_beq c b'@' then suc (count_at s) else count_at s

-- The parts before and after the first `@`, which is the only one where this is used.
unfoldable pub before_at : Text → Text
before_at [] = []
before_at (c ∷ s) = let rest = before_at s in if nat_beq c b'@' then [] else c ∷ rest

unfoldable pub after_at : Text → Text
after_at [] = []
after_at (c ∷ s) = let rest = after_at s in if nat_beq c b'@' then s else rest

-- `lower` on the letters that a domain can have.
unfoldable pub lower : ℕ → ℕ
lower c = if leb 65 c && leb c 90 then c + 32 else c

unfoldable pub is_mailbox : Text → Text → Text → Bool
is_mailbox value local domain =
    leb (length local) 64
    && is_local_part local
    && leb (length domain) 253
    && leb 2 (length (split_on b'.' domain))
    && all is_domain_label (split_on b'.' domain)
    && leb (length value) 254

-- `none` is `CanonicalEmailError`.
unfoldable pub canonical_text : Text → Option Text
canonical_text value =
    if nat_beq (count_at value) 1 && is_mailbox value (before_at value) (after_at value)
    then some (before_at value ++ b'@' ∷ map lower (after_at value))
    else none

unfoldable pub canonical_email : Json → Option Text
canonical_email (str value) = canonical_text value
canonical_email _ = none

-- `[canonical_email(item) for item in value]`
abbrev pub cons? {ℓ} : {A : Type ℓ} → Option A → Option (List A) → Option (List A)
cons? (some x) (some xs) = some (x ∷ xs)
cons? _ _ = none

unfoldable pub canonical_items : Items → Option (List Text)
canonical_items nil = some []
canonical_items (item v vs) = cons? (canonical_email v) (canonical_items vs)

-- Comparison by bytes, which are the code points of an ASCII text.
unfoldable pub text_lt : Text → Text → Bool
text_lt [] [] = false
text_lt [] (d ∷ t) = true
text_lt (c ∷ s) [] = false
text_lt (c ∷ s) (d ∷ t) = ltb c d || (nat_beq c d && text_lt s t)

unfoldable pub insert_unique : Text → List Text → List Text
insert_unique x [] = x ∷ []
insert_unique x (y ∷ ys) =
    if text_lt x y then x ∷ y ∷ ys else if x == y then y ∷ ys else y ∷ insert_unique x ys

-- `sorted(set(xs), key=…)`
unfoldable pub sort_unique : List Text → List Text
sort_unique [] = []
sort_unique (x ∷ xs) = insert_unique x (sort_unique xs)

-- `value == normalized` on a list of values.
unfoldable pub items_are : Items → List Text → Bool
items_are nil [] = true
items_are (item (str x) vs) (y ∷ ys) = (x == y) && items_are vs ys
items_are _ _ = false

abbrev pub is_empty : List Text → Bool
is_empty [] = true
is_empty _ = false

unfoldable pub normalized_list : Bool → Bool → Items → List Text → Option (List Text)
normalized_list allow_empty reject_duplicates value normalized =
    if not allow_empty && is_empty normalized
    then none
    else if reject_duplicates && not (items_are value normalized)
    then none
    else some normalized

abbrev pub normalize? : Bool → Bool → Items → Option (List Text) → Option (List Text)
normalize? allow_empty reject_duplicates value none = none
normalize? allow_empty reject_duplicates value (some xs) =
    normalized_list allow_empty reject_duplicates value (sort_unique xs)

unfoldable pub canonical_email_list : Json → Bool → Bool → Option (List Text)
canonical_email_list (arr value) allow_empty reject_duplicates =
    normalize? allow_empty reject_duplicates value (canonical_items value)
canonical_email_list _ allow_empty reject_duplicates = none
