-- ===== src/DeliveryRecovery.antt =====
-- manager/recovery.py: the list of notifications that were not sent, and the menu that sends one of
-- them again. What the SSH boundary answers is the parameter `run_trusted`.
pub mod Rows
pub mod Menu
mod Examples
use xserver_mail_lineworks.Shared.{
  ℕ, suc, ◌+◌, Bool, true, false, not, ◌&&◌, ◌||◌, Option, none, some, List, [], ◌∷◌, ◌==◌, nat_eq,
  list_eq, nat_beq, leb, length, all, contains, if◌then◌else◌, Text, codes, is_sha256, Json, null,
  bool, nat, number, str, arr, obj, Items, nil, item, Fields, end, field, get_field,
}
use xserver_mail_lineworks.Shared.Exec.{
  Exec, Answer, value, raised, proceed, pure, raise, require, ◌>>=◌, ◌>>◌,
}
use xserver_mail_lineworks.XserverApi.Filters.{get_default, is_text}

-- `RuntimeError` with its two messages, `ValueError`, `TypeError`, an input that has ended, and the
-- errors of a time that cannot be shown: `ValueError` or `OSError`, and `OverflowError`.
pub data Failure : Type 0 where
  unclear invalid_choice unknown_result type_error no_input bad_time overflow : Failure

-- What a remote command leaves: an error, bytes that are too long or no JSON, or a document with the
-- pairs of its objects as they stand.
pub data Output : Type 0 where
  failed unreadable : Output
  document : Json → Output

abbrev has_key : Text → Fields → Bool
has_key k fs = elim (get_field k fs) [ none ↦ false | some _ ↦ true ]

-- `_unique_object`, on every object of a document.
unfoldable mutual
  pub unique_objects : Json → Bool
  unique_objects (arr vs) = unique_items vs
  unique_objects (obj fs) = unique_fields fs
  unique_objects _ = true

  pub unique_items : Items → Bool
  unique_items nil = true
  unique_items (item v vs) = unique_objects v && unique_items vs

  pub unique_fields : Fields → Bool
  unique_fields end = true
  unique_fields (field k v fs) = not (has_key k fs) && unique_objects v && unique_fields fs

abbrev is_nat_value : ℕ → Json → Bool
is_nat_value n (nat m) = nat_beq m n
is_nat_value n _ = false

unfoldable pub read_output : Output → Answer Failure Fields
read_output (document (obj fs)) =
    if unique_objects (obj fs) && is_nat_value 1 (get_default (codes "schema_version") null fs)
    then value fs
    else raised unclear
read_output _ = raised unclear

abbrev fields_count : Fields → ℕ
fields_count end = 0
fields_count (field _ _ fs) = suc (fields_count fs)

-- `set(value) == keys`, for distinct keys.
unfoldable pub has_keys : List Text → Fields → Bool
has_keys ks fs = nat_beq (fields_count fs) (length ks) && all (λ k. has_key k fs) ks

unfoldable pub text_at : Text → Fields → Option Text
text_at k r = elim (get_default k null r) [ str t ↦ some t | _ ↦ none ]

unfoldable pub bool_at : Text → Fields → Option Bool
bool_at k r = elim (get_default k null r) [ bool b ↦ some b | _ ↦ none ]

abbrev is_one_of : List Text → Option Text → Bool
is_one_of ts none = false
is_one_of ts (some t) = contains ts t

abbrev is_hash : Option Text → Bool
is_hash none = false
is_hash (some t) = is_sha256 t

-- `expires_at == created_at + 604800`
abbrev expires_after : Json → Json → Bool
expires_after (nat c) e = is_nat_value (c + 604800) e
expires_after _ e = false

abbrev is_null_or_zero : Json → Bool
is_null_or_zero null = true
is_null_or_zero v = is_nat_value 0 v

abbrev is_null : Json → Bool
is_null null = true
is_null _ = false

abbrev is_bool : Bool → Option Bool → Bool
is_bool b none = false
is_bool b (some true) = b
is_bool b (some false) = not b

abbrev row_keys : List Text
row_keys =
    codes "id"
    ∷ codes "revision"
    ∷ codes "state"
    ∷ codes "created_at"
    ∷ codes "expires_at"
    ∷ codes "completed_chunks"
    ∷ codes "total_chunks"
    ∷ codes "classification"
    ∷ codes "retryable"
    ∷ []

abbrev states : List Text
states =
    codes "pending"
    ∷ codes "in_flight"
    ∷ codes "review_only"
    ∷ codes "delivered"
    ∷ codes "expired"
    ∷ []

abbrev classifications : List Text
classifications = codes "definite_rejection" ∷ codes "success" ∷ codes "review_required" ∷ []

unfoldable pub is_retryable : Fields → Bool
is_retryable r = is_bool true (bool_at (codes "retryable") r)

unfoldable pub is_valid_row : Fields → Bool
is_valid_row r =
    has_keys row_keys r
    && is_hash (text_at (codes "id") r)
    && is_hash (text_at (codes "revision") r)
    && is_one_of states (text_at (codes "state") r)
    && expires_after (get_default (codes "created_at") null r)
        (get_default (codes "expires_at") null r)
    && is_null_or_zero (get_default (codes "completed_chunks") null r)
    && is_null (get_default (codes "total_chunks") null r)
    && is_one_of classifications (text_at (codes "classification") r)
    && is_bool (is_text (codes "pending") (get_default (codes "state") null r))
        (bool_at (codes "retryable") r)

-- The second test of a row that may be sent again.
unfoldable pub is_definite : Fields → Bool
is_definite r =
    not (is_retryable r)
    || (is_nat_value 0 (get_default (codes "completed_chunks") null r)
        && is_text (codes "definite_rejection") (get_default (codes "classification") null r))

abbrev pub id_text : Fields → Text
id_text r = elim (text_at (codes "id") r) [ none ↦ [] | some t ↦ t ]

abbrev pub cons_row : Fields → Option (List Fields) → Option (List Fields)
cons_row r none = none
cons_row r (some rs) = some (r ∷ rs)

unfoldable pub valid_rows : List Text → Items → Option (List Fields)
valid_rows seen nil = some []
valid_rows seen (item (obj r) vs) =
    let rest = cons_row r (valid_rows (id_text r ∷ seen) vs) in
    if is_valid_row r && not (contains seen (id_text r)) && is_definite r then rest else none
valid_rows seen (item _ vs) = none

abbrev pub items_count : Items → ℕ
items_count nil = 0
items_count (item _ vs) = suc (items_count vs)

abbrev pub bounded_rows : Json → Option (List Fields)
bounded_rows (arr vs) = if leb (items_count vs) 100 then valid_rows [] vs else none
bounded_rows _ = none

unfoldable pub rows_of : Fields → Option (List Fields)
rows_of fs =
    if has_keys (codes "schema_version" ∷ codes "items" ∷ []) fs
    then bounded_rows (get_default (codes "items") null fs)
    else none

-- The status is looked up in a set, which fails on a list or an object.
abbrev read_status : Json → Answer Failure Bool
read_status (str s) =
    if s == codes "delivered"
    then value true
    else if s == codes "not_delivered"
    then value false
    else raised unknown_result
read_status (arr _) = raised type_error
read_status (obj _) = raised type_error
read_status _ = raised unknown_result

-- Whether the server reports that the notification is delivered.
unfoldable pub result_of : Text → Fields → Answer Failure Bool
result_of ident fs =
    if has_keys (codes "schema_version" ∷ codes "id" ∷ codes "status" ∷ []) fs
      && is_text ident (get_default (codes "id") null fs)
    then read_status (get_default (codes "status") null fs)
    else raised unknown_result
