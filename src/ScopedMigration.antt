-- ===== src/ScopedMigration.antt =====
-- `_ScopedMigrationApi` of manager/manage.py: the only way by which a synchronisation changes the
-- server's filters. This file has its state and its construction.
pub mod Checks
pub mod Snapshot
pub mod Operations
pub mod Audit
mod Examples
use xserver_mail_lineworks.Shared.{
  ℕ, suc, Bool, true, false, not, ◌&&◌, ◌||◌, Option, none, some, List, [], ◌∷◌, ◌++◌, map, ◌==◌,
  nat_eq, list_eq, option_eq, nat_beq, Text, codes, length, select, contains, if◌then◌else◌, find,
  keys, put, Json, null, nat, str, arr, obj, Items, nil, item, Fields, end, field, get_field,
}
use xserver_mail_lineworks.Shared.Exec.{
  Exec, value, raised, proceed, pure, raise, gets, require, ◌>>=◌, ◌>>◌,
}
use xserver_mail_lineworks.EmailAddress.{text_lt}
use xserver_mail_lineworks.XserverApi.Filters.{get_default}

-- The errors, one for each message, and the errors of what is called.
pub data Refusal : Type 0 where
  scope_mismatch journal_new_invalid ids_unclear outside_added outside_changed : Refusal
  outside_priority id_reused old_missing new_mismatch new_missing add_refused : Refusal
  add_unclear add_unconfirmed delete_refused delete_conflict delete_remains external : Refusal

-- The one operation that may be under way.
pub data Pending : Type 0 where
  add : Text → Pending
  delete : Text → Pending

pub record Journal : Type 0 where
  pub version : ℕ
  pub scope_sha256 : Text
  pub retired_ids : List Text
  pub new_ids : List (Text × Text)
  pub pending : Option Pending

-- A filter with the `id` that was read from it.
abbrev pub Rule : Type 0
Rule = Text × Fields

pub record Scope : Type 0 where
  pub baseline_by_id : List Rule
  pub old_by_id : List (Text × Text)
  pub active_old_ids : List Text
  pub new_by_id : List (Text × Text)
  pub confirmed_new_ids : List Text
  pub retired_ids : List Text
  pub pending_delete : Option Text
  pub desired : List Text
  pub unrelated : List (Text × Text)
  pub journal : Journal

-- What the class calls: the API, the function that persists the journal, and the library's
-- `json.dumps(…, sort_keys=True)` and SHA-256. `W` is the state of everything outside.
pub record Outside (W : Type 0) : Type 0 where
  pub snapshot : Exec Refusal W (List Fields)
  pub add_filter : Fields → Exec Refusal W Json
  pub delete_filter : Text → Exec Refusal W Json
  pub persist_journal : Journal → Exec Refusal W (Unit {0})
  pub dumps : Json → Text
  pub sha256 : Text → Text

pub record State (W : Type 0) : Type 0 where
  pub scope : Scope
  pub world : W

-- `set(xs)`, in the order of first occurrence
unfoldable pub unique : List Text → List Text
unique [] = []
unique (x ∷ xs) = x ∷ select (λ y. not (y == x)) (unique xs)

abbrev text_le : Text → Text → Bool
text_le s t = not (text_lt t s)

abbrev pair_le : Text × Text → Text × Text → Bool
pair_le (a, b) (c, d) = text_lt a c || (a == c && text_le b d)

module _ {A : Type 0} (le : A → A → Bool) where
  insert_sorted : A → List A → List A
  insert_sorted x [] = x ∷ []
  insert_sorted x (y ∷ ys) = if le x y then x ∷ y ∷ ys else y ∷ insert_sorted x ys

  sorted : List A → List A
  unfolding insert_sorted
  sorted [] = []
  sorted (x ∷ xs) = insert_sorted x (sorted xs)

-- `sorted(ids)`, and `sorted(pairs)` for pairs of texts
unfoldable pub sorted_ids : List Text → List Text
unfolding sorted
sorted_ids = sorted text_le

unfoldable pub sorted_pairs : List (Text × Text) → List (Text × Text)
unfolding sorted
sorted_pairs = sorted pair_le

module _ {W : Type 0} (out : Outside W) where
  open out use {dumps, sha256}

  -- `_digest`, `_body` and `_canonical`
  unfoldable pub digest : Text → Text
  digest t = sha256 t

  unfoldable pub body : Fields → Text
  body r = dumps (
      obj (
        field (codes "domain") (get_default (codes "domain") null r) (
          field (codes "conditions") (get_default (codes "conditions") null r)
            (field (codes "action") (get_default (codes "action") null r) end))))

  unfoldable pub canonical : Fields → Text
  canonical r = dumps (obj r)

  abbrev pairs_json : List (Text × Text) → Items
  pairs_json [] = nil
  pairs_json ((a, b) ∷ ps) = item (arr (item (str a) (item (str b) nil))) (pairs_json ps)

  abbrev texts_json : List Text → Items
  texts_json [] = nil
  texts_json (t ∷ ts) = item (str t) (texts_json ts)

  abbrev body_by_id : List Rule → List (Text × Text)
  body_by_id [] = []
  body_by_id ((k, r) ∷ rs) = (k, body r) ∷ body_by_id rs

  abbrev outside_by_id : List Text → List Rule → List (Text × Text)
  outside_by_id old [] = []
  outside_by_id old ((k, r) ∷ rs) =
      let rest = outside_by_id old rs in if contains old k then rest else (k, canonical r) ∷ rest

  abbrev pub digests_of : List (Text × Text) → List (Text × Text)
  digests_of [] = []
  digests_of ((k, b) ∷ ps) = (k, digest b) ∷ digests_of ps

  unfoldable pub scope_hash : List Rule → List Rule → List Fields → Text
  unfolding sorted_ids sorted_pairs
  scope_hash all_rules old_rules desired_rules =
      let old = body_by_id old_rules in
      digest (
        dumps (
          obj (
            field (codes "old") (arr (pairs_json (sorted_pairs (digests_of old)))) (
              field (codes "desired")
                (arr (texts_json (sorted_ids (map (λ r. digest (body r)) desired_rules))))
                (field (codes "unrelated")
                  (arr
                    (pairs_json (sorted_pairs (digests_of (outside_by_id (keys old) all_rules)))))
                  end)))))

  -- The new filters of a journal, each with the one desired body that has its hash.
  unfoldable pub journal_bodies : List Text → List (Text × Text) → Option (List (Text × Text))
  journal_bodies desired [] = some []
  journal_bodies desired ((k, h) ∷ ps) = elim (select (λ b. digest b == h) desired) [
    | b ∷ [] ↦ elim (journal_bodies desired ps) [ none ↦ none | some qs ↦ some ((k, b) ∷ qs) ]
    | _ ↦ none
  ]

  abbrev scope_of : List Rule → List Rule → List Fields → Journal → List (Text × Text) → Scope
  scope_of all_rules old_rules desired_rules j new = record {
    baseline_by_id = all_rules;
    old_by_id = body_by_id old_rules;
    active_old_ids = select (λ k. not (contains j.retired_ids k)) (keys (body_by_id old_rules));
    new_by_id = new;
    confirmed_new_ids = keys new;
    retired_ids = j.retired_ids;
    pending_delete = none;
    desired = unique (map body desired_rules);
    unrelated = outside_by_id (keys (body_by_id old_rules)) all_rules;
    journal = j;
  }

  abbrev with_new :
      List Rule
      → List Rule
      → List Fields
      → Journal
      → Option (List (Text × Text))
      → Exec Refusal W Scope
  with_new all_rules old_rules desired_rules j none = raise journal_new_invalid
  with_new all_rules old_rules desired_rules j (some new) =
      pure (scope_of all_rules old_rules desired_rules j new)

  -- `__init__`; `none` is a journal that is not given or empty.
  unfoldable pub open_scope :
      List Rule → List Rule → List Fields → Option Journal → Exec Refusal W Scope
  open_scope all_rules old_rules desired_rules none = do
    let j : Journal = record {
      version = 1;
      scope_sha256 = scope_hash all_rules old_rules desired_rules;
      retired_ids = [];
      new_ids = [];
      pending = none;
    }
    out.persist_journal j
    pure (scope_of all_rules old_rules desired_rules j [])
  open_scope all_rules old_rules desired_rules (some j) = do
    require (nat_beq j.version 1 && j.scope_sha256 == scope_hash all_rules old_rules desired_rules)
        scope_mismatch
    with_new all_rules old_rules desired_rules j
        (journal_bodies (unique (map body desired_rules)) j.new_ids)
