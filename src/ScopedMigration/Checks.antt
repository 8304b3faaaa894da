-- ===== src/ScopedMigration/Checks.antt =====
-- The checks of `_ScopedMigrationApi.snapshot_filters` (manager/manage.py) that only look: ids, the
-- filters outside the scope with their priorities, and the old filters.
use xserver_mail_lineworks.Shared.{
  ℕ, ◌-◌, Bool, true, false, not, ◌&&◌, ◌||◌, Option, none, some, List, [], ◌∷◌, ◌==◌, nat_eq,
  list_eq, option_eq, nat_beq, leb, ltb, Text, codes, length, select, contains, distinct, subset,
  all, if◌then◌else◌, find, keys, Json, null, nat, str, Fields, end, field,
}
use xserver_mail_lineworks.XserverApi.Filters.{get_default}
use xserver_mail_lineworks.ScopedMigration.{
  Refusal, outside_changed, outside_priority, id_reused, Pending, delete, Rule, Scope, Outside,
  body, canonical,
}

-- `rule.get("id")`, if it is a text and not empty
unfoldable pub id_of : Fields → Option Text
id_of r = elim (get_default (codes "id") null r) [ str (c ∷ t) ↦ some (c ∷ t) | _ ↦ none ]

abbrev cons_rule : Option Text → Fields → Option (List Rule) → Option (List Rule)
cons_rule (some k) r (some rs) = some ((k, r) ∷ rs)
cons_rule _ r _ = none

unfoldable pub with_ids : List Fields → Option (List Rule)
with_ids [] = some []
with_ids (r ∷ rs) = cons_rule (id_of r) r (with_ids rs)

abbrev if_distinct : Option (List Rule) → Option (List Rule)
if_distinct none = none
if_distinct (some rs) = if distinct (keys rs) then some rs else none

-- Every rule with its id; `none` if one has no id, or if two have the same.
unfoldable pub identified : List Fields → Option (List Rule)
identified rs = if_distinct (with_ids rs)

unfoldable pub drop_field : Text → Fields → Fields
drop_field k end = end
drop_field k (field j v fs) = let rest = drop_field k fs in if j == k then rest else field j v rest

-- `isinstance(value, int) and not isinstance(value, bool) and value >= 1`
unfoldable pub positive : Json → Option ℕ
positive (nat n) = if leb 1 n then some n else none
positive _ = none

abbrev cons_priority : Option ℕ → Option (List ℕ) → Option (List ℕ)
cons_priority (some n) (some ns) = some (n ∷ ns)
cons_priority _ _ = none

unfoldable pub priority : Fields → Option ℕ
priority r = positive (get_default (codes "priority") null r)

abbrev priorities : List Rule → Option (List ℕ)
priorities [] = some []
priorities ((k, r) ∷ rs) = cons_priority (priority r) (priorities rs)

-- Distinct numbers from 1 to their count.
abbrev is_ranking : List ℕ → Bool
is_ranking ns = distinct ns && all (λ n. leb 1 n && leb n (length ns)) ns

abbrev json_domain : Fields → Json
json_domain r = get_default (codes "domain") null r

module _ (dumps : Json → Text) where
  abbrev same_domain : Fields → Rule → Bool
  same_domain r (k, q) = dumps (json_domain q) == dumps (json_domain r)

  abbrev peers_of : Scope → Fields → List Rule
  peers_of s r = select (same_domain r) s.baseline_by_id

  abbrev missing_ids : List Text → List Rule → List Text
  missing_ids present rs = select (λ k. not (contains present k)) (keys rs)

  abbrev allowed_missing : Scope → Option Text → List Text
  allowed_missing s none = s.retired_ids
  allowed_missing s (some k) = k ∷ s.retired_ids

  abbrev below_priority : ℕ → Option ℕ → Bool
  below_priority n none = false
  below_priority n (some m) = ltb m n

  abbrev missing_below : List Text → ℕ → Rule → Bool
  missing_below missing n (k, r) = contains missing k && below_priority n (priority r)

  abbrev nonempty : List Text → Bool
  nonempty [] = false
  nonempty _ = true

  abbrev compacted : Option (List ℕ) → List Text → List Text → List Rule → Option ℕ → Option ℕ
  compacted (some ns) missing allowed peers (some n) =
      if is_ranking ns && nonempty missing && subset missing allowed
      then some (n - length (select (missing_below missing n) peers))
      else none
  compacted _ missing allowed peers _ = none

  -- `_expected_compacted_priority`
  unfoldable pub expected_compacted_priority : Scope → Fields → List Text → Option Text → Option ℕ
  expected_compacted_priority s baseline present authorized_delete =
      let peers = peers_of s baseline in
      compacted (priorities peers) (missing_ids present peers) (allowed_missing s authorized_delete)
        peers (priority baseline)

abbrev absent_or : Option Text → Option Pending → Option Text
absent_or (some k) p = some k
absent_or none (some (delete k)) = some k
absent_or none _ = none

-- The id whose absence is authorised: a deletion under way now, or one that the journal resumes.
unfoldable pub authorized_delete : Scope → Option Text
authorized_delete s = absent_or s.pending_delete s.journal.pending

unfoldable pub is_known : Scope → Text → Bool
is_known s k =
    contains (keys s.unrelated) k || contains (keys s.old_by_id) k || contains (keys s.new_by_id) k

-- The filters that the manager must leave alone: still there, and the same but for a priority that
-- the server moved up after an authorised deletion.
module _ {W : Type 0} (out : Outside W) where
  abbrev priority_shifted : Scope → List Text → Fields → Fields → Bool
  priority_shifted s present baseline r =
      elim (expected_compacted_priority out.dumps s baseline present (authorized_delete s)) [
        | none ↦ false
        | some n ↦ elim (get_default (codes "priority") null r) [ nat m ↦ nat_beq m n | _ ↦ false ]
      ]

  abbrev shifted_only : Scope → List Text → Option Fields → Fields → Option Refusal
  shifted_only s present none r = some outside_changed
  shifted_only s present (some b) r =
      if canonical out (drop_field (codes "priority") r)
        == canonical out (drop_field (codes "priority") b)
      then (if priority_shifted s present b r then none else some outside_priority)
      else some outside_changed

  abbrev pub outside_rule : Scope → List Text → Text → Text → Option Fields → Option Refusal
  outside_rule s present k expected none = some outside_changed
  outside_rule s present k expected (some r) =
      if canonical out r == expected
      then none
      else shifted_only s present (find k s.baseline_by_id) r

  abbrev pub first_of_two : Option Refusal → Option Refusal → Option Refusal
  first_of_two (some e) rest = some e
  first_of_two none rest = rest

  unfoldable pub outside_problem : Scope → List Rule → List (Text × Text) → Option Refusal
  outside_problem s rules [] = none
  outside_problem s rules ((k, expected) ∷ us) =
      first_of_two (outside_rule s (keys rules) k expected (find k rules))
        (outside_problem s rules us)

  -- A retired id must not come back, and an old filter that is there must be unchanged.
  abbrev old_rule : Scope → Text → Text → Option Fields → Option Refusal
  old_rule s k expected none = none
  old_rule s k expected (some r) =
      if not (contains s.retired_ids k) && body out r == expected then none else some id_reused

  unfoldable pub old_problem : Scope → List Rule → List (Text × Text) → Option Refusal
  old_problem s rules [] = none
  old_problem s rules ((k, expected) ∷ os) =
      first_of_two (old_rule s k expected (find k rules)) (old_problem s rules os)
