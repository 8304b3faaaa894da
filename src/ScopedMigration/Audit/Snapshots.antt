-- ===== src/ScopedMigration/Audit/Snapshots.antt =====
-- `snapshot_filters` of `_ScopedMigrationApi` (manager/manage.py) only lets the scope grow and only
-- writes the journal: whatever is closed under both stays.
use xserver_mail_lineworks.Shared.{
  refl, Option, none, some, List, [], ◌∷◌, nat_eq, list_eq, option_eq, Text, Fields, find,
}
use xserver_mail_lineworks.Shared.Exec.{
  ◌>>=◌, Keeps, Keeps-bind, Keeps-pure, Keeps-raise, Keeps-branch, keeps_rules,
}
use xserver_mail_lineworks.ScopedMigration.{
  Refusal, Pending, add, delete, Rule, Scope, Outside, body,
}
use xserver_mail_lineworks.ScopedMigration.Snapshot.{
  lift, with_journal, of_scope, journal_of, save_journal, snapshot_filters, none_or_raise, need_ids,
  adopt_only, missing_new, retire_id, new_rule, retire, adopt_pending, retire_missing, check_new,
  check_rules,
}
use xserver_mail_lineworks.ScopedMigration.Audit.{
  Call, logged, Grows, Grows-same, Grows-adopt, IsClosed, Holds,
}

module _ {W : Type 0} (P : Scope → List Call → Type 0) (c : IsClosed P) where
  pub of_scope-Keeps :
      (f : Scope → Scope) → ((s : Scope) → Grows s (f s)) → Keeps (Holds {W = W} P) (of_scope f)
  unfolding of_scope
  of_scope-Keeps f g = record {
    at = λ st h. c.grown st.scope (f st.scope) st.world.0 (g st.scope) h;
  }

module _ {W : Type 0} (out : Outside W) (P : Scope → List Call → Type 0) (c : IsClosed P) where
  pub save_journal-Keeps : Keeps (Holds P) (save_journal (logged out))
  unfolding save_journal lift
  save_journal-Keeps = record {
    at = λ st h.
        let s = st.scope in
        let j = journal_of (logged out) s in
        c.journaled (with_journal s j) j st.world.0 (
          c.grown s (with_journal s j) st.world.0
            (Grows-same s (with_journal s j) refl refl refl refl refl) h);
  }

  saved_after :
      (f : Scope → Scope)
      → ((s : Scope) → Grows s (f s))
      → Keeps (Holds P) (of_scope f >>= λ (u : Unit {0}). save_journal (logged out))
  saved_after f g =
      Keeps-bind (of_scope f) (λ u. save_journal (logged out)) (of_scope-Keeps P c f g)
        (λ u. save_journal-Keeps)

  snapshot-Keeps : Keeps (Holds P) (lift ((logged out).snapshot))
  unfolding lift
  snapshot-Keeps = record { at = λ st h. h }

  adopt_only-Keeps :
      (h : Text) (unknown : List Rule) → Keeps (Holds P) (adopt_only (logged out) h unknown)
  unfolding adopt_only
  adopt_only-Keeps h ((k, r) ∷ []) =
      Keeps-branch _ _ _ (saved_after _ (λ s. Grows-adopt s k (body (logged out) r)))
        (Keeps-pure tt)
  adopt_only-Keeps h [] = Keeps-pure tt
  adopt_only-Keeps h (_ ∷ _ ∷ _) = Keeps-pure tt

  pub adopt_pending-Keeps :
      (unknown : List Rule) (p : Option Pending)
      → Keeps (Holds P) (adopt_pending (logged out) unknown p)
  unfolding adopt_pending
  adopt_pending-Keeps unknown (some (add h)) = adopt_only-Keeps h unknown
  adopt_pending-Keeps unknown (some (delete k)) = Keeps-pure tt
  adopt_pending-Keeps unknown none = Keeps-pure tt

  retire_missing-Keeps : (gone : List Text) → Keeps (Holds P) (retire_missing (logged out) gone)
  unfolding retire_missing
  retire_missing-Keeps [] = Keeps-pure tt
  retire_missing-Keeps (g ∷ gone) =
      Keeps-branch _ _ _
        (saved_after (retire (logged out) (g ∷ gone))
          (λ s. Grows-same s (retire (logged out) (g ∷ gone) s) refl refl refl refl refl))
        (Keeps-raise _)

  missing_new-Keeps : (k : Text) → Keeps (Holds P) (missing_new (logged out) k)
  unfolding missing_new
  missing_new-Keeps k =
      (Keeps-branch _ _ _
        (Keeps-branch _ _ _
          (of_scope-Keeps P c (retire_id (logged out) k)
            (λ s. Grows-same s (retire_id (logged out) k s) refl refl refl refl refl))
          (Keeps-raise _))
        (Keeps-pure tt))

  new_rule-Keeps :
      (k expected : Text) (r : Option Fields) → Keeps (Holds P) (new_rule (logged out) k expected r)
  unfolding new_rule
  new_rule-Keeps k expected none = missing_new-Keeps k
  new_rule-Keeps k expected (some r) = search (keeps_rules)

  check_new-Keeps :
      (rules : List Rule) (ns : List (Text × Text))
      → Keeps (Holds P) (check_new (logged out) rules ns)
  unfolding check_new
  check_new-Keeps rules [] = Keeps-pure tt
  check_new-Keeps rules ((k, expected) ∷ ns) =
      Keeps-bind _ _ (new_rule-Keeps k expected (find k rules)) (λ u. check_new-Keeps rules ns)

  none_or_raise-Keeps : (p : Option Refusal) → Keeps (Holds {W = W} P) (none_or_raise p)
  unfolding none_or_raise
  none_or_raise-Keeps none = record { at = λ s h. h }
  none_or_raise-Keeps (some e) = record { at = λ s h. h }

  need_ids-Keeps : (p : Option (List Rule)) → Keeps (Holds P) (need_ids (logged out) p)
  unfolding need_ids
  need_ids-Keeps none = Keeps-raise _
  need_ids-Keeps (some rs) = Keeps-pure rs

  check_rules-Keeps : (rules : List Rule) → Keeps (Holds P) (check_rules (logged out) rules)
  unfolding check_rules
  check_rules-Keeps rules =
      search
        (
          keeps_rules, adopt_pending-Keeps, retire_missing-Keeps, check_new-Keeps,
          none_or_raise-Keeps,
        )
        depth 24

  pub snapshot_filters-Keeps : Keeps (Holds P) (snapshot_filters (logged out))
  unfolding snapshot_filters
  snapshot_filters-Keeps = search (keeps_rules, snapshot-Keeps, need_ids-Keeps, check_rules-Keeps)
