-- ===== src/ScopedMigration/Snapshot.antt =====
-- `snapshot_filters` of `_ScopedMigrationApi` (manager/manage.py): every reading of the server is
-- held against the scope before anything is done with it.
use xserver_mail_lineworks.Shared.{
  if◌then◌else◌, Bool, false, not, ◌||◌, Option, none, some, List, [], ◌∷◌, ◌++◌, ◌==◌, nat_eq,
  list_eq, option_eq, Text, select, contains, all, find, keys, put, Fields,
}
use xserver_mail_lineworks.Shared.Exec.{
  Exec, value, raised, pure, raise, branch, gets, require, ◌>>=◌, ◌>>◌,
}
use xserver_mail_lineworks.ScopedMigration.{
  Refusal, ids_unclear, outside_added, id_reused, old_missing, new_mismatch, new_missing, Pending,
  add, Journal, Rule, Scope, Outside, State, digest, body, sorted_ids, sorted_pairs, digests_of,
}
use xserver_mail_lineworks.ScopedMigration.Checks.{
  identified, authorized_delete, is_known, outside_problem, old_problem,
}

unfoldable pub lift : {W A : Type 0} → Exec Refusal W A → Exec Refusal (State W) A
lift m s = let (r, w) = m s.world in (r, record s { world = w })

abbrev pub with_journal : Scope → Journal → Scope
with_journal s j = record s { journal = j }

abbrev pub with_pending : Option Pending → Scope → Scope
with_pending p s = with_journal s (record (s.journal) { pending = p })

unfoldable pub of_scope : {W : Type 0} → (Scope → Scope) → Exec Refusal (State W) (Unit {0})
of_scope f s = (value tt, record s { scope = f s.scope })

unfoldable pub none_or_raise : {W : Type 0} → Option Refusal → Exec Refusal (State W) (Unit {0})
none_or_raise none s = (value tt, s)
none_or_raise (some e) s = (raised e, s)

abbrev pub adopt : Text → Text → Scope → Scope
adopt k b s =
    with_pending none
      (record s { new_by_id = put k b s.new_by_id; confirmed_new_ids = k ∷ s.confirmed_new_ids })

module _ {W : Type 0} (out : Outside W) where
  abbrev M : Type 0 → Type 0
  M A = Exec Refusal (State W) A

  -- `_save_journal`
  unfoldable pub journal_of : Scope → Journal
  journal_of s = record (s.journal) {
    retired_ids = sorted_ids s.retired_ids;
    new_ids = digests_of out (sorted_pairs s.new_by_id);
  }

  unfoldable pub save_journal : M (Unit {0})
  save_journal s =
      let j = journal_of s.scope in
      lift (out.persist_journal j) (record s { scope = with_journal s.scope j })

  -- The one unknown filter of the addition that the journal resumes is taken over.
  unfoldable pub adopt_only : Text → List Rule → M (Unit {0})
  adopt_only h ((k, r) ∷ []) =
      branch (λ s. digest out (body out r) == h) (do of_scope (adopt k (body out r)); save_journal)
        (pure tt)
  adopt_only h _ = pure tt

  unfoldable pub adopt_pending : List Rule → Option Pending → M (Unit {0})
  adopt_pending unknown (some (add h)) = adopt_only h unknown
  adopt_pending unknown _ = pure tt

  abbrev unknown_rules : Scope → List Rule → List Rule
  unknown_rules s rules = select (λ (r : Rule). not (is_known s r.0)) rules

  abbrev pub drop_ids : List Text → List Text → List Text
  drop_ids gone ids = select (λ k. not (contains gone k)) ids

  abbrev pub retire : List Text → Scope → Scope
  retire gone s = with_pending none (record s {
    active_old_ids = drop_ids gone s.active_old_ids;
    retired_ids = gone ++ s.retired_ids;
  })

  abbrev are_authorized : List Text → Option Text → Bool
  are_authorized gone none = false
  are_authorized gone (some k) = all (λ g. g == k) gone

  -- Old filters that are gone: at most the one whose deletion is authorised, and then it is retired.
  unfoldable pub retire_missing : List Text → M (Unit {0})
  retire_missing [] = pure tt
  retire_missing (g ∷ gone) =
      branch (λ s. are_authorized (g ∷ gone) (authorized_delete s.scope))
        (do of_scope (retire (g ∷ gone)); save_journal) (raise old_missing)

  abbrev pub retire_id : Text → Scope → Scope
  retire_id k s = record s {
    retired_ids = if contains s.retired_ids k then s.retired_ids else k ∷ s.retired_ids;
  }

  unfoldable pub missing_new : Text → M (Unit {0})
  missing_new k =
      branch (λ s. contains s.scope.confirmed_new_ids k)
        (branch (λ s. s.scope.pending_delete == some k) (of_scope (retire_id k))
          (raise new_missing))
        (pure tt)

  unfoldable pub new_rule : Text → Text → Option Fields → M (Unit {0})
  new_rule k expected none = missing_new k
  new_rule k expected (some r) =
      branch (λ s. contains s.scope.retired_ids k) (raise id_reused)
        (branch (λ s. body out r == expected) (pure tt) (raise new_mismatch))

  unfoldable pub check_new : List Rule → List (Text × Text) → M (Unit {0})
  check_new rules [] = pure tt
  check_new rules ((k, expected) ∷ ns) = do new_rule k expected (find k rules); check_new rules ns

  unfoldable pub need_ids : Option (List Rule) → M (List Rule)
  need_ids none = raise ids_unclear
  need_ids (some rs) = pure rs

  unfoldable pub check_rules : List Rule → M (List Rule)
  check_rules rules = do
    let present = keys rules
    before ← gets (λ s. s.scope)
    adopt_pending (unknown_rules before rules) before.journal.pending
    scope ← gets (λ s. s.scope)
    require (all (is_known scope) present) outside_added
    none_or_raise (outside_problem out scope rules scope.unrelated)
    none_or_raise (old_problem out scope rules scope.old_by_id)
    retire_missing (drop_ids present scope.active_old_ids)
    new ← gets (λ s. s.scope.new_by_id)
    check_new rules new
    gets (λ s.
        select
          (λ (r : Rule).
            contains (keys s.scope.old_by_id) r.0 || contains (keys s.scope.new_by_id) r.0)
          rules)

  unfoldable pub snapshot_filters : M (List Rule)
  snapshot_filters = do
    read ← lift out.snapshot
    rules ← need_ids (identified read)
    check_rules rules
