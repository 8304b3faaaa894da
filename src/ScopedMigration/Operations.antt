-- ===== src/ScopedMigration/Operations.antt =====
-- `add_filter` and `delete_filter` of `_ScopedMigrationApi` (manager/manage.py).
use xserver_mail_lineworks.Shared.{
  Bool, true, false, not, ◌&&◌, ◌||◌, Option, none, some, ◌∷◌, ◌==◌, nat_eq, list_eq, option_eq,
  Text, contains, any, if◌then◌else◌, keys, put, Json, obj, Fields,
}
use xserver_mail_lineworks.Shared.Exec.{Exec, pure, raise, branch, gets, require, ◌>>=◌, ◌>>◌}
use xserver_mail_lineworks.ScopedMigration.{
  Refusal, add_refused, add_unclear, add_unconfirmed, delete_refused, delete_conflict,
  delete_remains, Pending, add, delete, Rule, Scope, Outside, State, digest, body,
}
use xserver_mail_lineworks.ScopedMigration.Checks.{id_of, is_known}
use xserver_mail_lineworks.ScopedMigration.Snapshot.{
  lift, with_pending, of_scope, save_journal, snapshot_filters,
}

-- `result.get("id") if isinstance(result, dict) else None`, if it is a text and not empty
unfoldable pub result_id : Json → Option Text
result_id (obj r) = id_of r
result_id _ = none

module _ {W : Type 0} (out : Outside W) where
  abbrev M : Type 0 → Type 0
  M A = Exec Refusal (State W) A

  abbrev pub fresh_id : Scope → Option Text → Option Text
  fresh_id s none = none
  fresh_id s (some k) = if is_known s k || contains s.retired_ids k then none else some k

  abbrev shows : Text → Text → Rule → Bool
  shows k b (j, r) = j == k && body out r == b

  abbrev record_new : Text → Text → Scope → Scope
  record_new k b s = record s { new_by_id = put k b s.new_by_id }

  abbrev confirm : Text → Scope → Scope
  confirm k s = with_pending none (record s { confirmed_new_ids = k ∷ s.confirmed_new_ids })

  -- After the server has answered with an id.
  unfoldable pub accept_new : Text → Option Text → M (Unit {0})
  accept_new b none = raise add_unclear
  accept_new b (some k) = do
    of_scope (record_new k b)
    save_journal out
    readback ← snapshot_filters out
    require (any (shows k b) readback) add_unconfirmed
    of_scope (confirm k)
    save_journal out

  -- The operation is written to the journal before it is done.
  unfoldable pub announce : Pending → (Scope → Scope) → M (Unit {0})
  announce p mark = do of_scope (λ s. with_pending (some p) (mark s)); save_journal out

  unfoldable pub perform_add : Fields → M Json
  perform_add rule = do
    result ← lift (out.add_filter rule)
    fresh ← gets (λ s. fresh_id s.scope (result_id result))
    accept_new (body out rule) fresh
    pure result

  unfoldable pub add_known : Fields → M Json
  add_known rule =
      branch (λ s. contains s.scope.desired (body out rule))
        (do announce (add (digest out (body out rule))) (λ t. t); perform_add rule)
        (raise add_refused)

  unfoldable pub add_filter : Fields → M Json
  add_filter rule = do snapshot_filters out; add_known rule

  abbrev pub is_free : Option Text → Bool
  is_free none = true
  is_free (some _) = false

  -- The `finally` clause: the mark of the deletion goes on every path.
  unfoldable pub finally_clear : {A : Type 0} → M A → M A
  finally_clear m s =
      let (r, t) = m s in (r, record t { scope = record (t.scope) { pending_delete = none } })

  unfoldable pub delete_marked : Text → M Json
  delete_marked k = do
    result ← lift (out.delete_filter k)
    readback ← snapshot_filters out
    require (not (any (λ (r : Rule). r.0 == k) readback)) delete_remains
    pure result

  abbrev pub may_delete : Scope → Text → Bool
  may_delete s k = contains (keys s.old_by_id) k || contains (keys s.new_by_id) k

  unfoldable pub delete_known : Text → M Json
  delete_known k =
      branch (λ s. may_delete s.scope k)
        (branch (λ s. is_free s.scope.pending_delete)
          (do
            announce (delete k) (λ t. record t { pending_delete = some k })
            finally_clear (delete_marked k))
          (raise delete_conflict))
        (raise delete_refused)

  unfoldable pub delete_filter : Text → M Json
  delete_filter k = do snapshot_filters out; delete_known k
