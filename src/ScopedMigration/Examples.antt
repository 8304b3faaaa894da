-- ===== src/ScopedMigration/Examples.antt =====
-- A synchronisation against a server in memory, and the theorems at it.
use xserver_mail_lineworks.Shared.{
  ◌≡◌, refl, not, none, some, List, [], ◌∷◌, ◌++◌, ◌==◌, nat_eq, list_eq, option_eq, list_beq,
  option_beq, contains, all, any, select, distinct, subset, find, put, Text, codes, Json, null, str,
  obj, Fields, end, field, get_field,
}
use xserver_mail_lineworks.EmailAddress.{text_lt}
use xserver_mail_lineworks.XserverApi.Filters.{get_default}
use xserver_mail_lineworks.Shared.Exec.{value, ◌>>=◌}
use xserver_mail_lineworks.ScopedMigration.{
  Scope, Outside, State, digest, body, canonical, sorted_ids, sorted_pairs,
}
use xserver_mail_lineworks.ScopedMigration.Checks.{
  id_of, with_ids, identified, drop_field, authorized_delete, is_known, outside_problem,
  old_problem,
}
use xserver_mail_lineworks.ScopedMigration.Snapshot.{
  lift, of_scope, none_or_raise, journal_of, save_journal, adopt_only, adopt_pending,
  retire_missing, missing_new, new_rule, check_new, need_ids, check_rules, snapshot_filters,
}
use xserver_mail_lineworks.ScopedMigration.Operations.{
  result_id, accept_new, announce, perform_add, add_known, add_filter, finally_clear, delete_marked,
  delete_known, delete_filter,
}
use xserver_mail_lineworks.ScopedMigration.Audit.{Call, added, deleted, persisted, Logged, logged}
use xserver_mail_lineworks.ScopedMigration.Audit.Operations.{Audited}
use xserver_mail_lineworks.Shared.{inl}
use xserver_mail_lineworks.ScopedMigration.Audit.Readings.{Touched, IsStopped, outside_guarded}
use xserver_mail_lineworks.ScopedMigration.Audit.Sessions.{
  Operation, adding, deleting, perform_all, operations-Audited,
}

-- The filters of the server. A filter is its domain and its id here.
abbrev server_rule : Text → Text → Fields
server_rule domain k = field (codes "domain") (str domain) (field (codes "id") (str k) end)

-- Enough of `json.dumps` to tell the filters apart: the first text.
abbrev first_text : Json → Text
first_text (obj (field k (str t) fs)) = t
first_text _ = []

abbrev keep_others : Text → List Fields → List Fields
keep_others k rs = select (λ r. not (id_of r == some k)) rs

abbrev server : Outside (List Fields)
server = record {
  snapshot = λ w. (value w, w);
  add_filter = λ r w. (
    value (obj (server_rule [] (codes "9"))),
    w ++ server_rule (first_text (obj r)) (codes "9") ∷ [],
  );
  delete_filter = λ k w. (value null, keep_others k w);
  persist_journal = λ j w. (value tt, w);
  dumps = first_text;
  sha256 = λ t. t;
}

abbrev start : Scope
start = record {
  baseline_by_id =
      (codes "1", server_rule (codes "other.jp") (codes "1"))
      ∷ (codes "2", server_rule (codes "old.jp") (codes "2"))
      ∷ [];
  old_by_id = (codes "2", codes "old.jp") ∷ [];
  active_old_ids = codes "2" ∷ [];
  new_by_id = [];
  confirmed_new_ids = [];
  retired_ids = [];
  pending_delete = none;
  desired = codes "new.jp" ∷ [];
  unrelated = (codes "1", codes "other.jp") ∷ [];
  journal = record {
    version = 1;
    scope_sha256 = [];
    retired_ids = [];
    new_ids = [];
    pending = none;
  };
}

abbrev rules_at_start : List Fields
rules_at_start =
    server_rule (codes "other.jp") (codes "1") ∷ server_rule (codes "old.jp") (codes "2") ∷ []

abbrev operations : List Operation
operations =
    adding (field (codes "domain") (str (codes "new.jp")) end)
    ∷ deleting (codes "2")
    ∷ deleting (codes "1")
    ∷ []

-- The changes that a log has, the latest first.
abbrev changes : List Call → List Text
changes [] = []
changes (added b ∷ l) = b ∷ changes l
changes (deleted k ∷ l) = k ∷ changes l
changes (persisted j ∷ l) = changes l

abbrev final : State (Logged (List Fields))
final =
    perform_all (logged server) operations (record { scope = start; world = ([], rules_at_start) })

-- The third operation is refused: the filter `1` is not of the scope.
operations_run : changes final.world.0 ≡ codes "2" ∷ codes "new.jp" ∷ []
unfolding add_filter delete_filter snapshot_filters check_rules adopt_pending adopt_only
    retire_missing missing_new new_rule check_new need_ids lift of_scope none_or_raise journal_of
    save_journal result_id accept_new announce perform_add add_known finally_clear delete_marked
    delete_known id_of with_ids identified drop_field authorized_delete is_known outside_problem
    old_problem digest body canonical sorted_ids sorted_pairs text_lt get_default list_beq
    option_beq contains all any select distinct subset find put ◌>>=◌ get_field
operations_run = refl

operations-Audited_example : Audited server start final
operations-Audited_example = operations-Audited server start operations rules_at_start

-- The filter `1` is gone.
abbrev shrunk : State (Logged (List Fields))
shrunk = record { scope = start; world = ([], server_rule (codes "old.jp") (codes "2") ∷ []) }

shrunk_read :
    identified (server_rule (codes "old.jp") (codes "2") ∷ [])
    ≡ some ((codes "2", server_rule (codes "old.jp") (codes "2")) ∷ [])
unfolding id_of with_ids identified get_default get_field list_beq contains distinct
shrunk_read = refl

shrunk-Touched :
    Touched server start ((codes "2", server_rule (codes "old.jp") (codes "2")) ∷ []) (codes "1")
unfolding find list_beq
shrunk-Touched = (codes "other.jp", refl, inl refl)

outside_guarded_example :
    ((r : Fields) → IsStopped server (add_filter (logged server) r) shrunk)
    × ((j : Text) → IsStopped server (delete_filter (logged server) j) shrunk)
outside_guarded_example = outside_guarded server (codes "1") shrunk refl shrunk_read shrunk-Touched
