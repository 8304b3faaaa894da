-- ===== src/ScopedMigration/Audit/Sessions.antt =====
-- A whole synchronisation over one `_ScopedMigrationApi` (manager/manage.py), from `__init__` through
-- any calls of `add_filter` and `delete_filter`, whether they return or raise.
use xserver_mail_lineworks.Shared.{refl, List, [], ◌∷◌, Text, Fields}
use xserver_mail_lineworks.ScopedMigration.{Scope, Outside, State}
use xserver_mail_lineworks.ScopedMigration.Operations.{add_filter, delete_filter}
use xserver_mail_lineworks.ScopedMigration.Audit.{Logged, logged, Grows-same}
use xserver_mail_lineworks.ScopedMigration.Audit.Operations.{
  Audited, add_filter-Audited, delete_filter-Audited,
}

pub data Operation : Type 0 where
  adding : Fields → Operation
  deleting : Text → Operation

module _ {W : Type 0} (out : Outside W) where
  abbrev pub perform : Operation → State W → State W
  perform (adding r) st = (add_filter out r st).1
  perform (deleting k) st = (delete_filter out k st).1

  abbrev pub perform_all : List Operation → State W → State W
  perform_all [] st = st
  perform_all (o ∷ os) st = perform_all os (perform o st)

module _ {W : Type 0} (out : Outside W) (start : Scope) where
  perform-Audited :
      (o : Operation) (st : State (Logged W))
      → Audited out start st
      → Audited out start (perform (logged out) o st)
  perform-Audited (adding r) st h = (add_filter-Audited out start r).at st h
  perform-Audited (deleting k) st h = (delete_filter-Audited out start k).at st h

  -- From any scope, whatever calls of `add_filter` and `delete_filter` are made and however they end,
  -- the calls that reach the server are within the scope: an addition is of a body that the scope
  -- desires, a deletion is of an id that was old at the start or was added, and the call just before
  -- it wrote a journal that has exactly this operation as pending. The desired bodies and the old
  -- filters are those of the start.
  pub operations-Audited :
      (os : List Operation) (w : W)
      → Audited out start (perform_all (logged out) os (record { scope = start; world = ([], w) }))
  operations-Audited os w =
      all_from os (record { scope = start; world = ([], w) })
        (Grows-same start start refl refl refl refl refl, tt)
    where
      all_from :
          (os : List Operation) (st : State (Logged W))
          → Audited out start st
          → Audited out start (perform_all (logged out) os st)
      all_from [] st h = h
      all_from (o ∷ os) st h = all_from os (perform (logged out) o st) (perform-Audited o st h)
