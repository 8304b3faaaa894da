-- ===== src/ScopeJournal/Store/Pending.antt =====
-- `pending_authorization` (manager/scope_journal.py) on the journal of a synchronisation: which operation
-- may be resumed.
use xserver_mail_lineworks.Shared.{
  ◌≡◌, refl, true, Option, none, some, nat_eq, list_eq, pair_eq, Text,
}
use xserver_mail_lineworks.Shared.Exec.{Answer, value, raised, ◌>>=◌}
use xserver_mail_lineworks.ScopeJournal.{PendingOp, Saved}
use xserver_mail_lineworks.ScopeJournal.Checks.{is_consistent}
use xserver_mail_lineworks.ScopeJournal.Checks.Pending.{PendingRecorded, consistent-Recorded}
use xserver_mail_lineworks.ScopeJournal.Store.{
  Failure, target_sync, Ftps, pending_of, pending_authorization,
}
use xserver_mail_lineworks.ScopeJournal.Store.Cell.{IsCell, Reads, read_exact-Post}
use xserver_mail_lineworks.ScopeJournal.Store.Plan.{Holds, decode_body-consistent}

module _ {W : Type 0} (ftps : Ftps W) (cell : W → Option Text) where
  abbrev pub PendingOutcome : Option Text → Answer Failure (Option PendingOp) × W → Type 0
  PendingOutcome c (value none, w) = cell w ≡ c
  PendingOutcome c (value (some p), w) =
      (cell w ≡ c)
      × (s : Saved) × Holds ftps cell c s
      × (is_consistent s ≡ true)
      × (s.pending ≡ some p)
      × PendingRecorded s (some p)
  PendingOutcome c (raised e, w) = cell w ≡ c

  module _ (is_cell : IsCell ftps cell) where
    -- `pending_authorization` changes nothing. The operation that it returns is the pending one of the
    -- journal that the cell holds, which is consistent, and is the addition of a desired body, under no
    -- id yet or under the id of an addition, or the deletion of a filter that is recorded, as old or
    -- as added, with this hash; never the deletion of an unrelated filter.
    pub pending_authorization-Recorded :
        (w : W) → PendingOutcome (cell w) (pending_authorization ftps target_sync w)
    unfolding pending_authorization ◌>>=◌
    pending_authorization-Recorded w =
        read_exact-Post ftps cell (PendingOutcome (cell w)) target_sync is_cell.reads w _
          (λ e w' k. k) go
      where
        op :
            (w' : W) (s : Saved) (o : Option PendingOp)
            → cell w' ≡ cell w
            → Holds ftps cell (cell w) s
            → is_consistent s ≡ true
            → s.pending ≡ o
            → PendingRecorded s o
            → PendingOutcome (cell w) (value o, w')
        op w' s none k h y e r = k
        op w' s (some p) k h y e r = (k, s, h, y, e, r)

        go :
            (w' : W) (o : Option (Saved × Text))
            → cell w' ≡ cell w
            → Reads ftps cell (cell w) o
            → PendingOutcome (cell w) (value (pending_of ftps o), w')
        go w' none k r = k
        go w' (some (s, body)) k (e, d) =
            let y = decode_body-consistent ftps cell body d in
            op w' s s.pending k (body, e, d) y refl (consistent-Recorded s y)
