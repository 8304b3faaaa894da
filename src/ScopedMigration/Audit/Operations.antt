-- ===== src/ScopedMigration/Audit/Operations.antt =====
-- `add_filter` and `delete_filter` of `_ScopedMigrationApi` (manager/manage.py): every change they
-- make is within the scope and was announced.
use xserver_mail_lineworks.Shared.{
  ◌≡◌, refl, ◌∙◌, ap, true, not, Option, none, some, List, ◌∷◌, ◌==◌, nat_eq, list_eq, Text,
  contains, put, keys-put, Json, Fields, arith, any,
}
use xserver_mail_lineworks.Shared.Exec.{
  Exec, pure, raise, gets, require, ◌>>=◌, Keeps, Keeps-bind, Keeps-raise, keeps_rules,
}
use xserver_mail_lineworks.ScopedMigration.{
  Refusal, delete_remains, Pending, add, delete, Rule, Scope, Outside, State, digest, body,
}
use xserver_mail_lineworks.ScopedMigration.Snapshot.{
  lift, with_pending, with_journal, of_scope, journal_of, save_journal, snapshot_filters,
}
use xserver_mail_lineworks.ScopedMigration.Operations.{
  may_delete, is_free, fresh_id, announce, perform_add, accept_new, add_known, add_filter,
  delete_marked, finally_clear, delete_known, delete_filter, result_id,
}
use xserver_mail_lineworks.Shared.Exec.{bind_after, proceed-at, branch-at, Keeps-require}
use xserver_mail_lineworks.ScopedMigration.Audit.{
  persisted, Logged, logged, Announced, Grows, Grows-same, Grows-may_delete, Grows-trans, IsAudited,
  IsAudited-Grows, Call, IsClosed,
}
use xserver_mail_lineworks.ScopedMigration.Audit.Snapshots.{
  of_scope-Keeps, save_journal-Keeps, snapshot_filters-Keeps,
}

Grows-record_new : (s : Scope) (k b : Text) → Grows s (record s { new_by_id = put k b s.new_by_id })
Grows-record_new s k b = record {
  desired = refl;
  old = refl;
  unrelated = refl;
  baseline = refl;
  new = λ j m. ground (arith, keys-put k b s.new_by_id j);
}

module _ {W : Type 0} (out : Outside W) (start : Scope) where
  -- The scope has grown from that at the start, and the calls are audited.
  abbrev pub AuditedCalls : Scope → List Call → Type 0
  AuditedCalls s l = Grows start s × IsAudited out s l

  abbrev pub Audited : State (Logged W) → Type 0
  Audited st = AuditedCalls st.scope st.world.0

  Audited-Grows : (s t : Scope) (l : List Call) → Grows s t → AuditedCalls s l → AuditedCalls t l
  Audited-Grows s t l g (h, a) = (Grows-trans start s t h g, IsAudited-Grows out s t l g a)

  Audited-IsClosed : IsClosed AuditedCalls
  Audited-IsClosed = record { grown = Audited-Grows; journaled = λ s j l h. h }

module _ {W : Type 0} (out : Outside W) (start : Scope) where
  abbrev L : Outside (Logged W)
  L = logged out

  snapshot_filters-Audited : Keeps (Audited out start) (snapshot_filters L)
  snapshot_filters-Audited =
      snapshot_filters-Keeps out (AuditedCalls out start) (Audited-IsClosed out start)

  accept_new-Audited : (b : Text) (k : Option Text) → Keeps (Audited out start) (accept_new L b k)
  unfolding accept_new
  accept_new-Audited b none = Keeps-raise _
  accept_new-Audited b (some k) =
      Keeps-bind _ _
        (of_scope-Keeps (AuditedCalls out start) (Audited-IsClosed out start) _
          (λ s. Grows-record_new s k b))
        λ u.
          Keeps-bind _ _
            (save_journal-Keeps out (AuditedCalls out start) (Audited-IsClosed out start))
            λ u. Keeps-bind _ _ (snapshot_filters-Audited) λ rs.
              Keeps-bind _ _ (Keeps-require _ _) λ u.
                Keeps-bind _ _
                  (of_scope-Keeps (AuditedCalls out start) (Audited-IsClosed out start) _
                    (λ s. Grows-same s _ refl refl refl refl refl))
                  λ u. save_journal-Keeps out (AuditedCalls out start) (Audited-IsClosed out start)

  gets-fresh-Audited :
      (r : Fields) (result : Json)
      → Keeps (Audited out start) (
          gets (λ (s : State (Logged W)). fresh_id L s.scope (result_id result)) >>= λ fresh.
          accept_new L (body L r) fresh >>= λ (u : Unit {0}). pure result)
  gets-fresh-Audited r result = search (keeps_rules, accept_new-Audited)

  add_call-Audited :
      (r : Fields) (st : State (Logged W))
      → Audited out start st
      → contains st.scope.desired (body out r) ≡ true
      → Announced (add (digest out (body out r))) st.world.0
      → Audited out start (lift (L.add_filter r) st).1
  unfolding lift
  add_call-Audited r st h d a = (h.0, (d, a, h.1))

  perform_add-Audited :
      (r : Fields) (st : State (Logged W))
      → Audited out start st
      → contains st.scope.desired (body out r) ≡ true
      → Announced (add (digest out (body out r))) st.world.0
      → Audited out start (perform_add L r st).1
  unfolding perform_add
  perform_add-Audited r st h d a =
      bind_after (lift (L.add_filter r)) _ st (add_call-Audited r st h d a)
        (λ result. gets-fresh-Audited r result)

  delete_call-Audited :
      (k : Text) (st : State (Logged W))
      → Audited out start st
      → may_delete out st.scope k ≡ true
      → Announced (delete k) st.world.0
      → Audited out start (lift (L.delete_filter k) st).1
  unfolding lift
  delete_call-Audited k st h d a = (h.0, (d, a, h.1))

  delete_readback-Audited :
      (k : Text) (result : Json)
      → Keeps (Audited out start) (
          snapshot_filters L >>= λ readback.
          require (not (any (λ (r : Rule). r.0 == k) readback)) delete_remains >>= λ (u : Unit {0}).
          pure result)
  delete_readback-Audited k result = search (keeps_rules, snapshot_filters-Audited)

  delete_marked-Audited :
      (k : Text) (st : State (Logged W))
      → Audited out start st
      → may_delete out st.scope k ≡ true
      → Announced (delete k) st.world.0
      → Audited out start (delete_marked L k st).1
  unfolding delete_marked
  delete_marked-Audited k st h d a =
      bind_after (lift (L.delete_filter k)) _ st (delete_call-Audited k st h d a)
        (λ result. delete_readback-Audited k result)

  finally-Audited :
      {A : Type 0} (m : Exec Refusal (State (Logged W)) A) (st : State (Logged W))
      → Audited out start (m st).1
      → Audited out start (finally_clear L m st).1
  unfolding finally_clear
  finally-Audited m st h =
      Audited-Grows out start _ _ (m st).1.world.0
        (Grows-same (m st).1.scope (record ((m st).1.scope) { pending_delete = none }) refl refl
          refl refl refl)
        h

  abbrev announced_scope : Pending → (Scope → Scope) → Scope → Scope
  announced_scope p mark s =
      let t = with_pending (some p) (mark s) in with_journal t (journal_of L t)

  Grows-announced :
      (p : Pending) (mark : Scope → Scope)
      → ((s : Scope) → Grows s (mark s))
      → (s : Scope) → Grows s (announced_scope p mark s)
  Grows-announced p mark g s = record {
    desired = (g s).desired;
    old = (g s).old;
    new = (g s).new;
    unrelated = (g s).unrelated;
    baseline = (g s).baseline;
  }

  -- Once the journal with the operation is written, the operation may be done.
  announce_then :
      {A : Type 0} (p : Pending) (mark : Scope → Scope)
      (f : Unit {0} → Exec Refusal (State (Logged W)) A) (st : State (Logged W))
      → ((s : Scope) → Grows s (mark s))
      → Audited out start st
      → ((t : State (Logged W))
          → Audited out start t
          → Announced p t.world.0
          → Grows st.scope t.scope
          → Audited out start (f tt t).1)
      → Audited out start ((announce L p mark >>= f) st).1
  unfolding announce of_scope save_journal lift journal_of ◌>>=◌
  announce_then p mark f st g h k =
      let g' = Grows-announced p mark g st.scope in
      let s' = announced_scope p mark st.scope in
      let written = out.persist_journal s'.journal st.world.1 in
      let st' : State (Logged W) = record {
        scope = s';
        world = (persisted s'.journal ∷ st.world.0, written.1);
      } in
      let kept = Audited-Grows out start st.scope s' st.world.0 g' h in
      proceed-at (Audited out start) written.0 f st' kept (λ u. k st' kept refl g')

  add_known-Audited : (r : Fields) → Keeps (Audited out start) (add_known L r)
  unfolding add_known raise body digest
  add_known-Audited r = record {
    at = λ st h.
        branch-at (Audited out start) _ _ _ st
          (λ d.
            announce_then (add (digest L (body L r))) (λ t. t) (λ u. perform_add L r) st
              (λ s. Grows-same s s refl refl refl refl refl) h
              (λ t k a g.
                perform_add-Audited r t k (ap (λ ds. contains ds (body out r)) g.desired ∙ d) a))
          h;
  }

  pub add_filter-Audited : (r : Fields) → Keeps (Audited out start) (add_filter L r)
  unfolding add_filter
  add_filter-Audited r = Keeps-bind _ _ (snapshot_filters-Audited) (λ rs. add_known-Audited r)

  abbrev mark_delete : Text → Scope → Scope
  mark_delete k t = record t { pending_delete = some k }

  delete_announced-Audited :
      (k : Text) (st : State (Logged W))
      → Audited out start st
      → may_delete L st.scope k ≡ true
      → Audited out start
          ((announce L (delete k) (mark_delete k) >>= λ (u : Unit {0}).
              finally_clear L (delete_marked L k))
            st).1
  delete_announced-Audited k st h d =
      announce_then (delete k) (mark_delete k) (λ u. finally_clear L (delete_marked L k)) st
        (λ s. Grows-same s (mark_delete k s) refl refl refl refl refl) h
        (λ t i a g.
          finally-Audited (delete_marked L k) t
            (delete_marked-Audited k t i (Grows-may_delete out st.scope t.scope k g d) a))

  delete_known-Audited : (k : Text) → Keeps (Audited out start) (delete_known L k)
  unfolding delete_known raise
  delete_known-Audited k = record {
    at = λ st h.
        branch-at (Audited out start) _ _ _ st
          (λ d.
            branch-at (Audited out start) (λ s. is_free L s.scope.pending_delete) _ _ st
              (λ f. delete_announced-Audited k st h d) h)
          h;
  }

  pub delete_filter-Audited : (k : Text) → Keeps (Audited out start) (delete_filter L k)
  unfolding delete_filter
  delete_filter-Audited k = Keeps-bind _ _ (snapshot_filters-Audited) (λ rs. delete_known-Audited k)
