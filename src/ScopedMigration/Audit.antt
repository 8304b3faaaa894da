-- ===== src/ScopedMigration/Audit.antt =====
-- What `_ScopedMigrationApi` (manager/manage.py) lets through to the server: the calls are recorded,
-- and the record is held against the scope and the journal.
use xserver_mail_lineworks.Shared.{
  ◌≡◌, refl, sym, ◌∙◌, ap, ◌⊎◌, inl, inr, Bool, true, false, not, ◌&&◌, ◌||◌, Option, none, some,
  List, [], ◌∷◌, ◌==◌, nat_eq, list_eq, option_eq, Text, contains, keys, put, keys-put, Json,
  Fields, arith, Bool-cases, if◌then◌else◌, find, if_both,
}
use xserver_mail_lineworks.Shared.Exec.{
  Exec, Answer, value, raised, proceed, pure, raise, gets, require, ◌>>=◌, ◌>>◌, Keeps, Keeps-bind,
  Keeps-pure, Keeps-raise, Keeps-branch, Keeps-gets, Keeps-require, keeps_rules, branch,
}
use xserver_mail_lineworks.ScopedMigration.{
  Refusal, Pending, add, delete, Journal, Rule, Scope, Outside, State, digest, body,
}
use xserver_mail_lineworks.ScopedMigration.Snapshot.{
  lift, with_pending, with_journal, of_scope, journal_of, save_journal, snapshot_filters,
  none_or_raise, need_ids, adopt, adopt_only, missing_new, retire_id, new_rule, retire,
  adopt_pending, retire_missing, check_new, check_rules,
}
use xserver_mail_lineworks.ScopedMigration.Operations.{
  may_delete, is_free, announce, perform_add, accept_new, add_known, add_filter, delete_marked,
  finally_clear, delete_known, delete_filter,
}
pub mod Snapshots
pub mod Operations
pub mod Sessions
pub mod Readings

-- What reaches the server or the journal, the latest first.
pub data Call : Type 0 where
  added deleted : Text → Call
  persisted : Journal → Call

abbrev pub Logged : Type 0 → Type 0
Logged W = List Call × W

abbrev record_call : {W A : Type 0} → Call → Exec Refusal W A → Exec Refusal (Logged W) A
record_call c m (l, w) = let (r, w') = m w in (r, (c ∷ l, w'))

abbrev unrecorded : {W A : Type 0} → Exec Refusal W A → Exec Refusal (Logged W) A
unrecorded m (l, w) = let (r, w') = m w in (r, (l, w'))

-- The same outside with a record of the calls that change something.
abbrev pub logged : {W : Type 0} → Outside W → Outside (Logged W)
logged out = record {
  snapshot = unrecorded out.snapshot;
  add_filter = λ r. record_call (added (body out r)) (out.add_filter r);
  delete_filter = λ k. record_call (deleted k) (out.delete_filter k);
  persist_journal = λ j. record_call (persisted j) (out.persist_journal j);
  dumps = out.dumps;
  sha256 = out.sha256;
}

-- The call before this one wrote the operation to the journal.
abbrev pub Announced : Pending → List Call → Type 0
Announced p (persisted j ∷ l) = j.pending ≡ some p
Announced p _ = ⊥

module _ {W : Type 0} (out : Outside W) where
  -- Every addition is of a desired filter, every deletion of an old one or of one that was added, and
  -- each of them was written to the journal just before.
  abbrev pub IsAudited : Scope → List Call → Type 0
  IsAudited s [] = Unit {0}
  IsAudited s (persisted j ∷ l) = IsAudited s l
  IsAudited s (added b ∷ l) =
      (contains s.desired b ≡ true) × Announced (add (digest out b)) l × IsAudited s l
  IsAudited s (deleted k ∷ l) = (may_delete out s k ≡ true) × Announced (delete k) l × IsAudited s l

-- The scope only grows: what may be added stays, what may be deleted too, and so do the filters
-- that must be left alone.
pub record Grows (s t : Scope) : Type 0 where
  pub desired : t.desired ≡ s.desired
  pub old : t.old_by_id ≡ s.old_by_id
  pub unrelated : t.unrelated ≡ s.unrelated
  pub baseline : t.baseline_by_id ≡ s.baseline_by_id
  pub new : (k : Text) → contains (keys s.new_by_id) k ≡ true → contains (keys t.new_by_id) k ≡ true

pub Grows-same :
    (s t : Scope)
    → t.desired ≡ s.desired
    → t.old_by_id ≡ s.old_by_id
    → t.new_by_id ≡ s.new_by_id
    → t.unrelated ≡ s.unrelated
    → t.baseline_by_id ≡ s.baseline_by_id
    → Grows s t
Grows-same s t d o n u b = record {
  desired = d;
  old = o;
  unrelated = u;
  baseline = b;
  new = λ k m. ap (λ x. contains (keys x) k) n ∙ m;
}

pub Grows-adopt : (s : Scope) (k b : Text) → Grows s (adopt k b s)
Grows-adopt s k b = record {
  desired = refl;
  old = refl;
  unrelated = refl;
  baseline = refl;
  new = λ j m. ground (arith, keys-put k b s.new_by_id j);
}

pub Grows-may_delete :
    {W : Type 0} (out : Outside W) (s t : Scope) (k : Text)
    → Grows s t
    → may_delete out s k ≡ true
    → may_delete out t k ≡ true
Grows-may_delete out s t k g m = ground (arith, g.new k, ap (λ d. contains (keys d) k) g.old)

pub Grows-trans : (s t u : Scope) → Grows s t → Grows t u → Grows s u
Grows-trans s t u f g = record {
  desired = g.desired ∙ f.desired;
  old = g.old ∙ f.old;
  unrelated = g.unrelated ∙ f.unrelated;
  baseline = g.baseline ∙ f.baseline;
  new = λ k m. g.new k (f.new k m);
}

module _ {W : Type 0} (out : Outside W) where
  pub IsAudited-Grows :
      (s t : Scope) (l : List Call) → Grows s t → IsAudited out s l → IsAudited out t l
  IsAudited-Grows s t [] g h = tt
  IsAudited-Grows s t (persisted j ∷ l) g h = IsAudited-Grows s t l g h
  IsAudited-Grows s t (added b ∷ l) g h =
      (ap (λ d. contains d b) g.desired ∙ h.0, h.1, IsAudited-Grows s t l g h.2)
  IsAudited-Grows s t (deleted k ∷ l) g h =
      (Grows-may_delete out s t k g h.0, h.1, IsAudited-Grows s t l g h.2)

-- What no growth of the scope and no write of the journal undoes.
pub record IsClosed (P : Scope → List Call → Type 0) : Type 0 where
  pub grown : (s t : Scope) (l : List Call) → Grows s t → P s l → P t l
  pub journaled : (s : Scope) (j : Journal) (l : List Call) → P s l → P s (persisted j ∷ l)

abbrev pub Holds : {W : Type 0} → (Scope → List Call → Type 0) → State (Logged W) → Type 0
Holds P st = P st.scope st.world.0
