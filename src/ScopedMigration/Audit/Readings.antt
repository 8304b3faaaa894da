-- ===== src/ScopedMigration/Audit/Readings.antt =====
-- A reading of the server in which a filter outside the scope is missing or changed stops
-- `add_filter` and `delete_filter` of `_ScopedMigrationApi` (manager/manage.py).
use mathlib.Core.Option.{some-injective}
use xserver_mail_lineworks.Shared.{
  ◌≡◌, refl, sym, ◌∙◌, ap, ap₂, ◌⊎◌, inl, inr, false, Option, none, some, List, [], ◌∷◌, ◌==◌,
  nat_eq, list_eq, Text, codes, find, keys, Fields, Bool-cases, ==_iff, subst,
}
use xserver_mail_lineworks.Shared.Exec.{
  Exec, Answer, value, raised, proceed, gets, require, ◌>>=◌, Keeps, Keeps-require,
}
use xserver_mail_lineworks.ScopedMigration.{
  Refusal, outside_changed, Rule, Scope, Outside, State, canonical,
}
use xserver_mail_lineworks.ScopedMigration.Checks.{
  identified, drop_field, outside_problem, outside_rule, first_of_two,
}
use xserver_mail_lineworks.ScopedMigration.Snapshot.{
  lift, none_or_raise, need_ids, adopt_pending, check_rules, snapshot_filters,
}
use xserver_mail_lineworks.ScopedMigration.Operations.{add_filter, delete_filter}
use xserver_mail_lineworks.ScopedMigration.Audit.{
  Call, added, deleted, persisted, Logged, logged, IsClosed, Holds,
}
use xserver_mail_lineworks.ScopedMigration.Audit.Snapshots.{
  adopt_pending-Keeps, snapshot_filters-Keeps,
}

abbrev pub Fails : {E S A : Type 0} → Exec E S A → S → Type 0
Fails {E} m s = (e : E) × ((m s).0 ≡ raised e)

module _ {E S A B : Type 0} where
  Fails-first : (m : Exec E S A) (f : A → Exec E S B) (s : S) → Fails m s → Fails (m >>= f) s
  unfolding ◌>>=◌
  Fails-first m f s (e, q) = (e, rw q refl)

  Fails-next :
      (P : S → Type 0) (m : Exec E S A) (f : A → Exec E S B) (s : S)
      → P s
      → Keeps P m
      → ((a : A) (t : S) → P t → Fails (f a) t)
      → Fails (m >>= f) s
  unfolding ◌>>=◌
  Fails-next P m f s h k rest = go (m s) (k.at s h)
    where
      go : (r : Answer E A × S) → P r.1 → Fails (λ t. proceed r.0 f r.1) s
      go (value a, t) p = rest a t p
      go (raised e, t) p = (e, refl)

  Fails-gets : (g : S → A) (f : A → Exec E S B) (s : S) → Fails (f (g s)) s → Fails (gets g >>= f) s
  unfolding ◌>>=◌ gets
  Fails-gets g f s h = h

-- The changes of the server in a record of calls.
abbrev pub changes : List Call → List Call
changes [] = []
changes (persisted j ∷ l) = changes l
changes (added b ∷ l) = added b ∷ changes l
changes (deleted k ∷ l) = deleted k ∷ changes l

abbrev Unchanged : List Call → Scope → List Call → Type 0
Unchanged before s l = changes l ≡ changes before

Unchanged-IsClosed : (before : List Call) → IsClosed (Unchanged before)
Unchanged-IsClosed before = record { grown = λ s t l g h. h; journaled = λ s j l h. h }

-- The filters that must be left alone, as they were planned.
abbrev SameOutside : Scope → Scope → List Call → Type 0
SameOutside start s l = (s.unrelated ≡ start.unrelated) × (s.baseline_by_id ≡ start.baseline_by_id)

SameOutside-IsClosed : (start : Scope) → IsClosed (SameOutside start)
SameOutside-IsClosed start = record {
  grown = λ s t l g h. (g.unrelated ∙ h.0, g.baseline ∙ h.1);
  journaled = λ s j l h. h;
}

module _ {W : Type 0} (out : Outside W) where
  -- In a reading, the filter `k` outside the scope is missing, or it differs from the planned one in
  -- something else than its priority.
  abbrev pub Touched : Scope → List Rule → Text → Type 0
  Touched s rules k =
      (expected : Text) × (find k s.unrelated ≡ some expected)
      × ((find k rules ≡ none)
          ⊎ ((r b : Fields) × (find k rules ≡ some r)
              × ((canonical out r == expected) ≡ false)
              × (find k s.baseline_by_id ≡ some b)
              × ((canonical out (drop_field (codes "priority") r)
                    == canonical out (drop_field (codes "priority") b))
                  ≡ false)))

  outside_rule-Touched :
      (s : Scope) (rules : List Rule) (k expected : Text)
      → (find k rules ≡ none)
        ⊎ ((r b : Fields) × (find k rules ≡ some r)
            × ((canonical out r == expected) ≡ false)
            × (find k s.baseline_by_id ≡ some b)
            × ((canonical out (drop_field (codes "priority") r)
                  == canonical out (drop_field (codes "priority") b))
                ≡ false))
      → outside_rule out s (keys rules) k expected (find k rules) ≡ some outside_changed
  outside_rule-Touched s rules k expected (inl e) = rw e refl
  outside_rule-Touched s rules k expected (inr (r, b, e, d, f, c)) = rw (e, d, f, c) refl

  first_some : (x y : Option Refusal) (e : Refusal) → x ≡ some e → first_of_two out x y ≡ some e
  first_some x y e q = rw q refl

  first_rest :
      (x y : Option Refusal) (e : Refusal)
      → y ≡ some e
      → (e' : Refusal) × (first_of_two out x y ≡ some e')
  first_rest none y e q = (e, q)
  first_rest (some e') y e q = (e', refl)

  outside_problem-Touched :
      (s : Scope) (rules : List Rule) (k expected : Text) (us : List (Text × Text))
      → find k us ≡ some expected
      → outside_rule out s (keys rules) k expected (find k rules) ≡ some outside_changed
      → (e : Refusal) × (outside_problem out s rules us ≡ some e)
  unfolding outside_problem find
  outside_problem-Touched s rules k expected [] q h = cc
  outside_problem-Touched s rules k expected ((j, x) ∷ us) q h = elim (Bool-cases (k == j)) [
    | inl y ↦
        let same : k ≡ j = (==_iff k j).0 y in
        let found : some x ≡ some expected = rw (y, find) at q in
        (
          outside_changed,
          first_some (outside_rule out s (keys rules) j x (find j rules)) _ outside_changed (
              subst
                (λ (p : Text × Text).
                  outside_rule out s (keys rules) p.0 p.1 (find p.0 rules) ≡ some outside_changed)
                (ap₂ (λ a b. (a, b)) same (sym (some-injective _ _ found))) h),
        )
    | inr n ↦
        let (e, p) = outside_problem-Touched s rules k expected us (rw (n, find) at q) h in
        first_rest (outside_rule out s (keys rules) j x (find j rules)) _ e p
  ]

  Touched-same :
      (s t : Scope) (rules : List Rule) (k : Text)
      → t.unrelated ≡ s.unrelated
      → t.baseline_by_id ≡ s.baseline_by_id
      → Touched s rules k
      → Touched t rules k
  Touched-same s t rules k u b (expected, q, inl e) = (expected, ap (λ us. find k us) u ∙ q, inl e)
  Touched-same s t rules k u b (expected, q, inr (r, x, e, d, f, c)) =
      (expected, ap (λ us. find k us) u ∙ q, inr (r, x, e, d, ap (λ rs. find k rs) b ∙ f, c))

  problem-Touched :
      (s : Scope) (rules : List Rule) (k : Text)
      → Touched s rules k
      → (e : Refusal) × (outside_problem out s rules s.unrelated ≡ some e)
  problem-Touched s rules k (expected, q, h) =
      outside_problem-Touched s rules k expected s.unrelated q
        (outside_rule-Touched s rules k expected h)

module _ {W : Type 0} (out : Outside W) where
  none_or_raise-Fails :
      (p : Option Refusal) (st : State (Logged W))
      → (e : Refusal) × (p ≡ some e)
      → Fails (none_or_raise p) st
  unfolding none_or_raise
  none_or_raise-Fails none st (e, q) = cc
  none_or_raise-Fails (some e') st h = (e', refl)

  check_rules-Touched :
      (rules : List Rule) (k : Text) (st : State (Logged W))
      → Touched (logged out) st.scope rules k
      → Fails (check_rules (logged out) rules) st
  unfolding check_rules
  check_rules-Touched rules k st h =
      let start = st.scope in
      let same = SameOutside-IsClosed start in
      Fails-gets _ _ _ (
        Fails-next (Holds (SameOutside start)) (adopt_pending (logged out) _ _) _ st (refl, refl)
          (adopt_pending-Keeps out (SameOutside start) same _ _)
          (λ u t p. Fails-gets _ _ _ (
            Fails-next (Holds (SameOutside start)) (require _ _) _ t p (Keeps-require _ _)
              (λ u' t' p'. Fails-first _ _ _ (
                none_or_raise-Fails _ _ (
                  problem-Touched (logged out) t.scope rules k
                    (Touched-same (logged out) start t.scope rules k p.0 p.1 h)))))))

  snapshot_filters-Touched :
      (k : Text) (st : State (Logged W)) {read : List Fields} {rules : List Rule} {w : W}
      → out.snapshot st.world.1 ≡ (value read, w)
      → identified read ≡ some rules
      → Touched (logged out) st.scope rules k
      → Fails (snapshot_filters (logged out)) st
  unfolding snapshot_filters lift need_ids ◌>>=◌
  snapshot_filters-Touched k st {read} {rules} {w} r i h =
      let (e, q) = check_rules-Touched rules k (record st { world = (st.world.0, w) }) h in
      (e, rw (r, i) q)

  -- An action raised an error, and the server's filters are as they were.
  abbrev pub IsStopped :
      {A : Type 0} → Exec Refusal (State (Logged W)) A → State (Logged W) → Type 0
  IsStopped m st = Fails m st × (changes (m st).1.world.0 ≡ changes st.world.0)

  IsStopped-first :
      {A B : Type 0} (m : Exec Refusal (State (Logged W)) A)
      (f : A → Exec Refusal (State (Logged W)) B) (st : State (Logged W))
      → IsStopped m st
      → IsStopped (m >>= f) st
  unfolding ◌>>=◌
  IsStopped-first m f st ((e, q), c) = ((e, rw q refl), rw q c)

  -- If the reading that `add_filter` or `delete_filter` starts with returns and has distinct ids, and
  -- in it a
  -- filter outside the scope is missing or differs from the planned one in more than its priority,
  -- then both raise an error, and no filter of the server has been added or deleted.
  pub outside_guarded :
      (k : Text) (st : State (Logged W)) {read : List Fields} {rules : List Rule} {w : W}
      → out.snapshot st.world.1 ≡ (value read, w)
      → identified read ≡ some rules
      → Touched out st.scope rules k
      → ((r : Fields) → IsStopped (add_filter (logged out) r) st)
        × ((j : Text) → IsStopped (delete_filter (logged out) j) st)
  unfolding add_filter delete_filter canonical
  outside_guarded k st r i h =
      let stopped : IsStopped (snapshot_filters (logged out)) st = (
        snapshot_filters-Touched k st r i h,
        (snapshot_filters-Keeps out (Unchanged st.world.0) (Unchanged-IsClosed st.world.0)).at st
            refl,
      ) in
      (λ a. IsStopped-first _ _ st stopped, λ j. IsStopped-first _ _ st stopped)
