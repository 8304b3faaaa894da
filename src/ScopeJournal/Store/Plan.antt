-- ===== src/ScopeJournal/Store/Plan.antt =====
-- `prepare_v2` (manager/scope_journal.py) on the journal of a synchronisation, and `prepare` on that of
-- the first migration: which authorization they return, and what they may overwrite.
use xserver_mail_lineworks.Shared.{
  ◌≡◌, refl, sym, ◌∙◌, ◌⊎◌, inl, inr, Bool, true, false, ◌&&◌, Option, none, some, List, ==_iff,
  and_split, Bool-cases, nat_eq, list_eq, pair_eq, arith, subst, leb, length, Text, Json, obj,
  Fields, if◌then◌else◌,
}
use xserver_mail_lineworks.Shared.Exec.{Exec, Answer, value, raised, proceed, pure, ◌>>=◌}
use xserver_mail_lineworks.ScopedMigration.{Rule}
use xserver_mail_lineworks.DeliveryRecovery.{unique_objects}
use xserver_mail_lineworks.ScopeJournal.{Phase, committed, ConfigPart, Saved, encode}
use xserver_mail_lineworks.ScopeJournal.Checks.{validate, is_consistent}
use xserver_mail_lineworks.ScopeJournal.Checks.Spelling.{validate-consistent}
use xserver_mail_lineworks.ScopeJournal.Store.{
  Failure, JournalKind, target_sync, filter_scope, Ftps, parsed, given, decode_body, read_exact,
  body_of, write, planned_state, is_committed, need_planned, need_valid, in_the_way, resumed,
  write_or_resume, same_lists, same_config, config_part, prepare, prepare_v2,
}
use xserver_mail_lineworks.ScopeJournal.Store.Cell.{
  IsCell, IsFile, ReadsCell, Reads, Written, write-Written, write_file-Written, read_exact-Post,
}

-- The stored configuration is the wanted one, if one is wanted.
abbrev pub Agrees : Option ConfigPart → Option ConfigPart → Type 0
Agrees none has = Unit {0}
Agrees (some d) none = ⊥
Agrees (some d) (some c) =
    (c.desired_pinned ≡ d.desired_pinned)
    × (c.desired_targets ≡ d.desired_targets)
    × (c.config_before_sha256 ≡ d.config_before_sha256)
    × (c.config_expected_sha256 ≡ d.config_expected_sha256)

abbrev pub OfPlan : Option ConfigPart → Saved → Saved → Type 0
OfPlan config planned s =
    (s.old ≡ planned.old)
    × (s.new ≡ planned.new)
    × (s.unrelated ≡ planned.unrelated)
    × Agrees config s.config

same_lists_iff :
    {W : Type 0} (ftps : Ftps W) (s planned : Saved)
    → same_lists ftps s planned ≡ true
    → (s.old ≡ planned.old) × (s.new ≡ planned.new) × (s.unrelated ≡ planned.unrelated)
same_lists_iff ftps s planned h = ground (
  arith,
  ==_iff s.old planned.old,
  ==_iff s.new planned.new,
  ==_iff s.unrelated planned.unrelated,
)

same_config-Agrees :
    {W : Type 0} (ftps : Ftps W) (has : Option ConfigPart) (d : ConfigPart)
    → same_config ftps has d ≡ true
    → Agrees (some d) has
same_config-Agrees ftps none d h = cc
same_config-Agrees ftps (some c) d h = ground (
  arith,
  ==_iff c.desired_pinned d.desired_pinned,
  ==_iff c.desired_targets d.desired_targets,
  ==_iff c.config_before_sha256 d.config_before_sha256,
  ==_iff c.config_expected_sha256 d.config_expected_sha256,
)

committed_phase :
    {W : Type 0} (ftps : Ftps W) (p : Phase) → is_committed ftps p ≡ true → p ≡ committed
committed_phase ftps committed h = refl
committed_phase ftps _ h = cc

module _ {W : Type 0} (ftps : Ftps W) (cell : W → Option Text) where
  -- The cell holds this journal.
  abbrev pub Holds : Option Text → Saved → Type 0
  Holds c s = (body : Text) × (c ≡ some body) × (decode_body ftps body ≡ some s)

  -- There is no journal, or a committed one that the caller lets go.
  abbrev pub Free : Bool → Option Text → Type 0
  Free replace_committed c =
      (c ≡ none) ⊎ ((replace_committed ≡ true) × (s : Saved) × Holds c s × (s.phase ≡ committed))

  -- What `prepare` and `prepare_v2` do to a cell that held `c`, if they plan `plan`.
  abbrev pub Authorized :
      Option ConfigPart → Bool → Option Saved → Option Text → Answer Failure Saved × W → Type 0
  Authorized config replace_committed plan c (value s, w) =
      (is_consistent s ≡ true)
      × Holds (cell w) s
      × (planned : Saved) × (plan ≡ some planned)
      × ((OfPlan config planned s × (cell w ≡ c)) ⊎ ((s ≡ planned) × Free replace_committed c))
  Authorized config replace_committed plan c (raised e, w) =
      (cell w ≡ c)
      ⊎ ((planned : Saved) × (plan ≡ some planned)
          × (is_consistent planned ≡ true)
          × Free replace_committed c
          × (cell w ≡ some (body_of ftps planned)))

  parsed-consistent :
      (o : Option Json) {s : Saved} → parsed ftps o ≡ some s → is_consistent s ≡ true
  parsed-consistent none h = cc
  parsed-consistent (some v) h = elim (Bool-cases (unique_objects v)) [
    | inl y ↦ validate-consistent v (rw y at h)
    | inr n ↦ cc (rw n at h)
  ]

  pub decode_body-consistent :
      (body : Text) {s : Saved} → decode_body ftps body ≡ some s → is_consistent s ≡ true
  unfolding decode_body
  decode_body-consistent body h = elim (Bool-cases (leb (length body) 65536)) [
    | inl y ↦ parsed-consistent (ftps.loads body) (rw y at h)
    | inr n ↦ cc (rw n at h)
  ]

  module _ (kind : JournalKind)
      (reads : (w : W) → ReadsCell cell w (ftps.read_scope_journal kind w))
      (written : (s : Saved) (w : W)
        → Written ftps cell s (cell w) w (write ftps kind s (given (cell w)) w)) where
    module _ (config : Option ConfigPart) (replace_committed : Bool) (planned : Saved)
        (c : Option Text) where
      abbrev Q : Answer Failure Saved × W → Type 0
      Q = Authorized config replace_committed (some planned) c

      Written-Authorized :
          (w : W) (r : Answer Failure Text × W)
          → cell w ≡ c
          → Free replace_committed c
          → Written ftps cell planned c w r
          → Q (proceed r.0 (λ (b : Text). pure planned) r.1)
      unfolding pure
      Written-Authorized w (value b, w') k free (e, y, l, stored, d, x) =
          (y, (body_of ftps planned, stored, d), planned, refl, inr (refl, free))
      Written-Authorized w (raised e, w') k free (inl same) = inl (same ∙ k)
      Written-Authorized w (raised e, w') k free (inr (y, x, stored)) =
          inr (planned, refl, y, free, stored)

      fresh-Authorized :
          (w : W)
          → cell w ≡ c
          → Free replace_committed c
          → Q ((write ftps kind planned (given c) >>= λ (b : Text). pure planned) w)
      unfolding ◌>>=◌
      fresh-Authorized w k free =
          Written-Authorized w (write ftps kind planned (given c) w) k free (
            subst (λ d. Written ftps cell planned d w (write ftps kind planned (given d) w)) k
              (written planned w))

      resumed-Authorized :
          (same : Saved → Bool)
          → ((s : Saved) → same s ≡ true → OfPlan config planned s)
          → (w : W) (s : Saved) → cell w ≡ c
          → Holds c s
          → is_consistent s ≡ true
          → Q (resumed ftps same s w)
      unfolding ◌>>=◌
      resumed-Authorized same of_plan w s k h y = elim (Bool-cases (same s)) [
        | inl q ↦ rw q (y, subst (λ x. Holds x s) (sym k) h, planned, refl, inl (of_plan s q, k))
        | inr q ↦ rw q (inl k)
      ]

    module _ (config : Option ConfigPart) (replace_committed : Bool) (planned : Saved)
        (same : Saved → Bool)
        (of_plan : (s : Saved) → same s ≡ true → OfPlan config planned s) where
      abbrev Goal : Option Text → Answer Failure Saved × W → Type 0
      Goal = Authorized config replace_committed (some planned)

      stored-Authorized :
          (s : Saved) (body : Text) (w : W)
          → (cell w ≡ some body) × (decode_body ftps body ≡ some s)
          → (let_go : Bool) → (let_go ≡ true → (replace_committed ≡ true) × (s.phase ≡ committed))
          → Goal (cell w) (
              write_or_resume ftps kind planned same
                (some (s, body))
                (if let_go then none else some s)
                w)
      unfolding write_or_resume
      stored-Authorized s body w (k, d) true go =
          subst
            (λ c.
              Goal (cell w) ((write ftps kind planned (given c) >>= λ (b : Text). pure planned) w))
            k
            (fresh-Authorized config replace_committed planned (cell w) w refl
              (inr ((go refl).0, s, (body, k, d), (go refl).1)))
      stored-Authorized s body w (k, d) false go =
          resumed-Authorized config replace_committed planned (cell w) same of_plan w s refl
            (body, k, d) (decode_body-consistent body d)

      found-Authorized :
          (o : Option (Saved × Text)) (w : W)
          → Reads ftps cell (cell w) o
          → Goal
              (cell w)
              (write_or_resume ftps kind planned same o (in_the_way ftps replace_committed o) w)
      unfolding write_or_resume
      found-Authorized none w e =
          subst
            (λ c.
              Goal (cell w) ((write ftps kind planned (given c) >>= λ (b : Text). pure planned) w))
            e (fresh-Authorized config replace_committed planned (cell w) w refl (inl e))
      found-Authorized (some (s, body)) w r =
          stored-Authorized s body w r (replace_committed && is_committed ftps s.phase) (λ h.
            let (a, b) = and_split replace_committed (is_committed ftps s.phase) h in
            (a, committed_phase ftps s.phase b))

      from-Authorized :
          (w : W)
          → Goal (cell w) (
              (read_exact ftps kind >>= λ o.
              write_or_resume ftps kind planned same o (in_the_way ftps replace_committed o))
                w)
      from-Authorized w =
          read_exact-Post ftps cell (Goal (cell w)) kind reads w _ (λ e w' k. inl k)
            (λ w' o k r.
              subst
                (λ c. Goal c (
                  write_or_resume ftps kind planned same o (in_the_way ftps replace_committed o)
                    w'))
                k (found-Authorized o w' (subst (λ c. Reads ftps cell c o) (sym k) r)))

  module _ (is_file : IsFile ftps cell) where
    -- `prepare` of the first migration's journal, a file that a write always overwrites and that nobody
    -- else writes, returns a consistent journal that the file holds, and that is either the planned
    -- one, which it wrote because there was none or a committed one that the caller let go, or the
    -- stored one, unchanged, of the same old, new and unrelated filters. If it raises, then the file is
    -- as it was or has the planned journal, written under the same condition.
    pub prepare-Authorized :
        (all_rules old_rules : List Rule) (desired : List Fields) (replace_committed : Bool) (w : W)
        → Authorized none replace_committed
            (planned_state ftps all_rules old_rules desired none)
            (cell w)
            (prepare ftps filter_scope all_rules old_rules desired replace_committed w)
    unfolding prepare ◌>>=◌
    prepare-Authorized all_rules old_rules desired replace_committed w =
        go (planned_state ftps all_rules old_rules desired none)
      where
        go :
            (plan : Option Saved)
            → Authorized none replace_committed plan (cell w) (
                (need_planned ftps plan >>= λ planned. read_exact ftps filter_scope >>= λ o.
                write_or_resume ftps filter_scope planned
                  (λ s. same_lists ftps s planned)
                  o
                  (in_the_way ftps replace_committed o))
                  w)
        go none = inl refl
        go (some planned) =
            from-Authorized filter_scope is_file.reads (write_file-Written ftps cell is_file) none
              replace_committed planned (λ s. same_lists ftps s planned)
              (λ s h. let (a, b, c) = same_lists_iff ftps s planned h in (a, b, c, tt)) w

  module _ (is_cell : IsCell ftps cell) where
    -- `prepare_v2` returns a consistent journal that the cell holds, and that is either the planned
    -- one, which it wrote because there was none or a committed one that the caller let go, or the
    -- stored one, unchanged, of the same filters, addresses and configuration hashes before and after.
    -- If it raises, then the cell is as it was or has the planned journal, written under the same
    -- condition: an authorization that is in use is never overwritten.
    pub prepare_v2-Authorized :
        (all_rules old_rules : List Rule) (desired : List Fields)
        (desired_pinned desired_targets : List Text) (before : Text) (expected : Option Text)
        (replace_committed : Bool) (w : W)
        → Authorized
            (some (config_part ftps desired_pinned desired_targets before expected))
            replace_committed
            (planned_state ftps all_rules old_rules desired
              (some (config_part ftps desired_pinned desired_targets before expected)))
            (cell w)
            (prepare_v2 ftps target_sync all_rules old_rules desired desired_pinned desired_targets
              before expected replace_committed w)
    unfolding prepare_v2 ◌>>=◌
    prepare_v2-Authorized all_rules old_rules desired desired_pinned desired_targets before expected
          replace_committed w =
        go (planned_state ftps all_rules old_rules desired (some config))
      where
        config : ConfigPart
        config = config_part ftps desired_pinned desired_targets before expected

        same : Saved → Saved → Bool
        same planned s = same_lists ftps s planned && same_config ftps s.config config

        same-OfPlan : (planned s : Saved) → same planned s ≡ true → OfPlan (some config) planned s
        same-OfPlan planned s h =
            let (l, g) =
              and_split (same_lists ftps s planned) (same_config ftps s.config config) h in
            let (a, b, c) = same_lists_iff ftps s planned l in
            (a, b, c, same_config-Agrees ftps s.config config g)

        rest : Saved → Saved → Exec Failure W Saved
        rest planned _ = read_exact ftps target_sync >>= λ o.
            write_or_resume ftps target_sync planned (same planned) o
              (in_the_way ftps replace_committed o)

        checked :
            (planned : Saved) (v : Option Saved)
            → Authorized
                (some config)
                replace_committed
                (some planned)
                (cell w)
                ((need_valid ftps v >>= rest planned) w)
        checked planned none = inl refl
        checked planned (some s) =
            from-Authorized target_sync is_cell.reads
              (λ s x. write-Written ftps cell is_cell s (cell x) x) (some config) replace_committed
              planned (same planned) (same-OfPlan planned) w

        go :
            (plan : Option Saved)
            → Authorized (some config) replace_committed plan (cell w) (
                (need_planned ftps plan >>= λ planned.
                need_valid ftps (validate (obj (encode planned))) >>= rest planned)
                  w)
        go none = inl refl
        go (some planned) = checked planned (validate (obj (encode planned)))
