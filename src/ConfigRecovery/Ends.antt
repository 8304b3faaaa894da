-- ===== src/ConfigRecovery/Ends.antt =====
-- What the recovery plans of macos/install_transaction.py do step by step, and what is true of every
-- directory that the recovery of macos/install_app.py accepts.
use xserver_mail_lineworks.Shared.{
  ℕ, zero, suc, ◌≡◌, refl, ◌⊎◌, inl, inr, Bool, true, false, Option, none, some, List, [], ◌∷◌,
  Text, arith, ==_iff, nat_eq, list_eq, option_eq, bool_eq, Bool-cases, Option-cases, ◌==◌, ap, sym,
  subst, ◌∙◌,
}
use xserver_mail_lineworks.ConfigRecovery.Plans.{
  ConfigState, state_a, state_b, state_c, state_d, state_e, unknown_config, AppState, Action,
  Version, old_version, new_version, RecoveryPlan, classify_config_state, recovery_actions,
}
use xserver_mail_lineworks.ConfigRecovery.Directory.{
  Slot, missing, unsafe, file, Directory, Outcome, returned, refused, fault,
  execute_recovery_action,
}
use xserver_mail_lineworks.ConfigRecovery.Recover.{
  Marker, is_some, marker_file, no_marker, malformed, World, Role, absent, Roles, role, roles,
  finish, decide, decide_roles, intermediate, cell_of, plan_action, first_action, Round,
  is_valid_marker, round, perform, moved, ended, converge, recover_marked, recover_files,
  recover_config_marker,
}

-- The files in each of the five states of the table, `h` and `k` being the old and the new hash.
abbrev pub files_at : Text → Text → ConfigState → Directory
files_at h k state_a = record { config = file h; backup = missing; temp = file k; trash = missing }
files_at h k state_b = record { config = missing; backup = file h; temp = file k; trash = missing }
files_at h k state_c = record { config = file k; backup = file h; temp = missing; trash = missing }
files_at h k state_d = record { config = missing; backup = missing; temp = file k; trash = missing }
files_at h k state_e = record { config = file k; backup = missing; temp = missing; trash = missing }
files_at h k unknown_config = record {
  config = missing;
  backup = missing;
  temp = missing;
  trash = missing;
}

abbrev pub only_config : Slot → Directory
only_config c = record { config = c; backup = missing; temp = missing; trash = missing }

abbrev pub version_file : Text → Text → Option Version → Slot
version_file h k none = missing
version_file h k (some old_version) = file h
version_file h k (some new_version) = file k

abbrev run_next : (Directory → Outcome × Directory) → Outcome × Directory → Outcome × Directory
run_next rest (returned, s) = rest s
run_next rest (o, s) = (o, s)

-- The actions of a plan one after the other. With `crash`, each is first broken off by a fault after
-- its mutation, and then called again.
abbrev pub perform_once : Bool → Action → Directory → Outcome × Directory
perform_once true x s = execute_recovery_action x false (execute_recovery_action x true s).1
perform_once false x s = execute_recovery_action x false s

pub run_plan : Bool → List Action → Directory → Outcome × Directory
run_plan crash [] s = (returned, s)
run_plan crash (x ∷ xs) s = run_next (run_plan crash xs) (perform_once crash x s)

-- Every plan of the table, run from the files of its state, returns with the configuration that it
-- promises and no other file, also if each action is broken off after its mutation and repeated. The
-- application's state in its result is the one that it was chosen for.
pub plan_result :
    (crash : Bool) (h k : Text) (state : ConfigState) (app : AppState) (p : RecoveryPlan)
    → classify_config_state state app ≡ some p
    → (run_plan crash p.actions (files_at h k state)
        ≡ (returned, only_config (version_file h k p.config_result)))
      × (p.app_result ≡ app)
unfolding classify_config_state run_plan execute_recovery_action
plan_result crash h k state app p e = ground arith

-- An action that a fault breaks off after its mutation can be called again: it returns, and the
-- directory stays as the mutation left it.
pub action_repeats :
    (x : Action) (s t : Directory)
    → execute_recovery_action x true s ≡ (fault, t)
    → execute_recovery_action x false t ≡ (returned, t)
unfolding execute_recovery_action
action_repeats x s t e = ground arith

-- A refused action has changed nothing.
pub action_refused :
    (x : Action) (crash : Bool) (s t : Directory)
    → execute_recovery_action x crash s ≡ (refused, t)
    → t ≡ s
unfolding execute_recovery_action
action_refused x crash s t e = ground arith

-- At the end of the loop only the configuration is left, under the names that the marker has.
pub record IsSettled (m : Marker) (s : Directory) : Type 0 where
  pub no_temp : s.temp ≡ missing
  pub no_trash : s.trash ≡ missing
  pub no_backup : is_some m.backup ≡ true → s.backup ≡ missing
  pub known :
      (s.config ≡ missing)
      ⊎ ((s.config ≡ file m.new_sha256)
          ⊎ ((h : Text) × (s.config ≡ file h) × (m.old_sha256 ≡ some h)))

decide_roles-finish :
    (o : Bool) (app : AppState) (r : Roles)
    → decide_roles o app r ≡ finish
    → (r.backup ≡ absent) × (r.temp ≡ absent) × (r.trash ≡ absent)
unfolding decide_roles intermediate cell_of plan_action first_action recovery_actions
decide_roles-finish o app r e = ground arith

role-absent : (m : Marker) (x : Slot) → role m x ≡ some absent → x ≡ missing
unfolding role
role-absent m x e = ground arith

role-known :
    (m : Marker) (x : Slot) {r : Role}
    → role m x ≡ some r
    → (x ≡ missing)
      ⊎ ((x ≡ file m.new_sha256) ⊎ ((h : Text) × (x ≡ file h) × (m.old_sha256 ≡ some h)))
unfolding role
role-known m missing e = inl refl
role-known m unsafe e = cc
role-known m (file h) e = elim (Bool-cases (h == m.new_sha256)) [
  | inl y ↦ inr (inl (ap file ((==_iff h m.new_sha256).0 y)))
  | inr n ↦ inr (inr (h, refl, sym ((==_iff (some h) m.old_sha256).0 (ground arith))))
]

roles-parts :
    (m : Marker) (s : Directory) (r : Roles)
    → roles m s ≡ some r
    → (role m s.config ≡ some r.config)
      × (role m s.temp ≡ some r.temp)
      × (role m s.trash ≡ some r.trash)
      × (is_some m.backup ≡ true → role m s.backup ≡ some r.backup)
unfolding roles
roles-parts m s r e = ground arith

finish-IsSettled :
    (m : Marker) (app : AppState) (s : Directory) → decide m app s ≡ finish → IsSettled m s
unfolding decide
finish-IsSettled m app s e = elim (Option-cases (roles m s)) [
  | inl n ↦ absurd (ground arith)
  | inr (r, q) ↦
      let d : decide_roles m.old_config app r ≡ finish = ground arith in
      let (b, t, x) = decide_roles-finish m.old_config app r d in
      let (pc, pt, px, pb) = roles-parts m s r q in
      record {
        no_temp = role-absent m s.temp (pt ∙ ap some t);
        no_trash = role-absent m s.trash (px ∙ ap some x);
        no_backup = λ n. role-absent m s.backup (pb n ∙ ap some b);
        known = role-known m s.config pc;
      }
]

Round-cases : (r : Round) → ((t : Directory) × (r ≡ moved t)) ⊎ ((o : Outcome) × (r ≡ ended o))
Round-cases (moved t) = inl (t, refl)
Round-cases (ended o) = inr (o, refl)

decide_of_returned :
    (m : Marker) (app : AppState) (s : Directory)
    → round m app s ≡ ended returned
    → decide m app s ≡ finish
unfolding round perform
decide_of_returned m app s e = ground arith

converge-IsSettled :
    (n : ℕ) (m : Marker) (app : AppState) (s t : Directory)
    → converge n m app s ≡ (returned, t)
    → IsSettled m t
unfolding converge
converge-IsSettled zero m app s t e = cc
converge-IsSettled (suc n) m app s t e = elim (Round-cases (round m app s)) [
  | inl (u, q) ↦ converge-IsSettled n m app u t (rw (q, converge) at e)
  | inr (o, q) ↦
      let e' : ◌≡◌ {A = Outcome × Directory} (o, s) (returned, t) = rw (q, converge) at e in
      subst (IsSettled m) (ap (λ (p : Outcome × Directory). p.1) e') (
        finish-IsSettled m app s
          (decide_of_returned m app s (q ∙ ap (λ (p : Outcome × Directory). ended p.0) e')))
]

-- Whatever directory it is given, with whatever marker: if the recovery returns from a directory
-- with a marker, then the marker is gone, the temporary, trash and named backup files are gone, the
-- configuration is absent or has one of the marker's two hashes, and no other file is touched.
pub recover_returned :
    (txn : Text) (app : AppState) (expected : Option Marker) (m : Marker) (w w' : World)
    → w.marker ≡ marker_file m
    → recover_config_marker txn app expected (some w) ≡ (returned, some w')
    → (w'.marker ≡ no_marker) × (w'.others ≡ w.others) × IsSettled m w'.files
unfolding recover_config_marker recover_files recover_marked
recover_returned txn app expected m w w' q e =
    ground (arith, converge-IsSettled 8 m app w.files w'.files)

-- A directory whose marker is malformed, or fails a check, is refused and left as it was.
pub recover_invalid :
    (txn : Text) (app : AppState) (expected : Option Marker) (w : World)
    → (w.marker ≡ malformed)
      ⊎ ((m : Marker) × (w.marker ≡ marker_file m) × (is_valid_marker txn m ≡ false))
    → recover_config_marker txn app expected (some w) ≡ (refused, some w)
unfolding recover_config_marker recover_files recover_marked
recover_invalid txn app expected w h = ground arith
