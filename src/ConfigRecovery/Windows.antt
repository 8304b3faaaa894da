-- ===== src/ConfigRecovery/Windows.antt =====
-- `commit` and `rollback` of `ConfigTransaction` (macos/install_app.py), finished or broken off
-- between two of their steps.
use xserver_mail_lineworks.Shared.{
  ◌≡◌, refl, ◌≢◌, true, false, Option, none, some, List, Text, arith, ==_refl, ==_iff, nat_eq,
  list_eq, option_eq, subst,
}
use mathlib.Core.Option.{some-injective}
use xserver_mail_lineworks.ConfigRecovery.Plans.{AppState, app_new, recovery_actions}
use xserver_mail_lineworks.ConfigRecovery.Directory.{Slot, missing, unsafe, file, returned, refused}
use xserver_mail_lineworks.ConfigRecovery.Recover.{
  Marker, is_some, marker_file, World, old, new, meets_expected, converge, round, perform, decide,
  decide_roles, roles, role, reject, intermediate, cell_of, plan_action, first_action,
  recover_marked, recover_files, recover_config_marker,
}
use xserver_mail_lineworks.ConfigRecovery.Transaction.{
  Point, prepared, backed_up, published, marker_of, prepared_marker, staged, advance, move_old,
  move_new, write_config_until, Transaction, drop_backup_file, commit, drop_config, restore_old,
  rollback,
}
use xserver_mail_lineworks.ConfigRecovery.Roles.{place}
use xserver_mail_lineworks.ConfigRecovery.CrashRoles.{crash_roles}
use xserver_mail_lineworks.ConfigRecovery.Crash.{staged-clean_old}
use xserver_mail_lineworks.ConfigRecovery.Settle.{
  clean, settled, IsInstall, is_valid-marker_of, recover_of_valid,
}

abbrev open_transaction : Option Text → Transaction
open_transaction backup = record { backup = backup; finished = false }

-- A transaction published in a directory without another one is rolled back without an error, which leaves the directory as it was before it, or
-- committed without an error, which leaves the new configuration alone. Both finish it.
pub transaction_ends :
    (txn backup k : Text) (c : Slot) (others : List Text) {m : Marker} {w : World}
    → write_config_until published txn backup k (clean c others) ≡ some (m, w)
    → (rollback (open_transaction m.backup) w
        ≡ (returned, record (open_transaction m.backup) { finished = true }, clean c others))
      × (commit (open_transaction m.backup) w ≡ (
        returned,
        record (open_transaction m.backup) { finished = true },
        clean (file k) others,
      ))
unfolding write_config_until prepared_marker staged advance rollback commit drop_config restore_old
    drop_backup_file
transaction_ends txn backup k c others e = ground arith

-- After a `commit` or a `rollback` of a transaction, however it ended, every further `commit` or
-- `rollback` of it is refused and changes nothing.
pub transaction_once :
    (t : Transaction) (w v : World)
    → (commit (rollback t w).1 v ≡ (refused, (rollback t w).1, v))
      × (rollback (commit t w).1 v ≡ (refused, (commit t w).1, v))
      × (commit (commit t w).1 v ≡ (refused, (commit t w).1, v))
      × (rollback (rollback t w).1 v ≡ (refused, (rollback t w).1, v))
unfolding rollback commit
transaction_once t w v = ground arith

recover_reject :
    (txn : Text) (app : AppState) (expected : Option Marker) (m : Marker) (w : World)
    → w.marker ≡ marker_file m
    → decide m app w.files ≡ reject
    → recover_config_marker txn app expected (some w) ≡ (refused, some w)
unfolding recover_config_marker recover_files recover_marked converge round perform
recover_reject txn app expected m w q d = ground arith

-- The decision on known roles, `k` being the new hash.
role-new : (m : Marker) → role m (file m.new_sha256) ≡ some new
unfolding role
role-new m = rw (==_refl m.new_sha256)

committed-converge :
    (m : Marker) (app : AppState)
    → m.old_config ≡ true
    → converge 8 m app (settled app_new m.new_sha256 missing)
      ≡ (returned, settled app_new m.new_sha256 missing)
unfolding converge round perform decide decide_roles intermediate cell_of plan_action roles
committed-converge m app o = ground (arith, role-new m)

committed-converge-none :
    (m : Marker)
    → m.old_config ≡ false
    → m.backup ≡ none
    → converge 8 m app_new (settled app_new m.new_sha256 missing)
      ≡ (returned, settled app_new m.new_sha256 missing)
unfolding converge round perform decide decide_roles intermediate cell_of plan_action roles
    recovery_actions first_action
committed-converge-none m o b = ground (arith, role-new m)

-- After a rollback has removed the new configuration and before it brings the old one back.
rolled_back-reject :
    (m : Marker) (app : AppState) (h : Text)
    → m.old_config ≡ true
    → is_some m.backup ≡ true
    → role m (file h) ≡ some old
    → decide m app (record { config = missing; backup = file h; temp = missing; trash = missing })
      ≡ reject
unfolding decide decide_roles intermediate cell_of plan_action roles
rolled_back-reject m app h o b r = ground arith

same-reject :
    (p : Point) (m : Marker) (app : AppState)
    → m.old_config ≡ true
    → is_some m.backup ≡ true
    → decide m app (place m.new_sha256 m.new_sha256 (crash_roles true p)) ≡ reject
unfolding decide decide_roles intermediate cell_of plan_action roles
same-reject prepared m app o b = ground (arith, role-new m)
same-reject backed_up m app o b = ground (arith, role-new m)
same-reject published m app o b = ground (arith, role-new m)

abbrev old_marker : Text → Text → Text → Text → Marker
old_marker txn backup k h = marker_of txn k (some backup) (some h)

abbrev written : Point → Text → Text → Text → Text → List Text → World
written p txn backup k h others =
    advance p (some backup) (staged (clean (file h) others) k (old_marker txn backup k h))

role-old :
    (m : Marker) (h : Text) → h ≢ m.new_sha256 → m.old_sha256 ≡ some h → role m (file h) ≡ some old
unfolding role
role-old m h d e = ground (arith, ==_iff h m.new_sha256, ==_iff (some h) m.old_sha256)

-- A commit that stops between its two unlinks leaves the new configuration and the marker. With the
-- new application in place the recovery then removes the marker and changes nothing else. The backup's
-- name and the hashes have their form, the new configuration differs from the old one, no other
-- transaction's files lie there, and a marker that the journal expects is this one.
pub recover_after_commit :
    (txn backup k : Text) (c : Slot) (others : List Text) (expected : Option Marker) {m : Marker}
    {w : World}
    → IsInstall backup k c others
    → write_config_until published txn backup k (clean c others) ≡ some (m, w)
    → meets_expected expected m ≡ true
    → recover_config_marker txn app_new expected (some (drop_backup_file m.backup w))
      ≡ (returned, some (clean (file k) others))
unfolding write_config_until prepared_marker drop_backup_file advance move_old move_new staged
recover_after_commit txn backup k missing others expected v e =
    subst
      (λ (q : Marker × World).
        meets_expected expected q.0 ≡ true
        → recover_config_marker txn app_new expected (some (drop_backup_file q.0.backup q.1))
          ≡ (returned, some (clean (file k) others)))
      (some-injective _ _ e)
      (λ x.
        recover_of_valid txn app_new expected (marker_of txn k none none) _ _ others
          (is_valid-marker_of txn k none none v.new_hash refl refl refl) x v.no_artifacts
          (committed-converge-none (marker_of txn k none none) refl refl))
recover_after_commit txn backup k unsafe others expected v e = cc
recover_after_commit txn backup k (file h) others expected v e =
    subst
      (λ (q : Marker × World).
        meets_expected expected q.0 ≡ true
        → recover_config_marker txn app_new expected (some (drop_backup_file q.0.backup q.1))
          ≡ (returned, some (clean (file k) others)))
      (some-injective _ _ e)
      (λ x.
        recover_of_valid txn app_new expected (old_marker txn backup k h) _ _ others
          (is_valid-marker_of txn k (some backup) (some h) v.new_hash v.backup_name
            (v.old_hash h refl) refl)
          x v.no_artifacts (committed-converge (old_marker txn backup k h) app_new refl))

-- When a new configuration has replaced a different one, a rollback that stops after it has removed
-- the new one, and before it brings the old one back, leaves a directory that every later recovery refuses, whatever the application's state: the
-- old configuration stays under its backup name and the marker stays.
pub rollback_window :
    (txn backup k h : Text) (others : List Text) (app : AppState) (expected : Option Marker)
    {m : Marker} {w : World}
    → h ≢ k
    → write_config_until published txn backup k (clean (file h) others) ≡ some (m, w)
    → recover_config_marker txn app expected (some (drop_config w))
      ≡ (refused, some (drop_config w))
unfolding write_config_until prepared_marker drop_config advance move_old move_new staged
rollback_window txn backup k h others app expected d e =
    subst
      (λ (q : Marker × World).
        recover_config_marker txn app expected (some (drop_config q.1))
        ≡ (refused, some (drop_config q.1)))
      (some-injective _ _ e)
      (recover_reject txn app expected (old_marker txn backup k h)
        (drop_config (written published txn backup k h others)) refl
        (rolled_back-reject (old_marker txn backup k h) app h refl refl
          (role-old (old_marker txn backup k h) h d refl)))

-- If the new configuration has the bytes of the old one, a write that stops at any point after its
-- marker leaves a directory that every later recovery refuses and leaves as it is.
pub same_content_refused :
    (p : Point) (txn backup k : Text) (others : List Text) (app : AppState)
    (expected : Option Marker) {m : Marker} {w : World}
    → write_config_until p txn backup k (clean (file k) others) ≡ some (m, w)
    → recover_config_marker txn app expected (some w) ≡ (refused, some w)
unfolding write_config_until prepared_marker
same_content_refused p txn backup k others app expected e =
    subst
      (λ (q : Marker × World).
        recover_config_marker txn app expected (some q.1) ≡ (refused, some q.1))
      (some-injective _ _ e)
      (rw (staged-clean_old p (old_marker txn backup k k) backup k k others) (
        recover_reject txn app expected (old_marker txn backup k k) _ refl
          (same-reject p (old_marker txn backup k k) app refl refl)))
