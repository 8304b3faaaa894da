-- ===== src/ConfigRecovery/Examples.antt =====
-- Runs of the recovery of macos/install_app.py on one transaction, and the theorems at them.
use xserver_mail_lineworks.Shared.{
  ◌≡◌, refl, ◌≢◌, true, false, none, some, List, [], ◌∷◌, Text, codes, any, is_hex, nat_eq, list_eq,
  ne_of_test, subst, is_sha256, list_beq, option_beq, bool_beq,
}
use xserver_mail_lineworks.ConfigRecovery.Plans.{
  app_absent, app_old, app_new, state_b, state_c, publish_temp, drop_backup, new_version,
  classify_config_state,
}
use xserver_mail_lineworks.ConfigRecovery.Directory.{
  file-injective, Slot, missing, file, returned, refused, execute_recovery_action, mutate,
}
use xserver_mail_lineworks.ConfigRecovery.Recover.{
  Marker, marker_file, no_marker, World, is_valid_marker, is_backup_name, is_artifact,
  meets_expected, recover_config_marker, recover_files, recover_marked, converge, round, perform,
  decide, roles, role, decide_roles,
}
use xserver_mail_lineworks.ConfigRecovery.Transaction.{
  published, write_config_until, drop_backup_file, drop_config, Transaction, commit, rollback,
  marker_of,
}
use xserver_mail_lineworks.ConfigRecovery.Settle.{clean, IsInstall}
use xserver_mail_lineworks.ConfigRecovery.CrashRoles.{rounds}
use xserver_mail_lineworks.ConfigRecovery.Crash.{recover_after_crash}
use xserver_mail_lineworks.ConfigRecovery.Ends.{
  files_at, only_config, run_plan, plan_result, action_repeats, IsSettled, recover_returned,
}
use xserver_mail_lineworks.ConfigRecovery.Windows.{
  transaction_ends, transaction_once, recover_after_commit, rollback_window, same_content_refused,
}

abbrev txn : Text
txn = codes "0123456789abcdef0123456789abcdef"

abbrev backup : Text
backup = codes ".backup-00112233445566778899aabbccddeeff"

abbrev old_hash : Text
old_hash = codes "00112233445566778899aabbccddeeff00112233445566778899aabbccddeeff"

abbrev new_hash : Text
new_hash = codes "ffeeddccbbaa99887766554433221100ffeeddccbbaa99887766554433221100"

abbrev others : List Text
others = codes "notes.txt" ∷ []

abbrev marker : Marker
marker = marker_of txn new_hash (some backup) (some old_hash)

old-ne-new : old_hash ≢ new_hash
unfolding list_beq
old-ne-new = ne_of_test old_hash new_hash refl

installs : IsInstall backup new_hash (file old_hash) others
unfolding is_hex is_backup_name is_artifact any
installs = record {
  new_hash = refl;
  old_hash = λ h e. subst (λ t. is_sha256 t ≡ true) (file-injective e) refl;
  backup_name = refl;
  differs = λ e. old-ne-new (file-injective e);
  no_artifacts = refl;
}

abbrev world_at : Slot → Slot → World
world_at config backup_slot = record {
  marker = marker_file marker;
  files = record { config = config; backup = backup_slot; temp = missing; trash = missing };
  others = others;
}

recover_after_crash_example :
    recover_config_marker txn app_old none (
      some (record (world_at (file new_hash) (file old_hash)) {
        files = rounds 1 marker app_old (world_at (file new_hash) (file old_hash)).files;
      }))
    ≡ (returned, some (clean (file old_hash) others))
unfolding write_config_until meets_expected
recover_after_crash_example =
    recover_after_crash published 1 app_old txn backup new_hash (file old_hash) others none installs
      (λ e. cc) refl refl

abbrev open_transaction : Transaction
open_transaction = record { backup = some backup; finished = false }

abbrev finished_transaction : Transaction
finished_transaction = record { backup = some backup; finished = true }

transaction_ends_example :
    (rollback open_transaction (world_at (file new_hash) (file old_hash))
      ≡ (returned, finished_transaction, clean (file old_hash) others))
    × (commit open_transaction (world_at (file new_hash) (file old_hash))
        ≡ (returned, finished_transaction, clean (file new_hash) others))
unfolding write_config_until
transaction_ends_example = transaction_ends txn backup new_hash (file old_hash) others refl

abbrev both_files : World
both_files = world_at (file new_hash) (file old_hash)

abbrev rolled_back : Transaction
rolled_back = (rollback open_transaction both_files).1

abbrev was_committed : Transaction
was_committed = (commit open_transaction both_files).1

transaction_once_example :
    (commit rolled_back both_files ≡ (refused, rolled_back, both_files))
    × (rollback was_committed both_files ≡ (refused, was_committed, both_files))
    × (commit was_committed both_files ≡ (refused, was_committed, both_files))
    × (rollback rolled_back both_files ≡ (refused, rolled_back, both_files))
transaction_once_example = transaction_once open_transaction both_files both_files

recover_after_commit_example :
    recover_config_marker txn app_new none
      (some (drop_backup_file (some backup) (world_at (file new_hash) (file old_hash))))
    ≡ (returned, some (clean (file new_hash) others))
unfolding write_config_until meets_expected
recover_after_commit_example =
    recover_after_commit txn backup new_hash (file old_hash) others none installs refl refl

rollback_window_example :
    recover_config_marker txn app_old none
      (some (drop_config (world_at (file new_hash) (file old_hash))))
    ≡ (refused, some (drop_config (world_at (file new_hash) (file old_hash))))
unfolding write_config_until
rollback_window_example =
    rollback_window txn backup new_hash old_hash others app_old none old-ne-new refl

same_content_refused_example :
    recover_config_marker txn app_old none (
      some (record {
        marker = marker_file (marker_of txn new_hash (some backup) (some new_hash));
        files = record {
          config = file new_hash;
          backup = file new_hash;
          temp = missing;
          trash = missing;
        };
        others = others;
      }))
    ≡ (
      refused,
      some (record {
        marker = marker_file (marker_of txn new_hash (some backup) (some new_hash));
        files = record {
          config = file new_hash;
          backup = file new_hash;
          temp = missing;
          trash = missing;
        };
        others = others;
      }),
    )
unfolding write_config_until
same_content_refused_example =
    same_content_refused published txn backup new_hash others app_old none refl

plan_result_example :
    (run_plan true (publish_temp ∷ drop_backup ∷ []) (files_at old_hash new_hash state_b)
      ≡ (returned, only_config (file new_hash)))
    × (app_new ≡ app_new)
unfolding classify_config_state
plan_result_example =
    plan_result true old_hash new_hash state_b app_new
      (record {
        actions = publish_temp ∷ drop_backup ∷ [];
        config_result = some new_version;
        app_result = app_new;
      })
      refl

action_repeats_example :
    execute_recovery_action publish_temp false (files_at old_hash new_hash state_c)
    ≡ (returned, files_at old_hash new_hash state_c)
unfolding execute_recovery_action
action_repeats_example =
    action_repeats publish_temp (files_at old_hash new_hash state_b)
      (files_at old_hash new_hash state_c) refl

recover_returned_example :
    (no_marker ≡ no_marker)
    × (others ≡ others)
    × IsSettled marker (clean (file old_hash) others).files
recover_returned_example =
    recover_returned txn app_old none marker
      (record (world_at (file new_hash) (file old_hash)) {
        files = rounds 1 marker app_old (world_at (file new_hash) (file old_hash)).files;
      })
      (clean (file old_hash) others) refl recover_after_crash_example

-- The recovery itself, run on the files of a crash between the two renames.
recover_run :
    recover_config_marker txn app_absent (some marker) (
      some (record {
        marker = marker_file marker;
        files = files_at old_hash new_hash state_b;
        others = others;
      }))
    ≡ (returned, some (clean (file old_hash) others))
unfolding recover_config_marker recover_files recover_marked is_valid_marker is_backup_name
    is_artifact meets_expected any converge round perform decide roles role decide_roles list_beq
    option_beq bool_beq mutate
recover_run = refl
