-- ===== src/ConfigRecovery/Transaction.antt =====
-- `write_config_atomic` and `ConfigTransaction` of macos/install_app.py, for a transaction with an
-- id. Each point at which the process can stop is a value of `Point`.
use xserver_mail_lineworks.Shared.{
  Bool, true, false, not, Option, none, some, ◌++◌, bool_eq, Text, codes, if◌then◌else◌,
}
use xserver_mail_lineworks.ConfigRecovery.Directory.{
  Slot, missing, unsafe, file, is_present, Outcome, returned, refused,
}
use xserver_mail_lineworks.ConfigRecovery.Recover.{
  Marker, MarkerFile, no_marker, marker_file, World,
}

abbrev pub marker_of : Text → Text → Option Text → Option Text → Marker
marker_of txn new_sha256 backup old_sha256 = record {
  schema = 1;
  txn_id = txn;
  phase = codes "TXN_PREPARED";
  temp = codes ".config-" ++ txn;
  backup = backup;
  trash = codes ".trash-" ++ txn;
  old_config = elim backup [ none ↦ false | some _ ↦ true ];
  old_sha256 = old_sha256;
  new_sha256 = new_sha256;
}

-- `backup` is the fresh name that is drawn if there is a configuration; `none` is the error at an
-- unsafe one.
unfoldable pub prepared_marker : Text → Text → Text → Slot → Option Marker
prepared_marker txn backup new_sha256 missing = some (marker_of txn new_sha256 none none)
prepared_marker txn backup new_sha256 unsafe = none
prepared_marker txn backup new_sha256 (file h) =
    some (marker_of txn new_sha256 (some backup) (some h))

pub record Transaction : Type 0 where
  pub backup : Option Text
  pub finished : Bool

unfoldable pub staged : World → Text → Marker → World
staged w new_sha256 m = record w {
  marker = marker_file m;
  files = record (w.files) { temp = file new_sha256 };
}

-- `config.json` becomes the backup, if there is one to make.
unfoldable pub move_old : Option Text → World → World
move_old none w = w
move_old (some _) w = record w {
  files = record (w.files) { config = missing; backup = w.files.config };
}

unfoldable pub move_new : World → World
move_new w = record w { files = record (w.files) { config = w.files.temp; temp = missing } }

-- How far the process came before it stopped.
pub data Point : Type 0 where
  prepared backed_up published : Point

unfoldable pub advance : Point → Option Text → World → World
unfolding move_old move_new
advance prepared backup w = w
advance backed_up backup w = move_old backup w
advance published backup w = move_new (move_old backup w)

abbrev no_marker_file : MarkerFile → Bool
no_marker_file no_marker = true
no_marker_file _ = false

-- The world at a point of `write_config_atomic`; `none` is an error before the marker is written.
-- The temporary file and the marker are created exclusively.
unfoldable pub write_config_until : Point → Text → Text → Text → World → Option (Marker × World)
unfolding prepared_marker staged advance is_present
write_config_until p txn backup new_sha256 w =
    if is_present w.files.temp
    then none
    else elim (prepared_marker txn backup new_sha256 w.files.config) [
      | none ↦ none
      | some m ↦
          if no_marker_file w.marker
          then some (m, advance p m.backup (staged w new_sha256 m))
          else none
    ]

-- `commit`, and the world between its two unlinks.
unfoldable pub drop_backup_file : Option Text → World → World
drop_backup_file none w = w
drop_backup_file (some _) w = record w { files = record (w.files) { backup = missing } }

-- The unlink of the backup, or its rename, fails if it is not there.
abbrev no_backup : Option Text → World → Bool
no_backup none w = false
no_backup (some _) w = not (is_present w.files.backup)

abbrev unlink_marker : Transaction → World → Outcome × Transaction × World
unlink_marker t w =
    if no_marker_file w.marker
    then (refused, t, w)
    else (returned, t, record w { marker = no_marker })

-- `_finished` is set first, so that a call that raises ends the transaction too.
unfoldable pub commit : Transaction → World → Outcome × Transaction × World
unfolding drop_backup_file is_present
commit t w =
    let ended = record t { finished = true } in
    if t.finished
    then (refused, t, w)
    else if no_backup t.backup w
    then (refused, ended, w)
    else unlink_marker ended (drop_backup_file t.backup w)

-- `rollback`: the published file goes, then the backup comes back, then the marker goes.
unfoldable pub drop_config : World → World
drop_config w = record w { files = record (w.files) { config = missing } }

unfoldable pub restore_old : Option Text → World → World
restore_old none w = w
restore_old (some _) w = record w {
  files = record (w.files) { config = w.files.backup; backup = missing };
}

unfoldable pub rollback : Transaction → World → Outcome × Transaction × World
unfolding drop_config restore_old is_present
rollback t w =
    let ended = record t { finished = true } in
    if t.finished
    then (refused, t, w)
    else if no_backup t.backup w
    then (refused, ended, drop_config w)
    else unlink_marker ended (restore_old t.backup (drop_config w))
