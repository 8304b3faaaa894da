-- ===== src/ConfigRecovery/Settle.antt =====
-- The worlds before and after a transaction on config.json, and what the marker check of
-- `_recover_config_marker` (macos/install_app.py) passes.
use xserver_mail_lineworks.Shared.{
  ◌≡◌, ◌≢◌, true, false, Option, none, some, List, Text, arith, ◌++◌, codes, ==_refl, nat_eq,
  list_eq, option_eq, bool_eq, any, is_sha256, bool_beq,
}
use xserver_mail_lineworks.ConfigRecovery.Plans.{AppState, app_new}
use xserver_mail_lineworks.ConfigRecovery.Directory.{Slot, missing, file, Directory, returned}
use xserver_mail_lineworks.ConfigRecovery.Recover.{
  Marker, is_some, option_all, marker_file, no_marker, World, is_valid_marker, is_backup_name,
  meets_expected, is_artifact, converge, recover_marked, recover_files, recover_config_marker,
}
use xserver_mail_lineworks.ConfigRecovery.Transaction.{marker_of}

-- An application directory that no transaction has touched.
abbrev pub clean : Slot → List Text → World
clean c others = record {
  marker = no_marker;
  files = record { config = c; backup = missing; temp = missing; trash = missing };
  others = others;
}

-- The new configuration if the new application is in place, and what was there if it is not.
abbrev pub settled_config : AppState → Text → Slot → Slot
settled_config app_new new_sha256 c = file new_sha256
settled_config _ new_sha256 c = c

pub is_valid-marker_of :
    (txn k : Text) (backup old_sha256 : Option Text)
    → is_sha256 k ≡ true
    → option_all is_backup_name backup ≡ true
    → option_all is_sha256 old_sha256 ≡ true
    → is_some backup ≡ is_some old_sha256
    → is_valid_marker txn (marker_of txn k backup old_sha256) ≡ true
unfolding is_valid_marker bool_beq
is_valid-marker_of txn k none none a b c d = ground (
  arith,
  ==_refl txn,
  ==_refl (codes "TXN_PREPARED"),
  ==_refl (codes ".config-" ++ txn),
  ==_refl (codes ".trash-" ++ txn),
)
is_valid-marker_of txn k none (some h) a b c d = cc
is_valid-marker_of txn k (some n) none a b c d = cc
is_valid-marker_of txn k (some n) (some h) a b c d = ground (
  arith,
  ==_refl txn,
  ==_refl (codes "TXN_PREPARED"),
  ==_refl (codes ".config-" ++ txn),
  ==_refl (codes ".trash-" ++ txn),
)

pub recover_of_valid :
    (txn : Text) (app : AppState) (expected : Option Marker) (m : Marker) (s t : Directory)
    (others : List Text)
    → is_valid_marker txn m ≡ true
    → meets_expected expected m ≡ true
    → any is_artifact others ≡ false
    → converge 8 m app s ≡ (returned, t)
    → recover_config_marker txn app expected
        (some (record { marker = marker_file m; files = s; others = others }))
      ≡ (returned, some (record { marker = no_marker; files = t; others = others }))
unfolding recover_config_marker recover_files recover_marked
recover_of_valid txn app expected m s t others v x a c = rw (v, x, a, c)

-- A new configuration whose hash differs from the hash of the one in place, under well-formed names.
pub record IsInstall (backup new_sha256 : Text) (c : Slot) (others : List Text) : Type 0 where
  pub new_hash : is_sha256 new_sha256 ≡ true
  pub old_hash : (h : Text) → c ≡ file h → is_sha256 h ≡ true
  pub backup_name : is_backup_name backup ≡ true
  pub differs : c ≢ file new_sha256
  pub no_artifacts : any is_artifact others ≡ false

abbrev pub settled : AppState → Text → Slot → Directory
settled app k c = record {
  config = settled_config app k c;
  backup = missing;
  temp = missing;
  trash = missing;
}
