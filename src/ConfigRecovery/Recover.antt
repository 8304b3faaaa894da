-- ===== src/ConfigRecovery/Recover.antt =====
-- `_recover_config_marker` of macos/install_app.py: the marker that a transaction leaves is
-- checked, and the directory is brought to one of two ends by at most eight rounds.
use xserver_mail_lineworks.Shared.{
  ℕ, zero, suc, Bool, true, false, not, ◌&&◌, ◌||◌, Option, none, some, List, [], ◌∷◌, ◌++◌, ◌==◌,
  nat_eq, bool_eq, list_eq, option_eq, Text, codes, if◌then◌else◌, any, starts_with, is_hex,
  is_sha256,
}
use xserver_mail_lineworks.ConfigRecovery.Plans.{
  ConfigState, AppState, state_a, state_b, state_c, state_d, state_e, Action, restore_backup,
  drop_trash, recovery_actions,
}
use xserver_mail_lineworks.ConfigRecovery.Directory.{
  Slot, missing, unsafe, file, Directory, is_present, Outcome, returned, refused, mutate,
}

-- The JSON object in `.transaction-<txn>.json`. The schema is the number that it equals in Python,
-- which `true` and `1.0` do, too; the source only compares it.
pub record Marker : Type 0 where
  pub schema : ℕ
  pub txn_id : Text
  pub phase : Text
  pub temp : Text
  pub backup : Option Text
  pub trash : Text
  pub old_config : Bool
  pub old_sha256 : Option Text
  pub new_sha256 : Text

-- `malformed` stands for a file that is not private, or that is no JSON object with these fields.
pub data MarkerFile : Type 0 where
  no_marker malformed : MarkerFile
  marker_file : Marker → MarkerFile

-- The application directory: the marker, the four files that it names, and all other names.
pub record World : Type 0 where
  pub marker : MarkerFile
  pub files : Directory
  pub others : List Text

pub data Role : Type 0 where
  absent old new : Role

pub record Roles : Type 0 where
  pub config : Role
  pub backup : Role
  pub temp : Role
  pub trash : Role

abbrev pub is_some : Option Text → Bool
is_some none = false
is_some (some _) = true

abbrev pub option_all : (Text → Bool) → Option Text → Bool
option_all p none = true
option_all p (some t) = p t

abbrev drop_prefix : Text → Text → Text
drop_prefix [] s = s
drop_prefix (c ∷ p) [] = []
drop_prefix (c ∷ p) (d ∷ s) = drop_prefix p s

-- `re.fullmatch(r"[.]backup-[0-9a-f]{32}", name)`
unfoldable pub is_backup_name : Text → Bool
unfolding starts_with is_hex
is_backup_name n = starts_with (codes ".backup-") n && is_hex 32 (drop_prefix (codes ".backup-") n)

-- The checks on the marker's fields, in the source's two groups.
unfoldable pub is_valid_marker : Text → Marker → Bool
is_valid_marker txn m =
    (m.schema == 1)
    && (m.txn_id == txn)
    && (m.phase == codes "TXN_PREPARED")
    && (m.temp == codes ".config-" ++ txn)
    && (m.trash == codes ".trash-" ++ txn)
    && option_all is_backup_name m.backup
    && (m.old_config == (is_some m.backup))
    && is_sha256 m.new_sha256
    && option_all is_sha256 m.old_sha256
    && (m.old_config == (is_some m.old_sha256))

unfoldable pub marker_beq : Marker → Marker → Bool
marker_beq m n =
    (m.schema == n.schema)
    && (m.txn_id == n.txn_id)
    && (m.phase == n.phase)
    && (m.temp == n.temp)
    && (m.backup == n.backup)
    && (m.trash == n.trash)
    && (m.old_config == n.old_config)
    && (m.old_sha256 == n.old_sha256)
    && (m.new_sha256 == n.new_sha256)

-- `marker != expected_marker` only where one is expected
unfoldable pub meets_expected : Option Marker → Marker → Bool
unfolding marker_beq
meets_expected none m = true
meets_expected (some x) m = marker_beq m x

-- Another transaction's leavings in the directory.
unfoldable pub is_artifact : Text → Bool
unfolding starts_with
is_artifact n =
    starts_with (codes ".config-") n
    || starts_with (codes ".backup-") n
    || starts_with (codes ".trash-") n
    || starts_with (codes ".transaction-") n

-- `role`; `none` is the error at an unknown content or an unsafe file
unfoldable pub role : Marker → Slot → Option Role
role m missing = some absent
role m unsafe = none
role m (file h) =
    if h == m.new_sha256 then some new else if some h == m.old_sha256 then some old else none

abbrev pub all_roles : Option Role → Option Role → Option Role → Option Role → Option Roles
all_roles (some w) (some x) (some y) (some z) =
    some (record { config = w; backup = x; temp = y; trash = z })
all_roles _ _ _ _ = none

-- A marker without a backup names no backup file, so its role is `absent`.
unfoldable pub roles : Marker → Directory → Option Roles
unfolding role
roles m s =
    all_roles (role m s.config) (if is_some m.backup then role m s.backup else some absent)
      (role m s.temp) (role m s.trash)

-- What one round of the loop decides: an action, the end, or the error.
pub data Decision : Type 0 where
  act : Action → Decision
  finish reject : Decision

-- The states between two actions of one plan, in which a crash can leave the directory.
unfoldable pub intermediate : Role → Role → Role → Role → Option Action
intermediate absent old absent new = some restore_backup
intermediate old absent absent new = some drop_trash
intermediate absent absent absent new = some drop_trash
intermediate _ _ _ _ = none

pub data Cell : Type 0 where
  cell : ConfigState → Cell
  converged unknown : Cell

unfoldable pub cell_of : Bool → Role → Role → Role → Role → Cell
cell_of true old absent new absent = cell state_a
cell_of true absent old new absent = cell state_b
cell_of true new old absent absent = cell state_c
cell_of true old absent absent absent = converged
cell_of true new absent absent absent = converged
cell_of false absent absent new absent = cell state_d
cell_of false new absent absent absent = cell state_e
cell_of false absent absent absent absent = converged
cell_of _ _ _ _ _ = unknown

unfoldable pub first_action : Option (List Action) → Decision
first_action none = reject
first_action (some []) = finish
first_action (some (x ∷ _)) = act x

unfoldable pub plan_action : AppState → Cell → Decision
unfolding recovery_actions first_action
plan_action app converged = finish
plan_action app unknown = reject
plan_action app (cell k) = first_action (recovery_actions k app)

unfoldable pub decide_roles : Bool → AppState → Roles → Decision
unfolding intermediate cell_of plan_action
decide_roles old_config app r = elim (intermediate r.config r.backup r.temp r.trash) [
  | some x ↦ act x
  | none ↦ plan_action app (cell_of old_config r.config r.backup r.temp r.trash)
]

abbrev pub decide_known : Bool → AppState → Option Roles → Decision
decide_known old_config app none = reject
decide_known old_config app (some r) = decide_roles old_config app r

unfoldable pub decide : Marker → AppState → Directory → Decision
decide m app s = decide_known m.old_config app (roles m s)

-- One round: the next directory, the end (`returned`), or an error.
pub data Round : Type 0 where
  moved : Directory → Round
  ended : Outcome → Round

abbrev pub after_mutate : Option Directory → Round
after_mutate none = ended refused
after_mutate (some t) = moved t

unfoldable pub perform : Decision → Directory → Round
perform (act x) s = after_mutate (mutate x s)
perform finish s = ended returned
perform reject s = ended refused

unfoldable pub round : Marker → AppState → Directory → Round
round m app s = perform (decide m app s) s

-- `for _ in range(n): … else: raise`
unfoldable pub converge : ℕ → Marker → AppState → Directory → Outcome × Directory
converge zero m app s = (refused, s)
converge (suc n) m app s = elim (round m app s) [ moved t ↦ converge n m app t | ended o ↦ (o, s) ]

abbrev close_marker : World → Outcome × Directory → Outcome × World
close_marker w (returned, s) = (returned, record w { marker = no_marker; files = s })
close_marker w (o, s) = (o, record w { files = s })

-- The marker is gone already: what the journal expects must be published in full.
unfoldable pub is_committed : Option Marker → Directory → Bool
unfolding is_present
is_committed none s = true
is_committed (some x) s =
    elim s.config [ file h ↦ h == x.new_sha256 | _ ↦ false ]
    && not (is_present s.temp)
    && not (is_some x.backup && is_present s.backup)
    && not (is_present s.trash)

unfoldable pub recover_marked : Text → AppState → Option Marker → Marker → World → Outcome × World
recover_marked txn app expected m w =
    if is_valid_marker txn m && meets_expected expected m && not (any is_artifact w.others)
    then close_marker w (converge 8 m app w.files)
    else (refused, w)

unfoldable pub recover_files :
    Text → AppState → Option Marker → MarkerFile → World → Outcome × World
recover_files txn app expected no_marker w =
    (if is_committed expected w.files then returned else refused, w)
recover_files txn app expected malformed w = (refused, w)
recover_files txn app expected (marker_file m) w = recover_marked txn app expected m w

-- `none` is an application directory that does not exist.
unfoldable pub recover_config_marker :
    Text → AppState → Option Marker → Option World → Outcome × Option World
recover_config_marker txn app none none = (returned, none)
recover_config_marker txn app (some _) none = (refused, none)
recover_config_marker txn app expected (some w) =
    let (o, w') = recover_files txn app expected w.marker w in (o, some w')
