-- ===== src/ConfigRecovery/Directory.antt =====
-- The directory of a configuration transaction, and the two routines that change it by an action:
-- `execute_recovery_action` of macos/install_transaction.py and `mutate` of macos/install_app.py.
use xserver_mail_lineworks.Shared.{
  Text, [], ap, ◌≡◌, Bool, true, false, not, ◌&&◌, Option, none, some, if◌then◌else◌,
}
use xserver_mail_lineworks.ConfigRecovery.Plans.{
  Action, old_to_backup, publish_temp, new_to_trash, restore_backup, drop_temp, drop_backup,
  drop_trash, unknown_action,
}

-- A file is known by the SHA-256 of its bytes. `unsafe` is an entry that is no regular private
-- file of the user (a link, a directory, another owner or mode).
pub data Slot : Type 0 where
  missing unsafe : Slot
  file : Text → Slot

pub data Name : Type 0 where
  config backup temp trash : Name

pub record Directory : Type 0 where
  pub config : Slot
  pub backup : Slot
  pub temp : Slot
  pub trash : Slot

unfoldable pub read : Directory → Name → Slot
read s config = s.config
read s backup = s.backup
read s temp = s.temp
read s trash = s.trash

unfoldable pub write : Directory → Name → Slot → Directory
write s config v = record s { config = v }
write s backup v = record s { backup = v }
write s temp v = record s { temp = v }
write s trash v = record s { trash = v }

-- `name in os.listdir(fd)`
unfoldable pub is_present : Slot → Bool
is_present missing = false
is_present _ = true

unfoldable pub is_regular : Slot → Bool
is_regular (file _) = true
is_regular _ = false

-- The operating system's exclusive rename and unlink; `none` is an `OSError`.
unfoldable pub rename_exclusive : Name → Name → Directory → Option Directory
unfolding read write is_present
rename_exclusive source target s =
    if is_present (read s source) && not (is_present (read s target))
    then some (write (write s target (read s source)) source missing)
    else none

unfoldable pub unlink : Name → Directory → Option Directory
unfolding read write is_present
unlink name s = if is_present (read s name) then some (write s name missing) else none

-- What a call leaves: it returns, it raises `RecoveryError` or an `OSError`, or the fault that a
-- test injects after the mutation is raised.
pub data Outcome : Type 0 where
  returned refused fault : Outcome

abbrev after_mutation : Bool → Directory → Option Directory → Outcome × Directory
after_mutation crash s none = (refused, s)
after_mutation crash s (some t) = (if crash then fault else returned, t)

execute_move : Bool → Name → Name → Directory → Outcome × Directory
unfolding rename_exclusive
execute_move crash source destination s =
    if is_present (read s source) && not (is_present (read s destination))
    then after_mutation crash s (rename_exclusive source destination s)
    else if not (is_present (read s source)) && is_present (read s destination)
    then (returned, s)
    else (refused, s)

-- The source looks at the type and the links of the file and not at its owner and mode; a regular file
-- of another owner or mode is not told apart from the `unsafe` ones, and is refused here.
execute_drop : Bool → Name → Directory → Outcome × Directory
unfolding unlink is_regular
execute_drop crash name s =
    if is_present (read s name)
    then (if is_regular (read s name) then after_mutation crash s (unlink name s) else (refused, s))
    else (returned, s)

unfoldable pub execute_recovery_action : Action → Bool → Directory → Outcome × Directory
unfolding execute_move execute_drop
execute_recovery_action old_to_backup crash s = execute_move crash config backup s
execute_recovery_action publish_temp crash s = execute_move crash temp config s
execute_recovery_action new_to_trash crash s = execute_move crash config trash s
execute_recovery_action restore_backup crash s = execute_move crash backup config s
execute_recovery_action drop_temp crash s = execute_drop crash temp s
execute_recovery_action drop_backup crash s = execute_drop crash backup s
execute_recovery_action drop_trash crash s = execute_drop crash trash s
execute_recovery_action unknown_action crash s = (refused, s)

-- `mutate`: no post-state is accepted here; `none` is an `OSError` (`KeyError` at an unknown name)
unfoldable pub mutate : Action → Directory → Option Directory
unfolding rename_exclusive unlink
mutate old_to_backup s = rename_exclusive config backup s
mutate publish_temp s = rename_exclusive temp config s
mutate new_to_trash s = rename_exclusive config trash s
mutate restore_backup s = rename_exclusive backup config s
mutate drop_temp s = unlink temp s
mutate drop_backup s = unlink backup s
mutate drop_trash s = unlink trash s
mutate unknown_action s = none

abbrev hash_or_empty : Slot → Text
hash_or_empty (file h) = h
hash_or_empty _ = []

pub file-injective : {h k : Text} → file h ≡ file k → h ≡ k
file-injective e = ap hash_or_empty e
