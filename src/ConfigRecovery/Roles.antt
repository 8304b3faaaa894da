-- ===== src/ConfigRecovery/Roles.antt =====
-- The abstract view of the recovery loop: what each file is, and not its bytes. The loop on
-- directories is shown to follow the loop on roles in the child module.
pub mod Place
use xserver_mail_lineworks.Shared.{
  ℕ, zero, suc, ◌≡◌, refl, ◌≢◌, ◌⊎◌, inl, inr, Bool, true, false, not, ◌&&◌, Option, none, some,
  Text, arith, ==_iff, ==_refl, nat_eq, list_eq, option_eq, bool_eq, if◌then◌else◌, option_beq,
  ◌==◌,
}
use xserver_mail_lineworks.ConfigRecovery.Plans.{
  AppState, Action, old_to_backup, publish_temp, new_to_trash, restore_backup, drop_temp,
  drop_backup, drop_trash, unknown_action,
}
use xserver_mail_lineworks.ConfigRecovery.Directory.{
  Slot, missing, unsafe, file, Directory, is_present, Outcome, returned, refused, mutate,
}
use xserver_mail_lineworks.ConfigRecovery.Recover.{
  Marker, is_some, Round, Role, absent, old, new, Roles, role, roles, Decision, act, finish, reject,
  decide_roles, decide, round, perform, after_mutate, moved, ended, converge,
}

abbrev is_absent : Role → Bool
is_absent absent = true
is_absent _ = false

abbrev pub place_role : Text → Text → Role → Slot
place_role h k absent = missing
place_role h k old = file h
place_role h k new = file k

-- The directory that shows these roles, `h` and `k` being the two hashes.
abbrev pub place : Text → Text → Roles → Directory
place h k r = record {
  config = place_role h k r.config;
  backup = place_role h k r.backup;
  temp = place_role h k r.temp;
  trash = place_role h k r.trash;
}

unfoldable pub move_role : Bool → Roles → Roles → Option Roles
move_role true t r = some t
move_role false t r = none

unfoldable pub act_roles : Action → Roles → Option Roles
unfolding move_role
act_roles old_to_backup r =
    move_role (not (is_absent r.config) && is_absent r.backup)
      (record r { config = absent; backup = r.config }) r
act_roles publish_temp r =
    move_role (not (is_absent r.temp) && is_absent r.config)
      (record r { temp = absent; config = r.temp }) r
act_roles new_to_trash r =
    move_role (not (is_absent r.config) && is_absent r.trash)
      (record r { config = absent; trash = r.config }) r
act_roles restore_backup r =
    move_role (not (is_absent r.backup) && is_absent r.config)
      (record r { backup = absent; config = r.backup }) r
act_roles drop_temp r = move_role (not (is_absent r.temp)) (record r { temp = absent }) r
act_roles drop_backup r = move_role (not (is_absent r.backup)) (record r { backup = absent }) r
act_roles drop_trash r = move_role (not (is_absent r.trash)) (record r { trash = absent }) r
act_roles unknown_action r = none

-- One round and the loop, on roles.
pub data RoleRound : Type 0 where
  goes : Roles → RoleRound
  stops : Outcome → RoleRound

abbrev pub after_act : Option Roles → RoleRound
after_act none = stops refused
after_act (some t) = goes t

unfoldable pub perform_roles : Decision → Roles → RoleRound
perform_roles (act x) r = after_act (act_roles x r)
perform_roles finish r = stops returned
perform_roles reject r = stops refused

unfoldable pub round_roles : Bool → AppState → Roles → RoleRound
round_roles old_config app r = perform_roles (decide_roles old_config app r) r

unfoldable pub converge_roles : ℕ → Bool → AppState → Roles → Outcome × Roles
converge_roles zero old_config app r = (refused, r)
converge_roles (suc n) old_config app r = elim (round_roles old_config app r) [
  | goes t ↦ converge_roles n old_config app t
  | stops o ↦ (o, r)
]
