-- ===== src/ConfigRecovery/Plans.antt =====
-- `_PLANS`, `classify_config_state` and `recovery_actions` of macos/install_transaction.py.
use xserver_mail_lineworks.Shared.{Option, none, some, List, [], ◌∷◌}

-- Where a crash left the configuration; `unknown_config` is any other string.
pub data ConfigState : Type 0 where
  state_a state_b state_c state_d state_e unknown_config : ConfigState

pub data AppState : Type 0 where
  app_absent app_old app_new unknown_app : AppState

pub data Action : Type 0 where
  old_to_backup publish_temp new_to_trash restore_backup : Action
  drop_temp drop_backup drop_trash unknown_action : Action

-- `"old"` and `"new"`; no configuration (`None`) is the `none` of `Option`
pub data Version : Type 0 where
  old_version new_version : Version

pub record RecoveryPlan : Type 0 where
  pub actions : List Action
  pub config_result : Option Version
  pub app_result : AppState

abbrev plan : List Action → Option Version → AppState → Option RecoveryPlan
plan xs r s = some (record { actions = xs; config_result = r; app_result = s })

-- The table `_PLANS`; `none` is the `KeyError`, which is re-raised as `RecoveryError`.
unfoldable pub classify_config_state : ConfigState → AppState → Option RecoveryPlan
classify_config_state state_a app_absent = plan (drop_temp ∷ []) (some old_version) app_absent
classify_config_state state_a app_old = plan (drop_temp ∷ []) (some old_version) app_old
classify_config_state state_a app_new =
    plan (old_to_backup ∷ publish_temp ∷ drop_backup ∷ []) (some new_version) app_new
classify_config_state state_b app_absent =
    plan (restore_backup ∷ drop_temp ∷ []) (some old_version) app_absent
classify_config_state state_b app_old =
    plan (restore_backup ∷ drop_temp ∷ []) (some old_version) app_old
classify_config_state state_b app_new =
    plan (publish_temp ∷ drop_backup ∷ []) (some new_version) app_new
classify_config_state state_c app_absent =
    plan (new_to_trash ∷ restore_backup ∷ drop_trash ∷ []) (some old_version) app_absent
classify_config_state state_c app_old =
    plan (new_to_trash ∷ restore_backup ∷ drop_trash ∷ []) (some old_version) app_old
classify_config_state state_c app_new = plan (drop_backup ∷ []) (some new_version) app_new
classify_config_state state_d app_absent = plan (drop_temp ∷ []) none app_absent
classify_config_state state_d app_old = plan (drop_temp ∷ []) none app_old
classify_config_state state_d app_new = plan (publish_temp ∷ []) (some new_version) app_new
classify_config_state state_e app_absent = plan (new_to_trash ∷ drop_trash ∷ []) none app_absent
classify_config_state state_e app_old = plan (new_to_trash ∷ drop_trash ∷ []) none app_old
classify_config_state state_e app_new = plan [] (some new_version) app_new
classify_config_state _ _ = none

unfoldable pub recovery_actions : ConfigState → AppState → Option (List Action)
unfolding classify_config_state
recovery_actions config app = elim (classify_config_state config app) [
  | none ↦ none
  | some p ↦ some p.actions
]
