-- ===== src/ConfigRecovery/CrashRoles.antt =====
-- The crash points of `write_config_atomic` (macos/install_app.py) as roles, and recoveries that are
-- themselves broken off.
use xserver_mail_lineworks.Shared.{
  ℕ, zero, suc, ◌≡◌, refl, ◌≢◌, inl, inr, Bool, true, false, Text, arith, nat_eq, list_eq,
  option_eq, bool_eq,
}
use xserver_mail_lineworks.ConfigRecovery.Plans.{
  AppState, app_absent, app_old, app_new, unknown_app, recovery_actions,
}
use xserver_mail_lineworks.ConfigRecovery.Directory.{Directory, returned}
use xserver_mail_lineworks.ConfigRecovery.Recover.{
  Marker, absent, old, new, Roles, round, moved, ended, decide_roles, intermediate, cell_of,
  plan_action, first_action,
}
use xserver_mail_lineworks.ConfigRecovery.Transaction.{Point, prepared, backed_up, published}
use xserver_mail_lineworks.ConfigRecovery.Roles.Place.{
  FitsOld, FitsNone, RoleRound-cases, round-place, roles-place_old, roles-place_none,
  FitsNone-round,
}
use xserver_mail_lineworks.ConfigRecovery.Roles.{
  place, round_roles, perform_roles, converge_roles, goes, stops, act_roles,
}

-- The directory after up to `k` rounds of a recovery that then stops.
unfoldable pub rounds : ℕ → Marker → AppState → Directory → Directory
rounds zero m app s = s
rounds (suc k) m app s = elim (round m app s) [ moved t ↦ rounds k m app t | ended o ↦ s ]

-- The roles at each point of a write, with an old configuration and without one.
abbrev pub crash_roles : Bool → Point → Roles
crash_roles true prepared = record { config = old; backup = absent; temp = new; trash = absent }
crash_roles true backed_up = record { config = absent; backup = old; temp = new; trash = absent }
crash_roles true published = record { config = new; backup = old; temp = absent; trash = absent }
crash_roles false published = record {
  config = new;
  backup = absent;
  temp = absent;
  trash = absent;
}
crash_roles false _ = record { config = absent; backup = absent; temp = new; trash = absent }

abbrev pub settled_roles : Bool → AppState → Roles
settled_roles _ app_new = record { config = new; backup = absent; temp = absent; trash = absent }
settled_roles true _ = record { config = old; backup = absent; temp = absent; trash = absent }
settled_roles false _ = record { config = absent; backup = absent; temp = absent; trash = absent }

unfoldable pub rounds_roles : ℕ → Bool → AppState → Roles → Roles
rounds_roles zero o app r = r
rounds_roles (suc k) o app r = elim (round_roles o app r) [
  | goes t ↦ rounds_roles k o app t
  | stops _ ↦ r
]

pub converge-crash :
    (o : Bool) (p : Point) (k : ℕ) (app : AppState)
    → app ≢ unknown_app
    → converge_roles 8 o app (rounds_roles k o app (crash_roles o p))
      ≡ (returned, settled_roles o app)
unfolding converge_roles rounds_roles round_roles perform_roles act_roles decide_roles intermediate
    cell_of plan_action recovery_actions first_action
converge-crash o p zero app u = ground arith
converge-crash o p (suc zero) app u = ground arith
converge-crash o p (suc (suc zero)) app u = ground arith
converge-crash o p (suc (suc (suc zero))) app u = ground arith
converge-crash true prepared (suc (suc (suc (suc k)))) app_absent u = refl
converge-crash true prepared (suc (suc (suc (suc k)))) app_old u = refl
converge-crash true prepared (suc (suc (suc (suc k)))) app_new u = refl
converge-crash true backed_up (suc (suc (suc (suc k)))) app_absent u = refl
converge-crash true backed_up (suc (suc (suc (suc k)))) app_old u = refl
converge-crash true backed_up (suc (suc (suc (suc k)))) app_new u = refl
converge-crash true published (suc (suc (suc (suc k)))) app_absent u = refl
converge-crash true published (suc (suc (suc (suc k)))) app_old u = refl
converge-crash true published (suc (suc (suc (suc k)))) app_new u = refl
converge-crash false prepared (suc (suc (suc (suc k)))) app_absent u = refl
converge-crash false prepared (suc (suc (suc (suc k)))) app_old u = refl
converge-crash false prepared (suc (suc (suc (suc k)))) app_new u = refl
converge-crash false backed_up (suc (suc (suc (suc k)))) app_absent u = refl
converge-crash false backed_up (suc (suc (suc (suc k)))) app_old u = refl
converge-crash false backed_up (suc (suc (suc (suc k)))) app_new u = refl
converge-crash false published (suc (suc (suc (suc k)))) app_absent u = refl
converge-crash false published (suc (suc (suc (suc k)))) app_old u = refl
converge-crash false published (suc (suc (suc (suc k)))) app_new u = refl
converge-crash _ _ (suc (suc (suc (suc k)))) unknown_app u = absurd (u refl)

pub rounds-place_old :
    (n : ℕ) (m : Marker) (h : Text) (app : AppState) (r : Roles)
    → FitsOld m h
    → rounds n m app (place h m.new_sha256 r)
      ≡ place h m.new_sha256 (rounds_roles n m.old_config app r)
unfolding rounds rounds_roles
rounds-place_old zero m h app r f = refl
rounds-place_old (suc n) m h app r f = elim (RoleRound-cases (round_roles m.old_config app r)) [
  | inl (t, e) ↦
      rw (round-place m h app r (roles-place_old m h r f), rounds)
        (rw (e, rounds_roles) (rounds-place_old n m h app t f))
  | inr (o, e) ↦ rw (round-place m h app r (roles-place_old m h r f), rounds) (rw (e, rounds_roles))
]

pub rounds-place_none :
    (n : ℕ) (m : Marker) (h : Text) (app : AppState) (r : Roles)
    → FitsNone m r
    → rounds n m app (place h m.new_sha256 r)
      ≡ place h m.new_sha256 (rounds_roles n m.old_config app r)
unfolding rounds rounds_roles
rounds-place_none zero m h app r f = refl
rounds-place_none (suc n) m h app r f = elim (RoleRound-cases (round_roles m.old_config app r)) [
  | inl (t, e) ↦
      rw (round-place m h app r (roles-place_none m h r f), rounds)
        (rw (e, rounds_roles) (rounds-place_none n m h app t (FitsNone-round m app r t e f)))
  | inr (o, e) ↦
      rw (round-place m h app r (roles-place_none m h r f), rounds) (rw (e, rounds_roles))
]
