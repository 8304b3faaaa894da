-- ===== src/ConfigRecovery/Roles/Place.antt =====
-- The loop of `_recover_config_marker` (macos/install_app.py) on files follows the loop on roles.
use xserver_mail_lineworks.Shared.{
  ℕ, zero, suc, ◌≡◌, refl, ◌≢◌, ◌⊎◌, inl, inr, true, false, Option, none, some, Text, arith, ==_iff,
  ==_refl, nat_eq, list_eq, option_eq, bool_eq,
}
use xserver_mail_lineworks.ConfigRecovery.Plans.{AppState, Action}
use xserver_mail_lineworks.ConfigRecovery.Directory.{Directory, Outcome, mutate}
use xserver_mail_lineworks.ConfigRecovery.Recover.{
  Marker, is_some, Round, Role, absent, old, new, Roles, role, roles, Decision, act, finish, reject,
  decide_roles, decide, round, perform, after_mutate, moved, ended, converge,
}
use xserver_mail_lineworks.ConfigRecovery.Roles.{
  act_roles, RoleRound, goes, stops, after_act, perform_roles, round_roles, converge_roles, place,
  place_role,
}

abbrev place? : Text → Text → Option Roles → Option Directory
place? h k none = none
place? h k (some r) = some (place h k r)

mutate-place :
    (h k : Text) (x : Action) (r : Roles) → mutate x (place h k r) ≡ place? h k (act_roles x r)
unfolding mutate act_roles
mutate-place h k x r = ground arith

role-place :
    (m : Marker) (h : Text) (r : Role)
    → m.old_sha256 ≡ some h
    → h ≢ m.new_sha256
    → role m (place_role h m.new_sha256 r) ≡ some r
unfolding role
role-place m h r e d =
    ground (arith, ==_iff h m.new_sha256, ==_refl m.new_sha256, ==_iff (some h) m.old_sha256)

-- `h` is the old hash. Without an old configuration no file is old, and no backup is named.
pub record FitsOld (m : Marker) (h : Text) : Type 0 where
  pub flag : m.old_config ≡ true
  pub named : is_some m.backup ≡ true
  pub hash : m.old_sha256 ≡ some h
  pub differs : h ≢ m.new_sha256

pub record FitsNone (m : Marker) (r : Roles) : Type 0 where
  pub flag : m.old_config ≡ false
  pub unnamed : m.backup ≡ none
  pub hash : m.old_sha256 ≡ none
  pub config_new : r.config ≢ old
  pub temp_new : r.temp ≢ old
  pub trash_new : r.trash ≢ old
  pub no_backup : r.backup ≡ absent

pub roles-place_old :
    (m : Marker) (h : Text) (r : Roles) → FitsOld m h → roles m (place h m.new_sha256 r) ≡ some r
unfolding roles
roles-place_old m h r f = rw f.named (
    rw (
      role-place m h r.config f.hash f.differs,
      role-place m h r.backup f.hash f.differs,
      role-place m h r.temp f.hash f.differs,
      role-place m h r.trash f.hash f.differs,
    ))

role-place_none :
    (m : Marker) (h : Text) (r : Role) → r ≢ old → role m (place_role h m.new_sha256 r) ≡ some r
unfolding role
role-place_none m h absent d = refl
role-place_none m h old d = absurd (d refl)
role-place_none m h new d = rw (==_refl m.new_sha256)

pub roles-place_none :
    (m : Marker) (h : Text) (r : Roles) → FitsNone m r → roles m (place h m.new_sha256 r) ≡ some r
unfolding roles
roles-place_none m h r f = rw f.unnamed (
    rw (
      role-place_none m h r.config f.config_new,
      role-place_none m h r.temp f.temp_new,
      role-place_none m h r.trash f.trash_new,
      ← f.no_backup,
    ))

abbrev round_of : Text → Text → RoleRound → Round
round_of h k (goes r) = moved (place h k r)
round_of h k (stops o) = ended o

perform-place :
    (h k : Text) (x : Decision) (r : Roles)
    → perform x (place h k r) ≡ round_of h k (perform_roles x r)
unfolding perform perform_roles
perform-place h k (act x) r = rw (mutate-place h k x r) (go (act_roles x r))
  where
    go : (o : Option Roles) → after_mutate (place? h k o) ≡ round_of h k (after_act o)
    go none = refl
    go (some t) = refl
perform-place h k finish r = refl
perform-place h k reject r = refl

pub round-place :
    (m : Marker) (h : Text) (app : AppState) (r : Roles)
    → roles m (place h m.new_sha256 r) ≡ some r
    → round m app (place h m.new_sha256 r)
      ≡ round_of h m.new_sha256 (round_roles m.old_config app r)
unfolding round decide round_roles
round-place m h app r e = rw e (perform-place h m.new_sha256 (decide_roles m.old_config app r) r)

-- The files of the two kinds of transaction stay of that kind.
round_roles-NoOld :
    (app : AppState) (r t : Roles)
    → round_roles false app r ≡ goes t
    → r.config ≢ old
    → r.temp ≢ old
    → r.trash ≢ old
    → r.backup ≡ absent
    → (t.config ≢ old) × (t.temp ≢ old) × (t.trash ≢ old) × (t.backup ≡ absent)
unfolding round_roles perform_roles decide_roles act_roles
round_roles-NoOld app r t e c te tr b = ground arith

pub FitsNone-round :
    (m : Marker) (app : AppState) (r t : Roles)
    → round_roles m.old_config app r ≡ goes t
    → FitsNone m r
    → FitsNone m t
FitsNone-round m app r t e f =
    let (c, te, tr, b) =
      round_roles-NoOld app r t (rw f.flag at e) f.config_new f.temp_new f.trash_new f.no_backup in
    record {
      flag = f.flag;
      unnamed = f.unnamed;
      hash = f.hash;
      config_new = c;
      temp_new = te;
      trash_new = tr;
      no_backup = b;
    }

abbrev pub place_end : Text → Text → Outcome × Roles → Outcome × Directory
place_end h k (o, r) = (o, place h k r)

pub RoleRound-cases :
    (x : RoleRound) → ((t : Roles) × (x ≡ goes t)) ⊎ ((o : Outcome) × (x ≡ stops o))
RoleRound-cases (goes t) = inl (t, refl)
RoleRound-cases (stops o) = inr (o, refl)

converge-step :
    (n : ℕ) (m : Marker) (h : Text) (app : AppState) (r : Roles)
    → roles m (place h m.new_sha256 r) ≡ some r
    → ((t : Roles)
        → round_roles m.old_config app r ≡ goes t
        → converge n m app (place h m.new_sha256 t)
          ≡ place_end h m.new_sha256 (converge_roles n m.old_config app t))
    → converge (suc n) m app (place h m.new_sha256 r)
      ≡ place_end h m.new_sha256 (converge_roles (suc n) m.old_config app r)
unfolding converge converge_roles
converge-step n m h app r known ih = elim (RoleRound-cases (round_roles m.old_config app r)) [
  | inl (t, e) ↦ rw (round-place m h app r known, converge) (rw (e, converge_roles) (ih t e))
  | inr (o, e) ↦ rw (round-place m h app r known, converge) (rw (e, converge_roles))
]

-- With an old configuration, the loop on files is the loop on roles.
pub converge-place_old :
    (n : ℕ) (m : Marker) (h : Text) (app : AppState) (r : Roles)
    → FitsOld m h
    → converge n m app (place h m.new_sha256 r)
      ≡ place_end h m.new_sha256 (converge_roles n m.old_config app r)
converge-place_old zero m h app r f = unfold converge converge_roles in refl
converge-place_old (suc n) m h app r f =
    converge-step n m h app r (roles-place_old m h r f) (λ t e. converge-place_old n m h app t f)

-- The same without one.
pub converge-place_none :
    (n : ℕ) (m : Marker) (h : Text) (app : AppState) (r : Roles)
    → FitsNone m r
    → converge n m app (place h m.new_sha256 r)
      ≡ place_end h m.new_sha256 (converge_roles n m.old_config app r)
converge-place_none zero m h app r f = unfold converge converge_roles in refl
converge-place_none (suc n) m h app r f =
    converge-step n m h app r (roles-place_none m h r f)
      λ t e. converge-place_none n m h app t (FitsNone-round m app r t e f)
