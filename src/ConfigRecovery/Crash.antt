-- ===== src/ConfigRecovery/Crash.antt =====
-- A process that stops inside `write_config_atomic`, or inside the recovery itself, loses nothing:
-- the recovery of macos/install_app.py ends with the configuration that belongs to the application.
use xserver_mail_lineworks.Shared.{
  ℕ, zero, suc, ◌≡◌, refl, ◌≢◌, inl, inr, true, false, Option, none, some, List, Text, arith,
  nat_eq, list_eq, option_eq, bool_eq, ap, subst,
}
use mathlib.Core.Option.{some-injective}
use xserver_mail_lineworks.ConfigRecovery.Plans.{AppState, app_new, unknown_app}
use xserver_mail_lineworks.ConfigRecovery.Directory.{
  Slot, missing, unsafe, file, Directory, returned,
}
use xserver_mail_lineworks.ConfigRecovery.Recover.{
  Marker, marker_file, no_marker, World, Roles, meets_expected, converge, recover_config_marker,
}
use xserver_mail_lineworks.ConfigRecovery.Transaction.{
  Point, prepared, backed_up, published, marker_of, prepared_marker, staged, advance,
  write_config_until,
}
use xserver_mail_lineworks.ConfigRecovery.Roles.Place.{
  FitsOld, FitsNone, converge-place_old, converge-place_none, RoleRound-cases, FitsNone-round,
}
use xserver_mail_lineworks.ConfigRecovery.Roles.{place, round_roles}
use xserver_mail_lineworks.ConfigRecovery.Settle.{
  clean, settled, IsInstall, is_valid-marker_of, recover_of_valid,
}
use xserver_mail_lineworks.ConfigRecovery.CrashRoles.{
  rounds, rounds_roles, crash_roles, settled_roles, converge-crash, rounds-place_old,
  rounds-place_none,
}

settled-place_old :
    (app : AppState) (h k : Text) → place h k (settled_roles true app) ≡ settled app k (file h)
settled-place_old app_new h k = refl
settled-place_old _ h k = refl

settled-place_none :
    (app : AppState) (h k : Text) → place h k (settled_roles false app) ≡ settled app k missing
settled-place_none app_new h k = refl
settled-place_none _ h k = refl

abbrev old_marker : Text → Text → Text → Text → Marker
old_marker txn backup k h = marker_of txn k (some backup) (some h)

converge-crash_old :
    (p : Point) (j : ℕ) (app : AppState) (txn backup k h : Text)
    → app ≢ unknown_app
    → h ≢ k
    → converge 8
        (old_marker txn backup k h)
        app
        (rounds j (old_marker txn backup k h) app (place h k (crash_roles true p)))
      ≡ (returned, settled app k (file h))
converge-crash_old p j app txn backup k h u d =
    let f : FitsOld (old_marker txn backup k h) h = record {
      flag = refl;
      named = refl;
      hash = refl;
      differs = d;
    } in
    rw
      (
        rounds-place_old j (old_marker txn backup k h) h app (crash_roles true p) f,
        converge-place_old 8 (old_marker txn backup k h) h app
            (rounds_roles j true app (crash_roles true p)) f,
        converge-crash true p j app u,
      )
      (ap (λ t. (returned, t)) (settled-place_old app h k))

abbrev new_marker : Text → Text → Marker
new_marker txn k = marker_of txn k none none

FitsNone-crash : (p : Point) (txn k : Text) → FitsNone (new_marker txn k) (crash_roles false p)
FitsNone-crash p txn k = record {
  flag = refl;
  unnamed = refl;
  hash = refl;
  config_new = ground arith;
  temp_new = ground arith;
  trash_new = ground arith;
  no_backup = ground arith;
}

FitsNone-rounds :
    (j : ℕ) (m : Marker) (app : AppState) (r : Roles)
    → FitsNone m r
    → FitsNone m (rounds_roles j m.old_config app r)
unfolding rounds_roles
FitsNone-rounds zero m app r f = f
FitsNone-rounds (suc j) m app r f = elim (RoleRound-cases (round_roles m.old_config app r)) [
  | inl (t, e) ↦ rw (e, rounds_roles) (FitsNone-rounds j m app t (FitsNone-round m app r t e f))
  | inr (o, e) ↦ rw (e, rounds_roles) f
]

converge-crash_none :
    (p : Point) (j : ℕ) (app : AppState) (txn k : Text)
    → app ≢ unknown_app
    → converge 8
        (new_marker txn k)
        app
        (rounds j (new_marker txn k) app (place k k (crash_roles false p)))
      ≡ (returned, settled app k missing)
converge-crash_none p j app txn k u =
    let f = FitsNone-crash p txn k in
    rw
      (
        rounds-place_none j (new_marker txn k) k app (crash_roles false p) f,
        converge-place_none 8 (new_marker txn k) k app
            (rounds_roles j false app (crash_roles false p))
            (FitsNone-rounds j (new_marker txn k) app (crash_roles false p) f),
        converge-crash false p j app u,
      )
      (ap (λ t. (returned, t)) (settled-place_none app k k))

abbrev pub at_roles : Marker → Directory → List Text → World
at_roles m s others = record { marker = marker_file m; files = s; others = others }

staged-clean-none :
    (p : Point) (m : Marker) (k : Text) (others : List Text)
    → advance p none (staged (clean missing others) k m)
      ≡ at_roles m (place k k (crash_roles false p)) others
unfolding advance staged
staged-clean-none prepared m k others = refl
staged-clean-none backed_up m k others = refl
staged-clean-none published m k others = refl

pub staged-clean_old :
    (p : Point) (m : Marker) (b h k : Text) (others : List Text)
    → advance p (some b) (staged (clean (file h) others) k m)
      ≡ at_roles m (place h k (crash_roles true p)) others
unfolding advance staged
staged-clean_old prepared m b h k others = refl
staged-clean_old backed_up m b h k others = refl
staged-clean_old published m b h k others = refl

abbrev Recovers : ℕ → AppState → Text → Text → Slot → Option Marker → Marker × World → Type 0
Recovers j app txn k c expected (m, w) =
    meets_expected expected m ≡ true
    → recover_config_marker txn app expected (some (record w { files = rounds j m app w.files }))
      ≡ (returned, some (record w { marker = no_marker; files = settled app k c }))

Recovers-none :
    (p : Point) (j : ℕ) (app : AppState) (txn backup k : Text) (others : List Text)
    (expected : Option Marker)
    → IsInstall backup k missing others
    → app ≢ unknown_app
    → Recovers j app txn k missing expected
        (new_marker txn k, advance p none (staged (clean missing others) k (new_marker txn k)))
Recovers-none p j app txn backup k others expected v u x =
    rw (staged-clean-none p (new_marker txn k) k others) (
      recover_of_valid txn app expected (new_marker txn k) _ _ others
        (is_valid-marker_of txn k none none v.new_hash refl refl refl) x v.no_artifacts
        (converge-crash_none p j app txn k u))

Recovers-old :
    (p : Point) (j : ℕ) (app : AppState) (txn backup k h : Text) (others : List Text)
    (expected : Option Marker)
    → IsInstall backup k (file h) others
    → app ≢ unknown_app
    → Recovers j app txn k (file h) expected (
      old_marker txn backup k h,
      advance p (some backup) (staged (clean (file h) others) k (old_marker txn backup k h)),
    )
Recovers-old p j app txn backup k h others expected v u x =
    rw (staged-clean_old p (old_marker txn backup k h) backup h k others) (
      recover_of_valid txn app expected (old_marker txn backup k h) _ _ others
        (is_valid-marker_of txn k (some backup) (some h) v.new_hash v.backup_name
          (v.old_hash h refl) refl)
        x v.no_artifacts (converge-crash_old p j app txn backup k h u (λ e. v.differs (ap file e))))

-- A process that stops at any point of `write_config_atomic` after its marker is written, and
-- recoveries that stop after any number of rounds, leave a directory from which the recovery
-- returns: the marker and the three other files are gone, the configuration is the new one if the
-- new application is in place and the one from before otherwise, and no other file is touched.
-- The write starts in a directory without a transaction, the application is known to be new, old or
-- absent, and the backup's name and the hashes have their form. The journal may expect a marker, which
-- must then be this one. The new configuration must differ from the one in place, and no other
-- transaction's files may lie there.
pub recover_after_crash :
    (p : Point) (j : ℕ) (app : AppState) (txn backup k : Text) (c : Slot) (others : List Text)
    (expected : Option Marker) {m : Marker} {w : World}
    → IsInstall backup k c others
    → app ≢ unknown_app
    → write_config_until p txn backup k (clean c others) ≡ some (m, w)
    → meets_expected expected m ≡ true
    → recover_config_marker txn app expected (some (record w { files = rounds j m app w.files }))
      ≡ (returned, some (record w { marker = no_marker; files = settled app k c }))
unfolding write_config_until prepared_marker
recover_after_crash p j app txn backup k missing others expected v u e =
    subst (Recovers j app txn k missing expected) (some-injective _ _ e)
      (Recovers-none p j app txn backup k others expected v u)
recover_after_crash p j app txn backup k unsafe others expected v u e = cc
recover_after_crash p j app txn backup k (file h) others expected v u e =
    subst (Recovers j app txn k (file h) expected) (some-injective _ _ e)
      (Recovers-old p j app txn backup k h others expected v u)
