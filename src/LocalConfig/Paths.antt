-- ===== src/LocalConfig/Paths.antt =====
-- The paths that macos/local_config.py accepts, against what a system does with their parts.
use xserver_mail_lineworks.Shared.{
  ℕ, true, false, ◌||◌, ◌≡◌, refl, sym, ap, subst, ◌∙◌, List, [], ◌∷◌, ◌++◌, ◌==◌, nat_eq, list_eq,
  any, all, contains, starts_with, list_beq, if◌then◌else◌, Text, codes, arith, contains, all_at,
  Option, some, none, Option-cases, inl, inr, Json, obj, Fields,
}
use xserver_mail_lineworks.EmailAddress.{split_on, cons_first}
use xserver_mail_lineworks.DeliveryRecovery.{text_at}
use xserver_mail_lineworks.LocalConfig.{
  validate_path, is_plain, is_public, config_is_valid, validate_config, load_config, holds,
}

-- The directory before the last one; the root is before itself.
unfoldable pub parent : List Text → List Text
parent [] = []
parent (p ∷ []) = []
parent (p ∷ q ∷ ps) = p ∷ parent (q ∷ ps)

-- Where the parts lead from a directory, one after another.
unfoldable pub walk : List Text → List Text → List Text
walk at [] = at
walk at (p ∷ ps) =
    if p == [] || p == codes "."
    then walk at ps
    else if p == codes ".."
    then walk (parent at) ps
    else walk (at ++ p ∷ []) ps

unfoldable pub spelled : List Text → Text
spelled [] = []
spelled (p ∷ ps) = b'/' ∷ (p ++ spelled ps)

-- The path of the directory that `value` leads to from the root.
unfoldable pub normal_path : Text → Text
normal_path value = spelled (walk [] (split_on b'/' value))

abbrev after_first : ℕ → Text → Text
after_first c [] = []
after_first c (d ∷ s) = d ∷ c ∷ s

spelled-cons_first :
    (c : ℕ) (s : Text) (rest : List Text)
    → spelled rest ≡ b'/' ∷ s
    → spelled (cons_first c rest) ≡ b'/' ∷ c ∷ s
unfolding spelled
spelled-cons_first c s [] h = cc
spelled-cons_first c s (p ∷ ps) h = ap (after_first c) h

spelled-split_on : (s : Text) → spelled (split_on b'/' s) ≡ b'/' ∷ s
unfolding spelled split_on
spelled-split_on [] = refl
spelled-split_on (c ∷ s) =
    ground (arith, spelled-split_on s, spelled-cons_first c s (split_on b'/' s))

append_one : (at : List Text) (p : Text) (ps : List Text) → (at ++ p ∷ []) ++ ps ≡ at ++ p ∷ ps
append_one [] p ps = refl
append_one (a ∷ at) p ps = ap (λ (l : List Text). a ∷ l) (append_one at p ps)

append_none : (at : List Text) → at ++ [] ≡ at
append_none [] = refl
append_none (a ∷ at) = ap (λ (l : List Text). a ∷ l) (append_none at)

-- Plain parts are entered one below another.
walk_plain : (at ps : List Text) → all is_plain ps ≡ true → walk at ps ≡ at ++ ps
unfolding walk all
walk_plain at [] h = sym (append_none at)
walk_plain at (p ∷ ps) h = ground (arith, walk_plain (at ++ p ∷ []) ps, append_one at p ps)

-- The path leads to the place that it spells, past no directory named public_html.
abbrev Resolved : Text → Type 0
Resolved value =
    (normal_path value ≡ value) × (any is_public (walk [] (split_on b'/' value)) ≡ false)

absolute-Resolved :
    (s : Text)
    → all is_plain (split_on b'/' s) ≡ true
    → any is_public (split_on b'/' s) ≡ false
    → Resolved (b'/' ∷ s)
unfolding normal_path walk split_on list_beq
absolute-Resolved s h q = (
  ap spelled (walk_plain [] (split_on b'/' s) h) ∙ spelled-split_on s,
  ap (any is_public) (walk_plain [] (split_on b'/' s) h) ∙ q,
)

slash-Resolved : (s : Text) → validate_path (b'/' ∷ s) ≡ true → Resolved (b'/' ∷ s)
unfolding validate_path split_on
slash-Resolved s h = absolute-Resolved s (ground (arith, h)) (ground (arith, h))

starts_with_slash : (c : ℕ) (s : Text) → validate_path (c ∷ s) ≡ true → b'/' ≡ c
unfolding validate_path starts_with
starts_with_slash c s h = ground (arith, h)

-- An accepted path is the spelling of the place that it leads to from the root, and none of the
-- directories of that place is named public_html.
pub validate_path-Resolved :
    (value : Text)
    → validate_path value ≡ true
    → (normal_path value ≡ value) × (any is_public (walk [] (split_on b'/' value)) ≡ false)
unfolding validate_path starts_with
validate_path-Resolved [] h = cc
validate_path-Resolved (c ∷ s) h =
    subst (λ d. validate_path (d ∷ s) ≡ true → Resolved (d ∷ s)) (starts_with_slash c s h)
      (slash-Resolved s) h

-- `validate_config` gives back what it checked.
validated-IsValid :
    (v : Json) (fs : Fields) → validate_config v ≡ some fs → config_is_valid fs ≡ true
unfolding validate_config
validated-IsValid (obj gs) fs h = ground (arith, h)
validated-IsValid v fs h = ground (arith, h)

loaded-IsValid :
    (loads : Text → Option Json) (raw : Text) (fs : Fields)
    → load_config loads raw ≡ some fs
    → config_is_valid fs ≡ true
unfolding load_config
loaded-IsValid loads raw fs h = elim (Option-cases (loads raw)) [
  | inl e ↦ ground (arith, h, e)
  | inr (v, e) ↦ ground (arith, h, e, validated-IsValid v fs)
]

abbrev path_keys : List Text
path_keys = codes "command_path" ∷ codes "config_path" ∷ codes "filesystem_home" ∷ []

all_paths :
    (fs : Fields)
    → config_is_valid fs ≡ true
    → all (λ k. holds validate_path (text_at k fs)) path_keys ≡ true
unfolding config_is_valid all
all_paths fs h = ground (arith, h)

holds_at :
    (o : Option Text) (path : Text)
    → holds validate_path o ≡ true
    → o ≡ some path
    → validate_path path ≡ true
holds_at none path h e = cc
holds_at (some p) path h e = cc

-- Every path of a configuration that is loaded is the spelling of the place that it leads to from
-- the root, and none of the directories of that place is named public_html.
pub load_config-Resolved :
    (loads : Text → Option Json) (raw : Text) (fs : Fields) (k path : Text)
    → load_config loads raw ≡ some fs
    → contains path_keys k ≡ true
    → text_at k fs ≡ some path
    → (normal_path path ≡ path) × (any is_public (walk [] (split_on b'/' path)) ≡ false)
load_config-Resolved loads raw fs k path h m e = validate_path-Resolved path (
    holds_at (text_at k fs) path
      (all_at (λ key. holds validate_path (text_at key fs)) path_keys k
        (all_paths fs (loaded-IsValid loads raw fs h)) m)
      e)
