-- ===== src/Shared/Assoc.antt =====
-- A Python `dict` with text keys as the list of its items, in insertion order.
use mathlib.Core.Path.{◌≡◌, refl}
use mathlib.Core.Bool.{true, ◌||◌}
use mathlib.Core.Option.{Option, none, some}
use mathlib.Core.List.{List, [], ◌∷◌}
use native.Mathlib.Omega.{arith}
use xserver_mail_lineworks.Shared.Tests.{if◌then◌else◌}
use xserver_mail_lineworks.Shared.Equality.{◌==◌, ==_iff, nat_eq, list_eq, contains}
use xserver_mail_lineworks.Shared.Texts.{Text}

module _ {ℓ} {V : Type ℓ} where
  -- `d.get(k)`
  unfoldable pub find : Text → List (Text × V) → Option V
  find k [] = none
  find k ((j, v) ∷ d) = let rest = find k d in if k == j then some v else rest

  -- `d.keys()`
  abbrev pub keys : List (Text × V) → List Text
  keys [] = []
  keys ((k, v) ∷ d) = k ∷ keys d

  -- `d[k] = v`
  unfoldable pub put : Text → V → List (Text × V) → List (Text × V)
  put k v [] = (k, v) ∷ []
  put k v ((j, w) ∷ d) = if k == j then (j, v) ∷ d else (j, w) ∷ put k v d

  pub find-put :
      (k j : Text) (v : V) (d : List (Text × V))
      → find j (put k v d) ≡ (if j == k then some v else find j d)
  unfolding find put
  find-put k j v [] = refl
  find-put k j v ((i, w) ∷ d) = ground (arith, ==_iff k i, ==_iff j i, ==_iff j k, find-put k j v d)

  pub keys-put :
      (k : Text) (v : V) (d : List (Text × V)) (j : Text)
      → contains (keys (put k v d)) j ≡ (j == k || contains (keys d) j)
  unfolding put contains
  keys-put k v [] j = refl
  keys-put k v ((i, w) ∷ d) j = ground (arith, ==_iff k i, ==_iff j i, ==_iff j k, keys-put k v d j)

  pub contains_of_find :
      (k : Text) (d : List (Text × V)) {v : V} → find k d ≡ some v → contains (keys d) k ≡ true
  unfolding find contains
  contains_of_find k [] h = cc
  contains_of_find k ((j, w) ∷ d) {v} h = ground (arith, contains_of_find k d {v = v})
