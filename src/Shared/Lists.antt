-- ===== src/Shared/Lists.antt =====
-- Lists measured by native numbers, and Python's `all`, `any`, `[x for x in xs if p(x)]`.
use Prim.Native.Nat.{ℕ, suc, ◌+◌, ◌≤◌}
use mathlib.Core.Path.{◌≡◌, refl, ap}
use mathlib.Core.Bool.{Bool, true, false, ◌&&◌, ◌||◌}
use mathlib.Core.List.{List, [], ◌∷◌, ◌++◌}
use native.Mathlib.Omega.{arith}
use xserver_mail_lineworks.Shared.Tests.{if◌then◌else◌}
use xserver_mail_lineworks.Shared.Equality.{Eq, ==_iff, contains}

module _ {ℓ} {A : Type ℓ} where
  abbrev pub length : List A → ℕ
  length [] = 0
  length (x ∷ xs) = suc (length xs)

  unfoldable pub all : (A → Bool) → List A → Bool
  all p [] = true
  all p (x ∷ xs) = p x && all p xs

  unfoldable pub any : (A → Bool) → List A → Bool
  any p [] = false
  any p (x ∷ xs) = p x || any p xs

  unfoldable pub select : (A → Bool) → List A → List A
  select p [] = []
  select p (x ∷ xs) = let rest = select p xs in if p x then x ∷ rest else rest

  pub length-append : (xs ys : List A) → length (xs ++ ys) ≡ length xs + length ys
  length-append [] ys = omega arith
  length-append (x ∷ xs) ys = omega (arith, length-append xs ys)

  pub length-select : (p : A → Bool) (xs : List A) → length (select p xs) ≤ length xs
  unfolding select
  length-select p [] = omega arith
  length-select p (x ∷ xs) = ground (arith, length-select p xs)

module _ {ℓ} {A : Type ℓ} ⦃e : Eq A⦄ where
  pub contains-select :
      (p : A → Bool) (xs : List A) (a : A) → contains (select p xs) a ≡ (contains xs a && p a)
  unfolding contains select
  contains-select p [] a = refl
  contains-select p (x ∷ xs) a =
      ground (arith, contains-select p xs a, ==_iff a x, λ (q : a ≡ x). ap p q)

  pub all_at :
      (p : A → Bool) (xs : List A) (a : A) → all p xs ≡ true → contains xs a ≡ true → p a ≡ true
  unfolding contains all
  all_at p [] a h m = cc
  all_at p (x ∷ xs) a h m = ground (arith, all_at p xs a, ==_iff a x, λ (q : a ≡ x). ap p q)

  pub any_at :
      (p : A → Bool) (xs : List A) (a : A) → contains xs a ≡ true → p a ≡ true → any p xs ≡ true
  unfolding contains any
  any_at p [] a m h = cc
  any_at p (x ∷ xs) a m h = ground (arith, any_at p xs a, ==_iff a x, λ (q : a ≡ x). ap p q)
