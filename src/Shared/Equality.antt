-- ===== src/Shared/Equality.antt =====
-- Python's `==` as an interface, and what is built on it: `in`, `set` tests on lists.
use Prim.Native.Nat.{ℕ}
use mathlib.Core.Path.{◌≡◌, refl}
use mathlib.Core.Logic.{◌↔◌}
use mathlib.Core.Bool.{Bool, true, false, not, ◌&&◌, ◌||◌}
use mathlib.Core.Option.{Option, none, some}
use mathlib.Core.List.{List, [], ◌∷◌, ◌++◌}
use native.Mathlib.Omega.{arith}
use xserver_mail_lineworks.Shared.Tests.{nat_beq, nat_beq_iff}

-- How the values of a type are compared, and that this decides equality.
pub record Eq {ℓ} (A : Type ℓ) : Type ℓ where
  pub equal : A → A → Bool
  pub decides : (x y : A) → (equal x y ≡ true) ↔ (x ≡ y)

abbrev pub ◌==◌ {ℓ} : {A : Type ℓ} ⦃cmp : Eq A⦄ → A → A → Bool
◌==◌ ⦃cmp⦄ x y = cmp.equal x y

infix 50 ◌==◌
pub ==_iff {ℓ} : {A : Type ℓ} ⦃cmp : Eq A⦄ (a b : A) → ((a == b) ≡ true) ↔ (a ≡ b)
==_iff ⦃cmp⦄ = cmp.decides

pub ==_refl {ℓ} : {A : Type ℓ} ⦃e : Eq A⦄ (a : A) → (a == a) ≡ true
==_refl a = (==_iff a a).1 refl

instance abbrev pub nat_eq : Eq ℕ
nat_eq = record { equal = nat_beq; decides = nat_beq_iff }

unfoldable pub bool_beq : Bool → Bool → Bool
bool_beq true b = b
bool_beq false b = not b

pub bool_beq_iff : (a b : Bool) → (bool_beq a b ≡ true) ↔ (a ≡ b)
unfolding bool_beq
bool_beq_iff a b = ground arith

instance abbrev pub bool_eq : Eq Bool
bool_eq = record { equal = bool_beq; decides = bool_beq_iff }

module _ {ℓ} {A : Type ℓ} ⦃e : Eq A⦄ where
  unfoldable pub list_beq : List A → List A → Bool
  list_beq [] [] = true
  list_beq (x ∷ xs) (y ∷ ys) = (x == y) && list_beq xs ys
  list_beq _ _ = false

  pub list_beq_iff : (xs ys : List A) → (list_beq xs ys ≡ true) ↔ (xs ≡ ys)
  unfolding list_beq
  list_beq_iff [] [] = ground arith
  list_beq_iff [] (y ∷ ys) = ground arith
  list_beq_iff (x ∷ xs) [] = ground arith
  list_beq_iff (x ∷ xs) (y ∷ ys) = ground (arith, ==_iff x y, list_beq_iff xs ys)

  instance abbrev pub list_eq : Eq (List A)
  list_eq = record { equal = list_beq; decides = list_beq_iff }

  unfoldable pub option_beq : Option A → Option A → Bool
  option_beq none none = true
  option_beq (some x) (some y) = x == y
  option_beq _ _ = false

  pub option_beq_iff : (x y : Option A) → (option_beq x y ≡ true) ↔ (x ≡ y)
  unfolding option_beq
  option_beq_iff none none = ground arith
  option_beq_iff none (some y) = ground arith
  option_beq_iff (some x) none = ground arith
  option_beq_iff (some x) (some y) = ground (arith, ==_iff x y)

  instance abbrev pub option_eq : Eq (Option A)
  option_eq = record { equal = option_beq; decides = option_beq_iff }

module _ {ℓ} {A : Type ℓ} ⦃e : Eq A⦄ where
  -- `a in xs`
  unfoldable pub contains : List A → A → Bool
  contains [] a = false
  contains (x ∷ xs) a = (a == x) || contains xs a

  -- `len(xs) == len(set(xs))`
  unfoldable pub distinct : List A → Bool
  distinct [] = true
  distinct (x ∷ xs) = not (contains xs x) && distinct xs

  -- `set(xs) <= set(ys)`
  unfoldable pub subset : List A → List A → Bool
  subset [] ys = true
  subset (x ∷ xs) ys = contains ys x && subset xs ys

  pub contains-append :
      (xs ys : List A) (a : A) → contains (xs ++ ys) a ≡ (contains xs a || contains ys a)
  unfolding contains
  contains-append [] ys a = refl
  contains-append (x ∷ xs) ys a = ground (arith, contains-append xs ys a)

  pub contains_of_subset :
      (xs ys : List A) (a : A) → subset xs ys ≡ true → contains xs a ≡ true → contains ys a ≡ true
  unfolding contains subset
  contains_of_subset [] ys a s h = cc
  contains_of_subset (x ∷ xs) ys a s h = ground (arith, ==_iff a x, contains_of_subset xs ys a)

  pub subset_of_contains :
      (xs ys : List A)
      → ((a : A) → contains xs a ≡ true → contains ys a ≡ true)
      → subset xs ys ≡ true
  unfolding contains subset
  subset_of_contains [] ys h = refl
  subset_of_contains (x ∷ xs) ys h =
      ground (arith, h x, ==_refl x, subset_of_contains xs ys (λ a m. h a (ground arith)))

pub ne_of_test {ℓ} : {A : Type ℓ} ⦃e : Eq A⦄ (a b : A) → (a == b) ≡ false → ¬ (a ≡ b)
ne_of_test a b h p = ground (arith, ==_iff a b)

module _ {ℓ κ} {A : Type ℓ} {B : Type κ} ⦃e : Eq A⦄ ⦃f : Eq B⦄ where
  unfoldable pub pair_beq : A × B → A × B → Bool
  pair_beq (a, b) (c, d) = a == c && b == d

  pub pair_beq_iff : (p q : A × B) → (pair_beq p q ≡ true) ↔ (p ≡ q)
  unfolding pair_beq
  pair_beq_iff (a, b) (c, d) = ground (arith, ==_iff a c, ==_iff b d)

  instance abbrev pub pair_eq : Eq (A × B)
  pair_eq = record { equal = pair_beq; decides = pair_beq_iff }
