-- ===== src/Shared/Exec.antt =====
-- Methods that change objects and may raise: what was written before a raise stays written.
use mathlib.Core.Path.{◌≡◌, refl}
use mathlib.Core.Bool.{Bool, true, false}
use mathlib.Core.Logic.{◌⊎◌, inl, inr}
use xserver_mail_lineworks.Shared.Tests.{if_at, if◌then◌else◌, if_both}

pub data Answer (E A : Type 0) : Type 0 where
  value : A → Answer E A
  raised : E → Answer E A

pub Answer-cases :
    {E A : Type 0} (r : Answer E A) → ((a : A) × (r ≡ value a)) ⊎ ((e : E) × (r ≡ raised e))
Answer-cases (value a) = inl (a, refl)
Answer-cases (raised e) = inr (e, refl)

abbrev pub Exec : Type 0 → Type 0 → Type 0 → Type 0
Exec E S A = S → Answer E A × S

module _ {E S A : Type 0} where
  unfoldable pub pure : A → Exec E S A
  pure a s = (value a, s)

  unfoldable pub raise : E → Exec E S A
  raise e s = (raised e, s)

  unfoldable pub gets : (S → A) → Exec E S A
  gets f s = (value (f s), s)

  -- `if test: … else: …`, where the test reads the state
  unfoldable pub branch : (S → Bool) → Exec E S A → Exec E S A → Exec E S A
  branch test m n s = if test s then m s else n s

module _ {E S : Type 0} where
  unfoldable pub require : Bool → E → Exec E S (Unit {0})
  require true e s = (value tt, s)
  require false e s = (raised e, s)

module _ {E S A B : Type 0} where
  abbrev pub proceed : Answer E A → (A → Exec E S B) → Exec E S B
  proceed (value a) f s = f a s
  proceed (raised e) f s = (raised e, s)

  infixl 10 ◌>>=◌ ◌>>◌
  -- Opening this opens `pure`, `raise`, `gets`, `branch` and `require` too.
  unfoldable pub ◌>>=◌ : Exec E S A → (A → Exec E S B) → Exec E S B
  unfolding pure raise gets branch require
  ◌>>=◌ m f s = let (r, t) = m s in proceed r f t

  abbrev pub ◌>>◌ : Exec E S A → Exec E S B → Exec E S B
  m >> n = m >>= λ _. n

-- An action keeps a property of the state, whether it returns or raises.
pub record Keeps {E S A : Type 0} (P : S → Type 0) (m : Exec E S A) : Type 0 where
  pub at : (s : S) → P s → P (m s).1

module _ {E S A : Type 0} {P : S → Type 0} where
  pub Keeps-gets : (f : S → A) → Keeps {E = E} P (gets f)
  unfolding gets
  Keeps-gets f = record { at = λ t p. p }

  pub Keeps-pure : (a : A) → Keeps {E = E} P (pure a)
  unfolding pure
  Keeps-pure a = record { at = λ s h. h }

  pub Keeps-raise : (e : E) → Keeps {A = A} P (raise e)
  unfolding raise
  Keeps-raise e = record { at = λ t p. p }

  pub Keeps-branch :
      (test : S → Bool) (m n : Exec E S A) → Keeps P m → Keeps P n → Keeps P (branch test m n)
  unfolding branch
  Keeps-branch test m n km kn = record {
    at = λ s h.
        if_both (λ (r : Answer E A × S). P r.1) (test s) {x = m s} {y = n s} (km.at s h)
          (kn.at s h);
  }

module _ {E S : Type 0} {P : S → Type 0} where
  pub Keeps-require : (b : Bool) (e : E) → Keeps P (require b e)
  unfolding require
  Keeps-require true e = record { at = λ s h. h }
  Keeps-require false e = record { at = λ s h. h }

module _ {E S A B : Type 0} {P : S → Type 0} where
  proceed-Keeps :
      (r : Answer E A) (f : A → Exec E S B) (s : S)
      → ((a : A) → Keeps P (f a))
      → P s
      → P (proceed r f s).1
  proceed-Keeps (value a) f s k h = (k a).at s h
  proceed-Keeps (raised e) f s k h = h

  -- What holds after the first action is kept by the rest.
  pub bind_after :
      (m : Exec E S A) (f : A → Exec E S B) (s : S)
      → P (m s).1
      → ((a : A) → Keeps P (f a))
      → P ((m >>= f) s).1
  unfolding ◌>>=◌
  bind_after m f s h kf = let (r, t) = m s in proceed-Keeps r f t kf h

  pub Keeps-bind :
      (first : Exec E S A) (next : A → Exec E S B)
      → Keeps P first
      → ((a : A) → Keeps P (next a))
      → Keeps P (first >>= next)
  unfolding ◌>>=◌
  Keeps-bind first next kept then_kept = record {
    at = λ t p. let (r, u) = first t in proceed-Keeps r next u then_kept (kept.at t p);
  }

module _ {E S A B : Type 0} (P : S → Type 0) where
  pub proceed-at :
      (r : Answer E A) (f : A → Exec E S B) (s : S)
      → P s
      → ((a : A) → P (f a s).1)
      → P (proceed r f s).1
  proceed-at (value a) f s h k = k a
  proceed-at (raised e) f s h k = h

module _ {E S A : Type 0} (P : S → Type 0) where
  pub branch-at :
      (test : S → Bool) (m n : Exec E S A) (s : S)
      → (test s ≡ true → P (m s).1)
      → P (n s).1
      → P (branch test m n s).1
  unfolding branch
  branch-at test m n s on_true on_false =
      if_at (λ (r : Answer E A × S). P r.1) (test s) {x = m s} {y = n s} on_true on_false

pub ruleset keeps_rules =
    (Keeps-pure, Keeps-raise, Keeps-gets, Keeps-branch, Keeps-require, Keeps-bind)
