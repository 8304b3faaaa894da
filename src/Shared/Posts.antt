-- ===== src/Shared/Posts.antt =====
-- What must be shown of a method that may raise, one step at a time: for each primitive, its errors
-- and what comes next.
use mathlib.Core.Path.{◌≡◌, refl}
use mathlib.Core.Bool.{Bool, true, false}
use mathlib.Core.Option.{Option, none, some}
use xserver_mail_lineworks.Shared.Exec.{Exec, Answer, value, raised, proceed, pure, require, ◌>>=◌}

module _ {E S : Type 0} where
  -- `none` raises.
  unfoldable pub need : {B : Type 0} → E → Option B → Exec E S B
  need e none s = (raised e, s)
  need e (some b) s = (value b, s)

module _ {E S A : Type 0} (Q : Answer E A × S → Type 0) where
  pub pure-Post :
      {B : Type 0} (b : B) (f : B → Exec E S A) (s : S) → Q (f b s) → Q ((pure b >>= f) s)
  unfolding ◌>>=◌
  pure-Post b f s q = q

  pub require-Post :
      (t : Bool) (e : E) (f : Unit {0} → Exec E S A) (s : S)
      → Q (raised e, s)
      → (t ≡ true → Q (f tt s))
      → Q ((require t e >>= f) s)
  unfolding ◌>>=◌
  require-Post true e f s fail next = next refl
  require-Post false e f s fail next = fail

  pub need-Post :
      {B : Type 0} (e : E) (o : Option B) (f : B → Exec E S A) (s : S)
      → Q (raised e, s)
      → ((b : B) → o ≡ some b → Q (f b s))
      → Q ((need e o >>= f) s)
  unfolding need ◌>>=◌
  need-Post e none f s fail next = fail
  need-Post e (some b) f s fail next = next b refl

  -- A call of which nothing else is known.
  pub call-Post :
      {B : Type 0} (m : Exec E S B) (f : B → Exec E S A) (s : S)
      → ((e : E) (t : S) → m s ≡ (raised e, t) → Q (raised e, t))
      → ((b : B) (t : S) → m s ≡ (value b, t) → Q (f b t))
      → Q ((m >>= f) s)
  unfolding ◌>>=◌
  call-Post {B} m f s fail next = go (m s) refl
    where
      go : (r : Answer E B × S) → m s ≡ r → Q (proceed r.0 f r.1)
      go (value b, t) e = next b t e
      go (raised x, t) e = fail x t e

  pub assoc-Post :
      {B C : Type 0} (m : Exec E S C) (g : C → Exec E S B) (f : B → Exec E S A) (s : S)
      → Q ((m >>= λ c. g c >>= f) s)
      → Q (((m >>= g) >>= f) s)
  unfolding ◌>>=◌
  assoc-Post {B} {C} m g f s q = go (m s) q
    where
      go :
          (r : Answer E C × S)
          → Q (proceed r.0 (λ c t. proceed (g c t).0 f (g c t).1) r.1)
          → Q (proceed (proceed r.0 g r.1).0 f (proceed r.0 g r.1).1)
      go (value c, t) q = q
      go (raised e, t) q = q
