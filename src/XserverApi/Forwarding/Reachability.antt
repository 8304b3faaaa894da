-- ===== src/XserverApi/Forwarding/Reachability.antt =====
-- The loop of `discover_forwarding_sources` (manager/xserver_api.py) against the relation that it
-- computes.
use xserver_mail_lineworks.Shared.{
  ℕ, zero, suc, ◌+◌, ◌≤◌, ◌<◌, ◌≡◌, refl, ap, ◌⊎◌, inl, inr, Bool, true, false, not, ◌&&◌, ◌||◌,
  some, List, [], ◌∷◌, ◌++◌, ◌==◌, ==_iff, ==_refl, nat_eq, list_eq, Text, length, any, any_at,
  contains, contains-append, arith, if◌then◌else◌, Bool-cases,
}
use xserver_mail_lineworks.XserverApi.Forwarding.{Graph, additions, close}

-- `s` forwards to `d` in one step.
unfoldable pub forwards : Graph → Text → Text → Bool
forwards [] s d = false
forwards ((source, destinations) ∷ g) s d =
    (s == source && contains destinations d) || forwards g s d

-- Mail to the address comes to the base, in any number of steps.
pub data Reaches (g : Graph) (base : Text) : Text → Type 0 where
  here : Reaches g base base
  step : {s d : Text} → forwards g s d ≡ true → Reaches g base d → Reaches g base s

contains-any :
    (r ds : List Text)
    → any (contains r) ds ≡ true
    → (d : Text) × (contains ds d ≡ true) × (contains r d ≡ true)
unfolding any contains
contains-any r [] h = cc
contains-any r (d ∷ ds) h = elim (Bool-cases (contains r d)) [
  | inl y ↦ (d, rw (==_refl d), y)
  | inr n ↦ let (c, m, k) = contains-any r ds (ground arith) in (c, ground arith, k)
]

-- An addition is new, and forwards to something that was reachable.
pub additions_sound :
    (g : Graph) (r : List Text) (a : Text)
    → contains (additions g r) a ≡ true
    → (contains r a ≡ false) × (d : Text) × (forwards g a d ≡ true) × (contains r d ≡ true)
unfolding additions contains forwards
additions_sound [] r a h = cc
additions_sound ((s, ds) ∷ g) r a h =
    elim (Bool-cases (not (contains r s) && any (contains r) ds && a == s)) [
      | inl y ↦
          let (d, m, k) = contains-any r ds (ground arith) in
          let e : a ≡ s = (==_iff a s).0 (ground arith) in
          (rw e (ground arith), d, rw e (rw (==_refl s, m)), k)
      | inr n ↦
          let (fresh, d, f, k) = additions_sound g r a (ground arith) in (fresh, d, ground arith, k)
    ]

any_of_contains :
    (r ds : List Text) (d : Text)
    → contains ds d ≡ true
    → contains r d ≡ true
    → any (contains r) ds ≡ true
any_of_contains r ds d m k = any_at (contains r) ds d m k

additions_complete :
    (g : Graph) (r : List Text) (a d : Text)
    → forwards g a d ≡ true
    → contains r d ≡ true
    → contains r a ≡ false
    → contains (additions g r) a ≡ true
unfolding additions contains forwards
additions_complete [] r a d f m n = cc
additions_complete ((s, ds) ∷ g) r a d f m n = ground (
  arith,
  ==_iff a s,
  any_of_contains r ds d,
  additions_complete g r a d,
  λ (e : a ≡ s). ap (contains r) e,
)

-- The accounts that are not reachable yet.
pub unreached : Graph → List Text → ℕ
unreached [] r = 0
unreached ((s, ds) ∷ g) r = (if contains r s then 0 else 1) + unreached g r

abbrev sources : Graph → List Text
sources [] = []
sources ((s, ds) ∷ g) = s ∷ sources g

unreached_mono : (g : Graph) (r x : List Text) → unreached g (r ++ x) ≤ unreached g r
unfolding unreached
unreached_mono [] r x = omega arith
unreached_mono ((s, ds) ∷ g) r x = ground (arith, contains-append r x s, unreached_mono g r x)

unreached_drop :
    (g : Graph) (r x : List Text) (a : Text)
    → contains (sources g) a ≡ true
    → contains x a ≡ true
    → contains r a ≡ false
    → unreached g (r ++ x) < unreached g r
unfolding unreached contains
unreached_drop [] r x a m k n = cc
unreached_drop ((s, ds) ∷ g) r x a m k n = ground (
  arith,
  ==_iff a s,
  contains-append r x s,
  unreached_mono g r x,
  unreached_drop g r x a,
  λ (e : a ≡ s). ap (contains r) e,
  λ (e : a ≡ s). ap (contains x) e,
)

sources_of_forwards :
    (g : Graph) (s d : Text) → forwards g s d ≡ true → contains (sources g) s ≡ true
unfolding forwards contains
sources_of_forwards [] s d h = cc
sources_of_forwards ((x, ds) ∷ g) s d h = ground (arith, sources_of_forwards g s d)

round_drop :
    (g : Graph) (r more : List Text) (a : Text)
    → additions g r ≡ a ∷ more
    → unreached g (r ++ a ∷ more) < unreached g r
unfolding contains
round_drop g r more a e =
    let m : contains (additions g r) a ≡ true = rw e (rw (==_refl a)) in
    let (n, d, f, _) = additions_sound g r a m in
    unreached_drop g r (a ∷ more) a (sources_of_forwards g a d f) (rw (==_refl a)) n

pub unreached-le-length : (g : Graph) (r : List Text) → unreached g r ≤ length g
unfolding unreached
unreached-le-length [] r = omega arith
unreached-le-length ((s, ds) ∷ g) r = ground (arith, unreached-le-length g r)

List-cases {ℓ} :
    {A : Type ℓ} (xs : List A) → (xs ≡ []) ⊎ ((x : A) × (rest : List A) × (xs ≡ x ∷ rest))
List-cases [] = inl refl
List-cases (x ∷ xs) = inr (x, xs, refl)

-- With more fuel than there are unreached accounts the loop ends.
pub close_total :
    (n : ℕ) (g : Graph) (r : List Text)
    → unreached g r < n
    → (r' : List Text) × (close n g r ≡ some r')
unfolding close
close_total zero g r h = absurd (omega arith)
close_total (suc n) g r h = elim (List-cases (additions g r)) [
  | inl e ↦ (r, rw (e, close))
  | inr (a, more, e) ↦
      let (r', q) = close_total n g (r ++ a ∷ more) (omega (arith, round_drop g r more a e)) in
      (r', rw (e, close) q)
]

-- At the end nothing is left to add, and all that was reachable still is.
pub close_end :
    (n : ℕ) (g : Graph) (r r' : List Text)
    → close n g r ≡ some r'
    → (additions g r' ≡ []) × ((a : Text) → contains r a ≡ true → contains r' a ≡ true)
unfolding close
close_end zero g r r' h = cc
close_end (suc n) g r r' h = elim (List-cases (additions g r)) [
  | inl e ↦ let q : some r ≡ some r' = rw (e, close) at h in (ground arith, λ a m. ground arith)
  | inr (a, more, e) ↦
      let (z, keep) = close_end n g (r ++ a ∷ more) r' (rw (e, close) at h) in
      (z, λ b m. keep b (rw (contains-append r (a ∷ more) b, m)))
]

round_sound :
    (g : Graph) (base : Text) (r more : List Text)
    → additions g r ≡ more
    → ((a : Text) → contains r a ≡ true → Reaches g base a)
    → (b : Text) → contains (r ++ more) b ≡ true
    → Reaches g base b
round_sound g base r more e known b m = elim (Bool-cases (contains r b)) [
  | inl y ↦ known b y
  | inr n ↦
      let q : contains (additions g r) b ≡ true =
        ground (arith, contains-append r more b, ap (λ xs. contains xs b) e) in
      let (_, d, f, k) = additions_sound g r b q in step f (known d k)
]

pub close_sound :
    (n : ℕ) (g : Graph) (base : Text) (r r' : List Text)
    → close n g r ≡ some r'
    → ((a : Text) → contains r a ≡ true → Reaches g base a)
    → (a : Text) → contains r' a ≡ true
    → Reaches g base a
unfolding close
close_sound zero g base r r' h known a m = absurd (ground arith)
close_sound (suc n) g base r r' h known a m = elim (List-cases (additions g r)) [
  | inl e ↦ let q : some r ≡ some r' = rw (e, close) at h in known a (ground arith)
  | inr (x, more, e) ↦
      close_sound n g base (r ++ x ∷ more) r' (rw (e, close) at h)
        (round_sound g base r (x ∷ more) e known) a m
]

-- What a closed set misses does not reach the base.
pub closed_complete :
    (g : Graph) (base : Text) (r : List Text) {a : Text}
    → additions g r ≡ []
    → contains r base ≡ true
    → Reaches g base a
    → contains r a ≡ true
unfolding contains
closed_complete g base r z b here = b
closed_complete g base r {a} z b (step {d = d} f w) = ground (
  arith,
  additions_complete g r a d f (closed_complete g base r z b w),
  ap (λ xs. contains xs a) z,
)
