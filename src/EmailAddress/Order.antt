-- ===== src/EmailAddress/Order.antt =====
-- `sorted(set(…), key=…)` of manager/email_address.py: the result is strictly increasing, has the
-- same members, and is determined by them.
use xserver_mail_lineworks.Shared.{
  ℕ, ◌≡◌, refl, sym, ◌≢◌, ◌∙◌, ap, ap₂, Bool, true, false, ◌&&◌, ◌||◌, List, [], ◌∷◌, ◌==◌, ==_iff,
  ==_refl, nat_eq, list_eq, Text, contains, arith, and_split,
}
use xserver_mail_lineworks.EmailAddress.{text_lt, insert_unique, sort_unique}

pub text_lt_irrefl : (s : Text) → text_lt s s ≡ false
unfolding text_lt
text_lt_irrefl [] = refl
text_lt_irrefl (c ∷ s) = ground (arith, text_lt_irrefl s)

pub text_lt_trans : (s t u : Text) → text_lt s t ≡ true → text_lt t u ≡ true → text_lt s u ≡ true
unfolding text_lt
text_lt_trans [] [] u p q = cc
text_lt_trans [] (d ∷ t) [] p q = cc
text_lt_trans [] (d ∷ t) (e ∷ u) p q = refl
text_lt_trans (c ∷ s) [] u p q = cc
text_lt_trans (c ∷ s) (d ∷ t) [] p q = cc
text_lt_trans (c ∷ s) (d ∷ t) (e ∷ u) p q = ground (arith, text_lt_trans s t u)

pub text_lt-total : (s t : Text) → text_lt s t ≡ false → s ≢ t → text_lt t s ≡ true
unfolding text_lt
text_lt-total [] [] p d = absurd (d refl)
text_lt-total [] (x ∷ t) p d = cc
text_lt-total (c ∷ s) [] p d = refl
text_lt-total (c ∷ s) (x ∷ t) p d =
    ground
      (arith, text_lt-total s t, λ (e : c ≡ x) (f : s ≡ t). ap₂ (λ (a : ℕ) (b : Text). a ∷ b) e f)

-- Every entry of the list comes after `x`.
unfoldable pub above : Text → List Text → Bool
above x [] = true
above x (y ∷ ys) = text_lt x y && above x ys

-- Strictly increasing.
unfoldable pub is_increasing : List Text → Bool
is_increasing [] = true
is_increasing (x ∷ xs) = above x xs && is_increasing xs

pub contains-insert_unique :
    (x : Text) (ys : List Text) (a : Text)
    → contains (insert_unique x ys) a ≡ ((a == x) || contains ys a)
unfolding insert_unique contains
contains-insert_unique x [] a = refl
contains-insert_unique x (y ∷ ys) a =
    ground (arith, contains-insert_unique x ys a, ==_iff x y, ==_iff a x, ==_iff a y)

pub contains-sort_unique : (xs : List Text) (a : Text) → contains (sort_unique xs) a ≡ contains xs a
unfolding sort_unique contains
contains-sort_unique [] a = refl
contains-sort_unique (x ∷ xs) a =
    contains-insert_unique x (sort_unique xs) a
    ∙ ap (λ b. (a == x) || b) (contains-sort_unique xs a)

above_trans :
    (x y : Text) (ys : List Text) → text_lt x y ≡ true → above y ys ≡ true → above x ys ≡ true
unfolding above
above_trans x y [] l h = refl
above_trans x y (z ∷ zs) l h = ground (arith, text_lt_trans x y z, above_trans x y zs)

above-insert_unique :
    (x y : Text) (ys : List Text)
    → text_lt y x ≡ true
    → above y ys ≡ true
    → above y (insert_unique x ys) ≡ true
unfolding above insert_unique
above-insert_unique x y [] l h = ground arith
above-insert_unique x y (z ∷ zs) l h = ground (arith, above-insert_unique x y zs)

insert_unique-is_increasing :
    (x : Text) (ys : List Text)
    → is_increasing ys ≡ true
    → is_increasing (insert_unique x ys) ≡ true
unfolding above insert_unique is_increasing
insert_unique-is_increasing x [] h = refl
insert_unique-is_increasing x (y ∷ ys) h = ground (
  arith,
  ==_iff x y,
  text_lt-total x y,
  above_trans x y ys,
  above-insert_unique x y ys,
  insert_unique-is_increasing x ys,
)

pub sort_unique-is_increasing : (xs : List Text) → is_increasing (sort_unique xs) ≡ true
unfolding sort_unique is_increasing
sort_unique-is_increasing [] = refl
sort_unique-is_increasing (x ∷ xs) =
    insert_unique-is_increasing x (sort_unique xs) (sort_unique-is_increasing xs)

above-lt :
    (x : Text) (ys : List Text) (a : Text)
    → above x ys ≡ true
    → contains ys a ≡ true
    → text_lt x a ≡ true
unfolding above contains
above-lt x [] a h m = cc
above-lt x (y ∷ ys) a h m =
    ground (arith, ==_iff a y, above-lt x ys a, λ (e : a ≡ y). ap (text_lt x) e)

above-not_member : (x : Text) (ys : List Text) → above x ys ≡ true → contains ys x ≡ false
above-not_member x ys h = ground (arith, above-lt x ys x h, text_lt_irrefl x)

heads_agree :
    (x y : Text) (xs ys : List Text)
    → above x xs ≡ true
    → above y ys ≡ true
    → contains (x ∷ xs) y ≡ true
    → contains (y ∷ ys) x ≡ true
    → x ≡ y
unfolding contains
heads_agree x y xs ys a b m n = ground (
  arith,
  ==_iff x y,
  ==_iff y x,
  above-lt x xs y,
  above-lt y ys x,
  text_lt_trans x y x,
  text_lt_irrefl x,
)

tail_members :
    (x a : Text) (xs ys : List Text)
    → above x xs ≡ true
    → above x ys ≡ true
    → contains (x ∷ xs) a ≡ contains (x ∷ ys) a
    → contains xs a ≡ contains ys a
unfolding contains
tail_members x a xs ys p q e = ground (
  arith,
  ==_iff a x,
  above-not_member x xs,
  above-not_member x ys,
  λ (f : a ≡ x). ap (contains xs) f,
  λ (f : a ≡ x). ap (contains ys) f,
)

-- Two increasing lists with the same members are one list.
pub increasing_ext :
    (xs ys : List Text)
    → is_increasing xs ≡ true
    → is_increasing ys ≡ true
    → ((a : Text) → contains xs a ≡ contains ys a)
    → xs ≡ ys
unfolding is_increasing contains
increasing_ext [] [] p q e = refl
increasing_ext [] (y ∷ ys) p q e = ground (arith, e y, ==_refl y)
increasing_ext (x ∷ xs) [] p q e = ground (arith, e x, ==_refl x)
increasing_ext (x ∷ xs) (y ∷ ys) p q e =
    let (ax, px) = and_split (above x xs) (is_increasing xs) p in
    let (ay, py) = and_split (above y ys) (is_increasing ys) q in
    let same : x ≡ y =
      heads_agree x y xs ys ax ay (ground (arith, e y, ==_refl y))
        (ground (arith, e x, ==_refl x)) in
    ap₂ (λ (z : Text) (zs : List Text). z ∷ zs) same
      (increasing_ext xs ys px py
        λ a. tail_members x a xs ys ax (rw (same) ay) (rw (same) (rw same at (e a))))

-- Sorting depends on the members alone, not on their order or on repetitions.
pub sort_unique-ext :
    (xs ys : List Text)
    → ((a : Text) → contains xs a ≡ contains ys a)
    → sort_unique xs ≡ sort_unique ys
sort_unique-ext xs ys e =
    increasing_ext (sort_unique xs) (sort_unique ys) (sort_unique-is_increasing xs)
      (sort_unique-is_increasing ys)
      λ a. contains-sort_unique xs a ∙ e a ∙ sym (contains-sort_unique ys a)

pub sort_unique_of_increasing : (xs : List Text) → is_increasing xs ≡ true → sort_unique xs ≡ xs
sort_unique_of_increasing xs h =
    increasing_ext (sort_unique xs) xs (sort_unique-is_increasing xs) h (contains-sort_unique xs)
