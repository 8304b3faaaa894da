-- ===== src/Shared/JsonSpelling.antt =====
-- A concrete spelling of JSON for the tests: the length stands before each text, and a budget that
-- suffices for the reading in front.
use xserver_mail_lineworks.Shared.{
  ℕ, zero, suc, ◌+◌, ◌≤◌, ◌≡◌, refl, true, false, Option, none, some, [], ◌∷◌, ◌++◌, length, arith,
  Text, Json, null, bool, nat, number, str, arr, obj, Items, nil, item, Fields, end, field,
}
use mathlib.Core.List.{append_assoc}

abbrev with_text : Text → Text → Text
with_text t r = length t ∷ (t ++ r)

unfoldable mutual
  spell : Json → Text → Text
  spell null r = 0 ∷ r
  spell (bool true) r = 1 ∷ r
  spell (bool false) r = 2 ∷ r
  spell (nat n) r = 3 ∷ n ∷ r
  spell (number t) r = 4 ∷ with_text t r
  spell (str t) r = 5 ∷ with_text t r
  spell (arr vs) r = 6 ∷ spell_items vs r
  spell (obj fs) r = 7 ∷ spell_fields fs r

  spell_items : Items → Text → Text
  spell_items nil r = 0 ∷ r
  spell_items (item v vs) r = 1 ∷ spell v (spell_items vs r)

  spell_fields : Fields → Text → Text
  spell_fields end r = 0 ∷ r
  spell_fields (field k v fs) r = 1 ∷ with_text k (spell v (spell_fields fs r))

unfoldable mutual
  size : Json → ℕ
  size (arr vs) = suc (size_items vs)
  size (obj fs) = suc (size_fields fs)
  size _ = 1

  size_items : Items → ℕ
  size_items nil = 1
  size_items (item v vs) = suc (size v + size_items vs)

  size_fields : Fields → ℕ
  size_fields end = 1
  size_fields (field k v fs) = suc (size v + size_fields fs)

infixl 5 ◌>>=◌
abbrev ◌>>=◌ {ℓ κ} : {A : Type ℓ} {B : Type κ} → Option A → (A → Option B) → Option B
none >>= f = none
some a >>= f = f a

unfoldable take_text : ℕ → Text → Option (Text × Text)
take_text zero r = some ([], r)
take_text (suc n) [] = none
take_text (suc n) (c ∷ r) = take_text n r >>= λ p. some (c ∷ p.0, p.1)

abbrev sized_text : Text → Option (Text × Text)
sized_text [] = none
sized_text (n ∷ r) = take_text n r

unfoldable mutual
  parse : ℕ → Text → Option (Json × Text)
  parse (suc f) (zero ∷ r) = some (null, r)
  parse (suc f) ((suc zero) ∷ r) = some (bool true, r)
  parse (suc f) ((suc (suc zero)) ∷ r) = some (bool false, r)
  parse (suc f) ((suc (suc (suc zero))) ∷ n ∷ r) = some (nat n, r)
  parse (suc f) ((suc (suc (suc (suc zero)))) ∷ r) = sized_text r >>= λ p. some (number p.0, p.1)
  parse (suc f) ((suc (suc (suc (suc (suc zero))))) ∷ r) = sized_text r >>= λ p. some (str p.0, p.1)
  parse (suc f) ((suc (suc (suc (suc (suc (suc zero)))))) ∷ r) =
      parse_items f r >>= λ p. some (arr p.0, p.1)
  parse (suc f) ((suc (suc (suc (suc (suc (suc (suc zero))))))) ∷ r) =
      parse_fields f r >>= λ p. some (obj p.0, p.1)
  parse _ _ = none

  parse_items : ℕ → Text → Option (Items × Text)
  parse_items (suc f) (zero ∷ r) = some (nil, r)
  parse_items (suc f) ((suc zero) ∷ r) =
      parse f r >>= λ p. parse_items f p.1 >>= λ q. some (item p.0 q.0, q.1)
  parse_items _ _ = none

  parse_fields : ℕ → Text → Option (Fields × Text)
  parse_fields (suc f) (zero ∷ r) = some (end, r)
  parse_fields (suc f) ((suc zero) ∷ r) = sized_text r >>= λ k.
      parse f k.1 >>= λ p. parse_fields f p.1 >>= λ q. some (field k.0 p.0 q.0, q.1)
  parse_fields _ _ = none

take_text-append : (t r : Text) → take_text (length t) (t ++ r) ≡ some (t, r)
unfolding take_text
take_text-append [] r = refl
take_text-append (c ∷ t) r = rw (take_text-append t r)

size_pos : (v : Json) → 1 ≤ size v
unfolding size
size_pos (arr vs) = omega arith
size_pos (obj fs) = omega arith
size_pos _ = omega arith

mutual
  unfolding parse spell size parse_items spell_items size_items parse_fields spell_fields
      size_fields

  parse-spell : (f : ℕ) (v : Json) (r : Text) → size v ≤ f → parse f (spell v r) ≡ some (v, r)
  parse-spell zero v r h = absurd (omega (arith, size_pos v))
  parse-spell (suc f) null r h = refl
  parse-spell (suc f) (bool true) r h = refl
  parse-spell (suc f) (bool false) r h = refl
  parse-spell (suc f) (nat n) r h = refl
  parse-spell (suc f) (number t) r h = rw (take_text-append t r)
  parse-spell (suc f) (str t) r h = rw (take_text-append t r)
  parse-spell (suc f) (arr vs) r h = rw (parse-spell_items f vs r (omega arith))
  parse-spell (suc f) (obj fs) r h = rw (parse-spell_fields f fs r (omega arith))

  parse-spell_items :
      (f : ℕ) (vs : Items) (r : Text)
      → size_items vs ≤ f
      → parse_items f (spell_items vs r) ≡ some (vs, r)
  parse-spell_items zero nil r h = absurd (omega arith)
  parse-spell_items zero (item v vs) r h = absurd (omega arith)
  parse-spell_items (suc f) nil r h = refl
  parse-spell_items (suc f) (item v vs) r h =
      rw (parse-spell f v (spell_items vs r) (omega arith), parse-spell_items f vs r (omega arith))

  parse-spell_fields :
      (f : ℕ) (fs : Fields) (r : Text)
      → size_fields fs ≤ f
      → parse_fields f (spell_fields fs r) ≡ some (fs, r)
  parse-spell_fields zero end r h = absurd (omega arith)
  parse-spell_fields zero (field k v fs) r h = absurd (omega arith)
  parse-spell_fields (suc f) end r h = refl
  parse-spell_fields (suc f) (field k v fs) r h = rw (
    take_text-append k (spell v (spell_fields fs r)),
    parse-spell f v (spell_fields fs r) (omega arith),
    parse-spell_fields f fs r (omega arith),
  )

abbrev first : Option (Json × Text) → Option Json
first none = none
first (some (v, r)) = some v

unfoldable pub loads : Text → Option Json
unfolding parse take_text
loads [] = none
loads (n ∷ r) = first (parse n r)

unfoldable pub dumps : Json → Text
unfolding spell size
dumps v = size v ∷ spell v []

mutual
  unfolding spell spell_items spell_fields

  spell-append : (v : Json) (r z : Text) → spell v r ++ z ≡ spell v (r ++ z)
  spell-append null r z = refl
  spell-append (bool true) r z = refl
  spell-append (bool false) r z = refl
  spell-append (nat n) r z = refl
  spell-append (number t) r z = rw (append_assoc t r z) refl
  spell-append (str t) r z = rw (append_assoc t r z) refl
  spell-append (arr vs) r z = rw (spell_items-append vs r z) refl
  spell-append (obj fs) r z = rw (spell_fields-append fs r z) refl

  spell_items-append : (vs : Items) (r z : Text) → spell_items vs r ++ z ≡ spell_items vs (r ++ z)
  spell_items-append nil r z = refl
  spell_items-append (item v vs) r z =
      rw (spell-append v (spell_items vs r) z, spell_items-append vs r z) refl

  spell_fields-append :
      (fs : Fields) (r z : Text) → spell_fields fs r ++ z ≡ spell_fields fs (r ++ z)
  spell_fields-append end r z = refl
  spell_fields-append (field k v fs) r z =
      rw
        (
          append_assoc k (spell v (spell_fields fs r)) z,
          spell-append v (spell_fields fs r) z,
          spell_fields-append fs r z,
        )
        refl

le_refl : (n : ℕ) → n ≤ n
le_refl n = omega arith

pub loads-dumps : (v : Json) (r : Text) → loads (dumps v ++ r) ≡ some v
unfolding loads dumps
loads-dumps v r = rw (spell-append v [] r, parse-spell (size v) v r (le_refl (size v))) refl
