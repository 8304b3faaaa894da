-- ===== src/ManagerConfig/Runtime/Key.antt =====
-- The authentication key of manager/manage.py: what `ensure_runtime_config` makes of random bytes passes
-- the test of `_validate_runtime_config`.
use xserver_mail_lineworks.Shared.{
  ℕ, zero, suc, ◌+◌, ◌*◌, ◌/◌, ◌%◌, ◌<◌, ◌≡◌, refl, ap₂, Bool, true, ◌&&◌, some, [], ◌∷◌, ==_iff,
  ==_refl, nat_eq, list_eq, nat_beq, ltb, and_split, all, length, arith, Text, str,
}
use xserver_mail_lineworks.ManagerConfig.Runtime.{
  bits_of, char_of, decode64, encode64, is_url_char, key_is_valid,
}

unfoldable all_below : ℕ → (ℕ → Bool) → Bool
all_below zero p = true
all_below (suc n) p = p n && all_below n p

all_below-at : (n : ℕ) (p : ℕ → Bool) (x : ℕ) → all_below n p ≡ true → x < n → p x ≡ true
unfolding all_below
all_below-at zero p x h lt = absurd (omega arith)
all_below-at (suc n) p x h lt = ground (arith, all_below-at n p x)

table : all_below 64 (λ n. nat_beq (bits_of (char_of n)) n && is_url_char (char_of n)) ≡ true
unfolding all_below bits_of char_of
table = refl

at_table : (n : ℕ) → n < 64 → (bits_of (char_of n) ≡ n) × (is_url_char (char_of n) ≡ true)
at_table n h =
    let (a, b) = and_split _ (is_url_char (char_of n)) (
      all_below-at 64 (λ n. nat_beq (bits_of (char_of n)) n && is_url_char (char_of n)) n table
        h) in
    ((==_iff (bits_of (char_of n)) n).0 a, b)

-- Bytes of which two are left after the last group of three.
abbrev LeavesTwo : Text → Type 0
LeavesTwo [] = ⊥
LeavesTwo (x ∷ []) = ⊥
LeavesTwo (x ∷ y ∷ []) = (x < 256) × (y < 256)
LeavesTwo (x ∷ y ∷ z ∷ t) = (x < 256) × (y < 256) × (z < 256) × LeavesTwo t

decode64-encode64 : (bytes : Text) → LeavesTwo bytes → decode64 (encode64 bytes) ≡ bytes
unfolding decode64 encode64
decode64-encode64 [] h = elim h [ ]
decode64-encode64 (x ∷ []) h = elim h [ ]
decode64-encode64 (x ∷ y ∷ []) (a, b) =
    rw
      (
        (at_table (x / 4) (omega arith)).0,
        (at_table (x % 4 * 16 + y / 16) (omega arith)).0,
        (at_table (y % 16 * 4) (omega arith)).0,
      )
      (ap₂ (λ u v. u ∷ v ∷ []) (omega arith) (omega arith))
decode64-encode64 (x ∷ y ∷ z ∷ t) (a, b, c, d) =
    rw
      (
        (at_table (x / 4) (omega arith)).0,
        (at_table (x % 4 * 16 + y / 16) (omega arith)).0,
        (at_table (y % 16 * 4 + z / 64) (omega arith)).0,
        (at_table (z % 64) (omega arith)).0,
        decode64-encode64 t d,
      )
      (three _ _ _ _ _ _ t (omega arith) (omega arith) (omega arith))
  where
    three : (u v w x y z : ℕ) (t : Text) → u ≡ x → v ≡ y → w ≡ z → u ∷ v ∷ w ∷ t ≡ x ∷ y ∷ z ∷ t
    three u v w x y z t a b c = cc

all-encode64 : (bytes : Text) → LeavesTwo bytes → all is_url_char (encode64 bytes) ≡ true
unfolding all encode64
all-encode64 [] h = elim h [ ]
all-encode64 (x ∷ []) h = elim h [ ]
all-encode64 (x ∷ y ∷ []) (a, b) =
    rw
      (
        (at_table (x / 4) (omega arith)).1,
        (at_table (x % 4 * 16 + y / 16) (omega arith)).1,
        (at_table (y % 16 * 4) (omega arith)).1,
      )
      refl
all-encode64 (x ∷ y ∷ z ∷ t) (a, b, c, d) =
    rw
      (
        (at_table (x / 4) (omega arith)).1,
        (at_table (x % 4 * 16 + y / 16) (omega arith)).1,
        (at_table (y % 16 * 4 + z / 64) (omega arith)).1,
        (at_table (z % 64) (omega arith)).1,
        all-encode64 t d,
      )
      refl

length-encode64 :
    (bytes : Text) → LeavesTwo bytes → 3 * length (encode64 bytes) ≡ 4 * length bytes + 1
unfolding encode64
length-encode64 [] h = elim h [ ]
length-encode64 (x ∷ []) h = elim h [ ]
length-encode64 (x ∷ y ∷ []) h = omega arith
length-encode64 (x ∷ y ∷ z ∷ t) (a, b, c, d) = omega (arith, length-encode64 t d)

bytes-LeavesTwo :
    (n : ℕ) (bytes : Text)
    → length bytes ≡ 3 * n + 2
    → all (λ c. ltb c 256) bytes ≡ true
    → LeavesTwo bytes
unfolding all
bytes-LeavesTwo n [] l h = absurd (omega arith)
bytes-LeavesTwo n (x ∷ []) l h = absurd (omega arith)
bytes-LeavesTwo n (x ∷ y ∷ []) l h = (ground arith, ground arith)
bytes-LeavesTwo zero (x ∷ y ∷ z ∷ t) l h = absurd (omega arith)
bytes-LeavesTwo (suc n) (x ∷ y ∷ z ∷ t) l h =
    (ground arith, ground arith, ground arith, bytes-LeavesTwo n t (omega arith) (ground arith))

-- The key that is made of any 32 random bytes passes the test of the key.
pub key_is_valid-encode64 :
    (bytes : Text)
    → length bytes ≡ 32
    → all (λ c. ltb c 256) bytes ≡ true
    → key_is_valid (some (str (encode64 bytes))) ≡ true
unfolding key_is_valid
key_is_valid-encode64 bytes l h =
    let two : LeavesTwo bytes = bytes-LeavesTwo 10 bytes (omega arith) h in
    let size : length (encode64 bytes) ≡ 43 = omega (arith, length-encode64 bytes two) in
    rw (size, all-encode64 bytes two, decode64-encode64 bytes two, l, ==_refl (encode64 bytes)) refl
