-- ===== src/InstallJournal/Log/Families.antt =====
-- Families of files that are numbered from one on, as the journal of macos/install_transaction.py
-- keeps them: their generations, the greatest of them, and what is found under each.
use xserver_mail_lineworks.Shared.{
  ℕ, zero, suc, ◌+◌, ◌≤◌, ◌<◌, ◌≡◌, refl, ◌∙◌, ap, false, some, List, [], ◌∷◌, ◌++◌, nat_eq,
  list_eq, contains, length, arith,
}
use xserver_mail_lineworks.InstallJournal.{gens, at, maximum, insert, sort, range, init, without}

add-zero : (k : ℕ) → k + 0 ≡ k
add-zero k = omega arith

shift : (k n : ℕ) → suc k + n ≡ k + suc n
shift k n = omega arith

-- The items numbered from `first` on.
unfoldable pub numbered : {A : Type 0} → ℕ → List A → List (ℕ × A)
numbered first [] = []
numbered first (x ∷ xs) = (first, x) ∷ numbered (suc first) xs

module _ {A : Type 0} where
  pub gens-numbered : (k : ℕ) (xs : List A) → gens (numbered k xs) ≡ range k (length xs)
  unfolding numbered range
  gens-numbered k [] = refl
  gens-numbered k (x ∷ xs) = ap (λ ns. k ∷ ns) (gens-numbered (suc k) xs)

  pub numbered-append :
      (k : ℕ) (xs : List A) (x : A)
      → numbered k (xs ++ x ∷ []) ≡ numbered k xs ++ (k + length xs, x) ∷ []
  unfolding numbered
  numbered-append k [] x = rw (add-zero k) refl
  numbered-append k (y ∷ ys) x = rw (numbered-append (suc k) ys x, shift k (length ys)) refl

  pub at_end :
      (fs : List (ℕ × A)) (n : ℕ) (x : A)
      → contains (gens fs) n ≡ false
      → at n (fs ++ (n, x) ∷ []) ≡ some x
  unfolding at contains
  at_end [] n x h = ground arith
  at_end ((m, y) ∷ fs) n x h = ground (arith, at_end fs n x)

  pub without_only : (n : ℕ) (x : A) → without n ((n, x) ∷ []) ≡ []
  unfolding without
  without_only n x = ground arith

  -- Under each number from `first` on there is the next item.
  abbrev pub Found : List (ℕ × A) → ℕ → List A → Type 0
  Found fs first [] = Unit {0}
  Found fs first (x ∷ xs) = (at first fs ≡ some x) × Found fs (suc first) xs

  pub Found-before :
      (fs : List (ℕ × A)) (k : ℕ) (xs : List A) (x : A) → Found fs k (xs ++ x ∷ []) → Found fs k xs
  Found-before fs k [] x f = tt
  Found-before fs k (y ∷ ys) x (e, f) = (e, Found-before fs (suc k) ys x f)

  Found-below :
      (fs : List (ℕ × A)) (m : ℕ) (y : A) (k : ℕ) (xs : List A)
      → m < k
      → Found fs k xs
      → Found ((m, y) ∷ fs) k xs
  unfolding at
  Found-below fs m y k [] h f = tt
  Found-below fs m y k (x ∷ xs) h (e, f) =
      (ground arith, Found-below fs m y (suc k) xs (omega arith) f)

  pub Found-numbered : (k : ℕ) (xs : List A) → Found (numbered k xs) k xs
  unfolding numbered at
  Found-numbered k [] = tt
  Found-numbered k (x ∷ xs) = (
    ground arith,
    Found-below (numbered (suc k) xs) k x (suc k) xs (omega arith) (Found-numbered (suc k) xs),
  )

range-append : (k n : ℕ) → range k (suc n) ≡ range k n ++ (k + n) ∷ []
unfolding range
range-append k zero = rw (add-zero k) refl
range-append k (suc n) = ap (λ ns. k ∷ ns) (rw (← shift k n) (range-append (suc k) n))

pub sort-range : (k n : ℕ) → sort (range k n) ≡ range k n
unfolding sort range insert
sort-range k zero = refl
sort-range k (suc zero) = refl
sort-range k (suc (suc n)) = rw (sort-range (suc k) (suc n)) (ground arith)

pub init-range : (k n : ℕ) → init (range k (suc n)) ≡ range k n
unfolding init range
init-range k zero = refl
init-range k (suc n) = ap (λ ns. k ∷ ns) (init-range (suc k) n)

maximum_from : (k n : ℕ) → maximum (range k (suc n)) ≡ k + n
unfolding maximum range
maximum_from k zero = ground arith
maximum_from k (suc n) = rw (maximum_from (suc k) n) (ground arith)

pub maximum-range : (n : ℕ) → maximum (range 1 n) ≡ n
unfolding maximum range
maximum-range zero = refl
maximum-range (suc n) = maximum_from 1 n ∙ omega arith

pub contains-range : (k n m : ℕ) → k + n ≤ m → contains (range k n) m ≡ false
unfolding contains range
contains-range k zero m h = refl
contains-range k (suc n) m h = ground (arith, contains-range (suc k) n m)
