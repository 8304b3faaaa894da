-- ===== src/InstallJournal.antt =====
-- macos/install_transaction.py: the journal of an installation, `Journal` with `_canonical`,
-- `_envelope`, `_decode_envelope` and `_write_exclusive`. A directory has the generations of its four
-- families of files and the names of all others but `staged.app` and `trash.app`; a name with leading
-- zeros is one of the others. `json` and SHA-256 are the parameter `Format`.
pub mod Log
pub mod Examples
use xserver_mail_lineworks.Shared.{
  ℕ, zero, suc, ◌+◌, max, Bool, true, false, not, ◌&&◌, ◌||◌, Option, none, some, List, [], ◌∷◌,
  ◌++◌, ◌==◌, nat_eq, list_eq, nat_beq, ltb, contains, if◌then◌else◌, Text, codes, Json, null, bool,
  nat, str, obj, Fields, end, field, get_field, is_hex,
}
use xserver_mail_lineworks.Shared.Exec.{
  Exec, Answer, value, raised, pure, raise, gets, require, ◌>>=◌, ◌>>◌,
}
use xserver_mail_lineworks.DeliveryRecovery.{has_keys}

-- A file of the user with mode 0600 and one link, or any other entry.
pub data File : Type 0 where
  regular : Text → File
  irregular : File

-- Files of one family by their generation.
abbrev pub Family : Type 0
Family = List (ℕ × File)

pub record Dir : Type 0 where
  pub state_temps : Family
  pub states : Family
  pub pointer_temps : Family
  pub pointers : Family
  pub others : List Text

-- `RecoveryError`, and an `OSError` of the calls themselves.
pub data Failure : Type 0 where
  recovery_error os_error : Failure

pub record Format : Type 0 where
  pub canonical : Json → Text
  pub loads : Text → Option Json
  pub sha256 : Text → Text

-- `__init__`
unfoldable pub is_txn_id : Text → Bool
unfolding is_hex
is_txn_id t = is_hex 32 t

abbrev pub gens : {A : Type 0} → List (ℕ × A) → List ℕ
gens [] = []
gens ((n, f) ∷ fs) = n ∷ gens fs

unfoldable pub at : {A : Type 0} → ℕ → List (ℕ × A) → Option A
at n [] = none
at n ((m, f) ∷ fs) = let rest = at n fs in if nat_beq n m then some f else rest

unfoldable pub without : {A : Type 0} → ℕ → List (ℕ × A) → List (ℕ × A)
without n [] = []
without n ((m, f) ∷ fs) = let rest = without n fs in if nat_beq n m then rest else (m, f) ∷ rest

unfoldable pub maximum : List ℕ → ℕ
maximum [] = 0
maximum (n ∷ ns) = max n (maximum ns)

unfoldable pub insert : ℕ → List ℕ → List ℕ
insert n [] = n ∷ []
insert n (m ∷ ms) = let rest = insert n ms in if ltb m n then m ∷ rest else n ∷ m ∷ ms

unfoldable pub sort : List ℕ → List ℕ
sort [] = []
sort (n ∷ ns) = insert n (sort ns)

-- `n` numbers from the first on.
unfoldable pub range : ℕ → ℕ → List ℕ
range first zero = []
range first (suc n) = first ∷ range (suc first) n

-- `xs[:-1]`
unfoldable pub init : List ℕ → List ℕ
init [] = []
init (n ∷ []) = []
init (n ∷ m ∷ ms) = n ∷ init (m ∷ ms)

unfoldable pub take : ℕ → Text → Text
take zero t = []
take (suc n) [] = []
take (suc n) (c ∷ t) = c ∷ take n t

-- One call that changes the directory: an exclusive creation of a temporary file, or its renaming,
-- which fails if there is a file of that name.
pub data FileOp : Type 0 where
  write_state : ℕ → Text → FileOp
  name_state : ℕ → FileOp
  write_pointer_temp : ℕ → Text → FileOp
  name_pointer : ℕ → FileOp

abbrev done : Dir → Answer Failure (Unit {0}) × Dir
done d = (value tt, d)

abbrev failed : Dir → Answer Failure (Unit {0}) × Dir
failed d = (raised os_error, d)

unfoldable pub create : ℕ → Text → Family → Option Family
create n body fs = if contains (gens fs) n then none else some (fs ++ (n, regular body) ∷ [])

abbrev moved_file : ℕ → Option File → Family → Option Family
moved_file n none to = none
moved_file n (some f) to = if contains (gens to) n then none else some (to ++ (n, f) ∷ [])

-- The target family after `rename_exclusive`.
unfoldable pub moved : ℕ → Family → Family → Option Family
moved n from to = moved_file n (at n from) to

abbrev settle : Dir → (Family → Dir) → Option Family → Answer Failure (Unit {0}) × Dir
settle d change none = failed d
settle d change (some fs) = done (change fs)

unfoldable pub perform : FileOp → Exec Failure Dir (Unit {0})
perform (write_state n body) d =
    settle d (λ fs. record d { state_temps = fs }) (create n body d.state_temps)
perform (name_state n) d =
    settle d (λ fs. record d { state_temps = without n d.state_temps; states = fs })
      (moved n d.state_temps d.states)
perform (write_pointer_temp n body) d =
    settle d (λ fs. record d { pointer_temps = fs }) (create n body d.pointer_temps)
perform (name_pointer n) d =
    settle d (λ fs. record d { pointer_temps = without n d.pointer_temps; pointers = fs })
      (moved n d.pointer_temps d.pointers)

unfoldable pub perform_all : List FileOp → Exec Failure Dir (Unit {0})
perform_all [] = pure tt
perform_all (op ∷ ops) = perform op >> perform_all ops

abbrev read_file : Option File → Exec Failure Dir Text
read_file none = raise os_error
read_file (some irregular) = raise recovery_error
read_file (some (regular body)) = pure (take 65537 body)

-- `_read_regular`
unfoldable pub read_regular : (Dir → Family) → ℕ → Exec Failure Dir Text
read_regular family n = do file ← gets (λ d. at n (family d)); read_file file

-- Python's `==` between a value and a number, or a text.
abbrev equals_nat : ℕ → Option Json → Bool
equals_nat n (some (nat m)) = nat_beq m n
equals_nat n (some (bool true)) = nat_beq n 1
equals_nat n (some (bool false)) = nat_beq n 0
equals_nat n _ = false

abbrev equals_text : Text → Option Json → Bool
equals_text t (some (str s)) = s == t
equals_text t _ = false

abbrev dict_at : Option Json → Option Fields
dict_at (some (obj fs)) = some fs
dict_at _ = none

unfoldable pub next_generation : Dir → ℕ
next_generation d = maximum (gens d.states) + 1
