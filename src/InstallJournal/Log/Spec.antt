-- ===== src/InstallJournal/Log/Spec.antt =====
-- What the journal of macos/install_transaction.py stands for: a log of phases with their details, of
-- which the directory has one state and one pointer each.
use xserver_mail_lineworks.Shared.{
  ℕ, zero, suc, ◌+◌, ◌≤◌, ◌≡◌, refl, ap, Bool, true, ◌&&◌, some, List, [], ◌∷◌, ◌++◌, nat_eq,
  list_eq, list_beq, all, length, arith, Text, codes, Json, nat, str, arr, obj, Items, nil, item,
  Fields, end, field, get_field, ==_refl,
}
use xserver_mail_lineworks.EmailAddress.{text_lt}
use xserver_mail_lineworks.DeliveryRecovery.{has_keys}
use xserver_mail_lineworks.InstallJournal.{File, regular, Dir, Format, take}
use xserver_mail_lineworks.InstallJournal.Log.{
  payload_of, checksum, envelope, decode_envelope, pointer_body, pointer_matches,
}
use xserver_mail_lineworks.InstallJournal.Log.Families.{numbered}

abbrev first_after : Text → Fields → Bool
first_after k end = true
first_after k (field j v fs) = text_lt k j

-- Every dictionary has its keys in increasing order, as `sort_keys` writes them.
unfoldable mutual
  pub is_sorted : Json → Bool
  is_sorted (arr vs) = sorted_items vs
  is_sorted (obj fs) = sorted_fields fs
  is_sorted _ = true

  pub sorted_items : Items → Bool
  sorted_items nil = true
  sorted_items (item v vs) = is_sorted v && sorted_items vs

  pub sorted_fields : Fields → Bool
  sorted_fields end = true
  sorted_fields (field k v fs) = is_sorted v && first_after k fs && sorted_fields fs

-- `json.loads` reads what `json.dumps` with sorted keys wrote.
pub record IsFormat (format : Format) : Type 0 where
  pub prints :
      (v : Json) → is_sorted v ≡ true → format.loads (format.canonical v ++ b'\n' ∷ []) ≡ some v

-- A phase and its details.
abbrev pub Entry : Type 0
Entry = Text × Json

unfoldable pub each : {B : Type 0} → (ℕ → Entry → B) → ℕ → List Entry → List B
each f k [] = []
each f k (e ∷ es) = f k e ∷ each f (suc k) es

module _ {B : Type 0} (f : ℕ → Entry → B) where
  pub length-each : (k : ℕ) (es : List Entry) → length (each f k es) ≡ length es
  unfolding each
  length-each k [] = refl
  length-each k (e ∷ es) = ap suc (length-each (suc k) es)

  pub each-append :
      (k : ℕ) (es : List Entry) (e : Entry)
      → each f k (es ++ e ∷ []) ≡ each f k es ++ f (k + length es) e ∷ []
  unfolding each
  each-append k [] e = rw (add-zero k) refl
    where
      add-zero : (k : ℕ) → k + 0 ≡ k
      add-zero k = omega arith
  each-append k (d ∷ es) e = rw (each-append (suc k) es e, shift k (length es)) refl
    where
      shift : (k n : ℕ) → suc k + n ≡ k + suc n
      shift k n = omega arith

pub take_all : (n : ℕ) (t : Text) → length t ≤ n → take n t ≡ t
unfolding take
take_all zero [] h = refl
take_all zero (c ∷ t) h = absurd (omega arith)
take_all (suc n) [] h = refl
take_all (suc n) (c ∷ t) h = ap (λ s. c ∷ s) (take_all n t (omega arith))

module _ (format : Format) (txn_id : Text) where
  abbrev pub payload : ℕ → Entry → Fields
  payload n (phase, details) = payload_of format txn_id n phase details

  abbrev pub state_file : ℕ → Entry → File
  state_file n e = regular (envelope format txn_id (payload n e))

  abbrev pub pointer_file : ℕ → Entry → File
  pointer_file n e = regular (pointer_body format txn_id n (payload n e))

  -- The generation's files can be read back: they have at most 65,537 bytes, and the details' keys
  -- are in the order of `sort_keys`.
  abbrev pub Fits : ℕ → Entry → Type 0
  Fits n (phase, details) =
      (is_sorted details ≡ true)
      × (length (envelope format txn_id (payload_of format txn_id n phase details)) ≤ 65537)
      × (length (pointer_body format txn_id n (payload_of format txn_id n phase details)) ≤ 65537)

  abbrev pub AllFit : ℕ → List Entry → Type 0
  AllFit n [] = Unit {0}
  AllFit n (e ∷ es) = Fits n e × AllFit (suc n) es

  -- The directory of a log, of which the pointers have been written for `pointed`.
  abbrev pub pointed_dir : List Entry → List Entry → Dir
  pointed_dir log pointed = record {
    state_temps = [];
    states = numbered 1 (each state_file 1 log);
    pointer_temps = [];
    pointers = numbered 1 (each pointer_file 1 pointed);
    others = [];
  }

  abbrev pub dir_of : List Entry → Dir
  dir_of log = pointed_dir log log

  module _ (is_format : IsFormat format) where
    pub decode-envelope :
        (n : ℕ) (phase : Text) (details : Json)
        → is_sorted details ≡ true
        → decode_envelope format txn_id
            (envelope format txn_id (payload_of format txn_id n phase details))
            n
          ≡ some (payload_of format txn_id n phase details)
    unfolding decode_envelope envelope get_field has_keys list_beq all text_lt is_sorted
        sorted_items sorted_fields
    decode-envelope n phase details s =
        rw
          (
            is_format.prints
                (obj (
                  field (codes "checksum")
                    (str (checksum format txn_id (payload_of format txn_id n phase details)))
                    (field (codes "payload") (obj (payload_of format txn_id n phase details)) end)))
                (rw s refl),
            ==_refl (checksum format txn_id (payload_of format txn_id n phase details)),
            ==_refl txn_id,
            ==_refl n,
          )
          refl

    pub pointer-matches :
        (n : ℕ) (p : Fields)
        → (fs : Fields) × (format.loads (pointer_body format txn_id n p) ≡ some (obj fs))
          × (pointer_matches format txn_id n p (some fs) ≡ true)
    unfolding pointer_body get_field has_keys list_beq all text_lt is_sorted sorted_fields
    pointer-matches n p = (
      _,
      is_format.prints
          (obj (
            field (codes "generation") (nat n) (
              field (codes "state_checksum") (str (checksum format txn_id p))
                (field (codes "txn_id") (str txn_id) end))))
          refl,
      rw (==_refl (checksum format txn_id p), ==_refl txn_id, ==_refl n) refl,
    )
