-- ===== src/ScopeJournal/Checks/Spelling.antt =====
-- The spelling of the journal of manager/scope_journal.py: what the program writes is what
-- `_validate` takes apart again.
use xserver_mail_lineworks.Shared.{
  ◌≡◌, refl, sym, Bool, true, false, Option, none, some, List, [], ◌∷◌, ◌==◌, ==_refl, Option-cases,
  Bool-cases, ==_iff, ◌⊎◌, inl, inr, nat_eq, option_eq, list_eq, list_beq, all, subst, get_field,
  Text, Json, str, arr, obj, strs,
}
use xserver_mail_lineworks.EmailAddress.{canonical_email_list, is_empty}
use xserver_mail_lineworks.EmailAddress.Order.{is_increasing}
use xserver_mail_lineworks.EmailAddress.Lists.{is_canonical, canonical_email_list_strict}
use xserver_mail_lineworks.XserverApi.Filters.{get_default}
use xserver_mail_lineworks.DeliveryRecovery.{has_keys, unique_objects, unique_items, unique_fields}
use xserver_mail_lineworks.ScopeJournal.{
  Phase, prepared, active, committed, Kind, add, delete, Entry, PendingOp, ConfigPart, Saved,
  encode, read_version, read_phase, read_kind, read_text, read_items, read_texts, read_entry,
  read_entry_items, read_entries, read_pending, read_applied, read_config, read_fields,
  entries_json, entry_json, pending_json, phase_text, kind_text, applied_json, read_addresses,
}
use xserver_mail_lineworks.ScopeJournal.Checks.{is_consistent, validate, keep_consistent}

read_items-strs : (ts : List Text) → read_items (strs ts) ≡ some ts
unfolding read_items read_text
read_items-strs [] = refl
read_items-strs (t ∷ ts) = rw (read_items-strs ts) refl

read_entry-entry_json : (e : Entry) → read_entry (entry_json e) ≡ some e
unfolding read_entry read_text get_default get_field has_keys list_beq all
read_entry-entry_json (k, h) = refl

read_entry_items-entries_json : (es : List Entry) → read_entry_items (entries_json es) ≡ some es
unfolding read_entry_items
read_entry_items-entries_json [] = refl
read_entry_items-entries_json (e ∷ es) =
    rw (read_entry-entry_json e, read_entry_items-entries_json es) refl

read_kind-kind_text : (k : Kind) → read_kind (str (kind_text k)) ≡ some k
unfolding read_kind list_beq
read_kind-kind_text add = refl
read_kind-kind_text delete = refl

read_pending-pending_json : (p : Option PendingOp) → read_pending (pending_json p) ≡ some p
unfolding read_pending read_text get_default get_field has_keys list_beq all
read_pending-pending_json none = refl
read_pending-pending_json (some p) = rw (read_kind-kind_text p.kind) refl

read_phase-phase_text : (p : Phase) → read_phase (str (phase_text p)) ≡ some p
unfolding read_phase list_beq
read_phase-phase_text prepared = refl
read_phase-phase_text active = refl
read_phase-phase_text committed = refl

-- The addresses of a configuration are as the strict test wants them.
abbrev pub IsListed : Option ConfigPart → Type 0
IsListed none = Unit {0}
IsListed (some c) =
    (is_increasing c.desired_pinned ≡ true)
    × (all is_canonical c.desired_pinned ≡ true)
    × (is_increasing c.desired_targets ≡ true)
    × (all is_canonical c.desired_targets ≡ true)
    × (is_empty c.desired_targets ≡ false)

read_applied-applied_json : (h : Option Text) → read_applied (applied_json h) ≡ some h
unfolding read_applied
read_applied-applied_json none = refl
read_applied-applied_json (some h) = refl

read_addresses-strs :
    (ts : List Text) (b : Bool)
    → canonical_email_list (arr (strs ts)) b true ≡ some ts
    → read_addresses (arr (strs ts)) b ≡ some ts
unfolding read_addresses read_texts
read_addresses-strs ts b h = rw (h, read_items-strs ts, ==_refl (some ts)) refl

read_config-encode :
    (s : Saved) (c : ConfigPart)
    → IsListed (some c)
    → read_config (encode (record s { config = some c })) ≡ some c
unfolding read_config encode read_text get_default get_field list_beq
read_config-encode s c (a, b, d, e, f) =
    rw
      (
        read_addresses-strs _ true (
            (canonical_email_list_strict (arr (strs c.desired_pinned)) true c.desired_pinned).1
              (refl, a, b, refl)),
        read_addresses-strs _ false (
            (canonical_email_list_strict (arr (strs c.desired_targets)) false c.desired_targets).1
              (refl, d, e, f)),
        read_applied-applied_json c.config_applied_sha256,
      )
      refl

-- Reading addresses gives these addresses or nothing.
read_addresses-strs_cases :
    (ts : List Text) (b : Bool)
    → (read_addresses (arr (strs ts)) b ≡ none) ⊎ (read_addresses (arr (strs ts)) b ≡ some ts)
unfolding read_addresses read_texts
read_addresses-strs_cases ts b = elim (Option-cases (canonical_email_list (arr (strs ts)) b true)) [
  | inl e ↦ inl (rw e)
  | inr (xs, e) ↦ elim (Bool-cases (some ts == some xs)) [
    | inl same ↦ inr (rw (e, read_items-strs ts, same) (sym ((==_iff (some ts) (some xs)).0 same)))
    | inr other ↦ inl (rw (e, read_items-strs ts, other) refl)
  ]
]

read_config-encode_cases :
    (s : Saved) (c : ConfigPart)
    → (read_config (encode (record s { config = some c })) ≡ none)
      ⊎ (read_config (encode (record s { config = some c })) ≡ some c)
unfolding read_config encode read_text get_default get_field list_beq
read_config-encode_cases s c = elim (read_addresses-strs_cases c.desired_pinned true) [
  | inl e ↦ inl (rw e)
  | inr p ↦ elim (read_addresses-strs_cases c.desired_targets false) [
    | inl e ↦ inl (rw (p, e))
    | inr t ↦ inr (rw (p, t, read_applied-applied_json c.config_applied_sha256))
  ]
]

-- What must be read from the configuration's keys for the whole to be read.
abbrev IsRead : Saved → Option ConfigPart → Type 0
IsRead s none = Unit {0}
IsRead s (some c) = read_config (encode (record s { config = some c })) ≡ some c

read_fields-encode_at :
    (s : Saved) (c : Option ConfigPart)
    → IsRead s c
    → read_fields (encode (record s { config = c })) ≡ some (record s { config = c })
unfolding read_fields encode read_version read_entries read_texts get_default get_field has_keys
    list_beq all
read_fields-encode_at s none l =
    rw
      (
        read_phase-phase_text s.phase,
        read_entry_items-entries_json s.old,
        read_entry_items-entries_json s.unrelated,
        read_entry_items-entries_json s.new_ids,
        read_items-strs s.new,
        read_items-strs s.retired_ids,
        read_pending-pending_json s.pending,
      )
      refl
read_fields-encode_at s (some c) l =
    rw
      (
        l,
        read_phase-phase_text s.phase,
        read_entry_items-entries_json s.old,
        read_entry_items-entries_json s.unrelated,
        read_entry_items-entries_json s.new_ids,
        read_items-strs s.new,
        read_items-strs s.retired_ids,
        read_pending-pending_json s.pending,
      )
      refl

IsListed-IsRead : (s : Saved) (c : Option ConfigPart) → IsListed c → IsRead s c
IsListed-IsRead s none l = tt
IsListed-IsRead s (some c) l = read_config-encode s c l

read_fields-unread :
    (s : Saved) (c : ConfigPart)
    → read_config (encode (record s { config = some c })) ≡ none
    → read_fields (encode (record s { config = some c })) ≡ none
unfolding read_fields encode read_version get_default get_field has_keys list_beq all
read_fields-unread s c e = rw e

read_fields-encode_cases :
    (s : Saved) (c : Option ConfigPart)
    → (read_fields (encode (record s { config = c })) ≡ none)
      ⊎ (read_fields (encode (record s { config = c })) ≡ some (record s { config = c }))
read_fields-encode_cases s none = inr (read_fields-encode_at s none tt)
read_fields-encode_cases s (some c) = elim (read_config-encode_cases s c) [
  | inl e ↦ inl (read_fields-unread s c e)
  | inr e ↦ inr (read_fields-encode_at s (some c) e)
]

-- A consistent journal is read back from its spelling as it was, if it has no configuration, or one
-- that lists canonical addresses, sorted and without repetition, with at least one target.
pub validate-encode :
    (s : Saved) → is_consistent s ≡ true → IsListed s.config → validate (obj (encode s)) ≡ some s
unfolding validate
validate-encode s c l = rw (read_fields-encode_at s s.config (IsListed-IsRead s s.config l), c) refl

-- `_validate` changes nothing: what it accepts of a spelled journal is this journal, and consistent.
pub validate-encode_cases :
    (s : Saved)
    → (validate (obj (encode s)) ≡ none)
      ⊎ ((validate (obj (encode s)) ≡ some s) × (is_consistent s ≡ true))
unfolding validate
validate-encode_cases s = elim (read_fields-encode_cases s s.config) [
  | inl e ↦ inl (rw e)
  | inr e ↦ elim (Bool-cases (is_consistent s)) [
    | inl y ↦ inr (rw (e, y) refl, y)
    | inr n ↦ inl (rw (e, n) refl)
  ]
]

unique_fields-entries : (es : List Entry) → unique_items (entries_json es) ≡ true
unfolding unique_objects unique_items unique_fields get_field list_beq
unique_fields-entries [] = refl
unique_fields-entries ((k, h) ∷ es) = rw (unique_fields-entries es) refl

unique_items-strs : (ts : List Text) → unique_items (strs ts) ≡ true
unfolding unique_items unique_objects
unique_items-strs [] = refl
unique_items-strs (t ∷ ts) = unique_items-strs ts

unique-pending : (p : Option PendingOp) → unique_objects (pending_json p) ≡ true
unfolding unique_objects unique_fields get_field list_beq
unique-pending none = refl
unique-pending (some p) = refl

unique-applied : (h : Option Text) → unique_objects (applied_json h) ≡ true
unfolding unique_objects
unique-applied none = refl
unique-applied (some h) = refl

unique_objects-at :
    (s : Saved) (c : Option ConfigPart)
    → unique_objects (obj (encode (record s { config = c }))) ≡ true
unfolding unique_objects unique_fields get_field list_beq encode
unique_objects-at s none =
    rw
      (
        unique_items-strs s.new,
        unique_fields-entries s.new_ids,
        unique_fields-entries s.old,
        unique-pending s.pending,
        unique_items-strs s.retired_ids,
        unique_fields-entries s.unrelated,
      )
      refl
unique_objects-at s (some c) =
    rw
      (
        unique-applied c.config_applied_sha256,
        unique_items-strs c.desired_pinned,
        unique_items-strs c.desired_targets,
        unique_items-strs s.new,
        unique_fields-entries s.new_ids,
        unique_fields-entries s.old,
        unique-pending s.pending,
        unique_items-strs s.retired_ids,
        unique_fields-entries s.unrelated,
      )
      refl

pub unique_objects-encode : (s : Saved) → unique_objects (obj (encode s)) ≡ true
unique_objects-encode s = unique_objects-at s s.config

some-inj : {a b : Saved} → some a ≡ some b → a ≡ b
some-inj h = cc

keep_consistent-consistent :
    (o : Option Saved) {s : Saved} → keep_consistent o ≡ some s → is_consistent s ≡ true
keep_consistent-consistent none h = cc
keep_consistent-consistent (some t) {s} h = elim (Bool-cases (is_consistent t)) [
  | inl y ↦ subst (λ x. is_consistent x ≡ true) (some-inj (rw y at h)) y
  | inr n ↦ cc (rw n at h)
]

pub validate-consistent : (v : Json) {s : Saved} → validate v ≡ some s → is_consistent s ≡ true
unfolding validate
validate-consistent (obj fs) h = keep_consistent-consistent (read_fields fs) h
validate-consistent _ h = cc
