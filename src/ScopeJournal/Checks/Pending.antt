-- ===== src/ScopeJournal/Checks/Pending.antt =====
-- What `_validate` (manager/scope_journal.py) makes sure of about the pending operation: which filters
-- a resumed synchronisation may touch.
use xserver_mail_lineworks.Shared.{
  ◌≡◌, refl, sym, ap, ◌⊎◌, inl, inr, true, false, ◌||◌, Option, none, some, List, [], ◌∷◌, ◌++◌,
  ◌==◌, ==_iff, nat_eq, list_eq, and_split, Bool-cases, contains, contains-append, distinct, find,
  keys, contains_of_find, Text, arith, subst,
}
use xserver_mail_lineworks.ScopeJournal.{Kind, add, delete, Entry, PendingOp, Saved}
use xserver_mail_lineworks.ScopeJournal.Checks.{
  is_consistent, lists_are_valid, pending_is_valid, operation_is_valid, hash_is,
}

pub distinct-append :
    (xs ys : List Text) (a : Text)
    → distinct (xs ++ ys) ≡ true
    → contains xs a ≡ true
    → contains ys a ≡ false
unfolding distinct contains
distinct-append [] ys a d h = cc
distinct-append (x ∷ xs) ys a d h = ground (
  arith,
  ==_iff a x,
  contains-append xs ys x,
  distinct-append xs ys a,
  λ (e : a ≡ x). ap (contains ys) e,
)

distinct_after : (xs ys : List Text) → distinct (xs ++ ys) ≡ true → distinct ys ≡ true
unfolding distinct
distinct_after [] ys d = d
distinct_after (x ∷ xs) ys d = ground (arith, distinct_after xs ys)

keys-append : (d e : List Entry) → keys (d ++ e) ≡ keys d ++ keys e
keys-append [] e = refl
keys-append ((k, h) ∷ d) e = ap (λ r. k ∷ r) (keys-append d e)

-- A key of the first or the last of three lists without a common key is not one of the middle.
not_between :
    (xs ys zs : List Text) (a : Text)
    → distinct (xs ++ (ys ++ zs)) ≡ true
    → contains (xs ++ zs) a ≡ true
    → contains ys a ≡ false
not_between xs ys zs a d h = ground (
  arith,
  contains-append xs zs a,
  contains-append ys zs a,
  distinct-append xs (ys ++ zs) a d,
  distinct_after xs (ys ++ zs) d,
  distinct-append ys zs a,
)

abbrev pub RecordedKind : Saved → Kind → Text → Text → Type 0
RecordedKind s add k h =
    (contains s.new h ≡ true) × ((k ≡ []) ⊎ (contains (keys s.new_ids) k ≡ true))
RecordedKind s delete k h =
    (find k (s.old ++ s.new_ids) ≡ some h) × (contains (keys s.unrelated) k ≡ false)

pub lists-distinct :
    (s : Saved)
    → lists_are_valid s ≡ true
    → distinct (keys s.old ++ (keys s.unrelated ++ keys s.new_ids)) ≡ true
unfolding lists_are_valid
lists-distinct s h = ground arith

found : (h : Text) (o : Option Text) → hash_is h o ≡ true → o ≡ some h
found h none e = cc
found h (some g) e = ap some (sym ((==_iff h g).0 e))

operation-Recorded :
    (s : Saved) (kind : Kind) (k h : Text)
    → lists_are_valid s ≡ true
    → operation_is_valid s kind k h ≡ true
    → RecordedKind s kind k h
operation-Recorded s add k h l v = let (a, b) = and_split (contains s.new h) _ v in (a, either b)
  where
    either :
        (k == [] || contains (keys s.new_ids) k) ≡ true
        → (k ≡ []) ⊎ (contains (keys s.new_ids) k ≡ true)
    either b = elim (Bool-cases (k == [])) [
      | inl e ↦ inl ((==_iff k []).0 e)
      | inr e ↦ inr (ground arith)
    ]
operation-Recorded s delete k h l v =
    let e : find k (s.old ++ s.new_ids) ≡ some h = found h (find k (s.old ++ s.new_ids)) v in
    (
      e,
      not_between (keys s.old) (keys s.unrelated) (keys s.new_ids) k (lists-distinct s l) (
          subst (λ ks. contains ks k ≡ true) (keys-append s.old s.new_ids)
            (contains_of_find k (s.old ++ s.new_ids) e)),
    )

-- What is pending, if anything is, is recorded.
abbrev pub PendingRecorded : Saved → Option PendingOp → Type 0
PendingRecorded s none = Unit {0}
PendingRecorded s (some p) = RecordedKind s p.kind p.id p.sha256

pending-Recorded :
    (s : Saved) (o : Option PendingOp)
    → lists_are_valid s ≡ true
    → pending_is_valid s o ≡ true
    → PendingRecorded s o
unfolding pending_is_valid
pending-Recorded s none l v = tt
pending-Recorded s (some p) l v =
    operation-Recorded s p.kind p.id p.sha256 l
      (and_split _ (operation_is_valid s p.kind p.id p.sha256) v).1

pub consistent-Recorded : (s : Saved) → is_consistent s ≡ true → PendingRecorded s s.pending
unfolding is_consistent
consistent-Recorded s h = pending-Recorded s s.pending (ground arith) (ground arith)
