-- ===== src/TargetSync/Commit.antt =====
-- `_verify_committable_scope` (manager/manage.py), and what the end of `sync_targets` writes after it.
-- An error of either kind, a `RuntimeError` or a `KeyError`, is `false`; a rule whose id is no text is
-- refused like a rule of an unknown id.
use xserver_mail_lineworks.Shared.{
  ◌≡◌, Bool, true, false, ◌&&◌, Option, none, some, List, [], ◌∷◌, ◌++◌, ◌==◌, nat_eq, list_eq,
  contains, distinct, subset, contains_of_subset, find, keys, arith, map, and_split, ==_iff, ap,
  ap₂, refl, Text, codes, Json, obj, str, Fields, get_field,
}
use xserver_mail_lineworks.ScopedMigration.{Rule, sorted_ids}
use xserver_mail_lineworks.ScopeJournal.{committed, Entry, ConfigPart, Saved}
use xserver_mail_lineworks.ScopeJournal.Checks.{
  hashes, applied, is_consistent, lists_are_valid, pending_is_valid, phase_is_valid,
}
use xserver_mail_lineworks.ScopeJournal.Checks.Pending.{distinct-append, lists-distinct}
use xserver_mail_lineworks.ScopeJournal.Store.{Ftps, body_text, hashed}

abbrev with_id : Option Json → Fields → Option (List Rule) → Option (List Rule)
with_id (some (str k)) r (some rs) = some ((k, r) ∷ rs)
with_id _ r _ = none

-- `{rule.get("id"): rule for rule in rules}`, before keys fall together
unfoldable pub by_id : List Fields → Option (List Rule)
by_id [] = some []
by_id (r ∷ rs) = with_id (get_field (codes "id") r) r (by_id rs)

-- `set(xs) == set(ys)`
unfoldable pub same_set : List Text → List Text → Bool
same_set xs ys = subset xs ys && subset ys xs

module _ {W : Type 0} (ftps : Ftps W) where
  abbrev is_hash : Text → Option Text → Bool
  is_hash h none = false
  is_hash h (some g) = g == h

  abbrev full_hash : Option Fields → Option Text
  full_hash none = none
  full_hash (some r) = some (ftps.sha256 (ftps.dumps_unicode (obj r)))

  abbrev body_hash : Option Fields → Option Text
  body_hash none = none
  body_hash (some r) = hashed ftps (body_text ftps r)

  -- Every entry is the hash of the filter of its id.
  unfoldable pub entries_match : (Option Fields → Option Text) → List Rule → List Entry → Bool
  entries_match hash current [] = true
  entries_match hash current ((k, h) ∷ es) =
      is_hash h (hash (find k current)) && entries_match hash current es

  unfoldable pub scope_is_committable : Saved → List Rule → Bool
  scope_is_committable durable current =
      distinct (keys current)
      && same_set (keys current) (keys durable.unrelated ++ keys durable.new_ids)
      && same_set (keys durable.old) durable.retired_ids
      && sorted_ids (hashes durable.new_ids) == sorted_ids durable.new
      && entries_match full_hash current durable.unrelated
      && entries_match body_hash current durable.new_ids

  abbrev verified : Saved → Option (List Rule) → Bool
  verified durable none = false
  verified durable (some current) = scope_is_committable durable current

  unfoldable pub verify_committable_scope : Saved → List Fields → Bool
  verify_committable_scope durable rules = verified durable (by_id rules)

  -- `durable["phase"] = "committed"; durable["pending"] = None`
  unfoldable pub closed : Saved → Saved
  closed durable = record durable { phase = committed; pending = none }

  -- The configuration of a journal of version 2 has been applied.
  abbrev pub IsApplied : Option ConfigPart → Type 0
  IsApplied config = (h : Text) × (applied config ≡ some (some h))

  committed-valid :
      (s : Saved) (current : List Rule) (h : Text)
      → scope_is_committable s current ≡ true
      → applied s.config ≡ some (some h)
      → phase_is_valid (closed s) committed ≡ true
  unfolding scope_is_committable same_set phase_is_valid closed
  committed-valid s current h c a = rw a (ground arith)

  closed-consistent :
      (s : Saved)
      → is_consistent s ≡ true
      → phase_is_valid (closed s) committed ≡ true
      → is_consistent (closed s) ≡ true
  unfolding is_consistent closed lists_are_valid pending_is_valid
  closed-consistent s c p = ground arith

  same_set-contains :
      (xs ys : List Text) (k : Text) → same_set xs ys ≡ true → contains xs k ≡ contains ys k
  unfolding same_set
  same_set-contains xs ys k h =
      ground (arith, contains_of_subset xs ys k, contains_of_subset ys xs k)

  lists_of-consistent : (s : Saved) → is_consistent s ≡ true → lists_are_valid s ≡ true
  unfolding is_consistent
  lists_of-consistent s c = ground arith

  committable-ids :
      (s : Saved) (current : List Rule)
      → scope_is_committable s current ≡ true
      → (distinct (keys current) ≡ true)
        × (same_set (keys current) (keys s.unrelated ++ keys s.new_ids) ≡ true)
  unfolding scope_is_committable
  committable-ids s current c = (ground arith, ground arith)

  -- The hashes of the filters of these ids on the server.
  abbrev hashes_of : (Option Fields → Option Text) → List Rule → List Text → List (Option Text)
  hashes_of hash current ids = map (λ k. hash (find k current)) ids

  is_hash-some : (h : Text) (o : Option Text) → is_hash h o ≡ true → o ≡ some h
  is_hash-some h none m = cc
  is_hash-some h (some g) m = ap some ((==_iff g h).0 m)

  entries_match-hashes :
      (hash : Option Fields → Option Text) (current : List Rule) (es : List Entry)
      → entries_match hash current es ≡ true
      → hashes_of hash current (keys es) ≡ map some (hashes es)
  unfolding entries_match
  entries_match-hashes hash current [] m = refl
  entries_match-hashes hash current ((k, h) ∷ es) m =
      let (a, b) =
        and_split (is_hash h (hash (find k current))) (entries_match hash current es) m in
      ap₂ (λ (x : Option Text) (xs : List (Option Text)). x ∷ xs)
        (is_hash-some h (hash (find k current)) a) (entries_match-hashes hash current es b)

  committable-hashes :
      (s : Saved) (current : List Rule)
      → scope_is_committable s current ≡ true
      → (hashes_of full_hash current (keys s.unrelated) ≡ map some (hashes s.unrelated))
        × (hashes_of body_hash current (keys s.new_ids) ≡ map some (hashes s.new_ids))
        × (sorted_ids (hashes s.new_ids) ≡ sorted_ids s.new)
  unfolding scope_is_committable
  committable-hashes s current c = (
    entries_match-hashes full_hash current s.unrelated (ground arith),
    entries_match-hashes body_hash current s.new_ids (ground arith),
    (==_iff (sorted_ids (hashes s.new_ids)) (sorted_ids s.new)).0 (ground arith),
  )

  -- The server has the filters of the journal that are not old, with the hashes that the journal has
  -- of them, and the journal can be closed.
  abbrev pub Closes : Saved → Option (List Rule) → Type 0
  Closes s none = ⊥
  Closes s (some current) =
      (is_consistent (closed s) ≡ true)
      × (distinct (keys current) ≡ true)
      × ((k : Text) → contains (keys current) k ≡ contains (keys s.unrelated ++ keys s.new_ids) k)
      × ((k : Text) → (contains (keys s.old) k && contains (keys current) k) ≡ false)
      × (hashes_of full_hash current (keys s.unrelated) ≡ map some (hashes s.unrelated))
      × (hashes_of body_hash current (keys s.new_ids) ≡ map some (hashes s.new_ids))
      × (sorted_ids (hashes s.new_ids) ≡ sorted_ids s.new)

  verified-Closes :
      (s : Saved) (o : Option (List Rule))
      → verified s o ≡ true
      → is_consistent s ≡ true
      → IsApplied s.config
      → Closes s o
  verified-Closes s none v c a = cc
  verified-Closes s (some current) v c (h, a) =
      let (d, ids) = committable-ids s current v in
      let (whole, bodies, added) = committable-hashes s current v in
      (
        closed-consistent s c (committed-valid s current h v a),
        d,
        (λ k. same_set-contains (keys current) (keys s.unrelated ++ keys s.new_ids) k ids),
        (λ k.
            not_old k
              (same_set-contains (keys current) (keys s.unrelated ++ keys s.new_ids) k ids)),
        whole,
        bodies,
        added,
      )
    where
      not_old :
          (k : Text)
          → contains (keys current) k ≡ contains (keys s.unrelated ++ keys s.new_ids) k
          → (contains (keys s.old) k && contains (keys current) k) ≡ false
      not_old k e = ground (
        arith,
        distinct-append (keys s.old) (keys s.unrelated ++ keys s.new_ids) k
            (lists-distinct s (lists_of-consistent s c)),
      )

  -- If the final test of a synchronisation passes, of a consistent journal whose configuration has
  -- been applied, then the journal that is written next, committed and with nothing pending, is
  -- consistent; the ids on the server are exactly those of the unrelated and the added filters of the
  -- journal, each once, and none of the old ones; each unrelated filter has, whole, the hash that the
  -- journal has of it; and each added one has, in its body, the hash of its addition, which are the
  -- hashes that the journal was to add.
  pub verify-Closes :
      (s : Saved) (rules : List Fields)
      → verify_committable_scope s rules ≡ true
      → is_consistent s ≡ true
      → IsApplied s.config
      → Closes s (by_id rules)
  unfolding verify_committable_scope
  verify-Closes s rules v c a = verified-Closes s (by_id rules) v c a
