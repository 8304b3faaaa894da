-- ===== src/InstallJournal/Log/Reading.antt =====
-- `recover_head` (macos/install_transaction.py) on the directory of a log: what its readings give.
use xserver_mail_lineworks.Shared.{
  ℕ, zero, suc, ◌+◌, ◌≡◌, refl, ◌∙◌, ap, Bool, true, false, ◌||◌, some, List, [], ◌∷◌, ◌++◌, ◌==◌,
  nat_eq, list_eq, list_beq, length, arith, Text, Fields, ==_refl,
}
use xserver_mail_lineworks.Shared.Exec.{value, ◌>>=◌}
use xserver_mail_lineworks.InstallJournal.{Dir, Format, gens, range, read_regular}
use xserver_mail_lineworks.InstallJournal.Log.{
  envelope, payload_of, read_states, check_pointers, is_regular, pointer_is_missing, last_state,
  pointer_body,
}
use xserver_mail_lineworks.InstallJournal.Log.Families.{
  numbered, gens-numbered, numbered-append, Found, sort-range, init-range, maximum-range,
}
use xserver_mail_lineworks.InstallJournal.Log.Spec.{
  Entry, each, length-each, each-append, take_all, payload, state_file, pointer_file, AllFit,
  pointed_dir, dir_of, IsFormat, decode-envelope, pointer-matches,
}

module _ (format : Format) (txn_id : Text) (is_format : IsFormat format) where
  abbrev pub payloads : ℕ → List Entry → List Fields
  payloads = each (payload format txn_id)

  pub read_states-Found :
      (d : Dir) (k : ℕ) (log : List Entry)
      → Found d.states k (each (state_file format txn_id) k log)
      → AllFit format txn_id k log
      → read_states format txn_id (range k (length log)) d
        ≡ (value (numbered k (payloads k log)), d)
  unfolding read_states read_regular ◌>>=◌ range numbered each
  read_states-Found d k [] found fit = refl
  read_states-Found d k ((phase, details) ∷ log) (e, found) ((s, short, p), fit) =
      rw
        (
          e,
          take_all 65537 (envelope format txn_id (payload_of format txn_id k phase details)) short,
          decode-envelope format txn_id is_format k phase details s,
          read_states-Found d (suc k) log found fit,
        )
        refl

  pub check_pointers-Found :
      (d : Dir) (states : List (ℕ × Fields)) (k : ℕ) (log : List Entry)
      → Found d.pointers k (each (pointer_file format txn_id) k log)
      → Found states k (payloads k log)
      → AllFit format txn_id k log
      → check_pointers format txn_id states (range k (length log)) d ≡ (value tt, d)
  unfolding check_pointers read_regular ◌>>=◌ range each
  check_pointers-Found d states k [] found known fit = refl
  check_pointers-Found d states k ((phase, details) ∷ log) (e, found) (q, known)
        ((s, short, small), fit) =
      let p : Fields = payload_of format txn_id k phase details in
      let (fs, reads, matches) = pointer-matches format txn_id is_format k p in
      rw
        (
          e,
          take_all 65537 (pointer_body format txn_id k p) small,
          q,
          reads,
          matches,
          check_pointers-Found d states (suc k) log found known fit,
        )
        refl

  last_state-append :
      (states : List (ℕ × Fields)) (s : ℕ × Fields)
      → last_state format txn_id (states ++ s ∷ []) ≡ some s
  last_state-append [] s = refl
  last_state-append (t ∷ []) s = refl
  last_state-append (t ∷ u ∷ states) s = last_state-append (u ∷ states) s

  pub last_state-log :
      (k : ℕ) (log : List Entry) (e : Entry)
      → last_state format txn_id (numbered k (payloads k (log ++ e ∷ [])))
        ≡ some (k + length log, payload format txn_id (k + length log) e)
  last_state-log k log e =
      rw
        (
          each-append (payload format txn_id) k log e,
          numbered-append k (payloads k log) (payload format txn_id (k + length log) e),
          length-each (payload format txn_id) k log,
        )
        (last_state-append (numbered k (payloads k log))
          (k + length log, payload format txn_id (k + length log) e))

  pub gens-each :
      {B : Type 0} (f : ℕ → Entry → B) (k : ℕ) (log : List Entry)
      → gens (numbered k (each f k log)) ≡ range k (length log)
  gens-each f k log = gens-numbered k (each f k log) ∙ ap (range k) (length-each f k log)

  length_after : (log : List Entry) (e : Entry) → length (log ++ e ∷ []) ≡ suc (length log)
  length_after [] e = refl
  length_after (d ∷ log) e = ap suc (length_after log e)

  ne_init : (k n : ℕ) → (range k (suc n) == range k n) ≡ false
  unfolding range list_beq
  ne_init k zero = refl
  ne_init k (suc n) = rw (==_refl k) (ne_init (suc k) n)

  range-ne-nil : (k n : ℕ) → (range k (suc n) == []) ≡ false
  unfolding range list_beq
  range-ne-nil k n = refl

  or_true : (b : Bool) → (b || true) ≡ true
  or_true b = ground arith

  abbrev whole : List Entry → Entry → Dir
  whole log e = dir_of format txn_id (log ++ e ∷ [])

  -- The last entry's pointer is missing.
  abbrev pub unpointed : List Entry → Entry → Dir
  unpointed log e = pointed_dir format txn_id (log ++ e ∷ []) log

  pub is_regular-whole :
      (log : List Entry) (e : Entry)
      → (is_regular format txn_id (whole log e) ≡ true)
        × (pointer_is_missing format txn_id (whole log e) ≡ false)
  unfolding is_regular list_beq
  is_regular-whole log e =
      rw
        (
          gens-each (state_file format txn_id) 1 (log ++ e ∷ []),
          gens-each (pointer_file format txn_id) 1 (log ++ e ∷ []),
          length_after log e,
          sort-range 1 (suc (length log)),
          maximum-range (suc (length log)),
          init-range 1 (length log),
          ==_refl (range 1 (suc (length log))),
          range-ne-nil 1 (length log),
          ne_init 1 (length log),
        )
        (refl, refl)

  pub is_regular-unpointed :
      (log : List Entry) (e : Entry)
      → (is_regular format txn_id (unpointed log e) ≡ true)
        × (pointer_is_missing format txn_id (unpointed log e) ≡ true)
  unfolding is_regular list_beq
  is_regular-unpointed log e =
      rw
        (
          gens-each (state_file format txn_id) 1 (log ++ e ∷ []),
          gens-each (pointer_file format txn_id) 1 log,
          length_after log e,
          sort-range 1 (suc (length log)),
          sort-range 1 (length log),
          maximum-range (suc (length log)),
          init-range 1 (length log),
          ==_refl (range 1 (suc (length log))),
          ==_refl (range 1 (length log)),
          range-ne-nil 1 (length log),
          or_true (range 1 (length log) == range 1 (suc (length log))),
        )
        (refl, refl)
