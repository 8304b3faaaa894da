-- ===== src/InstallJournal/Log/Stopped.antt =====
-- A process that stops inside `append` (macos/install_transaction.py): what the next recovery makes of
-- the directory that it leaves.
use xserver_mail_lineworks.Shared.{
  ℕ, zero, suc, ◌+◌, ◌≡◌, refl, sym, ◌∙◌, ap, subst, false, List, [], ◌∷◌, ◌++◌, nat_eq, list_eq,
  contains, length, Text, Json, Fields,
}
use xserver_mail_lineworks.Shared.Exec.{Answer, value, raised, proceed, ◌>>=◌}
use xserver_mail_lineworks.InstallJournal.{
  File, regular, Dir, Failure, recovery_error, Format, gens, create, moved, perform, perform_all,
  FileOp, write_pointer_temp,
}
use xserver_mail_lineworks.InstallJournal.Log.{
  Stop, after, in_state, in_pointer, payload_of, pointer_ops, recover_head, is_regular,
  pointer_body, append_until, ops_until, state_ops,
}
use xserver_mail_lineworks.InstallJournal.Log.Families.{without_only}
use xserver_mail_lineworks.InstallJournal.Log.Spec.{
  Entry, payload, pointer_file, AllFit, dir_of, IsFormat,
}
use xserver_mail_lineworks.InstallJournal.Log.Reading.{unpointed}
use xserver_mail_lineworks.InstallJournal.Log.Recovery.{
  at_only, recover_head-whole, recover_head-unpointed, state_ops-log, generation-next, last_payload,
  family-append, new_gen, Fits-before,
}

module _ (format : Format) (txn_id : Text) (is_format : IsFormat format) where
  perform_all-append :
      (xs ys : List FileOp) (d : Dir)
      → perform_all (xs ++ ys) d ≡ (perform_all xs >>= λ (u : Unit {0}). perform_all ys) d
  unfolding perform_all ◌>>=◌
  perform_all-append [] ys d = refl
  perform_all-append (op ∷ ops) ys d = go (perform op d) (λ t. perform_all-append ops ys t)
    where
      go :
          (r : Answer Failure (Unit {0}) × Dir)
          → ((t : Dir)
              → perform_all (ops ++ ys) t
                ≡ (perform_all ops >>= λ (u : Unit {0}). perform_all ys) t)
          → proceed r.0 (λ (u : Unit {0}). perform_all (ops ++ ys)) r.1
            ≡ proceed
                (proceed r.0 (λ (u : Unit {0}). perform_all ops) r.1).0
                (λ (u : Unit {0}). perform_all ys)
                (proceed r.0 (λ (u : Unit {0}). perform_all ops) r.1).1
      go (value u, t) more = more t
      go (raised e, t) more = refl

  abbrev Resumes : List Entry → Entry → Dir → Type 0
  Resumes log e d =
      recover_head format txn_id d
      ≡ (value (last_payload format txn_id is_format log e), dir_of format txn_id (log ++ e ∷ []))

  abbrev Refuses : Dir → Type 0
  Refuses d = recover_head format txn_id d ≡ (raised recovery_error, d)

  -- What a recovery makes of each place where `append` may stop.
  abbrev pub Recovers : Stop → List Entry → Entry → Entry → Dir → Type 0
  Recovers (after zero) old last e d = Resumes old last d
  Recovers (after (suc zero)) old last e d = Refuses d
  Recovers (after (suc (suc zero))) old last e d = Resumes (old ++ last ∷ []) e d
  Recovers (after (suc (suc (suc zero)))) old last e d = Refuses d
  Recovers (after _) old last e d = Resumes (old ++ last ∷ []) e d
  Recovers (in_state bytes) old last e d = Refuses d
  Recovers (in_pointer bytes) old last e d = Refuses d

  temp_refused :
      (n : ℕ) (f : File) (fs : List (ℕ × File)) (d : Dir)
      → Refuses (record d { state_temps = (n, f) ∷ fs })
  unfolding recover_head is_regular ◌>>=◌
  temp_refused n f fs d = refl

  pointer_temp_refused :
      (n : ℕ) (f : File) (fs : List (ℕ × File)) (d : Dir)
      → Refuses (record d { state_temps = []; pointer_temps = (n, f) ∷ fs })
  unfolding recover_head is_regular ◌>>=◌
  pointer_temp_refused n f fs d = refl

  -- The calls up to the state's name, and then others.
  after_state :
      (log : List Entry) (e : Entry) (more : List FileOp)
      → perform_all
          (state_ops format txn_id (1 + length log) (payload format txn_id (1 + length log) e)
            ++ more)
          (dir_of format txn_id log)
        ≡ perform_all more (unpointed format txn_id is_format log e)
  unfolding ◌>>=◌
  after_state log e more =
      rw
        (
          perform_all-append
              (state_ops format txn_id (1 + length log) (payload format txn_id (1 + length log) e))
              more (dir_of format txn_id log),
          state_ops-log format txn_id is_format log e,
        )
        refl

  pointer_ops-fresh :
      (d : Dir) (n : ℕ) (p : Fields)
      → contains (gens d.pointers) n ≡ false
      → perform_all (pointer_ops format txn_id n p) (record d { pointer_temps = [] }) ≡ (
        value tt,
        record d {
          pointer_temps = [];
          pointers = d.pointers ++ (n, regular (pointer_body format txn_id n p)) ∷ [];
        },
      )
  unfolding perform_all perform create moved ◌>>=◌ contains
  pointer_ops-fresh d n p h =
      rw
        (
          at_only n (regular (pointer_body format txn_id n p)),
          h,
          without_only n (regular (pointer_body format txn_id n p)),
        )
        refl

  pointer_ops-log :
      (log : List Entry) (e : Entry)
      → perform_all
          (pointer_ops format txn_id (1 + length log) (payload format txn_id (1 + length log) e))
          (unpointed format txn_id is_format log e)
        ≡ (value tt, dir_of format txn_id (log ++ e ∷ []))
  pointer_ops-log log e =
      pointer_ops-fresh (unpointed format txn_id is_format log e) (1 + length log)
        (payload format txn_id (1 + length log) e)
        (new_gen format txn_id is_format (pointer_file format txn_id) log)
      ∙ ap (λ fs. (value tt, record (dir_of format txn_id (log ++ e ∷ [])) { pointers = fs }))
          (family-append format txn_id is_format (pointer_file format txn_id) log e)

  stopped_at :
      (stop : Stop) (log : List Entry) (phase : Text) (details : Json)
      → append_until format txn_id stop phase details (dir_of format txn_id log)
        ≡ (perform_all
            (ops_until format txn_id stop
              (1 + length log)
              (payload_of format txn_id (1 + length log) phase details))
            (dir_of format txn_id log)).1
  unfolding append_until
  stopped_at stop log phase details =
      ap
        (λ n.
          (perform_all (ops_until format txn_id stop n (payload_of format txn_id n phase details))
            (dir_of format txn_id log)).1)
        (generation-next format txn_id is_format log)

  whole_append :
      (log : List Entry) (e : Entry)
      → perform_all
          (state_ops format txn_id (1 + length log) (payload format txn_id (1 + length log) e)
            ++ pointer_ops format txn_id
                (1 + length log)
                (payload format txn_id (1 + length log) e))
          (dir_of format txn_id log)
        ≡ (value tt, dir_of format txn_id (log ++ e ∷ []))
  whole_append log e = after_state log e _ ∙ pointer_ops-log log e

  pointer_temp_left :
      (log : List Entry) (e : Entry) (bytes : Text)
      → Refuses
          (perform_all
            (state_ops format txn_id (1 + length log) (payload format txn_id (1 + length log) e)
              ++ write_pointer_temp (1 + length log) bytes ∷ [])
            (dir_of format txn_id log)).1
  unfolding perform_all perform create ◌>>=◌ contains
  pointer_temp_left log e bytes =
      rw (after_state log e (write_pointer_temp (1 + length log) bytes ∷ [])) (
        pointer_temp_refused (1 + length log) (regular bytes) []
          (unpointed format txn_id is_format log e))

  Recovers-at :
      (stop : Stop) (old : List Entry) (last e : Entry)
      → AllFit format txn_id 1 ((old ++ last ∷ []) ++ e ∷ [])
      → Recovers stop old last e
          (perform_all
            (ops_until format txn_id stop
              (1 + length (old ++ last ∷ []))
              (payload format txn_id (1 + length (old ++ last ∷ [])) e))
            (dir_of format txn_id (old ++ last ∷ []))).1
  unfolding ops_until perform_all perform create ◌>>=◌ contains
  Recovers-at (after zero) old last e fit =
      recover_head-whole format txn_id is_format old last
        (Fits-before format txn_id is_format 1 (old ++ last ∷ []) e fit)
  Recovers-at (after (suc zero)) old last e fit =
      temp_refused (1 + length (old ++ last ∷ [])) _ [] (dir_of format txn_id (old ++ last ∷ []))
  Recovers-at (after (suc (suc zero))) old last e fit =
      rw (state_ops-log format txn_id is_format (old ++ last ∷ []) e)
        (recover_head-unpointed format txn_id is_format (old ++ last ∷ []) e fit)
  Recovers-at (after (suc (suc (suc zero)))) old last e fit =
      pointer_temp_left (old ++ last ∷ []) e _
  Recovers-at (after (suc (suc (suc (suc k))))) old last e fit =
      rw (whole_append (old ++ last ∷ []) e)
        (recover_head-whole format txn_id is_format (old ++ last ∷ []) e fit)
  Recovers-at (in_state bytes) old last e fit =
      temp_refused (1 + length (old ++ last ∷ [])) (regular bytes) []
        (dir_of format txn_id (old ++ last ∷ []))
  Recovers-at (in_pointer bytes) old last e fit = pointer_temp_left (old ++ last ∷ []) e bytes

  -- A process appends an entry to a journal with at least one entry and stops, wherever it stops. If
  -- no file had been created, then the recovery returns the old head and changes nothing; if the
  -- state had its name but the pointer had not, then it returns the new entry, and the directory is
  -- that of the journal with this entry, its pointer written; the same if the pointer had its name.
  -- If a temporary file was left, complete or not, it raises a `RecoveryError` and changes nothing;
  -- the plan of the launcher (docs/superpowers/plans/2026-07-11-macos-launcher-app.md) wants a
  -- complete pointer to be finished there, which the code does not do. The entries fit: the keys of
  -- their details are in order, and each envelope and pointer has at most 65,537 bytes.
  pub recover_after_stop :
      (stop : Stop) (old : List Entry) (last : Entry) (phase : Text) (details : Json)
      → AllFit format txn_id 1 ((old ++ last ∷ []) ++ (phase, details) ∷ [])
      → Recovers stop old last
          (phase, details)
          (append_until format txn_id stop phase details (dir_of format txn_id (old ++ last ∷ [])))
  recover_after_stop stop old last phase details fit =
      subst (Recovers stop old last (phase, details))
        (sym (stopped_at stop (old ++ last ∷ []) phase details))
        (Recovers-at stop old last (phase, details) fit)
