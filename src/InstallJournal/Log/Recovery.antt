-- ===== src/InstallJournal/Log/Recovery.antt =====
-- The journal of macos/install_transaction.py as an append-only log: `append` adds one entry, and
-- `recover_head` gives the last entry, also after a process that stopped inside `append`.
use xserver_mail_lineworks.Shared.{
  ℕ, suc, ◌+◌, ◌≤◌, ◌≡◌, refl, sym, ◌∙◌, ap, subst, false, some, List, [], ◌∷◌, ◌++◌, nat_eq,
  list_eq, contains, length, arith, Text, Json, Fields, ==_refl,
}
use xserver_mail_lineworks.Shared.Exec.{value, ◌>>=◌}
use xserver_mail_lineworks.InstallJournal.{
  File, regular, Dir, Format, gens, at, create, moved, perform, perform_all, read_regular,
  next_generation,
}
use xserver_mail_lineworks.InstallJournal.Log.{
  envelope, payload_of, write_state_only, write_pointer, append, recover_head, pointer_body,
  state_ops,
}
use xserver_mail_lineworks.InstallJournal.Log.Families.{
  numbered, numbered-append, Found, Found-numbered, Found-before, at_end, without_only,
  contains-range, maximum-range, sort-range,
}
use xserver_mail_lineworks.InstallJournal.Log.Spec.{
  Entry, each, length-each, each-append, take_all, payload, state_file, pointer_file, Fits, AllFit,
  dir_of, IsFormat,
}
use xserver_mail_lineworks.InstallJournal.Log.Reading.{
  payloads, read_states-Found, check_pointers-Found, last_state-log, gens-each, unpointed,
  is_regular-whole, is_regular-unpointed,
}

pub at_only : (n : ℕ) (f : File) → at n ((n, f) ∷ []) ≡ some f
unfolding at
at_only n f = ground arith

module _ (format : Format) (txn_id : Text) where
  -- A state that is written beside others of other generations.
  state_ops-fresh :
      (d : Dir) (n : ℕ) (p : Fields)
      → contains (gens d.states) n ≡ false
      → perform_all (state_ops format txn_id n p) (record d { state_temps = [] }) ≡ (
        value tt,
        record d {
          state_temps = [];
          states = d.states ++ (n, regular (envelope format txn_id p)) ∷ [];
        },
      )
  unfolding perform_all perform create moved ◌>>=◌ contains
  state_ops-fresh d n p h =
      rw
        (
          at_only n (regular (envelope format txn_id p)),
          h,
          without_only n (regular (envelope format txn_id p)),
        )
        refl

  write_pointer-fresh :
      (d : Dir) (n : ℕ) (p : Fields)
      → contains (gens d.pointers) n ≡ false
      → length (pointer_body format txn_id n p) ≤ 65537
      → write_pointer format txn_id n p (record d { pointer_temps = [] }) ≡ (
        value tt,
        record d {
          pointer_temps = [];
          pointers = d.pointers ++ (n, regular (pointer_body format txn_id n p)) ∷ [];
        },
      )
  unfolding write_pointer perform_all perform create moved read_regular ◌>>=◌ contains
  write_pointer-fresh d n p h l =
      rw
        (
          at_only n (regular (pointer_body format txn_id n p)),
          h,
          without_only n (regular (pointer_body format txn_id n p)),
          at_end d.pointers n (regular (pointer_body format txn_id n p)) h,
          take_all 65537 (pointer_body format txn_id n p) l,
          ==_refl (pointer_body format txn_id n p),
        )
        refl

module _ (format : Format) (txn_id : Text) (is_format : IsFormat format) where
  pub new_gen :
      {B : Type 0} (f : ℕ → Entry → B) (log : List Entry)
      → contains (gens (numbered 1 (each f 1 log))) (1 + length log) ≡ false
  new_gen f log =
      rw (gens-each format txn_id is_format f 1 log)
        (contains-range 1 (length log) (1 + length log) (omega arith))

  pub family-append :
      {B : Type 0} (f : ℕ → Entry → B) (log : List Entry) (e : Entry)
      → numbered 1 (each f 1 log) ++ (1 + length log, f (1 + length log) e) ∷ []
        ≡ numbered 1 (each f 1 (log ++ e ∷ []))
  family-append f log e = sym (
      rw
        (
          each-append f 1 log e,
          numbered-append 1 (each f 1 log) (f (1 + length log) e),
          length-each f 1 log,
        )
        refl)

  pub generation-next :
      (log : List Entry) → next_generation (dir_of format txn_id log) ≡ 1 + length log
  unfolding next_generation
  generation-next log =
      rw
        (
          gens-each format txn_id is_format (state_file format txn_id) 1 log,
          maximum-range (length log),
        )
        (omega arith)

  pub Fits-last :
      (k : ℕ) (log : List Entry) (e : Entry)
      → AllFit format txn_id k (log ++ e ∷ [])
      → Fits format txn_id (k + length log) e
  Fits-last k [] e (fit, tt) = subst (λ n. Fits format txn_id n e) (omega arith) fit
  Fits-last k (d ∷ log) e (fit, fits) =
      subst (λ n. Fits format txn_id n e) (omega arith) (Fits-last (suc k) log e fits)

  pub Fits-before :
      (k : ℕ) (log : List Entry) (e : Entry)
      → AllFit format txn_id k (log ++ e ∷ [])
      → AllFit format txn_id k log
  Fits-before k [] e fits = tt
  Fits-before k (d ∷ log) e (fit, fits) = (fit, Fits-before (suc k) log e fits)

  -- The state of the next entry is written.
  pub state_ops-log :
      (log : List Entry) (e : Entry)
      → perform_all
          (state_ops format txn_id (1 + length log) (payload format txn_id (1 + length log) e))
          (dir_of format txn_id log)
        ≡ (value tt, unpointed format txn_id is_format log e)
  state_ops-log log e =
      state_ops-fresh format txn_id (dir_of format txn_id log) (1 + length log)
        (payload format txn_id (1 + length log) e) (new_gen (state_file format txn_id) log)
      ∙ ap (λ fs. (value tt, record (dir_of format txn_id log) { states = fs }))
          (family-append (state_file format txn_id) log e)

  -- The pointer of the last entry is written.
  pub write_pointer-log :
      (log : List Entry) (e : Entry)
      → Fits format txn_id (1 + length log) e
      → write_pointer format txn_id
          (1 + length log)
          (payload format txn_id (1 + length log) e)
          (unpointed format txn_id is_format log e)
        ≡ (value tt, dir_of format txn_id (log ++ e ∷ []))
  write_pointer-log log (phase, details) (s, l, short) =
      let e : Entry = (phase, details) in
      write_pointer-fresh format txn_id (unpointed format txn_id is_format log e) (1 + length log)
        (payload format txn_id (1 + length log) e) (new_gen (pointer_file format txn_id) log) short
      ∙ ap (λ fs. (value tt, record (dir_of format txn_id (log ++ e ∷ [])) { pointers = fs }))
          (family-append (pointer_file format txn_id) log e)

  -- `append` adds one entry to a whole journal, one with no temporary and no other file, and returns
  -- its payload. The entry fits: the keys of its details are in order, and its envelope and its
  -- pointer have at most 65,537 bytes each.
  pub append-log :
      (log : List Entry) (phase : Text) (details : Json)
      → Fits format txn_id (1 + length log) (phase, details)
      → append format txn_id phase details (dir_of format txn_id log) ≡ (
        value (payload_of format txn_id (1 + length log) phase details),
        dir_of format txn_id (log ++ (phase, details) ∷ []),
      )
  unfolding append write_state_only ◌>>=◌
  append-log log phase details fit =
      rw
        (
          generation-next log,
          state_ops-log log (phase, details),
          write_pointer-log log (phase, details) fit,
        )
        refl

  abbrev pub last_payload : List Entry → Entry → Fields
  last_payload log e = payload format txn_id (1 + length log) e

  abbrev pub LogFits : List Entry → Entry → Type 0
  LogFits log e = AllFit format txn_id 1 (log ++ e ∷ [])

  pub recover_head-whole :
      (log : List Entry) (e : Entry)
      → LogFits log e
      → recover_head format txn_id (dir_of format txn_id (log ++ e ∷ []))
        ≡ (value (last_payload log e), dir_of format txn_id (log ++ e ∷ []))
  unfolding recover_head ◌>>=◌
  recover_head-whole log e fit =
      let d : Dir = dir_of format txn_id (log ++ e ∷ []) in
      let (ok, pointed) = is_regular-whole format txn_id is_format log e in
      rw
        (
          ok,
          gens-each format txn_id is_format (state_file format txn_id) 1 (log ++ e ∷ []),
          gens-each format txn_id is_format (pointer_file format txn_id) 1 (log ++ e ∷ []),
          sort-range 1 (length (log ++ e ∷ [])),
          read_states-Found format txn_id is_format d 1 (log ++ e ∷ [])
              (Found-numbered 1 (each (state_file format txn_id) 1 (log ++ e ∷ []))) fit,
          check_pointers-Found format txn_id is_format d
              (numbered 1 (payloads format txn_id is_format 1 (log ++ e ∷ []))) 1 (log ++ e ∷ [])
              (Found-numbered 1 (each (pointer_file format txn_id) 1 (log ++ e ∷ [])))
              (Found-numbered 1 (payloads format txn_id is_format 1 (log ++ e ∷ []))) fit,
          last_state-log format txn_id is_format 1 log e,
          pointed,
        )
        refl

  known_before :
      (log : List Entry) (e : Entry)
      → Found
          (numbered 1 (payloads format txn_id is_format 1 (log ++ e ∷ [])))
          1
          (payloads format txn_id is_format 1 log)
  known_before log e =
      let all : List (ℕ × Fields) =
        numbered 1 (payloads format txn_id is_format 1 (log ++ e ∷ [])) in
      Found-before all 1 (payloads format txn_id is_format 1 log) (last_payload log e) (
        subst (λ ps. Found all 1 ps) (each-append (payload format txn_id) 1 log e)
          (Found-numbered 1 (payloads format txn_id is_format 1 (log ++ e ∷ []))))

  pub recover_head-unpointed :
      (log : List Entry) (e : Entry)
      → LogFits log e
      → recover_head format txn_id (unpointed format txn_id is_format log e)
        ≡ (value (last_payload log e), dir_of format txn_id (log ++ e ∷ []))
  unfolding recover_head ◌>>=◌
  recover_head-unpointed log e fit =
      let d : Dir = unpointed format txn_id is_format log e in
      let (ok, pointed) = is_regular-unpointed format txn_id is_format log e in
      rw
        (
          ok,
          gens-each format txn_id is_format (state_file format txn_id) 1 (log ++ e ∷ []),
          gens-each format txn_id is_format (pointer_file format txn_id) 1 log,
          sort-range 1 (length (log ++ e ∷ [])),
          sort-range 1 (length log),
          read_states-Found format txn_id is_format d 1 (log ++ e ∷ [])
              (Found-numbered 1 (each (state_file format txn_id) 1 (log ++ e ∷ []))) fit,
          check_pointers-Found format txn_id is_format d
              (numbered 1 (payloads format txn_id is_format 1 (log ++ e ∷ []))) 1 log
              (Found-numbered 1 (each (pointer_file format txn_id) 1 log)) (known_before log e)
              (Fits-before 1 log e fit),
          last_state-log format txn_id is_format 1 log e,
          pointed,
          write_pointer-log log e (Fits-last 1 log e fit),
        )
        refl
