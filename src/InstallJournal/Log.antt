-- ===== src/InstallJournal/Log.antt =====
-- The methods of `Journal` (macos/install_transaction.py): writing a generation and its pointer, and
-- recovering the head.
pub mod Families
pub mod Spec
pub mod Reading
pub mod Recovery
pub mod Stopped
use xserver_mail_lineworks.Shared.{
  ℕ, zero, suc, ◌+◌, Bool, true, false, not, ◌&&◌, ◌||◌, Option, none, some, List, [], ◌∷◌, ◌++◌,
  ◌==◌, nat_eq, list_eq, if◌then◌else◌, Text, codes, Json, nat, str, obj, Fields, end, field,
  get_field,
}
use xserver_mail_lineworks.Shared.Exec.{
  Exec, Answer, value, raised, pure, raise, gets, require, ◌>>=◌, ◌>>◌,
}
use xserver_mail_lineworks.DeliveryRecovery.{has_keys}
use xserver_mail_lineworks.InstallJournal.{
  File, Family, Dir, Failure, recovery_error, Format, gens, at, maximum, sort, range, init, FileOp,
  write_state, name_state, write_pointer_temp, name_pointer, perform_all, read_regular, equals_nat,
  equals_text, dict_at, next_generation,
}

pub data Stop : Type 0 where
  after : ℕ → Stop
  in_state : Text → Stop
  in_pointer : Text → Stop

module _ (format : Format) (txn_id : Text) where
  abbrev pub payload_of : ℕ → Text → Json → Fields
  payload_of generation phase details = field (codes "details") details (
      field (codes "generation") (nat generation) (
        field (codes "phase") (str phase)
          (field (codes "schema") (nat 1) (field (codes "txn_id") (str txn_id) end))))

  abbrev checksum : Fields → Text
  checksum payload = format.sha256 (format.canonical (obj payload))

  -- `_envelope`
  unfoldable pub envelope : Fields → Text
  envelope payload =
      format.canonical (
        obj (
          field (codes "checksum") (str (checksum payload))
            (field (codes "payload") (obj payload) end)))
      ++ b'\n' ∷ []

  abbrev payload_is_valid : ℕ → Fields → Bool
  payload_is_valid generation payload =
      equals_nat 1 (get_field (codes "schema") payload)
      && equals_text txn_id (get_field (codes "txn_id") payload)
      && equals_nat generation (get_field (codes "generation") payload)

  abbrev checked_payload : ℕ → Fields → Option Fields → Option Fields
  checked_payload generation wrapper none = none
  checked_payload generation wrapper (some payload) =
      if has_keys (codes "payload" ∷ codes "checksum" ∷ []) wrapper
        && equals_text (checksum payload) (get_field (codes "checksum") wrapper)
        && payload_is_valid generation payload
      then some payload
      else none

  abbrev opened : ℕ → Option Fields → Option Fields
  opened generation none = none
  opened generation (some wrapper) =
      checked_payload generation wrapper (dict_at (get_field (codes "payload") wrapper))

  -- `_decode_envelope`; `none` is a `RecoveryError`.
  unfoldable pub decode_envelope : Text → ℕ → Option Fields
  decode_envelope body generation = opened generation (dict_at (format.loads body))

  abbrev state_ops : ℕ → Fields → List FileOp
  state_ops generation payload =
      write_state generation (envelope payload) ∷ name_state generation ∷ []

  unfoldable pub write_state_only : Text → Json → Exec Failure Dir (ℕ × Fields)
  write_state_only phase details = do
    generation ← gets next_generation
    let payload = payload_of generation phase details
    perform_all (state_ops generation payload)
    pure (generation, payload)

  -- The bytes of a pointer.
  unfoldable pub pointer_body : ℕ → Fields → Text
  pointer_body generation payload =
      format.canonical (
        obj (
          field (codes "generation") (nat generation) (
            field (codes "state_checksum") (str (checksum payload))
              (field (codes "txn_id") (str txn_id) end))))
      ++ b'\n' ∷ []

  abbrev pointer_ops : ℕ → Fields → List FileOp
  pointer_ops generation payload =
      write_pointer_temp generation (pointer_body generation payload) ∷ name_pointer generation ∷ []

  unfoldable pub write_pointer : ℕ → Fields → Exec Failure Dir (Unit {0})
  write_pointer generation payload = do
    perform_all (pointer_ops generation payload)
    readback ← read_regular (λ d. d.pointers) generation
    require (readback == pointer_body generation payload) recovery_error

  unfoldable pub append : Text → Json → Exec Failure Dir Fields
  append phase details = do
    state ← write_state_only phase details
    write_pointer state.0 state.1
    pure state.1

  abbrev need : {A : Type 0} → Option A → Exec Failure Dir A
  need none = raise recovery_error
  need (some a) = pure a

  unfoldable pub read_states : List ℕ → Exec Failure Dir (List (ℕ × Fields))
  read_states [] = pure []
  read_states (n ∷ ns) = do
    body ← read_regular (λ d. d.states) n
    payload ← need (decode_envelope body n)
    rest ← read_states ns
    pure ((n, payload) ∷ rest)

  abbrev pointer_matches : ℕ → Fields → Option Fields → Bool
  pointer_matches generation payload none = false
  pointer_matches generation payload (some pointer) =
      has_keys (codes "txn_id" ∷ codes "generation" ∷ codes "state_checksum" ∷ []) pointer
      && equals_text txn_id (get_field (codes "txn_id") pointer)
      && equals_nat generation (get_field (codes "generation") pointer)
      && equals_text (checksum payload) (get_field (codes "state_checksum") pointer)

  unfoldable pub check_pointers : List (ℕ × Fields) → List ℕ → Exec Failure Dir (Unit {0})
  check_pointers states [] = pure tt
  check_pointers states (n ∷ ns) = do
    body ← read_regular (λ d. d.pointers) n
    payload ← need (at n states)
    require (pointer_matches n payload (dict_at (format.loads body))) recovery_error
    check_pointers states ns

  -- The names are those of states and pointers, the states are numbered from 1 on without a gap, and
  -- each has its pointer, except perhaps the last.
  abbrev no_family : Family → Bool
  no_family [] = true
  no_family _ = false

  unfoldable pub is_regular : Dir → Bool
  is_regular d =
      let nums = sort (gens d.states) in
      let pointers = sort (gens d.pointers) in
      no_family d.state_temps
      && no_family d.pointer_temps
      && d.others == []
      && not (nums == [])
      && nums == range 1 (maximum nums)
      && (pointers == nums || pointers == init nums)

  abbrev pointer_is_missing : Dir → Bool
  pointer_is_missing d = sort (gens d.pointers) == init (sort (gens d.states))

  abbrev last_state : List (ℕ × Fields) → Option (ℕ × Fields)
  last_state [] = none
  last_state (s ∷ []) = some s
  last_state (s ∷ t ∷ states) = last_state (t ∷ states)

  abbrev complete_pointer : Bool → ℕ → Fields → Exec Failure Dir (Unit {0})
  complete_pointer true generation payload = write_pointer generation payload
  complete_pointer false generation payload = pure tt

  unfoldable pub recover_head : Exec Failure Dir Fields
  recover_head = do
    regular ← gets is_regular
    require regular recovery_error
    nums ← gets (λ d. sort (gens d.states))
    pointers ← gets (λ d. sort (gens d.pointers))
    states ← read_states nums
    check_pointers states pointers
    highest ← need (last_state states)
    missing ← gets pointer_is_missing
    complete_pointer missing highest.0 highest.1
    pure highest.1

  -- Where a process may stop inside `append`: after so many calls, or while it writes a temporary
  -- file, of which these bytes are there.
  abbrev first_ops : ℕ → List FileOp → List FileOp
  first_ops n [] = []
  first_ops zero (op ∷ ops) = []
  first_ops (suc n) (op ∷ ops) = op ∷ first_ops n ops

  unfoldable pub ops_until : Stop → ℕ → Fields → List FileOp
  ops_until (after k) generation payload =
      first_ops k (state_ops generation payload ++ pointer_ops generation payload)
  ops_until (in_state bytes) generation payload = write_state generation bytes ∷ []
  ops_until (in_pointer bytes) generation payload =
      state_ops generation payload ++ write_pointer_temp generation bytes ∷ []

  -- The directory that such a process leaves.
  unfoldable pub append_until : Stop → Text → Json → Dir → Dir
  append_until stop phase details d =
      let generation = next_generation d in
      (perform_all (ops_until stop generation (payload_of generation phase details)) d).1
