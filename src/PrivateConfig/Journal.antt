-- ===== src/PrivateConfig/Journal.antt =====
-- The journals of `PrivateConfigSsh` (manager/private_config_ssh.py): reading, writing, and compare and
-- swap.
pub mod Cell
use xserver_mail_lineworks.Shared.{
  ℕ, Bool, true, false, not, ◌&&◌, ◌||◌, Option, none, some, List, [], ◌∷◌, ◌==◌, nat_eq, list_eq,
  option_eq, leb, length, all, if◌then◌else◌, Text, codes, Json, nat, str, obj, Fields, end, field,
  get_field,
}
use xserver_mail_lineworks.Shared.Exec.{
  Exec, Answer, value, raised, pure, raise, require, ◌>>=◌, ◌>>◌,
}
use xserver_mail_lineworks.Shared.Posts.{need}
use xserver_mail_lineworks.DeliveryRecovery.{has_keys, text_at}
use xserver_mail_lineworks.ScopeJournal.Store.{JournalKind, target_sync, filter_scope, Ftps}
use xserver_mail_lineworks.PrivateConfig.{
  Failure, bad_request, unconfirmed, outside, Transport, request, dict, is_one, equals_one,
}

abbrev pub kind_text : JournalKind → Text
kind_text target_sync = codes "target-sync"
kind_text filter_scope = codes "filter"

abbrev is_body : Text → Bool
is_body body = not (body == []) && leb (length body) 65536

module _ {W : Type 0} (t : Transport W) where
  abbrev pub read_request : JournalKind → Fields
  read_request kind = field (codes "journal") (str (kind_text kind)) (
      field (codes "operation") (str (codes "scope-journal-read"))
        (field (codes "schema_version") (nat 1) end))

  abbrev checked_body : Text → Option Text → Option (Option Text)
  checked_body encoded none = none
  checked_body encoded (some body) =
      if is_body body && t.b64encode body == encoded then some (some body) else none

  abbrev body_of_text : Option Text → Option (Option Text)
  body_of_text none = none
  body_of_text (some encoded) = checked_body encoded (t.b64decode encoded)

  -- The body, if the state is `present`.
  unfoldable pub read_state : Fields → Option (Option Text)
  read_state fs =
      if not (equals_one (get_field (codes "schema_version") fs))
      then none
      else if text_at (codes "state") fs == some (codes "missing")
      then (if has_keys (codes "schema_version" ∷ codes "state" ∷ []) fs then some none else none)
      else if text_at (codes "state") fs == some (codes "present")
          && has_keys (codes "schema_version" ∷ codes "state" ∷ codes "body_base64" ∷ []) fs
      then body_of_text (text_at (codes "body_base64") fs)
      else none

  unfoldable pub read_scope_journal : JournalKind → Exec Failure W (Option Text)
  read_scope_journal kind = do
    result ← request t (read_request kind)
    fs ← need unconfirmed (dict result)
    need unconfirmed (read_state fs)

  abbrev write_request : JournalKind → Text → Fields
  write_request kind body = field (codes "body_base64") (str (t.b64encode body)) (
      field (codes "journal") (str (kind_text kind)) (
        field (codes "operation") (str (codes "scope-journal-write"))
          (field (codes "schema_version") (nat 1) end)))

  abbrev is_written : Text → Fields → Bool
  is_written body fs =
      has_keys (codes "schema_version" ∷ codes "sha256" ∷ []) fs
      && equals_one (get_field (codes "schema_version") fs)
      && text_at (codes "sha256") fs == some (t.sha256 body)

  abbrev write_filter : Text → Exec Failure W Text
  write_filter body = do
    require (is_body body) bad_request
    result ← request t (write_request filter_scope body)
    fs ← need unconfirmed (dict result)
    require (is_written body fs) unconfirmed
    pure body

  unfoldable pub write_scope_journal : JournalKind → Text → Exec Failure W Text
  write_scope_journal target_sync body = raise bad_request
  write_scope_journal filter_scope body = write_filter body

  abbrev present : Text → Fields
  present body =
      field (codes "body_base64") (str (t.b64encode body))
        (field (codes "sha256") (str (t.sha256 body)) end)

  abbrev expected_value : Option Text → Fields
  expected_value none = field (codes "state") (str (codes "missing")) end
  expected_value (some body) = field (codes "body_base64") (str (t.b64encode body)) (
      field (codes "sha256") (str (t.sha256 body))
        (field (codes "state") (str (codes "present")) end))

  abbrev pub swap_request : Option Text → Text → Fields
  swap_request expected desired = field (codes "desired") (obj (present desired)) (
      field (codes "expected") (obj (expected_value expected)) (
        field (codes "journal") (str (kind_text target_sync)) (
          field (codes "operation") (str (codes "scope-journal-compare-and-swap"))
            (field (codes "schema_version") (nat 1) end))))

  abbrev is_expected : Option Text → Bool
  is_expected none = true
  is_expected (some body) = is_body body

  -- The status of a reply of the right shape.
  unfoldable pub swap_status : Fields → Option Text
  swap_status fs =
      if has_keys (codes "schema_version" ∷ codes "status" ∷ []) fs
        && is_one (get_field (codes "schema_version") fs)
      then text_at (codes "status") fs
      else none

  abbrev is_done : Option Text → Bool
  is_done status = status == some (codes "changed") || status == some (codes "already_applied")

  abbrev done_by : Option Fields → Bool
  done_by none = false
  done_by (some fs) = is_done (swap_status fs)

  -- `try: … except Exception: pass`; whether the swap was confirmed
  abbrev confirmed : Answer Failure Json → Bool
  confirmed (value result) = done_by (dict result)
  confirmed (raised e) = false

  unfoldable pub try_swap : Option Text → Text → Exec Failure W Bool
  try_swap expected desired w =
      let (r, w') = request t (swap_request expected desired) w in (value (confirmed r), w')

  abbrev unconfirmed_if : Answer Failure (Option Text) → Answer Failure (Option Text)
  unconfirmed_if (value current) = value current
  unconfirmed_if (raised e) = raised unconfirmed

  unfoldable pub reread : Exec Failure W (Option Text)
  reread w = let (r, w') = read_scope_journal target_sync w in (unconfirmed_if r, w')

  -- What the journal holds after an unconfirmed swap decides.
  abbrev settle : Text → Bool → Exec Failure W Text
  settle desired true = pure desired
  settle desired false = do
    current ← reread
    require (current == some desired) unconfirmed
    pure desired

  abbrev swap_target : Option Text → Text → Exec Failure W Text
  swap_target expected desired = do
    require (is_expected expected && is_body desired) bad_request
    done ← try_swap expected desired
    settle desired done

  unfoldable pub compare_and_swap_scope_journal :
      JournalKind → Option Text → Text → Exec Failure W Text
  compare_and_swap_scope_journal target_sync expected desired = swap_target expected desired
  compare_and_swap_scope_journal filter_scope expected desired = raise bad_request
