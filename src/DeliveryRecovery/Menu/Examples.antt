-- ===== src/DeliveryRecovery/Menu/Examples.antt =====
-- A session of the menu with one stored notification, and the theorem at it.
use xserver_mail_lineworks.Shared.{
  ◌≡◌, refl, Bool, true, false, List, [], ◌∷◌, all, contains, list_beq, is_hex, nat_eq, Text, codes,
  Json, null, bool, nat, str, arr, obj, nil, item, Fields, end, field, get_field,
}
use xserver_mail_lineworks.Shared.Exec.{◌>>=◌}
use xserver_mail_lineworks.XserverApi.Filters.{get_default, is_text}
use xserver_mail_lineworks.DeliveryRecovery.{
  Output, document, unique_objects, read_output, has_keys, text_at, bool_at, is_retryable,
  is_valid_row, is_definite, valid_rows, rows_of, result_of,
}
use xserver_mail_lineworks.DeliveryRecovery.Menu.{
  list_arguments, retry_arguments, choose, row_at, phrase, call, list_items, retry_selected, show,
  read_line, from_timestamp, show_rows, send_again, confirm, at_row, chosen, offer,
  show_recovery_menu,
}
use xserver_mail_lineworks.DeliveryRecovery.Menu.Confirmation.{
  calls, SentAs, Confirmed, retry-Confirmed,
}

abbrev ident : Text
ident = codes "00112233445566778899aabbccddeeff00112233445566778899aabbccddeeff"

abbrev stored : Fields
stored = field (codes "id") (str ident) (
    field (codes "revision") (str ident) (
      field (codes "state") (str (codes "pending")) (
        field (codes "created_at") (nat 5) (
          field (codes "expires_at") (nat 604805) (
            field (codes "completed_chunks") null (
              field (codes "total_chunks") null (
                field (codes "classification") (str (codes "definite_rejection"))
                  (field (codes "retryable") (bool true) end))))))))

-- The source demands zero completed chunks of a row that may be sent again.
abbrev sendable : Fields
sendable = field (codes "id") (str ident) (
    field (codes "revision") (str ident) (
      field (codes "state") (str (codes "pending")) (
        field (codes "created_at") (nat 5) (
          field (codes "expires_at") (nat 604805) (
            field (codes "completed_chunks") (nat 0) (
              field (codes "total_chunks") null (
                field (codes "classification") (str (codes "definite_rejection"))
                  (field (codes "retryable") (bool true) end))))))))

abbrev answer : Fields → Json
answer r =
    obj
      (field (codes "schema_version") (nat 1) (field (codes "items") (arr (item (obj r) nil)) end))

abbrev remote : Fields → List Text → Bool → Output × Bool
remote r (a ∷ []) w = (document (answer r), w)
remote r _ w = (
  document (
      obj (
        field (codes "schema_version") (nat 1)
          (field (codes "id") (str ident) (field (codes "status") (str (codes "delivered")) end)))),
  true,
)

abbrev lines : List Text
lines = codes " 1 " ∷ phrase sendable ∷ []

abbrev session : Fields → List Text → List (List Text)
session r ins =
    calls
      (show_recovery_menu (remote r) (record { inputs = ins; events = []; world = false })).1.events

session_runs :
    (session sendable lines ≡ retry_arguments ident ident ∷ list_arguments ∷ [])
    × (session sendable (codes "1" ∷ codes "yes" ∷ []) ≡ list_arguments ∷ [])
    × (session stored lines ≡ list_arguments ∷ [])
unfolding show_recovery_menu offer chosen at_row confirm send_again show_rows from_timestamp
    read_line show retry_selected list_items call row_at choose result_of rows_of valid_rows
    is_definite is_valid_row is_retryable bool_at text_at has_keys read_output unique_objects
    get_default is_text get_field all contains list_beq is_hex ◌>>=◌
session_runs = (refl, refl, refl)

retry-Confirmed_example :
    SentAs
      (remote sendable)
      (Confirmed (remote sendable) false lines)
      (list_arguments ∷ [])
      (session sendable lines)
retry-Confirmed_example = retry-Confirmed (remote sendable) lines false
