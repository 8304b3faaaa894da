-- ===== src/DeliveryRecovery/Examples.antt =====
-- A listing with one notification, and the theorem at it.
use xserver_mail_lineworks.Shared.{
  ◌≤◌, ◌≡◌, refl, true, false, some, [], ◌∷◌, map, length, all, contains, distinct, list_beq,
  is_hex, nat_eq, list_eq, Text, codes, null, bool, nat, str, arr, obj, nil, item, Fields, end,
  field, get_field,
}
use xserver_mail_lineworks.XserverApi.Filters.{get_default, is_text}
use xserver_mail_lineworks.DeliveryRecovery.{
  has_keys, text_at, bool_at, is_retryable, is_valid_row, is_definite, valid_rows, rows_of, id_text,
}
use xserver_mail_lineworks.DeliveryRecovery.Rows.{listing_accepted}

abbrev ident : Text
ident = codes "ffeeddccbbaa99887766554433221100ffeeddccbbaa99887766554433221100"

abbrev delivered_row : Fields
delivered_row = field (codes "state") (str (codes "delivered")) (
    field (codes "id") (str ident) (
      field (codes "revision") (str ident) (
        field (codes "created_at") (nat 0) (
          field (codes "expires_at") (nat 604800) (
            field (codes "completed_chunks") null (
              field (codes "total_chunks") null (
                field (codes "classification") (str (codes "success"))
                  (field (codes "retryable") (bool false) end))))))))

abbrev listing : Fields
listing =
    field (codes "schema_version") (nat 1)
      (field (codes "items") (arr (item (obj delivered_row) nil)) end)

listing_read : rows_of listing ≡ some (delivered_row ∷ [])
unfolding rows_of valid_rows is_definite is_valid_row is_retryable bool_at text_at has_keys
    get_default is_text get_field all contains list_beq is_hex
listing_read = refl

listing_accepted_example :
    (length (delivered_row ∷ []) ≤ 100)
    × (all is_valid_row (delivered_row ∷ []) ≡ true)
    × (distinct (map id_text (delivered_row ∷ [])) ≡ true)
    × (all is_definite (delivered_row ∷ []) ≡ true)
listing_accepted_example = listing_accepted listing (delivered_row ∷ []) listing_read
