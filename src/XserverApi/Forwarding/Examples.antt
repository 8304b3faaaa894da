-- ===== src/XserverApi/Forwarding/Examples.antt =====
-- A server with three mailboxes that forward in a chain, and the theorems at it.
use xserver_mail_lineworks.Shared.{
  ◌≡◌, ◌≢◌, ◌↔◌, refl, true, none, some, List, [], ◌∷◌, ◌==◌, nat_eq, list_eq, list_beq, contains,
  all, if◌then◌else◌, Text, codes, Json, str, arr, obj, nil, item, end, field, strs, get_field,
}
use xserver_mail_lineworks.EmailAddress.{
  canonical_text, canonical_email, canonical_items, is_mailbox, is_local_part, is_atom, is_atext,
  is_domain_label, split_on, count_at, before_at, after_at, lower, text_lt, insert_unique,
  sort_unique, normalized_list, canonical_email_list, is_alnum,
}
use xserver_mail_lineworks.EmailAddress.Order.{is_increasing}
use xserver_mail_lineworks.XserverApi.Request.{
  Resource, mail, forwarding, Reply, body, empty_body, ok, canonical_address, read_reply,
  lookup_or_null, payload_get, unique_addresses, account_addresses, list_mail_accounts,
  list_forwarding_addresses,
}
use xserver_mail_lineworks.XserverApi.Forwarding.{
  Graph, forwarding_graph, discover_forwarding_sources,
}
use xserver_mail_lineworks.XserverApi.Forwarding.Reachability.{forwards, Reaches}
use xserver_mail_lineworks.XserverApi.Forwarding.Discovery.{
  discover_exact, discover_total, forwarding_graph_lem,
}

abbrev info : Text
info = codes "info@x.jp"

abbrev staff : Text
staff = codes "a@x.jp"

abbrev sales : Text
sales = codes "b@x.jp"

abbrev account : Text → Json
account a = obj (field (codes "mail_address") (str a) end)

abbrev forwards_to : Text → List Text
forwards_to a = if a == staff then info ∷ [] else if a == sales then staff ∷ [] else []

abbrev server : Resource → Reply
server (mail d) = body (
    obj (
      field (codes "accounts")
        (arr (item (account staff) (item (account sales) (item (account info) nil)))) end))
server (forwarding a) =
    body (obj (field (codes "forwarding_addresses") (arr (strs (forwards_to a))) end))
server _ = empty_body

abbrev chain : Graph
chain = (staff, info ∷ []) ∷ (sales, staff ∷ []) ∷ (info, []) ∷ []

base_read : canonical_address (str info) ≡ ok info
unfolding canonical_address canonical_email canonical_text is_mailbox is_local_part is_atom is_atext
    is_domain_label split_on count_at before_at after_at lower all is_alnum
base_read = refl

accounts_read : list_mail_accounts server (after_at info) ≡ ok (staff ∷ sales ∷ info ∷ [])
unfolding list_mail_accounts read_reply payload_get account_addresses lookup_or_null
    unique_addresses canonical_email canonical_text is_mailbox is_local_part is_atom is_atext
    is_domain_label split_on count_at before_at after_at lower all is_alnum canonical_email_list
    canonical_items sort_unique insert_unique text_lt normalized_list list_beq get_field
accounts_read = refl

graph_read : forwarding_graph server (staff ∷ sales ∷ info ∷ []) ≡ ok chain
unfolding forwarding_graph list_forwarding_addresses canonical_address read_reply payload_get
    lookup_or_null unique_addresses canonical_email canonical_text is_mailbox is_local_part is_atom
    is_atext is_domain_label split_on count_at before_at after_at lower all is_alnum
    canonical_email_list canonical_items sort_unique insert_unique text_lt normalized_list list_beq
    get_field
graph_read = refl

discover_exact_example :
    (r : List Text) × (discover_forwarding_sources server info ≡ some (ok r))
    × (is_increasing r ≡ true)
    × ((a : Text) → (contains r a ≡ true) ↔ Reaches chain info a)
discover_exact_example = discover_exact server info base_read accounts_read graph_read

forwarding_graph_lem_example : (forwards chain sales staff ≡ true) ↔ (
    (contains (staff ∷ sales ∷ info ∷ []) sales ≡ true)
    × (ds : List Text) × (list_forwarding_addresses server sales ≡ ok ds)
    × (contains ds staff ≡ true))
forwarding_graph_lem_example =
    forwarding_graph_lem server (staff ∷ sales ∷ info ∷ []) sales staff graph_read

discover_total_example : discover_forwarding_sources server info ≢ none
discover_total_example = discover_total server info
