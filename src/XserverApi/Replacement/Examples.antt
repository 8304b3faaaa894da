-- ===== src/XserverApi/Replacement/Examples.antt =====
-- A replacement against a server in memory, and the theorem at it.
use xserver_mail_lineworks.Shared.{
  ◌≡◌, refl, Option, none, some, List, [], length, all, any, list_beq, nat_eq, Text, codes, Json,
  str, arr, obj, Items, nil, item, Fields, end, field, get_field,
}
use xserver_mail_lineworks.Shared.Exec.{Answer, value, ◌>>=◌}
use xserver_mail_lineworks.EmailAddress.{
  canonical_text, canonical_email, is_mailbox, is_local_part, is_atom, is_atext, is_domain_label,
  split_on, count_at, before_at, after_at, lower, is_alnum,
}
use xserver_mail_lineworks.XserverApi.Filters.{
  rule, is_managed_filter, get_default, is_text, copies_to, single,
}
use xserver_mail_lineworks.XserverApi.Request.{
  Error, Resource, Method, get, post, Reply, body, empty_body, read_reply,
}
use xserver_mail_lineworks.XserverApi.Replacement.{
  truthy, iterate, any_item, any_filter, equals, shows_old, shows_new, chosen_domain, request,
  need_get, list_filters, add_filter, delete_filter, need, replace_managed_filter,
}
use xserver_mail_lineworks.XserverApi.Replacement.Order.{Exchange, recorded, Outcome, replace_keeps}

abbrev command : Text
command = codes "| /usr/bin/php8.5 /n.php"

abbrev info : Text
info = codes "i@x.jp"

abbrev with_id : Text → Fields → Fields
with_id k r = field (codes "id") (str k) r

-- The state is the list of filters; what is added has the id `2`, and nothing is removed.
abbrev server : Method → Resource → Option Fields → Items → Reply × Items
server post u (some r) w =
    (body (obj (field (codes "id") (str (codes "2")) end)), item (obj (with_id (codes "2") r)) w)
server get u p w = (body (obj (field (codes "filters") (arr w) end)), w)
server _ u p w = (empty_body, w)

abbrev one_filter : Items
one_filter = item (obj (with_id (codes "1") (rule command info))) nil

abbrev replaced : Answer Error Json × (List Exchange × Items)
replaced =
    replace_managed_filter (recorded server) command (codes "1") (rule command info) none
      ([], one_filter)

replaced_run : (replaced.0 ≡ value (str (codes "2"))) × (length replaced.1.0 ≡ 4)
unfolding replace_managed_filter need list_filters add_filter delete_filter request need_get
    read_reply chosen_domain shows_new shows_old equals any_filter any_item iterate truthy
    is_managed_filter rule copies_to single is_text get_default get_field canonical_email
    canonical_text is_mailbox is_local_part is_atom is_atext is_domain_label split_on count_at
    before_at after_at lower all any is_alnum list_beq ◌>>=◌
replaced_run = (refl, refl)

replace_keeps_example : Outcome command (codes "1") (rule command info) none replaced
replace_keeps_example = replace_keeps command (codes "1") (rule command info) none server one_filter
