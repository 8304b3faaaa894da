-- ===== src/XserverApi/Filters/Examples.antt =====
-- The filters of one address, and the theorems at them.
use xserver_mail_lineworks.Shared.{
  ◌≡◌, refl, true, false, none, some, all, list_beq, nat_eq, Text, codes, str,
}
use xserver_mail_lineworks.EmailAddress.{
  canonical_text, canonical_email, is_mailbox, is_local_part, is_atom, is_atext, is_domain_label,
  split_on, count_at, before_at, after_at, lower, is_alnum,
}
use xserver_mail_lineworks.XserverApi.Filters.{
  build_command_target, is_managed_filter, legacy_managed, rule, legacy_rule, address,
}
use xserver_mail_lineworks.XserverApi.Filters.Recognition.{rules_recognised}

abbrev command : Text
command = codes "| /usr/bin/php8.5 /home/u/app/bin/notify.php"

command_built :
    (build_command_target (codes "/home/u/app/bin/notify.php") ≡ some command)
    × (build_command_target (codes "/home/u/../x") ≡ none)
    × (build_command_target (codes "/home/x/Public_HTML/n.php") ≡ none)
unfolding build_command_target list_beq
command_built = (refl, refl, refl)

abbrev info : Text
info = codes "info@x.jp"

info_canonical : canonical_email (str info) ≡ some info
unfolding canonical_email canonical_text is_mailbox is_local_part is_atom is_atext is_domain_label
    split_on count_at before_at after_at lower all is_alnum
info_canonical = refl

rules_recognised_example :
    (is_managed_filter command (rule command info) ≡ some true)
    × (legacy_managed command (rule command info) ≡ some false)
    × (legacy_managed command (legacy_rule command info) ≡ some true)
    × (is_managed_filter command (legacy_rule command info) ≡ some false)
    × (address (rule command info) ≡ some (str info))
    × (address (legacy_rule command info) ≡ some (str info))
rules_recognised_example = rules_recognised command info info_canonical
