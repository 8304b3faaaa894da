-- ===== src/LocalConfig/Examples.antt =====
-- Configurations of the launcher, loaded and refused (macos/local_config.py).
use xserver_mail_lineworks.Shared.{
  ◌≡◌, refl, not, true, false, some, Option, [], ◌∷◌, Text, codes, Json, str, obj, Fields, end,
  field, all, any, contains, starts_with, list_beq, distinct, get_field,
}
use xserver_mail_lineworks.EmailAddress.{split_on, is_domain_label, is_alnum, lower}
use xserver_mail_lineworks.DeliveryRecovery.{unique_objects, has_keys, text_at}
use xserver_mail_lineworks.XserverApi.Filters.{get_default}
use xserver_mail_lineworks.LocalConfig.{
  ends_with, has_part, is_dns_hostname, validate_path, is_ssh_alias, values_are_valid,
  config_is_valid, validate_config, load_config, is_public,
}
use xserver_mail_lineworks.LocalConfig.Paths.{normal_path, walk, load_config-Resolved}

abbrev home : Text
home = codes "/home/owner/App.d"

abbrev sample : Text → Fields
sample command = field (codes "command_path") (str command) (
    field (codes "config_path") (str (codes "/home/owner/.config/x.json")) (
      field (codes "filesystem_home") (str home) (
        field (codes "ftps_host") (str (codes "sv1.xserver.jp")) (
          field (codes "servername") (str (codes "sv1.XSRV.jp"))
            (field (codes "ssh_alias") (str (codes "xserver-1")) end)))))

abbrev loads_sample : Text → Option Json
loads_sample raw = some (obj (sample (codes "/home/owner/bin/run")))

load_run : load_config loads_sample [] ≡ some (sample (codes "/home/owner/bin/run"))
unfolding load_config validate_config config_is_valid values_are_valid is_ssh_alias validate_path
    is_dns_hostname has_part ends_with starts_with split_on is_domain_label is_alnum lower all any
    contains list_beq distinct unique_objects get_field has_keys text_at get_default
load_run = refl

load_config-Resolved_example :
    (normal_path home ≡ home) × (any is_public (walk [] (split_on b'/' home)) ≡ false)
unfolding text_at get_default get_field list_beq
load_config-Resolved_example =
    load_config-Resolved loads_sample [] (sample (codes "/home/owner/bin/run"))
      (codes "filesystem_home") home load_run (unfold contains list_beq in refl) refl

path_refusals :
    all
      (λ p. not (validate_path p))
      (codes "/home/../etc"
        ∷ codes "/home//owner"
        ∷ codes "/home/Public_HTML/x"
        ∷ codes "home"
        ∷ codes "/"
        ∷ codes "/home/owner/"
        ∷ [])
    ≡ true
unfolding validate_path has_part starts_with split_on all any list_beq lower
path_refusals = refl
