-- ===== src/RemoteValidation/Examples.antt =====
-- Outputs of `ssh -G`, accepted and refused (manager/remote_validator.py).
use xserver_mail_lineworks.Shared.{
  ◌≡◌, refl, not, true, String, List, [], ◌∷◌, ◌++◌, Text, codes, map, contains, any, all, find,
  put, list_beq, option_beq, nat_eq, list_eq,
}
use xserver_mail_lineworks.EmailAddress.{lower}
use xserver_mail_lineworks.RemoteValidation.{
  split_lines, split_space, strip, add_line, read_line, read_lines, required_hold, values_are_safe,
  parse_g,
}
use xserver_mail_lineworks.RemoteValidation.Options.{parse_g-allowed}

-- Case folding of ASCII text.
abbrev casefold : Text → Text
casefold t = map lower t

abbrev line : String → Text → Text
line s t = codes s ++ b'\n' ∷ t

abbrev resolved : Text → Text
resolved t = line "hostname sv1.xserver.jp" (
    line "userknownhostsfile /Users/x/.ssh/known_hosts" (
      line "identityfile ~/.ssh/a" (
        line "identityfile ~/.ssh/b" (
          line "canonicalizehostname false" (
            line "clearallforwardings yes" (
              line "ForwardAgent  No " (
                line "controlmaster false"
                  (line "permitlocalcommand no" (line "requesttty false" t)))))))))

abbrev known : Text
known = codes "/Users/x/.ssh/known_hosts"

abbrev hosts : List Text
hosts = codes "sv1.xserver.jp" ∷ []

accepted_run : parse_g casefold known hosts (resolved []) ≡ true
unfolding parse_g values_are_safe required_hold read_lines read_line add_line split_space
    split_lines find put contains any list_beq option_beq lower
accepted_run = refl

refused_runs :
    all
      (λ t. not (parse_g casefold known hosts (resolved t)))
      (line "proxycommand nc %h" []
        ∷ line "hostname other" []
        ∷ line "localforward 1" []
        ∷ line "port" []
        ∷ [])
    ≡ true
unfolding parse_g values_are_safe required_hold read_lines read_line add_line split_space
    split_lines find put contains any all list_beq option_beq lower
refused_runs = refl

parse_g-allowed_example :
    contains (codes "no" ∷ codes "false" ∷ []) (casefold (strip (codes " No "))) ≡ true
parse_g-allowed_example =
    parse_g-allowed casefold known hosts (resolved []) (codes "ForwardAgent  No ")
      (codes "ForwardAgent") (codes " No ") (codes "no" ∷ codes "false" ∷ []) accepted_run
      (unfold split_lines contains list_beq in refl) (unfold split_space in refl)
      (unfold find list_beq lower in refl)
