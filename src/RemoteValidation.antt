-- ===== src/RemoteValidation.antt =====
-- manager/remote_validator.py: what `_parse_g` accepts of `ssh -G`. The output is the decoded text;
-- `str.casefold`, which is Unicode data, is a parameter.
pub mod Options
mod Examples
use xserver_mail_lineworks.Shared.{
  ℕ, Bool, true, false, not, ◌&&◌, ◌||◌, Option, none, some, List, [], ◌∷◌, ◌==◌, nat_eq, list_eq,
  option_eq, nat_beq, leb, contains, any, if◌then◌else◌, Text, codes, find, keys, put,
}
use xserver_mail_lineworks.EmailAddress.{cons_first}
use xserver_mail_lineworks.DeliveryRecovery.Menu.{strip_left, strip_right}

-- `str.splitlines()`
abbrev is_break : ℕ → Bool
is_break c =
    (leb 10 c && leb c 13)
    || (leb 28 c && leb c 30)
    || nat_beq c 133
    || nat_beq c 8232
    || nat_beq c 8233

-- A carriage return before a line feed ends no line of its own.
abbrev line_feeds : Text → Bool
line_feeds [] = false
line_feeds (c ∷ t) = nat_beq c 10

unfoldable pub split_lines : Text → List Text
split_lines [] = []
split_lines (c ∷ t) =
    let rest = split_lines t in
    if nat_beq c 13 && line_feeds t
    then rest
    else if is_break c
    then [] ∷ rest
    else cons_first c rest

abbrev behind : ℕ → Option (Text × Text) → Option (Text × Text)
behind c none = none
behind c (some (key, value)) = some (c ∷ key, value)

-- `line.split(" ", 1)`; `none` is a line without a space.
unfoldable pub split_space : Text → Option (Text × Text)
split_space [] = none
split_space (c ∷ t) =
    let rest = split_space t in if nat_beq c b' ' then some ([], t) else behind c rest

abbrev pub strip : Text → Text
strip t = strip_left (strip_right t)

abbrev pub repeatable : List Text
repeatable = codes "identityfile" ∷ codes "sendenv" ∷ []

abbrev empty_or_none : List Text
empty_or_none = [] ∷ codes "none" ∷ []

abbrev no_or_false : List Text
no_or_false = codes "no" ∷ codes "false" ∷ []

abbrev pub required_g : List (Text × List Text)
required_g =
    (codes "hostkeyalias", empty_or_none)
    ∷ (codes "proxycommand", empty_or_none)
    ∷ (codes "proxyjump", empty_or_none)
    ∷ (codes "knownhostscommand", empty_or_none)
    ∷ (codes "remotecommand", empty_or_none)
    ∷ (codes "canonicalizehostname", no_or_false)
    ∷ (codes "clearallforwardings", codes "yes" ∷ [])
    ∷ (codes "forwardagent", no_or_false)
    ∷ (codes "controlmaster", no_or_false)
    ∷ (codes "controlpath", empty_or_none)
    ∷ (codes "permitlocalcommand", no_or_false)
    ∷ (codes "requesttty", no_or_false)
    ∷ []

abbrev pub forwards : List Text
forwards = codes "localforward" ∷ codes "remoteforward" ∷ codes "dynamicforward" ∷ []

abbrev pub or_text : Text → Option Text → Text
or_text d none = d
or_text d (some t) = t

abbrev pub is_among : List Text → Option Text → Bool
is_among hosts none = false
is_among hosts (some t) = contains hosts t

module _ (casefold : Text → Text) where
  -- One turn of the loop.
  unfoldable pub add_line : Text → Text → List (Text × Text) → Option (List (Text × Text))
  add_line key value values =
      if contains repeatable key
      then some values
      else if contains (keys values) key
      then none
      else some (put key (strip value) values)

  unfoldable pub read_line : Option (Text × Text) → List (Text × Text) → Option (List (Text × Text))
  read_line none values = none
  read_line (some (key, value)) values = add_line (casefold key) value values

  unfoldable pub read_lines : List Text → List (Text × Text) → Option (List (Text × Text))
  read_lines [] values = some values
  read_lines (line ∷ lines) values = elim (read_line (split_space line) values) [
    | none ↦ none
    | some next ↦ read_lines lines next
  ]

  unfoldable pub required_hold : List (Text × List Text) → List (Text × Text) → Bool
  required_hold [] values = true
  required_hold ((key, allowed) ∷ required) values =
      contains allowed (casefold (or_text [] (find key values))) && required_hold required values

  unfoldable pub values_are_safe : Text → List Text → List (Text × Text) → Bool
  values_are_safe known_hosts expected_hosts values =
      is_among expected_hosts (find (codes "hostname") values)
      && find (codes "userknownhostsfile") values == some known_hosts
      && required_hold required_g values
      && casefold (or_text (codes "none") (find (codes "localcommand") values)) == codes "none"
      && not (any (contains (keys values)) forwards)

  abbrev pub safe_if_read : Text → List Text → Option (List (Text × Text)) → Bool
  safe_if_read known_hosts expected_hosts none = false
  safe_if_read known_hosts expected_hosts (some values) =
      values_are_safe known_hosts expected_hosts values

  -- `true` is a normal return, `false` a `RemoteValidationError`.
  unfoldable pub parse_g : Text → List Text → Text → Bool
  parse_g known_hosts expected_hosts text =
      safe_if_read known_hosts expected_hosts (read_lines (split_lines text) [])
