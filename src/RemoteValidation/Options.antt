-- ===== src/RemoteValidation/Options.antt =====
-- What `_parse_g` of manager/remote_validator.py has checked of every line.
use xserver_mail_lineworks.Shared.{
  Bool, true, false, ◌≡◌, refl, ap, ◌∙◌, sym, Option, none, some, inl, inr, List, [], ◌∷◌, ◌==◌,
  ==_iff, nat_eq, list_eq, option_eq, contains, contains_of_find, all, all_at, list_beq,
  Option-cases, Bool-cases, Text, find, find-put, arith,
}
use xserver_mail_lineworks.RemoteValidation.{
  split_lines, split_space, strip, repeatable, required_g, add_line, read_line, read_lines,
  required_hold, values_are_safe, parse_g, safe_if_read,
}

required_at :
    (casefold : Text → Text) (required : List (Text × List Text)) (values : List (Text × Text))
    (key value : Text) (allowed : List Text)
    → required_hold casefold required values ≡ true
    → find key required ≡ some allowed
    → find key values ≡ some value
    → contains allowed (casefold value) ≡ true
unfolding required_hold find
required_at casefold [] values key value allowed h e f = cc
required_at casefold ((k, a) ∷ required) values key value allowed h e f =
    ground (arith, h, e, f, ==_iff key k, required_at casefold required values key value allowed)

-- What has been read of a key stays.
find_kept-add_line :
    (casefold : Text → Text) (o : Option (Text × Text)) (values next : List (Text × Text))
    (key value : Text)
    → read_line casefold o values ≡ some next
    → find key values ≡ some value
    → find key next ≡ some value
unfolding read_line add_line
find_kept-add_line casefold none values next key value h f = cc
find_kept-add_line casefold (some (k, v)) values next key value h f = ground (
  arith,
  h,
  f,
  ==_iff key (casefold k),
  contains_of_find key values {v = value},
  find-put (casefold k) key (strip v) values,
)

abbrev after : (Text → Text) → List Text → Option (List (Text × Text)) → Option (List (Text × Text))
after casefold lines o = elim o [ none ↦ none | some next ↦ read_lines casefold lines next ]

read_lines_next :
    (casefold : Text → Text) (line : Text) (lines : List Text) (values : List (Text × Text))
    (o : Option (List (Text × Text)))
    → read_line casefold (split_space line) values ≡ o
    → read_lines casefold (line ∷ lines) values ≡ after casefold lines o
unfolding read_lines
read_lines_next casefold line lines values o e = ap (after casefold lines) e

find-read_lines :
    (casefold : Text → Text) (lines : List Text) (values result : List (Text × Text))
    (key value : Text)
    → read_lines casefold lines values ≡ some result
    → find key values ≡ some value
    → find key result ≡ some value
unfolding read_lines
find-read_lines casefold [] values result key value h f = ground (arith, h, f)
find-read_lines casefold (line ∷ lines) values result key value h f =
    elim (Option-cases (read_line casefold (split_space line) values)) [
      | inl e ↦ cc (read_lines_next casefold line lines values none e)
      | inr (next, e) ↦
          find-read_lines casefold lines next result key value
            (sym (read_lines_next casefold line lines values (some next) e) ∙ h)
            (find_kept-add_line casefold (split_space line) values next key value e f)
    ]

find-add_line :
    (casefold : Text → Text) (values next : List (Text × Text)) (key value : Text)
    → read_line casefold (some (key, value)) values ≡ some next
    → contains repeatable (casefold key) ≡ false
    → find (casefold key) next ≡ some (strip value)
unfolding read_line add_line
find-add_line casefold values next key value h r = ground (
  arith,
  h,
  r,
  ==_iff (casefold key) (casefold key),
  find-put (casefold key) (casefold key) (strip value) values,
)

-- A key that stands on a line has that line's value in the end.
read_lines-find :
    (casefold : Text → Text) (lines : List Text) (values result : List (Text × Text))
    (line key value : Text)
    → read_lines casefold lines values ≡ some result
    → contains lines line ≡ true
    → split_space line ≡ some (key, value)
    → contains repeatable (casefold key) ≡ false
    → find (casefold key) result ≡ some (strip value)
unfolding contains
read_lines-find casefold [] values result line key value h m e r = cc
read_lines-find casefold (l ∷ lines) values result line key value h m e r =
    elim (Option-cases (read_line casefold (split_space l) values)) [
      | inl q ↦ cc (read_lines_next casefold l lines values none q)
      | inr (next, q) ↦ elim (Bool-cases (line == l)) [
        | inl same ↦
            find-read_lines casefold lines next result (casefold key) (strip value)
              (sym (read_lines_next casefold l lines values (some next) q) ∙ h)
              (find-add_line casefold values next key value
                (ap (λ o. read_line casefold o values)
                    (sym e ∙ ap split_space ((==_iff line l).0 same))
                  ∙ q)
                r)
        | inr other ↦
            read_lines-find casefold lines next result line key value
              (sym (read_lines_next casefold l lines values (some next) q) ∙ h)
              (ground (arith, m, other)) e r
      ]
    ]

accepted :
    (casefold : Text → Text) (known : Text) (hosts : List Text) (text : Text)
    → parse_g casefold known hosts text ≡ true
    → (values : List (Text × Text)) × (read_lines casefold (split_lines text) [] ≡ some values)
      × (values_are_safe casefold known hosts values ≡ true)
unfolding parse_g
accepted casefold known hosts text h =
    elim (Option-cases (read_lines casefold (split_lines text) [])) [
      | inl e ↦ cc (h, ap (safe_if_read casefold known hosts) e)
      | inr (values, e) ↦ (values, e, sym (ap (safe_if_read casefold known hosts) e) ∙ h)
    ]

abbrev is_absent : Option (List Text) → Bool
is_absent none = true
is_absent (some _) = false

repeatable_absent : all (λ key. is_absent (find key required_g)) repeatable ≡ true
unfolding all find list_beq
repeatable_absent = refl

-- A required option is none that may be repeated.
not_repeatable :
    (key : Text) (allowed : List Text)
    → find key required_g ≡ some allowed
    → contains repeatable key ≡ false
not_repeatable key allowed h = elim (Bool-cases (contains repeatable key)) [
  | inl e ↦ cc (
    ap is_absent h,
    all_at (λ k. is_absent (find k required_g)) repeatable key repeatable_absent e,
  )
  | inr e ↦ e
]

-- Where the resolved configuration is accepted, every line of `ssh -G` with an option whose values
-- are restricted has one of the values that are allowed, whatever the case and the blanks of its
-- spelling.
pub parse_g-allowed :
    (casefold : Text → Text) (known : Text) (hosts : List Text) (text line key value : Text)
    (allowed : List Text)
    → parse_g casefold known hosts text ≡ true
    → contains (split_lines text) line ≡ true
    → split_space line ≡ some (key, value)
    → find (casefold key) required_g ≡ some allowed
    → contains allowed (casefold (strip value)) ≡ true
unfolding values_are_safe
parse_g-allowed casefold known hosts text line key value allowed h m e f =
    let (values, read, safe) = accepted casefold known hosts text h in
    required_at casefold required_g values (casefold key) (strip value) allowed
      (ground (arith, safe)) f
      (read_lines-find casefold (split_lines text) [] values line key value read m e
        (not_repeatable (casefold key) allowed f))
