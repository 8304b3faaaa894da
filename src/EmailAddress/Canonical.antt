-- ===== src/EmailAddress/Canonical.antt =====
-- `canonical_email` of manager/email_address.py: a canonical address is its own canonical form.
use xserver_mail_lineworks.Shared.{
  ℕ, suc, ◌+◌, ◌<◌, ◌≡◌, refl, sym, ap, ap₂, ◌∙◌, true, ◌&&◌, some, List, [], ◌∷◌, ◌++◌, map, Text,
  nat_beq, length, length-append, all, arith, Json, str,
}
use xserver_mail_lineworks.EmailAddress.{
  is_alnum, is_label_char, last_or, is_domain_label, split_on, cons_first, lower, count_at,
  before_at, after_at, is_mailbox, canonical_text, canonical_email,
}

pub lower_lem :
    (c : ℕ)
    → (lower (lower c) ≡ lower c)
      × (is_alnum (lower c) ≡ is_alnum c)
      × (nat_beq (lower c) b'@' ≡ nat_beq c b'@')
      × (nat_beq (lower c) b'.' ≡ nat_beq c b'.')
      × (nat_beq (lower c) b'-' ≡ nat_beq c b'-')
unfolding lower is_alnum
lower_lem c = ground arith

map-lower-lower : (s : Text) → map lower (map lower s) ≡ map lower s
map-lower-lower [] = refl
map-lower-lower (c ∷ s) = ap₂ (λ (a : ℕ) (b : Text). a ∷ b) (lower_lem c).0 (map-lower-lower s)

length-map-lower : (s : Text) → length (map lower s) ≡ length s
length-map-lower [] = refl
length-map-lower (c ∷ s) = ap suc (length-map-lower s)

last_or-lower : (c : ℕ) (s : Text) → last_or (lower c) (map lower s) ≡ lower (last_or c s)
last_or-lower c [] = refl
last_or-lower c (d ∷ s) = last_or-lower d s

all-label_char_lower : (s : Text) → all is_label_char (map lower s) ≡ all is_label_char s
unfolding all
all-label_char_lower [] = refl
all-label_char_lower (c ∷ s) = ground (arith, lower_lem c, all-label_char_lower s)

is_domain_label-lower : (s : Text) → is_domain_label (map lower s) ≡ is_domain_label s
unfolding is_domain_label
is_domain_label-lower [] = refl
is_domain_label-lower (c ∷ s) = ground (
  arith,
  lower_lem c,
  last_or-lower c s,
  lower_lem (last_or c s),
  all-label_char_lower s,
  length-map-lower s,
)

cons_first-lower :
    (c : ℕ) (ps : List Text)
    → cons_first (lower c) (map (map lower) ps) ≡ map (map lower) (cons_first c ps)
cons_first-lower c [] = refl
cons_first-lower c (p ∷ ps) = refl

split_on-lower : (s : Text) → split_on b'.' (map lower s) ≡ map (map lower) (split_on b'.' s)
unfolding split_on
split_on-lower [] = refl
split_on-lower (c ∷ s) =
    ground (arith, lower_lem c, split_on-lower s, cons_first-lower c (split_on b'.' s))

all-labels_lower :
    (ps : List Text) → all is_domain_label (map (map lower) ps) ≡ all is_domain_label ps
unfolding all
all-labels_lower [] = refl
all-labels_lower (p ∷ ps) = ap₂ ◌&&◌ (is_domain_label-lower p) (all-labels_lower ps)

length-map-map : (ps : List Text) → length (map (map lower) ps) ≡ length ps
length-map-map [] = refl
length-map-map (p ∷ ps) = ap suc (length-map-map ps)

count_at-lower : (s : Text) → count_at (map lower s) ≡ count_at s
unfolding count_at
count_at-lower [] = refl
count_at-lower (c ∷ s) = ground (arith, lower_lem c, count_at-lower s)

count_at-before : (s : Text) → count_at (before_at s) ≡ 0
unfolding count_at before_at
count_at-before [] = refl
count_at-before (c ∷ s) = ground (arith, count_at-before s)

count_at-after : (s : Text) → 0 < count_at s → count_at (after_at s) + 1 ≡ count_at s
unfolding count_at after_at
count_at-after [] h = omega arith
count_at-after (c ∷ s) h = ground (arith, count_at-after s)

-- What is rejoined at `@` is split there again.
rejoin :
    (l d : Text)
    → count_at l ≡ 0
    → (before_at (l ++ b'@' ∷ d) ≡ l)
      × (after_at (l ++ b'@' ∷ d) ≡ d)
      × (count_at (l ++ b'@' ∷ d) ≡ count_at d + 1)
unfolding count_at before_at after_at
rejoin [] d h = ground arith
rejoin (c ∷ l) d h = ground (arith, rejoin l d)

length-parts :
    (s : Text) → 0 < count_at s → length s ≡ length (before_at s) + 1 + length (after_at s)
unfolding count_at before_at after_at
length-parts [] h = omega arith
length-parts (c ∷ s) h = ground (arith, length-parts s)

is_mailbox-lower :
    (v w l d : Text) → length v ≡ length w → is_mailbox v l d ≡ is_mailbox w l (map lower d)
unfolding is_mailbox
is_mailbox-lower v w l d e = rw (
  e,
  length-map-lower d,
  split_on-lower d,
  length-map-map (split_on b'.' d),
  all-labels_lower (split_on b'.' d),
)

abbrev rejoined : Text → Text
rejoined v = before_at v ++ b'@' ∷ map lower (after_at v)

length-rejoined : (v : Text) → 0 < count_at v → length v ≡ length (rejoined v)
length-rejoined v h = omega (
  arith,
  length-parts v h,
  length-append (before_at v) (b'@' ∷ map lower (after_at v)),
  length-map-lower (after_at v),
)

canonical_text-rejoined :
    (v : Text)
    → count_at v ≡ 1
    → is_mailbox v (before_at v) (after_at v) ≡ true
    → canonical_text (rejoined v) ≡ some (rejoined v)
unfolding canonical_text
canonical_text-rejoined v c m =
    let (b, a, n) = rejoin (before_at v) (map lower (after_at v)) (count_at-before v) in
    let one : count_at (rejoined v) ≡ 1 =
      omega (arith, n, c, count_at-lower (after_at v), count_at-after v (omega arith)) in
    let box : is_mailbox (rejoined v) (before_at v) (map lower (after_at v)) ≡ true =
      sym (
        is_mailbox-lower v (rejoined v) (before_at v) (after_at v)
          (length-rejoined v (omega arith)))
      ∙ m in
    rw (one, b, a, box, map-lower-lower (after_at v))

canonical_text_cases :
    (v e : Text)
    → canonical_text v ≡ some e
    → (count_at v ≡ 1) × (is_mailbox v (before_at v) (after_at v) ≡ true) × (e ≡ rejoined v)
unfolding canonical_text
canonical_text_cases v e h = ground arith

pub canonical_text_idem : (v e : Text) → canonical_text v ≡ some e → canonical_text e ≡ some e
canonical_text_idem v e h =
    let (c, m, q) = canonical_text_cases v e h in rw q (canonical_text-rejoined v c m)

-- A canonical address is accepted again and stays as it is.
pub canonical_email_idem :
    (v : Json) (e : Text) → canonical_email v ≡ some e → canonical_email (str e) ≡ some e
unfolding canonical_email
canonical_email_idem (str v) e h = canonical_text_idem v e h
canonical_email_idem _ e h = cc
