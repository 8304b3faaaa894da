-- ===== src/DeliveryRecovery/Rows.antt =====
-- The listing that manager/recovery.py accepts.
use xserver_mail_lineworks.Shared.{
  suc, ◌≤◌, ◌≡◌, refl, sym, ◌∙◌, ap, inl, inr, true, false, some, List, [], ◌∷◌, ◌==◌, ==_iff,
  ==_refl, nat_eq, list_eq, map, length, all, contains, distinct, Text, codes, Json, null, arr, obj,
  Items, nil, item, Fields, arith, Bool-cases, Option-cases, subst,
}
use xserver_mail_lineworks.XserverApi.Filters.{get_default}
use mathlib.Core.Option.{some-injective}
use xserver_mail_lineworks.DeliveryRecovery.{
  is_valid_row, is_definite, valid_rows, id_text, rows_of, bounded_rows, items_count,
}

valid_rows-cons :
    (seen : List Text) (r : Fields) (vs : Items) (rows : List Fields)
    → valid_rows seen (item (obj r) vs) ≡ some rows
    → (rest : List Fields) × (valid_rows (id_text r ∷ seen) vs ≡ some rest)
      × (rows ≡ r ∷ rest)
      × (is_valid_row r ≡ true)
      × (contains seen (id_text r) ≡ false)
      × (is_definite r ≡ true)
unfolding valid_rows
valid_rows-cons seen r vs rows h = elim (Option-cases (valid_rows (id_text r ∷ seen) vs)) [
  | inl n ↦ absurd (ground arith)
  | inr (rest, q) ↦ (rest, q, ground arith, ground arith, ground arith, ground arith)
]

abbrev ids : List Fields → List Text
ids rows = map id_text rows

abbrev IsAccepted : List Text → List Fields → Type 0
IsAccepted seen rows =
    (all is_valid_row rows ≡ true)
    × (all is_definite rows ≡ true)
    × (distinct (ids rows) ≡ true)
    × ((k : Text) → contains seen k ≡ true → contains (ids rows) k ≡ false)

IsAccepted-cons :
    (seen : List Text) (r : Fields) (rest : List Fields)
    → is_valid_row r ≡ true
    → is_definite r ≡ true
    → contains seen (id_text r) ≡ false
    → IsAccepted (id_text r ∷ seen) rest
    → IsAccepted seen (r ∷ rest)
unfolding all distinct contains
IsAccepted-cons seen r rest v d n (av, ad, di, apart) = (
  ground arith,
  ground arith,
  ground (arith, apart (id_text r), ==_refl (id_text r)),
  λ k h. elim (Bool-cases (k == id_text r)) [
    | inl y ↦
        let same : contains seen (id_text r) ≡ true =
          ap (λ x. contains seen x) (sym ((==_iff k (id_text r)).0 y)) ∙ h in
        absurd (ground arith)
    | inr y ↦ rw y (apart k (rw y h))
  ],
)

IsAccepted-none :
    (seen : List Text) (rows : List Fields)
    → valid_rows seen nil ≡ some rows
    → IsAccepted seen rows × (length rows ≡ 0)
unfolding valid_rows all distinct contains
IsAccepted-none seen rows h =
    subst (λ rs. IsAccepted seen rs × (length rs ≡ 0)) (some-injective _ _ h)
      ((refl, refl, refl, λ k m. refl), refl)

valid_rows-IsAccepted :
    (seen : List Text) (vs : Items) (rows : List Fields)
    → valid_rows seen vs ≡ some rows
    → IsAccepted seen rows × (length rows ≡ items_count vs)
valid_rows-IsAccepted seen nil rows h = IsAccepted-none seen rows h
valid_rows-IsAccepted seen (item (obj r) vs) rows h =
    let (rest, q, e, v, n, d) = valid_rows-cons seen r vs rows h in
    let (a, l) = valid_rows-IsAccepted (id_text r ∷ seen) vs rest q in
    rw e (IsAccepted-cons seen r rest v d n a, ap suc l)
valid_rows-IsAccepted seen (item _ vs) rows h = absurd (unfold valid_rows in ground arith)

bounded-IsAccepted :
    (v : Json) (rows : List Fields)
    → bounded_rows v ≡ some rows
    → IsAccepted [] rows × (length rows ≤ 100)
bounded-IsAccepted (arr vs) rows h =
    let (a, l) = valid_rows-IsAccepted [] vs rows (ground arith) in (a, ground arith)
bounded-IsAccepted _ rows h = absurd cc

-- A listing that is accepted has at most a hundred rows, all valid, with distinct ids, and each row
-- that may be sent again is a definite rejection with no part of it sent.
pub listing_accepted :
    (fs : Fields) (rows : List Fields)
    → rows_of fs ≡ some rows
    → (length rows ≤ 100)
      × (all is_valid_row rows ≡ true)
      × (distinct (map id_text rows) ≡ true)
      × (all is_definite rows ≡ true)
unfolding rows_of
listing_accepted fs rows h =
    let ((v, d, i, _), l) =
      bounded-IsAccepted (get_default (codes "items") null fs) rows (ground arith) in
    (l, v, i, d)
