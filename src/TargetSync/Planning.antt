-- ===== src/TargetSync/Planning.antt =====
-- What a plan of `plan_target_sync` (manager/manage.py) says of the filters on the server.
use xserver_mail_lineworks.Shared.{
  ◌≡◌, refl, sym, ◌∙◌, ap, Bool, true, false, not, ◌&&◌, Option, none, some, List, [], ◌∷◌, ◌++◌,
  nat_eq, list_eq, contains, contains-select, distinct, select, Bool-cases, inl, inr, arith, subst,
  Text, Json, Fields,
}
use xserver_mail_lineworks.Shared.Exec.{Answer, value, raised, pure}
use xserver_mail_lineworks.Shared.Posts.{require-Post, need-Post, call-Post}
use xserver_mail_lineworks.EmailAddress.{cons?}
use xserver_mail_lineworks.XserverApi.Filters.{is_managed_filter, legacy_managed}
use xserver_mail_lineworks.TargetSync.{
  Failure, ids_ambiguous, filters_conflict, wrong_shape, Api, Plan, ids_of, keep, addresses,
  given_or_expected, plan_target_sync,
}

module _ {W : Type 0} (api : Api W) (command_target : Text) where
  -- What a plan was made from.
  pub record Made (p : Plan) (current old : List Text) (legacy : List Fields) : Type 0 where
    pub ids : List Text
    pub has_ids : ids_of p.rules ≡ some ids
    pub distinct_ids : distinct ids ≡ true
    pub is_managed : keep (is_managed_filter command_target) p.rules ≡ some p.managed
    pub is_legacy : keep (legacy_managed command_target) p.rules ≡ some legacy
    pub has_current : addresses p.managed ≡ some current
    pub distinct_current : distinct current ≡ true
    pub has_old : addresses legacy ≡ some old
    pub to_add : p.add ≡ select (λ a. not (contains current a)) p.expected
    pub to_delete : p.delete ≡ select (λ a. not (contains p.expected a)) current ++ old

  -- The expected addresses and the filters of a plan are those that were read, one after the other.
  abbrev pub Reading : Json → Option Json → W → Plan → W → Type 0
  Reading base_address given w p w' =
      (v : W) × (given_or_expected api command_target base_address given w ≡ (value p.expected, v))
      × (api.snapshot_filters v ≡ (value p.rules, w'))

  abbrev Q : Json → Option Json → W → Answer Failure Plan × W → Type 0
  Q base_address given w (value p, w') =
      Reading base_address given w p w'
      × (current old : List Text) × (legacy : List Fields) × Made p current old legacy
  Q base_address given w (raised e, w') = Unit {0}

  plan-Made :
      (base_address : Json) (given : Option Json) (w : W)
      → Q base_address given w (plan_target_sync api command_target base_address given w)
  unfolding plan_target_sync pure
  plan-Made base_address given w =
      call-Post P (given_or_expected api command_target base_address given) _ w (λ e t h. tt)
        (λ expected t r.
          call-Post P api.snapshot_filters _ t (λ e t h. tt)
            (λ rules x h. need-Post P ids_ambiguous (ids_of rules) _ x tt (λ ids i.
              require-Post P (distinct ids) ids_ambiguous _ x tt (λ d.
                need-Post P wrong_shape (keep (is_managed_filter command_target) rules) _ x tt
                  (λ managed m.
                    need-Post P wrong_shape (keep (legacy_managed command_target) rules) _ x tt
                      (λ legacy l. need-Post P wrong_shape (addresses managed) _ x tt (λ current c.
                        require-Post P (distinct current) filters_conflict _ x tt (λ u.
                          need-Post P wrong_shape (addresses legacy) _ x tt (λ old o. (
                            (t, r, h),
                            current,
                            old,
                            legacy,
                            record {
                              ids = ids;
                              has_ids = i;
                              distinct_ids = d;
                              is_managed = m;
                              is_legacy = l;
                              has_current = c;
                              distinct_current = u;
                              has_old = o;
                              to_add = refl;
                              to_delete = refl;
                            },
                          ))))))))))
    where
      P : Answer Failure Plan × W → Type 0
      P = Q base_address given w

  select-nil :
      (p : Text → Bool) (xs : List Text) (a : Text)
      → select p xs ≡ []
      → contains xs a ≡ true
      → p a ≡ false
  unfolding contains
  select-nil p xs a e h =
      let c : (contains xs a && p a) ≡ false =
        sym (contains-select p xs a) ∙ ap (λ l. contains l a) e in
      ground arith

  append-nil_left : (xs ys : List Text) → xs ++ ys ≡ [] → xs ≡ []
  append-nil_left [] ys h = refl
  append-nil_left (x ∷ xs) ys h = cc

  append-nil_right : (xs ys : List Text) → xs ++ ys ≡ [] → ys ≡ []
  append-nil_right [] ys h = h
  append-nil_right (x ∷ xs) ys h = cc

  cons-some : (o : Option Text) (l : Option (List Text)) → cons? o l ≡ some [] → ⊥
  cons-some none l h = cc
  cons-some (some a) none h = cc
  cons-some (some a) (some xs) h = cc

  addresses-nil : (rs : List Fields) → addresses rs ≡ some [] → rs ≡ []
  unfolding addresses
  addresses-nil [] h = refl
  addresses-nil (r ∷ rs) h = absurd (cons-some _ _ h)

  same_members :
      (current expected : List Text)
      → select (λ a. not (contains current a)) expected ≡ []
      → select (λ a. not (contains expected a)) current ≡ []
      → (a : Text) → contains current a ≡ contains expected a
  same_members current expected add delete a = elim (Bool-cases (contains expected a)) [
    | inl e ↦ ground (arith, select-nil (λ b. not (contains current b)) expected a add e)
    | inr e ↦ elim (Bool-cases (contains current a)) [
      | inl c ↦ ground (arith, select-nil (λ b. not (contains expected b)) current a delete c)
      | inr c ↦ c ∙ sym e
    ]
  ]

  -- The filters are those of the expected addresses: each address has one managed filter and no other
  -- address has any, no filter of the old form is left, and the ids of all filters differ.
  abbrev pub InSync : Plan → Type 0
  InSync p =
      (current : List Text) × (keep (is_managed_filter command_target) p.rules ≡ some p.managed)
      × (addresses p.managed ≡ some current)
      × (distinct current ≡ true)
      × ((a : Text) → contains current a ≡ contains p.expected a)
      × (keep (legacy_managed command_target) p.rules ≡ some [])
      × (ids : List Text) × (ids_of p.rules ≡ some ids)
      × (distinct ids ≡ true)

  Made-InSync :
      (p : Plan) (current old : List Text) (legacy : List Fields)
      → Made p current old legacy
      → p.add ≡ []
      → p.delete ≡ []
      → InSync p
  Made-InSync p current old legacy m add delete =
      let e : select (λ a. not (contains p.expected a)) current ++ old ≡ [] =
        sym m.to_delete ∙ delete in
      let o : old ≡ [] = append-nil_right _ old e in
      let l : legacy ≡ [] = addresses-nil legacy (m.has_old ∙ ap some o) in
      (
        current,
        m.is_managed,
        m.has_current,
        m.distinct_current,
        same_members current p.expected (sym m.to_add ∙ add) (append-nil_left _ old e),
        m.is_legacy ∙ ap some l,
        m.ids,
        m.has_ids,
        m.distinct_ids,
      )

  -- If `plan_target_sync` finds nothing to add and nothing to delete, then the expected addresses are
  -- those that were given, or else read, the filters of the plan are all that the server gave after it,
  -- and these are those of the expected addresses: each address has one managed filter and no other
  -- address has any, no filter of the old form is left, and the ids of all filters differ.
  pub plan-InSync :
      (base_address : Json) (given : Option Json) (w w' : W) (p : Plan)
      → plan_target_sync api command_target base_address given w ≡ (value p, w')
      → p.add ≡ []
      → p.delete ≡ []
      → Reading base_address given w p w' × InSync p
  plan-InSync base_address given w w' p e add delete =
      let (r, current, old, legacy, m) =
        subst (Q base_address given w) e (plan-Made base_address given w) in
      (r, Made-InSync p current old legacy m add delete)
