-- ===== src/XserverApi/Replacement/Order.antt =====
-- The order of the requests of `replace_managed_filter` (manager/xserver_api.py): the old filter is
-- deleted only after the new one has been seen on the server.
use xserver_mail_lineworks.Shared.{
  ◌≡◌, refl, ◌∙◌, ap, Bool, true, false, Option, none, some, List, [], ◌∷◌, Text, codes, Json, null,
  arr, obj, nil, Fields,
}
use xserver_mail_lineworks.Shared.Exec.{Exec, Answer, value, raised, proceed, pure, require, ◌>>=◌}
use xserver_mail_lineworks.XserverApi.Filters.{get_default, is_managed_filter}
use xserver_mail_lineworks.XserverApi.Request.{
  Error, not_managed, not_confirmed, no_id, Resource, filters, filter, Method, get, post, delete,
  Reply, Result, ok, err, read_reply,
}
use xserver_mail_lineworks.XserverApi.Replacement.{
  truthy, any_filter, shows_old, shows_new, chosen_domain, rule_domain, request, need_get,
  list_filters, add_filter, delete_filter, need, answer, replace_managed_filter,
}

-- One request with its reply.
pub record Exchange : Type 0 where
  pub method : Method
  pub resource : Resource
  pub payload : Option Fields
  pub reply : Reply

abbrev Send : Type 0 → Type 0
Send W = Method → Resource → Option Fields → W → Reply × W

-- The same transport with a record of what it carried, the latest first.
abbrev pub recorded : {W : Type 0} → Send W → Send (List Exchange × W)
recorded send m u p (l, w) =
    let (r, w') = send m u p w in
    (r, (record { method = m; resource = u; payload = p; reply = r } ∷ l, w'))

module _ {W A : Type 0} (send : Send W) (Q : Answer Error A × (List Exchange × W) → Type 0) where
  abbrev S : Type 0
  S = List Exchange × W

  need-Post :
      (o : Option Bool) (e : Error) (f : Unit {0} → Exec Error S A) (s : S)
      → ((e' : Error) → Q (raised e', s))
      → (o ≡ some true → Q (f tt s))
      → Q ((need (recorded send) o e >>= f) s)
  unfolding need ◌>>=◌
  need-Post none e f s fail next = fail _
  need-Post (some true) e f s fail next = next refl
  need-Post (some false) e f s fail next = fail e

  require-Post :
      (b : Bool) (e : Error) (f : Unit {0} → Exec Error S A) (s : S)
      → ((e' : Error) → Q (raised e', s))
      → (b ≡ true → Q (f tt s))
      → Q ((require b e >>= f) s)
  unfolding ◌>>=◌
  require-Post true e f s fail next = next refl
  require-Post false e f s fail next = fail e

  need_get-Post :
      (k : Text) (default v : Json) (f : Json → Exec Error S A) (s : S)
      → ((e : Error) → Q (raised e, s))
      → ((fs : Fields) → v ≡ obj fs → Q (f (get_default k default fs) s))
      → Q ((need_get (recorded send) k default v >>= f) s)
  unfolding need_get ◌>>=◌
  need_get-Post k default (obj fs) f s fail next = next fs refl
  need_get-Post k default _ f s fail next = fail _

  answer-Post :
      (x : Result Json) (f : Json → Exec Error S A) (s : S)
      → ((e : Error) → Q (raised e, s))
      → ((v : Json) → x ≡ ok v → Q (f v s))
      → Q (proceed (answer (recorded send) x) f s)
  answer-Post (ok v) f s fail next = next v refl
  answer-Post (err e) f s fail next = fail e

  request-Post :
      (m : Method) (u : Resource) (p : Option Fields) (f : Json → Exec Error S A) (s : S)
      → ((r : Reply) (w : W) (e : Error)
          → Q (raised e, (record { method = m; resource = u; payload = p; reply = r } ∷ s.0, w)))
      → ((r : Reply) (w : W) (v : Json)
          → read_reply r ≡ ok v
          → Q (f v (record { method = m; resource = u; payload = p; reply = r } ∷ s.0, w)))
      → Q ((request (recorded send) m u p >>= f) s)
  unfolding request ◌>>=◌
  request-Post m u p f (l, w) fail next =
      let (r, w') = send m u p w in
      answer-Post (read_reply r) f
        (record { method = m; resource = u; payload = p; reply = r } ∷ l, w') (λ e. fail r w' e)
        (λ v q. next r w' v q)

  assoc-Post :
      (m : Exec Error S Json) (g : Json → Exec Error S Json) (f' : Json → Exec Error S A) (s : S)
      → Q ((m >>= λ a. g a >>= f') s)
      → Q (((m >>= g) >>= f') s)
  unfolding ◌>>=◌
  assoc-Post m g f' s q = go (m s) q
    where
      go :
          (r : Answer Error Json × S)
          → Q (proceed r.0 (λ a t. proceed (g a t).0 f' (g a t).1) r.1)
          → Q (proceed (proceed r.0 g r.1).0 f' (proceed r.0 g r.1).1)
      go (value a, t) q = q
      go (raised e, t) q = q

  -- A reply that is an object.
  abbrev Payload : Reply → Fields → Type 0
  Payload r fs = read_reply r ≡ ok (obj fs)

  list_filters-Post :
      (d : Option Text) (f : Json → Exec Error S A) (s : S)
      → ((r : Reply) (w : W) (e : Error)
          → Q (
            raised e,
            (record { method = get; resource = filters d; payload = none; reply = r } ∷ s.0, w),
          ))
      → ((r : Reply) (w : W) (fs : Fields)
          → Payload r fs
          → Q (
              f (get_default (codes "filters") (arr nil) fs) (
                record { method = get; resource = filters d; payload = none; reply = r } ∷ s.0,
                w,
              )))
      → Q ((list_filters (recorded send) d >>= f) s)
  unfolding list_filters
  list_filters-Post d f s fail next = assoc-Post _ _ f s (
      request-Post get (filters d) none _ s fail (λ r w v q.
        need_get-Post (codes "filters") (arr nil) v f _ (λ e. fail r w e)
          (λ fs e. next r w fs (q ∙ ap ok e))))

-- What the record may be, the latest request first: a prefix of the reading of the old filter, the
-- addition, the reading of the new filter and the deletion of the old one.
module _ (target old_id : Text) (new_rule : Fields) (old_domain : Option Text) where
  abbrev ShowsOld : Exchange → Type 0
  ShowsOld x =
      (x.method ≡ get)
      × (x.resource ≡ filters (some (chosen_domain old_domain new_rule)))
      × (fs : Fields) × (read_reply x.reply ≡ ok (obj fs))
      × (any_filter (shows_old target old_id (chosen_domain old_domain new_rule))
            (get_default (codes "filters") (arr nil) fs)
          ≡ some true)

  abbrev IsAddition : Exchange → Type 0
  IsAddition x = (x.method ≡ post) × (x.resource ≡ filters none) × (x.payload ≡ some new_rule)

  abbrev Returned : Json → Exchange → Type 0
  Returned new_id x =
      (fs : Fields) × (read_reply x.reply ≡ ok (obj fs))
      × (get_default (codes "id") null fs ≡ new_id)
      × (truthy new_id ≡ true)

  abbrev ShowsNew : Json → Exchange → Type 0
  ShowsNew new_id x =
      (x.method ≡ get)
      × (x.resource ≡ filters (some (rule_domain new_rule)))
      × (fs : Fields) × (read_reply x.reply ≡ ok (obj fs))
      × (any_filter (shows_new new_id new_rule) (get_default (codes "filters") (arr nil) fs)
          ≡ some true)

  abbrev pub Ordered : List Exchange → Type 0
  Ordered [] = Unit {0}
  Ordered (a ∷ []) = a.method ≡ get
  Ordered (b ∷ a ∷ []) = IsAddition b × ShowsOld a
  Ordered (c ∷ b ∷ a ∷ []) =
      (c.method ≡ get) × (new_id : Json) × Returned new_id b × IsAddition b × ShowsOld a
  Ordered (d ∷ c ∷ b ∷ a ∷ []) =
      (d.method ≡ delete)
      × (d.resource ≡ filter old_id)
      × (new_id : Json) × ShowsNew new_id c
      × Returned new_id b
      × IsAddition b
      × ShowsOld a
  Ordered _ = ⊥

  -- All four requests were made, and the last one was answered without an error.
  abbrev pub Completed : Json → List Exchange → Type 0
  Completed new_id (d ∷ c ∷ b ∷ a ∷ []) =
      ShowsNew new_id c × Returned new_id b × ((v : Json) × (read_reply d.reply ≡ ok v))
  Completed new_id _ = ⊥

  abbrev pub Outcome : {W : Type 0} → Answer Error Json × (List Exchange × W) → Type 0
  Outcome (value new_id, (l, w)) =
      (is_managed_filter target new_rule ≡ some true) × Ordered l × Completed new_id l
  Outcome (raised e, (l, w)) = Ordered l

  module _ {W : Type 0} (send : Send W) where
    abbrev P : Answer Error Json × (List Exchange × W) → Type 0
    P = Outcome

    abbrev R : Send (List Exchange × W)
    R = recorded send

    deletion :
        (new_id : Json) (c b a : Exchange) (w : W)
        → is_managed_filter target new_rule ≡ some true
        → ShowsNew new_id c
        → Returned new_id b
        → IsAddition b
        → ShowsOld a
        → P ((delete_filter R old_id >>= λ (v : Json). pure new_id) (c ∷ b ∷ a ∷ [], w))
    unfolding delete_filter pure
    deletion new_id c b a w m n r i o =
        request-Post send P delete (filter old_id) none (λ v. pure new_id) (c ∷ b ∷ a ∷ [], w)
          (λ q w' e. (refl, refl, new_id, n, r, i, o))
          (λ q w' v e. (m, (refl, refl, new_id, n, r, i, o), (n, r, (v, e))))

    verification :
        (new_id : Json) (b a : Exchange) (w : W)
        → is_managed_filter target new_rule ≡ some true
        → Returned new_id b
        → IsAddition b
        → ShowsOld a
        → P (
            (list_filters R (some (rule_domain new_rule)) >>= λ readback.
            need R (any_filter (shows_new new_id new_rule) readback) not_confirmed
            >>= λ (u : Unit {0}). delete_filter R old_id >>= λ (v : Json). pure new_id)
              (b ∷ a ∷ [], w))
    verification new_id b a w m r i o =
        list_filters-Post send P (some (rule_domain new_rule)) _ (b ∷ a ∷ [], w)
          (λ q w' e. (refl, new_id, r, i, o))
          (λ q w' fs e.
            need-Post send P _ _ _ _ (λ e'. (refl, new_id, r, i, o))
              (λ y. deletion new_id _ b a w' m (refl, refl, fs, e, y) r i o))

    addition :
        (a : Exchange) (w : W)
        → is_managed_filter target new_rule ≡ some true
        → ShowsOld a
        → P (
            (add_filter R new_rule >>= λ result. need_get R (codes "id") null result >>= λ new_id.
            require (truthy new_id) no_id >>= λ (u : Unit {0}).
            list_filters R (some (rule_domain new_rule)) >>= λ readback.
            need R (any_filter (shows_new new_id new_rule) readback) not_confirmed
            >>= λ (u : Unit {0}). delete_filter R old_id >>= λ (v : Json). pure new_id)
              (a ∷ [], w))
    unfolding add_filter
    addition a w m o =
        request-Post send P post (filters none) (some new_rule) _ (a ∷ [], w)
          (λ q w' e. ((refl, refl, refl), o))
          (λ q w' v e.
            need_get-Post send P (codes "id") null v _ _ (λ e'. ((refl, refl, refl), o))
              (λ fs y.
                require-Post send P _ _ _ _ (λ e'. ((refl, refl, refl), o))
                  (λ tr. verification _ _ a w' m (fs, e ∙ ap ok y, refl, tr) (refl, refl, refl) o)))

    -- However it ends and whatever the server answers, `replace_managed_filter` sends its requests in
    -- this order and no others: it reads the filters of the old domain, and goes on only if the old
    -- filter is among them and managed; it adds the new rule, and goes on only if an id comes back;
    -- it reads the new rule's domain, and goes on only if a filter with this id and the rule's
    -- domain, conditions and action is there; and only then it deletes the old filter. If it returns,
    -- the new rule was managed, all four requests were made, the last was answered without an error,
    -- and what it returns is the id of the new filter.
    pub replace_keeps :
        (w : W)
        → Outcome (replace_managed_filter (recorded send) target old_id new_rule old_domain ([], w))
    unfolding replace_managed_filter
    replace_keeps w =
        need-Post send P (is_managed_filter target new_rule) not_managed _ ([], w) (λ e. tt)
          (λ m.
            list_filters-Post send P (some (chosen_domain old_domain new_rule)) _ ([], w)
              (λ q w' e. refl)
              (λ q w' fs e.
                need-Post send P _ _ _ _ (λ e'. refl)
                  (λ y. addition _ w' m (refl, refl, fs, e, y))))
