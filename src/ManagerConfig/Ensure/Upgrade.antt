-- ===== src/ManagerConfig/Ensure/Upgrade.antt =====
-- What `ensure_runtime_config` (manager/manage.py) keeps and stores.
use xserver_mail_lineworks.Shared.{
  ◌≡◌, refl, ◌∙◌, ap, sym, Bool, true, false, ◌||◌, Option, none, some, List, ◌==◌, ==_refl, nat_eq,
  list_eq, ◌∷◌, contains, list_beq, Text, codes, Json, null, arr, str, obj, strs, Fields, get_field,
  ◌⊎◌, inl, inr, [],
}
use xserver_mail_lineworks.Shared.Exec.{Exec, Answer, value, raised, proceed, pure, require, ◌>>=◌}
use xserver_mail_lineworks.ManagerConfig.Runtime.{Failure, set_field, encode64, key_is_valid}
use xserver_mail_lineworks.ManagerConfig.Runtime.Validation.{validate_runtime_config}
use xserver_mail_lineworks.ManagerConfig.Runtime.Validation.Bounds.{
  IsBounded, facts, validated-IsBounded, get_field-set_field,
}
use xserver_mail_lineworks.ManagerConfig.Runtime.Validation.Fixed.{
  validated-fixed, other_keys-kept, dict-config,
}
use xserver_mail_lineworks.ManagerConfig.Ensure.{
  equal_json, Error, CasResult, Outside, Self, outside, read_private_config, confirm, swapped,
  replace_private_config, lift, key_name, with_key, recipients_in, recipients_of, keep,
  unless_equal, ensure_runtime_config, catching, invalid, read_failed, conflict, not_confirmed,
}

module _ {W : Type 0} (out : Outside W) where
  -- The configuration was swapped in for the one of this hash, and read back.
  abbrev pub Replaced : Text → Fields → Type 0
  Replaced sha256 updated =
      (w v x : W) × (result : CasResult) × (back : Fields × Text) × (out.compare_and_swap sha256
          updated w
        ≡ (value result, v))
      × (out.read v ≡ (value back, x))
      × ((result.status == codes "changed" || result.status == codes "unchanged") ≡ true)
      × (confirm out result updated back ≡ true)

  -- The authentication key is a valid one, or it was null and still is.
  abbrev pub HasKey : Fields → Fields → Type 0
  HasKey current updated =
      ((key : Text) × (get_field (key_name out) updated ≡ some (str key))
        × (key_is_valid (some (str key)) ≡ true))
      ⊎ ((get_field (key_name out) updated ≡ some null)
          × (get_field (key_name out) current ≡ some null))

  -- Where the key of `keyed` comes from: it is that of `c`, or it was made.
  abbrev KeyFrom : Fields → Fields → Type 0
  KeyFrom c keyed =
      ((v : Json) × (get_field (key_name out) keyed ≡ some v)
        × (get_field (key_name out) c ≡ some v))
      ⊎ ((key : Text) × (get_field (key_name out) keyed ≡ some (str key)))

  valid_key :
      (r : Fields)
      → validate_runtime_config (obj r) true ≡ value r
      → key_is_valid (get_field (key_name out) r) ≡ true
  valid_key r h =
      let f = facts (obj r) true r h in
      ap (λ c. key_is_valid (get_field (key_name out) c)) (sym (dict-config f)) ∙ f.has_key

  one_of-HasKey :
      (c r : Fields) (v : Json)
      → get_field (key_name out) r ≡ some v
      → get_field (key_name out) c ≡ some v
      → key_is_valid (some v) ≡ true
      → HasKey c r
  unfolding key_is_valid
  one_of-HasKey c r null e o k = inr (e, o)
  one_of-HasKey c r (str key) e o k = inl (key, e, k)
  one_of-HasKey c r v e o k = cc

  KeyFrom-HasKey :
      (c keyed r : Fields)
      → KeyFrom c keyed
      → get_field (key_name out) r ≡ get_field (key_name out) keyed
      → validate_runtime_config (obj r) true ≡ value r
      → HasKey c r
  KeyFrom-HasKey c keyed r (inl (v, e, o)) same h =
      one_of-HasKey c r v (same ∙ e) o (ap key_is_valid (sym (same ∙ e)) ∙ valid_key r h)
  KeyFrom-HasKey c keyed r (inr (key, e)) same h =
      inl (key, same ∙ e, ap key_is_valid (sym (same ∙ e)) ∙ valid_key r h)

  canonical_key :
      (current : Fields) (strict : Bool) (canonical : Fields)
      → validate_runtime_config (obj current) strict ≡ value canonical
      → get_field (key_name out) canonical ≡ get_field (key_name out) current
  unfolding contains list_beq
  canonical_key current strict canonical a =
      other_keys-kept current strict canonical (key_name out) a refl

  KeyFrom-kept :
      (current canonical keyed : Fields)
      → get_field (key_name out) canonical ≡ get_field (key_name out) current
      → KeyFrom canonical keyed
      → KeyFrom current keyed
  KeyFrom-kept current canonical keyed same (inl (v, e, o)) = inl (v, e, sym same ∙ o)
  KeyFrom-kept current canonical keyed same (inr made) = inr made

  module _ {A : Type 0} (Q : Answer Error A × (Self × W) → Type 0) where
    outside-Post :
        {B : Type 0} (m : Exec Error W B) (f : B → Exec Error (Self × W) A) (self : Self) (w : W)
        → ((e : Error) (w' : W) → Q (raised e, (self, w')))
        → ((b : B) (w' : W) → m w ≡ (value b, w') → Q (f b (self, w')))
        → Q ((outside out m >>= f) (self, w))
    unfolding outside ◌>>=◌
    outside-Post m f self w fail next = go (m w) refl
      where
        go : (r : Answer Error _ × W) → m w ≡ r → Q (proceed r.0 f (self, r.1))
        go (value b, w') e = next b w' e
        go (raised x, w') e = fail x w'

    read-Post :
        (f : Fields × Text → Exec Error (Self × W) A) (self : Self) (w : W)
        → ((e : Error) (w' : W) → Q (raised e, (self, w')))
        → ((b : Fields × Text) (w' : W) → out.read w ≡ (value b, w') → Q (f b (self, w')))
        → Q ((read_private_config out >>= f) (self, w))
    unfolding read_private_config outside ◌>>=◌
    read-Post f self w fail next = go (out.read w) refl
      where
        go :
            (r : Answer Error (Fields × Text) × W)
            → out.read w ≡ r
            → Q (proceed (catching out read_failed r.0) f (self, r.1))
        go (value b, w') e = next b w' e
        go (raised x, w') e = fail read_failed w'

    lift-Post :
        {B : Type 0} (r : Answer Failure B) (f : B → Exec Error (Self × W) A) (s : Self × W)
        → ((e : Error) → Q (raised e, s))
        → ((b : B) → r ≡ value b → Q (f b s))
        → Q ((lift out r >>= f) s)
    unfolding ◌>>=◌
    lift-Post (value b) f s fail next = next b refl
    lift-Post (raised e) f s fail next = fail (invalid e)

    require-Post :
        (t : Bool) (e : Error) (f : Unit {0} → Exec Error (Self × W) A) (s : Self × W)
        → Q (raised e, s)
        → (t ≡ true → Q (f tt s))
        → Q ((require t e >>= f) s)
    unfolding ◌>>=◌
    require-Post true e f s fail next = next refl
    require-Post false e f s fail next = fail

    pure-Post :
        {B : Type 0} (b : B) (f : B → Exec Error (Self × W) A) (s : Self × W)
        → Q (f b s)
        → Q ((pure b >>= f) s)
    unfolding ◌>>=◌
    pure-Post b f s q = q

    assoc-Post :
        {B C : Type 0} (m : Exec Error (Self × W) C) (g : C → Exec Error (Self × W) B)
        (f : B → Exec Error (Self × W) A) (s : Self × W)
        → Q ((m >>= λ c. g c >>= f) s)
        → Q (((m >>= g) >>= f) s)
    unfolding ◌>>=◌
    assoc-Post {B} {C} m g f s q = go (m s) q
      where
        go :
            (r : Answer Error C × (Self × W))
            → Q (proceed r.0 (λ c t. proceed (g c t).0 f (g c t).1) r.1)
            → Q (proceed (proceed r.0 g r.1).0 f (proceed r.0 g r.1).1)
        go (value c, t) q = q
        go (raised e, t) q = q

    with_key-Post :
        (c : Fields) (k : Option Json) (f : Fields → Exec Error (Self × W) A) (self : Self) (w : W)
        → get_field (key_name out) c ≡ k
        → ((e : Error) (w' : W) → Q (raised e, (self, w')))
        → ((keyed : Fields) (w' : W) → KeyFrom c keyed → Q (f keyed (self, w')))
        → Q ((with_key out c k >>= f) (self, w))
    with_key-Post c (some key) f self w h fail next =
        pure-Post c f (self, w) (next c w (inl (key, h, h)))
    with_key-Post c none f self w h fail next =
        assoc-Post _ _ f (self, w)
          (outside-Post out.token_bytes _ self w fail (λ bytes w' e.
            pure-Post _ f (self, w')
              (next (set_field (key_name out) (str (encode64 bytes)) c) w'
                (inr (encode64 bytes, key_set bytes)))))
      where
        key_set :
            (bytes : Text)
            → get_field (key_name out) (set_field (key_name out) (str (encode64 bytes)) c)
              ≡ some (str (encode64 bytes))
        key_set bytes =
            rw
              (
                get_field-set_field (key_name out) (key_name out) (str (encode64 bytes)) c,
                ==_refl (key_name out),
              )
              refl

    swapped-Post :
        (sha256 : Text) (updated : Fields) (f : Bool → Exec Error (Self × W) A) (self : Self)
        (w v : W) (result : CasResult)
        → out.compare_and_swap sha256 updated w ≡ (value result, v)
        → (lost_race : Bool) → ((e : Error) (w' : W) → Q (raised e, (self, w')))
        → Q (f false (self, v))
        → ((w' : W) → Replaced sha256 updated → Q (f true (self, w')))
        → Q ((swapped out result updated lost_race >>= f) (self, v))
    swapped-Post sha256 updated f self w v result e true fail lost next =
        pure-Post false f (self, v) lost
    swapped-Post sha256 updated f self w v result e false fail lost next =
        assoc-Post _ _ f (self, v)
          (require-Post (result.status == codes "changed" || result.status == codes "unchanged")
            not_confirmed _ (self, v) (fail not_confirmed v)
            (λ t.
              assoc-Post _ _ f (self, v)
                (outside-Post out.read _ self v fail (λ back x q.
                  assoc-Post _ _ f (self, x)
                    (require-Post (confirm out result updated back) not_confirmed _ (self, x)
                      (fail not_confirmed x)
                      (λ y.
                        pure-Post true f (self, x)
                          (next x (w, v, x, result, back, e, q, t, y))))))))

    replace-Post :
        (sha256 : Text) (updated : Fields) (f : Bool → Exec Error (Self × W) A) (self : Self)
        (w : W)
        → ((e : Error) (w' : W) → Q (raised e, (self, w')))
        → ((w' : W) → Q (f false (self, w')))
        → ((w' : W) → Replaced sha256 updated → Q (f true (self, w')))
        → Q ((replace_private_config out sha256 updated >>= f) (self, w))
    unfolding replace_private_config
    replace-Post sha256 updated f self w fail lost next =
        assoc-Post _ _ f (self, w)
          (outside-Post (out.compare_and_swap sha256 updated) _ self w fail (λ result v e.
            swapped-Post sha256 updated f self w v result e (result.status == codes "conflict") fail
              (lost v) next))

  -- The manager keeps a configuration that was read and upgraded, and that is stored.
  abbrev pub Upgraded : W → Self → Type 0
  Upgraded w self =
      (validate_runtime_config (obj self.config) true ≡ value self.config)
      × IsBounded self.config
      × (get_field (codes "error_recipients") self.config ≡ some (arr (strs self.error_recipients)))
      × (current : Fields) × (sha256 : Text) × (v : W) × (out.read w ≡ (value (current, sha256), v))
      × HasKey current self.config
      × ((equal_json (obj self.config) (obj current) ≡ true) ⊎ Replaced sha256 self.config)

  abbrev pub Outcome : Self → W → Answer Error Bool × (Self × W) → Type 0
  Outcome self w (value b, (self', w')) = (b ≡ true) × Upgraded w self'
  Outcome self w (raised e, (self', w')) = self' ≡ self

  recipients_in-strs : (xs : List Text) → recipients_in out (strs xs) ≡ xs
  recipients_in-strs [] = refl
  recipients_in-strs (x ∷ xs) = ap (λ ys. x ∷ ys) (recipients_in-strs xs)

  kept_recipients :
      (o : Option Json) (xs : List Text)
      → o ≡ some (arr (strs xs))
      → o ≡ some (arr (strs (recipients_of out o)))
  kept_recipients o xs h = rw h (rw (recipients_in-strs xs) refl)

  module _ (self : Self) (w : W) where
    kept :
        (current : Fields) (sha256 : Text) (v x : W) (keyed updated : Fields)
        → out.read w ≡ (value (current, sha256), v)
        → KeyFrom current keyed
        → validate_runtime_config (obj keyed) true ≡ value updated
        → (equal_json (obj updated) (obj current) ≡ true) ⊎ Replaced sha256 updated
        → Outcome self w (keep out updated (self, x))
    unfolding keep contains list_beq
    kept current sha256 v x keyed updated e k a stored =
        let bounded = validated-IsBounded (obj keyed) true updated a in
        (
          refl,
          (
            validated-fixed (obj keyed) true updated a,
            bounded,
            kept_recipients (get_field (codes "error_recipients") updated) bounded.0 bounded.1.0,
            current,
            sha256,
            v,
            e,
            KeyFrom-HasKey current keyed updated k (canonical_key keyed true updated a)
                (validated-fixed (obj keyed) true updated a),
            stored,
          ),
        )

    stored_if_changed :
        (same : Bool) (current : Fields) (sha256 : Text) (v x : W) (keyed updated : Fields)
        → out.read w ≡ (value (current, sha256), v)
        → KeyFrom current keyed
        → validate_runtime_config (obj keyed) true ≡ value updated
        → equal_json (obj updated) (obj current) ≡ same
        → Outcome self w (unless_equal out same sha256 updated (self, x))
    stored_if_changed true current sha256 v x keyed updated e k a s =
        kept current sha256 v x keyed updated e k a (inl s)
    stored_if_changed false current sha256 v x keyed updated e k a s =
        replace-Post (Outcome self w) sha256 updated _ self x (λ e w'. refl)
          (λ w'.
            require-Post (Outcome self w) false conflict _ (self, w') refl (λ h. absurd (cc h)))
          (λ w' r.
            require-Post (Outcome self w) true conflict _ (self, w') refl
              (λ h. kept current sha256 v w' keyed updated e k a (inr r)))

    -- `ensure_runtime_config` either raises, and the manager keeps what it had, or returns `True`, and the
    -- manager keeps a configuration that is within the bounds, has an authentication key and is its
    -- own upgrade, with its error recipients; and this configuration equals the one that was read, or
    -- was swapped in for exactly that one, by its hash, and read back equal. The key is valid, except
    -- that a null which was stored as the key is kept.
    pub ensure-Outcome : Outcome self w (ensure_runtime_config out (self, w))
    unfolding ensure_runtime_config
    ensure-Outcome =
        read-Post (Outcome self w) _ self w (λ e w'. refl)
          (λ current v e.
            lift-Post (Outcome self w) (validate_runtime_config (obj current.0) false) _ (self, v)
              (λ x. refl)
              (λ canonical a.
                with_key-Post (Outcome self w) canonical (get_field (key_name out) canonical) _ self
                  v refl (λ x w'. refl)
                  (λ keyed x k.
                    lift-Post (Outcome self w) (validate_runtime_config (obj keyed) true) _
                      (self, x) (λ y. refl)
                      (λ updated b.
                        stored_if_changed (equal_json (obj updated) (obj current.0)) current.0
                          current.1 v x keyed updated e
                          (KeyFrom-kept current.0 canonical keyed
                            (canonical_key current.0 false canonical a) k)
                          b refl))))
