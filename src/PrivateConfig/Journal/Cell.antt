-- ===== src/PrivateConfig/Journal/Cell.antt =====
-- The client of manager/private_config_ssh.py keeps what manager/scope_journal.py needs of it, if the
-- helper on the server answers as it does.
use xserver_mail_lineworks.Shared.{
  ◌++◌, ◌≡◌, refl, sym, ◌∙◌, ap, ◌⊎◌, inl, inr, Bool, true, false, ◌&&◌, Option, none, some, [],
  ◌∷◌, ◌==◌, ==_iff, nat_eq, list_eq, option_eq, option_beq, list_beq, leb, length, all, Bool-cases,
  subst, Text, codes, Json, nat, str, obj, Fields, end, field, get_field,
}
use xserver_mail_lineworks.Shared.Exec.{Exec, Answer, value, raised, pure, ◌>>=◌}
use xserver_mail_lineworks.Shared.Posts.{need, require-Post, need-Post, call-Post, assoc-Post}
use xserver_mail_lineworks.XserverApi.Filters.{get_default}
use xserver_mail_lineworks.DeliveryRecovery.{has_keys, text_at, unique_objects}
use xserver_mail_lineworks.ScopeJournal.Store.{JournalKind, target_sync, filter_scope, Ftps}
use xserver_mail_lineworks.ScopeJournal.Store
use xserver_mail_lineworks.ScopeJournal.{Saved, encode}
use xserver_mail_lineworks.ScopeJournal.Store.Cell.{IsCell, ReadsCell, SwapsCell}
use xserver_mail_lineworks.PrivateConfig.{
  Failure, bad_request, unconfirmed, Transport, request, dict, unique,
}
use xserver_mail_lineworks.PrivateConfig.Journal.{
  read_request, read_state, checked_body, read_scope_journal, write_scope_journal, swap_request,
  swap_status, confirmed, try_swap, reread, settle, is_body, is_expected,
  compare_and_swap_scope_journal, unconfirmed_if,
}

module _ {W : Type 0} (t : Transport W) (cell : W → Option Text) where
  -- The helper's reply to a reading.
  abbrev pub state_reply : Option Text → Fields
  state_reply none =
      field (codes "schema_version") (nat 1) (field (codes "state") (str (codes "missing")) end)
  state_reply (some body) =
      field (codes "body_base64") (str (t.b64encode body))
        (field (codes "schema_version") (nat 1) (field (codes "state") (str (codes "present")) end))

  abbrev pub ServesRead : W → Answer Failure Text × W → Type 0
  ServesRead w (value output, w') =
      (cell w' ≡ cell w) × (t.loads output ≡ some (obj (state_reply (cell w))))
  ServesRead w (raised e, w') = cell w' ≡ cell w

  -- The helper's reply to a swap.
  abbrev pub status_reply : Text → Fields
  status_reply status =
      field (codes "schema_version") (nat 1) (field (codes "status") (str status) end)

  abbrev pub ServesSwap : Option Text → Text → W → Answer Failure Text × W → Type 0
  ServesSwap expected desired w (value output, w') =
      ((t.loads output ≡ some (obj (status_reply (codes "changed"))))
        × (cell w ≡ expected)
        × (cell w' ≡ some desired))
      ⊎ (((t.loads output ≡ some (obj (status_reply (codes "already_applied"))))
            × (cell w ≡ some desired)
            × (cell w' ≡ cell w))
          ⊎ ((t.loads output ≡ some (obj (status_reply (codes "conflict")))) × (cell w' ≡ cell w)))
  ServesSwap expected desired w (raised e, w') =
      (cell w' ≡ cell w) ⊎ ((cell w ≡ expected) × (cell w' ≡ some desired))

-- The helper serves the cell: what it answers, if an answer comes back, is what it did; a swap of
-- which no answer comes back may have been made or not.
pub record Serves {W : Type 0} (t : Transport W) (cell : W → Option Text) : Type 0 where
  pub decodes : (body : Text) → t.b64decode (t.b64encode body) ≡ some body
  pub reads :
      (w : W)
      → ServesRead t cell w (t.run_trusted (t.canonical (obj (read_request t target_sync))) w)
  pub swaps :
      (expected : Option Text) (desired : Text) (w : W)
      → ServesSwap t cell expected desired w
          (t.run_trusted (t.canonical (obj (swap_request t expected desired))) w)

module _ {W : Type 0} (t : Transport W) (cell : W → Option Text) (serves : Serves t cell) where
  text-inj : {a b : Option Text} → some a ≡ some b → b ≡ a
  text-inj h = cc

  checked-body :
      (encoded body : Text) (b : Option Text)
      → checked_body t encoded (some body) ≡ some b
      → b ≡ some body
  checked-body encoded body b h = elim (Bool-cases (is_body body && t.b64encode body == encoded)) [
    | inl y ↦ text-inj (rw y at h)
    | inr n ↦ absurd (cc (rw n at h))
  ]

  read_state-reply : (c b : Option Text) → read_state t (state_reply t cell c) ≡ some b → b ≡ c
  unfolding read_state text_at has_keys get_default get_field all list_beq option_beq
  read_state-reply none b h = cc
  read_state-reply (some body) b h =
      checked-body (t.b64encode body) body b (rw (serves.decodes body) at h)

  json-inj : {u v w : Json} → some u ≡ some w → some u ≡ some v → w ≡ v
  json-inj h e = cc

  unique-some : (o : Option Json) {v w : Json} → o ≡ some v → unique t o ≡ some w → w ≡ v
  unique-some none e h = cc
  unique-some (some u) e h = elim (Bool-cases (unique_objects u)) [
    | inl y ↦ json-inj (rw y at h) e
    | inr n ↦ absurd (cc (rw n at h))
  ]

  dict-inj : {v : Json} {fs gs : Fields} → v ≡ obj gs → dict v ≡ some fs → fs ≡ gs
  dict-inj {v} {fs} {gs} e d = fields-inj (sym d ∙ ap dict e)
    where
      fields-inj : {fs gs : Fields} → some fs ≡ some gs → fs ≡ gs
      fields-inj h = cc

  module _ {A : Type 0} (Q : Answer Failure A × W → Type 0) where
    request-Post :
        (fs : Fields) (f : Json → Exec Failure W A) (w : W)
        → Q (raised bad_request, w)
        → ((e : Failure) (w' : W)
            → t.run_trusted (t.canonical (obj fs)) w ≡ (raised e, w')
            → Q (raised e, w'))
        → ((output : Text) (w' : W)
            → t.run_trusted (t.canonical (obj fs)) w ≡ (value output, w')
            → Q (raised unconfirmed, w')
              × ((v : Json) → unique t (t.loads output) ≡ some v → Q (f v w')))
        → Q ((request t fs >>= f) w)
    unfolding request
    request-Post fs f w large fail next = assoc-Post Q _ _ f w (
        require-Post Q (leb (length (t.canonical (obj fs))) 262144) bad_request _ w large (λ l.
          assoc-Post Q _ _ f w (
            call-Post Q (t.run_trusted (t.canonical (obj fs))) _ w fail (λ output w' e.
              need-Post Q unconfirmed (unique t (t.loads output)) f w' (next output w' e).0
                (next output w' e).1))))

  abbrev ReadOutcome : W → Answer Failure (Option Text) × W → Type 0
  ReadOutcome w (value b, w') = (b ≡ cell w) × (cell w' ≡ cell w)
  ReadOutcome w (raised e, w') = cell w' ≡ cell w

  state-ReadOutcome :
      (w w' : W) (o : Option (Option Text))
      → cell w' ≡ cell w
      → ((b : Option Text) → o ≡ some b → b ≡ cell w)
      → ReadOutcome w (need unconfirmed o w')
  unfolding need
  state-ReadOutcome w w' none same at = same
  state-ReadOutcome w w' (some b) same at = (at b refl, same)

  read-Outcome : (w : W) → ReadOutcome w (read_scope_journal t target_sync w)
  unfolding read_scope_journal
  read-Outcome w =
      request-Post (ReadOutcome w) (read_request t target_sync) _ w refl
        (λ e w' h. subst (ServesRead t cell w) h (serves.reads w))
        (λ output w' h.
          let (same, reply) = subst (ServesRead t cell w) h (serves.reads w) in
          (
            same,
            λ v u. need-Post (ReadOutcome w) unconfirmed (dict v) _ w' same (λ fs d.
                state-ReadOutcome w w' (read_state t fs) same (λ b q. read_state-reply (cell w) b (
                  subst (λ gs. read_state t gs ≡ some b)
                    (dict-inj (unique-some (t.loads output) reply u) d) q))),
          ))

  module _ (expected : Option Text) (desired : Text) (w : W) where
    -- What is known after the swap was tried.
    abbrev Tried : Bool → W → Type 0
    Tried true w' = (cell w' ≡ some desired) × ((cell w ≡ expected) ⊎ (cell w ≡ some desired))
    Tried false w' = (cell w' ≡ cell w) ⊎ ((cell w ≡ expected) × (cell w' ≡ some desired))

    abbrev SwapOutcome : Answer Failure Text × W → Type 0
    SwapOutcome (value b, w') = (b ≡ desired) × Tried true w'
    SwapOutcome (raised e, w') = Tried false w'

    abbrev Replied : Answer Failure Json × W → Type 0
    Replied (r, w') = Tried (confirmed t r) w'

    abbrev Served : Text → W → Type 0
    Served output w' = ServesSwap t cell expected desired w (value output, w')

    unread : (output : Text) (w' : W) → Served output w' → Tried false w'
    unread output w' (inl (r, e, s)) = inr (e, s)
    unread output w' (inr (inl (r, e, s))) = inl s
    unread output w' (inr (inr (r, s))) = inl s

    answered :
        (output : Text) (w' : W) (v : Json)
        → Served output w'
        → unique t (t.loads output) ≡ some v
        → Replied (value v, w')
    unfolding swap_status text_at has_keys get_default get_field all list_beq option_beq
    answered output w' v (inl (r, e, s)) u = rw (unique-some (t.loads output) r u) (s, inl e)
    answered output w' v (inr (inl (r, e, s))) u =
        rw (unique-some (t.loads output) r u) (s ∙ e, inr e)
    answered output w' v (inr (inr (r, s))) u = rw (unique-some (t.loads output) r u) (inl s)

    need-Replied :
        (output : Text) (w' : W) (o : Option Json)
        → Served output w'
        → unique t (t.loads output) ≡ o
        → Replied (need unconfirmed o w')
    unfolding need
    need-Replied output w' none s u = unread output w' s
    need-Replied output w' (some v) s u = answered output w' v s u

    request-Replied : Replied (request t (swap_request t expected desired) w)
    unfolding request
    request-Replied =
        require-Post Replied
          (leb (length (t.canonical (obj (swap_request t expected desired)))) 262144) bad_request _
          w (inl refl)
          (λ l.
            call-Post Replied (t.run_trusted (t.canonical (obj (swap_request t expected desired))))
              _ w
              (λ e w' h.
                subst (ServesSwap t cell expected desired w) h (serves.swaps expected desired w))
              (λ output w' h.
                need-Replied output w' (unique t (t.loads output))
                  (subst (ServesSwap t cell expected desired w) h (serves.swaps expected desired w))
                  refl))

    reread-Outcome : (w' : W) → ReadOutcome w' (reread t w')
    unfolding reread
    reread-Outcome w' = go (read_scope_journal t target_sync w') (read-Outcome w')
      where
        go :
            (r : Answer Failure (Option Text) × W)
            → ReadOutcome w' r
            → ReadOutcome w' (unconfirmed_if t r.0, r.1)
        go (value b, v) h = h
        go (raised e, v) h = h

    later : (w' v : W) → cell v ≡ cell w' → Tried false w' → Tried false v
    later w' v same (inl s) = inl (same ∙ s)
    later w' v same (inr (e, s)) = inr (e, same ∙ s)

    found : (w' v : W) → cell v ≡ cell w' → cell w' ≡ some desired → Tried false w' → Tried true v
    found w' v same is (inl s) = (same ∙ is, inr (sym s ∙ is))
    found w' v same is (inr (e, s)) = (same ∙ is, inl e)

    settle-Outcome : (done : Bool) (w' : W) → Tried done w' → SwapOutcome (settle t desired done w')
    unfolding pure
    settle-Outcome true w' tried = (refl, tried)
    settle-Outcome false w' tried =
        call-Post SwapOutcome (reread t) _ w'
          (λ e v h. later w' v (subst (ReadOutcome w') h (reread-Outcome w')) tried)
          (λ current v h.
            let (is, same) = subst (ReadOutcome w') h (reread-Outcome w') in
            require-Post SwapOutcome (current == some desired) unconfirmed _ v
              (later w' v same tried)
              (λ y. (refl, found w' v same (sym is ∙ (==_iff current (some desired)).0 y) tried)))

    tried-Outcome : SwapOutcome ((try_swap t expected desired >>= λ done. settle t desired done) w)
    unfolding try_swap ◌>>=◌
    tried-Outcome =
        settle-Outcome (confirmed t (request t (swap_request t expected desired) w).0)
          (request t (swap_request t expected desired) w).1 request-Replied

    swap-Outcome : SwapOutcome (compare_and_swap_scope_journal t target_sync expected desired w)
    unfolding compare_and_swap_scope_journal
    swap-Outcome =
        require-Post SwapOutcome (is_expected t expected && is_body desired) bad_request _ w
          (inl refl) (λ y. tried-Outcome)

  -- The client as the journal's deployer; what it raises is one failure there.
  abbrev to_outside : {A : Type 0} → Answer Failure A → Answer Store.Failure A
  to_outside (value a) = value a
  to_outside (raised e) = raised Store.outside

  abbrev lifted : {A : Type 0} → Exec Failure W A → Exec Store.Failure W A
  lifted m w = let (r, w') = m w in (to_outside r, w')

  abbrev pub as_journal : (Json → Text) → (Json → Text) → (Text → Option Json) → Ftps W
  as_journal dumps dumps_unicode loads = record {
    read_scope_journal = λ kind. lifted (read_scope_journal t kind);
    compare_and_swap_scope_journal =
        λ kind expected body. lifted (compare_and_swap_scope_journal t kind expected body);
    write_scope_journal = λ kind body. lifted (write_scope_journal t kind body);
    dumps = dumps;
    dumps_unicode = dumps_unicode;
    loads = loads;
    sha256 = t.sha256;
  }

  lifted-ReadsCell :
      (w : W) (r : Answer Failure (Option Text) × W)
      → ReadOutcome w r
      → ReadsCell cell w (to_outside r.0, r.1)
  lifted-ReadsCell w (value b, w') h = h
  lifted-ReadsCell w (raised e, w') h = h

  lifted-SwapsCell :
      (expected : Option Text) (desired : Text) (w : W) (r : Answer Failure Text × W)
      → SwapOutcome expected desired w r
      → SwapsCell cell expected desired w (to_outside r.0, r.1)
  lifted-SwapsCell expected desired w (value b, w') (e, (s, o)) = (e, s, o)
  lifted-SwapsCell expected desired w (raised e, w') h = h

  -- The client of a helper that serves a journal is what the journal needs: a reading leaves it as it
  -- is and gives what it holds, and a swap that returns has stored the bytes in place of the
  -- expected ones, or found them stored, also where the answer to the swap was lost and the reading
  -- after it decided.
  pub client-IsCell :
      (dumps dumps_unicode : Json → Text) (loads : Text → Option Json)
      → ((s : Saved) → loads (dumps (obj (encode s)) ++ b'\n' ∷ []) ≡ some (obj (encode s)))
      → IsCell (as_journal dumps dumps_unicode loads) cell
  client-IsCell dumps dumps_unicode loads prints = record {
    reads = λ w. lifted-ReadsCell w (read_scope_journal t target_sync w) (read-Outcome w);
    swaps = λ expected desired w.
        lifted-SwapsCell expected desired w
          (compare_and_swap_scope_journal t target_sync expected desired w)
          (swap-Outcome expected desired w);
    prints = prints;
  }
