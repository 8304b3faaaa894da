-- ===== src/DeliveryRecovery/Menu/Confirmation.antt =====
-- What must have happened before the menu of manager/recovery.py sends a notification again.
use xserver_mail_lineworks.Shared.{
  ℕ, suc, ◌≡◌, refl, sym, ap, ◌⊎◌, inl, inr, true, Option, none, some, List, [], ◌∷◌, ◌==◌, ==_iff,
  nat_eq, list_eq, ◌&&◌, ◌^◌, ltb, leb, get_field, codes, Text, Fields, arith, Bool-cases,
  Option-cases, subst,
}
use xserver_mail_lineworks.Shared.Exec.{Answer, Answer-cases, value, raised, pure, raise, ◌>>=◌}
use xserver_mail_lineworks.DeliveryRecovery.{
  Failure, bad_time, overflow, Output, read_output, rows_of, is_retryable,
}
use xserver_mail_lineworks.DeliveryRecovery.Menu.{
  Event, called, shown, Console, Choice, numbered, list_arguments, retry_arguments, choose, row_at,
  row_id, row_revision, phrase, ask_phrase, ask_number, handle, row_line, back, bad, too_long, call,
  list_items, retry_selected, show, read_line, created_at, from_timestamp, show_rows, send_again,
  confirm, at_row, chosen, offer, show_recovery_menu,
}

-- The remote commands of a session, the latest first.
abbrev pub calls : List Event → List (List Text)
calls [] = []
calls (called a ∷ es) = a ∷ calls es
calls (shown m ∷ es) = calls es

module _ {W : Type 0} (run_trusted : List Text → W → Output × W) where
  -- The remote commands after some that were given before: none, or the one that sends `r` again.
  abbrev Sent : Fields → List (List Text) → List (List Text) → Type 0
  Sent r before after =
      (after ≡ before) ⊎ (after ≡ retry_arguments (row_id r) (row_revision r) ∷ before)

  send_again-Sent :
      (r : Fields) (c : Console W)
      → Sent r (calls c.events) (calls (send_again run_trusted r c).1.events)
  unfolding send_again retry_selected call show ◌>>=◌
  send_again-Sent r c = ground arith

  confirm-Sent :
      (r : Fields) (ins : List Text) (es : List Event) (w : W)
      → let after =
          calls
            (confirm run_trusted r (record { inputs = ins; events = es; world = w })).1.events in
        (after ≡ calls es)
        ⊎ ((rest : List Text) × (ins ≡ phrase r ∷ rest)
            × (after ≡ retry_arguments (row_id r) (row_revision r) ∷ calls es))
  unfolding confirm show read_line ◌>>=◌
  confirm-Sent r [] es w = inl refl
  confirm-Sent r (t ∷ ts) es w = elim (Bool-cases (t == phrase r)) [
    | inl e ↦
        rw e
          (elim (send_again-Sent r
            (record { inputs = ts; events = shown (ask_phrase (phrase r)) ∷ es; world = w })) [
              | inl q ↦ inl q
              | inr q ↦ inr (ts, ap (λ x. x ∷ ts) ((==_iff t (phrase r)).0 e), q)
            ])
    | inr n ↦ rw n (inl refl)
  ]

  -- The row that was chosen, and the confirmation.
  abbrev Chosen : List Fields → Choice → List Text → List Text → Type 0
  Chosen rows choice ins arguments =
      (n : ℕ) × (r : Fields) × (rest : List Text) × (choice ≡ numbered n)
      × (row_at n rows ≡ some r)
      × (is_retryable r ≡ true)
      × (ins ≡ phrase r ∷ rest)
      × (arguments ≡ retry_arguments (row_id r) (row_revision r))

  abbrev pub SentAs : (List Text → Type 0) → List (List Text) → List (List Text) → Type 0
  SentAs P before after = (after ≡ before) ⊎ ((a : List Text) × (after ≡ a ∷ before) × P a)

  at_row-Sent :
      (n : ℕ) (rows : List Fields) (o : Option Fields) (ins : List Text) (es : List Event) (w : W)
      → row_at n rows ≡ o
      → SentAs
          (Chosen rows (numbered n) ins)
          (calls es)
          (calls (at_row run_trusted o (record { inputs = ins; events = es; world = w })).1.events)
  unfolding at_row show
  at_row-Sent n rows none ins es w q = inl refl
  at_row-Sent n rows (some r) ins es w q = elim (Bool-cases (is_retryable r)) [
    | inl y ↦ rw y (elim (confirm-Sent r ins es w) [
      | inl h ↦ inl h
      | inr (rest, i, h) ↦
          inr (retry_arguments (row_id r) (row_revision r), h, (n, r, rest, refl, q, y, i, refl))
    ])
    | inr f ↦ rw f (inl refl)
  ]

  chosen-Sent :
      (rows : List Fields) (choice : Choice) (ins : List Text) (es : List Event) (w : W)
      → SentAs (Chosen rows choice ins) (calls es) (
          calls
            (chosen run_trusted rows choice
              (record { inputs = ins; events = es; world = w })).1.events)
  unfolding chosen show pure raise
  chosen-Sent rows back ins es w = inl refl
  chosen-Sent rows bad ins es w = inl refl
  chosen-Sent rows too_long ins es w = inl refl
  chosen-Sent rows (numbered n) ins es w = at_row-Sent n rows (row_at n rows) ins es w refl

  from_timestamp_lem :
      (n : ℕ) (c : Console W)
      → (from_timestamp run_trusted n c ≡ (value tt, c))
        ⊎ ((f : Failure) × (from_timestamp run_trusted n c ≡ (raised f, c)))
  unfolding from_timestamp pure raise
  from_timestamp_lem n c = elim (Bool-cases (ltb n 253402268400)) [
    | inl y ↦ inl (rw y refl)
    | inr k ↦ elim (Bool-cases (leb 253402300800 n && ltb n (2 ^ 63))) [
      | inl y ↦ inr (bad_time, rw (k, y) refl)
      | inr m ↦ inr (overflow, rw (k, m) refl)
    ]
  ]

  -- Showing the rows returns or raises, and calls nothing.
  abbrev Shown : List Text → List Event → W → Answer Failure (Unit {0}) × Console W → Type 0
  Shown ins es w r =
      (es' : List Event) × (calls es' ≡ calls es)
      × ((r ≡ (value tt, record { inputs = ins; events = es'; world = w }))
          ⊎ ((f : Failure) × (r ≡ (raised f, record { inputs = ins; events = es'; world = w }))))

  show_rows_lem :
      (n : ℕ) (rs : List Fields) (ins : List Text) (es : List Event) (w : W)
      → Shown ins es w
          (show_rows run_trusted n rs (record { inputs = ins; events = es; world = w }))
  unfolding show_rows show ◌>>=◌
  show_rows_lem n [] ins es w = (es, refl, inl refl)
  show_rows_lem n (r ∷ rs) ins es w =
      elim (from_timestamp_lem (created_at run_trusted (get_field (codes "created_at") r))
        (record { inputs = ins; events = es; world = w })) [
          | inl e ↦ rw e (show_rows_lem (suc n) rs ins (shown (row_line n r) ∷ es) w)
          | inr (f, e) ↦ rw e (es, refl, inr (f, refl))
        ]

  -- What was typed: the line with the number and then the exact phrase.
  abbrev Typed : List Fields → List Text → List Text → Type 0
  Typed rows [] arguments = ⊥
  Typed rows (line ∷ ins) arguments = Chosen rows (choose line) ins arguments

  offer-Sent :
      (rows : List Fields) (ins : List Text) (es : List Event) (w : W)
      → SentAs (Typed rows ins) (calls es) (
          calls (offer run_trusted rows (record { inputs = ins; events = es; world = w })).1.events)
  unfolding offer show read_line ◌>>=◌
  offer-Sent [] ins es w = inl refl
  offer-Sent (r ∷ rs) ins es w =
      let (es', k, s) = show_rows_lem 1 (r ∷ rs) ins es w in
      elim s [ inl e ↦ rw e (typed ins es' k) | inr (f, e) ↦ rw e (inl k) ]
    where
      typed :
          (ins : List Text) (es' : List Event)
          → calls es' ≡ calls es
          → SentAs (Typed (r ∷ rs) ins) (calls es) (
              calls
                ((show run_trusted ask_number >>= λ (u : Unit {0}).
                    read_line run_trusted >>= λ line. chosen run_trusted (r ∷ rs) (choose line))
                  (record { inputs = ins; events = es'; world = w })).1.events)
      typed [] es' k = inl k
      typed (line ∷ ins) es' k =
          subst
            (λ b. SentAs (Typed (r ∷ rs) (line ∷ ins)) b (
              calls
                (chosen run_trusted (r ∷ rs) (choose line)
                  (record { inputs = ins; events = shown ask_number ∷ es'; world = w })).1.events))
            k (chosen-Sent (r ∷ rs) (choose line) ins (shown ask_number ∷ es') w)

  handle-calls :
      (x : Answer Failure (Unit {0}) × Console W)
      → calls (handle run_trusted x).1.events ≡ calls x.1.events
  handle-calls (value u, c) = refl
  handle-calls (raised e, c) = ground arith

  -- The rows that the listing returned.
  abbrev Listed : W → List Fields → Type 0
  Listed w rows =
      (fs : Fields) × (read_output (run_trusted list_arguments w).0 ≡ value fs)
      × (rows_of fs ≡ some rows)

  -- A retry that the menu may send: of a row of the listing that may be sent again, whose number was
  -- typed first, and whose phrase was typed next.
  abbrev pub Confirmed : W → List Text → List Text → Type 0
  Confirmed w ins arguments = (rows : List Fields) × Listed w rows × Typed rows ins arguments

  listed-Sent :
      (ins : List Text) (w : W)
      → SentAs (Confirmed w ins) (list_arguments ∷ []) (
          calls
            ((list_items run_trusted >>= offer run_trusted)
              (record { inputs = ins; events = []; world = w })).1.events)
  unfolding list_items call pure raise ◌>>=◌
  listed-Sent ins w = elim (Answer-cases (read_output (run_trusted list_arguments w).0)) [
    | inr (e, q) ↦ rw q (inl refl)
    | inl (fs, q) ↦ elim (Option-cases (rows_of fs)) [
      | inl n ↦ rw (q, n) (inl refl)
      | inr (rows, s) ↦
          rw (q, s)
            (elim (offer-Sent rows ins (called list_arguments ∷ [])
              (run_trusted list_arguments w).1) [
                | inl h ↦ inl h
                | inr (a, h, c) ↦ inr (a, h, (rows, (fs, refl, s), c))
              ])
    ]
  ]

  -- Whatever the server answers and whatever is typed, the menu gives the command that lists the
  -- notifications and at most one more. That one sends one notification again, and then the listing
  -- was valid and has a row that may be sent again, the first line typed is the row's number, the
  -- second is exactly the row's phrase, and the command has this row's id and revision.
  pub retry-Confirmed :
      (ins : List Text) (w : W)
      → SentAs (Confirmed w ins) (list_arguments ∷ []) (
          calls
            (show_recovery_menu run_trusted
              (record { inputs = ins; events = []; world = w })).1.events)
  unfolding show_recovery_menu
  retry-Confirmed ins w =
      subst (SentAs (Confirmed w ins) (list_arguments ∷ []))
        (sym (
          handle-calls (
            (list_items run_trusted >>= offer run_trusted)
              (record { inputs = ins; events = []; world = w }))))
        (listed-Sent ins w)
