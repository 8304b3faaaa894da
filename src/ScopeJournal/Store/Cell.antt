-- ===== src/ScopeJournal/Store/Cell.antt =====
-- The journal of a synchronisation (manager/scope_journal.py) as one cell that is changed by compare
-- and swap: what `write` and `read_exact` do to it. `IsCell` is what the private configuration client
-- promises (manager/private_config_ssh.py) while no other administrator works on the journal; `IsFile`
-- is the same for the journal of the first migration, which is written whatever it holds.
use xserver_mail_lineworks.Shared.{
  ℕ, ◌≤◌, ◌≡◌, refl, sym, ◌∙◌, ◌⊎◌, inl, inr, true, ◌&&◌, Option, none, some, [], ◌∷◌, ◌++◌, ◌==◌,
  ==_iff, Bool-cases, nat_eq, list_eq, leb, length, arith, subst, Text, obj,
}
use xserver_mail_lineworks.Shared.Exec.{
  Exec, Answer, value, raised, proceed, pure, raise, require, ◌>>=◌,
}
use xserver_mail_lineworks.ScopeJournal.{Saved, encode}
use xserver_mail_lineworks.ScopeJournal.Checks.{validate, is_consistent}
use xserver_mail_lineworks.ScopeJournal.Checks.Spelling.{
  validate-encode_cases, unique_objects-encode,
}
use xserver_mail_lineworks.ScopeJournal.Store.{
  Failure, invalid, readback_failed, type_error, JournalKind, target_sync, filter_scope, Ftps,
  given, rescue, rescue_rest, decode_body, read_exact, body_of, write, read_body, with_body,
  catching, catching_rest,
}

leb→le : (a b : ℕ) → leb a b ≡ true → a ≤ b
leb→le a b h = ground arith

le→leb : (a b : ℕ) → a ≤ b → leb a b ≡ true
le→leb a b h = ground arith

module _ {W : Type 0} (cell : W → Option Text) where
  -- A reading leaves the cell as it is, and gives what it holds if it gives anything.
  abbrev pub ReadsCell : W → Answer Failure (Option Text) × W → Type 0
  ReadsCell w (value b, w') = (b ≡ cell w) × (cell w' ≡ cell w)
  ReadsCell w (raised e, w') = cell w' ≡ cell w

  -- A swap that is confirmed has stored the body in place of the expected one, or found it stored;
  -- one that is not may have done it all the same.
  abbrev pub SwapsCell : Option Text → Text → W → Answer Failure Text × W → Type 0
  SwapsCell expected body w (value t, w') =
      (t ≡ body) × (cell w' ≡ some body) × ((cell w ≡ expected) ⊎ (cell w ≡ some body))
  SwapsCell expected body w (raised e, w') =
      (cell w' ≡ cell w) ⊎ ((cell w ≡ expected) × (cell w' ≡ some body))

  -- A write that is confirmed has stored the body; one that is not may have done it all the same.
  abbrev pub WritesCell : Text → W → Answer Failure Text × W → Type 0
  WritesCell body w (value t, w') = (t ≡ body) × (cell w' ≡ some body)
  WritesCell body w (raised e, w') = (cell w' ≡ cell w) ⊎ (cell w' ≡ some body)

-- `json.loads` reads what `json.dumps` wrote.
abbrev pub Prints : {W : Type 0} → Ftps W → Type 0
Prints ftps =
    (s : Saved) → ftps.loads (ftps.dumps (obj (encode s)) ++ b'\n' ∷ []) ≡ some (obj (encode s))

pub record IsCell {W : Type 0} (ftps : Ftps W) (cell : W → Option Text) : Type 0 where
  pub reads : (w : W) → ReadsCell cell w (ftps.read_scope_journal target_sync w)
  pub swaps :
      (expected : Option Text) (body : Text) (w : W)
      → SwapsCell cell expected body w
          (ftps.compare_and_swap_scope_journal target_sync expected body w)
  pub prints : Prints ftps

-- The journal of the first migration is a file that is written whatever it holds.
pub record IsFile {W : Type 0} (ftps : Ftps W) (cell : W → Option Text) : Type 0 where
  pub reads : (w : W) → ReadsCell cell w (ftps.read_scope_journal filter_scope w)
  pub writes :
      (body : Text) (w : W) → WritesCell cell body w (ftps.write_scope_journal filter_scope body w)
  pub prints : Prints ftps

module _ {W : Type 0} (ftps : Ftps W) (cell : W → Option Text) where
  -- What `read_exact` makes of the bytes.
  abbrev pub Reads : Option Text → Option (Saved × Text) → Type 0
  Reads c none = c ≡ none
  Reads c (some (s, body)) = (c ≡ some body) × (decode_body ftps body ≡ some s)

  module _ {A : Type 0} (Q : Answer Failure A × W → Type 0) where
    decoded-Post :
        (w : W) (body : Text) (d : Option Saved) (f : Option (Saved × Text) → Exec Failure W A)
        → ((e : Failure) → Q (raised e, w))
        → ((s : Saved) → d ≡ some s → Q (f (some (s, body)) w))
        → Q (proceed (with_body ftps body d w).0 f (with_body ftps body d w).1)
    unfolding raise pure
    decoded-Post w body none f fail next = fail _
    decoded-Post w body (some s) f fail next = next s refl

    read_body-Post :
        (w : W) (b : Option Text) (f : Option (Saved × Text) → Exec Failure W A)
        → ((e : Failure) → Q (raised e, w))
        → ((o : Option (Saved × Text)) → Reads b o → Q (f o w))
        → Q (proceed (read_body ftps b w).0 f (read_body ftps b w).1)
    unfolding pure
    read_body-Post w none f fail next = next none refl
    read_body-Post w (some body) f fail next =
        decoded-Post w body (decode_body ftps body) f fail (λ s e. next (some (s, body)) (refl, e))

    pub read_exact-Post :
        (kind : JournalKind)
        → ((w : W) → ReadsCell cell w (ftps.read_scope_journal kind w))
        → (w : W) (f : Option (Saved × Text) → Exec Failure W A)
        → ((e : Failure) (w' : W) → cell w' ≡ cell w → Q (raised e, w'))
        → ((w' : W) (o : Option (Saved × Text)) → cell w' ≡ cell w → Reads (cell w) o → Q (f o w'))
        → Q ((read_exact ftps kind >>= f) w)
    unfolding read_exact ◌>>=◌ rescue
    read_exact-Post kind reads w f fail next = go (ftps.read_scope_journal kind w) (reads w)
      where
        go :
            (r : Answer Failure (Option Text) × W)
            → ReadsCell cell w r
            → Q (
                proceed
                  (proceed (catching ftps invalid r.0) (read_body ftps) r.1).0
                  f
                  (proceed (catching ftps invalid r.0) (read_body ftps) r.1).1)
        go (value b, w') (e, k) =
            read_body-Post w' b f (λ x. fail x w' k)
              (λ o r. next w' o k (subst (λ c. Reads c o) e r))
        go (raised x, w') k = fail invalid w' k

  -- What `write` does, given the bytes that it expects.
  abbrev pub Written : Saved → Option Text → W → Answer Failure Text × W → Type 0
  Written s expected w (value body, w') =
      (body ≡ body_of ftps s)
      × (is_consistent s ≡ true)
      × (length (body_of ftps s) ≤ 65536)
      × (cell w' ≡ some (body_of ftps s))
      × (decode_body ftps (body_of ftps s) ≡ some s)
      × ((cell w ≡ expected) ⊎ (cell w ≡ some (body_of ftps s)))
  Written s expected w (raised e, w') =
      (cell w' ≡ cell w)
      ⊎ ((is_consistent s ≡ true) × (cell w ≡ expected) × (cell w' ≡ some (body_of ftps s)))

  module _ (prints : Prints ftps) where
    decode_body-body_of :
        (s : Saved)
        → validate (obj (encode s)) ≡ some s
        → length (body_of ftps s) ≤ 65536
        → decode_body ftps (body_of ftps s) ≡ some s
    unfolding decode_body body_of
    decode_body-body_of s v h = rw (le→leb _ _ h, prints s, unique_objects-encode s, v) refl

    checked-Written :
        (s : Saved) (expected : Option Text) (w : W) (t : Text) (w' : W)
        → is_consistent s ≡ true
        → validate (obj (encode s)) ≡ some s
        → SwapsCell cell expected (body_of ftps s) w (value t, w')
        → Written s expected w (
            (require (leb (length (body_of ftps s)) 65536 && t == body_of ftps s) readback_failed
                >>= λ (u : Unit {0}). pure (body_of ftps s))
              w')
    unfolding ◌>>=◌
    checked-Written s expected w t w' c v (e, k, b) =
        elim (Bool-cases (leb (length (body_of ftps s)) 65536)) [
          | inl short ↦
              rw (short, (==_iff t (body_of ftps s)).1 e)
                (refl, c, leb→le _ _ short, k, decode_body-body_of s v (leb→le _ _ short), b)
          | inr long ↦ rw long (unsaved b)
        ]
      where
        unsaved :
            (cell w ≡ expected) ⊎ (cell w ≡ some (body_of ftps s))
            → (cell w' ≡ cell w)
              ⊎ ((is_consistent s ≡ true) × (cell w ≡ expected) × (cell w' ≡ some (body_of ftps s)))
        unsaved (inl x) = inr (c, x, k)
        unsaved (inr x) = inl (k ∙ sym x)

    tried :
        (s : Saved) (expected : Option Text) (w w' : W)
        → is_consistent s ≡ true
        → (cell w' ≡ cell w) ⊎ ((cell w ≡ expected) × (cell w' ≡ some (body_of ftps s)))
        → (cell w' ≡ cell w)
          ⊎ ((is_consistent s ≡ true) × (cell w ≡ expected) × (cell w' ≡ some (body_of ftps s)))
    tried s expected w w' c (inl k) = inl k
    tried s expected w w' c (inr (a, b)) = inr (c, a, b)

    swapped-Written :
        (s : Saved) (expected : Option Text) (w : W) (r : Answer Failure Text × W)
        → is_consistent s ≡ true
        → validate (obj (encode s)) ≡ some s
        → SwapsCell cell expected (body_of ftps s) w r
        → Written s expected w (
            proceed
              (catching_rest ftps readback_failed r.0)
              (λ t.
                require (leb (length (body_of ftps s)) 65536 && t == body_of ftps s) readback_failed
                >>= λ (u : Unit {0}). pure (body_of ftps s))
              r.1)
    swapped-Written s expected w (value t, w') c v x = checked-Written s expected w t w' c v x
    swapped-Written s expected w (raised type_error, w') c v x = tried s expected w w' c x
    swapped-Written s expected w (raised _, w') c v x = tried s expected w w' c x

  module _ (is_cell : IsCell ftps cell) where
    stored-Written :
        (s : Saved) (expected : Option Text) (w : W)
        → is_consistent s ≡ true
        → validate (obj (encode s)) ≡ some s
        → Written s expected w ((write ftps target_sync s (given expected)) w)
    unfolding write ◌>>=◌ rescue_rest pure raise
    stored-Written s none w c v =
        rw v (swapped-Written is_cell.prints s none w _ c v (is_cell.swaps none (body_of ftps s) w))
    stored-Written s (some []) w c v = rw v (inl refl)
    stored-Written s (some (b ∷ bs)) w c v = rw v (
        swapped-Written is_cell.prints s (some (b ∷ bs)) w _ c v
          (is_cell.swaps (some (b ∷ bs)) (body_of ftps s) w))

    -- A write of a journal that its caller read as `expected`: if it returns, then the cell held
    -- `expected` or already the new bytes, it holds the new bytes now, which are within the limit and
    -- are read as the same journal, and the journal is consistent. If it raises, then the cell is as it
    -- was, or it held `expected` and now holds the bytes of the journal, which is consistent: other
    -- bytes are never overwritten.
    pub write-Written :
        (s : Saved) (expected : Option Text) (w : W)
        → Written s expected w ((write ftps target_sync s (given expected)) w)
    unfolding write ◌>>=◌ raise
    write-Written s expected w = elim (validate-encode_cases s) [
      | inl e ↦ rw e (inl refl)
      | inr (v, c) ↦ stored-Written s expected w c v
    ]

  module _ (is_file : IsFile ftps cell) where
    filed_swap :
        (body : Text) (w : W) (r : Answer Failure Text × W)
        → WritesCell cell body w r
        → SwapsCell cell (cell w) body w r
    filed_swap body w (value t, w') (e, k) = (e, k, inl refl)
    filed_swap body w (raised x, w') (inl same) = inl same
    filed_swap body w (raised x, w') (inr k) = inr (refl, k)

    filed-Written :
        (s : Saved) (w : W)
        → is_consistent s ≡ true
        → validate (obj (encode s)) ≡ some s
        → Written s (cell w) w (write ftps filter_scope s (given (cell w)) w)
    unfolding write ◌>>=◌ rescue_rest pure raise
    filed-Written s w c v = rw v (
        swapped-Written is_file.prints s (cell w) w _ c v
          (filed_swap (body_of ftps s) w _ (is_file.writes (body_of ftps s) w)))

    -- The same of the journal that is a file, by a caller that read what it holds.
    pub write_file-Written :
        (s : Saved) (w : W) → Written s (cell w) w (write ftps filter_scope s (given (cell w)) w)
    unfolding write ◌>>=◌ raise
    write_file-Written s w = elim (validate-encode_cases s) [
      | inl e ↦ rw e (inl refl)
      | inr (v, c) ↦ filed-Written s w c v
    ]
