-- ===== src/XserverApi/Forwarding/Discovery.antt =====
-- What `discover_forwarding_sources` of manager/xserver_api.py returns.
use xserver_mail_lineworks.Shared.{
  suc, ◌≡◌, ◌≢◌, ◌↔◌, sym, ◌∙◌, ap, inl, inr, true, ◌&&◌, none, some, List, [], ◌∷◌, ◌==◌, ==_iff,
  ==_refl, nat_eq, list_eq, Text, str, length, contains, arith, Bool-cases,
}
use xserver_mail_lineworks.EmailAddress.{after_at, sort_unique}
use xserver_mail_lineworks.EmailAddress.Order.{
  is_increasing, sort_unique-is_increasing, contains-sort_unique,
}
use xserver_mail_lineworks.XserverApi.Request.{
  Resource, Reply, Result-cases, ok, canonical_address, list_mail_accounts,
  list_forwarding_addresses,
}
use xserver_mail_lineworks.XserverApi.Forwarding.{
  Graph, close, forwarding_graph, discover_forwarding_sources,
}
use xserver_mail_lineworks.XserverApi.Forwarding.Reachability.{
  forwards, Reaches, here, unreached-le-length, close_total, close_end, close_sound,
  closed_complete,
}

module _ (fetch : Resource → Reply) where
  known_base-only : (base : Text) (a : Text) → contains (base ∷ []) a ≡ true → a ≡ base
  unfolding contains
  known_base-only base a h = ground (arith, ==_iff a base)

  close_graph :
      (g : Graph) (base : Text)
      → (r : List Text) × (close (suc (length g)) g (base ∷ []) ≡ some r)
        × ((a : Text) → (contains r a ≡ true) ↔ Reaches g base a)
  unfolding contains
  close_graph g base =
      let (r, q) =
        close_total (suc (length g)) g (base ∷ [])
          (omega (arith, unreached-le-length g (base ∷ []))) in
      let (z, keep) = close_end (suc (length g)) g (base ∷ []) r q in
      (
        r,
        q,
        λ a. (
          close_sound (suc (length g)) g base (base ∷ []) r q
              (λ b m. rw (known_base-only base b m) here) a,
          closed_complete g base r z (keep base (rw (==_refl base))),
        ),
      )

  -- If the base address is valid and the accounts of its domain and their forwarding lists can be
  -- read, the
  -- discovery ends within its fuel and returns, strictly sorted, exactly the addresses whose mail
  -- comes to the base address in any number of forwarding steps, the base address among them.
  pub discover_exact :
      (base_address : Text) {base : Text} {accounts : List Text} {g : Graph}
      → canonical_address (str base_address) ≡ ok base
      → list_mail_accounts fetch (after_at base) ≡ ok accounts
      → forwarding_graph fetch accounts ≡ ok g
      → (r : List Text) × (discover_forwarding_sources fetch base_address ≡ some (ok r))
        × (is_increasing r ≡ true)
        × ((a : Text) → (contains r a ≡ true) ↔ Reaches g base a)
  unfolding discover_forwarding_sources
  discover_exact base_address {base} {accounts} {g} b l f =
      let (r, q, e) = close_graph g base in
      (
        sort_unique r,
        rw (b, l, f) (rw q),
        sort_unique-is_increasing r,
        λ a. (
          λ m. (e a).0 (sym (contains-sort_unique r a) ∙ m),
          λ w. contains-sort_unique r a ∙ (e a).1 w,
        ),
      )

  graph-cons :
      (x : Text) (xs : List Text) (g : Graph)
      → forwarding_graph fetch (x ∷ xs) ≡ ok g
      → (ds : List Text) × (rest : Graph) × (list_forwarding_addresses fetch x ≡ ok ds)
        × (forwarding_graph fetch xs ≡ ok rest)
        × (g ≡ (x, ds) ∷ rest)
  unfolding forwarding_graph
  graph-cons x xs g h = elim (Result-cases (list_forwarding_addresses fetch x)) [
    | inl (ds, p) ↦ elim (Result-cases (forwarding_graph fetch xs)) [
      | inl (rest, q) ↦ (ds, rest, p, q, ground arith)
      | inr (e, q) ↦ absurd (ground arith)
    ]
    | inr (e, p) ↦ absurd (ground arith)
  ]

  abbrev Reported : List Text → Text → Text → Type 0
  Reported accounts s d =
      (contains accounts s ≡ true)
      × (ds : List Text) × (list_forwarding_addresses fetch s ≡ ok ds)
      × (contains ds d ≡ true)

  Reported-of_forwards :
      (accounts : List Text) (g : Graph) (s d : Text)
      → forwarding_graph fetch accounts ≡ ok g
      → forwards g s d ≡ true
      → Reported accounts s d
  unfolding forwards contains
  Reported-of_forwards [] [] s d h f = cc
  Reported-of_forwards [] (p ∷ g) s d h f = absurd (unfold forwarding_graph in ground arith)
  Reported-of_forwards (x ∷ xs) g s d h f =
      let (ds, rest, p, q, e) = graph-cons x xs g h in
      elim (Bool-cases (s == x && contains ds d)) [
        | inl y ↦
            let same : s ≡ x = (==_iff s x).0 (ground arith) in
            (rw (same) (rw (==_refl x)), ds, rw same p, ground arith)
        | inr n ↦
            let t : forwards rest s d ≡ true = ground (arith, ap (λ k. forwards k s d) e) in
            let (m, es, u, v) = Reported-of_forwards xs rest s d q t in (ground arith, es, u, v)
      ]

  forwards_of_Reported :
      (accounts : List Text) (g : Graph) (s d : Text)
      → forwarding_graph fetch accounts ≡ ok g
      → Reported accounts s d
      → forwards g s d ≡ true
  unfolding forwards contains
  forwards_of_Reported [] g s d h r = absurd (ground arith)
  forwards_of_Reported (x ∷ xs) g s d h (m, es, u, v) =
      let (ds, rest, p, q, e) = graph-cons x xs g h in
      rw e (elim (Bool-cases (s == x)) [
        | inl y ↦
            let same : s ≡ x = (==_iff s x).0 y in
            let w : ok es ≡ ok ds = sym u ∙ (rw same p) in ground (arith, w)
        | inr n ↦ rw n (forwards_of_Reported xs rest s d q (ground arith, es, u, v))
      ])

  -- If all forwarding lists can be read, the graph holds what the server reports: `s` forwards to `d` exactly when `s` is an account and
  -- `d` stands in its forwarding list.
  pub forwarding_graph_lem :
      (accounts : List Text) {g : Graph} (s d : Text)
      → forwarding_graph fetch accounts ≡ ok g
      → (forwards g s d ≡ true) ↔ (
          (contains accounts s ≡ true)
          × (ds : List Text) × (list_forwarding_addresses fetch s ≡ ok ds)
          × (contains ds d ≡ true))
  forwarding_graph_lem accounts {g} s d h =
      (Reported-of_forwards accounts g s d h, forwards_of_Reported accounts g s d h)

  -- The discovery never runs out of fuel, whatever the base address and the server's answers are.
  pub discover_total : (base_address : Text) → discover_forwarding_sources fetch base_address ≢ none
  unfolding discover_forwarding_sources
  discover_total base_address h = elim (Result-cases (canonical_address (str base_address))) [
    | inr (e, p) ↦ cc (h, p)
    | inl (base, p) ↦ elim (Result-cases (list_mail_accounts fetch (after_at base))) [
      | inr (e, q) ↦ absurd (ground arith)
      | inl (accounts, q) ↦ elim (Result-cases (forwarding_graph fetch accounts)) [
        | inr (e, w) ↦ absurd (ground arith)
        | inl (g, w) ↦ let (r, c, _) = close_graph g base in absurd (ground arith)
      ]
    ]
  ]
