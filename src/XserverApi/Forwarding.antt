-- ===== src/XserverApi/Forwarding.antt =====
-- `discover_forwarding_sources` of manager/xserver_api.py: which mailboxes of the base address's
-- domain forward to it, directly or through others.
pub mod Reachability
pub mod Discovery
mod Examples
use xserver_mail_lineworks.Shared.{
  ℕ, zero, suc, Bool, true, false, not, ◌&&◌, ◌||◌, Option, none, some, List, [], ◌∷◌, ◌++◌, ◌==◌,
  nat_eq, list_eq, Text, str, length, any, contains, if◌then◌else◌,
}
use xserver_mail_lineworks.EmailAddress.{after_at, sort_unique}
use xserver_mail_lineworks.XserverApi.Request.{
  Resource, Reply, Result, ok, err, ◌>>=◌, ◌>>◌, canonical_address, list_mail_accounts,
  list_forwarding_addresses,
}

-- `graph`: each account with the addresses that it forwards to.
abbrev pub Graph : Type 0
Graph = List (Text × List Text)

-- The set comprehension `additions`.
unfoldable pub additions : Graph → List Text → List Text
additions [] reachable = []
additions ((source, destinations) ∷ g) reachable =
    let rest = additions g reachable in
    if not (contains reachable source) && any (contains reachable) destinations
    then source ∷ rest
    else rest

-- The loop `while changed`; `none` means that the fuel ran out.
unfoldable pub close : ℕ → Graph → List Text → Option (List Text)
close zero g reachable = none
close (suc n) g reachable = elim (additions g reachable) [
  | [] ↦ some reachable
  | a ∷ more ↦ close n g (reachable ++ a ∷ more)
]

module _ (fetch : Resource → Reply) where
  unfoldable pub forwarding_graph : List Text → Result Graph
  forwarding_graph [] = ok []
  forwarding_graph (source ∷ sources) = do
    destinations ← list_forwarding_addresses fetch source
    rest ← forwarding_graph sources
    ok ((source, destinations) ∷ rest)

  abbrev sorted_result : Option (List Text) → Option (Result (List Text))
  sorted_result none = none
  sorted_result (some reachable) = some (ok (sort_unique reachable))

  abbrev closed_graph : Text → Result Graph → Option (Result (List Text))
  closed_graph base (ok g) = sorted_result (close (suc (length g)) g (base ∷ []))
  closed_graph base (err e) = some (err e)

  abbrev known_base : Result Text → Option (Result (List Text))
  known_base (ok base) =
      closed_graph base
        (do accounts ← list_mail_accounts fetch (after_at base); forwarding_graph accounts)
  known_base (err e) = some (err e)

  -- `none` means that the fuel of the loop ran out.
  unfoldable pub discover_forwarding_sources : Text → Option (Result (List Text))
  discover_forwarding_sources base_address = known_base (canonical_address (str base_address))
