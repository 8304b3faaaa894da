-- ===== src/ScopeJournal/Store/Wire.antt =====
-- A concrete store for the tests of manager/scope_journal.py: the state is the cell itself, JSON
-- is written in the spelling of Shared/JsonSpelling, and all hashes are one.
use xserver_mail_lineworks.Shared.{
  refl, inl, inr, Bool, true, false, ◌||◌, Option, some, [], ◌∷◌, ◌==◌, ==_iff, nat_eq, list_eq,
  option_eq, Bool-cases, Text, obj,
}
use xserver_mail_lineworks.Shared.JsonSpelling.{loads, dumps, loads-dumps}
use xserver_mail_lineworks.Shared.Exec.{Exec, value, raised}
use xserver_mail_lineworks.ScopeJournal.{encode}
use xserver_mail_lineworks.ScopeJournal.Store.{Failure, outside, Ftps}
use xserver_mail_lineworks.ScopeJournal.Store.Cell.{IsCell, IsFile, SwapsCell}

abbrev same_swap : Option Text → Text → Bool → Exec Failure (Option Text) Text
same_swap expected body true w = (value body, some body)
same_swap expected body false w = (raised outside, w)

-- The hash of these tests is one constant.
unfoldable pub store_of : Text → Ftps (Option Text)
store_of hash = record {
  read_scope_journal = λ kind w. (value w, w);
  compare_and_swap_scope_journal =
      λ kind expected body w. same_swap expected body (w == expected || w == some body) w;
  write_scope_journal = λ kind body w. (value body, some body);
  dumps = dumps;
  dumps_unicode = dumps;
  loads = loads;
  sha256 = λ t. hash;
}

abbrev itself : Option Text → Option Text
itself w = w

swap-Cell :
    (expected : Option Text) (body : Text) (w : Option Text)
    → SwapsCell itself expected body w (same_swap expected body (w == expected || w == some body) w)
swap-Cell expected body w = elim (Bool-cases (w == expected)) [
  | inl same ↦ rw same (refl, refl, inl ((==_iff w expected).0 same))
  | inr other ↦ elim (Bool-cases (w == some body)) [
    | inl done ↦ rw (other, done) (refl, refl, inr ((==_iff w (some body)).0 done))
    | inr lost ↦ rw (other, lost) (inl refl)
  ]
]

pub store_of-IsCell : (hash : Text) → IsCell (store_of hash) (λ w. w)
unfolding store_of
store_of-IsCell hash = record {
  reads = λ w. (refl, refl);
  swaps = λ expected body w. swap-Cell expected body w;
  prints = λ s. loads-dumps (obj (encode s)) (b'\n' ∷ []);
}

pub store_of-IsFile : (hash : Text) → IsFile (store_of hash) (λ w. w)
unfolding store_of
store_of-IsFile hash = record {
  reads = λ w. (refl, refl);
  writes = λ body w. (refl, refl);
  prints = λ s. loads-dumps (obj (encode s)) (b'\n' ∷ []);
}
