-- ===== src/PrivateConfig/Examples.antt =====
-- A helper that keeps one journal, and the theorem at it (manager/private_config_ssh.py).
use xserver_mail_lineworks.Shared.{
  String, ◌≡◌, refl, ◌++◌, inl, inr, Bool, true, false, Option, none, some, [], ◌∷◌, ◌==◌, ==_iff,
  nat_eq, list_eq, option_eq, list_beq, option_beq, Bool-cases, if◌then◌else◌, Text, codes, Json,
  null, nat, str, obj, Fields, end, field, get_field, all, distinct, contains, starts_with,
}
use xserver_mail_lineworks.Shared.Exec.{Answer, value}
use xserver_mail_lineworks.Shared.JsonSpelling.{loads, dumps, loads-dumps}
use xserver_mail_lineworks.XserverApi.Filters.{get_default}
use xserver_mail_lineworks.EmailAddress.{split_on}
use xserver_mail_lineworks.DeliveryRecovery.{text_at}
use xserver_mail_lineworks.ScopeJournal.{encode}
use xserver_mail_lineworks.ScopeJournal.Store.Cell.{IsCell}
use xserver_mail_lineworks.PrivateConfig.{Failure, Transport, dict, is_client, is_home, is_host}
use xserver_mail_lineworks.PrivateConfig.Journal.{swap_request}
use xserver_mail_lineworks.PrivateConfig.Journal.Cell.{
  Serves, ServesSwap, state_reply, as_journal, client-IsCell,
}

abbrev spelled : Json → Text
spelled v = dumps v ++ b'\n' ∷ []

abbrev or_empty : Option Fields → Fields
or_empty none = end
or_empty (some fs) = fs

abbrev part : String → Fields → Fields
part k fs = or_empty (dict (get_default (codes k) null fs))

-- Bodies stand as they are, in place of base64.
abbrev reply_missing_or : Option Text → Fields
reply_missing_or none =
    field (codes "schema_version") (nat 1) (field (codes "state") (str (codes "missing")) end)
reply_missing_or (some body) =
    field (codes "body_base64") (str body)
      (field (codes "schema_version") (nat 1) (field (codes "state") (str (codes "present")) end))

abbrev status : String → Text
status s =
    spelled
      (obj (field (codes "schema_version") (nat 1) (field (codes "status") (str (codes s)) end)))

abbrev text_or : Option Text → Text
text_or none = []
text_or (some t) = t

abbrev swapped : Bool → Bool → Text → Option Text → Answer Failure Text × Option Text
swapped true expected desired w = (value (status "already_applied"), w)
swapped false true desired w = (value (status "changed"), some desired)
swapped false false desired w = (value (status "conflict"), w)

abbrev swap : Option Text → Text → Option Text → Answer Failure Text × Option Text
swap expected desired w = swapped (w == some desired) (w == expected) desired w

abbrev helper : Option Json → Option Text → Answer Failure Text × Option Text
helper (some (obj fs)) w =
    if text_at (codes "operation") fs == some (codes "scope-journal-read")
    then (value (spelled (obj (reply_missing_or w))), w)
    else swap (text_at (codes "body_base64") (part "expected" fs))
        (text_or (text_at (codes "body_base64") (part "desired" fs))) w
helper _ w = (value [], w)

transport : Transport (Option Text)
transport = record {
  run_trusted = λ payload w. helper (loads payload) w;
  canonical = spelled;
  loads = loads;
  b64encode = λ body. body;
  b64decode = λ text. some text;
  sha256 = λ body. codes "00";
}

abbrev itself : Option Text → Option Text
itself w = w

swap-Serves :
    (expected : Option Text) (desired : Text) (w : Option Text)
    → ServesSwap transport itself expected desired w (swap expected desired w)
unfolding transport
swap-Serves expected desired w = elim (Bool-cases (w == some desired)) [
  | inl done ↦
      rw done (inr (inl (loads-dumps _ (b'\n' ∷ []), (==_iff w (some desired)).0 done, refl)))
  | inr more ↦ elim (Bool-cases (w == expected)) [
    | inl same ↦
        rw (more, same) (inl (loads-dumps _ (b'\n' ∷ []), (==_iff w expected).0 same, refl))
    | inr other ↦ rw (more, other) (inr (inr (loads-dumps _ (b'\n' ∷ []), refl)))
  ]
]

swap_request-Serves :
    (expected : Option Text) (desired : Text) (w : Option Text)
    → ServesSwap transport itself expected desired w
        (helper (some (obj (swap_request transport expected desired))) w)
unfolding transport text_at get_default get_field list_beq option_beq
swap_request-Serves none desired w = swap-Serves none desired w
swap_request-Serves (some body) desired w = swap-Serves (some body) desired w

replied :
    (w : Option Text)
    → loads (spelled (obj (reply_missing_or w))) ≡ some (obj (state_reply transport itself w))
unfolding transport
replied none = loads-dumps _ (b'\n' ∷ [])
replied (some body) = loads-dumps _ (b'\n' ∷ [])

transport-Serves : Serves transport itself
unfolding transport text_at get_default get_field list_beq option_beq
transport-Serves = record {
  decodes = λ body. refl;
  reads = λ w. rw (loads-dumps _ (b'\n' ∷ [])) (refl, replied w);
  swaps = λ expected desired w.
      rw (loads-dumps (obj (swap_request transport expected desired)) (b'\n' ∷ []))
        (swap_request-Serves expected desired w);
}

client-IsCell_example :
    IsCell (as_journal transport itself transport-Serves dumps dumps loads) itself
client-IsCell_example =
    client-IsCell transport itself transport-Serves dumps dumps loads
      (λ s. loads-dumps (obj (encode s)) (b'\n' ∷ []))

host_of_server : is_client (codes "/home/a") (codes "sv1.xsrv.jp" ∷ []) ≡ true
unfolding is_client is_home is_host all starts_with split_on list_beq distinct contains
host_of_server = refl
