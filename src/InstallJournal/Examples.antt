-- ===== src/InstallJournal/Examples.antt =====
-- An installation that is prepared, and the theorems at it (macos/install_transaction.py).
use xserver_mail_lineworks.Shared.{
  ◌≡◌, refl, [], ◌∷◌, arith, Text, codes, Json, null, obj, end, field,
}
use xserver_mail_lineworks.Shared.Exec.{value}
use xserver_mail_lineworks.Shared.JsonSpelling.{loads, dumps, loads-dumps}
use xserver_mail_lineworks.InstallJournal.{Format}
use xserver_mail_lineworks.InstallJournal.Log.{
  in_pointer, append, append_until, payload_of, envelope, pointer_body,
}
use xserver_mail_lineworks.InstallJournal.Log.Spec.{
  Entry, IsFormat, Fits, dir_of, is_sorted, sorted_fields,
}
use xserver_mail_lineworks.InstallJournal.Log.Recovery.{append-log}
use xserver_mail_lineworks.InstallJournal.Log.Stopped.{Recovers, recover_after_stop}

format : Format
format = record { canonical = dumps; loads = loads; sha256 = λ t. codes "00" }

format-IsFormat : IsFormat format
unfolding format
format-IsFormat = record { prints = λ v s. loads-dumps v (b'\n' ∷ []) }

abbrev txn_id : Text
txn_id = codes "00112233445566778899aabbccddeeff"

abbrev details : Json
details = obj (field (codes "destination") null end)

abbrev prepared : Entry
prepared = (codes "PREPARED", details)

abbrev verified : Entry
verified = (codes "VERIFIED", details)

prepared-Fits : Fits format txn_id 1 prepared
unfolding format envelope pointer_body dumps is_sorted sorted_fields
prepared-Fits = (refl, omega arith, omega arith)

verified-Fits : Fits format txn_id 2 verified
unfolding format envelope pointer_body dumps is_sorted sorted_fields
verified-Fits = (refl, omega arith, omega arith)

append-log_example : append format txn_id (codes "PREPARED") details (dir_of format txn_id []) ≡ (
  value (payload_of format txn_id 1 (codes "PREPARED") details),
  dir_of format txn_id (prepared ∷ []),
)
append-log_example =
    append-log format txn_id format-IsFormat [] (codes "PREPARED") details prepared-Fits

recover_after_stop_example :
    Recovers format txn_id format-IsFormat (in_pointer (codes "{")) [] prepared verified (
      append_until format txn_id
        (in_pointer (codes "{"))
        (codes "VERIFIED")
        details
        (dir_of format txn_id (prepared ∷ [])))
recover_after_stop_example =
    recover_after_stop format txn_id format-IsFormat (in_pointer (codes "{")) [] prepared
      (codes "VERIFIED") details (prepared-Fits, (verified-Fits, tt))
