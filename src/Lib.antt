-- ===== src/Lib.antt =====
-- The control plane of xserver-mail-lineworks: the Python programs that install the macOS manager
-- application, keep its configuration, and keep the mail server's filters in step with the mailboxes
-- that forward to the notification address.
--
-- Parts and how they interact. macos/install_app.py writes the application's configuration inside a
-- transaction whose marker lies beside the files, and after a crash brings them back to a complete
-- configuration, by the plans of macos/install_transaction.py. manager/manage.py asks
-- manager/xserver_api.py which mailboxes forward to the base address, and brings the server's filters
-- in line with them through `_ScopedMigrationApi`, which checks every reading of the server against
-- the scope that was planned and journals each change before it makes it. Addresses are checked
-- everywhere by manager/email_address.py. manager/recovery.py sends notifications again that the mail
-- server could not deliver.
--
-- ConfigRecovery: the configuration's transaction.
--   Plans          `_PLANS`, `classify_config_state` and `recovery_actions` of
--                  macos/install_transaction.py, as a table by cases
--   Directory      the files that a transaction touches, and `execute_recovery_action`. A directory
--                  is four slots (configuration, backup, temporary file, trash) and the names of all
--                  other files; a file's bytes are known by their SHA-256, as the code compares them;
--                  a file that is not a private regular file is `unsafe`
--   Recover        `_recover_config_marker` of macos/install_app.py: the marker's checks, the roles of
--                  the four files, the loop of at most eight rounds (the source's own bound, so
--                  running out of it is the source's error) and the end
--   Transaction    `write_config_atomic`, stopped after any of its steps (`Point`), and `commit` and
--                  `rollback` of `ConfigTransaction`
--   Roles, Settle, CrashRoles   the loop on roles instead of hashes, and that both agree
--   Crash, Ends, Windows        the theorems
-- InstallJournal: the journal of an installation, `Journal` of macos/install_transaction.py. The
--   directory is the generations of its families of files, in the order in which they were made; a
--   temporary file may be left incomplete. `json` and SHA-256 are parameters.
--   InstallJournal   the directory and the calls that change it
--   Log              the methods, and `append` stopped at every place
--   Log/Spec         the log that a directory stands for
--   Log/Families, Log/Reading, Log/Recovery, Log/Stopped   the theorems
-- EmailAddress: `canonical_email` and `canonical_email_list` of manager/email_address.py. A text is the
--   list of its code points. Order, Canonical and Lists have the lemmas on sorting, on one address and
--   on lists.
-- XserverApi: manager/xserver_api.py.
--   Request        `_request`'s treatment of replies, and the two readings of addresses. The transport
--                  is the parameter `fetch`, what the server answers to each reading at the time of
--                  the call
--   Forwarding     `discover_forwarding_sources`; its loop has one round of fuel more than there are
--                  accounts, which Forwarding/Reachability proves enough
--   Filters        `build_command_target`, `is_managed_filter`, and `_rule`, `_legacy_rule`,
--                  `_legacy_managed` and `_address` of manager/manage.py; `none` is a Python error at a
--                  value of the wrong shape
--   Replacement    `list_filters`, `add_filter`, `delete_filter` and `replace_managed_filter`
-- ScopedMigration: `_ScopedMigrationApi` of manager/manage.py, whose methods are actions on its scope
--   and on everything outside it (the record `Outside`: the API, the journal's writer, `json.dumps`
--   and SHA-256, all parameters).
--   ScopedMigration  the scope, its journal and `__init__`
--   Checks           the checks of `snapshot_filters` that only look
--   Snapshot         `snapshot_filters` with the adoption of a resumed addition and the retirement of
--                    deleted filters
--   Operations       `add_filter` and `delete_filter`
--   Audit            the same outside with a record of its calls, and what this record satisfies
-- ScopeJournal: manager/scope_journal.py, the journal that says which filters an interrupted
--   synchronisation may touch.
--   ScopeJournal     the value, its spelling as JSON, and its taking apart
--   Checks           the conditions of `_validate`; Spelling and Pending have what they mean
--   Store            `read_exact`, `write`, `prepare`, `prepare_v2` and `pending_authorization`; what
--                    the private configuration client, JSON and SHA-256 do is the parameter `Ftps`
--   Store/Cell, Store/Plan, Store/Pending   the journal of a synchronisation as one cell that is changed by compare
--                    and swap, and that of the first migration as a file that is written
--   Store/Wire       a concrete client and JSON spelling, at which the theorems are tried
-- TargetSync: manager/manage.py, what a synchronisation has to do.
--   TargetSync       `expected_targets` and `plan_target_sync`; the API is a parameter. Planning has
--                    what an empty plan means
--   Commit           `_verify_committable_scope`, and the journal that the end of `sync_targets` writes
-- ManagerConfig: what manager/manage.py takes for a configuration.
--   Webhook          `validate_webhook_url` and `mask_webhook_url`; Masking has the theorems
--   Runtime          `_runtime_config_sizes`, and the tests of the sizes and of the authentication key,
--                    with URL-safe base64; Key has the key that is made of random bytes
--   Runtime/Validation   `_validate_runtime_config`; Bounds and Fixed have the theorems
--   Ensure           `ensure_runtime_config`; the client of the private configuration and the random
--                    bytes are the parameter `Outside`; Upgrade has the theorem
-- PrivateConfig: manager/private_config_ssh.py, the client of the helper on the mail server. The SSH
--   boundary is a parameter, with `json`, base64 and SHA-256.
--   PrivateConfig    the request, and the checks of the constructor
--   Journal          the journals; Journal/Cell has that this client is the one that ScopeJournal needs
--   Config           `read`, `compare_and_swap` and `health_summary`
-- LocalConfig: macos/local_config.py, the launcher's configuration: `validate_config`, the decoding in
--   `load_config_with_digest` (what `json.loads` does is a parameter) and `to_environment`; Paths has what
--   an accepted path means. The checks of directories and of the file are not modelled.
-- RemoteValidation: manager/remote_validator.py, `_parse_g`: what is accepted of `ssh -G`. Case folding is a
--   parameter; Options has what it means for every line.
-- DeliveryRecovery: manager/recovery.py, the listing of notifications that were not sent and its checks.
--   Menu             the menu that sends one of them again; the SSH boundary is the parameter
--                    `run_trusted`, and the lines typed are a list
-- Shared: texts, JSON values, association lists, Boolean equality, and methods that may raise.
--
-- Not modelled: permissions, owners and link counts beyond `unsafe`; several processes at once; the
-- bytes of a configuration; the parsing of JSON and of a marker's bytes; the URL and the headers of a
-- request; the decisions of the manager's other menus; the deployment over FTPS; the reports that the remote
-- validator reads; the PHP programs of
-- the mail path.
pub mod ConfigRecovery
pub mod DeliveryRecovery
pub mod EmailAddress
pub mod InstallJournal
pub mod LocalConfig
pub mod ManagerConfig
pub mod PrivateConfig
pub mod RemoteValidation
pub mod ScopeJournal
pub mod ScopedMigration
pub mod Shared
pub mod TargetSync
pub mod XserverApi
