-- ===== src/ConfigRecovery.antt =====
-- The configuration half of an installation: macos/install_transaction.py (recovery plans) and
-- macos/install_app.py (the transaction on config.json and its recovery after a crash).
pub mod Plans
pub mod Directory
pub mod Recover
pub mod Transaction
pub mod Roles
pub mod Settle
pub mod CrashRoles
pub mod Crash
pub mod Ends
pub mod Windows
mod Examples
