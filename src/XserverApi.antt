-- ===== src/XserverApi.antt =====
-- manager/xserver_api.py: the client of the mail-filter API.
pub mod Request
pub mod Forwarding
pub mod Filters
pub mod Replacement
