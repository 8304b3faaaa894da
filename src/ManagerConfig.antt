-- ===== src/ManagerConfig.antt =====
-- manager/manage.py: what the manager takes for a configuration. The webhook's URL and its masking are
-- in Webhook, the private configuration in Runtime.
pub mod Webhook
pub mod Runtime
pub mod Ensure
pub mod Examples
