-- ===== src/Event.antt =====
-- The events that an instance reports (src/api/integrations/event): their settings, and the webhook.
pub mod Settings
pub mod Stored
pub mod Retry
pub mod Attempts
pub mod Webhook
pub mod Sent
pub mod Tests
