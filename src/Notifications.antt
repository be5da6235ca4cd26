-- ===== src/Notifications.antt =====
-- internal/notifications: the stored feed, and the realtime channel.
pub mod Hub
pub mod Feed
pub mod Connection
