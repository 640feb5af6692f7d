-- ===== src/Web.antt =====
-- aqr/chat/web.py: the rate limit of the settings form, in RateLimit, and the routes, in Settings.
pub mod RateLimit
pub mod Settings
mod Examples
