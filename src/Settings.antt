-- ===== src/Settings.antt =====
-- static/settings.js: the page of settings.
pub mod Units
pub mod Tiers
pub mod Labels
pub mod Fields
pub mod Bots
pub mod WatchFolder
pub mod Sections
pub mod Database
pub mod Manage
mod Hints
mod Tests
