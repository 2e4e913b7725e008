-- ===== src/Shared.antt =====
-- static/shared.js: what every page loads.
pub mod Category
pub mod Slug
pub mod Names
pub mod Format
pub mod Text
pub mod Panel
pub mod ActiveJobs
pub mod Theme
mod Api
mod Tests
