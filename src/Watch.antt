-- ===== src/Watch.antt =====
-- static/watch.js: the page that plays a video.
pub mod Skip
pub mod Recovery
pub mod Comments
pub mod MetaId
pub mod Progress
pub mod Edit
mod Navigation
mod Client
mod Info
mod Link
mod Page
mod Tests
