-- ===== src/Upload.antt =====
-- static/upload.js: the upload page.
pub mod Chunks
pub mod Pool
pub mod Retry
pub mod Poll
pub mod Session
pub mod Form
pub mod Notices
pub mod Names
pub mod Metadata
pub mod Selection
pub mod Tests
