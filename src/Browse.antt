-- ===== src/Browse.antt =====
-- static/browse.js and browse-palette.js: the pages that list the library, and the search over it.
mod Seasons
mod Paging
mod Request
pub mod Cards
pub mod Edit
mod Palette
mod Home
mod Tests
