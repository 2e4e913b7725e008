-- ===== src/Lib.antt =====
-- A model of the browser client of THLS, a media streamer that stores HLS segments in Telegram
-- (README.md), and proofs about it. Paths are from the repository's root.
--
-- The client is the JavaScript under static/. Its pages share static/shared.js, talk to the server over
-- HTTP, and keep their state in the page and in localStorage. The parts modelled, and their files:
--
--   Base       numbers, lists, sets, texts, the stable sort and a matcher of regular expressions, which
--              tries alternatives in the order of ECMAScript, for the others.
--   Shared     static/shared.js, static/common.js: CATEGORY_DB (Category), trim and parseInt (Text), slugify
--              (Slug), formatBytes, formatTime and formatDuration (Format), cleanTitle, jobIdToGradient and
--              escapeAttr (Names), the theme and the sidebar (Theme), the panel of jobs and its timer
--              (Panel), its rows and the pill (ActiveJobs), api of common.js (Api). Slug and Names have the
--              palette's versions too.
--   Upload     static/upload.js. Chunks: which chunks a server has and which are missing
--              (receivedSetFromStatus, bytesForReceivedChunks). Pool: the workers of uploadSingleFile, each
--              step from one await to the next as an event, with cancelUpload. Retry: sendChunkWithRetry.
--              Poll: pollStatus. Session: uploadSingleFile from the file to the job, and checkResume.
--              Session.Interrupted: an upload that is broken off and resumed. Session.Batch: the start
--              button. Form: the table of metadata and validateMetadata. Metadata: the search in its rows
--              and the link after the upload. Notices: the log, the progress, the banner, the cards and
--              cancelUpload outside the workers. Names: what a file name says (parseFilmTitle,
--              parseSeriesEpisode, parsePartNumber), and in Names.Order episodeNum. Selection: the chosen
--              or dropped files, parseMetadata and sortByEpisode.
--   Watch      static/watch.js. Progress: saveProgress, the place where a video resumes, the listeners that
--              save. Edit: the dialog (openEditModal, saveEditModal). Navigation: fetchSiblings,
--              renderEpisodeNav, renderWatchBreadcrumb. Skip: the button that skips an intro. Recovery: the
--              player's errors. Comments: renderAnimeCommunityComments. MetaId and Link: parseDirectMetaId,
--              the search for metadata and its link. Info: the panel of a video, the videos like it. Page:
--              the start of the page, deleteJob, the message of a comment. Client: the name of a browser on
--              the server.
--   Browse     Seasons: the tabs of a series (loadSeasonEpisodes) in static/browse.js. Paging: loadJobs,
--              loadMoreJobs, deleteJob there. Request: the URL, the timer of the search and the order of
--              replies. Cards: cards, rows, chips; Cards.Heads, the heads. Edit: the dialog there. Palette:
--              static/browse-palette.js, with its search in Palette.Search and its texts in Palette.Texts. Home: the
--              recent jobs, the spotlights and the status pill of static/browse-home.js; Home.Row, the row
--              to continue watching and the statistics; Home.Load, the requests and the rows; Home.Cards,
--              their cards; Home.Hero, the spotlights as they are shown.
--   Settings   static/settings.js. Units: the input of a number with a unit (renderFriendlyInt). Tiers: the
--              editor of tiers. Labels: humanizeKey, unitKind, humanizeUnit, formatDisplay. Fields: the
--              inputs of settings, collectCategoryValues, saveSection. Bots: the bots, their health, the
--              dialog of a new one, and in Bots.Remove the removal. Manage: loadSettings, edits, saves and
--              resetSetting together. Hints: the texts beside an input. WatchFolder: the watched folder.
--              Sections: the sections of the page. Database: the messages of its export, import and load.
--
-- In each part the state is a record, an operation is a function from state to state, and what waits for
-- the server or for the user is a sequence of events or replies: the server is a parameter. Upload.Pool and
-- Upload.Retry take such a sequence, and where it ends too early the result says so (waiting,
-- unfinished); theorems say how many replies are enough. No other fuel is used: loops are recursion on
-- lists, and the decimal notation in Base.Decimal takes as many steps as the number, which has fewer digits.
--
-- Texts are lists of UTF-16 code units where their characters matter and strings where they are only
-- compared. Times are in milliseconds, so that rounding is exact. 32-bit hashes keep their remainder
-- modulo 2 ^ 32.
--
-- Not modelled: HTML and styles; the server in Rust; static/shaka-player.ui.js, a copy of another project,
-- and the player that it belongs to; the speed of an upload and the hints of settings whose default is no
-- whole number. localeCompare and toLocaleString, which depend on the browser's language, are
-- parameters. The modules' comments say what else they leave out.
pub mod Base
pub mod Shared
pub mod Upload
pub mod Watch
pub mod Browse
pub mod Settings
