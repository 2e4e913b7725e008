-- ===== src/Settings/Sections.antt =====
-- static/settings.js: the sections of the page, and which categories of settings stand in each.
pub mod Laws
use telegram_hls_streamer_v.Base.{ℕ, Bool, not, List, [], ◌∷◌, ◌++◌, if◌then◌else◌, ◌==◌, String}
use telegram_hls_streamer_v.Base.Decimal.{CodeUnits, codes}
use telegram_hls_streamer_v.Shared.Text.{same_text}

-- The ids of sections.
pub data SectionId : Type 0 where
  server : SectionId
  bots : SectionId
  watch : SectionId
  db : SectionId
  media : SectionId
  abr : SectionId
  cache : SectionId
  system : SectionId
  cloudflared : SectionId
  metadata : SectionId

abbrev pub section_number : SectionId → ℕ
section_number server = 0
section_number bots = 1
section_number watch = 2
section_number db = 3
section_number media = 4
section_number abr = 5
section_number cache = 6
section_number system = 7
section_number cloudflared = 8
section_number metadata = 9

unfoldable pub same_section_id : SectionId → SectionId → Bool
same_section_id s t = section_number s == section_number t

pub record Target : Type 0 where
  pub category : CodeUnits
  pub target : SectionId

abbrev pub to : String → SectionId → Target
to c s = record { category = codes c; target = s }

abbrev pub category_to_section : List Target
category_to_section =
    to "server" server
    ∷ to "file_handling" cache
    ∷ to "hardware" system
    ∷ to "hls" media
    ∷ to "adaptive_bitrate" abr
    ∷ to "reliability" system
    ∷ to "rate_limiting" system
    ∷ to "watch_folder" watch
    ∷ to "telegram" bots
    ∷ to "cloudflared" cloudflared
    ∷ to "metadata" metadata
    ∷ []

-- `CATEGORY_TO_SECTION[catKey] || 'settings-server'`.
unfoldable pub target_in : List Target → CodeUnits → SectionId
target_in [] cat = server
target_in (t ∷ ts) cat =
    let rest = target_in ts cat in if same_text t.category cat then t.target else rest

unfoldable pub section_of : CodeUnits → SectionId
section_of cat = target_in category_to_section cat

-- An entry of `sectionMap`: a section and its categories.
pub record Group : Type 0 where
  pub section : SectionId
  pub categories : List CodeUnits

unfoldable pub add_category : SectionId → CodeUnits → List Group → List Group
add_category s cat [] = record { section = s; categories = cat ∷ [] } ∷ []
add_category s cat (g ∷ gs) =
    let rest = add_category s cat gs in
    if same_section_id g.section s
    then record g { categories = g.categories ++ cat ∷ [] } ∷ gs
    else g ∷ rest

unfoldable pub add_all : List CodeUnits → List Group → List Group
add_all [] gs = gs
add_all (cat ∷ cats) gs = add_all cats (add_category (section_of cat) cat gs)

-- The groups of renderAllSettings, for the categories in the server's order.
unfoldable pub section_map : List CodeUnits → List Group
section_map cats = add_all cats []

-- `sectionMap[s]`, empty if it is not there.
unfoldable pub categories_in : SectionId → List Group → List CodeUnits
categories_in s [] = []
categories_in s (g ∷ gs) =
    let rest = categories_in s gs in if same_section_id g.section s then g.categories else rest

-- The entries of the sidebar and the sections, by what activateSection sets.
pub record SideItem : Type 0 where
  pub item_section : SectionId
  pub is_current : Bool

pub record SectionElement : Type 0 where
  pub element_id : SectionId
  pub hidden : Bool

pub record SettingsPage : Type 0 where
  pub items : List SideItem
  pub elements : List SectionElement
  pub subtitle : String

abbrev pub section_description : SectionId → String
section_description server = "Network bindings, public URL, and global server flags."
section_description bots = "Add, remove, and probe Telegram storage bots."
section_description watch = "Auto-ingest media dropped into a watched folder."
section_description db = "Backup, export, import, and replace the SQLite database."
section_description media = "Transcoding pipeline, HLS, and encoder settings."
section_description abr = "Adaptive bitrate tier behaviour."
section_description cache = "Segment cache and disk-backed cache."
section_description system = "Reliability, rate limiting, and hardware acceleration."
section_description cloudflared = "Cloudflared tunnel configuration."
section_description metadata =
    "External metadata providers (TMDB for movies/TV, AniList for anime — AniList needs no key), intro/outro detection, and community comments."

abbrev pub mark_items : SectionId → List SideItem → List SideItem
mark_items s [] = []
mark_items s (i ∷ is) = record i { is_current = same_section_id i.item_section s } ∷ mark_items s is

abbrev pub hide_others : SectionId → List SectionElement → List SectionElement
hide_others s [] = []
hide_others s (e ∷ es) =
    record e { hidden = not (same_section_id e.element_id s) } ∷ hide_others s es

unfoldable pub activate_section : SectionId → SettingsPage → SettingsPage
activate_section s p = record {
  items = mark_items s p.items;
  elements = hide_others s p.elements;
  subtitle = section_description s;
}

-- The section that renderAllSettings activates again: that of the first item that is current.
unfoldable pub active_section : List SideItem → SectionId
active_section [] = server
active_section (i ∷ is) =
    let rest = active_section is in if i.is_current then i.item_section else rest
