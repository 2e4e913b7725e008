-- ===== src/Upload/Selection.antt =====
-- static/upload.js: the files that were dropped or chosen, their order, and the category.
pub mod Video
pub mod Laws
use telegram_hls_streamer_v.Base.{
  ◌+◌, Bool, true, false, not, ◌||◌, List, [], ◌∷◌, ◌++◌, none, some, if◌then◌else◌, ◌==◌, map,
  filter,
}
use telegram_hls_streamer_v.Base.Decimal.{CodeUnits, codes}
use telegram_hls_streamer_v.Base.Sorting.{sort_with}
use telegram_hls_streamer_v.Shared.Category.{
  Category, film, film_series, tv_series, anime_film, anime_tv_series, is_single,
}
use telegram_hls_streamer_v.Shared.Text.{starts_with, same_text}
use telegram_hls_streamer_v.Shared.Slug.{to_lower_case}
use telegram_hls_streamer_v.Upload.Form.{Metadata}
use telegram_hls_streamer_v.Upload.Names.Order.{episode_num, num_before}
use telegram_hls_streamer_v.Upload.Names.{parse_film_title, parse_series_episode, parse_part_number}

-- What the page uses of a file of the browser; `relative_path` is empty for a file that came alone.
pub record PickedFile : Type 0 where
  pub name : CodeUnits
  pub mime : CodeUnits
  pub relative_path : CodeUnits

-- `name.split('.').pop()`: what follows the last dot, or the whole name.
unfoldable pub last_part : CodeUnits → CodeUnits → CodeUnits
last_part found [] = found
last_part found (c ∷ cs) = last_part (if c == 46 then cs else found) cs

abbrev pub allowed_extensions : List CodeUnits
allowed_extensions =
    codes "mp4"
    ∷ codes "mkv"
    ∷ codes "avi"
    ∷ codes "mov"
    ∷ codes "webm"
    ∷ codes "ts"
    ∷ codes "m4v"
    ∷ codes "flv"
    ∷ []

abbrev pub is_one_of : List CodeUnits → CodeUnits → Bool
is_one_of [] s = false
is_one_of (t ∷ ts) s = same_text t s || is_one_of ts s

unfoldable pub is_valid_video_format : PickedFile → Bool
is_valid_video_format f =
    starts_with (codes "video/") f.mime
    || is_one_of allowed_extensions (to_lower_case (last_part f.name f.name))

-- What a drop gives: a tree, whose directories are read batch by batch until one is empty.
mutual
  pub data Dropped : Type 0 where
    file_entry : PickedFile → Dropped
    directory_entry : Batches → Dropped

  pub data Batches : Type 0 where
    empty_batch : Batches
    batch : Dropped → DroppedList → Batches → Batches

  pub data DroppedList : Type 0 where
    nil : DroppedList
    cons : Dropped → DroppedList → DroppedList

unfoldable mutual
  pub read_entry : Dropped → List PickedFile
  read_entry (file_entry f) = f ∷ []
  read_entry (directory_entry bs) = read_batches bs

  pub read_batches : Batches → List PickedFile
  read_batches empty_batch = []
  read_batches (batch e es bs) = (read_entry e ++ read_entries es) ++ read_batches bs

  pub read_entries : DroppedList → List PickedFile
  read_entries nil = []
  read_entries (cons e es) = read_entry e ++ read_entries es

-- `(webkitRelativePath || '').split('/')[0]`.
unfoldable pub first_folder : CodeUnits → CodeUnits
first_folder [] = []
first_folder (c ∷ cs) = let rest = first_folder cs in if c == 47 then [] else c ∷ rest

unfoldable pub parse_metadata : Category → PickedFile → Metadata
parse_metadata film f = record {
  title = some (parse_film_title f.name);
  series_name = none;
  season = none;
  episode = none;
  part_number = none;
}
parse_metadata anime_film f = record {
  title = some (parse_film_title f.name);
  series_name = none;
  season = none;
  episode = none;
  part_number = none;
}
parse_metadata film_series f = record {
  title = some (parse_film_title f.name);
  series_name = some (first_folder f.relative_path);
  season = none;
  episode = none;
  part_number = parse_part_number f.name;
}
parse_metadata _ f =
    let found = parse_series_episode f.name (first_folder f.relative_path) in
    record {
      title = none;
      series_name = some found.series;
      season = found.season;
      episode = found.episode;
      part_number = none;
    }

-- The comparison gives at most 0. `name_le a b` is `a.localeCompare(b) <= 0`, which is the browser's.
abbrev pub file_le : (CodeUnits → CodeUnits → Bool) → PickedFile → PickedFile → Bool
file_le name_le a b =
    if num_before (episode_num a.name) (episode_num b.name)
    then true
    else if num_before (episode_num b.name) (episode_num a.name)
    then false
    else name_le a.name b.name

unfoldable pub sort_by_episode : (CodeUnits → CodeUnits → Bool) → List PickedFile → List PickedFile
sort_by_episode name_le files = sort_with (file_le name_le) files

-- An entry of `pendingFiles`.
pub record PendingFile : Type 0 where
  pub file : PickedFile
  pub metadata : Metadata

abbrev pub first_file : List PickedFile → List PickedFile
first_file [] = []
first_file (f ∷ fs) = f ∷ []

abbrev pub pending_file : Category → PickedFile → PendingFile
pending_file cat f = record { file = f; metadata = parse_metadata cat f }

-- handleSelectedFiles, of a list that is not empty.
unfoldable pub handle_selected_files :
    (CodeUnits → CodeUnits → Bool) → Category → List PickedFile → List PendingFile
handle_selected_files name_le cat files =
    map (pending_file cat)
      (if is_single cat then first_file files else sort_by_episode name_le files)

-- The pending files of the page, its category, and what of its parts is shown.
pub record Page : Type 0 where
  pub selected_category : Category
  pub pending_files : List PendingFile
  pub takes_many : Bool
  pub folder_shown : Bool
  pub apply_all_shown : Bool
  pub metadata_shown : Bool

abbrev pub has_series : Category → Bool
has_series film_series = true
has_series tv_series = true
has_series anime_tv_series = true
has_series _ = false

unfoldable pub update_upload_ui : Page → Page
update_upload_ui p = record p {
  takes_many = not (is_single p.selected_category);
  folder_shown = not (is_single p.selected_category);
  apply_all_shown = has_series p.selected_category;
}

-- A click on a category.
unfoldable pub select_category : Category → Page → Page
select_category cat p =
    update_upload_ui
      (record p { selected_category = cat; pending_files = []; metadata_shown = false })

abbrev pub or_files : List PickedFile → List PickedFile → List PickedFile
or_files [] fs = fs
or_files (f ∷ fs) gs = f ∷ fs

-- Files that were chosen or dropped: those of a wrong format are left out, and if none is left nothing happens.
unfoldable pub choose_files : (CodeUnits → CodeUnits → Bool) → List PickedFile → Page → Page
choose_files name_le files p = elim (filter is_valid_video_format files) [
  | [] ↦ p
  | f ∷ fs ↦ record p {
    pending_files = handle_selected_files name_le p.selected_category (f ∷ fs);
    metadata_shown = true;
  }
]

-- A drop: the entries that the browser gives, or else its plain list of files.
unfoldable pub drop_files :
    (CodeUnits → CodeUnits → Bool) → DroppedList → List PickedFile → Page → Page
drop_files name_le entries plain p = choose_files name_le (or_files (read_entries entries) plain) p
