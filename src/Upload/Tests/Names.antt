-- ===== src/Upload/Tests/Names.antt =====
-- The theorems on names of files and on the chosen files, at concrete inputs.
use telegram_hls_streamer_v.Base.{All}
use telegram_hls_streamer_v.Base.{
  ℕ, ◌≡◌, refl, Bool, true, false, [], ◌∷◌, some, arith, length, leb, integer, filter, map,
}
use telegram_hls_streamer_v.Base.Decimal.{CodeUnits, codes}
use telegram_hls_streamer_v.Shared.Category.{tv_series}
use telegram_hls_streamer_v.Upload.Names.{parse_series_episode}
use telegram_hls_streamer_v.Upload.Names.Laws.{
  Written, marked, IsMarked, parse_series_episode-marked,
}
use telegram_hls_streamer_v.Upload.Selection.{
  PickedFile, is_valid_video_format, PendingFile, Page, choose_files, last_part,
}
use telegram_hls_streamer_v.Upload.Selection.Video.{IsVideo}
use telegram_hls_streamer_v.Upload.Selection.Laws.{TotalNames, InOrder, choose_files-Perm}
use telegram_hls_streamer_v.Shared.Slug.{to_lower_case, lower_unit}
use mathlib.Core.List.{Perm}

abbrev padded_number : ℕ → Written
padded_number n = record { zeros = 1; value = n }

is_marked : IsMarked (codes "Dark.") 83 69 (codes ".mkv")
is_marked = record {
  no_s = (refl, (refl, (refl, (refl, (refl, tt)))));
  s_letter = refl;
  e_letter = refl;
  no_digit = refl;
}

parse_series_episode-marked_example :
    parse_series_episode
      (marked (codes "Dark.") 83 (padded_number 1) 69 (padded_number 2) (codes ".mkv"))
      (codes "Dark")
    ≡ record { series = codes "Dark"; season = some (integer 1); episode = some (integer 2) }
parse_series_episode-marked_example =
    parse_series_episode-marked (codes "Dark.") 83 69 (codes ".mkv") (codes "Dark")
      (padded_number 1) (padded_number 2) is_marked

abbrev second_episode : PickedFile
second_episode = record {
  name = codes "Dark.S01E02.mkv";
  mime = [];
  relative_path = codes "Dark/2";
}

abbrev first_episode : PickedFile
first_episode = record {
  name = codes "Dark.S01E01.mkv";
  mime = codes "video/x-matroska";
  relative_path = codes "Dark/1";
}

abbrev poster : PickedFile
poster = record {
  name = codes "poster.jpg";
  mime = codes "image/jpeg";
  relative_path = codes "Dark/p";
}

abbrev page : Page
page = record {
  selected_category = tv_series;
  pending_files = [];
  takes_many = true;
  folder_shown = true;
  apply_all_shown = true;
  metadata_shown = false;
}

abbrev shorter : CodeUnits → CodeUnits → Bool
shorter a b = leb (length a) (length b)

shorter-TotalNames : TotalNames shorter
shorter-TotalNames a b h = ground arith

are_chosen :
    filter is_valid_video_format (second_episode ∷ poster ∷ first_episode ∷ [])
    ≡ second_episode ∷ first_episode ∷ []
unfolding is_valid_video_format to_lower_case lower_unit last_part
are_chosen = refl

choose_files-Perm_example :
    Perm
      (map PendingFile.file
        (choose_files shorter (second_episode ∷ poster ∷ first_episode ∷ []) page).pending_files)
      (filter is_valid_video_format (second_episode ∷ poster ∷ first_episode ∷ []))
    × All IsVideo (
        map PendingFile.file
          (choose_files shorter (second_episode ∷ poster ∷ first_episode ∷ []) page).pending_files)
    × InOrder shorter (
        map PendingFile.file
          (choose_files shorter (second_episode ∷ poster ∷ first_episode ∷ []) page).pending_files)
choose_files-Perm_example =
    choose_files-Perm shorter (second_episode ∷ poster ∷ first_episode ∷ []) page second_episode
      (first_episode ∷ []) shorter-TotalNames refl are_chosen
