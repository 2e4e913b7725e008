-- ===== src/Upload/Names.antt =====
-- static/upload.js: what file names say of the title, the season, the episode and the part.
pub mod Laws
pub mod Order
use telegram_hls_streamer_v.Base.{
  ℕ, zero, suc, ◌-◌, Bool, true, false, not, ◌||◌, List, [], ◌∷◌, Option, none, some, if◌then◌else◌,
  ◌==◌, length, Numeric, integer,
}
use telegram_hls_streamer_v.Base.Decimal.{CodeUnits, codes, read_from}
use telegram_hls_streamer_v.Base.Regex.{
  Re, one, many, seq, either, maybe, group, boundary, match, exec, remove_first, same_letter,
  text_ignoring_case, is_digit_unit, digits,
}
use telegram_hls_streamer_v.Shared.Text.{is_space, trim}
use telegram_hls_streamer_v.Shared.Names.{drop_extension, single_spaces}

-- `replace(re, '')` under the flag `g`. The counter is what is left to skip of the last match.
unfoldable pub remove_every : Re → ℕ → Option ℕ → CodeUnits → CodeUnits
remove_every re skip before [] = []
remove_every re (suc n) before (c ∷ cs) = remove_every re n (some c) cs
remove_every re zero before (c ∷ cs) =
    elim (match re before (c ∷ cs) [] (λ b t g. some (length cs - length t))) [
      | none ↦ c ∷ remove_every re zero (some c) cs
      | some n ↦ remove_every re n (some c) cs
    ]

-- `/[\[\(][^\]\)]*[\]\)]/`.
abbrev pub bracketed : Re
bracketed =
    seq (one (λ c. (c == 91) || (c == 40)))
      (seq (many (λ c. not ((c == 93) || (c == 41)))) (one (λ c. (c == 93) || (c == 41))))

-- `.`, which does not match the end of a line.
abbrev pub not_line_end : ℕ → Bool
not_line_end c = not ((c == 10) || (c == 13) || (c == 8232) || (c == 8233))

-- `/\b(19|20)\d{2}\b.*/`.
abbrev pub year : Re
year = seq boundary (
    seq (group (either (text_ignoring_case (codes "19")) (text_ignoring_case (codes "20"))))
      (seq (one is_digit_unit) (seq (one is_digit_unit) (seq boundary (many not_line_end)))))

abbrev pub any_of : CodeUnits → List CodeUnits → Re
any_of t [] = text_ignoring_case t
any_of t (u ∷ us) = either (text_ignoring_case t) (any_of u us)

-- `/\b(1080p|…|proper)\b.*/i`.
abbrev pub release_tag : Re
release_tag = seq boundary (
    seq
      (group (
        any_of (codes "1080p") (
          codes "720p"
          ∷ codes "480p"
          ∷ codes "4k"
          ∷ codes "bluray"
          ∷ codes "bdrip"
          ∷ codes "webrip"
          ∷ codes "web-dl"
          ∷ codes "hdtv"
          ∷ codes "x264"
          ∷ codes "x265"
          ∷ codes "hevc"
          ∷ codes "avc"
          ∷ codes "remux"
          ∷ codes "proper"
          ∷ [])))
      (seq boundary (many not_line_end)))

-- `[._-]`.
abbrev pub is_joiner : ℕ → Bool
is_joiner c = (c == 46) || (c == 95) || (c == 45)

-- `replace(/[._-]+/g, ' ')`; the flag says that a run is being replaced.
unfoldable pub joiners_to_spaces : Bool → CodeUnits → CodeUnits
joiners_to_spaces inside [] = []
joiners_to_spaces inside (c ∷ cs) =
    let after_run = joiners_to_spaces true cs in
    let after_other = joiners_to_spaces false cs in
    if is_joiner c then if inside then after_run else 32 ∷ after_run else c ∷ after_other

unfoldable pub parse_film_title : CodeUnits → CodeUnits
parse_film_title filename = trim (
    single_spaces false (
      trim (
        joiners_to_spaces false (
          remove_first release_tag
            (remove_first year (remove_every bracketed zero none (drop_extension filename)))))))

-- `[Ss]` and `[Ee]`, and one letter under the flag `i`.
abbrev pub is_s : ℕ → Bool
is_s c = (c == 83) || (c == 115)

abbrev pub is_e : ℕ → Bool
is_e c = (c == 69) || (c == 101)

-- `/[Ss](\d+)[Ee](\d+)/`.
abbrev pub season_and_episode : Re
season_and_episode = seq (one is_s) (seq digits (seq (one is_e) digits))

-- `/[Ss]eason\s*(\d+)[^0-9]*[Ee]p?(?:isode)?\s*(\d+)/i`.
abbrev pub season_then_episode : Re
season_then_episode = seq (text_ignoring_case (codes "season")) (
    seq (many is_space) (
      seq digits (
        seq (many (λ c. not (is_digit_unit c))) (
          seq (one is_e) (
            seq (maybe (one (same_letter 112)))
              (seq (maybe (text_ignoring_case (codes "isode"))) (seq (many is_space) digits)))))))

-- `/[Ee]p?(\d+)/i`.
abbrev pub episode_only : Re
episode_only = seq (one is_e) (seq (maybe (one (same_letter 112))) digits)

pub record SeriesEpisode : Type 0 where
  pub series : CodeUnits
  pub season : Option Numeric
  pub episode : Option Numeric

-- `parseInt(m[i], 10)` of a group of digits.
abbrev pub number_of : CodeUnits → Numeric
number_of ds = integer (read_from 0 ds)

-- The branches of parseSeriesEpisode: what two groups say, or one, or else `rest`.
abbrev pub both_numbers : CodeUnits → Option (List CodeUnits) → SeriesEpisode → SeriesEpisode
both_numbers folder (some (s ∷ e ∷ gs)) rest = record {
  series = folder;
  season = some (number_of s);
  episode = some (number_of e);
}
both_numbers folder _ rest = rest

abbrev pub episode_number : CodeUnits → Option (List CodeUnits) → SeriesEpisode
episode_number folder (some (e ∷ gs)) = record {
  series = folder;
  season = none;
  episode = some (number_of e);
}
episode_number folder _ = record { series = folder; season = none; episode = none }

unfoldable pub parse_series_episode : CodeUnits → CodeUnits → SeriesEpisode
parse_series_episode filename folder = both_numbers folder (exec season_and_episode filename) (
    both_numbers folder (exec season_then_episode filename)
      (episode_number folder (exec episode_only filename)))

-- `/[Pp]art\s*(\d+)/i` and `/[Pp]t\.?\s*(\d+)/i`.
abbrev pub part_word : Re
part_word = seq (text_ignoring_case (codes "part")) (seq (many is_space) digits)

abbrev pub part_abbreviated : Re
part_abbreviated =
    seq (text_ignoring_case (codes "pt"))
      (seq (maybe (one (λ c. c == 46))) (seq (many is_space) digits))

abbrev pub first_number : Option (List CodeUnits) → Option Numeric → Option Numeric
first_number (some (d ∷ ds)) rest = some (number_of d)
first_number _ rest = rest

unfoldable pub parse_part_number : CodeUnits → Option Numeric
parse_part_number filename =
    first_number (exec part_word filename) (first_number (exec part_abbreviated filename) none)
