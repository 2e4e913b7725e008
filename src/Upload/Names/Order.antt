-- ===== src/Upload/Names/Order.antt =====
-- static/upload.js: the number in a file's name by which files are put in order (episodeNum).
use telegram_hls_streamer_v.Base.{
  ℕ, ◌+◌, ◌*◌, Bool, true, false, ◌||◌, List, ◌∷◌, Option, none, some, ltb, ◌==◌,
}
use telegram_hls_streamer_v.Base.Decimal.{CodeUnits, read_from}
use telegram_hls_streamer_v.Base.Regex.{
  Re, one, many, seq, either, maybe, group, not_before, at_start, at_end, exec, is_digit_unit,
  digits,
}
use telegram_hls_streamer_v.Shared.Text.{is_space}
use telegram_hls_streamer_v.Upload.Names.{is_s, is_e}

-- The expressions of `episodeNum`.
abbrev pub season_mark : Re
season_mark = seq (one is_s) digits

abbrev pub season_and_episode_mark : Re
season_and_episode_mark =
    seq (one is_s) (seq (one is_digit_unit) (seq (many is_digit_unit) (seq (one is_e) digits)))

-- `(\d{1,3})`.
abbrev pub few_digits : Re
few_digits =
    group (seq (one is_digit_unit) (maybe (seq (one is_digit_unit) (maybe (one is_digit_unit)))))

abbrev pub episode_mark : Re
episode_mark =
    seq (one is_e)
      (seq (maybe (one (λ c. (c == 80) || (c == 112)))) (seq few_digits (not_before is_digit_unit)))

abbrev pub cross_mark : Re
cross_mark = seq (one is_digit_unit) (seq (many is_digit_unit) (seq (one (λ c. c == 120)) digits))

abbrev pub is_gap : ℕ → Bool
is_gap c = is_space c || (c == 45) || (c == 95) || (c == 46)

abbrev pub lone_number : Re
lone_number = seq (either at_start (one is_gap)) (seq few_digits (either (one is_gap) at_end))

abbrev pub number_or : Option (List CodeUnits) → Option ℕ → Option ℕ
number_or (some (d ∷ ds)) rest = some (read_from 0 d)
number_or _ rest = rest

-- `parseInt(m[1]) * 1000 + parseInt(season)`.
abbrev pub combined : Option (List CodeUnits) → Option (List CodeUnits) → Option ℕ → Option ℕ
combined (some (e ∷ es)) (some (s ∷ ss)) rest = some (read_from 0 e * 1000 + read_from 0 s)
combined _ _ rest = rest

-- `none` is Infinity.
unfoldable pub episode_num : CodeUnits → Option ℕ
episode_num name = combined (exec season_and_episode_mark name) (exec season_mark name) (
    number_or (exec episode_mark name)
      (number_or (exec cross_mark name) (number_or (exec lone_number name) none)))

abbrev pub num_before : Option ℕ → Option ℕ → Bool
num_before none n = false
num_before (some m) none = true
num_before (some m) (some n) = ltb m n
