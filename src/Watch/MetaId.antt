-- ===== src/Watch/MetaId.antt =====
-- static/watch.js: the link or the number that a search for metadata may be (parseDirectMetaId).
pub mod Laws
use telegram_hls_streamer_v.Base.{◌==◌, List, ◌∷◌, Option, none, some, if◌then◌else◌}
use telegram_hls_streamer_v.Base.Decimal.{CodeUnits, codes}
use telegram_hls_streamer_v.Base.Regex.{
  Re, one, many, seq, either, group, at_start, at_end, exec, text_ignoring_case, is_digit_unit,
  digits,
}
use telegram_hls_streamer_v.Shared.Slug.{to_lower_case}
use telegram_hls_streamer_v.Shared.Text.{same_text}

pub record DirectId : Type 0 where
  pub provider : CodeUnits
  pub id : CodeUnits
  pub kind : CodeUnits

-- `/anilist\.co\/(anime|manga|manhwa|novel)\/(\d+)/i`.
abbrev pub anilist_link : Re
anilist_link = seq (text_ignoring_case (codes "anilist.co/")) (
    seq
      (group (
        either (text_ignoring_case (codes "anime")) (
          either (text_ignoring_case (codes "manga"))
            (either (text_ignoring_case (codes "manhwa")) (text_ignoring_case (codes "novel"))))))
      (seq (one (λ c. c == 47)) digits))

-- `/themoviedb\.org\/(movie|tv)\/(\d+)/i`.
abbrev pub tmdb_link : Re
tmdb_link = seq (text_ignoring_case (codes "themoviedb.org/")) (
    seq (group (either (text_ignoring_case (codes "movie")) (text_ignoring_case (codes "tv"))))
      (seq (one (λ c. c == 47)) digits))

-- `/^\d+$/`.
abbrev pub only_digits : Re
only_digits = seq at_start (seq (one is_digit_unit) (seq (many is_digit_unit) at_end))

abbrev pub linked : CodeUnits → Option (List CodeUnits) → Option DirectId → Option DirectId
linked provider (some (k ∷ i ∷ gs)) rest =
    some (record { provider = provider; id = i; kind = to_lower_case k })
linked provider _ rest = rest

abbrev pub plain_number : CodeUnits → CodeUnits → Option (List CodeUnits) → Option DirectId
plain_number q selected none = none
plain_number q selected (some gs) =
    if same_text selected (codes "anilist")
    then some (record { provider = codes "anilist"; id = q; kind = codes "anime" })
    else none

unfoldable pub parse_direct_meta_id : CodeUnits → CodeUnits → Option DirectId
parse_direct_meta_id q selected =
    linked (codes "anilist") (exec anilist_link q)
      (linked (codes "tmdb") (exec tmdb_link q) (plain_number q selected (exec only_digits q)))
