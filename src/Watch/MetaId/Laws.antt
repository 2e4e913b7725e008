-- ===== src/Watch/MetaId/Laws.antt =====
-- static/watch.js: a link to a page of AniList is read as its number.
use telegram_hls_streamer_v.Base.{ℕ, [], ◌∷◌, ◌++◌, some, ◌≡◌, refl}
use telegram_hls_streamer_v.Base.Decimal.{CodeUnits, codes, show, show-IsDigit, show-ne-nil}
use telegram_hls_streamer_v.Base.Regex.{text_ignoring_case, match, exec, is_digit_unit}
use telegram_hls_streamer_v.Base.Regex.Laws.{Stops, match-digits, before_rest-append}
use telegram_hls_streamer_v.Shared.Slug.{to_lower_case, lower_unit}
use telegram_hls_streamer_v.Watch.MetaId.{anilist_link, parse_direct_meta_id}

exec-anilist_link :
    (n : ℕ) (rest : CodeUnits)
    → Stops is_digit_unit rest
    → exec anilist_link (codes "https://anilist.co/anime/" ++ (show n ++ rest))
      ≡ some (codes "anime" ∷ show n ∷ [])
unfolding exec match text_ignoring_case
exec-anilist_link n rest stop =
    rw
      (
        before_rest-append (codes "anime") (47 ∷ (show n ++ rest)),
        match-digits (some 47) (show n) rest (codes "anime" ∷ []) (λ b t g. some g)
            (codes "anime" ∷ show n ∷ []) (show-IsDigit n) (show-ne-nil n) stop (λ b. refl),
      )
      refl

-- A link to an anime's page at AniList is read as the number in it, whatever the number is, whatever follows it
-- that is no digit, and whichever provider is selected.
pub parse_direct_meta_id-anilist :
    (n : ℕ) (rest selected : CodeUnits)
    → Stops is_digit_unit rest
    → parse_direct_meta_id (codes "https://anilist.co/anime/" ++ (show n ++ rest)) selected
      ≡ some (record { provider = codes "anilist"; id = show n; kind = codes "anime" })
unfolding parse_direct_meta_id to_lower_case lower_unit
parse_direct_meta_id-anilist n rest selected stop = rw (exec-anilist_link n rest stop) refl
