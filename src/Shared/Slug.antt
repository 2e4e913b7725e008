-- ===== src/Shared/Slug.antt =====
-- static/shared.js, common.js and browse-palette.js: the slug of a title, as it stands in the site's paths.
pub mod Laws
use telegram_hls_streamer_v.Base.{
  ℕ, ◌+◌, Bool, true, false, ◌||◌, ◌&&◌, [], ◌∷◌, ◌++◌, if◌then◌else◌, leb, ◌==◌,
}
use telegram_hls_streamer_v.Base.Decimal.{CodeUnits}

-- `[a-z0-9]`.
abbrev pub is_word : ℕ → Bool
is_word c = (leb 97 c && leb c 122) || (leb 48 c && leb c 57)

-- The lower case of a code unit. A slug is only of ASCII letters: of the others it matters here
-- that they have no ASCII letter in their lower case but for K (Kelvin) and the dotted I.
unfoldable pub lower_unit : ℕ → CodeUnits
lower_unit c =
    if leb 65 c && leb c 90
    then (c + 32) ∷ []
    else if c == 8490
    then 107 ∷ []
    else if c == 304
    then 105 ∷ 775 ∷ []
    else c ∷ []

unfoldable pub to_lower_case : CodeUnits → CodeUnits
to_lower_case [] = []
to_lower_case (c ∷ cs) = lower_unit c ++ to_lower_case cs

-- `replace(/[^a-z0-9]+/g, '-')`; the flag says that a run is being replaced.
unfoldable pub dash_runs : Bool → CodeUnits → CodeUnits
dash_runs inside [] = []
dash_runs inside (c ∷ cs) =
    let after_word = dash_runs false cs in
    let after_run = dash_runs true cs in
    if is_word c then c ∷ after_word else if inside then after_run else 45 ∷ after_run

-- `replace(/-+/g, '-')`.
unfoldable pub single_dashes : Bool → CodeUnits → CodeUnits
single_dashes inside [] = []
single_dashes inside (c ∷ cs) =
    let after_dash = single_dashes true cs in
    let after_other = single_dashes false cs in
    if c == 45 then if inside then after_dash else 45 ∷ after_dash else c ∷ after_other

-- `replace(/^-|-$/g, '')`: one dash at the start, one at the end.
unfoldable pub drop_first_dash : CodeUnits → CodeUnits
drop_first_dash [] = []
drop_first_dash (c ∷ cs) = if c == 45 then cs else c ∷ cs

unfoldable pub drop_last_dash : CodeUnits → CodeUnits
drop_last_dash [] = []
drop_last_dash (c ∷ []) = if c == 45 then [] else c ∷ []
drop_last_dash (c ∷ d ∷ ds) = c ∷ drop_last_dash (d ∷ ds)

unfoldable pub slugify : CodeUnits → CodeUnits
slugify text =
    drop_last_dash (drop_first_dash (single_dashes false (dash_runs false (to_lower_case text))))

-- The slug of common.js and of browse-palette.js.
unfoldable pub slugify_short : CodeUnits → CodeUnits
slugify_short text = drop_last_dash (drop_first_dash (dash_runs false (to_lower_case text)))
