-- ===== src/Browse/Cards/Laws.antt =====
-- static/browse.js and browse-palette.js: a series' card and its row in the palette lead to one page, and
-- one chip is pressed.
use telegram_hls_streamer_v.Base.{
  ℕ, suc, ◌+◌, ◌-◌, ◌<◌, Bool, true, false, List, [], ◌∷◌, ◌++◌, if◌then◌else◌, ◌==◌, length, All,
  All-append, All-map, all, not, ◌||◌, ◌≤◌, ◌≡◌, ◌≢◌, ◌⊎◌, inl, inr, refl, arith, if_elim, ap, sym,
  subst, ◌∙◌,
}
use telegram_hls_streamer_v.Base.Decimal.{CodeUnits, codes}
use telegram_hls_streamer_v.Shared.Text.{is_empty}
use telegram_hls_streamer_v.Shared.Slug.{slugify, slugify_short}
use telegram_hls_streamer_v.Shared.Slug.Laws.{
  IsSlug, IsSlugged, slugify-IsSlug, slugify-slugify_short,
}
use telegram_hls_streamer_v.Shared.Names.{escape_attr, replace_all}
use telegram_hls_streamer_v.Browse.Request.{Context}
use telegram_hls_streamer_v.Browse.Palette.{href_of}
use telegram_hls_streamer_v.Browse.Palette.Texts.{ListedJob, palette_job}
use telegram_hls_streamer_v.Browse.Home.Cards.{home_title, home_series_name, home_series_href}
use telegram_hls_streamer_v.Browse.Cards.{
  CardJob, or_units, browse_path, series_href, press_from, click_chip, click_chips,
}

abbrev pub IsPlain : ℕ → Type 0
IsPlain c = (c ≢ 34) × (c ≢ 39)

IsSlugged-IsPlain : (b : Bool) (s : CodeUnits) → IsSlugged b s → All IsPlain s
IsSlugged-IsPlain b [] h = tt
IsSlugged-IsPlain true (c ∷ cs) (inl (w, h)) = (ground arith, IsSlugged-IsPlain true cs h)
IsSlugged-IsPlain true (c ∷ cs) (inr (w, h)) = (ground arith, IsSlugged-IsPlain false cs h)
IsSlugged-IsPlain false (c ∷ cs) (w, h) = (ground arith, IsSlugged-IsPlain true cs h)

slug-IsPlain : (s : CodeUnits) → IsSlug s → All IsPlain s
slug-IsPlain s (inl e) = rw e tt
slug-IsPlain s (inr h) = IsSlugged-IsPlain false s h

replace_all-absent : (c : ℕ) (by s : CodeUnits) → All (λ d. d ≢ c) s → replace_all c by s ≡ s
unfolding replace_all
replace_all-absent c by [] h = refl
replace_all-absent c by (d ∷ ds) (h, hs) = ground (arith, replace_all-absent c by ds hs)

pub escape_attr-IsPlain : (s : CodeUnits) → All IsPlain s → escape_attr s ≡ s
unfolding escape_attr
escape_attr-IsPlain s h =
    rw (replace_all-absent 34 (codes "&quot;") s (All-map IsPlain (λ d. d ≢ 34) s (λ a k. k.0) h))
      (replace_all-absent 39 (codes "&#39;") s (All-map IsPlain (λ d. d ≢ 39) s (λ a k. k.1) h))

-- The link of a series to its page, of a path without quotes and a slug.
escape_attr-path :
    (path name : CodeUnits)
    → All IsPlain path
    → escape_attr (path ++ codes "/" ++ slugify name) ≡ path ++ codes "/" ++ slugify_short name
escape_attr-path path name h =
    escape_attr-IsPlain (path ++ codes "/" ++ slugify name) (
      All-append IsPlain (path ++ codes "/") (slugify name)
        (All-append IsPlain path (codes "/") h ((λ e. cc e, λ e. cc e), tt))
        (slug-IsPlain (slugify name) (slugify-IsSlug name)))
    ∙ ap (λ s. path ++ codes "/" ++ s) (slugify-slugify_short name)

all-IsPlain : (s : CodeUnits) → all (λ c. not ((c == 34) || (c == 39))) s ≡ true → All IsPlain s
all-IsPlain [] h = tt
all-IsPlain (c ∷ cs) h = ground (arith, all-IsPlain cs)

or_units-if : (s d e : CodeUnits) → s ≢ [] → or_units s d ≡ (if is_empty s then e else s)
or_units-if [] d e ne = absurd (ne refl)
or_units-if (c ∷ cs) d e ne = refl

if-or_units : (s d e : CodeUnits) → s ≢ [] → (if is_empty s then e else s) ≡ or_units s d
if-or_units s d e ne = sym (or_units-if s d e ne)

card_path :
    (path s d e : CodeUnits)
    → all (λ c. not ((c == 34) || (c == 39))) path ≡ true
    → s ≢ []
    → escape_attr (path ++ codes "/" ++ slugify (or_units s d))
      ≡ path ++ codes "/" ++ slugify_short (if is_empty s then e else s)
card_path path s d e h ne =
    escape_attr-path path (or_units s d) (all-IsPlain path h)
    ∙ ap (λ t. path ++ codes "/" ++ slugify_short t) (or_units-if s d e ne)

-- On the page of a category that lists series, which are Series and Anime TV, the card of a series with a name leads to
-- the same path as the series' card on the home page and as its row in the palette, though the three pages escape and
-- slug on their own, and as far as they agree on the name and the type.
pub series_href-href_of :
    (ctx : Context) (j : CardJob) (l : ListedJob)
    → (ctx.category ≡ codes "Series") ⊎ (ctx.category ≡ codes "Anime TV")
    → j.media_type ≡ ctx.category
    → l.media_type ≡ ctx.category
    → l.is_series ≡ true
    → l.series_name ≡ j.series_name
    → j.series_name ≢ []
    → (series_href ctx j ≡ home_series_href j) × (series_href ctx j ≡ href_of (palette_job l))
unfolding series_href href_of palette_job browse_path home_series_href home_series_name
series_href-href_of ctx j l (inl c) mj m t n ne =
    rw (c, mj ∙ c, m ∙ c, t, n)
      (
        card_path (codes "/series") j.series_name (codes "Unknown Series") (home_title j) refl ne
            ∙ ap (λ s. codes "/series/" ++ slugify_short s)
                (if-or_units j.series_name (home_title j) (home_title j) ne),
        card_path (codes "/series") j.series_name _ _ refl ne,
      )
series_href-href_of ctx j l (inr c) mj m t n ne =
    rw (c, mj ∙ c, m ∙ c, t, n)
      (
        card_path (codes "/anime-tv") j.series_name (codes "Unknown Series") (home_title j) refl ne
            ∙ ap (λ s. codes "/anime-tv/" ++ slugify_short s)
                (if-or_units j.series_name (home_title j) (home_title j) ne),
        card_path (codes "/anime-tv") j.series_name _ _ refl ne,
      )

-- How many of the chips are pressed, the one that sorts aside.
abbrev pub pressed : List Bool → ℕ
pressed [] = 0
pressed (b ∷ []) = 0
pressed (b ∷ c ∷ cs) = (if b then 1 else 0) + pressed (c ∷ cs)

length-press_from : (j i : ℕ) (chips : List Bool) → length (press_from j i chips) ≡ length chips
length-press_from j i [] = refl
length-press_from j i (b ∷ []) = refl
length-press_from j i (b ∷ c ∷ cs) = ap suc (length-press_from (suc j) i (c ∷ cs))

pressed-press_from_past : (j i : ℕ) (chips : List Bool) → i < j → pressed (press_from j i chips) ≡ 0
pressed-press_from_past j i [] h = refl
pressed-press_from_past j i (b ∷ []) h = refl
pressed-press_from_past j i (b ∷ c ∷ []) h = ground arith
pressed-press_from_past j i (b ∷ c ∷ d ∷ ds) h =
    ground (arith, pressed-press_from_past (suc j) i (c ∷ d ∷ ds))

pressed-press_from :
    (j i : ℕ) (chips : List Bool)
    → j ≤ i
    → suc i < j + length chips
    → pressed (press_from j i chips) ≡ 1
pressed-press_from j i [] h k = absurd (omega arith)
pressed-press_from j i (b ∷ []) h k = absurd (omega arith)
pressed-press_from j i (b ∷ c ∷ []) h k = ground arith
pressed-press_from j i (b ∷ c ∷ d ∷ ds) h k = ground (
  arith,
  pressed-press_from_past (suc j) i (c ∷ d ∷ ds),
  pressed-press_from (suc j) i (c ∷ d ∷ ds),
)

abbrev pub IsOnePressed : List Bool → Type 0
IsOnePressed chips = pressed chips ≡ 1

-- However the chips are clicked, one of those that filter is pressed, and there are as many chips.
pub click_chips-IsOnePressed :
    (is : List ℕ) (chips : List Bool)
    → All (λ i. i < length chips) is
    → IsOnePressed chips
    → IsOnePressed (click_chips is chips) × (length (click_chips is chips) ≡ length chips)
unfolding click_chips click_chip
click_chips-IsOnePressed [] chips h k = (k, refl)
click_chips-IsOnePressed (i ∷ is) chips (h, hs) k =
    if_elim
      (λ (cs : List Bool).
        IsOnePressed (click_chips is cs) × (length (click_chips is cs) ≡ length chips))
      (i == length chips - 1) _ _ (λ t. click_chips-IsOnePressed is chips hs k)
      (λ f.
        let same = length-press_from 0 i chips in
        let rest =
          click_chips-IsOnePressed is (press_from 0 i chips)
            (subst (λ n. All (λ m. m < n) is) (sym same) hs)
            (pressed-press_from 0 i chips (omega arith) (ground arith)) in
        (rest.0, rest.1 ∙ same))
