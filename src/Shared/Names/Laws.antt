-- ===== src/Shared/Names/Laws.antt =====
-- static/shared.js and browse-palette.js: what clean titles, colours and escaped texts are made of.
use telegram_hls_streamer_v.Base.{All-append, All-reverse}
use telegram_hls_streamer_v.Base.{
  ℕ, ◌+◌, ◌*◌, ◌%◌, ◌^◌, ◌<◌, Bool, true, false, [], ◌∷◌, ◌==◌, map, arith, ◌≡◌, refl, ◌≢◌, if_elim,
  All, ap,
}
use telegram_hls_streamer_v.Base.Decimal.{CodeUnits, codes}
use telegram_hls_streamer_v.Shared.Text.{is_space, trim, trim_start}
use telegram_hls_streamer_v.Shared.Names.{
  to_space, single_spaces, drop_extension, drop_job_prefix, clean_title, hash_step, hash_from,
  job_id_to_gradient, palette_hash_from, palette_gradient, replace_all, escape_attr, palette_esc,
}
use mathlib.Core.List.{reverse}

-- A character that a clean title may have: the only white space is the space.
abbrev pub IsClean : ℕ → Type 0
IsClean c = (c ≢ 46) × (c ≢ 95) × (is_space c ≡ true → c ≡ 32)

single_spaces-IsClean : (b : Bool) (s : CodeUnits) → All IsClean (single_spaces b (map to_space s))
unfolding single_spaces
single_spaces-IsClean b [] = tt
single_spaces-IsClean b (c ∷ cs) =
    if_elim (All IsClean) (is_space (to_space c)) _ _
      (λ t.
        if_elim (All IsClean) b _ _ (λ u. single_spaces-IsClean true cs)
          (λ u. ((omega arith, omega arith, λ e. refl), single_spaces-IsClean true cs)))
      (λ f.
        ((grind arith, grind arith, λ e. absurd (ground arith)), single_spaces-IsClean false cs))

trim_start-All : (P : ℕ → Type 0) (s : CodeUnits) → All P s → All P (trim_start s)
unfolding trim_start
trim_start-All P [] h = tt
trim_start-All P (c ∷ cs) (h, hs) =
    if_elim (All P) (is_space c) _ _ (λ t. trim_start-All P cs hs) (λ f. (h, hs))

trim-All : (P : ℕ → Type 0) (s : CodeUnits) → All P s → All P (trim s)
unfolding trim
trim-All P s h = All-reverse P _ (
    trim_start-All P (reverse (trim_start s)) (All-reverse P (trim_start s) (trim_start-All P s h)))

-- A clean title has no dot, no underscore and no white space but the space.
pub clean_title-IsClean : (s : CodeUnits) → All IsClean (clean_title s)
unfolding clean_title
clean_title-IsClean [] = grind arith
clean_title-IsClean (c ∷ cs) =
    trim-All IsClean _ (single_spaces-IsClean false (drop_extension (drop_job_prefix (c ∷ cs))))

palette_hash_from-hash_from :
    (hash : ℕ) (id : CodeUnits) → palette_hash_from hash id ≡ hash_from hash id
unfolding palette_hash_from hash_from
palette_hash_from-hash_from hash [] = refl
palette_hash_from-hash_from hash (c ∷ cs) =
    let step : (hash * 31 + c) % 2 ^ 32 ≡ hash_step hash c = omega arith in
    rw step (palette_hash_from-hash_from (hash_step hash c) cs)

hash_from-bound : (hash : ℕ) (id : CodeUnits) → hash < 2 ^ 32 → hash_from hash id < 2 ^ 32
unfolding hash_from
hash_from-bound hash [] h = h
hash_from-bound hash (c ∷ cs) h = hash_from-bound (hash_step hash c) cs (omega arith)

-- The hues of a gradient are two different angles. The palette takes the same first hue unless the
-- hash is a negative number.
pub job_id_to_gradient-hues :
    (id : CodeUnits)
    → ((job_id_to_gradient id).first < 360)
      × ((job_id_to_gradient id).second < 360)
      × ((job_id_to_gradient id).first ≢ (job_id_to_gradient id).second)
      × (hash_from 0 id < 2 ^ 31 → (palette_gradient id).first ≡ (job_id_to_gradient id).first)
unfolding job_id_to_gradient palette_gradient
job_id_to_gradient-hues id = (
  omega arith,
  omega arith,
  omega arith,
  λ h. rw (palette_hash_from-hash_from 0 id) (ap (λ x. x % 360) (ground arith)),
)

All-any : (P : ℕ → Type 0) (s : CodeUnits) → ((c : ℕ) → P c) → All P s
All-any P [] h = tt
All-any P (c ∷ cs) h = (h c, All-any P cs h)

replace_all-All :
    (P : ℕ → Type 0) (c : ℕ) (by s : CodeUnits)
    → All P by
    → All (λ d. d ≢ c → P d) s
    → All P (replace_all c by s)
unfolding replace_all
replace_all-All P c by [] b h = tt
replace_all-All P c by (d ∷ ds) b (h, hs) =
    if_elim (All P) (d == c) _ _
      (λ t. All-append P by (replace_all c by ds) b (replace_all-All P c by ds b hs))
      (λ f. (h (ground arith), replace_all-All P c by ds b hs))

-- A character that cannot end the value of an attribute.
abbrev pub IsUnquoted : ℕ → Type 0
IsUnquoted c = (c ≢ 34) × (c ≢ 39)

-- An escaped text has no quotation mark of either kind, so it stays inside the attribute.
pub escape_attr-IsUnquoted : (s : CodeUnits) → All IsUnquoted (escape_attr s)
unfolding escape_attr
escape_attr-IsUnquoted s = replace_all-All IsUnquoted 39 (codes "&#39;") _ (grind arith) (
    replace_all-All (λ d. d ≢ 39 → IsUnquoted d) 34 (codes "&quot;") s (grind arith)
      (All-any _ s (λ c f g. (f, g))))

-- A character that can neither end an attribute nor start or end a tag.
abbrev pub IsInert : ℕ → Type 0
IsInert c = (c ≢ 60) × (c ≢ 62) × (c ≢ 34) × (c ≢ 39)

-- What the palette writes into its HTML neither ends an attribute nor starts or ends a tag.
pub palette_esc-IsInert : (s : CodeUnits) → All IsInert (palette_esc s)
unfolding palette_esc
palette_esc-IsInert s = replace_all-All IsInert 39 (codes "&#39;") _ (grind arith) (
    replace_all-All (λ d. d ≢ 39 → IsInert d) 34 (codes "&quot;") _ (grind arith)
      (replace_all-All (λ d. d ≢ 34 → d ≢ 39 → IsInert d) 62 (codes "&gt;") _ (grind arith)
        (replace_all-All (λ d. d ≢ 62 → d ≢ 34 → d ≢ 39 → IsInert d) 60 (codes "&lt;") _
          (grind arith) (All-any _ _ (λ c f g h k. (f, g, h, k))))))
