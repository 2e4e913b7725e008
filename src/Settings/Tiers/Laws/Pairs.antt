-- ===== src/Settings/Tiers/Laws/Pairs.antt =====
-- static/settings.js: one tier and its text.
use telegram_hls_streamer_v.Base.{All-append, All-map}
use telegram_hls_streamer_v.Base.{
  ℕ, zero, suc, true, false, [], ◌∷◌, ◌++◌, Numeric, integer, negative, not_integer, ◌≡◌, refl, ◌≢◌,
  arith, All, ◌==◌, ◌⊎◌, inl, inr,
}
use telegram_hls_streamer_v.Base.Decimal.{CodeUnits, show, show-IsDigit, show-ne-nil, IsDigit}
use telegram_hls_streamer_v.Shared.Text.{trim, is_empty, split_on, join_with, is_space}
use telegram_hls_streamer_v.Shared.Text.Laws.{trim_solid, parse_int-show, Lacks, split_on-join_with}
use telegram_hls_streamer_v.Settings.Tiers.{
  Tier, is_positive, parse_pair, is_some_tier, is_whole_tier, serialize_tier,
}

-- A character of a bitrate such as 5M: no white space, no comma, no colon.
abbrev pub IsPlain : ℕ → Type 0
IsPlain c = (is_space c ≡ false) × ((c == 44) ≡ false) × ((c == 58) ≡ false)

-- A tier with a positive height and a bitrate of such characters.
pub record IsTier (t : Tier) : Type 0 where
  pub positive : is_positive t.height ≡ true
  pub plain : All IsPlain t.bitrate
  pub filled : t.bitrate ≢ []

abbrev pub solid : (b : CodeUnits) → All IsPlain b → All (λ c. is_space c ≡ false) b
solid b h = All-map IsPlain (λ c. is_space c ≡ false) b (λ c k. k.0) h

pub digit_solid : (ds : CodeUnits) → All IsDigit ds → All (λ c. is_space c ≡ false) ds
digit_solid ds h = All-map IsDigit (λ c. is_space c ≡ false) ds (λ c k. ground arith) h

pub digit-Lacks : (sep : ℕ) (ds : CodeUnits) → (sep ≡ 44 ⊎ sep ≡ 58) → All IsDigit ds → Lacks sep ds
digit-Lacks sep ds e h = All-map IsDigit (λ c. (c == sep) ≡ false) ds (λ c k. ground arith) h

-- The text of such a tier, by its height.
pub serialize_tier-text :
    (n : ℕ) (b : CodeUnits)
    → All IsPlain b
    → serialize_tier (record { height = integer (suc n); bitrate = b }) ≡ show (suc n) ++ 58 ∷ b
unfolding serialize_tier
serialize_tier-text n b h = rw (trim_solid b (solid b h)) refl

pub not_empty : (s : CodeUnits) → s ≢ [] → is_empty s ≡ false
not_empty [] h = absurd (h refl)
not_empty (c ∷ cs) h = refl

pub split-text :
    (n : ℕ) (b : CodeUnits)
    → All IsPlain b
    → split_on 58 (trim (show n ++ 58 ∷ b)) ≡ show n ∷ b ∷ []
unfolding join_with
split-text n b h =
    let solid_text : All (λ c. is_space c ≡ false) (show n ++ 58 ∷ b) =
      All-append (λ c. is_space c ≡ false) (show n) (58 ∷ b) (digit_solid (show n) (show-IsDigit n))
        (refl, solid b h) in
    rw (trim_solid (show n ++ 58 ∷ b) solid_text) (
      split_on-join_with 58 (show n) (b ∷ []) (
        digit-Lacks 58 (show n) (inr refl) (show-IsDigit n),
        (All-map IsPlain (λ c. (c == 58) ≡ false) b (λ c k. k.2) h, tt),
      ))

pub parse_pair-text :
    (n : ℕ) (b : CodeUnits)
    → All IsPlain b
    → parse_pair (show n ++ 58 ∷ b) ≡ record { height = integer n; bitrate = b }
unfolding parse_pair
parse_pair-text n b h =
    rw
      (
        split-text n b h,
        not_empty (show n) (show-ne-nil n),
        parse_int-show n,
        trim_solid b (solid b h),
      )
      refl

-- A positive height is a successor.
pub by_height :
    (t : Tier) (P : Tier → Type 0)
    → IsTier t
    → ((n : ℕ) (b : CodeUnits)
        → All IsPlain b
        → b ≢ []
        → P (record { height = integer (suc n); bitrate = b }))
    → P t
by_height t P k f = go t.height k.positive
  where
    go : (h : Numeric) → is_positive h ≡ true → P (record { height = h; bitrate = t.bitrate })
    go (integer (suc n)) e = f n t.bitrate k.plain k.filled
    go (integer zero) e = absurd (cc e)
    go (negative n) e = absurd (cc e)
    go not_integer e = absurd (cc e)

pub parse_pair-serialize_tier : (t : Tier) → IsTier t → parse_pair (serialize_tier t) ≡ t
parse_pair-serialize_tier t k =
    by_height t (λ (u : Tier). parse_pair (serialize_tier u) ≡ u) k
      λ n b h ne. rw (serialize_tier-text n b h) (parse_pair-text (suc n) b h)

pub serialize_tier-Lacks : (t : Tier) → IsTier t → Lacks 44 (serialize_tier t)
serialize_tier-Lacks t k =
    by_height t (λ (u : Tier). Lacks 44 (serialize_tier u)) k
      λ n b h ne. rw (serialize_tier-text n b h) (
        All-append (λ c. (c == 44) ≡ false) (show (suc n)) (58 ∷ b)
          (digit-Lacks 44 (show (suc n)) (inl refl) (show-IsDigit (suc n)))
          (refl, All-map IsPlain (λ c. (c == 44) ≡ false) b (λ c k. k.1) h))

pub append-ne-nil : (xs ys : CodeUnits) → xs ≢ [] → xs ++ ys ≢ []
append-ne-nil [] ys h = absurd (h refl)
append-ne-nil (x ∷ xs) ys h = λ e. cc e

pub serialize_tier-ne-nil : (t : Tier) → IsTier t → serialize_tier t ≢ []
serialize_tier-ne-nil t k =
    by_height t (λ (u : Tier). serialize_tier u ≢ []) k
      λ n b h ne.
        rw (serialize_tier-text n b h) (append-ne-nil (show (suc n)) (58 ∷ b) (show-ne-nil (suc n)))

pub is_whole-IsTier : (t : Tier) → IsTier t → is_whole_tier t ≡ true
is_whole-IsTier t k =
    by_height t (λ (u : Tier). is_whole_tier u ≡ true) k
      λ n b h ne. rw (trim_solid b (solid b h), not_empty b ne) refl

pub is_some-IsTier : (t : Tier) → IsTier t → is_some_tier t ≡ true
is_some-IsTier t k = rw (k.positive) refl
