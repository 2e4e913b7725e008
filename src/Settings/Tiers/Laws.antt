-- ===== src/Settings/Tiers/Laws.antt =====
-- static/settings.js: tiers survive being saved and read again, and the editor saves what it shows.
mod Pairs
use telegram_hls_streamer_v.Base.{
  Bool, true, List, [], ◌∷◌, Option, none, some, filter, map, ◌≡◌, refl, ◌≢◌, arith, All, ap, ◌∙◌,
  if_elim, ◌⊎◌, inl, inr,
}
use telegram_hls_streamer_v.Base.Decimal.{CodeUnits}
use telegram_hls_streamer_v.Shared.Text.{split_on, join_with}
use telegram_hls_streamer_v.Shared.Text.Laws.{Lacks, split_on-join_with}
use telegram_hls_streamer_v.Settings.Tiers.{
  Tier, parse_pair, is_some_tier, parse_tiers, is_whole_tier, serialize_tier, serialize_tiers,
  Modal, Editor, build_tiers_editor, set_tier_data, open_tier_modal, close_tier_modal, type_tier,
  is_accepted, save_modal, save_tier_modal, delete_tier, TierEvent, open_new, open_at, type_in,
  save_it, close_it, delete_at, tier_step, tier_run,
}
pub use telegram_hls_streamer_v.Settings.Tiers.Laws.Pairs.{IsTier}
use telegram_hls_streamer_v.Settings.Tiers.Laws.Pairs.{
  parse_pair-serialize_tier, serialize_tier-Lacks, append-ne-nil, serialize_tier-ne-nil,
  is_whole-IsTier, is_some-IsTier,
}

filter_all : (p : Tier → Bool) (ts : List Tier) → All (λ t. p t ≡ true) ts → filter p ts ≡ ts
filter_all p [] h = refl
filter_all p (t ∷ ts) (h, hs) = ground (arith, filter_all p ts hs)

each :
    (P : Tier → Type 0) (ts : List Tier) → ((t : Tier) → IsTier t → P t) → All IsTier ts → All P ts
each P [] f h = tt
each P (t ∷ ts) f (h, hs) = (f t h, each P ts f hs)

map-parse_pair : (ts : List Tier) → All IsTier ts → map parse_pair (map serialize_tier ts) ≡ ts
map-parse_pair [] h = refl
map-parse_pair (t ∷ ts) (h, hs) = rw (parse_pair-serialize_tier t h, map-parse_pair ts hs) refl

texts-Lacks : (ts : List Tier) → All IsTier ts → All (Lacks 44) (map serialize_tier ts)
texts-Lacks [] h = tt
texts-Lacks (t ∷ ts) (h, hs) = (serialize_tier-Lacks t h, texts-Lacks ts hs)

parse_tiers-ne :
    (s : CodeUnits) → s ≢ [] → parse_tiers s ≡ filter is_some_tier (map parse_pair (split_on 44 s))
unfolding parse_tiers
parse_tiers-ne [] h = absurd (h refl)
parse_tiers-ne (c ∷ cs) h = refl

join-ne-nil : (p : CodeUnits) (ps : List CodeUnits) → p ≢ [] → join_with 44 (p ∷ ps) ≢ []
unfolding join_with
join-ne-nil p [] h = h
join-ne-nil p (q ∷ qs) h = append-ne-nil p (44 ∷ join_with 44 (q ∷ qs)) h

-- Tiers with a positive height and a bitrate without white space, comma and colon are read again as they
-- were saved.
pub parse_tiers-serialize_tiers :
    (ts : List Tier) → All IsTier ts → parse_tiers (serialize_tiers ts) ≡ ts
unfolding serialize_tiers
parse_tiers-serialize_tiers [] h = unfold parse_tiers join_with in refl
parse_tiers-serialize_tiers (t ∷ ts) (h, hs) =
    rw
      (filter_all is_whole_tier (t ∷ ts)
        (each (λ u. is_whole_tier u ≡ true) (t ∷ ts) is_whole-IsTier (h, hs)))
      (parse_tiers-ne (join_with 44 (map serialize_tier (t ∷ ts)))
          (join-ne-nil (serialize_tier t) (map serialize_tier ts) (serialize_tier-ne-nil t h))
        ∙ ap (λ (texts : List CodeUnits). filter is_some_tier (map parse_pair texts))
            (split_on-join_with 44 (serialize_tier t) (map serialize_tier ts)
              (texts-Lacks (t ∷ ts) (h, hs)))
        ∙ ap (λ (us : List Tier). filter is_some_tier us) (map-parse_pair (t ∷ ts) (h, hs))
        ∙ filter_all is_some_tier (t ∷ ts)
            (each (λ u. is_some_tier u ≡ true) (t ∷ ts) is_some-IsTier (h, hs)))

-- The hidden input holds the text of the shown tiers; a setting that was not touched keeps its own text.
abbrev pub IsSynced : CodeUnits → Editor → Type 0
IsSynced value e =
    (e.hidden ≡ serialize_tiers e.tiers) ⊎ ((e.hidden ≡ value) × (e.tiers ≡ parse_tiers value))

save_modal-IsSynced :
    (value : CodeUnits) (m : Modal) (e : Editor)
    → IsSynced value e
    → IsSynced value (save_modal m e)
unfolding save_modal close_tier_modal set_tier_data
save_modal-IsSynced value m e h =
    if_elim (IsSynced value) (is_accepted m) _ _ (λ t. inl refl) (λ t. h)

tier_step-IsSynced :
    (value : CodeUnits) (e : Editor) (v : TierEvent)
    → IsSynced value e
    → IsSynced value (tier_step e v)
unfolding tier_step open_tier_modal close_tier_modal type_tier save_tier_modal delete_tier
    set_tier_data
tier_step-IsSynced value e open_new h = h
tier_step-IsSynced value e (open_at i) h = h
tier_step-IsSynced value e (type_in a b) h = by_modal e.modal
  where
    by_modal :
        (o : Option Modal)
        → IsSynced value (elim o [
          | none ↦ e
          | some m ↦ record e { modal = some (record m { height_input = a; bitrate_input = b }) }
        ])
    by_modal none = h
    by_modal (some m) = h
tier_step-IsSynced value e save_it h = by_modal e.modal
  where
    by_modal : (o : Option Modal) → IsSynced value (elim o [ none ↦ e | some m ↦ save_modal m e ])
    by_modal none = h
    by_modal (some m) = save_modal-IsSynced value m e h
tier_step-IsSynced value e close_it h = h
tier_step-IsSynced value e (delete_at i) h = inl refl

tier_run-IsSynced :
    (value : CodeUnits) (e : Editor) (vs : List TierEvent)
    → IsSynced value e
    → IsSynced value (tier_run e vs)
unfolding tier_run
tier_run-IsSynced value e [] h = h
tier_run-IsSynced value e (v ∷ vs) h =
    tier_run-IsSynced value (tier_step e v) vs (tier_step-IsSynced value e v h)

-- Whatever is done in the editor of a setting, what will be saved is the text of the tiers that are
-- shown, or the setting's old text where the tiers shown are still those that were read from it.
pub tier_run-build :
    (value : CodeUnits) (vs : List TierEvent)
    → IsSynced value (tier_run (build_tiers_editor value) vs)
unfolding build_tiers_editor
tier_run-build value vs = tier_run-IsSynced value (build_tiers_editor value) vs (inr (refl, refl))
